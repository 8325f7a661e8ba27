-- ===== src/Booking/Locks/Minutes.antt =====
-- The minutes of an interval (src/appointments/appointment-interval-lock.service.ts).
use panalbee_clock_backend.Base.{
  ℕ, zero, suc, ◌+◌, ◌-◌, ◌/◌, ◌%◌, ◌≤◌, ◌<◌, Bool, true, false, List, any, beq, ltb, leb, ltb→lt,
  leb→lt, leb→le, beq→eq, ok, err, ◌≡◌, refl, Bool-cases, inl, inr, arith, ◌⊎◌, ◌↔◌, ◌≢◌,
}
use panalbee_clock_backend.Booking.Locks.{has_seconds, starts_from, minute_starts, not_aligned}

abbrev pub has_minute : ℕ → List ℕ → Bool
has_minute m ms = any (λ n. beq n m) ms

has_seconds-false : (t : ℕ) → has_seconds t ≡ false → t % 60_000 ≡ 0
has_seconds-false t h =
    let minutes : t / 1000 % 60 ≡ 0 = ground arith in
    let seconds : t % 1000 ≡ 0 = ground arith in omega arith

beq_refl : (n : ℕ) → beq n n ≡ true
beq_refl n = ground arith

-- Every minute from the cursor on is in the list, where the fuel lasts.
starts_from_complete :
    (fuel cursor ends_at m : ℕ)
    → ends_at ≤ cursor + fuel
    → cursor % 60_000 ≡ 0
    → m % 60_000 ≡ 0
    → cursor ≤ m
    → m < ends_at
    → has_minute m (starts_from fuel cursor ends_at) ≡ true
unfolding starts_from
starts_from_complete zero cursor ends_at m enough c_aligned m_aligned after before =
    absurd (omega arith)
starts_from_complete (suc fuel) cursor ends_at m enough c_aligned m_aligned after before =
    let inside : ltb cursor ends_at ≡ true = ground arith in
    elim (Bool-cases (beq cursor m)) [
      | inl here ↦ rw (inside, here) refl
      | inr there ↦
          let further : cursor + 60_000 ≤ m =
            (let apart : cursor ≢ m = λ e. cc (rw (e, beq_refl m) at there) in omega arith) in
          let later =
            starts_from_complete fuel (cursor + 60_000) ends_at m (omega arith) (omega arith)
              m_aligned further before in
          rw (inside, there) later
    ]

-- And nothing else is.
starts_from_sound :
    (fuel cursor ends_at m : ℕ)
    → cursor % 60_000 ≡ 0
    → has_minute m (starts_from fuel cursor ends_at) ≡ true
    → (cursor ≤ m) × (m < ends_at) × (m % 60_000 ≡ 0)
unfolding starts_from
starts_from_sound zero cursor ends_at m aligned h = cc
starts_from_sound (suc fuel) cursor ends_at m aligned h = elim (Bool-cases (ltb cursor ends_at)) [
  | inr over ↦ cc (rw over at h)
  | inl inside ↦
      let before = ltb→lt cursor ends_at inside in
      elim (Bool-cases (beq cursor m)) [
        | inl here ↦ let same = beq→eq cursor m here in (omega arith, omega arith, omega arith)
        | inr there ↦
            let (after, last, whole) =
              starts_from_sound fuel (cursor + 60_000) ends_at m (omega arith)
                (rw (inside, there) at h) in
            (omega arith, last, whole)
      ]
]

-- An interval that has its minutes locked.
pub record IsAligned (starts_at ends_at : ℕ) : Type 0 where
  pub ordered : starts_at < ends_at
  pub starts : starts_at % 60_000 ≡ 0
  pub ends : ends_at % 60_000 ≡ 0

has_seconds-true : (t : ℕ) → has_seconds t ≡ true → t % 60_000 ≢ 0
has_seconds-true t h whole =
    let minutes : t / 1000 % 60 ≡ 0 = omega arith in
    let seconds : t % 1000 ≡ 0 = omega arith in ground arith

-- minuteStarts answers exactly for the ordered intervals between whole minutes.
pub minute_starts-decides :
    (starts_at ends_at : ℕ)
    → (IsAligned starts_at ends_at
        × (minute_starts starts_at ends_at
            ≡ ok (starts_from (ends_at - starts_at) starts_at ends_at)))
      ⊎ ((¬ IsAligned starts_at ends_at) × (minute_starts starts_at ends_at ≡ err not_aligned))
unfolding minute_starts
minute_starts-decides starts_at ends_at = elim (Bool-cases (leb ends_at starts_at)) [
  | inl back ↦ inr (
    (λ a. let o = a.ordered in let p = leb→le ends_at starts_at back in omega arith),
    rw back refl,
  )
  | inr forth ↦ elim (Bool-cases (has_seconds starts_at)) [
    | inl s ↦ inr ((λ a. has_seconds-true starts_at s a.starts), rw (forth, s) refl)
    | inr s ↦ elim (Bool-cases (has_seconds ends_at)) [
      | inl e ↦ inr ((λ a. has_seconds-true ends_at e a.ends), rw (forth, s, e) refl)
      | inr e ↦ inl (
        record {
          ordered = leb→lt ends_at starts_at forth;
          starts = has_seconds-false starts_at s;
          ends = has_seconds-false ends_at e;
        },
        rw (forth, s, e) refl,
      )
    ]
  ]
]

pub minute_starts_cases :
    (starts_at ends_at : ℕ) {minutes : List ℕ}
    → minute_starts starts_at ends_at ≡ ok minutes
    → (starts_at < ends_at)
      × (has_seconds starts_at ≡ false)
      × (has_seconds ends_at ≡ false)
      × (starts_from (ends_at - starts_at) starts_at ends_at ≡ minutes)
unfolding minute_starts
minute_starts_cases starts_at ends_at {minutes} h =
    let answered : (leb ends_at starts_at ≡ false)
        × (has_seconds starts_at ≡ false)
        × (has_seconds ends_at ≡ false)
        × (starts_from (ends_at - starts_at) starts_at ends_at ≡ minutes) =
      ground arith in
    (leb→lt ends_at starts_at answered.0, answered.1, answered.2, answered.3)

-- minuteStarts answers with exactly the whole minutes from the start to before the end, where the
-- interval is ordered and both ends are whole minutes.
pub minute_starts_ok :
    (starts_at ends_at : ℕ) {minutes : List ℕ}
    → minute_starts starts_at ends_at ≡ ok minutes
    → IsAligned starts_at ends_at
      × ((m : ℕ)
          → (has_minute m minutes ≡ true) ↔ ((starts_at ≤ m) × (m < ends_at) × (m % 60_000 ≡ 0)))
minute_starts_ok starts_at ends_at {minutes} h =
    let (ordered, whole_start, whole_end, listed) = minute_starts_cases starts_at ends_at h in
    let starts = has_seconds-false starts_at whole_start in
    let ends = has_seconds-false ends_at whole_end in
    (
      record { ordered = ordered; starts = starts; ends = ends },
      λ m. (
        (λ found.
            starts_from_sound (ends_at - starts_at) starts_at ends_at m starts (rw listed found)),
        (λ (after, before, whole). rw (← listed) (
            starts_from_complete (ends_at - starts_at) starts_at ends_at m (omega arith) starts
              whole after before)),
      ),
    )
