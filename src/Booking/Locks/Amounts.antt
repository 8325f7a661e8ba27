-- ===== src/Booking/Locks/Amounts.antt =====
-- Which locks `acquire` writes, and what `release` takes away
-- (src/appointments/appointment-interval-lock.service.ts).
use panalbee_clock_backend.Base.{
  ℕ, zero, suc, ◌+◌, ◌-◌, ◌*◌, ◌%◌, ◌≤◌, String, false, not, List, [], ◌∷◌, ◌++◌, any, keep, ltb,
  ltb→lt, ok, ◌≡◌, refl, ◌∙◌, Bool-cases, inl, inr, arith, Result-cases, eq_refl, ◌>>◌,
}
use panalbee_clock_backend.Booking.Locks.{
  IntervalLock, is_at, is_owned, starts_from, minute_starts, insert_locks, acquire, release,
}
use panalbee_clock_backend.Booking.Locks.Minutes.{minute_starts_ok, minute_starts_cases}
use panalbee_clock_backend.Booking.Locks.Acquire.{
  new_lock, acquire-inserted, acquire-conflict, acquire-refused,
}

none_owned :
    (tenant_id appointment_id : String) (locks : List IntervalLock)
    → any (is_owned tenant_id appointment_id) locks ≡ false
    → keep (λ l. not (is_owned tenant_id appointment_id l)) locks ≡ locks
none_owned tenant_id appointment_id [] h = refl
none_owned tenant_id appointment_id (l ∷ ls) h =
    elim (Bool-cases (is_owned tenant_id appointment_id l)) [
      | inl owned ↦ cc (rw owned at h)
      | inr other ↦ rw (other, none_owned tenant_id appointment_id ls (rw other at h)) refl
    ]

module _ (tenant_id staff_id appointment_id : String) where
  -- The locks of the first minutes after `starts_at`, the last minute first.
  abbrev pub minute_locks : ℕ → ℕ → List IntervalLock
  minute_locks starts_at zero = []
  minute_locks starts_at (suc n) =
      new_lock tenant_id staff_id appointment_id (starts_at + n * 60_000) ∷ minute_locks starts_at n

  -- From the minute after `n` others on, which are locked already.
  insert_locks-starts_from :
      (fuel starts_at n cursor ends_at : ℕ) (locks : List IntervalLock)
      → starts_at + n * 60_000 ≡ cursor
      → cursor ≤ ends_at
      → ends_at ≤ cursor + fuel
      → starts_at % 60_000 ≡ 0
      → ends_at % 60_000 ≡ 0
      → let r =
          insert_locks tenant_id staff_id appointment_id
            (starts_from fuel cursor ends_at)
            (minute_locks starts_at n ++ locks) in
        r.0 ≡ ok tt
        → (m : ℕ) × (starts_at + m * 60_000 ≡ ends_at) × (r.1 ≡ minute_locks starts_at m ++ locks)
  unfolding insert_locks starts_from
  insert_locks-starts_from zero starts_at n cursor ends_at locks here before enough starts ends h =
      (n, omega arith, refl)
  insert_locks-starts_from (suc fuel) starts_at n cursor ends_at locks here before enough starts
        ends h =
      elim (Bool-cases (ltb cursor ends_at)) [
        | inr over ↦ (n, ground arith, rw over refl)
        | inl inside ↦
            let more = ltb→lt cursor ends_at inside in
            elim (Bool-cases
              (any (is_at tenant_id staff_id cursor) (minute_locks starts_at n ++ locks))) [
                | inl taken ↦ cc (rw (inside, taken) at h)
                | inr free ↦
                    let placed : new_lock tenant_id staff_id appointment_id cursor
                          ∷ (minute_locks starts_at n ++ locks)
                        ≡ minute_locks starts_at (suc n) ++ locks =
                      rw here refl in
                    let rest =
                      insert_locks-starts_from fuel starts_at (suc n) (cursor + 60_000) ends_at
                        locks (omega arith) (omega arith) (omega arith) starts ends
                        (rw (inside, free, placed) at h) in
                    rw (inside, free, placed) rest
              ]
      ]

  insert_locks_owned :
      (ms : List ℕ) (locks : List IntervalLock)
      → keep
          (λ l. not (is_owned tenant_id appointment_id l))
          (insert_locks tenant_id staff_id appointment_id ms locks).1
        ≡ keep (λ l. not (is_owned tenant_id appointment_id l)) locks
  unfolding insert_locks
  insert_locks_owned [] locks = refl
  insert_locks_owned (m ∷ ms) locks = elim (Bool-cases (any (is_at tenant_id staff_id m) locks)) [
    | inl taken ↦ rw taken refl
    | inr free ↦
        let dropped : keep (λ l. not (is_owned tenant_id appointment_id l))
              (new_lock tenant_id staff_id appointment_id m ∷ locks)
            ≡ keep (λ l. not (is_owned tenant_id appointment_id l)) locks =
          rw (eq_refl tenant_id, eq_refl appointment_id) refl in
        rw free
          (insert_locks_owned ms (new_lock tenant_id staff_id appointment_id m ∷ locks) ∙ dropped)
  ]

  -- What an acquisition that was answered did.
  acquire-cases :
      (starts_at ends_at : ℕ) (locks : List IntervalLock)
      → (acquire tenant_id staff_id appointment_id starts_at ends_at locks).0 ≡ ok tt
      → (minutes : List ℕ) × (minute_starts starts_at ends_at ≡ ok minutes)
        × ((insert_locks tenant_id staff_id appointment_id minutes locks).0 ≡ ok tt)
        × (acquire tenant_id staff_id appointment_id starts_at ends_at locks
            ≡ (ok tt, (insert_locks tenant_id staff_id appointment_id minutes locks).1))
  acquire-cases starts_at ends_at locks done =
      elim (Result-cases (minute_starts starts_at ends_at)) [
        | inr (e, refused) ↦
            cc (rw (acquire-refused _ _ _ starts_at ends_at locks e refused) at done)
        | inl (minutes, listed) ↦
            elim (Result-cases (insert_locks tenant_id staff_id appointment_id minutes locks).0) [
              | inr (e, failed) ↦ cc (
                  rw (acquire-conflict _ _ _ starts_at ends_at locks minutes e listed failed) at
                    done)
              | inl (all, inserted) ↦ (
                minutes,
                listed,
                inserted,
                acquire-inserted _ _ _ starts_at ends_at locks minutes listed inserted,
              )
            ]
      ]

  -- A granted interval locks each of its minutes once, from the start to before the end, and nothing
  -- else: the locks are those that were there and, before them, those of the minutes.
  pub acquire-minute_locks :
      (starts_at ends_at : ℕ) (locks : List IntervalLock)
      → let r = acquire tenant_id staff_id appointment_id starts_at ends_at locks in
        r.0 ≡ ok tt
        → (n : ℕ) × (starts_at + n * 60_000 ≡ ends_at) × (r.1 ≡ minute_locks starts_at n ++ locks)
  acquire-minute_locks starts_at ends_at locks done =
      let (minutes, listed, inserted, acquired) = acquire-cases starts_at ends_at locks done in
      let aligned = (minute_starts_ok starts_at ends_at listed).0 in
      let all = (minute_starts_cases starts_at ends_at listed).3 in
      let ordered = aligned.ordered in
      let (n, length, added) =
        insert_locks-starts_from (ends_at - starts_at) starts_at 0 starts_at ends_at locks
          (omega arith) (omega arith) (omega arith) aligned.starts aligned.ends
          (rw (← all) at inserted) in
      (n, length, rw (acquired, ← all) added)

  -- An appointment that had no locks gives back all that it acquired, and the others' stay.
  pub acquire-release :
      (starts_at ends_at : ℕ) (locks : List IntervalLock)
      → (acquire tenant_id staff_id appointment_id starts_at ends_at locks).0 ≡ ok tt
      → any (is_owned tenant_id appointment_id) locks ≡ false
      → (acquire tenant_id staff_id appointment_id starts_at ends_at
            >> release tenant_id appointment_id)
          locks
        ≡ (ok tt, locks)
  unfolding release
  acquire-release starts_at ends_at locks done none_before =
      let (minutes, listed, inserted, acquired) = acquire-cases starts_at ends_at locks done in
      rw
        (
          acquired,
          insert_locks_owned minutes locks,
          none_owned tenant_id appointment_id locks none_before,
        )
        refl
