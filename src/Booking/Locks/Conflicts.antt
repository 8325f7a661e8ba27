-- ===== src/Booking/Locks/Conflicts.antt =====
-- When `acquire` is refused (src/appointments/appointment-interval-lock.service.ts).
use panalbee_clock_backend.Base.{
  ℕ, zero, suc, ◌+◌, ◌-◌, ◌%◌, ◌≤◌, ◌<◌, String, Bool, true, false, List, ◌∷◌, any, beq, ltb,
  ltb→lt, ok, err, ◌≡◌, refl, Bool-cases, inl, inr, arith, ◌⊎◌, Exception, duplicate_key, ap,
}
use panalbee_clock_backend.Booking.Locks.{
  IntervalLock, interval_index, is_at, starts_from, insert_locks, acquire, slot_conflict,
  not_aligned,
}
use panalbee_clock_backend.Booking.Locks.Minutes.{
  IsAligned, minute_starts-decides, minute_starts_ok,
}
use panalbee_clock_backend.Booking.Locks.Acquire.{
  new_lock, acquire-inserted, acquire-conflict, acquire-refused, acquire-IsGranted,
}

older :
    (p : IntervalLock → Bool) (l : IntervalLock) (ls : List IntervalLock)
    → p l ≡ false
    → any p (l ∷ ls) ≡ true
    → any p ls ≡ true
older p l ls h all = rw h at all

module _ (tenant_id staff_id : String) where
  -- A minute from `cursor` to before `ends_at` that is locked already.
  pub record IsTaken (cursor ends_at : ℕ) (locks : List IntervalLock) : Type 0 where
    pub minute : ℕ
    pub after : cursor ≤ minute
    pub before : minute < ends_at
    pub whole : minute % 60_000 ≡ 0
    pub taken : any (is_at tenant_id staff_id minute) locks ≡ true

  later_minute :
      (appointment_id : String) (cursor ends_at : ℕ) (locks : List IntervalLock)
      → IsTaken
          (cursor + 60_000)
          ends_at
          (new_lock tenant_id staff_id appointment_id cursor ∷ locks)
      → IsTaken cursor ends_at locks
  later_minute appointment_id cursor ends_at locks t =
      let m = t.minute in
      let after = t.after in
      let other : beq cursor m ≡ false = ground arith in
      record {
        minute = m;
        after = omega arith;
        before = t.before;
        whole = t.whole;
        taken =
            older (is_at tenant_id staff_id m) (new_lock tenant_id staff_id appointment_id cursor)
              locks (rw other (ground arith)) t.taken;
      }

  -- The minutes of an interval are all inserted, or one of them was locked.
  insert_locks-decides :
      (appointment_id : String) (fuel cursor ends_at : ℕ) (locks : List IntervalLock)
      → cursor % 60_000 ≡ 0
      → let r =
          insert_locks tenant_id staff_id appointment_id (starts_from fuel cursor ends_at) locks in
        (r.0 ≡ ok tt) ⊎ (((e : Exception) × (r.0 ≡ err e)) × IsTaken cursor ends_at locks)
  unfolding insert_locks starts_from
  insert_locks-decides appointment_id zero cursor ends_at locks whole = inl refl
  insert_locks-decides appointment_id (suc fuel) cursor ends_at locks whole =
      elim (Bool-cases (ltb cursor ends_at)) [
        | inr over ↦ rw over (inl refl)
        | inl inside ↦ elim (Bool-cases (any (is_at tenant_id staff_id cursor) locks)) [
          | inl taken ↦
              rw (inside, taken)
                (inr (
                  (duplicate_key interval_index, refl),
                  record {
                    minute = cursor;
                    after = omega arith;
                    before = ltb→lt cursor ends_at inside;
                    whole = whole;
                    taken = taken;
                  },
                ))
          | inr free ↦
              rw (inside, free)
                (elim (insert_locks-decides appointment_id fuel (cursor + 60_000) ends_at
                  (new_lock tenant_id staff_id appointment_id cursor ∷ locks) (omega arith)) [
                    | inl done ↦ inl done
                    | inr (failed, t) ↦
                        inr (failed, later_minute appointment_id cursor ends_at locks t)
                  ])
        ]
      ]

  acquired_free :
      (appointment_id : String) (starts_at ends_at : ℕ) (locks : List IntervalLock)
      → (acquire tenant_id staff_id appointment_id starts_at ends_at locks).0 ≡ ok tt
      → ¬ IsTaken starts_at ends_at locks
  acquired_free appointment_id starts_at ends_at locks done t =
      let g = acquire-IsGranted tenant_id staff_id appointment_id starts_at ends_at locks done in
      let found =
        ((minute_starts_ok starts_at ends_at g.listed).1 t.minute).1
          ((t.after, t.before, t.whole)) in
      let free = g.free t.minute found in let taken = t.taken in cc

  -- acquire fails with the error of minuteStarts exactly where the interval is not one of whole
  -- minutes; otherwise it answers where none of the minutes is locked for the member of the staff, and
  -- fails with APPOINTMENT_SLOT_CONFLICT where one is.
  pub acquire-decides :
      (appointment_id : String) (starts_at ends_at : ℕ) (locks : List IntervalLock)
      → let r = acquire tenant_id staff_id appointment_id starts_at ends_at locks in
        ((¬ IsAligned starts_at ends_at) × (r.0 ≡ err not_aligned))
        ⊎ ((IsAligned starts_at ends_at × (¬ IsTaken starts_at ends_at locks) × (r.0 ≡ ok tt))
            ⊎ (IsAligned starts_at ends_at
                × IsTaken starts_at ends_at locks
                × (r.0 ≡ err slot_conflict)))
  acquire-decides appointment_id starts_at ends_at locks =
      elim (minute_starts-decides starts_at ends_at) [
        | inr (unaligned, refused) ↦ inl (
          unaligned,
          ap (λ r. r.0) (acquire-refused _ _ _ starts_at ends_at locks not_aligned refused),
        )
        | inl (aligned, listed) ↦
            let minutes = starts_from (ends_at - starts_at) starts_at ends_at in
            elim (insert_locks-decides appointment_id (ends_at - starts_at) starts_at ends_at locks
              aligned.starts) [
                | inl inserted ↦
                    let done =
                      ap (λ r. r.0)
                        (acquire-inserted tenant_id staff_id appointment_id starts_at ends_at locks
                          minutes listed inserted) in
                    inr (
                      inl
                        (aligned, acquired_free appointment_id starts_at ends_at locks done, done))
                | inr ((e, failed), t) ↦ inr (
                    inr (
                      aligned,
                      t,
                      ap (λ r. r.0)
                          (acquire-conflict tenant_id staff_id appointment_id starts_at ends_at
                            locks minutes e listed failed),
                    ))
              ]
      ]
