-- ===== src/Booking/Locks/Acquire.antt =====
-- What `acquire` does on every branch (src/appointments/appointment-interval-lock.service.ts).
use panalbee_clock_backend.Base.{
  ℕ, String, Bool, true, false, ◌&&◌, List, [], ◌∷◌, any, beq, beq→eq, ok, err, ◌≡◌, refl,
  Bool-cases, inl, inr, arith, ◌∙◌, Result-cases, handle_ok, handle_err, Exception, duplicate_key,
  eq_refl, ◌==◌, handle,
}
use panalbee_clock_backend.Booking.Locks.{
  IntervalLock, interval_index, is_at, minute_starts, insert_locks, acquire, conflict_or,
  slot_conflict,
}
use panalbee_clock_backend.Booking.Locks.Minutes.{has_minute, IsAligned, minute_starts_ok}

abbrev pub is_lock : String → String → String → ℕ → IntervalLock → Bool
is_lock tenant_id staff_id appointment_id m l =
    is_at tenant_id staff_id m l && l.appointment_id == appointment_id

any-tail :
    (p : IntervalLock → Bool) (l : IntervalLock) (ls : List IntervalLock)
    → any p (l ∷ ls) ≡ false
    → any p ls ≡ false
any-tail p l ls h = ground arith

module _ (tenant_id staff_id appointment_id : String) where
  abbrev pub new_lock : ℕ → IntervalLock
  new_lock start = record {
    tenant_id = tenant_id;
    staff_id = staff_id;
    appointment_id = appointment_id;
    interval_start = start;
  }

  new_lock-is_lock : (m : ℕ) → is_lock tenant_id staff_id appointment_id m (new_lock m) ≡ true
  new_lock-is_lock m = ground (arith, eq_refl tenant_id, eq_refl staff_id, eq_refl appointment_id)

  insert_locks-free :
      (m : ℕ) (ms : List ℕ) (locks : List IntervalLock)
      → any (is_at tenant_id staff_id m) locks ≡ false
      → insert_locks tenant_id staff_id appointment_id (m ∷ ms) locks
        ≡ insert_locks tenant_id staff_id appointment_id ms (new_lock m ∷ locks)
  unfolding insert_locks
  insert_locks-free m ms locks free = rw free refl

  insert_locks-taken :
      (m : ℕ) (ms : List ℕ) (locks : List IntervalLock)
      → any (is_at tenant_id staff_id m) locks ≡ true
      → insert_locks tenant_id staff_id appointment_id (m ∷ ms) locks
        ≡ (err (duplicate_key interval_index), locks)
  unfolding insert_locks
  insert_locks-taken m ms locks taken = rw taken refl

  -- The locks that were there stay.
  insert_locks_keeps :
      (ms : List ℕ) (locks : List IntervalLock) (p : IntervalLock → Bool)
      → any p locks ≡ true
      → any p (insert_locks tenant_id staff_id appointment_id ms locks).1 ≡ true
  unfolding insert_locks
  insert_locks_keeps [] locks p h = h
  insert_locks_keeps (m ∷ ms) locks p h =
      elim (Bool-cases (any (is_at tenant_id staff_id m) locks)) [
        | inl taken ↦ rw (insert_locks-taken m ms locks taken) h
        | inr free ↦
            let more : any p (new_lock m ∷ locks) ≡ true = ground arith in
            rw (insert_locks-free m ms locks free)
              (insert_locks_keeps ms (new_lock m ∷ locks) p more)
      ]

  -- Where all are inserted, each was free, and is there.
  insert_locks_ok :
      (ms : List ℕ) (locks : List IntervalLock) (m : ℕ)
      → (insert_locks tenant_id staff_id appointment_id ms locks).0 ≡ ok tt
      → has_minute m ms ≡ true
      → (any (is_at tenant_id staff_id m) locks ≡ false)
        × (any
              (is_lock tenant_id staff_id appointment_id m)
              (insert_locks tenant_id staff_id appointment_id ms locks).1
            ≡ true)
  insert_locks_ok [] locks m h found = cc
  insert_locks_ok (n ∷ ns) locks m h found =
      elim (Bool-cases (any (is_at tenant_id staff_id n) locks)) [
        | inl taken ↦ cc (rw (insert_locks-taken n ns locks taken) at h)
        | inr free ↦
            let done = rw (insert_locks-free n ns locks free) at h in
            elim (Bool-cases (beq n m)) [
              | inl here ↦
                  let same = beq→eq n m here in
                  let placed : any (is_lock tenant_id staff_id appointment_id m)
                        (new_lock n ∷ locks)
                      ≡ true =
                    rw (same, new_lock-is_lock m) refl in
                  (
                    rw same at free,
                    rw (insert_locks-free n ns locks free)
                        (insert_locks_keeps ns (new_lock n ∷ locks) _ placed),
                  )
              | inr there ↦
                  let (was_free, placed) =
                    insert_locks_ok ns (new_lock n ∷ locks) m done (rw there at found) in
                  (
                    any-tail (is_at tenant_id staff_id m) (new_lock n) locks was_free,
                    rw (insert_locks-free n ns locks free) placed,
                  )
            ]
      ]

  -- A refused insertion is refused by the index.
  insert_locks_err :
      (ms : List ℕ) (locks : List IntervalLock) (e : Exception)
      → (insert_locks tenant_id staff_id appointment_id ms locks).0 ≡ err e
      → e ≡ duplicate_key interval_index
  unfolding insert_locks
  insert_locks_err [] locks e h = cc
  insert_locks_err (n ∷ ns) locks e h = elim (Bool-cases (any (is_at tenant_id staff_id n) locks)) [
    | inl taken ↦ let failed = rw (insert_locks-taken n ns locks taken) at h in cc
    | inr free ↦
        insert_locks_err ns (new_lock n ∷ locks) e (rw (insert_locks-free n ns locks free) at h)
  ]

  acquire-started :
      (starts_at ends_at : ℕ) (locks : List IntervalLock) (minutes : List ℕ)
      → minute_starts starts_at ends_at ≡ ok minutes
      → acquire tenant_id staff_id appointment_id starts_at ends_at locks
        ≡ handle conflict_or (insert_locks tenant_id staff_id appointment_id minutes locks)
  unfolding acquire
  acquire-started starts_at ends_at locks minutes h = rw h refl

  pub acquire-refused :
      (starts_at ends_at : ℕ) (locks : List IntervalLock) (e : Exception)
      → minute_starts starts_at ends_at ≡ err e
      → acquire tenant_id staff_id appointment_id starts_at ends_at locks ≡ (err e, locks)
  unfolding acquire
  acquire-refused starts_at ends_at locks e h = rw h refl

  -- An acquisition that is granted.
  pub record IsGranted (starts_at ends_at : ℕ) (locks locks' : List IntervalLock) : Type 0 where
    pub aligned : IsAligned starts_at ends_at
    pub minutes : List ℕ
    pub listed : minute_starts starts_at ends_at ≡ ok minutes
    pub free :
        (m : ℕ) → has_minute m minutes ≡ true → any (is_at tenant_id staff_id m) locks ≡ false
    pub locked :
        (m : ℕ)
        → has_minute m minutes ≡ true
        → any (is_lock tenant_id staff_id appointment_id m) locks' ≡ true
    pub kept : (p : IntervalLock → Bool) → any p locks ≡ true → any p locks' ≡ true

  pub acquire-inserted :
      (starts_at ends_at : ℕ) (locks : List IntervalLock) (minutes : List ℕ)
      → minute_starts starts_at ends_at ≡ ok minutes
      → (insert_locks tenant_id staff_id appointment_id minutes locks).0 ≡ ok tt
      → acquire tenant_id staff_id appointment_id starts_at ends_at locks
        ≡ (ok tt, (insert_locks tenant_id staff_id appointment_id minutes locks).1)
  acquire-inserted starts_at ends_at locks minutes listed inserted =
      acquire-started starts_at ends_at locks minutes listed
      ∙ handle_ok conflict_or (insert_locks tenant_id staff_id appointment_id minutes locks)
          inserted

  pub acquire-conflict :
      (starts_at ends_at : ℕ) (locks : List IntervalLock) (minutes : List ℕ) (e : Exception)
      → minute_starts starts_at ends_at ≡ ok minutes
      → (insert_locks tenant_id staff_id appointment_id minutes locks).0 ≡ err e
      → acquire tenant_id staff_id appointment_id starts_at ends_at locks
        ≡ (err slot_conflict, (insert_locks tenant_id staff_id appointment_id minutes locks).1)
  acquire-conflict starts_at ends_at locks minutes e listed failed =
      let index = insert_locks_err minutes locks e failed in
      acquire-started starts_at ends_at locks minutes listed
      ∙ (handle_err conflict_or (insert_locks tenant_id staff_id appointment_id minutes locks)
            failed
          ∙ rw index refl)

  pub acquire-IsGranted :
      (starts_at ends_at : ℕ) (locks : List IntervalLock)
      → (acquire tenant_id staff_id appointment_id starts_at ends_at locks).0 ≡ ok tt
      → IsGranted starts_at ends_at locks
          (acquire tenant_id staff_id appointment_id starts_at ends_at locks).1
  acquire-IsGranted starts_at ends_at locks h =
      elim (Result-cases (minute_starts starts_at ends_at)) [
        | inr (e, refused) ↦ cc (rw (acquire-refused starts_at ends_at locks e refused) at h)
        | inl (minutes, listed) ↦
            elim (Result-cases (insert_locks tenant_id staff_id appointment_id minutes locks).0) [
              | inr (e, failed) ↦
                  cc (rw (acquire-conflict starts_at ends_at locks minutes e listed failed) at h)
              | inl (done, inserted) ↦
                  rw (acquire-inserted starts_at ends_at locks minutes listed inserted) (record {
                    aligned = (minute_starts_ok starts_at ends_at listed).0;
                    minutes = minutes;
                    listed = listed;
                    free = λ m found. (insert_locks_ok minutes locks m inserted found).0;
                    locked = λ m found. (insert_locks_ok minutes locks m inserted found).1;
                    kept = λ p there. insert_locks_keeps minutes locks p there;
                  })
            ]
      ]
