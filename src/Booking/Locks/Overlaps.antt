-- ===== src/Booking/Locks/Overlaps.antt =====
-- The locks rule out overlaps (src/appointments/appointment-interval-lock.service.ts).
use panalbee_clock_backend.Base.{
  ℕ, max, String, Bool, true, false, not, List, [], ◌∷◌, any, keep, Result, ok, err, ◌≡◌, refl,
  Bool-cases, inl, inr, arith, eq_iff, settle,
}
use panalbee_clock_backend.Booking.Locks.{IntervalLock, is_at, acquire, release, replace, is_owned}
use panalbee_clock_backend.Booking.Locks.Minutes.{minute_starts_ok}
use panalbee_clock_backend.Booking.Locks.Acquire.{is_lock, IsGranted, acquire-IsGranted}
use panalbee_clock_backend.Booking.Locks.Agenda.{
  Slot, LockCall, acquire_call, replace_call, release_call, Agenda, is_slot_of, without, booked,
  run_lock, run_locks, AreInConflict, IsLocked, IsClear, clear_none, clear_next, IsAgenda,
  empty_agenda, next_slot,
}

any-implies :
    (p q : IntervalLock → Bool) (ls : List IntervalLock)
    → ((l : IntervalLock) → p l ≡ true → q l ≡ true)
    → any p ls ≡ true
    → any q ls ≡ true
any-implies p q [] k h = cc
any-implies p q (l ∷ ls) k h = elim (Bool-cases (p l)) [
  | inl here ↦ rw (k l here) refl
  | inr there ↦ let later = any-implies p q ls k (rw there at h) in ground arith
]

any-keep :
    (p k : IntervalLock → Bool) (ls : List IntervalLock)
    → ((l : IntervalLock) → p l ≡ true → k l ≡ true)
    → any p ls ≡ true
    → any p (keep k ls) ≡ true
any-keep p k [] w h = cc
any-keep p k (l ∷ ls) w h = elim (Bool-cases (p l)) [
  | inl here ↦ rw (w l here, here) refl
  | inr there ↦
      let later = any-keep p k ls w (rw there at h) in
      elim (Bool-cases (k l)) [ inl stays ↦ rw (stays, there) later | inr goes ↦ rw goes later ]
]

is_lock-is_at :
    (tenant_id staff_id appointment_id : String) (m : ℕ) (l : IntervalLock)
    → is_lock tenant_id staff_id appointment_id m l ≡ true
    → is_at tenant_id staff_id m l ≡ true
is_lock-is_at tenant_id staff_id appointment_id m l h = ground arith

-- The first minute of the overlap would be locked twice.
pub granted-clear :
    (s x : Slot) (locks locks' : List IntervalLock)
    → IsGranted s.tenant_id s.staff_id s.appointment_id s.starts_at s.ends_at locks locks'
    → IsLocked locks x
    → ¬ AreInConflict s x
granted-clear s x locks locks' g locked c =
    let m = max s.starts_at x.starts_at in
    let starts = g.aligned.starts in
    let x_starts = locked.aligned.starts in
    let before = c.before in
    let after = c.after in
    let s_ordered = g.aligned.ordered in
    let x_ordered = locked.aligned.ordered in
    let listed =
      ((minute_starts_ok s.starts_at s.ends_at g.listed).1 m).1
        ((omega arith, omega arith, omega arith)) in
    let free = g.free m listed in
    let taken =
      any-implies _ _ locks (is_lock-is_at x.tenant_id x.staff_id x.appointment_id m)
        (locked.locked m (omega arith) (omega arith) (omega arith)) in
    let free_x : any (is_at x.tenant_id x.staff_id m) locks ≡ false =
      rw (← c.tenant, ← c.staff) free in
    cc

pub kept-IsLocked :
    (locks locks' : List IntervalLock) (x : Slot)
    → ((p : IntervalLock → Bool) → any p locks ≡ true → any p locks' ≡ true)
    → IsLocked locks x
    → IsLocked locks' x
kept-IsLocked locks locks' x kept h = record {
  aligned = h.aligned;
  locked = λ m a b w. kept _ (h.locked m a b w);
}

pub kept-IsAgenda :
    (locks locks' : List IntervalLock) {slots : List Slot}
    → ((p : IntervalLock → Bool) → any p locks ≡ true → any p locks' ≡ true)
    → IsAgenda locks slots
    → IsAgenda locks' slots
kept-IsAgenda locks locks' kept empty_agenda = empty_agenda
kept-IsAgenda locks locks' kept (next_slot {s} locked clear rest) =
    next_slot (kept-IsLocked locks locks' s kept locked) clear
      (kept-IsAgenda locks locks' kept rest)

pub granted-IsClear :
    (s : Slot) (locks locks' : List IntervalLock) {slots : List Slot}
    → IsGranted s.tenant_id s.staff_id s.appointment_id s.starts_at s.ends_at locks locks'
    → IsAgenda locks slots
    → IsClear s slots
granted-IsClear s locks locks' g empty_agenda = clear_none
granted-IsClear s locks locks' g (next_slot {s = x} locked clear rest) =
    clear_next (granted-clear s x locks locks' g locked) (granted-IsClear s locks locks' g rest)

pub granted-IsLocked :
    (s : Slot) (locks locks' : List IntervalLock)
    → IsGranted s.tenant_id s.staff_id s.appointment_id s.starts_at s.ends_at locks locks'
    → IsLocked locks' s
granted-IsLocked s locks locks' g = record {
  aligned = g.aligned;
  locked = λ m after before whole.
      g.locked m
        (((minute_starts_ok s.starts_at s.ends_at g.listed).1 m).1 ((after, before, whole)));
}

-- A slot that is granted joins the agenda.
pub granted-IsAgenda :
    (s : Slot) (locks locks' : List IntervalLock) {slots : List Slot}
    → IsGranted s.tenant_id s.staff_id s.appointment_id s.starts_at s.ends_at locks locks'
    → IsAgenda locks slots
    → IsAgenda locks' (s ∷ slots)
granted-IsAgenda s locks locks' g h =
    next_slot (granted-IsLocked s locks locks' g) (granted-IsClear s locks locks' g h)
      (kept-IsAgenda locks locks' g.kept h)

-- A release leaves the locks of the other appointments.
others-keep :
    (tenant_id appointment_id : String) (x : Slot) (locks : List IntervalLock)
    → is_slot_of tenant_id appointment_id x ≡ false
    → IsLocked locks x
    → IsLocked (keep (λ l. not (is_owned tenant_id appointment_id l)) locks) x
others-keep tenant_id appointment_id x locks other h = record {
  aligned = h.aligned;
  locked = λ m after before whole.
      any-keep _ _ locks
        (λ l is_x.
          ground (arith, eq_iff l.tenant_id x.tenant_id, eq_iff l.appointment_id x.appointment_id))
        (h.locked m after before whole);
}

without-IsClear :
    (tenant_id appointment_id : String) (s : Slot) {slots : List Slot}
    → IsClear s slots
    → IsClear s (without tenant_id appointment_id slots)
without-IsClear tenant_id appointment_id s clear_none = clear_none
without-IsClear tenant_id appointment_id s (clear_next {t} apart rest) =
    let later = without-IsClear tenant_id appointment_id s rest in
    elim (Bool-cases (is_slot_of tenant_id appointment_id t)) [
      | inl gone ↦ rw gone later
      | inr stays ↦ rw stays (clear_next apart later)
    ]

pub without-IsAgenda :
    (tenant_id appointment_id : String) (locks : List IntervalLock) {slots : List Slot}
    → IsAgenda locks slots
    → IsAgenda
        (keep (λ l. not (is_owned tenant_id appointment_id l)) locks)
        (without tenant_id appointment_id slots)
without-IsAgenda tenant_id appointment_id locks empty_agenda = empty_agenda
without-IsAgenda tenant_id appointment_id locks (next_slot {s} {ss} locked clear rest) =
    let later = without-IsAgenda tenant_id appointment_id locks rest in
    elim (Bool-cases (is_slot_of tenant_id appointment_id s)) [
      | inl gone ↦ rw gone later
      | inr stays ↦ rw stays (
          next_slot (others-keep tenant_id appointment_id s locks stays locked)
            (without-IsClear tenant_id appointment_id s clear) later)
    ]

-- A call that ends well.
booked-IsAgenda :
    (a : Agenda) (slots : List Slot) (r : Result (Unit {0}) × List IntervalLock)
    → IsAgenda a.locks a.slots
    → (r.0 ≡ ok tt → IsAgenda r.1 slots)
    → let a' = booked a slots (settle a.locks r) in IsAgenda a'.locks a'.slots
booked-IsAgenda a slots (ok done, locks) h k = k refl
booked-IsAgenda a slots (err e, locks) h k = h

replace-acquire :
    (s : Slot) (locks : List IntervalLock)
    → replace s.tenant_id s.staff_id s.appointment_id s.starts_at s.ends_at locks
      ≡ acquire s.tenant_id s.staff_id s.appointment_id s.starts_at s.ends_at
          (keep (λ l. not (is_owned s.tenant_id s.appointment_id l)) locks)
unfolding replace release
replace-acquire s locks = refl

acquired-IsAgenda :
    (s : Slot) (locks : List IntervalLock) {slots : List Slot}
    → IsAgenda locks slots
    → (acquire s.tenant_id s.staff_id s.appointment_id s.starts_at s.ends_at locks).0 ≡ ok tt
    → IsAgenda
        (acquire s.tenant_id s.staff_id s.appointment_id s.starts_at s.ends_at locks).1
        (s ∷ slots)
acquired-IsAgenda s locks h granted =
    granted-IsAgenda s locks _
      (acquire-IsGranted s.tenant_id s.staff_id s.appointment_id s.starts_at s.ends_at locks
        granted)
      h

released :
    (tenant_id appointment_id : String) (locks : List IntervalLock) {slots : List Slot}
    → IsAgenda locks slots
    → IsAgenda (release tenant_id appointment_id locks).1 (without tenant_id appointment_id slots)
unfolding release
released tenant_id appointment_id locks h = without-IsAgenda tenant_id appointment_id locks h

run_lock-IsAgenda :
    (call : LockCall) (a : Agenda)
    → IsAgenda a.locks a.slots
    → IsAgenda (run_lock call a).locks (run_lock call a).slots
unfolding run_lock
run_lock-IsAgenda (acquire_call s) a h = booked-IsAgenda a _ _ h (acquired-IsAgenda s a.locks h)
run_lock-IsAgenda (replace_call s) a h =
    booked-IsAgenda a (s ∷ without s.tenant_id s.appointment_id a.slots)
      (replace s.tenant_id s.staff_id s.appointment_id s.starts_at s.ends_at a.locks) h
      (λ granted. rw (replace-acquire s a.locks) (
        acquired-IsAgenda s _ (without-IsAgenda s.tenant_id s.appointment_id a.locks h)
          (rw (replace-acquire s a.locks) at granted)))
run_lock-IsAgenda (release_call tenant_id appointment_id) a h =
    booked-IsAgenda a _ _ h (λ granted. released tenant_id appointment_id a.locks h)

-- After any sequence of acquisitions, replacements and releases, no two slots that were granted and
-- not given back are in conflict, and each has a lock on all its minutes. The start must be such an
-- agenda.
pub run_locks-IsAgenda :
    (calls : List LockCall) (a : Agenda)
    → IsAgenda a.locks a.slots
    → IsAgenda (run_locks calls a).locks (run_locks calls a).slots
unfolding run_locks
run_locks-IsAgenda [] a h = h
run_locks-IsAgenda (call ∷ calls) a h =
    run_locks-IsAgenda calls (run_lock call a) (run_lock-IsAgenda call a h)
