-- ===== src/Booking/Lifecycle/Closing.antt =====
-- A closed appointment gives its minutes back (src/appointments/appointment-lifecycle.service.ts).
use panalbee_clock_backend.Base.{
  ℕ, String, Bool, true, false, not, List, [], ◌∷◌, any, keep, find, none, Result, ok, err, ◌≡◌,
  refl, Bool-cases, Option-cases, Result-cases, inl, inr, arith, settle,
}
use panalbee_clock_backend.Booking.Appointments.{
  Appointment, AppointmentStore, LifecycleActor, StatusEvent, to_started, to_completed, to_no_show,
}
use panalbee_clock_backend.Booking.Locks.{IntervalLock, is_owned}
use panalbee_clock_backend.Booking.Locks
use panalbee_clock_backend.Booking.Lifecycle.{
  update_of, is_appointment, create_event, record_status_transition, release_locks, earn_commission,
  write_transition, transition_new, transition, is_event_of,
}

abbrev is_closing : StatusEvent → Bool
is_closing to_started = false
is_closing (to_completed _) = true
is_closing (to_no_show _ _) = true

any-keep_others :
    (p : IntervalLock → Bool) (ls : List IntervalLock) → any p (keep (λ l. not (p l)) ls) ≡ false
any-keep_others p [] = refl
any-keep_others p (l ∷ ls) = elim (Bool-cases (p l)) [
  | inl owned ↦ rw owned (any-keep_others p ls)
  | inr other ↦ rw (other, other) (any-keep_others p ls)
]

write_transition-locks :
    (actor : LifecycleActor) (i : String) (event : StatusEvent)
    (key request_fingerprint new_id : String) (a u p : Appointment) (s : AppointmentStore)
    → is_closing event ≡ true
    → (write_transition actor i event key request_fingerprint new_id a u s).0 ≡ ok p
    → (write_transition actor i event key request_fingerprint new_id a u s).1.locks
      ≡ keep (λ l. not (is_owned actor.tenant_id i l)) s.locks
unfolding write_transition release_locks earn_commission record_status_transition create_event
    Locks.release
write_transition-locks actor i to_started key request_fingerprint new_id a u p s closing h = cc
write_transition-locks actor i (to_completed text) key request_fingerprint new_id a u p s closing
      h =
    ground arith
write_transition-locks actor i (to_no_show reason text) key request_fingerprint new_id a u p s
      closing h =
    ground arith

transition_new-locks :
    (actor : LifecycleActor) (i : String) (event : StatusEvent)
    (key request_fingerprint new_id : String) (now : ℕ) (p : Appointment) (s : AppointmentStore)
    → is_closing event ≡ true
    → (transition_new actor i event key request_fingerprint new_id now s).0 ≡ ok p
    → (transition_new actor i event key request_fingerprint new_id now s).1.locks
      ≡ keep (λ l. not (is_owned actor.tenant_id i l)) s.locks
unfolding transition_new
transition_new-locks actor i event key request_fingerprint new_id now p s closing h =
    elim (Option-cases (find (is_appointment actor.tenant_id i) s.appointments)) [
      | inl missing ↦ cc (rw missing at h)
      | inr (a, found) ↦ elim (Result-cases (update_of event now a)) [
        | inr (e, refused) ↦ cc (rw (found, refused) at h)
        | inl (u, accepted) ↦
            rw (found, accepted)
              (write_transition-locks actor i event key request_fingerprint new_id a u p s closing
                (rw (found, accepted) at h))
      ]
    ]

settled_locks :
    (p : Appointment) (s : AppointmentStore) (r : Result Appointment × AppointmentStore)
    (locks : List IntervalLock)
    → (r.0 ≡ ok p → r.1.locks ≡ locks)
    → (settle s r).0 ≡ ok p
    → (settle s r).1.locks ≡ locks
settled_locks p s (ok a, s') locks k h = k h
settled_locks p s (err e, s') locks k h = cc

-- A call that completes an appointment or marks it as a no-show, and is not a replay, leaves no minute
-- locked for it, and the locks of all others as they were.
pub closing-locks :
    (fingerprint : StatusEvent → String) (actor : LifecycleActor) (appointment_id : String)
    (event : StatusEvent) (key new_id : String) (now : ℕ) (p : Appointment) (s : AppointmentStore)
    → is_closing event ≡ true
    → find (is_event_of actor.tenant_id appointment_id key) s.timeline ≡ none
    → let (answer, s') = transition fingerprint actor appointment_id event key new_id now s in
      answer ≡ ok p
      → (any (is_owned actor.tenant_id appointment_id) s'.locks ≡ false)
        × (s'.locks ≡ keep (λ l. not (is_owned actor.tenant_id appointment_id l)) s.locks)
unfolding transition
closing-locks fingerprint actor i event key new_id now p s closing fresh h =
    let locks =
      settled_locks p s (transition_new actor i event key (fingerprint event) new_id now s)
        (keep (λ l. not (is_owned actor.tenant_id i l)) s.locks)
        (transition_new-locks actor i event key (fingerprint event) new_id now p s closing)
        (rw fresh at h) in
    rw (fresh, locks) (any-keep_others (is_owned actor.tenant_id i) s.locks, refl)
