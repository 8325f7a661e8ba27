-- ===== src/Booking/Lifecycle/Replay.antt =====
-- The idempotency of the transitions (src/appointments/appointment-lifecycle.service.ts).
use panalbee_clock_backend.Base.{
  ℕ, String, true, List, [], ◌∷◌, find, find-holds, update_first, none, some, Result, ok, err,
  Exception, ◌≡◌, refl, ap, Bool-cases, Option-cases, Result-cases, inl, inr, arith, ◌==◌, eq_refl,
  settle,
}
use panalbee_clock_backend.Booking.Appointments.{
  status_name, Appointment, AppointmentStore, TimelineEvent, LifecycleActor, StatusEvent,
  to_started, to_completed, to_no_show, event_name, reason_of, note_of,
}
use panalbee_clock_backend.Booking.Lifecycle.{
  update_of, is_appointment, has_status, create_event, record_status_transition, replay_event,
  release_locks, earn_commission, write_transition, transition_new, transition, is_event_of,
}
use panalbee_clock_backend.Booking.Lifecycle.Updates.{update_of-identity, updated_ids}

find-update_here :
    (t i : String) (a u : Appointment) (xs : List Appointment)
    → find (is_appointment t i) xs ≡ some a
    → is_appointment t i u ≡ true
    → find (is_appointment t i) (update_first (has_status t i a.status) (λ _. u) xs) ≡ some u
find-update_here t i a u [] found h = cc
find-update_here t i a u (x ∷ xs) found h = elim (Bool-cases (is_appointment t i x)) [
  | inl hit ↦
      let head : some x ≡ some a = rw hit at found in
      let same : x ≡ a = cc in
      let status : status_name x.status == status_name a.status ≡ true =
        rw same (eq_refl (status_name a.status)) in
      rw (hit, status, h) refl
  | inr miss ↦ rw (miss, miss) (find-update_here t i a u xs (rw miss at found) h)
]

abbrev event_of :
    LifecycleActor → Appointment → Appointment → StatusEvent → String → String → TimelineEvent
event_of actor previous updated event key request_fingerprint = record {
  tenant_id = actor.tenant_id;
  appointment_id = updated.id;
  actor_user_id = actor.actor_user_id;
  event_type = event_name event;
  from_status = some previous.status;
  to_status = updated.status;
  reason_code = reason_of event;
  note = note_of event;
  previous_starts_at = none;
  previous_ends_at = none;
  starts_at = updated.starts_at;
  ends_at = updated.ends_at;
  idempotency_key = key;
  request_fingerprint = request_fingerprint;
}

write_transition_ok :
    (actor : LifecycleActor) (i : String) (event : StatusEvent)
    (key request_fingerprint new_id : String) (a u p : Appointment) (s : AppointmentStore)
    → (write_transition actor i event key request_fingerprint new_id a u s).0 ≡ ok p
    → let s' = (write_transition actor i event key request_fingerprint new_id a u s).1 in
      (u ≡ p)
      × (s'.appointments
          ≡ update_first (has_status actor.tenant_id i a.status) (λ _. u) s.appointments)
      × (s'.timeline ≡ event_of actor a u event key request_fingerprint ∷ s.timeline)
unfolding write_transition release_locks earn_commission record_status_transition create_event
write_transition_ok actor i to_started key request_fingerprint new_id a u p s h = ground arith
write_transition_ok actor i (to_completed text) key request_fingerprint new_id a u p s h =
    ground arith
write_transition_ok actor i (to_no_show reason text) key request_fingerprint new_id a u p s h =
    ground arith

module _ (fingerprint : StatusEvent → String) (actor : LifecycleActor) (i : String)
    (event : StatusEvent) (key : String) where
  -- The store has the answer `p` to the request, and the event by which a replay finds it.
  record IsAnswered (p : Appointment) (s : AppointmentStore) : Type 0 where
    entry : TimelineEvent
    logged : find (is_event_of actor.tenant_id i key) s.timeline ≡ some entry
    same_type : (entry.event_type == event_name event) ≡ true
    same_print : (entry.request_fingerprint == fingerprint event) ≡ true
    there : find (is_appointment actor.tenant_id i) s.appointments ≡ some p

  IsAnswered-again :
      (new_id : String) (now : ℕ) (p : Appointment) (s : AppointmentStore)
      → IsAnswered p s
      → transition fingerprint actor i event key new_id now s ≡ (ok p, s)
  unfolding transition replay_event
  IsAnswered-again new_id now p s h = rw (h.logged, h.same_type, h.same_print, h.there) refl

  replay_event_ok :
      (e : TimelineEvent) (p : Appointment) (s : AppointmentStore)
      → (replay_event actor.tenant_id i event (fingerprint event) e s).0 ≡ ok p
      → ((e.event_type == event_name event) ≡ true)
        × ((e.request_fingerprint == fingerprint event) ≡ true)
        × (find (is_appointment actor.tenant_id i) s.appointments ≡ some p)
        × ((replay_event actor.tenant_id i event (fingerprint event) e s).1 ≡ s)
  unfolding replay_event
  replay_event_ok e p s h = elim (Bool-cases (e.event_type == event_name event)) [
    | inr other ↦ cc (rw other at h)
    | inl same_type ↦ elim (Bool-cases (e.request_fingerprint == fingerprint event)) [
      | inr other ↦ cc (rw (same_type, other) at h)
      | inl same_print ↦
          elim (Option-cases (find (is_appointment actor.tenant_id i) s.appointments)) [
            | inl missing ↦ cc (rw (same_type, same_print, missing) at h)
            | inr (a, found) ↦
                let answer : ◌≡◌ {A = Result Appointment} (ok a) (ok p) =
                  rw (same_type, same_print, found) at h in
                let same : a ≡ p = cc in
                let there : find (is_appointment actor.tenant_id i) s.appointments ≡ some p =
                  rw same at found in
                rw (same_type, same_print, there) (refl, refl, refl, refl)
          ]
    ]
  ]

  -- What a new transition leaves behind.
  written-IsAnswered :
      (new_id : String) (now : ℕ) (p a u : Appointment) (s : AppointmentStore)
      → find (is_appointment actor.tenant_id i) s.appointments ≡ some a
      → update_of event now a ≡ ok u
      → (write_transition actor i event key (fingerprint event) new_id a u s).0 ≡ ok p
      → IsAnswered p (write_transition actor i event key (fingerprint event) new_id a u s).1
  written-IsAnswered new_id now p a u s found accepted h =
      let (same, appointments, timeline) =
        write_transition_ok actor i event key (fingerprint event) new_id a u p s h in
      let about = find-holds (is_appointment actor.tenant_id i) s.appointments found in
      let whose =
        updated_ids actor.tenant_id i a u (update_of-identity event now a u accepted) about in
      let id : (u.id == i) ≡ true = ground arith in
      record {
        entry = event_of actor a u event key (fingerprint event);
        logged = rw (timeline, eq_refl actor.tenant_id, id, eq_refl key) refl;
        same_type = eq_refl (event_name event);
        same_print = eq_refl (fingerprint event);
        there =
            rw (appointments, find-update_here actor.tenant_id i a u s.appointments found whose)
              (ap some same);
      }

  transition_new-written :
      (new_id : String) (now : ℕ) (a u : Appointment) (s : AppointmentStore)
      → find (is_appointment actor.tenant_id i) s.appointments ≡ some a
      → update_of event now a ≡ ok u
      → transition_new actor i event key (fingerprint event) new_id now s
        ≡ write_transition actor i event key (fingerprint event) new_id a u s
  unfolding transition_new
  transition_new-written new_id now a u s found accepted = rw (found, accepted) refl

  transition_new-missing :
      (new_id : String) (now : ℕ) (p : Appointment) (s : AppointmentStore)
      → find (is_appointment actor.tenant_id i) s.appointments ≡ none
      → (transition_new actor i event key (fingerprint event) new_id now s).0 ≡ ok p
      → ⊥
  unfolding transition_new
  transition_new-missing new_id now p s missing h = cc (rw missing at h)

  transition_new-refused :
      (new_id : String) (now : ℕ) (p a : Appointment) (e : Exception) (s : AppointmentStore)
      → find (is_appointment actor.tenant_id i) s.appointments ≡ some a
      → update_of event now a ≡ err e
      → (transition_new actor i event key (fingerprint event) new_id now s).0 ≡ ok p
      → ⊥
  unfolding transition_new
  transition_new-refused new_id now p a e s found refused h = cc (rw (found, refused) at h)

  transition_new-IsAnswered :
      (new_id : String) (now : ℕ) (p : Appointment) (s : AppointmentStore)
      → (transition_new actor i event key (fingerprint event) new_id now s).0 ≡ ok p
      → IsAnswered p (transition_new actor i event key (fingerprint event) new_id now s).1
  transition_new-IsAnswered new_id now p s h =
      elim (Option-cases (find (is_appointment actor.tenant_id i) s.appointments)) [
        | inl missing ↦ absurd (transition_new-missing new_id now p s missing h)
        | inr (a, found) ↦ elim (Result-cases (update_of event now a)) [
          | inr (e, refused) ↦ absurd (transition_new-refused new_id now p a e s found refused h)
          | inl (u, accepted) ↦ rw (transition_new-written new_id now a u s found accepted) (
              written-IsAnswered new_id now p a u s found accepted
                (rw (transition_new-written new_id now a u s found accepted) at h))
        ]
      ]

  settled-IsAnswered :
      (p : Appointment) (s : AppointmentStore) (r : Result Appointment × AppointmentStore)
      → (r.0 ≡ ok p → IsAnswered p r.1)
      → (settle s r).0 ≡ ok p
      → IsAnswered p (settle s r).1
  settled-IsAnswered p s (ok a, s') k h = k h
  settled-IsAnswered p s (err e, s') k h = cc

  replayed-IsAnswered :
      (e : TimelineEvent) (p : Appointment) (s : AppointmentStore)
      → find (is_event_of actor.tenant_id i key) s.timeline ≡ some e
      → (replay_event actor.tenant_id i event (fingerprint event) e s).0 ≡ ok p
      → IsAnswered p (replay_event actor.tenant_id i event (fingerprint event) e s).1
  replayed-IsAnswered e p s logged h =
      let (same_type, same_print, there, unchanged) = replay_event_ok e p s h in
      rw unchanged (record {
        entry = e;
        logged = logged;
        same_type = same_type;
        same_print = same_print;
        there = there;
      })

  IsAnswered-once :
      (new_id : String) (now : ℕ) (p : Appointment) (s : AppointmentStore)
      → (transition fingerprint actor i event key new_id now s).0 ≡ ok p
      → IsAnswered p (transition fingerprint actor i event key new_id now s).1
  unfolding transition
  IsAnswered-once new_id now p s h =
      elim (Option-cases (find (is_event_of actor.tenant_id i key) s.timeline)) [
        | inl fresh ↦ rw fresh (
            settled-IsAnswered p s
              (transition_new actor i event key (fingerprint event) new_id now s)
              (transition_new-IsAnswered new_id now p s) (rw fresh at h))
        | inr (e, logged) ↦ rw logged (
            settled-IsAnswered p s (replay_event actor.tenant_id i event (fingerprint event) e s)
              (replayed-IsAnswered e p s logged) (rw logged at h))
      ]

-- A call that starts, completes or closes an appointment and succeeds can be repeated with the same
-- key, at any time: the answer is the same appointment and nothing more is written.
pub transition_twice :
    (fingerprint : StatusEvent → String) (actor : LifecycleActor) (appointment_id : String)
    (event : StatusEvent) (key new_id new_id' : String) (now now' : ℕ) (p : Appointment)
    (s : AppointmentStore)
    → let (answer, s') = transition fingerprint actor appointment_id event key new_id now s in
      answer ≡ ok p
      → transition fingerprint actor appointment_id event key new_id' now' s' ≡ (ok p, s')
transition_twice fingerprint actor i event key new_id new_id' now now' p s h =
    IsAnswered-again fingerprint actor i event key new_id' now' p _
      (IsAnswered-once fingerprint actor i event key new_id now p s h)
