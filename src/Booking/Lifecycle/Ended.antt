-- ===== src/Booking/Lifecycle/Ended.antt =====
-- The end of an appointment is final for its life cycle (src/appointments/appointment-lifecycle.service.ts).
use panalbee_clock_backend.Base.{
  ℕ, String, Bool, true, false, ◌||◌, not, find, find-holds, update_first, Option, none, some, ok,
  err, Exception, Action, ◌≡◌, refl, ◌∙◌, Bool-cases, Option-cases, Result-cases, inl, inr, arith,
  ◌==◌, Keeps, >>-Keeps, >>=-Keeps, gets-Keeps, throw_if-Keeps, modify-Keeps, pure-Keeps,
  with_transaction-Keeps, or_throw-Keeps, modify, app,
}
use panalbee_clock_backend.Booking.Appointments.{
  Appointment, AppointmentStore, TimelineEvent, LifecycleActor, StatusEvent, to_started,
  to_completed, to_no_show, event_name,
}
use panalbee_clock_backend.Booking.Lifecycle.{
  update_of, is_appointment, has_status, create_event, record_status_transition, replay_event,
  release_locks, earn_commission, write_transition, transition_new, transition, transition_invalid,
  replay_or, appointment_not_found,
}
use panalbee_clock_backend.Booking.Lifecycle.Updates.{
  is_ended, update_of-ended, update_of-identity, find-update_other, is_same, same_ids, other_ids,
  has_status-is_appointment, updated_ids,
}

-- The ended appointment `a`, as the store has it.
module _ (tenant_id appointment_id : String) (a : Appointment) where
  unfoldable pub HasAppointment : AppointmentStore → Type 0
  HasAppointment s = find (is_appointment tenant_id appointment_id) s.appointments ≡ some a

  create_event-appointments :
      (e : TimelineEvent) (s : AppointmentStore)
      → (create_event e s).1.appointments ≡ s.appointments
  unfolding create_event
  create_event-appointments e s = ground arith

  create_event-Keeps : (e : TimelineEvent) → Keeps HasAppointment (create_event e)
  unfolding HasAppointment
  create_event-Keeps e = record { on = λ s h. rw (create_event-appointments e s) h }

  record_status_transition-Keeps :
      (actor : LifecycleActor) (previous updated : Appointment) (event : StatusEvent)
      (key request_fingerprint : String)
      → Keeps HasAppointment
          (record_status_transition actor previous updated event key request_fingerprint)
  unfolding record_status_transition HasAppointment
  record_status_transition-Keeps actor previous updated event key request_fingerprint =
      >>-Keeps (create_event-Keeps _) (modify-Keeps _ (λ s h. h))

  release_locks-Keeps :
      (t i : String) (event : StatusEvent) → Keeps HasAppointment (release_locks t i event)
  unfolding release_locks HasAppointment
  release_locks-Keeps t i to_started = record { on = λ s h. h }
  release_locks-Keeps t i (to_completed text) = record { on = λ s h. h }
  release_locks-Keeps t i (to_no_show reason text) = record { on = λ s h. h }

  earn_commission-Keeps :
      (t i new_id : String) (event : StatusEvent)
      → Keeps HasAppointment (earn_commission t i new_id event)
  unfolding earn_commission HasAppointment
  earn_commission-Keeps t i new_id to_started = record { on = λ s h. h }
  earn_commission-Keeps t i new_id (to_completed text) = record { on = λ s h. h }
  earn_commission-Keeps t i new_id (to_no_show reason text) = record { on = λ s h. h }

  -- A write to another appointment.
  write_other-Keeps :
      (q : Appointment → Bool) (u : Appointment)
      → ((x : Appointment) → q x ≡ true → is_appointment tenant_id appointment_id x ≡ false)
      → is_appointment tenant_id appointment_id u ≡ false
      → Keeps HasAppointment
          (modify (λ s. record s { appointments = update_first q (λ _. u) s.appointments }))
  unfolding HasAppointment
  write_other-Keeps q u apart other = modify-Keeps _ (λ s h.
      find-update_other (is_appointment tenant_id appointment_id) q u s.appointments apart other
      ∙ h)

  write_transition-Keeps :
      (actor : LifecycleActor) (i : String) (event : StatusEvent)
      (key request_fingerprint new_id : String) (found updated : Appointment)
      → ((x : Appointment)
          → has_status actor.tenant_id i found.status x ≡ true
          → is_appointment tenant_id appointment_id x ≡ false)
      → is_appointment tenant_id appointment_id updated ≡ false
      → Keeps HasAppointment
          (write_transition actor i event key request_fingerprint new_id found updated)
  unfolding write_transition
  write_transition-Keeps actor i event key request_fingerprint new_id found updated apart other =
      >>=-Keeps (gets-Keeps _) (λ matched.
        >>-Keeps (throw_if-Keeps (not matched) transition_invalid) (
          >>-Keeps
            (write_other-Keeps (has_status actor.tenant_id i found.status) updated apart other)
            (>>-Keeps (release_locks-Keeps actor.tenant_id i event) (
              >>-Keeps
                (record_status_transition-Keeps actor found updated event key request_fingerprint)
                (>>-Keeps (earn_commission-Keeps actor.tenant_id i new_id event)
                  (pure-Keeps updated))))))

  -- The three ways in which a transition can go.
  transition_new-missing :
      (actor : LifecycleActor) (i : String) (event : StatusEvent)
      (key request_fingerprint new_id : String) (now : ℕ) (s : AppointmentStore)
      → find (is_appointment actor.tenant_id i) s.appointments ≡ none
      → (transition_new actor i event key request_fingerprint new_id now s).1 ≡ s
  unfolding transition_new
  transition_new-missing actor i event key request_fingerprint new_id now s missing =
      rw missing refl

  transition_new-refused :
      (actor : LifecycleActor) (i : String) (event : StatusEvent)
      (key request_fingerprint new_id : String) (now : ℕ) (s : AppointmentStore)
      (found : Appointment) (e : Exception)
      → find (is_appointment actor.tenant_id i) s.appointments ≡ some found
      → update_of event now found ≡ err e
      → (transition_new actor i event key request_fingerprint new_id now s).1 ≡ s
  unfolding transition_new
  transition_new-refused actor i event key request_fingerprint new_id now s found e there refused =
      rw (there, refused) refl

  transition_new-written :
      (actor : LifecycleActor) (i : String) (event : StatusEvent)
      (key request_fingerprint new_id : String) (now : ℕ) (s : AppointmentStore)
      (found updated : Appointment)
      → find (is_appointment actor.tenant_id i) s.appointments ≡ some found
      → update_of event now found ≡ ok updated
      → transition_new actor i event key request_fingerprint new_id now s
        ≡ write_transition actor i event key request_fingerprint new_id found updated s
  unfolding transition_new
  transition_new-written actor i event key request_fingerprint new_id now s found updated there
        accepted =
      rw (there, accepted) refl

  -- A call that is about another appointment, and one that is about this.
  transition_new-Keeps :
      (actor : LifecycleActor) (i : String) (event : StatusEvent)
      (key request_fingerprint new_id : String) (now : ℕ)
      → is_ended a.status ≡ true
      → Keeps HasAppointment (transition_new actor i event key request_fingerprint new_id now)
  unfolding HasAppointment
  transition_new-Keeps actor i event key request_fingerprint new_id now ended = record {
    on = λ s h. elim (Bool-cases (is_same actor.tenant_id i tenant_id appointment_id)) [
      | inl same ↦
          let (id, tenant) = same_ids actor.tenant_id i tenant_id appointment_id same in
          rw
            (transition_new-refused actor i event key request_fingerprint new_id now s a
              transition_invalid (rw (id, tenant) h) (update_of-ended event now a ended))
            h
      | inr apart ↦ elim (Option-cases (find (is_appointment actor.tenant_id i) s.appointments)) [
        | inl missing ↦
            rw (transition_new-missing actor i event key request_fingerprint new_id now s missing) h
        | inr (found, there) ↦ elim (Result-cases (update_of event now found)) [
          | inr (e, refused) ↦
              rw
                (transition_new-refused actor i event key request_fingerprint new_id now s found e
                  there refused)
                h
          | inl (updated, accepted) ↦
              let about = find-holds (is_appointment actor.tenant_id i) s.appointments there in
              let written =
                updated_ids actor.tenant_id i found updated
                  (update_of-identity event now found updated accepted) about in
              rw
                (transition_new-written actor i event key request_fingerprint new_id now s found
                  updated there accepted)
                ((write_transition-Keeps actor i event key request_fingerprint new_id found updated
                    (λ x hit.
                      other_ids actor.tenant_id i tenant_id appointment_id x apart
                        (has_status-is_appointment actor.tenant_id i found.status x hit))
                    (other_ids actor.tenant_id i tenant_id appointment_id updated apart written)).on
                  s h)
        ]
      ]
    ];
  }

  replay_event-Keeps :
      (t i : String) (event : StatusEvent) (request_fingerprint : String) (e : TimelineEvent)
      → Keeps HasAppointment (replay_event t i event request_fingerprint e)
  unfolding replay_event
  replay_event-Keeps t i event request_fingerprint e =
      >>-Keeps
        (throw_if-Keeps
          (not (e.event_type == event_name event)
            || not (e.request_fingerprint == request_fingerprint))
          (app 409 "IDEMPOTENCY_KEY_CONFLICT"))
        (>>=-Keeps {A = Option Appointment}
          (gets-Keeps (λ s. find (is_appointment t i) s.appointments))
          (λ found. or_throw-Keeps found appointment_not_found))

  replay_or-Keeps :
      {otherwise : Action AppointmentStore Appointment}
      {replay : TimelineEvent → Action AppointmentStore Appointment}
      → Keeps HasAppointment otherwise
      → ((e : TimelineEvent) → Keeps HasAppointment (replay e))
      → (found : Option TimelineEvent) → Keeps HasAppointment (replay_or otherwise replay found)
  replay_or-Keeps h k none = h
  replay_or-Keeps h k (some e) = k e

  pub transition-Keeps :
      (fingerprint : StatusEvent → String) (actor : LifecycleActor) (i : String)
      (event : StatusEvent) (key new_id : String) (now : ℕ)
      → is_ended a.status ≡ true
      → Keeps HasAppointment (transition fingerprint actor i event key new_id now)
  unfolding transition
  transition-Keeps fingerprint actor i event key new_id now ended = with_transaction-Keeps (
      >>=-Keeps (gets-Keeps _) (λ found.
        replay_or-Keeps
          (transition_new-Keeps actor i event key (fingerprint event) new_id now ended)
          (replay_event-Keeps actor.tenant_id i event (fingerprint event)) found))
