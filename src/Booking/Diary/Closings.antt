-- ===== src/Booking/Diary/Closings.antt =====
-- The life cycle of an appointment in the diary: a start keeps its slot, an end frees it
-- (src/appointments/appointment-lifecycle.service.ts).
use panalbee_clock_backend.Base.{
  ℕ, String, Bool, true, false, ◌&&◌, ◌||◌, not, List, any, find, update_first, pure, Option, none,
  some, is_some, ok, ◌≡◌, refl, arith, Leads, kept-Leads, >>=-Leads, gets-Leads, throw_if-Leads,
  gets-Keeps, throw_if-Keeps, or_throw-Keeps, >>=-Keeps, >>-Keeps, modify-Leads, Bool-cases,
  Option-cases, Result-cases, inl, inr, ◌==◌, app,
}
use panalbee_clock_backend.Booking.Locks.{IntervalLock}
use panalbee_clock_backend.Booking.Appointments.{
  Appointment, AppointmentStore, TimelineEvent, LifecycleActor, StatusEvent, to_no_show, event_name,
  reason_name, NoShowReason,
}
use panalbee_clock_backend.Booking.Lifecycle.{
  update_of, is_appointment, has_status, is_event_of, replay_event, write_transition,
  transition_new, transition, transition_invalid, replay_or, appointment_not_found, mark_no_show,
  normalized_note,
}
use panalbee_clock_backend.Booking.Diary.{IsDiary, Refines}
use panalbee_clock_backend.Booking.Diary.Frames.{
  Holds, IsSame, IsSame-Refines, Refines-refl, transaction-Refines,
}
use panalbee_clock_backend.Booking.Diary.Events.{
  record_status_transition-Holds, earn_commission-Holds, AreReleased, Written, release_locks-Leads,
  event-Refines,
}

module _ (before : AppointmentStore) (diary : IsDiary before) (actor : LifecycleActor) (i : String)
    (event : StatusEvent) (key request_fingerprint new_id : String) where
  was_matched :
      (q : Appointment → Bool) (s : AppointmentStore) (matched : Bool)
      → s.appointments ≡ before.appointments
      → matched ≡ any q s.appointments
      → not matched ≡ false
      → any q before.appointments ≡ true
  was_matched q s matched same any_matched hit = rw (← same, ← any_matched) (ground arith)

  write_transition-Leads :
      (now : ℕ) (a u : Appointment)
      → find (is_appointment actor.tenant_id i) before.appointments ≡ some a
      → update_of event now a ≡ ok u
      → Leads
          (IsSame before)
          (write_transition actor i event key request_fingerprint new_id a u)
          (λ r. Refines before)
  unfolding write_transition
  write_transition-Leads now a u found accepted =
      let t = actor.tenant_id in
      let status = a.status in
      let Same = λ (locks : List IntervalLock). locks ≡ before.locks in
      >>=-Leads
        (λ matched s.
          IsSame before s × (matched ≡ any (has_status actor.tenant_id i a.status) s.appointments))
        (gets-Leads (λ s. any (has_status actor.tenant_id i a.status) s.appointments))
        (λ matched.
          >>=-Leads
            (λ done s.
              (IsSame before s
                × (matched ≡ any (has_status actor.tenant_id i a.status) s.appointments))
              × (not matched ≡ false))
            (throw_if-Leads (not matched) transition_invalid)
            (λ done.
              >>=-Leads (λ written. Holds (Written before t i status u Same))
                (modify-Leads
                  (λ s. record s {
                    appointments =
                        update_first (has_status actor.tenant_id i a.status) (λ _. u)
                          s.appointments;
                  })
                  (λ s (((appointments, locks), any_matched), hit). (
                    was_matched (has_status actor.tenant_id i a.status) s matched appointments
                        any_matched hit,
                    rw appointments refl,
                    locks,
                  )))
                (λ written.
                  >>=-Leads
                    (λ released. Holds (Written before t i status u (AreReleased before t i event)))
                    (release_locks-Leads before t i status u event)
                    (λ released.
                      kept-Leads
                        (record_status_transition-Holds
                          (Written before t i status u (AreReleased before t i event)) actor a u
                          event key request_fingerprint)
                        (λ recorded.
                          kept-Leads {f = λ earned. pure u}
                            (earn_commission-Holds
                              (Written before t i status u (AreReleased before t i event))
                              actor.tenant_id i new_id event)
                            (λ earned. record {
                              on = λ s written r e.
                                  event-Refines before t i diary event now a u s found accepted
                                    written;
                            }))))))

  transition_new-Leads :
      (now : ℕ)
      → Leads
          (IsSame before)
          (transition_new actor i event key request_fingerprint new_id now)
          (λ r. Refines before)
  unfolding transition_new
  transition_new-Leads now = record {
    on = λ s same r e.
        elim (Option-cases (find (is_appointment actor.tenant_id i) s.appointments)) [
          | inl missing ↦ cc (rw missing at e)
          | inr (a, found) ↦ elim (Result-cases (update_of event now a)) [
            | inr (x, refused) ↦ cc (rw (found, refused) at e)
            | inl (u, accepted) ↦
                let there : find (is_appointment actor.tenant_id i) before.appointments ≡ some a =
                  rw same.0 at found in
                rw (found, accepted)
                  ((write_transition-Leads now a u there accepted).on s same r
                    (rw (found, accepted) at e))
          ]
        ];
  }

  replay_event-Leads :
      (e : TimelineEvent)
      → Leads
          (IsSame before)
          (replay_event actor.tenant_id i event request_fingerprint e)
          (λ r. Refines before)
  unfolding replay_event
  replay_event-Leads e = record {
    on = λ s same r done. IsSame-Refines before _ diary (
        (>>-Keeps
            (throw_if-Keeps
              (not (e.event_type == event_name event)
                || not (e.request_fingerprint == request_fingerprint))
              (app 409 "IDEMPOTENCY_KEY_CONFLICT"))
            (>>=-Keeps {P = IsSame before}
              (gets-Keeps (λ s. find (is_appointment actor.tenant_id i) s.appointments))
              (λ found. or_throw-Keeps found appointment_not_found))).on
          s same);
  }

module _ (before : AppointmentStore) (diary : IsDiary before) (fingerprint : StatusEvent → String)
    (actor : LifecycleActor) (i : String) where
  -- A transition keeps the slot of its appointment or frees it, or leaves the diary as it is.
  pub transition-Refines :
      (event : StatusEvent) (key new_id : String) (now : ℕ)
      → Refines before (transition fingerprint actor i event key new_id now before).1
  unfolding transition
  transition-Refines event key new_id now = transaction-Refines before diary _ (
      kept-Leads (gets-Keeps (λ s. find (is_event_of actor.tenant_id i key) s.timeline))
        replay_or-Leads)
    where
      replay_or-Leads :
          (found : Option TimelineEvent)
          → Leads
              (IsSame before)
              (replay_or
                (transition_new actor i event key (fingerprint event) new_id now)
                (replay_event actor.tenant_id i event (fingerprint event))
                found)
              (λ r. Refines before)
      replay_or-Leads none =
          transition_new-Leads before diary actor i event key (fingerprint event) new_id now
      replay_or-Leads (some e) =
          replay_event-Leads before diary actor i event key (fingerprint event) new_id e

  pub mark_no_show-Refines :
      (key : String) (reason : NoShowReason) (text : Option String) (new_id : String) (now : ℕ)
      → Refines before (mark_no_show fingerprint actor i key reason text new_id now before).1
  unfolding mark_no_show
  mark_no_show-Refines key reason text new_id now =
      elim (Bool-cases (reason_name reason == "OTHER" && not (is_some (normalized_note text)))) [
        | inl refused ↦ rw refused (Refines-refl before diary)
        | inr fine ↦
            rw fine (transition-Refines (to_no_show reason (normalized_note text)) key new_id now)
      ]
