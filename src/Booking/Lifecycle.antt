-- ===== src/Booking/Lifecycle.antt =====
-- The life of an appointment: start, complete and noShow
-- (src/appointments/appointment-lifecycle.service.ts, appointment-effects.service.ts). The clock, the new
-- ids and the fingerprint of a request, a hash of its JSON text, are arguments.
pub mod Updates
pub mod Ended
mod Histories
mod Replay
mod Closing
mod Tests
use panalbee_clock_backend.Base.{
  ℕ, ◌+◌, ◌-◌, String, Bool, true, false, ◌&&◌, ◌||◌, not, List, [], ◌∷◌, any, find, update_first,
  beq, ltb, leb, Option, none, some, if◌then◌else◌, Result, ok, err, fault, app, Exception, Action,
  pure, throw, lift, gets, modify, or_throw, throw_if, insert_unique, with_transaction, ◌>>=◌, ◌>>◌,
  ◌==◌, is_some,
}
use panalbee_clock_backend.Base.Text.{trim, length_utf16, concat}
use panalbee_clock_backend.Booking.Appointments.{
  AppointmentStatus, status_name, NoShowReason, reason_name, Appointment, TimelineEvent,
  AppointmentAudit, AppointmentStore, LifecycleActor, StatusEvent, event_name, reason_of, note_of,
  pending, confirmed, in_progress, cancelled, completed, no_show, did_not_arrive,
  cancelled_too_late, could_not_contact, other, to_started, to_completed, to_no_show,
}
use panalbee_clock_backend.Booking.Locks.{IntervalLock}
use panalbee_clock_backend.Booking.Locks
use panalbee_clock_backend.Affiliate.Store.{AffiliateStore}
use panalbee_clock_backend.Affiliate.Ledger.{earn_completed_commission}

abbrev pub appointment_not_found : Exception
appointment_not_found = app 404 "APPOINTMENT_NOT_FOUND"

abbrev pub transition_invalid : Exception
transition_invalid = app 409 "APPOINTMENT_TRANSITION_INVALID"

-- `['PENDING', 'CONFIRMED'].includes(status)`
abbrev pub is_upcoming : AppointmentStatus → Bool
is_upcoming status = status_name status == "PENDING" || status_name status == "CONFIRMED"

abbrev pub is_in_progress : AppointmentStatus → Bool
is_in_progress status = status_name status == "IN_PROGRESS"

unfoldable pub update_started : ℕ → Appointment → Result Appointment
update_started now a =
    if not (is_upcoming a.status)
    then err transition_invalid
    else if ltb (now + 1_800_000) a.starts_at
    then err (app 409 "APPOINTMENT_START_TOO_EARLY")
    else ok (record a { status = in_progress; started_at = some now })

unfoldable pub update_completed : Option String → ℕ → Appointment → Result Appointment
update_completed note now a =
    if is_in_progress a.status || (is_upcoming a.status && leb a.ends_at now)
    then ok (record a { status = completed; completed_at = some now; outcome_note = note })
    else if is_upcoming a.status
    then err (app 409 "APPOINTMENT_MUST_BE_STARTED")
    else err transition_invalid

unfoldable pub update_no_show : NoShowReason → Option String → ℕ → Appointment → Result Appointment
update_no_show reason note now a =
    if not (is_upcoming a.status || is_in_progress a.status)
    then err transition_invalid
    else if ltb now a.starts_at
    then err (app 409 "APPOINTMENT_NO_SHOW_TOO_EARLY")
    else ok (record a {
      status = no_show;
      no_show_at = some now;
      no_show_reason = some reason;
      outcome_note = note;
    })

-- The `update` that each of the operations passes on.
unfoldable pub update_of : StatusEvent → ℕ → Appointment → Result Appointment
unfolding update_started update_completed update_no_show
update_of to_started = update_started
update_of (to_completed note) = update_completed note
update_of (to_no_show reason note) = update_no_show reason note

abbrev pub is_appointment : String → String → Appointment → Bool
is_appointment tenant_id appointment_id a = a.id == appointment_id && a.tenant_id == tenant_id

-- The filter of the conditional write.
abbrev pub has_status : String → String → AppointmentStatus → Appointment → Bool
has_status tenant_id appointment_id status a =
    is_appointment tenant_id appointment_id a && status_name a.status == status_name status

abbrev pub is_event_of : String → String → String → TimelineEvent → Bool
is_event_of tenant_id appointment_id key e =
    e.tenant_id == tenant_id && e.appointment_id == appointment_id && e.idempotency_key == key

abbrev short_enough : Option String → Bool
short_enough none = true
short_enough (some note) = leb (length_utf16 note) 2000

-- `create` of a timeline event: the schema's bounds and the unique index.
unfoldable pub create_event : TimelineEvent → Action AppointmentStore (Unit {0})
create_event e = do
  throw_if
      (not (
        leb 8 (length_utf16 e.idempotency_key)
        && leb (length_utf16 e.idempotency_key) 160
        && short_enough e.note))
      (fault "ValidationError")
  insert_unique (λ s. any (is_event_of e.tenant_id e.appointment_id e.idempotency_key) s.timeline)
      "appointment_timeline_idempotency_unique" (λ s. record s { timeline = e ∷ s.timeline })

unfoldable pub record_status_transition :
    LifecycleActor
    → Appointment
    → Appointment
    → StatusEvent
    → String
    → String
    → Action AppointmentStore (Unit {0})
unfolding create_event
record_status_transition actor previous appointment event idempotency_key request_fingerprint = do
  create_event (record {
    tenant_id = actor.tenant_id;
    appointment_id = appointment.id;
    actor_user_id = actor.actor_user_id;
    event_type = event_name event;
    from_status = some previous.status;
    to_status = appointment.status;
    reason_code = reason_of event;
    note = note_of event;
    previous_starts_at = none;
    previous_ends_at = none;
    starts_at = appointment.starts_at;
    ends_at = appointment.ends_at;
    idempotency_key = idempotency_key;
    request_fingerprint = request_fingerprint;
  })
  modify (λ s. record s {
    audits =
        record {
          tenant_id = actor.tenant_id;
          actor_user_id = actor.actor_user_id;
          action = concat "APPOINTMENT_" (event_name event);
          entity_id = appointment.id;
        }
        ∷ s.audits;
  })

-- `replay`, once the event has been looked for.
unfoldable pub replay_event :
    String → String → StatusEvent → String → TimelineEvent → Action AppointmentStore Appointment
replay_event tenant_id appointment_id event request_fingerprint e = do
  throw_if
      (not (e.event_type == event_name event) || not (e.request_fingerprint == request_fingerprint))
      (app 409 "IDEMPOTENCY_KEY_CONFLICT")
  found ← gets (λ s. find (is_appointment tenant_id appointment_id) s.appointments)
  or_throw found appointment_not_found

-- What the calls of the other services do to the store.
abbrev put_locks :
    {A : Type 0} → AppointmentStore → Result A × List IntervalLock → Result A × AppointmentStore
put_locks s (r, locks) = (r, record s { locks = locks })

abbrev put_affiliates :
    {A : Type 0} → AppointmentStore → Result A × AffiliateStore → Result A × AppointmentStore
put_affiliates s (r, affiliates) = (r, record s { affiliates = affiliates })

module _ {A : Type 0} where
  abbrev pub on_locks : Action (List IntervalLock) A → Action AppointmentStore A
  on_locks m s = put_locks s (m s.locks)

  abbrev pub on_affiliates : Action AffiliateStore A → Action AppointmentStore A
  on_affiliates m s = put_affiliates s (m s.affiliates)

-- `if (eventType !== 'STARTED') { … }`
unfoldable pub release_locks : String → String → StatusEvent → Action AppointmentStore (Unit {0})
release_locks tenant_id appointment_id to_started s = (ok tt, s)
release_locks tenant_id appointment_id (to_completed _) s =
    put_locks s (Locks.release tenant_id appointment_id s.locks)
release_locks tenant_id appointment_id (to_no_show _ _) s =
    put_locks s (Locks.release tenant_id appointment_id s.locks)

-- `if (eventType === 'COMPLETED') { … }`
unfoldable pub earn_commission :
    String → String → String → StatusEvent → Action AppointmentStore (Unit {0})
earn_commission tenant_id appointment_id new_id to_started s = (ok tt, s)
earn_commission tenant_id appointment_id new_id (to_completed _) s =
    put_affiliates s (earn_completed_commission tenant_id appointment_id new_id s.affiliates)
earn_commission tenant_id appointment_id new_id (to_no_show _ _) s = (ok tt, s)

-- The transaction from the conditional write on.
unfoldable pub write_transition :
    LifecycleActor
    → String
    → StatusEvent
    → String
    → String
    → String
    → Appointment
    → Appointment
    → Action AppointmentStore Appointment
unfolding record_status_transition release_locks earn_commission
write_transition actor appointment_id event idempotency_key request_fingerprint new_id appointment
      updated =
    do
      matched ←
          gets
            (λ s. any (has_status actor.tenant_id appointment_id appointment.status) s.appointments)
      throw_if (not matched) transition_invalid
      modify (λ s. record s {
        appointments =
            update_first (has_status actor.tenant_id appointment_id appointment.status)
              (λ _. updated) s.appointments;
      })
      release_locks actor.tenant_id appointment_id event
      record_status_transition actor appointment updated event idempotency_key request_fingerprint
      earn_commission actor.tenant_id appointment_id new_id event
      pure updated

-- The rest of the transition where there is no event with the key.
unfoldable pub transition_new :
    LifecycleActor
    → String
    → StatusEvent
    → String
    → String
    → String
    → ℕ
    → Action AppointmentStore Appointment
unfolding update_of write_transition
transition_new actor appointment_id event idempotency_key request_fingerprint new_id now = do
  found ← gets (λ s. find (is_appointment actor.tenant_id appointment_id) s.appointments)
  appointment ← or_throw found appointment_not_found
  updated ← lift (update_of event now appointment)
  write_transition actor appointment_id event idempotency_key request_fingerprint new_id appointment
      updated

abbrev pub replay_or :
    Action AppointmentStore Appointment
    → (TimelineEvent → Action AppointmentStore Appointment)
    → Option TimelineEvent
    → Action AppointmentStore Appointment
replay_or otherwise replay none = otherwise
replay_or otherwise replay (some e) = replay e

-- `note?.trim() || null`
abbrev pub normalized_note : Option String → Option String
normalized_note none = none
normalized_note (some note) = if trim note == "" then none else some (trim note)

module _ (fingerprint : StatusEvent → String) where
  unfoldable pub transition :
      LifecycleActor
      → String
      → StatusEvent
      → String
      → String
      → ℕ
      → Action AppointmentStore Appointment
  unfolding transition_new replay_event
  transition actor appointment_id event idempotency_key new_id now = with_transaction do
    event_found ←
        gets (λ s. find (is_event_of actor.tenant_id appointment_id idempotency_key) s.timeline)
    replay_or
        (transition_new actor appointment_id event idempotency_key (fingerprint event) new_id now)
        (replay_event actor.tenant_id appointment_id event (fingerprint event)) event_found

  unfoldable pub start :
      LifecycleActor → String → String → String → ℕ → Action AppointmentStore Appointment
  unfolding transition
  start actor appointment_id idempotency_key new_id now =
      transition actor appointment_id to_started idempotency_key new_id now

  unfoldable pub complete :
      LifecycleActor
      → String
      → String
      → Option String
      → String
      → ℕ
      → Action AppointmentStore Appointment
  unfolding transition
  complete actor appointment_id idempotency_key note new_id now =
      transition actor appointment_id (to_completed (normalized_note note)) idempotency_key new_id
        now

  unfoldable pub mark_no_show :
      LifecycleActor
      → String
      → String
      → NoShowReason
      → Option String
      → String
      → ℕ
      → Action AppointmentStore Appointment
  unfolding transition
  mark_no_show actor appointment_id idempotency_key reason note new_id now =
      throw_if (reason_name reason == "OTHER" && not (is_some (normalized_note note)))
        (app 400 "APPOINTMENT_NO_SHOW_NOTE_REQUIRED")
      >> transition actor appointment_id (to_no_show reason (normalized_note note)) idempotency_key
          new_id now
