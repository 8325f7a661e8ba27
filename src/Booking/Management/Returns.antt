-- ===== src/Booking/Management/Returns.antt =====
-- A change to where an appointment was moved before (src/appointments/appointment-management.service.ts,
-- appointment-effects.service.ts): the idempotency key of its event has the new start and nothing else.
use panalbee_clock_backend.Base.{
  ℕ, String, Bool, ◌+◌, ◌*◌, Result, true, false, any, find, find-holds, ◌∷◌, insert_unique, beq,
  Option, ok, err, Exception, Action, ◌≡◌, refl, ◌∙◌, arith, Keeps, Leads, kept-Leads, >>=-Leads,
  branch-Leads, throw_if-Keeps, inspect-Keeps, Option-cases, inl, inr, eq_iff, inspect, ◌>>=◌, ◌>>◌,
  if◌then◌else◌, settle,
}
use panalbee_clock_backend.Base.Text.{concat}
use panalbee_clock_backend.Base.Dates.{to_iso_string}
use panalbee_clock_backend.Booking.Availability.{Calendar}
use panalbee_clock_backend.Booking.Appointments.{
  Appointment, AppointmentStore, TimelineEvent, Notification,
}
use panalbee_clock_backend.Booking.Lifecycle.{create_event, is_event_of}
use panalbee_clock_backend.Booking.Catalog.{assert_tenant_booking_enabled}
use panalbee_clock_backend.Booking.Openings.Requests.{assert_slot_available}
use panalbee_clock_backend.Booking.Intents.{Hashes}
use panalbee_clock_backend.Booking.Creation.Writes.{appointment_key, audit_appointment}
use panalbee_clock_backend.Booking.Management.{
  ManagementAccess, load, update_upcoming, is_upcoming_of,
}
use panalbee_clock_backend.Booking.Management.Effects.{
  upsert_notification, record_lifecycle, was_rescheduled, management_action, lifecycle_event,
  lifecycle_notification,
}
use panalbee_clock_backend.Booking.Management.Reschedule.{
  resolve_reschedule, reschedule_query, reschedule_options, moved, write_reschedule,
  reschedule_moved, reschedule_loaded, reschedule, trim_optional,
}

-- The event of a change of an appointment to a start.
abbrev pub is_move_to : String → String → ℕ → TimelineEvent → Bool
is_move_to tenant_id id starts_at =
    is_event_of tenant_id id
      (appointment_key id (concat "rescheduled" (concat ":" (to_iso_string starts_at))))

module _ (hashes : Hashes) (now : ℕ) (access : ManagementAccess) (id : String) (starts_at : ℕ) where
  abbrev WasThere : AppointmentStore → Type 0
  WasThere s = any (is_move_to access.tenant_id id starts_at) s.timeline ≡ true

  upsert_notification-WasThere : (n : Notification) → Keeps WasThere (upsert_notification n)
  unfolding upsert_notification
  upsert_notification-WasThere n = record { on = λ s h. ground arith }

  create_event_again :
      (e : TimelineEvent)
      → e.tenant_id ≡ access.tenant_id
      → e.appointment_id ≡ id
      → e.idempotency_key
        ≡ appointment_key id (concat "rescheduled" (concat ":" (to_iso_string starts_at)))
      → Leads WasThere (create_event e) (λ done s. ⊥)
  unfolding create_event
  create_event_again e same_tenant same_id same_key =
      let refused : Leads WasThere
          (insert_unique
            (λ s. any (is_event_of e.tenant_id e.appointment_id e.idempotency_key) s.timeline)
            "appointment_timeline_idempotency_unique" (λ s. record s { timeline = e ∷ s.timeline }))
          (λ done s. ⊥) =
        record {
          on = λ s there done ended.
              let taken : any (is_event_of e.tenant_id e.appointment_id e.idempotency_key)
                    s.timeline
                  ≡ true =
                rw (same_tenant, same_id, same_key) there in
              cc (rw taken at ended);
        } in
      kept-Leads (throw_if-Keeps _ _) (λ valid. refused)

  audit_appointment-WasThere :
      (action : String) (x : Appointment)
      → Keeps WasThere (audit_appointment access.tenant_id access.actor_user_id action x.id)
  audit_appointment-WasThere action x = record { on = λ s h. h }

  recorded_once :
      (x previous : Appointment) (reason : Option String)
      → x.id ≡ id
      → x.starts_at ≡ starts_at
      → Leads WasThere
          (record_lifecycle hashes now access x was_rescheduled reason previous)
          (λ done s. ⊥)
  unfolding record_lifecycle
  recorded_once x previous reason same_id same_start =
      kept-Leads
        (upsert_notification-WasThere (lifecycle_notification now access x was_rescheduled reason))
        (λ notified.
          kept-Leads (audit_appointment-WasThere (management_action was_rescheduled) x) (λ audited.
            create_event_again (lifecycle_event hashes now access x was_rescheduled reason previous)
              refl same_id (rw (same_id, same_start) refl)))

  updated_to :
      (a : Appointment) (ends_at : ℕ)
      → a.id ≡ id
      → Leads WasThere
          (update_upcoming access.tenant_id a.id (moved starts_at ends_at))
          (λ u s. WasThere s × (u.id ≡ id) × (u.starts_at ≡ starts_at))
  unfolding update_upcoming
  updated_to a ends_at same = record {
    on = λ s there u e.
        elim (Option-cases (find (is_upcoming_of access.tenant_id a.id) s.appointments)) [
          | inl none_there ↦ cc (rw none_there at e)
          | inr (p, found) ↦
              let updated : moved starts_at ends_at p ≡ u = (let h = rw found at e in cc) in
              let about = find-holds (is_upcoming_of access.tenant_id a.id) s.appointments found in
              let named : p.id ≡ a.id = (eq_iff p.id a.id).0 (ground arith) in
              rw found (there, rw (← updated) (named ∙ same), rw (← updated) refl)
        ];
  }

  write_never :
      (a : Appointment) (ends_at : ℕ) (reason : Option String)
      → a.id ≡ id
      → Leads WasThere (write_reschedule hashes now access starts_at ends_at reason a) (λ u s. ⊥)
  unfolding write_reschedule
  write_never a ends_at reason same =
      kept-Leads (record { on = λ s h. h })
        (λ locked.
          >>=-Leads (λ u s. WasThere s × (u.id ≡ id) × (u.starts_at ≡ starts_at))
            (updated_to a ends_at same)
            (λ u. record {
              on = λ s (there, same_id, same_start) r e.
                  (>>=-Leads (λ done s. ⊥) (recorded_once u a reason same_id same_start)
                      (λ done. record { on = λ s h r e. h })).on
                    s there r e;
            }))

module _ (calendar : Calendar) (hashes : Hashes) (now : ℕ) (access : ManagementAccess)
    (starts_at : ℕ) where
  moved_never :
      (a : Appointment) (reason : Option String)
      → Leads
          (WasThere hashes now access a.id starts_at)
          (reschedule_moved calendar hashes now access starts_at reason a)
          (λ u s. ⊥)
  unfolding reschedule_moved
  moved_never a reason =
      kept-Leads
        (inspect-Keeps
          (resolve_reschedule calendar access.tenant_id access.public_only a starts_at))
        (λ relation.
          kept-Leads
            (inspect-Keeps (λ s.
              assert_slot_available calendar now s access.tenant_id
                (reschedule_query a relation.local_date) starts_at
                (reschedule_options access.public_only a)))
            (λ free.
              write_never hashes now access a.id starts_at a
                (starts_at + relation.duration_minutes * 60_000) reason refl))

  loaded_never :
      (a : Appointment) (reason : Option String)
      → beq a.starts_at starts_at ≡ false
      → Leads
          (WasThere hashes now access a.id starts_at)
          (reschedule_loaded calendar hashes now access starts_at reason a)
          (λ u s. ⊥)
  loaded_never a reason elsewhere = kept-Leads (throw_if-Keeps _ _) (λ upcoming.
      branch-Leads (beq a.starts_at starts_at) (λ there. cc) (λ other. moved_never a reason))

  the_loaded_never :
      (a b : Appointment) (reason : Option String)
      → beq a.starts_at starts_at ≡ false
      → Leads
          (λ s. (a ≡ b) × WasThere hashes now access a.id starts_at s)
          (reschedule_loaded calendar hashes now access starts_at reason b)
          (λ u s. ⊥)
  the_loaded_never a b reason elsewhere = record {
    on = λ s (same, there) u ended.
        (loaded_never a reason elsewhere).on s there u (rw (← same) at ended);
  }

  load_finds :
      (a : Appointment)
      → Leads
          (λ s. ((load hashes access s).0 ≡ ok a) × WasThere hashes now access a.id starts_at s)
          (load hashes access)
          (λ b s. (a ≡ b) × WasThere hashes now access a.id starts_at s)
  unfolding load
  load_finds a = record { on = λ s (loaded, there) b e. (cc, ground arith) }

  -- The work of `reschedule`.
  abbrev work : Option String → Action AppointmentStore Appointment
  work reason =
      (inspect (λ s.
        if access.public_only
        then assert_tenant_booking_enabled access.tenant_id s.catalog
        else ok tt))
      >> (load hashes access >>= reschedule_loaded calendar hashes now access starts_at reason)

  work_never :
      (a : Appointment) (reason : Option String)
      → beq a.starts_at starts_at ≡ false
      → Leads
          (λ s. ((load hashes access s).0 ≡ ok a) × WasThere hashes now access a.id starts_at s)
          (work reason)
          (λ u s. ⊥)
  work_never a reason elsewhere =
      kept-Leads
        (inspect-Keeps (λ s.
          if access.public_only
          then assert_tenant_booking_enabled access.tenant_id s.catalog
          else ok tt))
        (λ enabled.
          >>=-Leads (λ b s. (a ≡ b) × WasThere hashes now access a.id starts_at s) (load_finds a)
            (λ b. the_loaded_never a b reason elsewhere))

refused :
    {A : Type 0} (s : AppointmentStore) (r : Result A × AppointmentStore)
    → ((a : A) → r.0 ≡ ok a → ⊥)
    → (e : Exception) × (settle s r ≡ (err e, s))
refused s (ok a, s') h = absurd (h a refl)
refused s (err e, s') h = (e, refl)

-- A change of an appointment to a start to which a change of it has been recorded already never succeeds,
-- and leaves the store as it is, although the appointment is somewhere else now.
pub reschedule_never_again :
    (calendar : Calendar) (hashes : Hashes) (now : ℕ) (access : ManagementAccess) (starts_at : ℕ)
    (reason : Option String) (a : Appointment) (s : AppointmentStore)
    → (load hashes access s).0 ≡ ok a
    → beq a.starts_at starts_at ≡ false
    → any (is_move_to access.tenant_id a.id starts_at) s.timeline ≡ true
    → (e : Exception) × (reschedule calendar hashes now access starts_at reason s ≡ (err e, s))
unfolding reschedule
reschedule_never_again calendar hashes now access starts_at reason a s loaded elsewhere there =
    refused s (work calendar hashes now access starts_at (trim_optional reason) s) (
      (work_never calendar hashes now access starts_at a (trim_optional reason) elsewhere).on s
        (loaded, there))
