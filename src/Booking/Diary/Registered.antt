-- ===== src/Booking/Diary/Registered.antt =====
-- What a creation that is answered leaves behind (src/appointments/appointments.service.ts), from what it
-- starts with.
use panalbee_clock_backend.Base.{
  ℕ, String, Bool, List, inspect-Keeps, Option, none, some, ok, Exception, Action, ◌≡◌, refl, Keeps,
  Leads, kept-Leads, >>=-Leads, caught-Leads, branch-Leads, if◌then◌else◌, is_named_duplicate_key,
  throw,
}
use panalbee_clock_backend.Booking.Locks.{IntervalLock}
use panalbee_clock_backend.Booking.Locks
use panalbee_clock_backend.Affiliate.Referrals.{ResolvedReferral, ReferralReceipt, find_receipt}
use panalbee_clock_backend.Booking.Availability.{Calendar}
use panalbee_clock_backend.Booking.Catalog.{assert_tenant_booking_enabled}
use panalbee_clock_backend.Booking.Openings.Requests.{assert_slot_available}
use panalbee_clock_backend.Booking.Appointments.{Appointment, AppointmentStore}
use panalbee_clock_backend.Booking.Lifecycle.{on_locks}
use panalbee_clock_backend.Booking.Intents.{Hashes, CreateIntent}
use panalbee_clock_backend.Booking.Creation.{
  PublicAppointmentResult, AppointmentRelation, CreateIds, has_idempotency_key, find_replay,
  validate_relations,
}
use panalbee_clock_backend.Booking.Creation.Writes.{
  insert_appointment, replay_result, result_of, token_of,
}
use panalbee_clock_backend.Booking.Creation.Create.{
  replay_or_create, replay_or_throw, appointment_of, write_appointment, create_new, create_work,
  create_recover, create_again, create, query_of, options_of,
}
use panalbee_clock_backend.Booking.Diary.Frames.{Holds}
use panalbee_clock_backend.Booking.Diary.Grants.{
  record_attribution-Holds, record_created-Holds, customer_of-Holds, attribution_of-Holds,
}

abbrev pub has_key : CreateIntent → Appointment → Bool
has_key intent = has_idempotency_key intent.tenant_id intent.input.idempotency_key

-- What the appointments are before a creation, and what they are to one that was created or found.
module _ (hashes : Hashes) (intent : CreateIntent) (Before : List Appointment → Type 0)
    (After : Appointment → List Appointment → Type 0) where
  abbrev pub IsReady : AppointmentStore → Type 0
  IsReady = Holds (λ appointments locks. Before appointments)

  abbrev IsWritten : Appointment → AppointmentStore → Type 0
  IsWritten a = Holds (λ appointments locks. After a appointments)

  -- A result whose appointment is there, with the token of its id.
  abbrev pub IsRegistered : PublicAppointmentResult → AppointmentStore → Type 0
  IsRegistered r s =
      IsWritten r.appointment s × (r.management_token ≡ token_of hashes intent r.appointment.id)

  abbrev pub IsReplay : Option Appointment → AppointmentStore → Type 0
  IsReplay none s = IsReady s
  IsReplay (some a) s = IsWritten a s

  abbrev pub Inserts : Type 0
  Inserts =
      (customer_id appointment_id : String) (relation : AppointmentRelation)
      → let a = appointment_of hashes intent customer_id appointment_id relation in
        Leads IsReady (insert_appointment a) (λ done. IsWritten a)

  on_locks-Keeps :
      (a : Appointment) (m : Action (List IntervalLock) (Unit {0}))
      → Keeps (IsWritten a) (on_locks m)
  on_locks-Keeps a m = record { on = λ s h. h }

  registered :
      (b : Appointment) (referral : Option ReferralReceipt) (s : AppointmentStore)
      → IsWritten b s
      → (r : PublicAppointmentResult) → ok (result_of hashes intent b referral) ≡ ok r
      → IsRegistered r s
  registered b referral s found r e =
      let same : result_of hashes intent b referral ≡ r = cc in rw (← same) ((found, refl))

  replay_result-IsRegistered :
      (a : Appointment) → Leads (IsWritten a) (replay_result hashes intent a) IsRegistered
  unfolding replay_result find_receipt
  replay_result-IsRegistered a = record { on = λ s found r e. registered a _ s found r e }

  module _ (inserts : Inserts) (replays : Leads IsReady (find_replay intent) IsReplay) where
    write_appointment-IsRegistered :
        (now : ℕ) (ids : CreateIds) (customer_id : String) (attribution : Option ResolvedReferral)
        (relation : AppointmentRelation)
        → Leads IsReady
            (write_appointment hashes now intent ids customer_id attribution
              (appointment_of hashes intent customer_id ids.appointment relation))
            IsRegistered
    unfolding write_appointment
    write_appointment-IsRegistered now ids customer_id attribution relation =
        let a = appointment_of hashes intent customer_id ids.appointment relation in
        >>=-Leads (λ done. IsWritten a) (inserts customer_id ids.appointment relation)
          (λ done.
            kept-Leads
              (record_attribution-Holds (λ appointments locks. After a appointments) intent a.id
                customer_id ids.conversion attribution)
              (λ referral.
                kept-Leads
                  (on_locks-Keeps a (
                    Locks.acquire intent.tenant_id intent.input.staff_id a.id a.starts_at
                      a.ends_at))
                  (λ locked.
                    kept-Leads
                      (record_created-Holds (λ appointments locks. After a appointments) hashes now
                        intent.tenant_id intent.actor_user_id a)
                      (λ recorded. record {
                        on = λ s found r e. registered a referral s found r e;
                      }))))

    create_new-IsRegistered :
        (calendar : Calendar) (now : ℕ) (ids : CreateIds)
        → Leads IsReady (create_new calendar hashes now intent ids) IsRegistered
    unfolding create_new
    create_new-IsRegistered calendar now ids =
        kept-Leads
          (customer_of-Holds (λ appointments locks. Before appointments) intent ids.customer
            intent.public_customer)
          (λ customer_id.
            kept-Leads (inspect-Keeps (validate_relations calendar intent customer_id)) (λ relation.
              kept-Leads
                (attribution_of-Holds (λ appointments locks. Before appointments) intent customer_id
                  relation.price now intent.referral_code)
                (λ attribution.
                  kept-Leads
                    (inspect-Keeps (λ s.
                      assert_slot_available calendar now s intent.tenant_id
                        (query_of intent relation.local_date) intent.input.starts_at
                        (options_of intent)))
                    (λ free.
                      write_appointment-IsRegistered now ids customer_id attribution relation))))

    create_work-IsRegistered :
        (calendar : Calendar) (now : ℕ) (ids : CreateIds)
        → Leads IsReady (create_work calendar hashes now intent ids) IsRegistered
    unfolding create_work
    create_work-IsRegistered calendar now ids =
        kept-Leads
          (inspect-Keeps (λ s.
            if intent.public_only
            then assert_tenant_booking_enabled intent.tenant_id s.catalog
            else ok tt))
          (λ enabled. >>=-Leads IsReplay replays replay_or_create-IsRegistered)
      where
        replay_or_create-IsRegistered :
            (replay : Option Appointment)
            → Leads
                (IsReplay replay)
                (replay_or_create calendar hashes now intent ids replay)
                IsRegistered
        replay_or_create-IsRegistered none = create_new-IsRegistered calendar now ids
        replay_or_create-IsRegistered (some a) = replay_result-IsRegistered a

    create_recover-IsRegistered :
        (x : Exception) → Leads IsReady (create_recover hashes intent x) IsRegistered
    unfolding create_recover
    create_recover-IsRegistered x =
        branch-Leads (is_named_duplicate_key x "appointment_idempotency_unique")
          (λ key. >>=-Leads IsReplay replays replay_or_throw-IsRegistered) (λ other. throw-Leads)
      where
        throw-Leads : Leads IsReady (throw x) IsRegistered
        throw-Leads = record { on = λ s h r e. cc }

        replay_or_throw-IsRegistered :
            (replay : Option Appointment)
            → Leads (IsReplay replay) (replay_or_throw hashes intent x replay) IsRegistered
        replay_or_throw-IsRegistered none = record { on = λ s h r e. cc }
        replay_or_throw-IsRegistered (some a) = replay_result-IsRegistered a

    pub create-IsRegistered :
        (calendar : Calendar) (now : ℕ) (ids ids_again : CreateIds)
        → Leads IsReady (create calendar hashes now intent ids ids_again) IsRegistered
    unfolding create create_again
    create-IsRegistered calendar now ids ids_again =
        caught-Leads (create_work-IsRegistered calendar now ids) (λ x.
          branch-Leads (is_named_duplicate_key x "customer_phone_unique")
            (λ phone.
              caught-Leads (create_work-IsRegistered calendar now ids_again)
                create_recover-IsRegistered)
            (λ other. create_recover-IsRegistered x))
