-- ===== src/Booking/Diary/Bookings.antt =====
-- The creation of an appointment books a slot of the diary (src/appointments/appointments.service.ts).
use panalbee_clock_backend.Base.{
  ℕ, String, Option, none, some, ok, Exception, Action, refl, Keeps, Leads, kept-Leads, >>=-Leads,
  inspect-Keeps, throw-Keeps, >>=-Keeps, if-Keeps, if◌then◌else◌, Bool-cases, inl, inr,
  is_named_duplicate_key,
}
use panalbee_clock_backend.Affiliate.Referrals.{ResolvedReferral}
use panalbee_clock_backend.Booking.Availability.{Calendar}
use panalbee_clock_backend.Booking.Catalog.{assert_tenant_booking_enabled}
use panalbee_clock_backend.Booking.Openings.Requests.{assert_slot_available}
use panalbee_clock_backend.Booking.Appointments.{Appointment, AppointmentStore}
use panalbee_clock_backend.Booking.Intents.{Hashes, CreateIntent}
use panalbee_clock_backend.Booking.Creation.{
  CreateIds, validate_relations, find_replay, AppointmentRelation,
}
use panalbee_clock_backend.Booking.Creation.Create.{
  write_appointment, create_new, create_work, create_recover, create_again, create,
  replay_or_create, replay_or_throw, retry_or_recover, appointment_of, query_of, options_of,
}
use panalbee_clock_backend.Booking.Diary.{IsDiary, Refines}
use panalbee_clock_backend.Booking.Diary.Frames.{Holds, IsSame, IsSame-Refines, try-Refines}
use panalbee_clock_backend.Booking.Diary.Grants.{
  customer_of-Holds, attribution_of-Holds, record_attribution-Holds, record_created-Holds,
  replay_result-Holds, Inserted, Granted, insert_appointment-Leads, acquire-Leads, Granted-Refines,
}

module _ (calendar : Calendar) (hashes : Hashes) (now : ℕ) (before : AppointmentStore)
    (diary : IsDiary before) where
  -- The document of `create`, from its write on.
  write_appointment-Leads :
      (intent : CreateIntent) (ids : CreateIds) (customer_id : String)
      (attribution : Option ResolvedReferral) (relation : AppointmentRelation)
      → Leads
          (IsSame before)
          (write_appointment hashes now intent ids customer_id attribution
            (appointment_of hashes intent customer_id ids.appointment relation))
          (λ r. Refines before)
  unfolding write_appointment
  write_appointment-Leads intent ids customer_id attribution relation =
      let a = appointment_of hashes intent customer_id ids.appointment relation in
      >>=-Leads (λ done. Holds (Inserted before a)) (insert_appointment-Leads before a)
        (λ done.
          kept-Leads
            (record_attribution-Holds (Inserted before a) intent a.id customer_id ids.conversion
              attribution)
            (λ referral.
              >>=-Leads (λ locked. Holds (Granted before a)) (acquire-Leads before a)
                (λ locked.
                  kept-Leads
                    (record_created-Holds (Granted before a) hashes now a.tenant_id
                      intent.actor_user_id a)
                    (λ recorded. record {
                      on = λ s granted r e. Granted-Refines before a s diary refl granted;
                    }))))

  create_new-Leads :
      (intent : CreateIntent) (ids : CreateIds)
      → Leads (IsSame before) (create_new calendar hashes now intent ids) (λ r. Refines before)
  unfolding create_new
  create_new-Leads intent ids =
      kept-Leads (customer_of-Holds _ intent ids.customer intent.public_customer) (λ customer_id.
        kept-Leads (inspect-Keeps (validate_relations calendar intent customer_id)) (λ relation.
          kept-Leads
            (attribution_of-Holds _ intent customer_id relation.price now intent.referral_code)
            (λ attribution.
              kept-Leads
                (inspect-Keeps (λ s.
                  assert_slot_available calendar now s intent.tenant_id
                    (query_of intent relation.local_date) intent.input.starts_at
                    (options_of intent)))
                (λ free. write_appointment-Leads intent ids customer_id attribution relation))))

  IsSame-Leads :
      {A : Type 0} {m : Action AppointmentStore A}
      → Keeps (IsSame before) m
      → Leads (IsSame before) m (λ r. Refines before)
  IsSame-Leads h = record { on = λ s same r e. IsSame-Refines before _ diary (h.on s same) }

  find_replay-Keeps : (intent : CreateIntent) → Keeps (IsSame before) (find_replay intent)
  unfolding find_replay
  find_replay-Keeps intent = record { on = λ s h. h }

  create_work-Leads :
      (intent : CreateIntent) (ids : CreateIds)
      → Leads (IsSame before) (create_work calendar hashes now intent ids) (λ r. Refines before)
  unfolding create_work
  create_work-Leads intent ids =
      kept-Leads
        (inspect-Keeps (λ s.
          if intent.public_only
          then assert_tenant_booking_enabled intent.tenant_id s.catalog
          else ok tt))
        (λ enabled. kept-Leads (find_replay-Keeps intent) replay_or_create-Leads)
    where
      replay_or_create-Leads :
          (replay : Option Appointment)
          → Leads
              (IsSame before)
              (replay_or_create calendar hashes now intent ids replay)
              (λ r. Refines before)
      replay_or_create-Leads none = create_new-Leads intent ids
      replay_or_create-Leads (some a) = IsSame-Leads (replay_result-Holds _ hashes intent a)

  create_recover-Keeps :
      (intent : CreateIntent) (e : Exception)
      → Keeps (IsSame before) (create_recover hashes intent e)
  unfolding create_recover
  create_recover-Keeps intent e =
      if-Keeps _ (>>=-Keeps (find_replay-Keeps intent) replay_or_throw-Keeps) (throw-Keeps e)
    where
      replay_or_throw-Keeps :
          (replay : Option Appointment)
          → Keeps (IsSame before) (replay_or_throw hashes intent e replay)
      replay_or_throw-Keeps none = throw-Keeps e
      replay_or_throw-Keeps (some a) = replay_result-Holds _ hashes intent a

  recovered-Refines :
      (intent : CreateIntent) (e : Exception)
      → Refines before (create_recover hashes intent e before).1
  recovered-Refines intent e =
      IsSame-Refines before _ diary ((create_recover-Keeps intent e).on before (refl, refl))

  create_again-Refines :
      (intent : CreateIntent) (ids : CreateIds)
      → Refines before (create_again calendar hashes now intent ids before).1
  unfolding create_again
  create_again-Refines intent ids =
      try-Refines before diary (create_work calendar hashes now intent ids)
        (create_recover hashes intent) (create_work-Leads intent ids) (recovered-Refines intent)

  -- The creation of an appointment books a slot of the diary, or leaves the diary as it is.
  pub create-Refines :
      (intent : CreateIntent) (ids ids_again : CreateIds)
      → Refines before (create calendar hashes now intent ids ids_again before).1
  unfolding create
  create-Refines intent ids ids_again =
      try-Refines before diary (create_work calendar hashes now intent ids)
        (retry_or_recover calendar hashes now intent ids_again) (create_work-Leads intent ids)
        (λ e. elim (Bool-cases (is_named_duplicate_key e "customer_phone_unique")) [
          | inl phone ↦ rw phone (create_again-Refines intent ids_again)
          | inr other ↦ rw other (recovered-Refines intent e)
        ])
