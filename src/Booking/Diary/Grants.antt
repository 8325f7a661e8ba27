-- ===== src/Booking/Diary/Grants.antt =====
-- The steps of a creation that lead to a granted slot (src/appointments/appointments.service.ts).
use panalbee_clock_backend.Base.{
  ℕ, String, true, false, List, ◌∷◌, any, Option, none, some, ◌≡◌, arith, Keeps, Leads, pure-Keeps,
  >>=-Keeps, >>-Keeps,
}
use panalbee_clock_backend.Affiliate.Economics.{ServicePrice}
use panalbee_clock_backend.Affiliate.Referrals.{
  ResolvedReferral, prepare, record_conversion, find_receipt,
}
use panalbee_clock_backend.Booking.Locks.{IntervalLock}
use panalbee_clock_backend.Booking.Locks
use panalbee_clock_backend.Booking.Locks.Acquire.{IsGranted, acquire-IsGranted}
use panalbee_clock_backend.Booking.Locks.Overlaps.{granted-IsClear, granted-IsAgenda}
use panalbee_clock_backend.Booking.Openings.{is_active}
use panalbee_clock_backend.Booking.Appointments.{Appointment, AppointmentStore}
use panalbee_clock_backend.Booking.Lifecycle.{on_locks}
use panalbee_clock_backend.Booking.Intents.{PublicCustomer, Hashes, CreateIntent}
use panalbee_clock_backend.Booking.Creation.{upsert_public_customer}
use panalbee_clock_backend.Booking.Creation.Writes.{
  insert_appointment, record_created, replay_result, created_notification, created_event, result_of,
}
use panalbee_clock_backend.Booking.Creation.Create.{customer_of, attribution_of, record_attribution}
use panalbee_clock_backend.Booking.Diary.{
  slot_of, active_slots, has_appointment_id, next_appointment, books, IsDiary, Refines,
}
use panalbee_clock_backend.Booking.Diary.Frames.{
  Holds, on_affiliates-Holds, create_event-Holds, create_notification-Holds,
  audit_appointment-Holds, IsSame,
}

module _ (Q : List Appointment → List IntervalLock → Type 0) where
  pub customer_of-Holds :
      (intent : CreateIntent) (new_id : String) (input : Option PublicCustomer)
      → Keeps (Holds Q) (customer_of intent new_id input)
  unfolding customer_of
  customer_of-Holds intent new_id none = pure-Keeps intent.customer_id
  customer_of-Holds intent new_id (some input) =
      on_affiliates-Holds Q (upsert_public_customer intent.tenant_id input new_id)

  pub attribution_of-Holds :
      (intent : CreateIntent) (customer_id : String) (price : ServicePrice) (now : ℕ)
      (code : Option String)
      → Keeps (Holds Q) (attribution_of intent customer_id price now code)
  unfolding attribution_of
  attribution_of-Holds intent customer_id price now none = pure-Keeps none
  attribution_of-Holds intent customer_id price now (some code) =
      >>=-Keeps (on_affiliates-Holds Q (prepare intent.tenant_id code customer_id price now))
        (λ r. pure-Keeps (some r))

  pub record_attribution-Holds :
      (intent : CreateIntent) (appointment_id customer_id new_id : String)
      (attribution : Option ResolvedReferral)
      → Keeps (Holds Q) (record_attribution intent appointment_id customer_id new_id attribution)
  unfolding record_attribution
  record_attribution-Holds intent appointment_id customer_id new_id none = pure-Keeps none
  record_attribution-Holds intent appointment_id customer_id new_id (some resolved) =
      >>=-Keeps
        (on_affiliates-Holds Q (
          record_conversion intent.tenant_id appointment_id customer_id intent.input.service_id
            resolved new_id))
        (λ r. pure-Keeps (some r))

  pub record_created-Holds :
      (hashes : Hashes) (now : ℕ) (tenant_id : String) (actor_user_id : Option String)
      (a : Appointment)
      → Keeps (Holds Q) (record_created hashes now tenant_id actor_user_id a)
  unfolding record_created
  record_created-Holds hashes now tenant_id actor_user_id a =
      >>-Keeps (create_notification-Holds Q (created_notification now tenant_id a)) (
        >>-Keeps (audit_appointment-Holds Q tenant_id actor_user_id "APPOINTMENT_CREATED" a.id)
          (create_event-Holds Q (created_event hashes tenant_id actor_user_id a)))

  pub replay_result-Holds :
      (hashes : Hashes) (intent : CreateIntent) (a : Appointment)
      → Keeps (Holds Q) (replay_result hashes intent a)
  unfolding replay_result
  replay_result-Holds hashes intent a =
      >>=-Keeps (on_affiliates-Holds Q (find_receipt intent.tenant_id a.id))
        (λ referral. pure-Keeps (result_of hashes intent a referral))

-- After the write of the appointment, and after its minutes are locked.
module _ (before : AppointmentStore) (a : Appointment) where
  abbrev pub Inserted : List Appointment → List IntervalLock → Type 0
  Inserted appointments locks =
      (any (has_appointment_id a.id) before.appointments ≡ false)
      × (appointments ≡ a ∷ before.appointments)
      × (locks ≡ before.locks)

  abbrev pub Granted : List Appointment → List IntervalLock → Type 0
  Granted appointments locks =
      (any (has_appointment_id a.id) before.appointments ≡ false)
      × (appointments ≡ a ∷ before.appointments)
      × IsGranted a.tenant_id a.staff_id a.id a.starts_at a.ends_at before.locks locks

  pub insert_appointment-Leads :
      Leads (IsSame before) (insert_appointment a) (λ done. Holds Inserted)
  unfolding insert_appointment
  insert_appointment-Leads = record { on = λ s same done e. ground arith }

  pub acquire-Leads :
      Leads
        (Holds Inserted)
        (on_locks (Locks.acquire a.tenant_id a.staff_id a.id a.starts_at a.ends_at))
        (λ done. Holds Granted)
  acquire-Leads = record {
    on = λ s (fresh, appointments, locks) done e. (
      fresh,
      appointments,
      rw (← locks) (acquire-IsGranted a.tenant_id a.staff_id a.id a.starts_at a.ends_at s.locks e),
    );
  }

  pub Granted-Refines :
      (s : AppointmentStore)
      → IsDiary before
      → is_active a.status ≡ true
      → Holds Granted s
      → Refines before s
  unfolding active_slots
  Granted-Refines s diary active (fresh, appointments, granted) = record {
    step =
        rw (appointments, active)
          (books (granted-IsClear (slot_of a) before.locks s.locks granted diary.agenda));
    diary = record {
      distinct = rw appointments (next_appointment fresh diary.distinct);
      agenda =
          rw (appointments, active)
            (granted-IsAgenda (slot_of a) before.locks s.locks granted diary.agenda);
    };
  }
