-- ===== src/Booking/Diary/Twice.antt =====
-- The replay of a creation (src/appointments/appointments.service.ts).
use panalbee_clock_backend.Base.{
  ℕ, true, List, find, Option, none, some, ok, ◌≡◌, refl, arith, Bool-cases, inl, inr, Leads,
  eq_refl, ◌==◌,
}
use panalbee_clock_backend.Affiliate.Referrals.{
  ReferralReceipt, find_receipt, receipt_found, is_conversion_for,
}
use panalbee_clock_backend.Booking.Availability.{Calendar}
use panalbee_clock_backend.Booking.Catalog.{assert_tenant_booking_enabled}
use panalbee_clock_backend.Booking.Appointments.{Appointment, AppointmentStore}
use panalbee_clock_backend.Booking.Intents.{Hashes, CreateIntent}
use panalbee_clock_backend.Booking.Creation.{
  PublicAppointmentResult, CreateIds, find_replay, same_request,
}
use panalbee_clock_backend.Booking.Creation.Writes.{insert_appointment, replay_result, result_of}
use panalbee_clock_backend.Booking.Creation.Create.{create_work, create}
use panalbee_clock_backend.Booking.Diary.Registered.{
  has_key, Inserts, IsReady, IsReplay, IsRegistered, create-IsRegistered,
}

-- The appointment that the key finds is of the same request.
abbrev IsFound : CreateIntent → Appointment → List Appointment → Type 0
IsFound intent a appointments =
    (find (has_key intent) appointments ≡ some a)
    × (a.request_fingerprint == intent.fingerprint ≡ true)

abbrev Anything : List Appointment → Type 0
Anything appointments = Unit {0}

module _ (hashes : Hashes) (intent : CreateIntent) where
  inserts-IsFound : Inserts hashes intent Anything (IsFound intent)
  unfolding insert_appointment
  inserts-IsFound customer_id appointment_id relation = record {
    on = λ s h done e. ground (
      arith,
      eq_refl intent.tenant_id,
      eq_refl intent.input.idempotency_key,
      eq_refl intent.fingerprint,
    );
  }

  same_request-IsReplay :
      (found replay : Option Appointment) (s : AppointmentStore)
      → find (has_key intent) s.appointments ≡ found
      → same_request intent found ≡ ok replay
      → IsReplay hashes intent Anything (IsFound intent) replay s
  same_request-IsReplay none none s there e = tt
  same_request-IsReplay none (some a) s there e = cc
  same_request-IsReplay (some b) replay s there e =
      elim (Bool-cases (b.request_fingerprint == intent.fingerprint)) [
        | inr other ↦ cc (rw other at e)
        | inl same ↦
            let accepted = rw same at e in
            let answer : some b ≡ replay = cc in rw (← answer) ((there, same))
      ]

  find_replay-IsReplay :
      Leads
        (IsReady hashes intent Anything (IsFound intent))
        (find_replay intent)
        (IsReplay hashes intent Anything (IsFound intent))
  unfolding find_replay
  find_replay-IsReplay = record {
    on = λ s h replay e.
        same_request-IsReplay (find (has_key intent) s.appointments) replay s refl e;
  }

  created-IsFound :
      (calendar : Calendar) (now : ℕ) (ids ids_again : CreateIds)
      → Leads
          (IsReady hashes intent Anything (IsFound intent))
          (create calendar hashes now intent ids ids_again)
          (IsRegistered hashes intent Anything (IsFound intent))
  created-IsFound =
      create-IsRegistered hashes intent Anything (IsFound intent) inserts-IsFound
        find_replay-IsReplay

-- The call again.
replayed :
    (calendar : Calendar) (hashes : Hashes) (intent : CreateIntent) (now : ℕ)
    (ids ids_again : CreateIds) (a : Appointment) (s : AppointmentStore)
    → IsFound intent a s.appointments
    → (intent.public_only ≡ true → assert_tenant_booking_enabled intent.tenant_id s.catalog ≡ ok tt)
    → (referral : Option ReferralReceipt) × (create calendar hashes now intent ids ids_again s
        ≡ (ok (result_of hashes intent a referral), s))
unfolding create create_work find_replay replay_result find_receipt
replayed calendar hashes intent now ids ids_again a s (found, fingerprint) enabled =
    let referral =
      receipt_found (find (is_conversion_for intent.tenant_id a.id) s.affiliates.conversions) in
    elim (Bool-cases intent.public_only) [
      | inl public ↦ (referral, rw (public, enabled public, found, fingerprint) refl)
      | inr private ↦ (referral, rw (private, found, fingerprint) refl)
    ]

-- A creation that was answered is answered again with the same appointment and the same management
-- token, whatever the time and the ids that are drawn, and the second call changes nothing. An intent
-- of the public needs public booking to be enabled still.
pub booking_twice :
    (calendar : Calendar) (hashes : Hashes) (intent : CreateIntent) (now later : ℕ)
    (ids ids_again ids_later ids_last : CreateIds) (r : PublicAppointmentResult)
    (s : AppointmentStore)
    → (create calendar hashes now intent ids ids_again s).0 ≡ ok r
    → let s' = (create calendar hashes now intent ids ids_again s).1 in
      (intent.public_only ≡ true
        → assert_tenant_booking_enabled intent.tenant_id s'.catalog ≡ ok tt)
      → (referral : Option ReferralReceipt) × (create calendar hashes later intent ids_later
            ids_last s'
          ≡ (ok (record r { referral = referral }), s'))
booking_twice calendar hashes intent now later ids ids_again ids_later ids_last r s answered
      enabled =
    let (found, token) =
      (created-IsFound hashes intent calendar now ids ids_again).on s tt r answered in
    let (referral, again) =
      replayed calendar hashes intent later ids_later ids_last r.appointment
        (create calendar hashes now intent ids ids_again s).1 found enabled in
    (referral, rw again (ground (arith, token)))
