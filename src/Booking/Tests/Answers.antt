-- ===== src/Booking/Tests/Answers.antt =====
-- What follows a booking that was answered: the call again, its token, and changes of it.
use panalbee_clock_backend.Base.{
  any, err, Exception, ◌>>=◌, true, false, [], ◌∷◌, Option, none, some, ok, ◌≡◌, refl,
}
use panalbee_clock_backend.Base.Text.{length_utf16}
use panalbee_clock_backend.Booking.Openings.Requests.{assert_slot_available}
use panalbee_clock_backend.Booking.Availability.{build_availability_slots}
use panalbee_clock_backend.Booking.Locks.{acquire, replace}
use panalbee_clock_backend.Booking.Intents.{management_token}
use panalbee_clock_backend.Affiliate.Referrals.{ReferralReceipt}
use panalbee_clock_backend.Booking.Catalog.{TenantStatus, assert_tenant_booking_enabled}
use panalbee_clock_backend.Booking.Appointments.{AppointmentStore}
use panalbee_clock_backend.Booking.Intents.{public_intent}
use panalbee_clock_backend.Booking.Creation.{PublicAppointmentResult}
use panalbee_clock_backend.Booking.Creation.Create.{create}
use panalbee_clock_backend.Booking.Diary.Histories.{creates, reschedules, run_bookings}
use panalbee_clock_backend.Booking.Diary.Twice.{booking_twice}
use panalbee_clock_backend.Booking.Diary.Tokens.{token_opens}
use panalbee_clock_backend.Booking.Management.{
  ManagementAccess, customer_access, public_access, load,
}
use panalbee_clock_backend.Booking.Management.Returns.{is_move_to, reschedule_never_again}
use panalbee_clock_backend.Booking.Management.Reschedule.{reschedule}
use panalbee_clock_backend.Booking.Tests.{clock, hashes, env, opened, ids, intent, booked}

abbrev answer : PublicAppointmentResult
answer = record {
  appointment = booked "a1" "key-0001" 32_400_000;
  management_token = some "appointment:a1";
  referral = none;
}

answered :
    (create clock hashes 0 (intent "key-0001" 32_400_000) (ids "a1") (ids "a1") opened).0
    ≡ ok answer
unfolding create public_intent assert_tenant_booking_enabled assert_slot_available
    build_availability_slots acquire length_utf16 management_token
answered = refl

still_enabled :
    assert_tenant_booking_enabled "t1"
      (create clock hashes 0 (intent "key-0001" 32_400_000) (ids "a1") (ids "a1") opened).1.catalog
    ≡ ok tt
unfolding create public_intent assert_tenant_booking_enabled assert_slot_available
    build_availability_slots acquire length_utf16 management_token
still_enabled = refl

booking_twice_example :
    let s' =
      (create clock hashes 0 (intent "key-0001" 32_400_000) (ids "a1") (ids "a1") opened).1 in
    (referral : Option ReferralReceipt) × (create clock hashes 1000
        (intent "key-0001" 32_400_000)
        (ids "a8")
        (ids "a9")
        s'
      ≡ (ok (record answer { referral = referral }), s'))
unfolding public_intent
booking_twice_example =
    booking_twice clock hashes (intent "key-0001" 32_400_000) 0 1000 (ids "a1") (ids "a1")
      (ids "a8") (ids "a9") answer opened answered (λ public. still_enabled)

token_opens_example :
    let s' =
      (create clock hashes 0 (intent "key-0001" 32_400_000) (ids "a1") (ids "a1") opened).1 in
    (public_access "shop" "a1" "appointment:a1" >>= load hashes) s' ≡ (ok answer.appointment, s')
unfolding create public_intent assert_tenant_booking_enabled assert_slot_available
    build_availability_slots acquire length_utf16 management_token
token_opens_example =
    token_opens clock hashes (intent "key-0001" 32_400_000) 0 (ids "a1") (ids "a1") answer opened
      "shop" "appointment:a1" "appointment:a1"
      (record { id = "t1"; slug = "shop"; status = TenantStatus.active }) answered refl refl refl
      refl refl

abbrev access : ManagementAccess
access = record (customer_access "t1" "c1" "a1") { public_only = false }

-- The appointment moves from nine to half past, and back.
abbrev there_and_back : AppointmentStore
there_and_back =
    run_bookings env
      ((0, creates (intent "key-0001" 32_400_000) (ids "a1") (ids "a1"))
        ∷ (1, reschedules access 34_200_000 none)
        ∷ (2, reschedules access 32_400_000 none)
        ∷ [])
      opened

back_again : (load hashes access there_and_back).0 ≡ ok (booked "a1" "key-0001" 32_400_000)
unfolding load run_bookings public_intent assert_tenant_booking_enabled assert_slot_available
    build_availability_slots acquire replace length_utf16 management_token
back_again = refl

moved_before : any (is_move_to "t1" "a1" 34_200_000) there_and_back.timeline ≡ true
unfolding run_bookings public_intent assert_tenant_booking_enabled assert_slot_available
    build_availability_slots acquire replace length_utf16 management_token
moved_before = refl

reschedule_never_again_example :
    (e : Exception) × (reschedule clock hashes 3 access 34_200_000 none there_and_back
      ≡ (err e, there_and_back))
reschedule_never_again_example =
    reschedule_never_again clock hashes 3 access 34_200_000 none (booked "a1" "key-0001" 32_400_000)
      there_and_back back_again refl moved_before
