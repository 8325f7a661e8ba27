-- ===== src/Booking/Diary/Tokens.antt =====
-- The management token of a public booking (src/appointments/appointments.service.ts,
-- appointment-management-access.service.ts).
use panalbee_clock_backend.Base.{
  ℕ, String, true, false, List, [], ◌∷◌, any, find, none, some, is_some, ok, err, ◌>>=◌, ◌≡◌, refl,
  sym, ◌∙◌, arith, Bool-cases, inl, inr, Leads, eq_refl, ◌==◌, if◌then◌else◌,
}
use panalbee_clock_backend.Booking.Availability.{Calendar}
use panalbee_clock_backend.Booking.Catalog.{Tenant, is_tenant, is_slug}
use panalbee_clock_backend.Booking.Appointments.{Appointment, AppointmentStore}
use panalbee_clock_backend.Booking.Lifecycle.{appointment_not_found}
use panalbee_clock_backend.Booking.Intents.{Hashes, CreateIntent}
use panalbee_clock_backend.Booking.Creation.{PublicAppointmentResult, CreateIds, find_replay}
use panalbee_clock_backend.Booking.Creation.Writes.{token_of, token_hash_of}
use panalbee_clock_backend.Booking.Creation.Create.{create, appointment_of}
use panalbee_clock_backend.Booking.Management.{
  ManagementAccess, public_access, public_access_of, is_accessible, load,
}
use panalbee_clock_backend.Booking.Diary.Grants.{insert_appointment-Leads}
use panalbee_clock_backend.Booking.Diary.Registered.{
  has_key, Inserts, IsReady, IsReplay, IsRegistered, create-IsRegistered,
}

abbrev IsNew : CreateIntent → List Appointment → Type 0
IsNew intent appointments = find (has_key intent) appointments ≡ none

module _ (hashes : Hashes) (intent : CreateIntent) where
  -- The only appointment with its id, with the hash of its token.
  record IsOpened (a : Appointment) (appointments : List Appointment) : Type 0 where
    token : a.management_token_hash ≡ token_hash_of hashes (token_of hashes intent a.id)
    tenant : a.tenant_id ≡ intent.tenant_id
    only :
        (access : ManagementAccess)
        → access.appointment_id ≡ a.id
        → find (is_accessible hashes access) appointments
          ≡ (if is_accessible hashes access a then some a else none)

  inaccessible :
      (access : ManagementAccess) (xs : List Appointment)
      → any (λ b. b.id == access.appointment_id) xs ≡ false
      → find (is_accessible hashes access) xs ≡ none
  inaccessible access [] h = refl
  inaccessible access (b ∷ xs) h = elim (Bool-cases (b.id == access.appointment_id)) [
    | inl same ↦ cc (rw same at h)
    | inr other ↦ rw other (inaccessible access xs (rw other at h))
  ]

  inserts-IsOpened : Inserts hashes intent (IsNew intent) IsOpened
  inserts-IsOpened customer_id appointment_id relation = record {
    on = λ s h done e.
        let a = appointment_of hashes intent customer_id appointment_id relation in
        let (apart, there, locks) = (insert_appointment-Leads s a).on s (refl, refl) done e in
        rw there (record {
          token = refl;
          tenant = refl;
          only = λ access same. elim (Bool-cases (is_accessible hashes access a)) [
            | inl fits ↦ rw fits refl
            | inr not_fits ↦ rw not_fits (inaccessible access s.appointments (rw same apart))
          ];
        });
  }

  find_replay-IsReplay :
      Leads
        (IsReady hashes intent (IsNew intent) IsOpened)
        (find_replay intent)
        (IsReplay hashes intent (IsNew intent) IsOpened)
  unfolding find_replay
  find_replay-IsReplay = record {
    on = λ s new replay e.
        let answer : ok none ≡ ok replay = rw new at e in
        let same : none ≡ replay = cc in rw (← same) new;
  }

  created-IsOpened :
      (calendar : Calendar) (now : ℕ) (ids ids_again : CreateIds)
      → Leads
          (IsReady hashes intent (IsNew intent) IsOpened)
          (create calendar hashes now intent ids ids_again)
          (IsRegistered hashes intent (IsNew intent) IsOpened)
  created-IsOpened =
      create-IsRegistered hashes intent (IsNew intent) IsOpened inserts-IsOpened
        find_replay-IsReplay

find-is_tenant :
    (slug : String) (tenants : List Tenant) (tenant : Tenant)
    → find (is_slug slug) tenants ≡ some tenant
    → is_some (find (is_tenant tenant.id) tenants) ≡ true
find-is_tenant slug [] tenant h = cc
find-is_tenant slug (t ∷ ts) tenant h = elim (Bool-cases (is_slug slug t)) [
  | inl hit ↦
      let here = rw hit at h in
      let same : t ≡ tenant = cc in rw (← same) (ground (arith, eq_refl t.id))
  | inr miss ↦
      let later = find-is_tenant slug ts tenant (rw miss at h) in
      elim (Bool-cases (is_tenant tenant.id t)) [
        | inl this ↦ rw this refl
        | inr other ↦ rw other later
      ]
]

module _ (hashes : Hashes) (intent : CreateIntent) where
  -- Whether a token opens the appointment is whether its hash is the one that was stored.
  accessible-token :
      (a : Appointment) (appointments : List Appointment) (tenant : Tenant) (token other : String)
      → IsOpened hashes intent a appointments
      → token_of hashes intent a.id ≡ some token
      → other == "" ≡ false
      → tenant.id ≡ intent.tenant_id
      → is_accessible hashes (public_access_of tenant a.id other) a
        ≡ (hashes.token_hash token == hashes.token_hash other)
  accessible-token a appointments tenant token other opened given present same_tenant =
      let stored : a.management_token_hash ≡ some (hashes.token_hash token) =
        rw (opened.token, given) refl in
      let of_tenant : a.tenant_id ≡ tenant.id = cc (opened.tenant) in
      rw (stored, present, of_tenant, eq_refl a.id, eq_refl tenant.id) (ground arith)

-- The management token that a new public booking was answered with, sent back with the appointment's id
-- and the slug of an active tenant, loads exactly the appointment that was booked, and so does any token,
-- not empty, with the same hash; one with another hash gets APPOINTMENT_NOT_FOUND. The key of the booking
-- must be new, and the slug must find the tenant of the booking.
pub token_opens :
    (calendar : Calendar) (hashes : Hashes) (intent : CreateIntent) (now : ℕ)
    (ids ids_again : CreateIds) (r : PublicAppointmentResult) (s : AppointmentStore)
    (slug token other : String) (tenant : Tenant)
    → (create calendar hashes now intent ids ids_again s).0 ≡ ok r
    → find (has_key intent) s.appointments ≡ none
    → r.management_token ≡ some token
    → other == "" ≡ false
    → tenant.id ≡ intent.tenant_id
    → let s' = (create calendar hashes now intent ids ids_again s).1 in
      find (is_slug slug) s'.catalog.tenants ≡ some tenant
      → (public_access slug r.appointment.id other >>= load hashes) s' ≡ (
          if hashes.token_hash token == hashes.token_hash other
          then (ok r.appointment, s')
          else (err appointment_not_found, s'))
unfolding public_access load
token_opens calendar hashes intent now ids ids_again r s slug token other tenant answered new given
      present same_tenant listed =
    let s' = (create calendar hashes now intent ids ids_again s).1 in
    let (opened, registered) =
      (created-IsOpened hashes intent calendar now ids ids_again).on s new r answered in
    let fits =
      accessible-token hashes intent r.appointment s'.appointments tenant token other opened
        (sym registered ∙ given) present same_tenant in
    let active = find-is_tenant slug s'.catalog.tenants tenant listed in
    let found = opened.only (public_access_of tenant r.appointment.id other) refl in
    elim (Bool-cases (hashes.token_hash token == hashes.token_hash other)) [
      | inl same ↦ rw (listed, active, found, fits, same) refl
      | inr differ ↦ rw (listed, active, found, fits, differ) refl
    ]
