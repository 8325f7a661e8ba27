-- ===== src/Booking/Diary/Events.antt =====
-- What the writes of the life cycle do to the diary (src/appointments/appointment-lifecycle.service.ts).
use panalbee_clock_backend.Base.{
  ℕ, String, Bool, true, false, not, List, [], ◌∷◌, any, keep, find, find-holds, update_first, some,
  ok, ◌≡◌, refl, ◌∙◌, ap, sym, arith, Keeps, Leads, modify-Keeps, >>-Keeps, Bool-cases, inl, inr,
  eq_iff,
}
use panalbee_clock_backend.Booking.Locks.{IntervalLock, is_owned, release}
use panalbee_clock_backend.Booking.Openings.{is_active}
use panalbee_clock_backend.Booking.Appointments.{
  Appointment, AppointmentStatus, AppointmentStore, LifecycleActor, StatusEvent, to_started,
  to_completed, to_no_show,
}
use panalbee_clock_backend.Booking.Lifecycle.{
  update_started, update_completed, update_no_show, update_of, is_appointment, has_status,
  record_status_transition, release_locks, earn_commission, is_upcoming,
}
use panalbee_clock_backend.Booking.Lifecycle.Updates.{update_of-identity}
use panalbee_clock_backend.Booking.Diary.Loading.{upcoming-active}
use panalbee_clock_backend.Booking.Diary.{slot_of, IsDiary, Refines}
use panalbee_clock_backend.Booking.Diary.Writes.{freed-Refines, same-Refines, found-same}
use panalbee_clock_backend.Booking.Diary.Frames.{Holds, create_event-Holds}

-- A start stays in the diary as it is, and every other event takes the appointment out of it.
abbrev Stays : StatusEvent → Appointment → Appointment → Type 0
Stays to_started a u = (is_active u.status ≡ is_active a.status) × (slot_of u ≡ slot_of a)
Stays (to_completed _) a u = is_active u.status ≡ false
Stays (to_no_show _ _) a u = is_active u.status ≡ false

update_of-Stays :
    (event : StatusEvent) (now : ℕ) (a u : Appointment)
    → update_of event now a ≡ ok u
    → Stays event a u
unfolding update_of update_started update_completed update_no_show
update_of-Stays to_started now a u h = elim (Bool-cases (is_upcoming a.status)) [
  | inr over ↦ cc (rw over at h)
  | inl upcoming ↦ let active = upcoming-active a.status upcoming in rw active (ground arith)
]
update_of-Stays (to_completed text) now a u h = ground arith
update_of-Stays (to_no_show reason text) now a u h = ground arith

module _ (Q : List Appointment → List IntervalLock → Type 0) where
  pub record_status_transition-Holds :
      (actor : LifecycleActor) (previous updated : Appointment) (event : StatusEvent)
      (key request_fingerprint : String)
      → Keeps
          (Holds Q)
          (record_status_transition actor previous updated event key request_fingerprint)
  unfolding record_status_transition
  record_status_transition-Holds actor previous updated event key request_fingerprint =
      >>-Keeps (create_event-Holds Q _) (modify-Keeps _ (λ s h. h))

  pub earn_commission-Holds :
      (t i new_id : String) (event : StatusEvent)
      → Keeps (Holds Q) (earn_commission t i new_id event)
  unfolding earn_commission
  earn_commission-Holds t i new_id to_started = record { on = λ s h. h }
  earn_commission-Holds t i new_id (to_completed text) = record { on = λ s h. h }
  earn_commission-Holds t i new_id (to_no_show reason text) = record { on = λ s h. h }

any-find :
    (p : Appointment → Bool) (xs : List Appointment)
    → any p xs ≡ true
    → (a : Appointment) × (find p xs ≡ some a)
any-find p [] h = cc
any-find p (x ∷ xs) h = elim (Bool-cases (p x)) [
  | inl hit ↦ (x, rw hit refl)
  | inr miss ↦ let (a, found) = any-find p xs (rw miss at h) in (a, rw miss found)
]

has_status-about :
    (t i : String) (status : AppointmentStatus) (x : Appointment)
    → has_status t i status x ≡ true
    → is_appointment t i x ≡ true
has_status-about t i status x h = ground arith

module _ (before : AppointmentStore) (t i : String) where
  -- The locks after the event.
  abbrev pub AreReleased : StatusEvent → List IntervalLock → Type 0
  AreReleased to_started locks = locks ≡ before.locks
  AreReleased (to_completed _) locks = locks ≡ keep (λ l. not (is_owned t i l)) before.locks
  AreReleased (to_no_show _ _) locks = locks ≡ keep (λ l. not (is_owned t i l)) before.locks

  abbrev pub Written :
      AppointmentStatus
      → Appointment
      → (List IntervalLock → Type 0)
      → List Appointment
      → List IntervalLock
      → Type 0
  Written status u L appointments locks =
      (any (has_status t i status) before.appointments ≡ true)
      × (appointments ≡ update_first (has_status t i status) (λ _. u) before.appointments)
      × L locks

  pub release_locks-Leads :
      (status : AppointmentStatus) (u : Appointment) (event : StatusEvent)
      → Leads
          (Holds (Written status u (λ locks. locks ≡ before.locks)))
          (release_locks t i event)
          (λ done. Holds (Written status u (AreReleased event)))
  unfolding release_locks release
  release_locks-Leads status u to_started = record { on = λ s h done e. h }
  release_locks-Leads status u (to_completed text) = record {
    on = λ s (there, written, locks) done e. (there, written, rw locks refl);
  }
  release_locks-Leads status u (to_no_show reason text) = record {
    on = λ s (there, written, locks) done e. (there, written, rw locks refl);
  }

  pub event-Refines :
      (diary : IsDiary before) (event : StatusEvent) (now : ℕ) (a u : Appointment)
      (s : AppointmentStore)
      → find (is_appointment t i) before.appointments ≡ some a
      → update_of event now a ≡ ok u
      → Holds (Written a.status u (AreReleased event)) s
      → Refines before s
  event-Refines diary event now a u s found accepted (there, written, locks) =
      let (b, matched) = any-find (has_status t i a.status) before.appointments there in
      let holds = find-holds (has_status t i a.status) before.appointments matched in
      let here = find-holds (is_appointment t i) before.appointments found in
      let b_id : b.id ≡ i = (eq_iff b.id i).0 (ground arith) in
      let a_id : i ≡ a.id = sym ((eq_iff a.id i).0 (ground arith)) in
      let same =
        found-same (has_status t i a.status) (is_appointment t i) b a diary.distinct matched found
          (b_id ∙ a_id) in
      let here_a = matched ∙ ap some same in
      let identity = (update_of-identity event now a u accepted).0 in
      go event here_a identity (update_of-Stays event now a u accepted) locks
    where
      go :
          (ev : StatusEvent)
          → find (has_status t i a.status) before.appointments ≡ some a
          → u.id ≡ a.id
          → Stays ev a u
          → AreReleased ev s.locks
          → Refines before s
      go to_started here identity (status, slot) released =
          same-Refines before s (has_status t i a.status) t i a u (has_status-about t i a.status)
            diary here identity written status slot released
      go (to_completed text) here identity over released =
          freed-Refines before s (has_status t i a.status) t i a u (has_status-about t i a.status)
            diary here identity written over released
      go (to_no_show reason text) here identity over released =
          freed-Refines before s (has_status t i a.status) t i a u (has_status-about t i a.status)
            diary here identity written over released
