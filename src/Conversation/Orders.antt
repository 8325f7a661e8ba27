-- ===== src/Conversation/Orders.antt =====
-- The commands that a conversation issues (src/conversations/conversation-state-machine.ts).
use panalbee_clock_backend.Base.{
  String, true, false, List, [], ◌∷◌, ◌++◌, any, none, some, ◌≡◌, ◌==◌, Bool-cases, inl, inr, arith,
}
use panalbee_clock_backend.Conversation.Model.{
  ConversationState, booking_service, booking_professional, booking_date, booking_time,
  booking_customer_data, booking_confirmation, reschedule_select_appointment, reschedule_date,
  cancel_select_appointment, cancel_confirmation, ConversationContext, ConversationCommand,
  create_booking, reschedule_booking, cancel_booking, NormalizedInput,
}
use panalbee_clock_backend.Conversation.Machine.{
  input_value, is_one_of, main_menu_step, booking_confirmation_step, cancel_confirmation_step,
  reschedule_time_step, state_step, transition_conversation,
}
use panalbee_clock_backend.Conversation.Track.{
  Trail, settles_booking, settles_cancel, all_in, IsOnTrack, at_main_menu, at_handoff, at_service,
  at_professional, at_date, at_time, at_customer_data, at_confirmation, at_reschedule, at_new_date,
  at_new_time, at_cancel, at_cancel_confirmation, Reaches, Reaches-IsOnTrack,
}

-- After what was said so far, the input completes the command: its fields are what the customer said
-- in the states that ask for them.
pub data IsComplete : Trail → NormalizedInput → ConversationCommand → Type 0 where
  books :
      {input : NormalizedInput} (service professional date time customer : NormalizedInput)
      (later : List NormalizedInput) (trail : Trail)
      → any settles_booking later ≡ false
      → is_one_of ("confirm" ∷ "yes" ∷ "book_now" ∷ []) input ≡ true
      → (input_value service == "") ≡ false
      → (input_value professional == "") ≡ false
      → (input_value date == "") ≡ false
      → (input_value time == "") ≡ false
      → (input_value customer == "") ≡ false
      → IsComplete
          (all_in booking_confirmation later
            ++ (booking_customer_data, customer)
              ∷ (booking_time, time)
              ∷ (booking_date, date)
              ∷ (booking_professional, professional)
              ∷ (booking_service, service)
              ∷ trail)
          input
          (create_booking
            (input_value service)
            (input_value professional)
            (input_value date)
            (input_value time)
            (input_value customer))
  reschedules :
      {input : NormalizedInput} (appointment date : NormalizedInput) (trail : Trail)
      → (input_value appointment == "") ≡ false
      → (input_value date == "") ≡ false
      → IsComplete
          ((reschedule_date, date) ∷ (reschedule_select_appointment, appointment) ∷ trail)
          input
          (reschedule_booking (input_value appointment) (input_value date) (input_value input))
  cancels :
      {input : NormalizedInput} (appointment : NormalizedInput) (later : List NormalizedInput)
      (trail : Trail)
      → any settles_cancel later ≡ false
      → is_one_of ("confirm" ∷ "yes" ∷ "cancel_now" ∷ []) input ≡ true
      → (input_value appointment == "") ≡ false
      → IsComplete
          (all_in cancel_confirmation later ++ (cancel_select_appointment, appointment) ∷ trail)
          input
          (cancel_booking (input_value appointment))

main_menu_step-silent : (input : NormalizedInput) → (main_menu_step input).command ≡ none
unfolding main_menu_step
main_menu_step-silent input = ground arith

booking_confirmation_step_ok :
    (input : NormalizedInput) (service professional date time customer : String)
    → {c : ConversationCommand}
    → (booking_confirmation_step input (
        ("serviceId", service)
        ∷ ("professionalId", professional)
        ∷ ("date", date)
        ∷ ("time", time)
        ∷ ("customerData", customer)
        ∷ [])).command
      ≡ some c
    → (is_one_of ("confirm" ∷ "yes" ∷ "book_now" ∷ []) input ≡ true)
      × ((service == "") ≡ false)
      × ((professional == "") ≡ false)
      × ((date == "") ≡ false)
      × ((time == "") ≡ false)
      × ((customer == "") ≡ false)
      × (create_booking service professional date time customer ≡ c)
unfolding booking_confirmation_step
booking_confirmation_step_ok input service professional date time customer issued = ground arith

reschedule_time_step_ok :
    (value appointment date : String) {c : ConversationCommand}
    → (reschedule_time_step value (("appointmentId", appointment) ∷ ("date", date) ∷ [])).command
      ≡ some c
    → ((appointment == "") ≡ false)
      × ((date == "") ≡ false)
      × (reschedule_booking appointment date value ≡ c)
unfolding reschedule_time_step
reschedule_time_step_ok value appointment date issued = ground arith

cancel_confirmation_step_ok :
    (input : NormalizedInput) (appointment : String) {c : ConversationCommand}
    → (cancel_confirmation_step input (("appointmentId", appointment) ∷ [])).command ≡ some c
    → (is_one_of ("confirm" ∷ "yes" ∷ "cancel_now" ∷ []) input ≡ true)
      × ((appointment == "") ≡ false)
      × (cancel_booking appointment ≡ c)
unfolding cancel_confirmation_step
cancel_confirmation_step_ok input appointment issued = ground arith

state_step-IsComplete :
    {state : ConversationState} {context : ConversationContext} {trail : Trail}
    (input : NormalizedInput) {c : ConversationCommand}
    → IsOnTrack state context trail
    → (state_step state context input).command ≡ some c
    → IsComplete trail input c
unfolding state_step
state_step-IsComplete input (at_main_menu trail) issued =
    let silent = main_menu_step-silent input in cc
state_step-IsComplete input (at_confirmation service professional date time customer later trail h)
      issued =
    let (confirmed, s, p, d, t, u, same) =
      booking_confirmation_step_ok input (input_value service) (input_value professional)
        (input_value date) (input_value time) (input_value customer) issued in
    rw (← same) (books service professional date time customer later trail h confirmed s p d t u)
state_step-IsComplete input (at_new_time appointment date trail) issued =
    let (a, d, same) =
      reschedule_time_step_ok (input_value input) (input_value appointment) (input_value date)
        issued in
    rw (← same) (reschedules appointment date trail a d)
state_step-IsComplete input (at_cancel_confirmation appointment later trail h) issued =
    let (confirmed, a, same) = cancel_confirmation_step_ok input (input_value appointment) issued in
    rw (← same) (cancels appointment later trail h confirmed a)
state_step-IsComplete input (at_handoff trail) issued = cc
state_step-IsComplete input (at_service trail) issued = cc
state_step-IsComplete input (at_professional service trail) issued = cc
state_step-IsComplete input (at_date service professional trail) issued = cc
state_step-IsComplete input (at_time service professional date trail) issued = cc
state_step-IsComplete input (at_customer_data service professional date time trail) issued = cc
state_step-IsComplete input (at_reschedule trail) issued = cc
state_step-IsComplete input (at_new_date appointment trail) issued = cc
state_step-IsComplete input (at_cancel trail) issued = cc

-- A command that a conversation issues is complete: it comes from a confirmation, or from the time of a
-- reschedule; each of its fields is the trimmed text that the customer gave in the state that asks for
-- it, in the last run through the questions, and none of them is empty but that time.
pub command-IsComplete :
    {state : ConversationState} {context : ConversationContext} {trail : Trail}
    (input : NormalizedInput) {c : ConversationCommand}
    → Reaches state context trail
    → (transition_conversation state context input).command ≡ some c
    → IsComplete trail input c
unfolding transition_conversation
command-IsComplete input reached issued = elim (Bool-cases (is_one_of ("main_menu" ∷ []) input)) [
  | inl menu ↦ cc (rw menu at issued)
  | inr other ↦ state_step-IsComplete input (Reaches-IsOnTrack reached) (rw other at issued)
]
