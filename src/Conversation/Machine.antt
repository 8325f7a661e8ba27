-- ===== src/Conversation/Machine.antt =====
-- The conversation's state machine (src/conversations/conversation-state-machine.ts).
use panalbee_clock_backend.Base.{
  ℕ, String, Bool, true, false, ◌&&◌, ◌||◌, not, List, [], ◌∷◌, map, none, some, any, beq,
  if◌then◌else◌,
}
use panalbee_clock_backend.Base.Text.{trim, is_space, codes, to_lower}
use panalbee_clock_backend.Conversation.Model.{
  ConversationState, main_menu, booking_service, booking_professional, booking_date, booking_time,
  booking_customer_data, booking_confirmation, reschedule_select_appointment, reschedule_date,
  reschedule_time, cancel_select_appointment, cancel_confirmation, human_handoff,
  ConversationContext, ConversationCommand, create_booking, reschedule_booking, cancel_booking,
  NormalizedInput, text_input, selection, ReplyIntent, text_reply, interactive, TransitionResult,
  set_key, field_of, is_blank,
}

abbrev main_menu_reply : List ReplyIntent
main_menu_reply =
    interactive "How can we help?" (
      ("book", "Book appointment")
      ∷ ("reschedule", "Reschedule")
      ∷ ("cancel", "Cancel appointment")
      ∷ ("human", "Talk to an advisor")
      ∷ [])
    ∷ []

abbrev says : String → List ReplyIntent
says text = text_reply text ∷ []

unfoldable pub input_value : NormalizedInput → String
input_value (text_input text) = trim text
input_value (selection selection_id) = trim selection_id

-- `[\s.-]`
abbrev is_separator : ℕ → Bool
is_separator c = is_space c || beq c b'.' || beq c b'-'

-- `replace(/[\s.-]+/g, '_')`: the first character of a run becomes the underscore, the others go.
abbrev replace_separators : Bool → List ℕ → List ℕ
replace_separators in_run [] = []
replace_separators in_run (c ∷ cs) =
    let rest = replace_separators (is_separator c) cs in
    if is_separator c then (if in_run then rest else b'_' ∷ rest) else c ∷ rest

unfoldable pub command_key : NormalizedInput → List ℕ
unfolding input_value
command_key input = replace_separators false (map to_lower (codes (input_value input)))

abbrev pub same_codes : List ℕ → List ℕ → Bool
same_codes [] [] = true
same_codes [] (_ ∷ _) = false
same_codes (_ ∷ _) [] = false
same_codes (x ∷ xs) (y ∷ ys) = beq x y && same_codes xs ys

-- `words.includes(commandKey(input))`
unfoldable pub is_one_of : List String → NormalizedInput → Bool
unfolding command_key
is_one_of words input = any (λ w. same_codes (codes w) (command_key input)) words

abbrev pub answer : ConversationState → ConversationContext → List ReplyIntent → TransitionResult
answer state context replies = record {
  state = state;
  context = context;
  replies = replies;
  command = none;
}

abbrev issue : String → ConversationCommand → TransitionResult
issue text command = record {
  state = main_menu;
  context = [];
  replies = says text;
  command = some command;
}

abbrev advance :
    ConversationState → ConversationContext → String → String → String → TransitionResult
advance state context key value next_prompt =
    answer state (set_key key value context) (says next_prompt)

unfoldable pub main_menu_step : NormalizedInput → TransitionResult
main_menu_step input =
    if is_one_of ("book" ∷ "booking" ∷ "book_appointment" ∷ "1" ∷ []) input
    then answer booking_service [] (says "Choose a service.")
    else if is_one_of ("reschedule" ∷ "reschedule_appointment" ∷ "2" ∷ []) input
    then answer reschedule_select_appointment [] (says "Choose the appointment to reschedule.")
    else if is_one_of ("cancel" ∷ "cancel_appointment" ∷ "3" ∷ []) input
    then answer cancel_select_appointment [] (says "Choose the appointment to cancel.")
    else if is_one_of ("human" ∷ "handoff" ∷ "advisor" ∷ "4" ∷ []) input
    then answer human_handoff [] (says "A team member will join shortly.")
    else answer main_menu [] main_menu_reply

abbrev pub booking_fields : List String
booking_fields = ("serviceId" ∷ "professionalId" ∷ "date" ∷ "time" ∷ "customerData" ∷ [])

unfoldable pub booking_confirmation_step : NormalizedInput → ConversationContext → TransitionResult
booking_confirmation_step input context =
    if is_one_of ("modify" ∷ "change" ∷ "back" ∷ []) input
    then answer booking_service [] (says "Choose a service.")
    else if is_one_of ("menu" ∷ "stop" ∷ "abort" ∷ []) input
    then answer main_menu [] main_menu_reply
    else if not (is_one_of ("confirm" ∷ "yes" ∷ "book_now" ∷ []) input)
    then answer booking_confirmation context (says "Reply confirm, modify, or menu.")
    else if any (λ field. is_blank field context) booking_fields
    then answer booking_service [] (says "Booking details expired. Choose a service.")
    else issue "Your booking request was received." (
        create_booking (field_of "serviceId" context) (field_of "professionalId" context)
          (field_of "date" context) (field_of "time" context) (field_of "customerData" context))

unfoldable pub cancel_confirmation_step : NormalizedInput → ConversationContext → TransitionResult
cancel_confirmation_step input context =
    if is_one_of ("no" ∷ "back" ∷ "menu" ∷ []) input
    then answer main_menu [] main_menu_reply
    else if not (is_one_of ("confirm" ∷ "yes" ∷ "cancel_now" ∷ []) input)
    then answer cancel_confirmation context (says "Reply confirm or menu.")
    else if is_blank "appointmentId" context
    then answer cancel_select_appointment [] (says "Choose the appointment to cancel.")
    else issue "Your cancellation request was received."
        (cancel_booking (field_of "appointmentId" context))

-- The case RESCHEDULE_TIME.
unfoldable pub reschedule_time_step : String → ConversationContext → TransitionResult
reschedule_time_step value context =
    if is_blank "appointmentId" context || is_blank "date" context
    then answer reschedule_select_appointment [] (says "Choose the appointment to reschedule.")
    else issue "Your reschedule request was received."
        (reschedule_booking (field_of "appointmentId" context) (field_of "date" context) value)

-- The `switch` of `transitionConversation`.
unfoldable pub state_step :
    ConversationState → ConversationContext → NormalizedInput → TransitionResult
unfolding main_menu_step booking_confirmation_step cancel_confirmation_step reschedule_time_step
state_step main_menu context input = main_menu_step input
state_step booking_service context input =
    advance booking_professional context "serviceId" (input_value input) "Choose a professional."
state_step booking_professional context input =
    advance booking_date context "professionalId" (input_value input) "Choose a date."
state_step booking_date context input =
    advance booking_time context "date" (input_value input) "Choose a time."
state_step booking_time context input =
    advance booking_customer_data context "time" (input_value input) "Provide the customer details."
state_step booking_customer_data context input =
    advance booking_confirmation context "customerData" (input_value input)
      "Reply confirm to create the booking, or modify."
state_step booking_confirmation context input = booking_confirmation_step input context
state_step reschedule_select_appointment context input =
    advance reschedule_date context "appointmentId" (input_value input) "Choose a new date."
state_step reschedule_date context input =
    advance reschedule_time context "date" (input_value input) "Choose a new time."
state_step reschedule_time context input = reschedule_time_step (input_value input) context
state_step cancel_select_appointment context input =
    advance cancel_confirmation context "appointmentId" (input_value input)
      "Reply confirm to cancel this appointment."
state_step cancel_confirmation context input = cancel_confirmation_step input context
state_step human_handoff context input = answer human_handoff context []

unfoldable pub transition_conversation :
    ConversationState → ConversationContext → NormalizedInput → TransitionResult
unfolding state_step
transition_conversation state context input =
    if is_one_of ("main_menu" ∷ []) input
    then answer main_menu [] main_menu_reply
    else state_step state context input
