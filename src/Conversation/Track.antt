-- ===== src/Conversation/Track.antt =====
-- What the context holds in each state of the machine (src/conversations/conversation-state-machine.ts).
use panalbee_clock_backend.Base.{
  String, Bool, false, ◌||◌, List, [], ◌∷◌, ◌++◌, map, any, ◌≡◌, refl, Bool-cases, inl, inr,
}
use panalbee_clock_backend.Conversation.Model.{
  ConversationState, main_menu, booking_service, booking_professional, booking_date, booking_time,
  booking_customer_data, booking_confirmation, reschedule_select_appointment, reschedule_date,
  reschedule_time, cancel_select_appointment, cancel_confirmation, human_handoff,
  ConversationContext, NormalizedInput, is_blank,
}
use panalbee_clock_backend.Conversation.Machine.{
  input_value, is_one_of, main_menu_step, booking_confirmation_step, cancel_confirmation_step,
  reschedule_time_step, state_step, transition_conversation, booking_fields,
}

-- What a customer has said so far, the last first, each with the state of the machine that it was said
-- in.
abbrev pub Trail : Type 0
Trail = List (ConversationState × NormalizedInput)

-- The words that a confirmation takes up.
abbrev pub settles_booking : NormalizedInput → Bool
settles_booking input =
    is_one_of ("modify" ∷ "change" ∷ "back" ∷ []) input
    || is_one_of ("menu" ∷ "stop" ∷ "abort" ∷ []) input
    || is_one_of ("confirm" ∷ "yes" ∷ "book_now" ∷ []) input

abbrev pub settles_cancel : NormalizedInput → Bool
settles_cancel input =
    is_one_of ("no" ∷ "back" ∷ "menu" ∷ []) input
    || is_one_of ("confirm" ∷ "yes" ∷ "cancel_now" ∷ []) input

-- What was said in one state, all of it.
abbrev pub all_in : ConversationState → List NormalizedInput → Trail
all_in state inputs = map (λ input. (state, input)) inputs

-- A context that has the answers of its state: each is what the customer said last in the state that
-- asks for it, and nothing was said since but what a confirmation does not take up.
pub data IsOnTrack : ConversationState → ConversationContext → Trail → Type 0 where
  at_main_menu : (trail : Trail) → IsOnTrack main_menu [] trail
  at_handoff : (trail : Trail) → IsOnTrack human_handoff [] trail
  at_service : (trail : Trail) → IsOnTrack booking_service [] trail
  at_professional :
      (service : NormalizedInput) (trail : Trail)
      → IsOnTrack booking_professional
          (("serviceId", input_value service) ∷ [])
          ((booking_service, service) ∷ trail)
  at_date :
      (service professional : NormalizedInput) (trail : Trail)
      → IsOnTrack booking_date
          (("serviceId", input_value service) ∷ ("professionalId", input_value professional) ∷ [])
          ((booking_professional, professional) ∷ (booking_service, service) ∷ trail)
  at_time :
      (service professional date : NormalizedInput) (trail : Trail)
      → IsOnTrack booking_time
          (("serviceId", input_value service)
            ∷ ("professionalId", input_value professional)
            ∷ ("date", input_value date)
            ∷ [])
          ((booking_date, date)
            ∷ (booking_professional, professional)
            ∷ (booking_service, service)
            ∷ trail)
  at_customer_data :
      (service professional date time : NormalizedInput) (trail : Trail)
      → IsOnTrack booking_customer_data
          (("serviceId", input_value service)
            ∷ ("professionalId", input_value professional)
            ∷ ("date", input_value date)
            ∷ ("time", input_value time)
            ∷ [])
          ((booking_time, time)
            ∷ (booking_date, date)
            ∷ (booking_professional, professional)
            ∷ (booking_service, service)
            ∷ trail)
  at_confirmation :
      (service professional date time customer : NormalizedInput) (later : List NormalizedInput)
      (trail : Trail)
      → any settles_booking later ≡ false
      → IsOnTrack booking_confirmation
          (("serviceId", input_value service)
            ∷ ("professionalId", input_value professional)
            ∷ ("date", input_value date)
            ∷ ("time", input_value time)
            ∷ ("customerData", input_value customer)
            ∷ [])
          (all_in booking_confirmation later
            ++ (booking_customer_data, customer)
              ∷ (booking_time, time)
              ∷ (booking_date, date)
              ∷ (booking_professional, professional)
              ∷ (booking_service, service)
              ∷ trail)
  at_reschedule : (trail : Trail) → IsOnTrack reschedule_select_appointment [] trail
  at_new_date :
      (appointment : NormalizedInput) (trail : Trail)
      → IsOnTrack reschedule_date
          (("appointmentId", input_value appointment) ∷ [])
          ((reschedule_select_appointment, appointment) ∷ trail)
  at_new_time :
      (appointment date : NormalizedInput) (trail : Trail)
      → IsOnTrack reschedule_time
          (("appointmentId", input_value appointment) ∷ ("date", input_value date) ∷ [])
          ((reschedule_date, date) ∷ (reschedule_select_appointment, appointment) ∷ trail)
  at_cancel : (trail : Trail) → IsOnTrack cancel_select_appointment [] trail
  at_cancel_confirmation :
      (appointment : NormalizedInput) (later : List NormalizedInput) (trail : Trail)
      → any settles_cancel later ≡ false
      → IsOnTrack cancel_confirmation
          (("appointmentId", input_value appointment) ∷ [])
          (all_in cancel_confirmation later ++ (cancel_select_appointment, appointment) ∷ trail)

main_menu_step-IsOnTrack :
    (input : NormalizedInput) (trail : Trail)
    → IsOnTrack (main_menu_step input).state (main_menu_step input).context trail
unfolding main_menu_step
main_menu_step-IsOnTrack input trail =
    elim (Bool-cases (is_one_of ("book" ∷ "booking" ∷ "book_appointment" ∷ "1" ∷ []) input)) [
      | inl books ↦ rw books (at_service trail)
      | inr n1 ↦
          elim (Bool-cases (is_one_of ("reschedule" ∷ "reschedule_appointment" ∷ "2" ∷ []) input)) [
            | inl moves ↦ rw (n1, moves) (at_reschedule trail)
            | inr n2 ↦
                elim (Bool-cases (is_one_of ("cancel" ∷ "cancel_appointment" ∷ "3" ∷ []) input)) [
                  | inl cancels ↦ rw (n1, n2, cancels) (at_cancel trail)
                  | inr n3 ↦
                      elim (Bool-cases
                        (is_one_of ("human" ∷ "handoff" ∷ "advisor" ∷ "4" ∷ []) input)) [
                          | inl asks ↦ rw (n1, n2, n3, asks) (at_handoff trail)
                          | inr n4 ↦ rw (n1, n2, n3, n4) (at_main_menu trail)
                        ]
                ]
          ]
    ]

-- A confirmation: it starts the questions again, leaves, keeps all, or issues the command and leaves.
booking_confirmation_step-IsOnTrack :
    (input : NormalizedInput) (context : ConversationContext) (trail : Trail)
    → (settles_booking input ≡ false → IsOnTrack booking_confirmation context trail)
    → let r = booking_confirmation_step input context in IsOnTrack r.state r.context trail
unfolding booking_confirmation_step
booking_confirmation_step-IsOnTrack input context trail stays =
    elim (Bool-cases (is_one_of ("modify" ∷ "change" ∷ "back" ∷ []) input)) [
      | inl changes ↦ rw changes (at_service trail)
      | inr n1 ↦ elim (Bool-cases (is_one_of ("menu" ∷ "stop" ∷ "abort" ∷ []) input)) [
        | inl leaves ↦ rw (n1, leaves) (at_main_menu trail)
        | inr n2 ↦ elim (Bool-cases (is_one_of ("confirm" ∷ "yes" ∷ "book_now" ∷ []) input)) [
          | inr n3 ↦ rw (n1, n2, n3) (stays (rw (n1, n2, n3) refl))
          | inl confirms ↦
              elim (Bool-cases (any (λ field. is_blank field context) booking_fields)) [
                | inl expired ↦ rw (n1, n2, confirms, expired) (at_service trail)
                | inr given ↦ rw (n1, n2, confirms, given) (at_main_menu trail)
              ]
        ]
      ]
    ]

cancel_confirmation_step-IsOnTrack :
    (input : NormalizedInput) (context : ConversationContext) (trail : Trail)
    → (settles_cancel input ≡ false → IsOnTrack cancel_confirmation context trail)
    → let r = cancel_confirmation_step input context in IsOnTrack r.state r.context trail
unfolding cancel_confirmation_step
cancel_confirmation_step-IsOnTrack input context trail stays =
    elim (Bool-cases (is_one_of ("no" ∷ "back" ∷ "menu" ∷ []) input)) [
      | inl leaves ↦ rw leaves (at_main_menu trail)
      | inr n1 ↦ elim (Bool-cases (is_one_of ("confirm" ∷ "yes" ∷ "cancel_now" ∷ []) input)) [
        | inr n2 ↦ rw (n1, n2) (stays (rw (n1, n2) refl))
        | inl confirms ↦ elim (Bool-cases (is_blank "appointmentId" context)) [
          | inl expired ↦ rw (n1, confirms, expired) (at_cancel trail)
          | inr given ↦ rw (n1, confirms, given) (at_main_menu trail)
        ]
      ]
    ]

reschedule_time_step-IsOnTrack :
    (value : String) (context : ConversationContext) (trail : Trail)
    → let r = reschedule_time_step value context in IsOnTrack r.state r.context trail
unfolding reschedule_time_step
reschedule_time_step-IsOnTrack value context trail =
    elim (Bool-cases (is_blank "appointmentId" context || is_blank "date" context)) [
      | inl expired ↦ rw expired (at_reschedule trail)
      | inr given ↦ rw given (at_main_menu trail)
    ]

state_step-IsOnTrack :
    {state : ConversationState} {context : ConversationContext} {trail : Trail}
    (input : NormalizedInput)
    → IsOnTrack state context trail
    → let r = state_step state context input in IsOnTrack r.state r.context ((state, input) ∷ trail)
unfolding state_step
state_step-IsOnTrack input (at_main_menu trail) =
    main_menu_step-IsOnTrack input ((main_menu, input) ∷ trail)
state_step-IsOnTrack input (at_handoff trail) = at_handoff ((human_handoff, input) ∷ trail)
state_step-IsOnTrack input (at_service trail) = at_professional input trail
state_step-IsOnTrack input (at_professional service trail) = at_date service input trail
state_step-IsOnTrack input (at_date service professional trail) =
    at_time service professional input trail
state_step-IsOnTrack input (at_time service professional date trail) =
    at_customer_data service professional date input trail
state_step-IsOnTrack input (at_customer_data service professional date time trail) =
    at_confirmation service professional date time input [] trail refl
state_step-IsOnTrack input (at_confirmation service professional date time customer later trail h) =
    booking_confirmation_step-IsOnTrack input _ _ (λ kept.
      at_confirmation service professional date time customer (input ∷ later) trail
        (rw (kept, h) refl))
state_step-IsOnTrack input (at_reschedule trail) = at_new_date input trail
state_step-IsOnTrack input (at_new_date appointment trail) = at_new_time appointment input trail
state_step-IsOnTrack input (at_new_time appointment date trail) =
    reschedule_time_step-IsOnTrack (input_value input)
      (("appointmentId", input_value appointment) ∷ ("date", input_value date) ∷ []) _
state_step-IsOnTrack input (at_cancel trail) = at_cancel_confirmation input [] trail refl
state_step-IsOnTrack input (at_cancel_confirmation appointment later trail h) =
    cancel_confirmation_step-IsOnTrack input _ _
      (λ kept. at_cancel_confirmation appointment (input ∷ later) trail (rw (kept, h) refl))

transition-IsOnTrack :
    {state : ConversationState} {context : ConversationContext} {trail : Trail}
    (input : NormalizedInput)
    → IsOnTrack state context trail
    → let r = transition_conversation state context input in
      IsOnTrack r.state r.context ((state, input) ∷ trail)
unfolding transition_conversation
transition-IsOnTrack {state} {context} {trail} input h =
    elim (Bool-cases (is_one_of ("main_menu" ∷ []) input)) [
      | inl menu ↦ rw menu (at_main_menu ((state, input) ∷ trail))
      | inr other ↦ rw other (state_step-IsOnTrack input h)
    ]

-- The states and contexts that a conversation reaches, with what was said on the way.
pub data Reaches : ConversationState → ConversationContext → Trail → Type 0 where
  started : Reaches main_menu [] []
  stepped :
      {state : ConversationState} {context : ConversationContext} {trail : Trail}
      → Reaches state context trail
      → (input : NormalizedInput)
      → Reaches
          (transition_conversation state context input).state
          (transition_conversation state context input).context
          ((state, input) ∷ trail)

-- In every state that a conversation reaches from the start, its context has exactly the answers that
-- lead to that state, in the order of the questions: each is the trimmed text that the customer gave in
-- the state that asks for it, the questions were answered one directly after the other, and since the
-- last answer nothing was said but, in a confirmation, what it does not take up.
pub Reaches-IsOnTrack :
    {state : ConversationState} {context : ConversationContext} {trail : Trail}
    → Reaches state context trail
    → IsOnTrack state context trail
Reaches-IsOnTrack started = at_main_menu []
Reaches-IsOnTrack (stepped reached input) = transition-IsOnTrack input (Reaches-IsOnTrack reached)
