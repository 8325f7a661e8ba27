-- ===== src/Conversation/Model.antt =====
-- The data of a conversation (src/conversations/conversation.types.ts, src/channels/channel-adapter.ts).
use panalbee_clock_backend.Base.{String, Bool, List, [], ◌∷◌, Option, ◌==◌, if◌then◌else◌}

pub data ConversationState : Type 0 where
  main_menu booking_service booking_professional booking_date booking_time booking_customer_data
        booking_confirmation reschedule_select_appointment reschedule_date reschedule_time
        cancel_select_appointment cancel_confirmation human_handoff :
      ConversationState

-- The text that stands for a state in the database, by which `!==` tells states apart.
abbrev pub state_name : ConversationState → String
state_name main_menu = "MAIN_MENU"
state_name booking_service = "BOOKING_SERVICE"
state_name booking_professional = "BOOKING_PROFESSIONAL"
state_name booking_date = "BOOKING_DATE"
state_name booking_time = "BOOKING_TIME"
state_name booking_customer_data = "BOOKING_CUSTOMER_DATA"
state_name booking_confirmation = "BOOKING_CONFIRMATION"
state_name reschedule_select_appointment = "RESCHEDULE_SELECT_APPOINTMENT"
state_name reschedule_date = "RESCHEDULE_DATE"
state_name reschedule_time = "RESCHEDULE_TIME"
state_name cancel_select_appointment = "CANCEL_SELECT_APPOINTMENT"
state_name cancel_confirmation = "CANCEL_CONFIRMATION"
state_name human_handoff = "HUMAN_HANDOFF"

pub data ConversationControl : Type 0 where
  bot human : ConversationControl

-- The keys and values of an object, in the order in which the keys were added.
abbrev pub ConversationContext : Type 0
ConversationContext = List (String × String)

pub data ConversationCommand : Type 0 where
  create_booking : String → String → String → String → String → ConversationCommand
  reschedule_booking : String → String → String → ConversationCommand
  cancel_booking : String → ConversationCommand

-- The selection's title is not read.
pub data NormalizedInput : Type 0 where
  text_input : String → NormalizedInput
  selection : String → NormalizedInput

-- The kinds of reply that the machine gives; an option is its id and its title.
pub data ReplyIntent : Type 0 where
  text_reply : String → ReplyIntent
  interactive : String → List (String × String) → ReplyIntent

pub record TransitionResult : Type 0 where
  pub state : ConversationState
  pub context : ConversationContext
  pub replies : List ReplyIntent
  pub command : Option ConversationCommand

-- `{ ...context, [key]: value }`
abbrev pub set_key : String → String → ConversationContext → ConversationContext
set_key key value [] = (key, value) ∷ []
set_key key value ((k, v) ∷ rest) =
    let added = set_key key value rest in if k == key then (key, value) ∷ rest else (k, v) ∷ added

-- `context[field]`, where a missing key reads as the empty text: both are false to `!`.
abbrev pub field_of : String → ConversationContext → String
field_of key [] = ""
field_of key ((k, v) ∷ rest) = if k == key then v else field_of key rest

-- `!context[field]`
abbrev pub is_blank : String → ConversationContext → Bool
is_blank key context = field_of key context == ""
