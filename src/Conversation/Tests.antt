-- ===== src/Conversation/Tests.antt =====
-- Dialogues and handoffs on concrete inputs.
use panalbee_clock_backend.Base.{
  ℕ, String, Bool, true, false, List, [], ◌∷◌, Option, none, some, ◌≡◌, refl, ok, Action,
}
use panalbee_clock_backend.Conversation.Model.{
  text_reply, main_menu, cancel_select_appointment, cancel_confirmation, human, human_handoff,
  create_booking, cancel_booking, NormalizedInput, text_input,
}
use panalbee_clock_backend.Conversation.Machine.{transition_conversation}
use panalbee_clock_backend.Conversation.Track.{
  Trail, IsOnTrack, Reaches, started, stepped, Reaches-IsOnTrack,
}
use panalbee_clock_backend.Conversation.Orders.{IsComplete, command-IsComplete}
use panalbee_clock_backend.Conversation.Flow.{converse, IsAnswer, booking_dialogue}
use panalbee_clock_backend.Conversation.Store.{outbound, Channel, Conversation, ConversationStore}
use panalbee_clock_backend.Conversation.Engine.{
  InboundProcessingResult, NormalizedInboundEvent, NewIds,
}
use panalbee_clock_backend.Conversation.Inbound.{
  CommandHandler, process_inbound, processed, duplicate_result,
}
use panalbee_clock_backend.Conversation.Once.Twice.{inbound_twice}
use panalbee_clock_backend.Conversation.Waiting.{received, waiting_inbound}
use panalbee_clock_backend.Conversation.Control.{IsControlled}
use panalbee_clock_backend.Conversation.Control.Histories.{
  claim_call, ConversationCall, inbound_call, handoff_call, run_calls, run_calls-IsControlled,
}

abbrev say : String → NormalizedInput
say text = text_input text

-- The dialogue that cancels appointment A-7, up to its confirmation, which is not understood once.
abbrev said : Trail
said =
    (cancel_confirmation, say "hm?")
    ∷ (cancel_select_appointment, say " A-7 ")
    ∷ (main_menu, say "3")
    ∷ []

reached_confirmation : Reaches cancel_confirmation (("appointmentId", "A-7") ∷ []) said
unfolding transition_conversation panalbee_clock_backend.Base.Text.trim
    panalbee_clock_backend.Base.Text.codes panalbee_clock_backend.Conversation.Machine.is_one_of
reached_confirmation = stepped (stepped (stepped started (say "3")) (say " A-7 ")) (say "hm?")

Reaches-IsOnTrack_example : IsOnTrack cancel_confirmation (("appointmentId", "A-7") ∷ []) said
Reaches-IsOnTrack_example = Reaches-IsOnTrack reached_confirmation

issued :
    (transition_conversation cancel_confirmation
      (("appointmentId", "A-7") ∷ [])
      (say "Cancel now")).command
    ≡ some (cancel_booking "A-7")
unfolding transition_conversation panalbee_clock_backend.Base.Text.trim
    panalbee_clock_backend.Base.Text.codes panalbee_clock_backend.Conversation.Machine.is_one_of
issued = refl

command-IsComplete_example : IsComplete said (say "Cancel now") (cancel_booking "A-7")
command-IsComplete_example = command-IsComplete (say "Cancel now") reached_confirmation issued

service_answers : IsAnswer (say "S1")
unfolding panalbee_clock_backend.Base.Text.trim panalbee_clock_backend.Base.Text.codes
    panalbee_clock_backend.Conversation.Machine.is_one_of
service_answers = record { stays = refl; said = refl }

booking_dialogue_example :
    let r =
      converse main_menu []
        (say "Book" ∷ say "S1" ∷ say "S1" ∷ say "S1" ∷ say "S1" ∷ say "S1" ∷ say "YES" ∷ []) in
    (r.state ≡ main_menu)
    × (r.context ≡ [])
    × (r.commands ≡ create_booking "S1" "S1" "S1" "S1" "S1" ∷ [])
unfolding panalbee_clock_backend.Base.Text.trim panalbee_clock_backend.Base.Text.codes
    panalbee_clock_backend.Conversation.Machine.is_one_of
booking_dialogue_example =
    booking_dialogue [] (say "Book") (say "S1") (say "S1") (say "S1") (say "S1") (say "S1")
      (say "YES") refl refl service_answers service_answers service_answers service_answers
      service_answers refl

abbrev desk : ConversationStore (List String)
desk = record {
  channels =
      record {
        id = "ch";
        tenant_id = "t1";
        channel_type = "WEB";
        external_account_id = "acc";
        is_active = true;
      }
      ∷ [];
  tenants = record { id = "t1"; is_active = true } ∷ [];
  memberships = record { tenant_id = "t1"; user_id = "ana" } ∷ [];
  users = record { id = "ana"; is_active = true; is_tenant_user = true } ∷ [];
  contacts = [];
  conversations = [];
  histories = [];
  messages = [];
  events = [];
  audits = [];
  bookings = [];
}

abbrev note_command : CommandHandler (List String)
note_command = some (λ envelope bookings. (ok tt, envelope.conversation_id ∷ bookings))

abbrev event : String → NormalizedInput → NormalizedInboundEvent
event id input = record {
  provider_event_id = id;
  provider_message_id = id;
  external_account_id = "acc";
  external_thread_id = "300";
  customer_display_name = none;
  occurred_at = none;
  input = input;
}

abbrev ids : String → NewIds
ids id = record { event_id = id; customer_id = "cu"; conversation_id = "co" }

-- The customer asks for a person, Ana claims the conversation, and the next message is left to her.
abbrev handoff_calls : List ConversationCall
handoff_calls =
    inbound_call (λ n. []) (ids "e1") 10 "WEB" (event "p1" (say "human")) "h1"
    ∷ handoff_call (claim_call "t1" "ana" "co" "r1")
    ∷ inbound_call (λ n. []) (ids "e2") 20 "WEB" (event "p2" (say "1")) "h2"
    ∷ []

desk-IsControlled : IsControlled desk
unfolding IsControlled
desk-IsControlled = (refl, refl)

run_calls-IsControlled_example : IsControlled (run_calls note_command handoff_calls desk)
run_calls-IsControlled_example =
    run_calls-IsControlled note_command handoff_calls desk desk-IsControlled

-- The first event of the customer, and the answer to it.
abbrev first_answer : InboundProcessingResult
first_answer = record {
  duplicate = false;
  conversation_id = some "co";
  queued_messages =
      record {
        tenant_id = "t1";
        conversation_id = "co";
        channel_id = "ch";
        content = outbound (text_reply "A team member will join shortly.");
        provider_message_id = none;
      }
      ∷ [];
}

first_answered :
    (process_inbound
      (λ n s. s)
      note_command
      (ids "e1")
      10
      "WEB"
      (event "p1" (say "human"))
      "h1"
      desk).0
    ≡ ok first_answer
unfolding process_inbound panalbee_clock_backend.Base.Text.trim
    panalbee_clock_backend.Base.Text.codes panalbee_clock_backend.Conversation.Machine.is_one_of
    transition_conversation
first_answered = refl

inbound_twice_example :
    process_inbound
      (λ n s. s)
      note_command
      (ids "e9")
      20
      "WEB"
      (event "p1" (say "human"))
      "h9"
      (process_inbound
        (λ n s. s)
        note_command
        (ids "e1")
        10
        "WEB"
        (event "p1" (say "human"))
        "h1"
        desk).1
    ≡ (
      ok duplicate_result,
      (process_inbound
          (λ n s. s)
          note_command
          (ids "e1")
          10
          "WEB"
          (event "p1" (say "human"))
          "h1"
          desk).1,
    )
unfolding process_inbound panalbee_clock_backend.Base.Text.trim
    panalbee_clock_backend.Base.Text.codes panalbee_clock_backend.Conversation.Machine.is_one_of
    transition_conversation
inbound_twice_example =
    inbound_twice note_command (ids "e1") (ids "e9") 10 20 "WEB" (event "p1" (say "human")) "h1"
      "h9" desk first_answer first_answered refl refl

-- A conversation that Ana leads.
abbrev led : Conversation
led = record {
  id = "co";
  tenant_id = "t1";
  customer_id = "cu";
  channel_id = "ch";
  external_thread_id = "300";
  state = human_handoff;
  context = [];
  control_status = human;
  assigned_to = some "ana";
}

abbrev led_desk : ConversationStore (List String)
led_desk = record desk { conversations = led ∷ [] }

abbrev web : Channel
web = record {
  id = "ch";
  tenant_id = "t1";
  channel_type = "WEB";
  external_account_id = "acc";
  is_active = true;
}

waiting_inbound_example :
    process_inbound (λ n s. s) note_command (ids "e1") 10 "WEB" (event "p1" (say "1")) "h1" led_desk
    ≡ (ok (processed "co" []), received web led (event "p1" (say "1")) (ids "e1") 10 "h1" led_desk)
waiting_inbound_example =
    waiting_inbound (λ n s. s) note_command (ids "e1") 10 "WEB" (event "p1" (say "1")) "h1" web led
      led_desk
      (record {
        resolves = refl;
        active = refl;
        fresh_id = refl;
        fresh_event = refl;
        fresh_message = refl;
        thread = refl;
        waits = refl;
      })
