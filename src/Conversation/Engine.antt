-- ===== src/Conversation/Engine.antt =====
-- The processing of an inbound event (src/conversations/conversation-engine.service.ts and
-- conversation-engine.store.ts). The clock, the new ids and what other transactions commit between two
-- attempts are arguments, and so is the command handler that the module injects.
use panalbee_clock_backend.Base.{
  ℕ, String, Bool, ◌&&◌, not, List, [], ◌∷◌, ◌++◌, map, Option, none, some, app, fault, Result,
  Action, pure, gets, throw_if, modify, insert_unique, ◌>>=◌, ◌>>◌, any, find, update_first,
  or_throw, ◌==◌, if◌then◌else◌, ltb,
}
use panalbee_clock_backend.Base.Text.{trim, length_utf16, take_utf16}
use panalbee_clock_backend.Affiliate.Store.{is_text}
use panalbee_clock_backend.Conversation.Model.{
  ConversationState, main_menu, state_name, bot, ConversationCommand, NormalizedInput, ReplyIntent,
}
use panalbee_clock_backend.Conversation.Store.{
  Channel, Contact, Conversation, ConversationStore, Message, inbound, outbound, ProviderEvent,
  record_conversation_history,
}

pub record NormalizedInboundEvent : Type 0 where
  pub provider_event_id : String
  pub provider_message_id : String
  pub external_account_id : String
  pub external_thread_id : String
  pub customer_display_name : Option String
  pub occurred_at : Option String
  pub input : NormalizedInput

-- The ids that the documents of a transaction get.
pub record NewIds : Type 0 where
  pub event_id : String
  pub customer_id : String
  pub conversation_id : String

pub record ConversationCommandEnvelope : Type 0 where
  pub tenant_id : String
  pub conversation_id : String
  pub customer_id : String
  pub command : ConversationCommand

-- InboundProcessingResult, with the queued messages in place of their ids.
pub record InboundProcessingResult : Type 0 where
  pub duplicate : Bool
  pub conversation_id : Option String
  pub queued_messages : List Message

abbrev pub provider_event_index : String
provider_event_index = "provider_event_idempotency_unique"

abbrev pub is_active_channel : String → String → Channel → Bool
is_active_channel channel_type external_account_id c =
    c.channel_type == channel_type && c.external_account_id == external_account_id && c.is_active

abbrev pub is_contact : String → String → Contact → Bool
is_contact tenant_id phone c = c.tenant_id == tenant_id && c.phone == phone

abbrev pub is_thread : String → String → String → Conversation → Bool
is_thread tenant_id channel_id external_thread_id c =
    c.tenant_id == tenant_id
    && c.channel_id == channel_id
    && c.external_thread_id == external_thread_id

abbrev pub same_event : String → String → String → ProviderEvent → Bool
same_event tenant_id channel_id provider_event_id e =
    e.tenant_id == tenant_id
    && e.channel_id == channel_id
    && e.provider_event_id == provider_event_id

abbrev pub same_provider_message : String → String → String → Message → Bool
same_provider_message tenant_id channel_id provider_message_id m =
    m.tenant_id == tenant_id
    && m.channel_id == channel_id
    && is_text m.provider_message_id provider_message_id

abbrev pub inbound_message : Channel → String → NormalizedInboundEvent → Message
inbound_message channel conversation_id event = record {
  tenant_id = channel.tenant_id;
  conversation_id = conversation_id;
  channel_id = channel.id;
  content = inbound event.input event.occurred_at;
  provider_message_id = some event.provider_message_id;
}

-- The name of a new customer: what the channel supplied, cut at 160, or else the phone.
abbrev pub customer_name : Option String → String → String
customer_name none phone = phone
customer_name (some supplied) phone =
    let candidate = take_utf16 160 (trim supplied) in
    if ltb (length_utf16 candidate) 2 then phone else candidate

abbrev pub new_conversation : String → String → String → String → String → Conversation
new_conversation new_id tenant_id customer_id channel_id external_thread_id = record {
  id = new_id;
  tenant_id = tenant_id;
  customer_id = customer_id;
  channel_id = channel_id;
  external_thread_id = external_thread_id;
  state = main_menu;
  context = [];
  control_status = bot;
  assigned_to = none;
}

abbrev pub same_state : ConversationState → ConversationState → Bool
same_state a b = state_name a == state_name b

module _ {B : Type 0} where
  unfoldable pub resolve_channel : String → String → Action (ConversationStore B) Channel
  resolve_channel channel_type external_account_id = do
    found ← gets (λ s. find (is_active_channel channel_type external_account_id) s.channels)
    channel ← or_throw found (app 404 "CHANNEL_NOT_FOUND")
    tenant ← gets (λ s. any (λ t. t.id == channel.tenant_id && t.is_active) s.tenants)
    throw_if (not tenant) (app 404 "CHANNEL_NOT_FOUND")
    pure channel

  -- An upsert: it inserts only where no customer of the tenant has the phone.
  unfoldable pub upsert_customer :
      String → String → Option String → String → Action (ConversationStore B) String
  upsert_customer tenant_id phone supplied_name new_id = do
    modify (λ s. if any (is_contact tenant_id phone) s.contacts then s else record s {
      contacts =
          record {
            id = new_id;
            tenant_id = tenant_id;
            phone = phone;
            full_name = customer_name supplied_name phone;
          }
          ∷ s.contacts;
    })
    found ← gets (λ s. find (is_contact tenant_id phone) s.contacts)
    customer ← or_throw found (fault "Customer upsert did not return a document")
    pure customer.id

  unfoldable pub create_conversation : Conversation → Action (ConversationStore B) Conversation
  unfolding record_conversation_history
  create_conversation c = do
    insert_unique (λ s. any (λ d. d.id == c.id) s.conversations) "_id_" (λ s. s)
    insert_unique
        (λ s. any (is_thread c.tenant_id c.channel_id c.external_thread_id) s.conversations)
        "conversation_external_identity_unique"
        (λ s. record s { conversations = c ∷ s.conversations })
    record_conversation_history c.tenant_id c.id none main_menu []
    pure c

  abbrev pub existing_or :
      Action (ConversationStore B) Conversation
      → Option Conversation
      → Action (ConversationStore B) Conversation
  existing_or create none = create
  existing_or create (some c) = pure c

  unfoldable pub load_conversation :
      Channel → String → String → String → Action (ConversationStore B) Conversation
  unfolding create_conversation
  load_conversation channel customer_id external_thread_id new_id = do
    existing ←
        gets (λ s. find (is_thread channel.tenant_id channel.id external_thread_id) s.conversations)
    existing_or
        (create_conversation
          (new_conversation new_id channel.tenant_id customer_id channel.id external_thread_id))
        existing

  abbrev add_messages : List Message → ConversationStore B → ConversationStore B
  add_messages messages s = record s { messages = messages ++ s.messages }

  unfoldable pub queue_replies :
      Channel → String → List ReplyIntent → Action (ConversationStore B) (List Message)
  queue_replies channel conversation_id replies = do
    messages ← pure (
        map
          (λ reply. record {
            tenant_id = channel.tenant_id;
            conversation_id = conversation_id;
            channel_id = channel.id;
            content = outbound reply;
            provider_message_id = none;
          })
          replies)
    modify (add_messages messages)
    pure messages

  unfoldable pub mark_processed : String → ℕ → Action (ConversationStore B) (Unit {0})
  mark_processed event_id now = modify (λ s. record s {
    events =
        update_first (λ e. e.id == event_id) (λ e. record e { processed_at = some now }) s.events;
  })

  unfoldable pub save_event : ProviderEvent → Action (ConversationStore B) (Unit {0})
  save_event e = do
    insert_unique (λ s. any (λ f. f.id == e.id) s.events) "_id_" (λ s. s)
    insert_unique (λ s. any (same_event e.tenant_id e.channel_id e.provider_event_id) s.events)
        provider_event_index (λ s. record s { events = e ∷ s.events })

  -- The create of an inbound message; the unique index is on the messages that have a provider's id.
  unfoldable pub save_message :
      Channel → String → NormalizedInboundEvent → Action (ConversationStore B) (Unit {0})
  save_message channel conversation_id event =
      insert_unique
        (λ s.
          any (same_provider_message channel.tenant_id channel.id event.provider_message_id)
            s.messages)
        "message_provider_id_unique"
        (add_messages (inbound_message channel conversation_id event ∷ []))

  -- An action of the command handler, which sees the bookings only.
  abbrev pub put_bookings :
      ConversationStore B → Result (Unit {0}) × B → Result (Unit {0}) × ConversationStore B
  put_bookings s (r, b) = (r, record s { bookings = b })

  abbrev pub on_bookings : Action B (Unit {0}) → Action (ConversationStore B) (Unit {0})
  on_bookings m s = put_bookings s (m s.bookings)
