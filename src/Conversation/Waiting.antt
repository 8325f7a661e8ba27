-- ===== src/Conversation/Waiting.antt =====
-- An inbound event of a conversation that waits for a person, or has one
-- (src/conversations/conversation-engine.service.ts).
use panalbee_clock_backend.Base.{
  ℕ, String, Bool, true, false, ◌&&◌, ◌||◌, List, [], ◌∷◌, Option, none, some, ◌≡◌, refl, ok, find,
  any, Bool-cases, inl, inr, ◌==◌, eq_refl, if◌then◌else◌,
}
use panalbee_clock_backend.Conversation.Store.{Channel, Contact, Conversation, ConversationStore}
use panalbee_clock_backend.Conversation.Handoff.{is_human, is_handoff}
use panalbee_clock_backend.Conversation.Engine.{
  NormalizedInboundEvent, NewIds, is_active_channel, is_contact, is_thread, same_event,
  customer_name, same_provider_message, inbound_message, resolve_channel, upsert_customer,
  load_conversation, save_message, mark_processed, save_event,
}
use panalbee_clock_backend.Conversation.Inbound.{
  CommandHandler, processed, take_turn, receive, process_transaction, attempt_loop, process_inbound,
}

find-any :
    (p : Contact → Bool) (xs : List Contact)
    → any p xs ≡ true
    → (x : Contact) × (find p xs ≡ some x)
find-any p [] h = cc
find-any p (x ∷ xs) h = elim (Bool-cases (p x)) [
  | inl hit ↦ (x, rw hit refl)
  | inr miss ↦ let (y, found) = find-any p xs (rw miss at h) in (y, rw miss found)
]

module _ {B : Type 0} where
  -- The customers, with the one of a thread where he is unknown.
  abbrev with_contact :
      String → String → Option String → String → ConversationStore B → List Contact
  with_contact tenant_id phone supplied_name new_id s =
      if any (is_contact tenant_id phone) s.contacts
      then s.contacts
      else record {
        id = new_id;
        tenant_id = tenant_id;
        phone = phone;
        full_name = customer_name supplied_name phone;
      }
        ∷ s.contacts

  upserted :
      (tenant_id phone : String) (supplied_name : Option String) (new_id : String)
      (s : ConversationStore B)
      → (customer_id : String) × (upsert_customer tenant_id phone supplied_name new_id s ≡ (
        ok customer_id,
        record s { contacts = with_contact tenant_id phone supplied_name new_id s },
      ))
  unfolding upsert_customer
  upserted tenant_id phone supplied_name new_id s =
      elim (Bool-cases (any (is_contact tenant_id phone) s.contacts)) [
        | inl there ↦
            let (x, found) = find-any (is_contact tenant_id phone) s.contacts there in
            (x.id, rw (there, found) refl)
        | inr fresh ↦ (new_id, rw (fresh, eq_refl tenant_id, eq_refl phone) refl)
      ]

  -- The store and the event, where the event is new and its conversation is not led by the bot.
  pub record IsWaiting (channel_type : String) (event : NormalizedInboundEvent) (ids : NewIds)
      (channel : Channel) (c : Conversation) (s : ConversationStore B) : Type 0 where
    pub resolves :
        find (is_active_channel channel_type event.external_account_id) s.channels ≡ some channel
    pub active : any (λ t. t.id == channel.tenant_id && t.is_active) s.tenants ≡ true
    pub fresh_id : any (λ e. e.id == ids.event_id) s.events ≡ false
    pub fresh_event :
        any (same_event channel.tenant_id channel.id event.provider_event_id) s.events ≡ false
    pub fresh_message :
        any
          (same_provider_message channel.tenant_id channel.id event.provider_message_id)
          s.messages
        ≡ false
    pub thread :
        find (is_thread channel.tenant_id channel.id event.external_thread_id) s.conversations
        ≡ some c
    pub waits : is_human c.control_status || is_handoff c.state ≡ true

  abbrev pub received :
      Channel
      → Conversation
      → NormalizedInboundEvent
      → NewIds
      → ℕ
      → String
      → ConversationStore B
      → ConversationStore B
  received channel c event ids now payload_hash s = record s {
    contacts =
        with_contact channel.tenant_id event.external_thread_id event.customer_display_name
          ids.customer_id s;
    messages = inbound_message channel c.id event ∷ s.messages;
    events =
        record {
          id = ids.event_id;
          tenant_id = channel.tenant_id;
          channel_id = channel.id;
          provider_event_id = event.provider_event_id;
          payload_hash = payload_hash;
          processed_at = some now;
        }
        ∷ s.events;
  }

  transaction_waits :
      (handler : CommandHandler B) (ids : NewIds) (now : ℕ) (channel_type : String)
      (event : NormalizedInboundEvent) (payload_hash : String) (channel : Channel)
      (c : Conversation) (s : ConversationStore B)
      → IsWaiting channel_type event ids channel c s
      → process_transaction handler ids now channel_type event payload_hash s
        ≡ (ok (processed c.id []), received channel c event ids now payload_hash s)
  unfolding process_transaction resolve_channel save_event receive load_conversation save_message
      take_turn mark_processed
  transaction_waits handler ids now channel_type event payload_hash channel c s w =
      let stored = record s {
        events =
            record {
              id = ids.event_id;
              tenant_id = channel.tenant_id;
              channel_id = channel.id;
              provider_event_id = event.provider_event_id;
              payload_hash = payload_hash;
              processed_at = none;
            }
            ∷ s.events;
      } in
      let (customer_id, known) =
        upserted channel.tenant_id event.external_thread_id event.customer_display_name
          ids.customer_id stored in
      rw
        (
          w.resolves,
          w.active,
          w.fresh_id,
          w.fresh_event,
          known,
          w.thread,
          w.fresh_message,
          w.waits,
          eq_refl ids.event_id,
        )
        refl

-- A new event of a conversation that a person leads, or that waits for one, is kept and nothing else:
-- its message and the provider event, marked as processed, are written, and the customer where unknown;
-- the conversation, its history and the bookings stay as they are, nothing is answered, and the call ends
-- well. The channel and its tenant must be active, and the ids of the event and of the message new; other
-- transactions may commit before it.
pub waiting_inbound :
    {B : Type 0} (between : ℕ → ConversationStore B → ConversationStore B)
    (handler : CommandHandler B) (ids : NewIds) (now : ℕ) (channel_type : String)
    (event : NormalizedInboundEvent) (payload_hash : String) (channel : Channel) (c : Conversation)
    (s : ConversationStore B)
    → IsWaiting channel_type event ids channel c (between 2 s)
    → process_inbound between handler ids now channel_type event payload_hash s
      ≡ (ok (processed c.id []), received channel c event ids now payload_hash (between 2 s))
unfolding process_inbound attempt_loop
waiting_inbound between handler ids now channel_type event payload_hash channel c s w =
    rw (transaction_waits handler ids now channel_type event payload_hash channel c (between 2 s) w)
      refl
