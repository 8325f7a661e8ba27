-- ===== src/Conversation/Once.antt =====
-- A provider's event is processed once (src/conversations/conversation-engine.service.ts).
pub mod Twice
use panalbee_clock_backend.Base.{
  ℕ, suc, zero, String, Bool, true, false, ◌&&◌, ◌||◌, not, List, [], ◌∷◌, Option, none, some, ◌≡◌,
  refl, ap, ◌∙◌, Exception, Action, Result, ok, err, duplicate_key, find, update_first, any,
  if◌then◌else◌, Bool-cases, Option-cases, Result-cases, inl, inr, arith, ◌==◌, eq_refl, eq_iff,
  Keeps, >>-Keeps, >>=-Keeps, pure-Keeps, throw-Keeps, if-Keeps, modify, modify-Keeps, gets-Keeps,
  Leads, >>=-Leads, kept-Leads, Keeps-Leads, settle_ok, settle_err, is_named_duplicate_key, pure,
  throw, ltb, settle, handle, with_transaction,
}
use panalbee_clock_backend.Conversation.Model.{
  ConversationState, main_menu, booking_service, booking_professional, booking_date, booking_time,
  booking_customer_data, booking_confirmation, reschedule_select_appointment, reschedule_date,
  reschedule_time, cancel_select_appointment, cancel_confirmation, human_handoff, state_name,
  ConversationControl, bot, human, ConversationContext, ConversationCommand, create_booking,
  reschedule_booking, cancel_booking, NormalizedInput, text_input, selection, ReplyIntent,
  text_reply, interactive, TransitionResult, set_key, field_of, is_blank,
}
use panalbee_clock_backend.Conversation.Store.{
  Channel, Tenant, Membership, User, Contact, Conversation, StateHistory, MessageContent, inbound,
  outbound, Message, ProviderEvent, ConversationAudit, ConversationStore,
  record_conversation_history, require_active_tenant_member, record_conversation_audit,
}
use panalbee_clock_backend.Conversation.Handoff.{is_human, is_handoff, is_conversation}
use panalbee_clock_backend.Conversation.Machine.{transition_conversation}
use panalbee_clock_backend.Conversation.Engine.{
  NormalizedInboundEvent, NewIds, ConversationCommandEnvelope, InboundProcessingResult,
  provider_event_index, is_active_channel, is_contact, is_thread, same_event, customer_name,
  new_conversation, same_state, resolve_channel, upsert_customer, create_conversation, existing_or,
  load_conversation, save_message, queue_replies, mark_processed, save_event, put_bookings,
  on_bookings,
}
use panalbee_clock_backend.Conversation.Inbound.{
  CommandHandler, is_identity_race, moved, processed, duplicate_result, run_command,
  save_transition, bot_turn, take_turn, receive, process_transaction, attempt_loop, process_inbound,
}

any-update_first :
    (event_id : String) (now : ℕ) (t c p : String) (es : List ProviderEvent)
    → any
        (same_event t c p)
        (update_first (λ e. e.id == event_id) (λ e. record e { processed_at = some now }) es)
      ≡ any (same_event t c p) es
any-update_first event_id now t c p [] = refl
any-update_first event_id now t c p (e ∷ es) = elim (Bool-cases (e.id == event_id)) [
  | inl hit ↦ rw hit refl
  | inr miss ↦ rw (miss, any-update_first event_id now t c p es) refl
]

module _ {B : Type 0} (channel_type account event_key : String) (channel : Channel) where
  -- The channel is active, and the store has an event of it with the provider's id.
  pub record HasEvent (s : ConversationStore B) : Type 0 where
    pub resolves : find (is_active_channel channel_type account) s.channels ≡ some channel
    pub active : any (λ t. t.id == channel.tenant_id && t.is_active) s.tenants ≡ true
    pub stored : any (same_event channel.tenant_id channel.id event_key) s.events ≡ true

  -- An action that leaves the channels, the tenants and the events.
  abbrev Leaves : {A : Type 0} → Action (ConversationStore B) A → ConversationStore B → Type 0
  Leaves m s =
      ((m s).1.channels ≡ s.channels) × ((m s).1.tenants ≡ s.tenants) × ((m s).1.events ≡ s.events)

  Leaves-Keeps :
      {A : Type 0} (m : Action (ConversationStore B) A)
      → ((s : ConversationStore B) → Leaves m s)
      → Keeps HasEvent m
  Leaves-Keeps m frame = record {
    on = λ s h.
        let (channels, tenants, events) = frame s in
        record {
          resolves = rw channels h.resolves;
          active = rw tenants h.active;
          stored = rw events h.stored;
        };
  }

  upsert_customer-Leaves :
      (tenant_id phone : String) (supplied_name : Option String) (new_id : String)
      (s : ConversationStore B)
      → Leaves (upsert_customer tenant_id phone supplied_name new_id) s
  unfolding upsert_customer
  upsert_customer-Leaves tenant_id phone supplied_name new_id s = ground arith

  create_conversation-Leaves :
      (c : Conversation) (s : ConversationStore B) → Leaves (create_conversation c) s
  unfolding create_conversation record_conversation_history
  create_conversation-Leaves c s = ground arith

  load_conversation-Leaves :
      (ch : Channel) (customer_id external_thread_id new_id : String) (s : ConversationStore B)
      → Leaves (load_conversation ch customer_id external_thread_id new_id) s
  unfolding load_conversation
  load_conversation-Leaves ch customer_id external_thread_id new_id s =
      elim (Option-cases (find (is_thread ch.tenant_id ch.id external_thread_id) s.conversations)) [
        | inl fresh ↦ rw fresh (
            create_conversation-Leaves
              (new_conversation new_id ch.tenant_id customer_id ch.id external_thread_id) s)
        | inr (c, found) ↦ rw found (refl, refl, refl)
      ]

  run_command-Leaves :
      (handler : CommandHandler B) (tenant_id conversation_id customer_id : String)
      (command : Option ConversationCommand) (s : ConversationStore B)
      → Leaves (run_command handler tenant_id conversation_id customer_id command) s
  unfolding run_command
  run_command-Leaves handler tenant_id conversation_id customer_id none s = (refl, refl, refl)
  run_command-Leaves none tenant_id conversation_id customer_id (some command) s =
      (refl, refl, refl)
  run_command-Leaves (some handler) tenant_id conversation_id customer_id (some command) s =
      (refl, refl, refl)

  save_transition-Leaves :
      (tenant_id : String) (c : Conversation) (t : TransitionResult) (s : ConversationStore B)
      → Leaves (save_transition tenant_id c t) s
  unfolding save_transition record_conversation_history
  save_transition-Leaves tenant_id c t s = elim (Bool-cases (same_state t.state c.state)) [
    | inl same ↦ rw same (refl, refl, refl)
    | inr moved_on ↦ rw moved_on (refl, refl, refl)
  ]

  queue_replies-Leaves :
      (ch : Channel) (conversation_id : String) (replies : List ReplyIntent)
      (s : ConversationStore B)
      → Leaves (queue_replies ch conversation_id replies) s
  unfolding queue_replies
  queue_replies-Leaves ch conversation_id replies s = (refl, refl, refl)

  mark_processed-Keeps :
      (event_id : String) (now : ℕ) → Keeps HasEvent (mark_processed event_id now)
  unfolding mark_processed
  mark_processed-Keeps event_id now = modify-Keeps _ (λ s h. record {
    resolves = h.resolves;
    active = h.active;
    stored =
        any-update_first event_id now channel.tenant_id channel.id event_key s.events ∙ h.stored;
  })

  bot_turn-Keeps :
      (handler : CommandHandler B) (ch : Channel) (customer_id event_id : String) (now : ℕ)
      (input : NormalizedInput) (c : Conversation)
      → Keeps HasEvent (bot_turn handler ch customer_id event_id now input c)
  unfolding bot_turn
  bot_turn-Keeps handler ch customer_id event_id now input c =
      >>=-Keeps (pure-Keeps (transition_conversation c.state c.context input)) (λ t.
        >>-Keeps
          (Leaves-Keeps (run_command handler ch.tenant_id c.id customer_id t.command)
            (run_command-Leaves handler ch.tenant_id c.id customer_id t.command))
          (>>-Keeps
            (Leaves-Keeps (save_transition ch.tenant_id c t)
              (save_transition-Leaves ch.tenant_id c t))
            (>>=-Keeps
              (Leaves-Keeps (queue_replies ch c.id t.replies)
                (queue_replies-Leaves ch c.id t.replies))
              (λ messages.
                >>-Keeps (mark_processed-Keeps event_id now)
                  (pure-Keeps (processed c.id messages))))))

  take_turn-Keeps :
      (handler : CommandHandler B) (ch : Channel) (customer_id event_id : String) (now : ℕ)
      (input : NormalizedInput) (c : Conversation)
      → Keeps HasEvent (take_turn handler ch customer_id event_id now input c)
  unfolding take_turn
  take_turn-Keeps handler ch customer_id event_id now input c =
      if-Keeps (is_human c.control_status || is_handoff c.state)
        (>>-Keeps (mark_processed-Keeps event_id now) (pure-Keeps (processed c.id [])))
        (bot_turn-Keeps handler ch customer_id event_id now input c)

  save_message-Leaves :
      (ch : Channel) (conversation_id : String) (event : NormalizedInboundEvent)
      (s : ConversationStore B)
      → Leaves (save_message ch conversation_id event) s
  unfolding save_message
  save_message-Leaves ch conversation_id event s = ground arith

  pub receive-Keeps :
      (handler : CommandHandler B) (ids : NewIds) (now : ℕ) (event : NormalizedInboundEvent)
      (ch : Channel)
      → Keeps HasEvent (receive handler ids now event ch)
  unfolding receive
  receive-Keeps handler ids now event ch =
      >>=-Keeps
        (Leaves-Keeps
          (upsert_customer ch.tenant_id event.external_thread_id event.customer_display_name
            ids.customer_id)
          (upsert_customer-Leaves ch.tenant_id event.external_thread_id event.customer_display_name
            ids.customer_id))
        (λ customer_id.
          >>=-Keeps
            (Leaves-Keeps
              (load_conversation ch customer_id event.external_thread_id ids.conversation_id)
              (load_conversation-Leaves ch customer_id event.external_thread_id
                ids.conversation_id))
            (λ c.
              >>-Keeps
                (Leaves-Keeps (save_message ch c.id event) (save_message-Leaves ch c.id event))
                (take_turn-Keeps handler ch customer_id ids.event_id now event.input c)))
