-- ===== src/Conversation/Control/Inbound.antt =====
-- The inbound events keep every conversation consistent (src/conversations/conversation-engine.service.ts).
use panalbee_clock_backend.Base.{
  arith, ℕ, suc, zero, String, false, ◌||◌, List, [], none, ◌≡◌, Action, Keeps, modify-Keeps,
  pure-Keeps, >>=-Keeps, >>-Keeps, if-Keeps, with_transaction, try_catch-Keeps, Leads, >>=-Leads,
  kept-Leads, Keeps-Leads, branch-Leads, weaken-Leads, Leads-Commits, throw-Keeps,
  transaction-Keeps,
}
use panalbee_clock_backend.Conversation.Model.{NormalizedInput, ReplyIntent}
use panalbee_clock_backend.Conversation.Store.{Conversation, Channel, ConversationStore}
use panalbee_clock_backend.Conversation.Control.{IsControlled}
use panalbee_clock_backend.Conversation.Handoff.{is_human, is_handoff}
use panalbee_clock_backend.Conversation.Engine.{
  NormalizedInboundEvent, NewIds, InboundProcessingResult, save_message, queue_replies,
  mark_processed,
}
use panalbee_clock_backend.Conversation.Machine.{transition_conversation}
use panalbee_clock_backend.Conversation.Inbound.{
  CommandHandler, processed, duplicate_result, bot_turn, take_turn, receive, process_transaction,
  attempt_loop, process_inbound,
}
use panalbee_clock_backend.Conversation.Control.Steps.{
  IsLoaded, resolve_channel-Keeps, save_event-Keeps, upsert_customer-Keeps, load_conversation-Leads,
  run_command-Keeps, save_transition-Leads,
}

module _ {B : Type 0} where
  queue_replies-Keeps :
      (channel : Channel) (conversation_id : String) (replies : List ReplyIntent)
      → Keeps {S = ConversationStore B} IsControlled (queue_replies channel conversation_id replies)
  unfolding queue_replies IsControlled
  queue_replies-Keeps channel conversation_id replies = record { on = λ s h. h }

  mark_processed-Keeps :
      (event_id : String) (now : ℕ)
      → Keeps {S = ConversationStore B} IsControlled (mark_processed event_id now)
  unfolding mark_processed IsControlled
  mark_processed-Keeps event_id now = modify-Keeps _ (λ s h. h)

  bot_turn-Leads :
      (handler : CommandHandler B) (channel : Channel) (customer_id event_id : String) (now : ℕ)
      (input : NormalizedInput) (c : Conversation)
      → is_human c.control_status || is_handoff c.state ≡ false
      → Leads
          (IsLoaded channel.tenant_id c)
          (bot_turn handler channel customer_id event_id now input c)
          (λ _ s. IsControlled s)
  unfolding bot_turn
  bot_turn-Leads handler channel customer_id event_id now input c led =
      kept-Leads (pure-Keeps (transition_conversation c.state c.context input)) (λ t.
        kept-Leads (run_command-Keeps handler channel.tenant_id c.id customer_id t.command c) (λ _.
          >>=-Leads (λ _ s. IsControlled s) (save_transition-Leads channel.tenant_id c t led)
            (λ _. Keeps-Leads (
              >>=-Keeps (queue_replies-Keeps channel c.id t.replies) (λ messages.
                >>-Keeps (mark_processed-Keeps event_id now)
                  (pure-Keeps (processed c.id messages)))))))

  take_turn-Leads :
      (handler : CommandHandler B) (channel : Channel) (customer_id event_id : String) (now : ℕ)
      (input : NormalizedInput) (c : Conversation)
      → Leads
          (IsLoaded channel.tenant_id c)
          (take_turn handler channel customer_id event_id now input c)
          (λ _ s. IsControlled s)
  unfolding take_turn
  take_turn-Leads handler channel customer_id event_id now input c =
      branch-Leads (is_human c.control_status || is_handoff c.state)
        (λ human.
          weaken-Leads (λ s h. h.controlled_all)
            (Keeps-Leads
              (>>-Keeps (mark_processed-Keeps event_id now) (pure-Keeps (processed c.id [])))))
        (λ led. bot_turn-Leads handler channel customer_id event_id now input c led)

  save_message-conversations :
      (channel : Channel) (conversation_id : String) (event : NormalizedInboundEvent)
      (s : ConversationStore B)
      → (save_message channel conversation_id event s).1.conversations ≡ s.conversations
  unfolding save_message
  save_message-conversations channel conversation_id event s = ground arith

  save_message-Keeps :
      (tenant_id : String) (c : Conversation) (channel : Channel) (event : NormalizedInboundEvent)
      → Keeps {S = ConversationStore B} (IsLoaded tenant_id c) (save_message channel c.id event)
  unfolding IsControlled
  save_message-Keeps tenant_id c channel event = record {
    on = λ s h.
        let same = save_message-conversations channel c.id event s in
        record { controlled_all = rw same h.controlled_all; at_id = rw same h.at_id };
  }

  receive-Leads :
      (handler : CommandHandler B) (ids : NewIds) (now : ℕ) (event : NormalizedInboundEvent)
      (channel : Channel)
      → Leads IsControlled (receive handler ids now event channel) (λ _ s. IsControlled s)
  unfolding receive
  receive-Leads handler ids now event channel =
      kept-Leads
        (upsert_customer-Keeps channel.tenant_id event.external_thread_id
          event.customer_display_name ids.customer_id)
        (λ customer_id.
          >>=-Leads (IsLoaded channel.tenant_id)
            (load_conversation-Leads channel customer_id event.external_thread_id
              ids.conversation_id)
            (λ c.
              kept-Leads (save_message-Keeps channel.tenant_id c channel event)
                (λ _. take_turn-Leads handler channel customer_id ids.event_id now event.input c)))

  process_transaction-Leads :
      (handler : CommandHandler B) (ids : NewIds) (now : ℕ) (channel_type : String)
      (event : NormalizedInboundEvent) (payload_hash : String)
      → Leads IsControlled
          (process_transaction handler ids now channel_type event payload_hash)
          (λ _ s. IsControlled s)
  unfolding process_transaction
  process_transaction-Leads handler ids now channel_type event payload_hash =
      kept-Leads (resolve_channel-Keeps channel_type event.external_account_id) (λ channel.
        kept-Leads
          (save_event-Keeps (record {
            id = ids.event_id;
            tenant_id = channel.tenant_id;
            channel_id = channel.id;
            provider_event_id = event.provider_event_id;
            payload_hash = payload_hash;
            processed_at = none;
          }))
          (λ _. receive-Leads handler ids now event channel))

  attempt_loop-Keeps :
      (between : ℕ → ConversationStore B → ConversationStore B)
      (work : Action (ConversationStore B) InboundProcessingResult) (left : ℕ)
      → ((n : ℕ) (s : ConversationStore B) → IsControlled s → IsControlled (between n s))
      → Keeps IsControlled (with_transaction work)
      → Keeps IsControlled (attempt_loop between work left)
  unfolding attempt_loop
  attempt_loop-Keeps between work zero others h = record { on = λ s p. p }
  attempt_loop-Keeps between work (suc left) others h = record {
    on = λ s p.
        (try_catch-Keeps h (λ error.
            if-Keeps _ (pure-Keeps duplicate_result)
              (if-Keeps _ (attempt_loop-Keeps between work left others h) (throw-Keeps error)))).on
          (between left s) (others left s p);
  }

  pub process_inbound-Keeps :
      (between : ℕ → ConversationStore B → ConversationStore B) (handler : CommandHandler B)
      (ids : NewIds) (now : ℕ) (channel_type : String) (event : NormalizedInboundEvent)
      (payload_hash : String)
      → ((n : ℕ) (s : ConversationStore B) → IsControlled s → IsControlled (between n s))
      → Keeps IsControlled (process_inbound between handler ids now channel_type event payload_hash)
  unfolding process_inbound
  process_inbound-Keeps between handler ids now channel_type event payload_hash others =
      attempt_loop-Keeps between
        (process_transaction handler ids now channel_type event payload_hash) 3 others
        (transaction-Keeps (
          Leads-Commits
            (process_transaction-Leads handler ids now channel_type event payload_hash)))
