-- ===== src/Conversation/Inbound.antt =====
-- `processInbound` and its transaction (src/conversations/conversation-engine.service.ts).
use panalbee_clock_backend.Base.{
  ℕ, suc, zero, ltb, String, Bool, true, false, ◌&&◌, ◌||◌, List, [], Option, none, some, app,
  fault, Exception, Action, pure, throw, modify, ◌>>=◌, ◌>>◌, update_first, if◌then◌else◌,
  with_transaction, is_named_duplicate_key, handle,
}
use panalbee_clock_backend.Conversation.Model.{
  ConversationState, ConversationContext, ConversationCommand, NormalizedInput, TransitionResult,
}
use panalbee_clock_backend.Conversation.Machine.{transition_conversation}
use panalbee_clock_backend.Conversation.Handoff.{is_human, is_handoff, is_conversation}
use panalbee_clock_backend.Conversation.Store.{
  Channel, Message, Conversation, ConversationStore, record_conversation_history,
}
use panalbee_clock_backend.Conversation.Engine.{
  NormalizedInboundEvent, NewIds, ConversationCommandEnvelope, InboundProcessingResult,
  provider_event_index, same_state, resolve_channel, upsert_customer, load_conversation,
  save_message, queue_replies, mark_processed, save_event, on_bookings,
}

-- What the module injects, if it does.
abbrev pub CommandHandler : Type 0 → Type 0
CommandHandler B = Option (ConversationCommandEnvelope → Action B (Unit {0}))

abbrev pub is_identity_race : Exception → Bool
is_identity_race error =
    is_named_duplicate_key error "customer_phone_unique"
    || is_named_duplicate_key error "conversation_external_identity_unique"

abbrev pub moved : ConversationState → ConversationContext → Conversation → Conversation
moved state context c = record c { state = state; context = context }

abbrev pub processed : String → List Message → InboundProcessingResult
processed conversation_id messages = record {
  duplicate = false;
  conversation_id = some conversation_id;
  queued_messages = messages;
}

abbrev pub duplicate_result : InboundProcessingResult
duplicate_result = record { duplicate = true; conversation_id = none; queued_messages = [] }

module _ {B : Type 0} where
  -- `if (transition.command) { … }`
  unfoldable pub run_command :
      CommandHandler B
      → String
      → String
      → String
      → Option ConversationCommand
      → Action (ConversationStore B) (Unit {0})
  run_command handler tenant_id conversation_id customer_id none = pure tt
  run_command none tenant_id conversation_id customer_id (some command) =
      throw (app 503 "CONVERSATION_COMMAND_UNAVAILABLE")
  run_command (some handler) tenant_id conversation_id customer_id (some command) = on_bookings (
      handler (record {
        tenant_id = tenant_id;
        conversation_id = conversation_id;
        customer_id = customer_id;
        command = command;
      }))

  -- The write of the transition's state and context, with its history where the state has changed.
  unfoldable pub save_transition :
      String → Conversation → TransitionResult → Action (ConversationStore B) (Unit {0})
  unfolding record_conversation_history
  save_transition tenant_id c t = do
    modify (λ s. record s {
      conversations =
          update_first (is_conversation tenant_id c.id) (moved t.state t.context) s.conversations;
    })
    if same_state t.state c.state
        then pure tt
        else record_conversation_history tenant_id c.id (some c.state) t.state t.context

  -- The rest of the transaction where the bot leads the conversation.
  unfoldable pub bot_turn :
      CommandHandler B
      → Channel
      → String
      → String
      → ℕ
      → NormalizedInput
      → Conversation
      → Action (ConversationStore B) InboundProcessingResult
  unfolding run_command save_transition queue_replies mark_processed
  bot_turn handler channel customer_id event_id now input c = do
    t ← pure (transition_conversation c.state c.context input)
    run_command handler channel.tenant_id c.id customer_id t.command
    save_transition channel.tenant_id c t
    messages ← queue_replies channel c.id t.replies
    mark_processed event_id now
    pure (processed c.id messages)

  -- What follows the inbound message.
  unfoldable pub take_turn :
      CommandHandler B
      → Channel
      → String
      → String
      → ℕ
      → NormalizedInput
      → Conversation
      → Action (ConversationStore B) InboundProcessingResult
  unfolding bot_turn
  take_turn handler channel customer_id event_id now input c =
      if is_human c.control_status || is_handoff c.state
      then mark_processed event_id now >> pure (processed c.id [])
      else bot_turn handler channel customer_id event_id now input c

  -- What follows the save of the provider event.
  unfoldable pub receive :
      CommandHandler B
      → NewIds
      → ℕ
      → NormalizedInboundEvent
      → Channel
      → Action (ConversationStore B) InboundProcessingResult
  unfolding upsert_customer load_conversation save_message take_turn
  receive handler ids now event channel = do
    customer_id ←
        upsert_customer channel.tenant_id event.external_thread_id event.customer_display_name
          ids.customer_id
    conversation ←
        load_conversation channel customer_id event.external_thread_id ids.conversation_id
    save_message channel conversation.id event
    take_turn handler channel customer_id ids.event_id now event.input conversation

  unfoldable pub process_transaction :
      CommandHandler B
      → NewIds
      → ℕ
      → String
      → NormalizedInboundEvent
      → String
      → Action (ConversationStore B) InboundProcessingResult
  unfolding resolve_channel save_event receive
  process_transaction handler ids now channel_type event payload_hash = do
    channel ← resolve_channel channel_type event.external_account_id
    save_event (record {
      id = ids.event_id;
      tenant_id = channel.tenant_id;
      channel_id = channel.id;
      provider_event_id = event.provider_event_id;
      payload_hash = payload_hash;
      processed_at = none;
    })
    receive handler ids now event channel

  -- The loop over the attempts, by the number of those that are left; `between` is what other
  -- transactions have committed before an attempt.
  unfoldable pub attempt_loop :
      (ℕ → ConversationStore B → ConversationStore B)
      → Action (ConversationStore B) InboundProcessingResult
      → ℕ
      → Action (ConversationStore B) InboundProcessingResult
  attempt_loop between work zero s = throw (fault "Conversation transaction retry limit exceeded") s
  attempt_loop between work (suc left) s =
      let again = attempt_loop between work left in
      handle
        (λ error.
          if is_named_duplicate_key error provider_event_index
          then pure duplicate_result
          else if ltb 0 left && is_identity_race error
          then again
          else throw error)
        (with_transaction work (between left s))

  unfoldable pub process_inbound :
      (ℕ → ConversationStore B → ConversationStore B)
      → CommandHandler B
      → NewIds
      → ℕ
      → String
      → NormalizedInboundEvent
      → String
      → Action (ConversationStore B) InboundProcessingResult
  unfolding attempt_loop process_transaction
  process_inbound between handler ids now channel_type event payload_hash =
      attempt_loop between (process_transaction handler ids now channel_type event payload_hash) 3
