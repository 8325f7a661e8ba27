-- ===== src/Conversation/Control/Histories.antt =====
-- Any sequence of handoff calls and inbound events (src/conversations).
use panalbee_clock_backend.Base.{ℕ, String, List, [], ◌∷◌}
use panalbee_clock_backend.Conversation.Store.{ConversationStore}
use panalbee_clock_backend.Conversation.Handoff.{request, claim, reassign, release}
use panalbee_clock_backend.Conversation.Engine.{NormalizedInboundEvent, NewIds}
use panalbee_clock_backend.Conversation.Inbound.{CommandHandler, process_inbound}
use panalbee_clock_backend.Conversation.Control.{IsControlled}
use panalbee_clock_backend.Conversation.Control.Handoffs.{
  request-Keeps, claim-Keeps, reassign-Keeps, release-Keeps,
}
use panalbee_clock_backend.Conversation.Control.Inbound.{process_inbound-Keeps}

pub data HandoffCall : Type 0 where
  request_call claim_call : String → String → String → String → HandoffCall
  reassign_call : String → String → String → String → String → String → HandoffCall
  release_call : String → String → String → String → String → HandoffCall

module _ {B : Type 0} where
  unfoldable run_handoff : HandoffCall → ConversationStore B → ConversationStore B
  run_handoff (request_call tenant_id actor conversation_id request_id) s =
      (request tenant_id actor conversation_id request_id s).1
  run_handoff (claim_call tenant_id actor conversation_id request_id) s =
      (claim tenant_id actor conversation_id request_id s).1
  run_handoff (reassign_call tenant_id actor conversation_id assigned_to reason request_id) s =
      (reassign tenant_id actor conversation_id assigned_to reason request_id s).1
  run_handoff (release_call tenant_id actor conversation_id reason request_id) s =
      (release tenant_id actor conversation_id reason request_id s).1

  unfoldable run_handoffs : List HandoffCall → ConversationStore B → ConversationStore B
  unfolding run_handoff
  run_handoffs [] s = s
  run_handoffs (call ∷ calls) s = run_handoffs calls (run_handoff call s)

-- An inbound event, with the handoff calls that commit before each of its attempts, or a handoff call.
pub data ConversationCall : Type 0 where
  inbound_call :
      (ℕ → List HandoffCall)
      → NewIds
      → ℕ
      → String
      → NormalizedInboundEvent
      → String
      → ConversationCall
  handoff_call : HandoffCall → ConversationCall

module _ {B : Type 0} (handler : CommandHandler B) where
  unfoldable pub run_calls : List ConversationCall → ConversationStore B → ConversationStore B
  unfolding run_handoff run_handoffs
  run_calls [] s = s
  run_calls (handoff_call call ∷ calls) s = run_calls calls (run_handoff call s)
  run_calls (inbound_call between ids now channel_type event payload_hash ∷ calls) s =
      run_calls calls
        (process_inbound (λ n. run_handoffs (between n)) handler ids now channel_type event
          payload_hash s).1

module _ {B : Type 0} where
  run_handoff-IsControlled :
      (call : HandoffCall) (s : ConversationStore B)
      → IsControlled s
      → IsControlled (run_handoff call s)
  unfolding run_handoff
  run_handoff-IsControlled (request_call tenant_id actor conversation_id request_id) s h =
      (request-Keeps tenant_id actor conversation_id request_id).on s h
  run_handoff-IsControlled (claim_call tenant_id actor conversation_id request_id) s h =
      (claim-Keeps tenant_id actor conversation_id request_id).on s h
  run_handoff-IsControlled
        (reassign_call tenant_id actor conversation_id assigned_to reason request_id) s h =
      (reassign-Keeps tenant_id actor conversation_id assigned_to reason request_id).on s h
  run_handoff-IsControlled (release_call tenant_id actor conversation_id reason request_id) s h =
      (release-Keeps tenant_id actor conversation_id reason request_id).on s h

  run_handoffs-IsControlled :
      (calls : List HandoffCall) (s : ConversationStore B)
      → IsControlled s
      → IsControlled (run_handoffs calls s)
  unfolding run_handoffs
  run_handoffs-IsControlled [] s h = h
  run_handoffs-IsControlled (call ∷ calls) s h =
      run_handoffs-IsControlled calls _ (run_handoff-IsControlled call s h)

-- After any sequence of inbound events and handoff calls, whatever the command handler does, a person
-- leads exactly the conversations that have an assignee, and each of these is in HUMAN_HANDOFF; and
-- no two conversations have one id. The start must be such a store.
pub run_calls-IsControlled :
    {B : Type 0} (handler : CommandHandler B) (calls : List ConversationCall)
    (s : ConversationStore B)
    → IsControlled s
    → IsControlled (run_calls handler calls s)
unfolding run_calls
run_calls-IsControlled handler [] s h = h
run_calls-IsControlled handler (handoff_call call ∷ calls) s h =
    run_calls-IsControlled handler calls _ (run_handoff-IsControlled call s h)
run_calls-IsControlled handler
      (inbound_call between ids now channel_type event payload_hash ∷ calls) s h =
    run_calls-IsControlled handler calls _ (
      (process_inbound-Keeps (λ n. run_handoffs (between n)) handler ids now channel_type event
          payload_hash (λ n. run_handoffs-IsControlled (between n))).on
        s h)
