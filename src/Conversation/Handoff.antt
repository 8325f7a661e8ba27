-- ===== src/Conversation/Handoff.antt =====
-- The handoff of a conversation to a person (src/conversations/handoff.service.ts).
use panalbee_clock_backend.Base.{
  String, Bool, true, false, ◌&&◌, ◌||◌, not, [], Option, none, some, app, Exception, Action, pure,
  gets, throw_if, modify, ◌>>=◌, ◌>>◌, find, update_first, or_throw, ◌==◌, if◌then◌else◌,
  with_transaction,
}
use panalbee_clock_backend.Conversation.Model.{
  ConversationState, main_menu, human_handoff, state_name, ConversationControl, bot, human,
  ConversationContext,
}
use panalbee_clock_backend.Conversation.Store.{
  Conversation, ConversationStore, record_conversation_history, require_active_tenant_member,
  record_conversation_audit,
}

abbrev conversation_not_found : Exception
conversation_not_found = app 404 "CONVERSATION_NOT_FOUND"

abbrev pub is_human : ConversationControl → Bool
is_human bot = false
is_human human = true

abbrev pub is_conversation : String → String → Conversation → Bool
is_conversation tenant_id conversation_id c = c.id == conversation_id && c.tenant_id == tenant_id

-- `state === 'HUMAN_HANDOFF'`
abbrev pub is_handoff : ConversationState → Bool
is_handoff state = state_name state == "HUMAN_HANDOFF"

-- The document that `updateControl` writes.
abbrev pub controlled :
    ConversationState
    → ConversationControl
    → Option String
    → ConversationContext
    → Conversation
    → Conversation
controlled state control_status assigned_to context c = record c {
  state = state;
  control_status = control_status;
  assigned_to = assigned_to;
  context = context;
}

-- `conversation.assignedTo === actorUserId`
abbrev is_assigned : String → Option String → Bool
is_assigned user_id none = false
is_assigned user_id (some assignee) = assignee == user_id

module _ {B : Type 0} where
  unfoldable pub load : String → String → Action (ConversationStore B) Conversation
  load tenant_id conversation_id = do
    found ← gets (λ s. find (is_conversation tenant_id conversation_id) s.conversations)
    or_throw found conversation_not_found

  unfoldable pub update_control :
      String
      → String
      → ConversationState
      → ConversationControl
      → Option String
      → ConversationContext
      → Action (ConversationStore B) Conversation
  unfolding load
  update_control tenant_id conversation_id state control_status assigned_to context = do
    modify (λ s. record s {
      conversations =
          update_first (is_conversation tenant_id conversation_id)
            (controlled state control_status assigned_to context) s.conversations;
    })
    load tenant_id conversation_id

  abbrev audit :
      String
      → String
      → String
      → String
      → String
      → Option String
      → Option String
      → Action (ConversationStore B) (Unit {0})
  audit tenant_id actor_user_id action conversation_id request_id reason previous_assignee =
      record_conversation_audit (record {
        tenant_id = tenant_id;
        actor_user_id = actor_user_id;
        action = action;
        conversation_id = conversation_id;
        request_id = request_id;
        reason = reason;
        previous_assignee = previous_assignee;
      })

  -- What `request` does with a conversation that the bot still leads.
  unfoldable pub request_new :
      String → String → String → String → Conversation → Action (ConversationStore B) Conversation
  unfolding update_control record_conversation_history record_conversation_audit
  request_new tenant_id actor_user_id conversation_id request_id c = do
    updated ← update_control tenant_id conversation_id human_handoff bot none c.context
    record_conversation_history tenant_id conversation_id (some c.state) human_handoff c.context
    audit tenant_id actor_user_id "CONVERSATION_HANDOFF_REQUESTED" conversation_id request_id none
        none
    pure updated

  unfoldable pub request :
      String → String → String → String → Action (ConversationStore B) Conversation
  unfolding request_new require_active_tenant_member load
  request tenant_id actor_user_id conversation_id request_id = with_transaction do
    require_active_tenant_member tenant_id actor_user_id
    conversation ← load tenant_id conversation_id
    throw_if (is_human conversation.control_status) (app 409 "CONVERSATION_ALREADY_HUMAN")
    if is_handoff conversation.state
        then pure conversation
        else request_new tenant_id actor_user_id conversation_id request_id conversation

  unfoldable pub claim_new :
      String → String → String → String → Conversation → Action (ConversationStore B) Conversation
  unfolding update_control record_conversation_audit
  claim_new tenant_id actor_user_id conversation_id request_id c = do
    throw_if (is_human c.control_status || not (is_handoff c.state))
        (app 409 "HANDOFF_NOT_CLAIMABLE")
    updated ←
        update_control tenant_id conversation_id human_handoff human (some actor_user_id) c.context
    audit tenant_id actor_user_id "CONVERSATION_HANDOFF_CLAIMED" conversation_id request_id none
        none
    pure updated

  unfoldable pub claim :
      String → String → String → String → Action (ConversationStore B) Conversation
  unfolding claim_new require_active_tenant_member load
  claim tenant_id actor_user_id conversation_id request_id = with_transaction do
    require_active_tenant_member tenant_id actor_user_id
    conversation ← load tenant_id conversation_id
    if is_human conversation.control_status && is_assigned actor_user_id conversation.assigned_to
        then pure conversation
        else claim_new tenant_id actor_user_id conversation_id request_id conversation

  unfoldable pub reassign :
      String
      → String
      → String
      → String
      → String
      → String
      → Action (ConversationStore B) Conversation
  unfolding update_control record_conversation_audit require_active_tenant_member load
  reassign tenant_id actor_user_id conversation_id assigned_to reason request_id =
      with_transaction do
        require_active_tenant_member tenant_id actor_user_id
        conversation ← load tenant_id conversation_id
        throw_if (not (is_human conversation.control_status)) (app 409 "CONVERSATION_NOT_HUMAN")
        require_active_tenant_member tenant_id assigned_to
        updated ←
            update_control tenant_id conversation_id conversation.state human (some assigned_to)
              conversation.context
        audit tenant_id actor_user_id "CONVERSATION_HANDOFF_REASSIGNED" conversation_id request_id
            (some reason) conversation.assigned_to
        pure updated

  unfoldable pub release :
      String → String → String → String → String → Action (ConversationStore B) Conversation
  unfolding update_control record_conversation_history record_conversation_audit
      require_active_tenant_member load
  release tenant_id actor_user_id conversation_id reason request_id = with_transaction do
    require_active_tenant_member tenant_id actor_user_id
    conversation ← load tenant_id conversation_id
    throw_if (not (is_human conversation.control_status)) (app 409 "CONVERSATION_NOT_HUMAN")
    updated ← update_control tenant_id conversation_id main_menu bot none []
    record_conversation_history tenant_id conversation_id (some conversation.state) main_menu []
    audit tenant_id actor_user_id "CONVERSATION_HANDOFF_RELEASED" conversation_id request_id
        (some reason) conversation.assigned_to
    pure updated
