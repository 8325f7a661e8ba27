-- ===== src/Conversation/Control/Handoffs.antt =====
-- The handoff operations keep every conversation consistent (src/conversations/handoff.service.ts).
use panalbee_clock_backend.Base.{
  String, true, false, not, some, ◌≡◌, refl, arith, Keeps, throw_if-Keeps, pure-Keeps, >>=-Keeps,
  >>-Keeps, with_transaction-Keeps, if-Keeps, guard-Keeps,
}
use panalbee_clock_backend.Conversation.Model.{human}
use panalbee_clock_backend.Conversation.Store.{Conversation, ConversationStore}
use panalbee_clock_backend.Conversation.Control.{
  is_consistent, IsControlled, record_conversation_history-Keeps,
  require_active_tenant_member-Keeps, update_control-Keeps, record_conversation_audit-Keeps,
  load-then,
}
use panalbee_clock_backend.Conversation.Handoff.{
  is_human, is_handoff, controlled, request_new, request, claim_new, claim, reassign, release,
}

-- A conversation that a person leads waits in HUMAN_HANDOFF.
human-handoff :
    (c : Conversation)
    → is_consistent c ≡ true
    → not (is_human c.control_status) ≡ false
    → is_handoff c.state ≡ true
unfolding is_consistent
human-handoff c h guard = ground arith

reassigned-IsConsistent :
    (c d : Conversation) (assigned_to : String)
    → is_handoff c.state ≡ true
    → is_consistent (controlled c.state human (some assigned_to) c.context d) ≡ true
unfolding is_consistent
reassigned-IsConsistent c d assigned_to h = rw h

module _ {B : Type 0} where
  pub request-Keeps :
      (tenant_id actor_user_id conversation_id request_id : String)
      → Keeps {S = ConversationStore B} IsControlled
          (request tenant_id actor_user_id conversation_id request_id)
  unfolding request request_new is_consistent
  request-Keeps tenant_id actor_user_id conversation_id request_id = with_transaction-Keeps (
      >>-Keeps (require_active_tenant_member-Keeps _ _) (
        load-then _ _ _ (λ c h. >>-Keeps (throw_if-Keeps _ _) (
          if-Keeps _ (pure-Keeps _) (
            >>=-Keeps (update_control-Keeps _ _ _ _ _ _ (λ d. refl)) (λ d.
              >>-Keeps (record_conversation_history-Keeps _ _ _ _ _)
                (>>-Keeps (record_conversation_audit-Keeps _) (pure-Keeps _))))))))

  pub claim-Keeps :
      (tenant_id actor_user_id conversation_id request_id : String)
      → Keeps {S = ConversationStore B} IsControlled
          (claim tenant_id actor_user_id conversation_id request_id)
  unfolding claim claim_new is_consistent
  claim-Keeps tenant_id actor_user_id conversation_id request_id = with_transaction-Keeps (
      >>-Keeps (require_active_tenant_member-Keeps _ _) (
        load-then _ _ _ (λ c h. if-Keeps _ (pure-Keeps _) (
          >>-Keeps (throw_if-Keeps _ _) (
            >>=-Keeps (update_control-Keeps _ _ _ _ _ _ (λ d. refl))
              (λ d. >>-Keeps (record_conversation_audit-Keeps _) (pure-Keeps _)))))))

  pub reassign-Keeps :
      (tenant_id actor_user_id conversation_id assigned_to reason request_id : String)
      → Keeps {S = ConversationStore B} IsControlled
          (reassign tenant_id actor_user_id conversation_id assigned_to reason request_id)
  unfolding reassign
  reassign-Keeps tenant_id actor_user_id conversation_id assigned_to reason request_id =
      with_transaction-Keeps (
        >>-Keeps (require_active_tenant_member-Keeps _ _) (
          load-then _ _ _ (λ c h. guard-Keeps _ _ (λ guard.
            >>-Keeps (require_active_tenant_member-Keeps _ _) (
              >>=-Keeps
                (update_control-Keeps _ _ _ _ _ _
                  (λ d. reassigned-IsConsistent c d assigned_to (human-handoff c h guard)))
                (λ d. >>-Keeps (record_conversation_audit-Keeps _) (pure-Keeps _)))))))

  pub release-Keeps :
      (tenant_id actor_user_id conversation_id reason request_id : String)
      → Keeps {S = ConversationStore B} IsControlled
          (release tenant_id actor_user_id conversation_id reason request_id)
  unfolding release is_consistent
  release-Keeps tenant_id actor_user_id conversation_id reason request_id = with_transaction-Keeps (
      >>-Keeps (require_active_tenant_member-Keeps _ _) (
        load-then _ _ _ (λ c h. >>-Keeps (throw_if-Keeps _ _) (
          >>=-Keeps (update_control-Keeps _ _ _ _ _ _ (λ d. refl)) (λ d.
            >>-Keeps (record_conversation_history-Keeps _ _ _ _ _)
              (>>-Keeps (record_conversation_audit-Keeps _) (pure-Keeps _)))))))
