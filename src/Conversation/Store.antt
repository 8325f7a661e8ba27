-- ===== src/Conversation/Store.antt =====
-- The collections that the conversation engine and the handoff service read and write
-- (src/database/models/communication.models.ts, core.models.ts, src/conversations/conversation-persistence.ts,
-- src/conversations/conversation-audit.ts), beside the bookings of type `B`, which only the command
-- handler touches.
use panalbee_clock_backend.Base.{
  ℕ, String, Bool, ◌&&◌, not, List, ◌∷◌, Option, app, Action, gets, throw_if, modify, ◌>>=◌, any,
  ◌==◌,
}
use panalbee_clock_backend.Conversation.Model.{
  ConversationState, ConversationControl, ConversationContext, NormalizedInput, ReplyIntent,
}

pub record Channel : Type 0 where
  pub id : String
  pub tenant_id : String
  pub channel_type : String
  pub external_account_id : String
  pub is_active : Bool

pub record Tenant : Type 0 where
  pub id : String
  pub is_active : Bool

pub record Membership : Type 0 where
  pub tenant_id : String
  pub user_id : String

pub record User : Type 0 where
  pub id : String
  pub is_active : Bool
  pub is_tenant_user : Bool

pub record Contact : Type 0 where
  pub id : String
  pub tenant_id : String
  pub phone : String
  pub full_name : String

pub record Conversation : Type 0 where
  pub id : String
  pub tenant_id : String
  pub customer_id : String
  pub channel_id : String
  pub external_thread_id : String
  pub state : ConversationState
  pub context : ConversationContext
  pub control_status : ConversationControl
  pub assigned_to : Option String

pub record StateHistory : Type 0 where
  pub tenant_id : String
  pub conversation_id : String
  pub from_state : Option ConversationState
  pub to_state : ConversationState
  pub context : ConversationContext

-- An inbound message has the time of its event; the direction and the kind follow from the content.
pub data MessageContent : Type 0 where
  inbound : NormalizedInput → Option String → MessageContent
  outbound : ReplyIntent → MessageContent

pub record Message : Type 0 where
  pub tenant_id : String
  pub conversation_id : String
  pub channel_id : String
  pub content : MessageContent
  pub provider_message_id : Option String

pub record ProviderEvent : Type 0 where
  pub id : String
  pub tenant_id : String
  pub channel_id : String
  pub provider_event_id : String
  pub payload_hash : String
  pub processed_at : Option ℕ

pub record ConversationAudit : Type 0 where
  pub tenant_id : String
  pub actor_user_id : String
  pub action : String
  pub conversation_id : String
  pub request_id : String
  pub reason : Option String
  pub previous_assignee : Option String

pub record ConversationStore (B : Type 0) : Type 0 where
  pub channels : List Channel
  pub tenants : List Tenant
  pub memberships : List Membership
  pub users : List User
  pub contacts : List Contact
  pub conversations : List Conversation
  pub histories : List StateHistory
  pub messages : List Message
  pub events : List ProviderEvent
  pub audits : List ConversationAudit
  pub bookings : B

module _ {B : Type 0} where
  -- `recordConversationHistory`
  unfoldable pub record_conversation_history :
      String
      → String
      → Option ConversationState
      → ConversationState
      → ConversationContext
      → Action (ConversationStore B) (Unit {0})
  record_conversation_history tenant_id conversation_id from_state to_state context = modify (λ s.
      record s {
        histories =
            record {
              tenant_id = tenant_id;
              conversation_id = conversation_id;
              from_state = from_state;
              to_state = to_state;
              context = context;
            }
            ∷ s.histories;
      })

  -- `requireActiveTenantMember`
  unfoldable pub require_active_tenant_member :
      String → String → Action (ConversationStore B) (Unit {0})
  require_active_tenant_member tenant_id user_id = do
    membership ←
        gets (λ s. any (λ m. m.tenant_id == tenant_id && m.user_id == user_id) s.memberships)
    user ←
        gets
          (λ s. membership && any (λ u. u.id == user_id && u.is_active && u.is_tenant_user) s.users)
    throw_if (not (membership && user)) (app 400 "HANDOFF_ASSIGNEE_INVALID")

  -- `recordConversationAudit`
  unfoldable pub record_conversation_audit :
      ConversationAudit → Action (ConversationStore B) (Unit {0})
  record_conversation_audit audit = modify (λ s. record s { audits = audit ∷ s.audits })
