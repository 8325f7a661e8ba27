-- ===== src/Conversation/Control/Steps.antt =====
-- The steps of the engine keep every conversation consistent (src/conversations/conversation-engine.service.ts,
-- conversation-engine.store.ts).
use panalbee_clock_backend.Base.{
  String, true, false, ◌||◌, ◌∷◌, Option, none, some, ◌≡◌, refl, find, update_first, inl, inr,
  arith, Keeps, pure-Keeps, if-Keeps, keeps, eq_refl, eq_iff, find-holds, Leads, >>=-Leads,
  modify-Leads, Keeps-Leads, Result, ok, Option-cases,
}
use panalbee_clock_backend.Conversation.Model.{
  ConversationState, ConversationContext, ConversationCommand, TransitionResult,
}
use panalbee_clock_backend.Conversation.Store.{
  Conversation, ProviderEvent, Channel, ConversationStore, record_conversation_history,
}
use panalbee_clock_backend.Conversation.Control.{
  is_consistent, IsControlled, record_conversation_history-Keeps, every-find, every-update_found,
  find-by_id, are_distinct-update_first, has_id,
}
use panalbee_clock_backend.Conversation.Handoff.{is_human, is_handoff, is_conversation}
use panalbee_clock_backend.Conversation.Engine.{
  is_thread, new_conversation, same_state, resolve_channel, upsert_customer, create_conversation,
  load_conversation, save_event,
}
use panalbee_clock_backend.Conversation.Inbound.{
  CommandHandler, moved, run_command, save_transition,
}

-- The conversation `c` of a tenant as the store has it.
pub record IsLoaded {B : Type 0} (tenant_id : String) (c : Conversation) (s : ConversationStore B)
    : Type 0 where
  pub controlled_all : IsControlled s
  pub at_id : find (is_conversation tenant_id c.id) s.conversations ≡ some c

is_thread-tenant :
    (tenant_id channel_id external_thread_id : String) (c : Conversation)
    → is_thread tenant_id channel_id external_thread_id c ≡ true
    → c.tenant_id ≡ tenant_id
is_thread-tenant tenant_id channel_id external_thread_id c h =
    ground (arith, eq_iff c.tenant_id tenant_id)

-- A move of the bot's conversation stays without an assignee.
moved-IsConsistent :
    (c : Conversation) (state : ConversationState) (context : ConversationContext)
    → is_consistent c ≡ true
    → is_human c.control_status || is_handoff c.state ≡ false
    → is_consistent (moved state context c) ≡ true
unfolding is_consistent
moved-IsConsistent c state context h led = ground arith

module _ {B : Type 0} where
  pub resolve_channel-Keeps :
      (channel_type external_account_id : String)
      → Keeps {S = ConversationStore B} IsControlled
          (resolve_channel channel_type external_account_id)
  unfolding resolve_channel
  resolve_channel-Keeps channel_type external_account_id = search keeps

  save_event-conversations :
      (e : ProviderEvent) (s : ConversationStore B)
      → (save_event e s).1.conversations ≡ s.conversations
  unfolding save_event
  save_event-conversations e s = ground arith

  pub save_event-Keeps :
      (e : ProviderEvent) → Keeps {S = ConversationStore B} IsControlled (save_event e)
  unfolding IsControlled
  save_event-Keeps e = record { on = λ s h. rw (save_event-conversations e s) h }

  upsert_customer-conversations :
      (tenant_id phone : String) (supplied_name : Option String) (new_id : String)
      (s : ConversationStore B)
      → (upsert_customer tenant_id phone supplied_name new_id s).1.conversations ≡ s.conversations
  unfolding upsert_customer
  upsert_customer-conversations tenant_id phone supplied_name new_id s = ground arith

  pub upsert_customer-Keeps :
      (tenant_id phone : String) (supplied_name : Option String) (new_id : String)
      → Keeps {S = ConversationStore B} IsControlled
          (upsert_customer tenant_id phone supplied_name new_id)
  unfolding IsControlled
  upsert_customer-Keeps tenant_id phone supplied_name new_id = record {
    on = λ s h. rw (upsert_customer-conversations tenant_id phone supplied_name new_id s) h;
  }

  create_conversation_ok :
      (c d : Conversation) (s : ConversationStore B)
      → (create_conversation c s).0 ≡ ok d
      → (c ≡ d)
        × ((create_conversation c s).1.conversations ≡ c ∷ s.conversations)
        × (has_id c.id s.conversations ≡ false)
  unfolding create_conversation record_conversation_history
  create_conversation_ok c d s h = ground arith

  create_conversation-Leads :
      (c : Conversation)
      → is_consistent c ≡ true
      → Leads {S = ConversationStore B} IsControlled (create_conversation c) (IsLoaded c.tenant_id)
  unfolding IsControlled
  create_conversation-Leads c consistent = record {
    on = λ s h d e.
        let (same, added, free) = create_conversation_ok c d s e in
        record {
          controlled_all = rw (added, consistent, free) h;
          at_id = rw (added, ← same, eq_refl c.id, eq_refl c.tenant_id) refl;
        };
  }

  found-IsLoaded :
      (tenant_id channel_id external_thread_id : String) (s : ConversationStore B)
      (c : Conversation)
      → IsControlled s
      → find (is_thread tenant_id channel_id external_thread_id) s.conversations ≡ some c
      → IsLoaded tenant_id c s
  unfolding IsControlled
  found-IsLoaded tenant_id channel_id external_thread_id s c h found =
      let tenant =
        is_thread-tenant tenant_id channel_id external_thread_id c
          (find-holds (is_thread tenant_id channel_id external_thread_id) s.conversations found) in
      record { controlled_all = h; at_id = rw (← tenant) (find-by_id _ s.conversations found h.1) }

  pub load_conversation-Leads :
      (channel : Channel) (customer_id external_thread_id new_id : String)
      → Leads {S = ConversationStore B} IsControlled
          (load_conversation channel customer_id external_thread_id new_id)
          (IsLoaded channel.tenant_id)
  unfolding load_conversation is_consistent
  load_conversation-Leads channel customer_id external_thread_id new_id = record {
    on = λ s h c loaded.
        elim (Option-cases
          (find (is_thread channel.tenant_id channel.id external_thread_id) s.conversations)) [
            | inl fresh ↦ rw fresh (
                (create_conversation-Leads
                    (new_conversation new_id channel.tenant_id customer_id channel.id
                      external_thread_id)
                    refl).on
                  s h c (rw fresh at loaded))
            | inr (d, found) ↦
                let same : ◌≡◌ {A = Result Conversation} (ok d) (ok c) = rw found at loaded in
                let equal : d ≡ c = cc in
                rw found (
                  found-IsLoaded channel.tenant_id channel.id external_thread_id s c h
                    (rw equal at found))
          ];
  }

  run_command-conversations :
      (handler : CommandHandler B) (tenant_id conversation_id customer_id : String)
      (command : Option ConversationCommand) (s : ConversationStore B)
      → (run_command handler tenant_id conversation_id customer_id command s).1.conversations
        ≡ s.conversations
  unfolding run_command
  run_command-conversations handler tenant_id conversation_id customer_id none s = refl
  run_command-conversations none tenant_id conversation_id customer_id (some command) s = refl
  run_command-conversations (some handler) tenant_id conversation_id customer_id (some command) s =
      refl

  pub run_command-Keeps :
      (handler : CommandHandler B) (tenant_id conversation_id customer_id : String)
      (command : Option ConversationCommand) (c : Conversation)
      → Keeps
          (IsLoaded tenant_id c)
          (run_command handler tenant_id conversation_id customer_id command)
  unfolding IsControlled
  run_command-Keeps handler tenant_id conversation_id customer_id command c = record {
    on = λ s h.
        let frame =
          run_command-conversations handler tenant_id conversation_id customer_id command s in
        record { controlled_all = rw frame h.controlled_all; at_id = rw frame h.at_id };
  }

  moved-IsControlled :
      (tenant_id : String) (c : Conversation) (state : ConversationState)
      (context : ConversationContext) (s : ConversationStore B)
      → is_human c.control_status || is_handoff c.state ≡ false
      → IsLoaded tenant_id c s
      → IsControlled (record s {
        conversations =
            update_first (is_conversation tenant_id c.id) (moved state context) s.conversations;
      })
  unfolding IsControlled
  moved-IsControlled tenant_id c state context s led h =
      let q = is_conversation tenant_id c.id in
      let consistent = every-find is_consistent q s.conversations h.controlled_all.0 h.at_id in
      (
        every-update_found is_consistent q (moved state context) s.conversations h.controlled_all.0
            h.at_id (moved-IsConsistent c state context consistent led),
        rw (are_distinct-update_first q (moved state context) s.conversations (λ d. refl))
            h.controlled_all.1,
      )

  -- A transition leaves who leads the conversation as it is.
  pub save_transition-Leads :
      (tenant_id : String) (c : Conversation) (t : TransitionResult)
      → is_human c.control_status || is_handoff c.state ≡ false
      → Leads {S = ConversationStore B}
          (IsLoaded tenant_id c)
          (save_transition tenant_id c t)
          (λ _ s. IsControlled s)
  unfolding save_transition
  save_transition-Leads tenant_id c t led =
      >>=-Leads (λ _ s. IsControlled s)
        (modify-Leads _ (λ s h. moved-IsControlled tenant_id c t.state t.context s led h))
        (λ _. Keeps-Leads (
          if-Keeps (same_state t.state c.state) (pure-Keeps tt)
            (record_conversation_history-Keeps tenant_id c.id (some c.state) t.state t.context)))
