-- ===== src/Conversation/Once/Twice.antt =====
-- The second call with a provider's event (src/conversations/conversation-engine.service.ts).
use panalbee_clock_backend.Base.{
  ℕ, suc, zero, String, true, false, ◌&&◌, ◌∷◌, Option, none, some, ◌≡◌, refl, ap, Exception,
  Action, Result, ok, err, duplicate_key, find, any, if◌then◌else◌, Bool-cases, Option-cases,
  Result-cases, inl, inr, arith, ◌==◌, eq_refl, Leads, >>=-Leads, settle_ok, settle_err,
  is_named_duplicate_key, pure, throw, ltb,
}
use panalbee_clock_backend.Conversation.Store.{Channel, ProviderEvent, ConversationStore}
use panalbee_clock_backend.Conversation.Engine.{
  NormalizedInboundEvent, NewIds, InboundProcessingResult, provider_event_index, is_active_channel,
  resolve_channel, save_event,
}
use panalbee_clock_backend.Conversation.Inbound.{
  CommandHandler, is_identity_race, duplicate_result, process_transaction, attempt_loop,
  process_inbound,
}
use panalbee_clock_backend.Conversation.Once.{HasEvent, receive-Keeps}

module _ {B : Type 0} (channel_type account event_key : String) (channel : Channel) where
  save_event_ok :
      (e : ProviderEvent) (s : ConversationStore B)
      → (save_event e s).0 ≡ ok tt
      → let s' = (save_event e s).1 in
        (s'.channels ≡ s.channels) × (s'.tenants ≡ s.tenants) × (s'.events ≡ e ∷ s.events)
  unfolding save_event
  save_event_ok e s h = ground arith

  IsResolved : ConversationStore B → Type 0
  IsResolved s =
      (find (is_active_channel channel_type account) s.channels ≡ some channel)
      × (any (λ t. t.id == channel.tenant_id && t.is_active) s.tenants ≡ true)

  save_event-Leads :
      (event_id payload_hash : String) (processed_at : Option ℕ)
      → Leads IsResolved
          (save_event (record {
            id = event_id;
            tenant_id = channel.tenant_id;
            channel_id = channel.id;
            provider_event_id = event_key;
            payload_hash = payload_hash;
            processed_at = processed_at;
          }))
          (λ _ s. HasEvent channel_type account event_key channel s)
  unfolding IsResolved
  save_event-Leads event_id payload_hash processed_at = record {
    on = λ s h done e.
        let (channels, tenants, events) = save_event_ok _ s e in
        record {
          resolves = rw channels h.0;
          active = rw tenants h.1;
          stored =
              rw (events, eq_refl channel.tenant_id, eq_refl channel.id, eq_refl event_key) refl;
        };
  }

  -- The event is refused by its index.
  event_refused :
      (handler : CommandHandler B) (ids : NewIds) (now : ℕ) (event : NormalizedInboundEvent)
      (payload_hash : String) (s : ConversationStore B)
      → event.external_account_id ≡ account
      → event.provider_event_id ≡ event_key
      → HasEvent channel_type account event_key channel s
      → any (λ f. f.id == ids.event_id) s.events ≡ false
      → (process_transaction handler ids now channel_type event payload_hash s).0
        ≡ err (duplicate_key provider_event_index)
  unfolding process_transaction resolve_channel save_event
  event_refused handler ids now event payload_hash s its_account its_key h fresh =
      rw (its_account, its_key, h.resolves, h.active, fresh, h.stored) refl

not_first :
    (r : InboundProcessingResult)
    → r.duplicate ≡ false
    → ◌≡◌ {A = Result InboundProcessingResult} (ok duplicate_result) (ok r)
    → ⊥
not_first r first h =
    let same : duplicate_result ≡ r = cc in
    let duplicate : true ≡ r.duplicate = ap (λ r. r.duplicate) same in cc

module _ {B : Type 0} where
  resolve_channel_ok :
      (channel_type account event_key : String) (s : ConversationStore B) (ch : Channel)
      → (resolve_channel channel_type account s).0 ≡ ok ch
      → IsResolved channel_type account event_key ch (resolve_channel channel_type account s).1
  unfolding resolve_channel IsResolved
  resolve_channel_ok channel_type account event_key s ch h =
      elim (Option-cases (find (is_active_channel channel_type account) s.channels)) [
        | inl missing ↦ cc (rw missing at h)
        | inr (c, found) ↦
            elim (Bool-cases (any (λ t. t.id == c.tenant_id && t.is_active) s.tenants)) [
              | inr closed ↦ cc (rw (found, closed) at h)
              | inl active ↦
                  let answer : ◌≡◌ {A = Result Channel} (ok c) (ok ch) = rw (found, active) at h in
                  let same : c ≡ ch = cc in
                  let there : find (is_active_channel channel_type account) s.channels ≡ some ch =
                    rw same at found in
                  let open_tenant : any (λ t. t.id == ch.tenant_id && t.is_active) s.tenants
                      ≡ true =
                    rw same at active in
                  rw (there, open_tenant) (there, open_tenant)
            ]
      ]

  -- Some channel has the event.
  abbrev IsStored : String → NormalizedInboundEvent → ConversationStore B → Type 0
  IsStored channel_type event s =
      (ch : Channel) × HasEvent channel_type event.external_account_id event.provider_event_id ch s

  process_transaction-Leads :
      (handler : CommandHandler B) (ids : NewIds) (now : ℕ) (channel_type : String)
      (event : NormalizedInboundEvent) (payload_hash : String)
      → Leads
          (λ _. Unit {0})
          (process_transaction handler ids now channel_type event payload_hash)
          (λ _ s. IsStored channel_type event s)
  unfolding process_transaction
  process_transaction-Leads handler ids now channel_type event payload_hash =
      let account = event.external_account_id in
      let key = event.provider_event_id in
      >>=-Leads (λ ch s. IsResolved channel_type account key ch s)
        (record { on = λ s p ch e. resolve_channel_ok channel_type account key s ch e })
        (λ ch.
          >>=-Leads (λ _ s. HasEvent channel_type account key ch s)
            (save_event-Leads channel_type account key ch ids.event_id payload_hash none)
            (λ _. record {
              on = λ s h r e.
                  (ch, (receive-Keeps channel_type account key ch handler ids now event ch).on s h);
            }))

  no_attempt :
      (work : Action (ConversationStore B) InboundProcessingResult) (s : ConversationStore B)
      (r : InboundProcessingResult)
      → (attempt_loop (λ n s. s) work 0 s).0 ≡ ok r
      → ⊥
  unfolding attempt_loop
  no_attempt work s r h = cc

  attempt_loop_done :
      (work : Action (ConversationStore B) InboundProcessingResult) (left : ℕ)
      (s : ConversationStore B) {r : InboundProcessingResult}
      → (work s).0 ≡ ok r
      → attempt_loop (λ n s. s) work (suc left) s ≡ (ok r, (work s).1)
  unfolding attempt_loop
  attempt_loop_done work left s done = rw (settle_ok s (work s) done) refl

  attempt_loop_failed :
      (work : Action (ConversationStore B) InboundProcessingResult) (left : ℕ)
      (s : ConversationStore B) {e : Exception}
      → (work s).0 ≡ err e
      → attempt_loop (λ n s. s) work (suc left) s
        ≡ (if is_named_duplicate_key e provider_event_index
              then pure duplicate_result
              else if ltb 0 left && is_identity_race e
              then attempt_loop (λ n s. s) work left
              else throw e)
            s
  unfolding attempt_loop
  attempt_loop_failed work left s failed = rw (settle_err s (work s) failed) refl

  attempt_loop-IsStored :
      (channel_type : String) (event : NormalizedInboundEvent)
      (work : Action (ConversationStore B) InboundProcessingResult) (left : ℕ)
      (s : ConversationStore B) (r : InboundProcessingResult)
      → Leads (λ _. Unit {0}) work (λ _ s. IsStored channel_type event s)
      → (attempt_loop (λ n s. s) work left s).0 ≡ ok r
      → r.duplicate ≡ false
      → IsStored channel_type event (attempt_loop (λ n s. s) work left s).1
  attempt_loop-IsStored channel_type event work zero s r leads h first =
      absurd (no_attempt work s r h)
  attempt_loop-IsStored channel_type event work (suc left) s r leads h first =
      elim (Result-cases (work s).0) [
        | inl (made, done) ↦ rw (attempt_loop_done work left s done) (leads.on s tt made done)
        | inr (e, failed) ↦
            let retried = attempt_loop_failed work left s failed in
            elim (Bool-cases (is_named_duplicate_key e provider_event_index)) [
              | inl duplicate ↦ absurd (not_first r first (rw (retried, duplicate) at h))
              | inr other ↦ elim (Bool-cases (ltb 0 left && is_identity_race e)) [
                | inl race ↦
                    rw (retried, other, race)
                      (attempt_loop-IsStored channel_type event work left s r leads
                        (rw (retried, other, race) at h) first)
                | inr thrown ↦ cc (rw (retried, other, thrown) at h)
              ]
            ]
      ]

-- An event that has been processed is not processed again: a second call, of any time, with other new
-- ids and any payload hash, answers that it is a duplicate and leaves the store as it is. The id of the
-- second provider event must be new, and no other transaction commits between the attempts.
pub inbound_twice :
    {B : Type 0} (handler : CommandHandler B) (ids ids' : NewIds) (now now' : ℕ)
    (channel_type : String) (event : NormalizedInboundEvent) (payload_hash payload_hash' : String)
    (s : ConversationStore B) (r : InboundProcessingResult)
    → let (answer, s') =
        process_inbound (λ n s. s) handler ids now channel_type event payload_hash s in
      answer ≡ ok r
      → r.duplicate ≡ false
      → any (λ f. f.id == ids'.event_id) s'.events ≡ false
      → process_inbound (λ n s. s) handler ids' now' channel_type event payload_hash' s'
        ≡ (ok duplicate_result, s')
unfolding process_inbound
inbound_twice handler ids ids' now now' channel_type event payload_hash payload_hash' s r h first
      fresh =
    let work = process_transaction handler ids now channel_type event payload_hash in
    let again = process_transaction handler ids' now' channel_type event payload_hash' in
    let (ch, stored) =
      attempt_loop-IsStored channel_type event work 3 s r
        (process_transaction-Leads handler ids now channel_type event payload_hash) h first in
    let refused =
      event_refused channel_type event.external_account_id event.provider_event_id ch handler ids'
        now' event payload_hash' (attempt_loop (λ n s. s) work 3 s).1 refl refl stored fresh in
    attempt_loop_failed again 2 (attempt_loop (λ n s. s) work 3 s).1 refused
