-- ===== src/Conversation/Control.antt =====
-- Who leads a conversation (src/conversations/handoff.service.ts, conversation-engine.service.ts).
mod Handoffs
mod Steps
mod Inbound
pub mod Histories
use panalbee_clock_backend.Base.{
  ℕ, suc, zero, String, Bool, true, false, ◌&&◌, ◌||◌, not, List, [], ◌∷◌, Option, none, some, ◌≡◌,
  refl, Exception, Action, ◌==◌, eq_refl, eq_iff, ap, is_some, find, update_first, any,
  if◌then◌else◌, Bool-cases, inl, inr, arith, Keeps, modify, modify-Keeps, gets-Keeps,
  throw_if-Keeps, or_throw-Keeps, pure-Keeps, >>=-Keeps, >>-Keeps, with_transaction-Keeps, if-Keeps,
  keeps, Commits, guard-Keeps, branch-Keeps, ◌>>=◌, Option-cases, ◌>>◌,
}
use panalbee_clock_backend.Conversation.Model.{
  ConversationState, main_menu, booking_service, booking_professional, booking_date, booking_time,
  booking_customer_data, booking_confirmation, reschedule_select_appointment, reschedule_date,
  reschedule_time, cancel_select_appointment, cancel_confirmation, human_handoff, state_name,
  ConversationControl, bot, human, ConversationContext, ConversationCommand, create_booking,
  reschedule_booking, cancel_booking, NormalizedInput, text_input, selection, ReplyIntent,
  text_reply, interactive, TransitionResult, set_key, field_of, is_blank,
}
use panalbee_clock_backend.Conversation.Store.{
  Conversation, ConversationStore, ConversationAudit, record_conversation_history,
  require_active_tenant_member, record_conversation_audit,
}
use panalbee_clock_backend.Conversation.Handoff.{
  is_human, is_handoff, is_conversation, controlled, load, update_control, request_new, request,
  claim_new, claim, reassign, release,
}

-- A person leads exactly the conversations that have an assignee, and these wait in HUMAN_HANDOFF.
unfoldable pub is_consistent : Conversation → Bool
is_consistent c =
    if is_human c.control_status
    then is_some c.assigned_to && is_handoff c.state
    else not (is_some c.assigned_to)

abbrev every : (Conversation → Bool) → List Conversation → Bool
every p [] = true
every p (c ∷ cs) = p c && every p cs

abbrev pub has_id : String → List Conversation → Bool
has_id id cs = any (λ c. c.id == id) cs

-- The index `_id_`.
abbrev are_distinct : List Conversation → Bool
are_distinct [] = true
are_distinct (c ∷ cs) = not (has_id c.id cs) && are_distinct cs

unfoldable pub IsControlled : {B : Type 0} → ConversationStore B → Type 0
IsControlled s =
    (every is_consistent s.conversations ≡ true) × (are_distinct s.conversations ≡ true)

-- A write that keeps the ids.
any_id-update_first :
    (q : Conversation → Bool) (f : Conversation → Conversation) (id : String)
    (cs : List Conversation)
    → ((c : Conversation) → (f c).id ≡ c.id)
    → has_id id (update_first q f cs) ≡ has_id id cs
any_id-update_first q f id [] k = refl
any_id-update_first q f id (c ∷ cs) k = elim (Bool-cases (q c)) [
  | inl hit ↦ rw (hit, k c) refl
  | inr miss ↦ rw (miss, any_id-update_first q f id cs k) refl
]

pub are_distinct-update_first :
    (q : Conversation → Bool) (f : Conversation → Conversation) (cs : List Conversation)
    → ((c : Conversation) → (f c).id ≡ c.id)
    → are_distinct (update_first q f cs) ≡ are_distinct cs
are_distinct-update_first q f [] k = refl
are_distinct-update_first q f (c ∷ cs) k = elim (Bool-cases (q c)) [
  | inl hit ↦ rw (hit, k c) refl
  | inr miss ↦ rw (miss, any_id-update_first q f c.id cs k, are_distinct-update_first q f cs k) refl
]

every-update_first :
    (p q : Conversation → Bool) (f : Conversation → Conversation) (cs : List Conversation)
    → ((c : Conversation) → p c ≡ true → p (f c) ≡ true)
    → every p cs ≡ true
    → every p (update_first q f cs) ≡ true
every-update_first p q f [] k h = refl
every-update_first p q f (c ∷ cs) k h = elim (Bool-cases (p c)) [
  | inr bad ↦ cc (rw bad at h)
  | inl good ↦
      let rest = every-update_first p q f cs k (rw good at h) in
      elim (Bool-cases (q c)) [
        | inl hit ↦ rw (hit, k c good) (rw good at h)
        | inr miss ↦ rw (miss, good) rest
      ]
]

pub every-find :
    (p q : Conversation → Bool) (cs : List Conversation) {c : Conversation}
    → every p cs ≡ true
    → find q cs ≡ some c
    → p c ≡ true
every-find p q [] h e = cc
every-find p q (d ∷ ds) {c} h e = elim (Bool-cases (p d)) [
  | inr bad ↦ cc (rw bad at h)
  | inl good ↦ elim (Bool-cases (q d)) [
    | inl hit ↦
        let found : some d ≡ some c = rw hit at e in let same : d ≡ c = cc in rw (← same) good
    | inr miss ↦ every-find p q ds (rw good at h) (rw miss at e)
  ]
]

module _ {B : Type 0} where
  pub record_conversation_history-Keeps :
      (tenant_id conversation_id : String) (from_state : Option ConversationState)
      (to_state : ConversationState) (context : ConversationContext)
      → Keeps {S = ConversationStore B} IsControlled
          (record_conversation_history tenant_id conversation_id from_state to_state context)
  unfolding record_conversation_history IsControlled
  record_conversation_history-Keeps tenant_id conversation_id from_state to_state context =
      modify-Keeps _ (λ s h. h)

  pub require_active_tenant_member-Keeps :
      (tenant_id user_id : String)
      → Keeps {S = ConversationStore B} IsControlled
          (require_active_tenant_member tenant_id user_id)
  unfolding require_active_tenant_member
  require_active_tenant_member-Keeps tenant_id user_id = search keeps

  load-Keeps :
      (tenant_id conversation_id : String)
      → Keeps {S = ConversationStore B} IsControlled (load tenant_id conversation_id)
  unfolding load
  load-Keeps tenant_id conversation_id = search keeps

  -- A write that leaves every conversation consistent.
  write-Keeps :
      (q : Conversation → Bool) (f : Conversation → Conversation)
      → ((c : Conversation) → (f c).id ≡ c.id)
      → ((c : Conversation) → is_consistent c ≡ true → is_consistent (f c) ≡ true)
      → Keeps {S = ConversationStore B} IsControlled
          (modify (λ s. record s { conversations = update_first q f s.conversations }))
  unfolding IsControlled
  write-Keeps q f same k = modify-Keeps _ (λ s h. (
    every-update_first is_consistent q f s.conversations k h.0,
    rw (are_distinct-update_first q f s.conversations same) h.1,
  ))

  pub update_control-Keeps :
      (tenant_id conversation_id : String) (state : ConversationState)
      (control : ConversationControl) (assigned : Option String) (context : ConversationContext)
      → ((c : Conversation) → is_consistent (controlled state control assigned context c) ≡ true)
      → Keeps {S = ConversationStore B} IsControlled
          (update_control tenant_id conversation_id state control assigned context)
  unfolding update_control
  update_control-Keeps tenant_id conversation_id state control assigned context k =
      >>-Keeps (write-Keeps _ _ (λ c. refl) (λ c h. k c)) (load-Keeps tenant_id conversation_id)

  pub record_conversation_audit-Keeps :
      (a : ConversationAudit)
      → Keeps {S = ConversationStore B} IsControlled (record_conversation_audit a)
  unfolding record_conversation_audit IsControlled
  record_conversation_audit-Keeps a = modify-Keeps _ (λ s h. h)

  -- What follows a load may use that the conversation is consistent.
  pub load-then :
      {A : Type 0} (tenant_id conversation_id : String)
      (k : Conversation → Action (ConversationStore B) A)
      → ((c : Conversation) → is_consistent c ≡ true → Keeps IsControlled (k c))
      → Keeps IsControlled (load tenant_id conversation_id >>= k)
  unfolding load IsControlled
  load-then tenant_id conversation_id k h = record {
    on = λ s p.
        elim (Option-cases (find (is_conversation tenant_id conversation_id) s.conversations)) [
          | inl missing ↦ rw missing p
          | inr (c, found) ↦
              rw found ((h c (every-find is_consistent _ s.conversations p.0 found)).on s p)
        ];
  }

find-any :
    (q r : Conversation → Bool) (cs : List Conversation) {c : Conversation}
    → find q cs ≡ some c
    → r c ≡ true
    → any r cs ≡ true
find-any q r [] found h = cc
find-any q r (d ∷ ds) {c} found h = elim (Bool-cases (q d)) [
  | inl hit ↦
      let head : some d ≡ some c = rw hit at found in
      let same : d ≡ c = cc in let holds : r d ≡ true = rw same h in rw holds refl
  | inr miss ↦ let later = find-any q r ds (rw miss at found) h in ground arith
]

are_distinct-tail :
    (d : Conversation) (ds : List Conversation)
    → are_distinct (d ∷ ds) ≡ true
    → are_distinct ds ≡ true
are_distinct-tail d ds h = ground arith

-- Two conversations of a list without repetition have two ids.
distinct_ids :
    (d c : Conversation) (ds : List Conversation)
    → ((c.id == d.id) ≡ true → has_id d.id ds ≡ true)
    → are_distinct (d ∷ ds) ≡ true
    → (d.id == c.id) ≡ false
distinct_ids d c ds later h = ground (arith, eq_iff d.id c.id, eq_refl c.id)

-- Where no two conversations have one id, a conversation that is found is found by its id too.
pub find-by_id :
    (q : Conversation → Bool) (cs : List Conversation) {c : Conversation}
    → find q cs ≡ some c
    → are_distinct cs ≡ true
    → find (is_conversation c.tenant_id c.id) cs ≡ some c
find-by_id q [] found h = cc
find-by_id q (d ∷ ds) {c} found h = elim (Bool-cases (q d)) [
  | inl hit ↦
      let head : some d ≡ some c = rw hit at found in
      let same : d ≡ c = cc in
      let hit_id : is_conversation c.tenant_id c.id d ≡ true =
        rw same (rw (eq_refl c.id, eq_refl c.tenant_id) refl) in
      rw hit_id (ap some same)
  | inr miss ↦
      let later = find-by_id q ds (rw miss at found) (are_distinct-tail d ds h) in
      let other = distinct_ids d c ds (find-any q (λ e. e.id == d.id) ds (rw miss at found)) h in
      rw other later
]

every-head :
    (p : Conversation → Bool) (d : Conversation) (ds : List Conversation)
    → every p (d ∷ ds) ≡ true
    → p d && true ≡ true
every-head p d ds h = ground arith

every-tail :
    (p : Conversation → Bool) (d : Conversation) (ds : List Conversation)
    → every p (d ∷ ds) ≡ true
    → every p ds ≡ true
every-tail p d ds h = ground arith

-- The write of a conversation that is found.
pub every-update_found :
    (p q : Conversation → Bool) (f : Conversation → Conversation) (cs : List Conversation)
    {c : Conversation}
    → every p cs ≡ true
    → find q cs ≡ some c
    → p (f c) ≡ true
    → every p (update_first q f cs) ≡ true
every-update_found p q f [] h found good = refl
every-update_found p q f (d ∷ ds) {c} h found good = elim (Bool-cases (q d)) [
  | inl hit ↦
      let head : some d ≡ some c = rw hit at found in
      let same : d ≡ c = cc in
      let written : p (f d) ≡ true = rw same good in rw (hit, written) (every-tail p d ds h)
  | inr miss ↦
      let later = every-update_found p q f ds (every-tail p d ds h) (rw miss at found) good in
      rw (miss, later) (every-head p d ds h)
]
