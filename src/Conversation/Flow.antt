-- ===== src/Conversation/Flow.antt =====
-- Whole dialogues with the machine (src/conversations/conversation-state-machine.ts).
use panalbee_clock_backend.Base.{
  ℕ, String, Bool, true, false, List, [], ◌∷◌, ◌++◌, Option, none, some, ◌≡◌, ◌⊎◌, refl, sym, ◌==◌,
  Bool-cases, inl, inr, beq→eq, any, beq,
}
use panalbee_clock_backend.Base.Text.{codes}
use panalbee_clock_backend.Conversation.Model.{
  ConversationState, main_menu, ConversationContext, ConversationCommand, create_booking,
  NormalizedInput, ReplyIntent,
}
use panalbee_clock_backend.Conversation.Machine.{
  input_value, command_key, same_codes, is_one_of, main_menu_step, booking_confirmation_step,
  state_step, transition_conversation,
}

-- What is left of a dialogue: the state, the context and the commands that were issued.
pub record Dialogue : Type 0 where
  pub state : ConversationState
  pub context : ConversationContext
  pub commands : List ConversationCommand
  pub replies : List ReplyIntent

abbrev command_list : Option ConversationCommand → List ConversationCommand
command_list none = []
command_list (some c) = c ∷ []

-- The machine on a sequence of inputs, each from where the one before left it.
unfoldable pub converse : ConversationState → ConversationContext → List NormalizedInput → Dialogue
converse state context [] = record { state = state; context = context; commands = []; replies = [] }
converse state context (input ∷ inputs) =
    let r = transition_conversation state context input in
    let rest = converse r.state r.context inputs in
    record rest {
      commands = command_list r.command ++ rest.commands;
      replies = r.replies ++ rest.replies;
    }

same_codes→eq : (xs ys : List ℕ) → same_codes xs ys ≡ true → xs ≡ ys
same_codes→eq [] [] h = refl
same_codes→eq [] (_ ∷ _) h = cc
same_codes→eq (_ ∷ _) [] h = cc
same_codes→eq (x ∷ xs) (y ∷ ys) h = elim (Bool-cases (beq x y)) [
  | inl same ↦ let rest = same_codes→eq xs ys (rw same at h) in rw (beq→eq x y same, rest) refl
  | inr other ↦ cc (rw other at h)
]

abbrev is_main_menu : NormalizedInput → Bool
is_main_menu input = is_one_of ("main_menu" ∷ []) input

abbrev confirms_booking : NormalizedInput → Bool
confirms_booking input = is_one_of ("confirm" ∷ "yes" ∷ "book_now" ∷ []) input

-- An input whose key is known.
is_one_of-key :
    (words : List String) (input : NormalizedInput) (key : List ℕ)
    → command_key input ≡ key
    → is_one_of words input ≡ any (λ w. same_codes (codes w) key) words
unfolding is_one_of
is_one_of-key words input key h = rw h

confirms_booking-cases :
    (input : NormalizedInput)
    → confirms_booking input ≡ true
    → (command_key input ≡ codes "confirm")
      ⊎ ((command_key input ≡ codes "yes") ⊎ (command_key input ≡ codes "book_now"))
unfolding is_one_of
confirms_booking-cases input h =
    elim (Bool-cases (same_codes (codes "confirm") (command_key input))) [
      | inl same ↦ inl (sym (same_codes→eq _ _ same))
      | inr not_confirm ↦ elim (Bool-cases (same_codes (codes "yes") (command_key input))) [
        | inl same ↦ inr (inl (sym (same_codes→eq _ _ same)))
        | inr not_yes ↦ elim (Bool-cases (same_codes (codes "book_now") (command_key input))) [
          | inl same ↦ inr (inr (sym (same_codes→eq _ _ same)))
          | inr not_now ↦ cc (rw (not_confirm, not_yes, not_now) at h)
        ]
      ]
    ]

-- A confirmation is none of the other words.
confirms_booking-others :
    (input : NormalizedInput)
    → confirms_booking input ≡ true
    → (is_main_menu input ≡ false)
      × (is_one_of ("modify" ∷ "change" ∷ "back" ∷ []) input ≡ false)
      × (is_one_of ("menu" ∷ "stop" ∷ "abort" ∷ []) input ≡ false)
unfolding codes
confirms_booking-others input h = elim (confirms_booking-cases input h) [
  | inl e ↦ (is_one_of-key _ input _ e, is_one_of-key _ input _ e, is_one_of-key _ input _ e)
  | inr (inl e) ↦ (is_one_of-key _ input _ e, is_one_of-key _ input _ e, is_one_of-key _ input _ e)
  | inr (inr e) ↦ (is_one_of-key _ input _ e, is_one_of-key _ input _ e, is_one_of-key _ input _ e)
]

-- An answer to a question: not the main menu, and not blank.
pub record IsAnswer (input : NormalizedInput) : Type 0 where
  pub stays : is_main_menu input ≡ false
  pub said : (input_value input == "") ≡ false

-- From the main menu, the word for a booking, five answers and a confirmation issue the booking of
-- these answers, and lead back to the main menu with an empty context.
pub booking_dialogue :
    (context : ConversationContext)
    (choice service professional date time customer confirmation : NormalizedInput)
    → is_main_menu choice ≡ false
    → is_one_of ("book" ∷ "booking" ∷ "book_appointment" ∷ "1" ∷ []) choice ≡ true
    → IsAnswer service
    → IsAnswer professional
    → IsAnswer date
    → IsAnswer time
    → IsAnswer customer
    → confirms_booking confirmation ≡ true
    → let r =
        converse main_menu context
          (choice ∷ service ∷ professional ∷ date ∷ time ∷ customer ∷ confirmation ∷ []) in
      (r.state ≡ main_menu)
      × (r.context ≡ [])
      × (r.commands
          ≡ create_booking
              (input_value service)
              (input_value professional)
              (input_value date)
              (input_value time)
              (input_value customer)
            ∷ [])
unfolding converse transition_conversation state_step main_menu_step booking_confirmation_step
booking_dialogue context choice service professional date time customer confirmation c b s p d t u
      h =
    let (f, g, k) = confirms_booking-others confirmation h in
    rw
      (
        c, b, s.stays, p.stays, d.stays, t.stays, u.stays, f, g, k, h, s.said, p.said, d.said,
        t.said, u.said,
      )
      (refl, refl, refl)
