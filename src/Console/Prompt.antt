-- ===== src/Console/Prompt.antt =====
-- Offers and the keys that answer them.
use local_chat_xxx.Common.{
  Bool, List, [], ap, false, if◌then◌else◌, none, refl, some, true, ℕ, ◌++◌, ◌==◌, ◌||◌, ◌∙◌, ◌∷◌,
  ◌≡◌,
}
use local_chat_xxx.Client.Defs.{PendingOffer, UiState, file_offer_prompt, show_offer}
use local_chat_xxx.Console.Keys.{
  Input, answer_offer, handle_file_offer_key, key_on, key_press, offer_key, on_key, posted_task,
  run, run_task, take_up,
}
use local_chat_xxx.Console.Loop.{back_prints, keys, run_on}
use local_chat_xxx.Manager.Defs.{respond_to_file_offer}
use local_chat_xxx.Console.Defs.{App, Machine, print}
use local_chat_xxx.Console.Screen.{render_file_offer}
use local_chat_xxx.Common.Bytes.{Bytes}

-- The keys that answer an offer, and the ones that do not.
pub data Answers : ℕ → Bool → Type 0 where
  lower_yes : Answers b'y' true
  upper_yes : Answers b'Y' true
  lower_no : Answers b'n' false
  upper_no : Answers b'N' false

abbrev pub Ignored : Bytes → Type 0
Ignored [] = Unit
Ignored (c ∷ cs) =
    ((c == b'y' || c == b'Y') ≡ false) × ((c == b'n' || c == b'N') ≡ false) × Ignored cs

module _ (env : Machine) where
  -- A prompt that a screen other than a prompt has made room for.
  record IsAsked (offer : PendingOffer) (u : UiState) (a : App) : Type 0 where
    asked : (a.client).pending_offer ≡ some offer
    shown : (a.client).ui_state ≡ file_offer_prompt
    below : (a.client).prior_ui_state ≡ u
    live : a.is_running ≡ true

  ignored_key :
      (c : ℕ) (offer : PendingOffer) (u : UiState) (a : App)
      → IsAsked offer u a
      → (c == b'y' || c == b'Y') ≡ false
      → (c == b'n' || c == b'N') ≡ false
      → take_up env (key_press c) a ≡ some a
  unfolding take_up on_key key_on handle_file_offer_key offer_key
  ignored_key c offer u a h y n =
      ap (λ v. key_on v env c a) h.shown
      ∙ ap (λ o. some (offer_key env.now c o a)) h.asked
      ∙ ap
          (λ t. some (
            if t
            then answer_offer env.now offer true a
            else if c == b'n' || c == b'N'
            then answer_offer env.now offer false a
            else a))
          y
      ∙ ap (λ t. some (if t then answer_offer env.now offer false a else a)) n

  Ignored-keys :
      (cs : Bytes) (is : List Input) (offer : PendingOffer) (u : UiState) (a : App)
      → IsAsked offer u a
      → Ignored cs
      → run env (keys cs ++ is) a ≡ run env is a
  Ignored-keys [] is offer u a h i = refl
  Ignored-keys (c ∷ cs) is offer u a h i =
      run_on env (key_press c) (keys cs ++ is) a a (ignored_key c offer u a h i.0 i.1) h.live
      ∙ Ignored-keys cs is offer u a h i.2

  answering_key :
      (c : ℕ) (verdict : Bool) (offer : PendingOffer) (u : UiState) (a : App)
      → IsAsked offer u a
      → Answers c verdict
      → take_up env (key_press c) a ≡ some (answer_offer env.now offer verdict a)
  unfolding take_up on_key key_on handle_file_offer_key offer_key
  answering_key c v offer u a h lower_yes =
      ap (λ x. key_on x env c a) h.shown ∙ ap (λ o. some (offer_key env.now c o a)) h.asked
  answering_key c v offer u a h upper_yes =
      ap (λ x. key_on x env c a) h.shown ∙ ap (λ o. some (offer_key env.now c o a)) h.asked
  answering_key c v offer u a h lower_no =
      ap (λ x. key_on x env c a) h.shown ∙ ap (λ o. some (offer_key env.now c o a)) h.asked
  answering_key c v offer u a h upper_no =
      ap (λ x. key_on x env c a) h.shown ∙ ap (λ o. some (offer_key env.now c o a)) h.asked

  -- An offer is shown while a screen other than a prompt is up, keys that do not answer it are
  -- pressed, then one that does. The peer that offered the file is answered, and the client is as
  -- it was: the same screen is up and no offer waits.
  pub offer_answered :
      (offer : PendingOffer) (cs : Bytes) (c : ℕ) (verdict : Bool) (a : App)
      → Ignored cs
      → Answers c verdict
      → a.is_running ≡ true
      → (b : App) × (run env (posted_task (show_offer offer) ∷ (keys cs ++ (key_press c ∷ []))) a
          ≡ some b)
        × (b.manager ≡ respond_to_file_offer env.now offer.sender offer.key verdict a.manager)
        × (b.client
            ≡ record (a.client) { pending_offer = none; prior_ui_state = (a.client).ui_state })
  unfolding take_up run run_task answer_offer render_file_offer print
  offer_answered offer cs c verdict a i v r =
      let shown = run_task env.now (show_offer offer) a in
      let asked : IsAsked offer ((a.client).ui_state) shown = record {
        asked = refl;
        shown = refl;
        below = refl;
        live = r;
      } in
      let b = answer_offer env.now offer verdict shown in
      let drawn = back_prints env ((a.client).ui_state) _ in
      (
        b,
        run_on env (posted_task (show_offer offer)) _ a shown refl r
            ∙ Ignored-keys cs (key_press c ∷ []) offer _ shown asked i
            ∙ run_on env (key_press c) [] shown b (answering_key c verdict offer _ shown asked v)
                (ap (λ (x : App). x.is_running) drawn ∙ r),
        ap (λ (x : App). x.manager) drawn,
        ap (λ (x : App). x.client) drawn,
      )
