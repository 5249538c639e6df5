-- ===== src/Console/Loop.antt =====
-- Rounds of the event loop, and drawing.
use local_chat_xxx.Console.Screen.{print_all, render, render_chat, render_file_offer, render_in}
use local_chat_xxx.Common.{List, [], ap, if◌then◌else◌, refl, some, true, ℕ, ◌∙◌, ◌∷◌, ◌≡◌}
use local_chat_xxx.Console.Keys.{Input, back_from_offer, key_press, run, take_up}
use local_chat_xxx.Common.Bytes.{Bytes}
use local_chat_xxx.Client.Defs.{UiState, chat, file_offer_prompt, main_menu}
use local_chat_xxx.Console.Defs.{App, Machine, print}
use local_chat_xxx.Common.Results.{◌>>=◌}

-- Drawing a screen only prints.
pub render_prints : (now : ℕ) (a : App) → render now a ≡ record a { out = (render now a).out }
unfolding render render_in print_all render_chat render_file_offer print
render_prints now a = drawn ((a.client).ui_state)
  where
    drawn : (u : UiState) → render_in u now a ≡ record a { out = (render_in u now a).out }
    drawn main_menu = refl
    drawn chat = refl
    drawn file_offer_prompt = refl

pub render_client : (now : ℕ) (a : App) → (render now a).client ≡ a.client
render_client now a = ap (λ (b : App). b.client) (render_prints now a)

abbrev pub keys : Bytes → List Input
keys [] = []
keys (c ∷ cs) = key_press c ∷ keys cs

module _ (env : Machine) where
  -- One round of the event loop that leaves the program running.
  pub run_on :
      (i : Input) (is : List Input) (a b : App)
      → take_up env i a ≡ some b
      → b.is_running ≡ true
      → run env (i ∷ is) a ≡ run env is b
  unfolding run
  run_on i is a b e r =
      ap (λ o. o >>= λ a'. if a'.is_running then run env is a' else some a') e
      ∙ ap (λ t. if t then run env is b else some b) r

  pub back_prints :
      (u : UiState) (a : App)
      → back_from_offer env.now u a ≡ record a { out = (back_from_offer env.now u a).out }
  unfolding back_from_offer
  back_prints file_offer_prompt a = refl
  back_prints main_menu a = render_prints env.now a
  back_prints chat a = render_prints env.now a
