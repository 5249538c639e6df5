-- ===== src/Console/Stuck.antt =====
-- A second offer while a prompt is up.
use local_chat_xxx.Common.{
  Bool, List, Option, [], ap, false, if-cases, none, refl, some, subst, sym, true, ℕ, ◌&&◌, ◌++◌,
  ◌==◌, ◌||◌, ◌∙◌, ◌∷◌, ◌≡◌,
}
use local_chat_xxx.Console.Keys.{
  Input, answer_offer, back_from_offer, handle_file_offer_key, is_chat, key_on, key_press,
  new_message_from, offer_key, on_key, posted_task, run, run_task, take_up,
}
use local_chat_xxx.Console.Screen.{print_all, render, render_chat, render_file_offer}
use local_chat_xxx.Console.Loop.{render_prints, run_on}
use local_chat_xxx.Console.Defs.{App, Machine, print, with_ui}
use local_chat_xxx.Client.Defs.{PendingOffer, file_offer_prompt, show_message, show_offer}
use local_chat_xxx.Common.Bytes.{bytes_beq}

-- The prompt is up, and it is also the screen to go back to.
pub record IsStuck (a : App) : Type 0 where
  pub prompting : (a.client).ui_state ≡ file_offer_prompt
  pub returning : (a.client).prior_ui_state ≡ file_offer_prompt
  pub running : a.is_running ≡ true

module _ (env : Machine) where
  render-IsStuck : (a : App) → IsStuck a → IsStuck (render env.now a)
  render-IsStuck a h =
      subst IsStuck (sym (render_prints env.now a))
        (record { prompting = h.prompting; returning = h.returning; running = h.running })

  answered-IsStuck :
      (offer : PendingOffer) (verdict : Bool) (a : App)
      → IsStuck a
      → IsStuck (answer_offer env.now offer verdict a)
  unfolding answer_offer back_from_offer print
  answered-IsStuck offer verdict a h =
      rw (h.returning) (record { prompting = refl; returning = refl; running = h.running })

  offer_key-IsStuck :
      (c : ℕ) (o : Option PendingOffer) (a : App) → IsStuck a → IsStuck (offer_key env.now c o a)
  unfolding offer_key with_ui
  offer_key-IsStuck c none a h =
      render-IsStuck _
        (record { prompting = h.returning; returning = h.returning; running = h.running })
  offer_key-IsStuck c (some offer) a h =
      if-cases IsStuck (c == b'y' || c == b'Y') (λ _. answered-IsStuck offer true a h)
        (λ _.
          if-cases IsStuck (c == b'n' || c == b'N') (λ _. answered-IsStuck offer false a h)
            (λ _. h))

  take_up-IsStuck :
      (i : Input) (a : App) → IsStuck a → (b : App) × (take_up env i a ≡ some b) × IsStuck b
  unfolding take_up on_key key_on handle_file_offer_key run_task render_chat print_all
      render_file_offer print
  take_up-IsStuck (key_press c) a h = (
    _,
    ap (λ u. key_on u env c a) h.prompting,
    offer_key-IsStuck c ((a.client).pending_offer) a h,
  )
  take_up-IsStuck (posted_task (show_message sender text)) a h = (
    _,
    refl,
    if-cases IsStuck
        (is_chat (a.client).ui_state && bytes_beq (a.client).active_chat_service sender)
        (λ _. record { prompting = h.prompting; returning = h.returning; running = h.running })
        (λ _.
          render-IsStuck
            (record a {
              client = record (a.client) {
                last_notification = new_message_from ++ sender ++ (b':' ∷ b' ' ∷ []) ++ text;
              };
            })
            (record { prompting = h.prompting; returning = h.returning; running = h.running })),
  )
  take_up-IsStuck (posted_task (show_offer offer)) a h =
      (_, refl, record { prompting = refl; returning = h.prompting; running = h.running })

  run-IsStuck :
      (is : List Input) (a : App) → IsStuck a → (b : App) × (run env is a ≡ some b) × IsStuck b
  unfolding run
  run-IsStuck [] a h = (a, refl, h)
  run-IsStuck (i ∷ is) a h =
      let first = take_up-IsStuck i a h in
      let rest = run-IsStuck is first.0 first.2 in
      (rest.0, run_on env i is a first.0 first.1 (first.2).running ∙ rest.1, rest.2)

  -- A second offer that comes while the prompt for the first is up: whatever keys are pressed and
  -- whatever else is posted after it, the prompt stays the screen and the program goes on running,
  -- so no key leaves the prompt or quits.
  pub second_offer_stays :
      (offer : PendingOffer) (is : List Input) (a : App)
      → (a.client).ui_state ≡ file_offer_prompt
      → a.is_running ≡ true
      → (b : App) × (run env (posted_task (show_offer offer) ∷ is) a ≡ some b)
        × ((b.client).ui_state ≡ file_offer_prompt)
        × (b.is_running ≡ true)
  unfolding take_up run_task render_file_offer print
  second_offer_stays offer is a u r =
      let left =
        run-IsStuck is (run_task env.now (show_offer offer) a)
          (record { prompting = refl; returning = u; running = r }) in
      (
        left.0,
        run_on env (posted_task (show_offer offer)) is a _ refl r ∙ left.1,
        (left.2).prompting,
        (left.2).running,
      )
