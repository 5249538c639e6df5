-- ===== src/Console/Turns.antt =====
-- What a round of the event loop leaves alone.
use local_chat_xxx.Client.Defs.{
  Client, PendingOffer, Task, UiState, chat, file_offer_prompt, main_menu, show_message, show_offer,
}
use local_chat_xxx.Console.Lines.{send_chat_line}
use local_chat_xxx.Common.{
  Bool, List, Option, [], false, if-cases, none, refl, some, true, ℕ, ◌&&◌, ◌==◌, ◌||◌, ◌∷◌,
}
use local_chat_xxx.Console.Keys.{
  Input, answer_offer, back_from_offer, enter_line, handle_chat_key, handle_file_offer_key, is_chat,
  is_print, key_on, key_press, leave_chat, offer_key, on_key, posted_task, quit_line, redraw_line,
  rub_out, run_task, take_up, type_char,
}
use local_chat_xxx.Manager.Steps.{goes_on, responded}
use local_chat_xxx.Console.Keeps.{
  Keeps, KeepsSome, Keeps-some, keeps_bind, Keeps-refl, Keeps-render, Keeps-trans, menu-Keeps,
  send_line_on-Keeps,
}
use local_chat_xxx.Console.Defs.{App, Item, Machine, print, with_ui}
use local_chat_xxx.Common.Bytes.{Bytes, bytes_beq}
use local_chat_xxx.Console.Screen.{print_all, render_chat, render_file_offer}
use local_chat_xxx.Session.Defs.{is_null}

module _ (name : Bytes) where
  render_chat-Keeps : (now : ℕ) (a : App) → Keeps name a (render_chat now a)
  unfolding render_chat print_all print
  render_chat-Keeps now a = record { services = refl; host = refl; managed = λ r. r }

  client-Keeps :
      (a : App) (c : Client) (o : List Item) → Keeps name a (record a { client = c; out = o })
  client-Keeps a c o = record { services = refl; host = refl; managed = λ r. r }

  enter_line-Keeps :
      (env : Machine) (line : Bytes) (a : App) → KeepsSome name a (enter_line env line a)
  unfolding enter_line leave_chat send_chat_line
  enter_line-Keeps env line a =
      if-cases (KeepsSome name a) (bytes_beq line quit_line)
        (λ _. Keeps-some name a _ (Keeps-render name env.now a _ (client-Keeps a _ a.out)))
        (λ _.
          if-cases (KeepsSome name a) (is_null line || bytes_beq line redraw_line)
            (λ _. Keeps-some name a _ (render_chat-Keeps env.now a))
            (λ _.
              keeps_bind name a (send_chat_line env (a.client).active_chat_service line a) _ (λ b e.
                Keeps-some name a _ (
                  Keeps-trans name
                    (send_line_on-Keeps name env (a.client).active_chat_service line _ _ a b e)
                    (render_chat-Keeps env.now b)))))

  chat_key-Keeps : (env : Machine) (c : ℕ) (a : App) → KeepsSome name a (handle_chat_key env c a)
  unfolding handle_chat_key print type_char rub_out
  chat_key-Keeps env c a =
      if-cases (KeepsSome name a) (c == 10 || c == 13)
        (λ _ b e.
          Keeps-trans name (client-Keeps a _ _) (enter_line-Keeps env (a.client).input_line _ b e))
        (λ _.
          if-cases (KeepsSome name a) (c == 127 || c == 8)
            (λ _. Keeps-some name a _ (rubbed (a.client).input_line))
            (λ _.
              if-cases (KeepsSome name a) (is_print c)
                (λ _. Keeps-some name a _ (client-Keeps a _ _))
                (λ _. Keeps-some name a a (Keeps-refl name a))))
    where
      rubbed : (line : Bytes) → Keeps name a (rub_out line a)
      rubbed [] = Keeps-refl name a
      rubbed (x ∷ xs) = client-Keeps a _ _

  answer-Keeps :
      (now : ℕ) (offer : PendingOffer) (verdict : Bool) (a : App)
      → Keeps name a (answer_offer now offer verdict a)
  unfolding answer_offer print back_from_offer
  answer-Keeps now offer verdict a =
      Keeps-trans name
        (record {
          services = refl;
          host = refl;
          managed = λ r. goes_on r (responded now offer.sender offer.key verdict);
        })
        (back ((a.client).prior_ui_state) _)
    where
      back : (u : UiState) (b : App) → Keeps name b (back_from_offer now u b)
      back file_offer_prompt b = Keeps-refl name b
      back main_menu b = Keeps-render name now b b (Keeps-refl name b)
      back chat b = Keeps-render name now b b (Keeps-refl name b)

  offer_key-Keeps :
      (now c : ℕ) (o : Option PendingOffer) (a : App) → Keeps name a (offer_key now c o a)
  unfolding offer_key with_ui
  offer_key-Keeps now c none a = Keeps-render name now a _ (client-Keeps a _ a.out)
  offer_key-Keeps now c (some offer) a =
      if-cases (Keeps name a) (c == b'y' || c == b'Y') (λ _. answer-Keeps now offer true a)
        (λ _.
          if-cases (Keeps name a) (c == b'n' || c == b'N') (λ _. answer-Keeps now offer false a)
            (λ _. Keeps-refl name a))

  task-Keeps : (now : ℕ) (t : Task) (a : App) → Keeps name a (run_task now t a)
  unfolding run_task render_file_offer print
  task-Keeps now (show_message sender text) a =
      if-cases (Keeps name a)
        (is_chat (a.client).ui_state && bytes_beq (a.client).active_chat_service sender)
        (λ _. Keeps-trans name (client-Keeps a _ a.out) (render_chat-Keeps now _))
        (λ _. Keeps-render name now a _ (client-Keeps a _ a.out))
  task-Keeps now (show_offer offer) a = client-Keeps a _ _

  -- A round of the event loop leaves the discovered services and the machine's name alone, and the
  -- manager moves by its own steps.
  pub take_up-Keeps : (env : Machine) (i : Input) (a : App) → KeepsSome name a (take_up env i a)
  unfolding take_up on_key key_on handle_file_offer_key
  take_up-Keeps env (key_press c) a = on ((a.client).ui_state)
    where
      on : (u : UiState) → KeepsSome name a (key_on u env c a)
      on main_menu = Keeps-some name a _ (menu-Keeps name env.now c a)
      on chat = chat_key-Keeps env c a
      on file_offer_prompt =
          Keeps-some name a _ (offer_key-Keeps env.now c (a.client).pending_offer a)
  take_up-Keeps env (posted_task t) a = Keeps-some name a _ (task-Keeps env.now t a)
