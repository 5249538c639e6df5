-- ===== src/Console/Menu.antt =====
-- The number that the screen shows next to a session is the key that opens its chat.
use local_chat_xxx.Console.Keys.{
  act, act_parsed, chosen, enter_chat, enter_selected, handle_main_menu_key, key_on, nth, on_key,
  open_chat, parse_console_action_from_key, sendmsg,
}
use local_chat_xxx.Manager.Defs.{get_session_service_names_in_display_order, names_of}
use local_chat_xxx.Console.Defs.{App, Item, Machine, print, session}
use local_chat_xxx.Common.{List, [], ap, arith, refl, some, suc, ℕ, ◌+◌, ◌∙◌, ◌∷◌, ◌≡◌, ◌≤◌}
use local_chat_xxx.Console.Screen.{print_all, print_sessions, render_chat, session_items}
use local_chat_xxx.Client.Defs.{chat, main_menu}
use local_chat_xxx.Common.Bytes.{Bytes}
use local_chat_xxx.Session.Defs.{Session}

-- The item stands in the list.
pub data Shows (x : Item) : List Item → Type 0 where
  here : {xs : List Item} → Shows x (x ∷ xs)
  later : {y : Item} {xs : List Item} → Shows x xs → Shows x (y ∷ xs)

-- A session that is listed from number `k` on stands at its number.
listed_at :
    (m : List (ℕ × Session)) (k n sid nid : ℕ) (name : Bytes)
    → Shows (session n name sid nid) (session_items k m)
    → (i : ℕ) × (n ≡ k + i) × (nth i (names_of m) ≡ some name)
unfolding session_items names_of nth
listed_at ((j, s) ∷ m) k n sid nid name here = (0, omega arith, refl)
listed_at ((j, s) ∷ m) k n sid nid name (later h) =
    let r = listed_at m (suc k) n sid nid name h in (suc r.0, omega (arith, r.1), r.2)
listed_at [] k n sid nid name h = elim h [ ]

numbered :
    (m : List (ℕ × Session)) (n sid nid : ℕ) (name : Bytes)
    → Shows (session n name sid nid) (print_sessions m)
    → chosen n (names_of m) ≡ some name
unfolding print_sessions chosen
numbered [] n sid nid name (later h) = elim h [ ]
numbered ((j, s) ∷ m) n sid nid name h =
    let r = listed_at ((j, s) ∷ m) 1 n sid nid name h in
    ap (λ k. chosen k (names_of ((j, s) ∷ m))) (r.1 ∙ one_more r.0) ∙ r.2
  where
    one_more : (i : ℕ) → 1 + i ≡ suc i
    one_more i = omega arith

digit_parsed :
    (n : ℕ)
    → n ≤ 9
    → parse_console_action_from_key (48 + n) ≡ some (record { action = sendmsg; num = some n })
unfolding parse_console_action_from_key
digit_parsed n h = ground arith

-- On the main menu, for each session that the screen shows with a number up to nine: the key with
-- this number opens the chat with the session's peer, with an empty line and no banner, sends
-- nothing and changes no connection.
pub shown_number_opens_chat :
    (env : Machine) (a : App) (n sid nid : ℕ) (name : Bytes)
    → (a.client).ui_state ≡ main_menu
    → Shows (session n name sid nid) (print_sessions (a.manager).sessions)
    → n ≤ 9
    → (b : App) × (on_key env (48 + n) a ≡ some b)
      × (b.client ≡ record (a.client) {
        ui_state = chat;
        active_chat_service = name;
        input_line = [];
        last_notification = [];
      })
      × (b.manager ≡ a.manager)
      × (b.sent ≡ a.sent)
unfolding on_key key_on handle_main_menu_key act_parsed act enter_selected enter_chat open_chat
    get_session_service_names_in_display_order render_chat print_all print
shown_number_opens_chat env a n sid nid name u h small = (
  _,
  ap (λ v. key_on v env (48 + n) a) u
      ∙ ap (λ p. some (act_parsed env.now p a)) (digit_parsed n small)
      ∙ ap (λ o. some (open_chat env.now o a)) (numbered (a.manager).sessions n sid nid name h),
  refl,
  refl,
  refl,
)
