-- ===== src/Console/Keys.antt =====
-- What each key does on each screen (`OnKey` and what it calls), and the tasks that handlers post to
-- the event loop. `none` is an exception, which ends the loop.
use local_chat_xxx.Console.Defs.{
  App, Machine, discovery_request_pause, discovery_request_resume, echo, line_break, offer_accepted,
  offer_rejected, print, rubbed_out, send_message, terminate_all, with_ui,
}
use local_chat_xxx.Client.Defs.{
  PendingOffer, Task, UiState, chat, file_offer_prompt, main_menu, show_message, show_offer,
}
use local_chat_xxx.Console.Screen.{render, render_chat, render_file_offer}
use local_chat_xxx.Common.{
  Bool, List, Option, [], false, if◌then◌else◌, leb, none, some, suc, true, zero, ℕ, ◌&&◌, ◌++◌,
  ◌+◌, ◌-◌, ◌==◌, ◌||◌, ◌∷◌,
}
use local_chat_xxx.Manager.Defs.{get_session_service_names_in_display_order, respond_to_file_offer}
use local_chat_xxx.Console.Lines.{pop_back, send_chat_line}
use local_chat_xxx.Session.Defs.{is_null}
use local_chat_xxx.Common.Bytes.{Bytes, bytes_beq}
use local_chat_xxx.Common.Results.{◌>>=◌}

pub data ActionType : Type 0 where
  sendmsg reprint quit pause_discovery resume_discovery blockhost : ActionType

pub record ParsingResult : Type 0 where
  pub action : ActionType
  pub num : Option ℕ

-- `std::tolower`, `std::isdigit` and `std::isprint` in the "C" locale, over bytes.
abbrev pub to_lower : ℕ → ℕ
to_lower b = if leb 65 b && leb b 90 then b + 32 else b

abbrev pub is_digit : ℕ → Bool
is_digit b = leb 48 b && leb b 57

abbrev pub is_print : ℕ → Bool
is_print b = leb 32 b && leb b 126

unfoldable pub parse_console_action_from_key : ℕ → Option ParsingResult
parse_console_action_from_key key =
    let k = to_lower key in
    if k == b'd'
    then some (record { action = reprint; num = none })
    else if k == b'p'
    then some (record { action = pause_discovery; num = none })
    else if k == b'r'
    then some (record { action = resume_discovery; num = none })
    else if k == b'q'
    then some (record { action = quit; num = none })
    else if k == b'b'
    then some (record { action = blockhost; num = none })
    else if is_digit key
    then some (record { action = sendmsg; num = some (key - 48) })
    else none

-- `sessionNames[selection - 1]`, where there is one.
unfoldable pub nth : ℕ → List Bytes → Option Bytes
nth i [] = none
nth zero (x ∷ xs) = some x
nth (suc i) (x ∷ xs) = nth i xs

unfoldable pub chosen : ℕ → List Bytes → Option Bytes
chosen zero names = none
chosen (suc i) names = nth i names

unfoldable pub open_chat : ℕ → Option Bytes → App → App
open_chat now none a = a
open_chat now (some name) a = render_chat now (record a {
  client = record (a.client) {
    active_chat_service = name;
    ui_state = chat;
    input_line = [];
    last_notification = [];
  };
})

unfoldable pub enter_chat : ℕ → ℕ → App → App
enter_chat now selection a =
    open_chat now (chosen selection (get_session_service_names_in_display_order a.manager)) a

unfoldable pub enter_selected : ℕ → Option ℕ → App → App
enter_selected now none a = a
enter_selected now (some selection) a = enter_chat now selection a

unfoldable pub act : ℕ → ActionType → Option ℕ → App → App
act now reprint num a = render now a
act now sendmsg num a = enter_selected now num a
act now pause_discovery num a = send_message discovery_request_pause a
act now resume_discovery num a = send_message discovery_request_resume a
act now quit num a = record (send_message terminate_all a) { is_running = false }
act now blockhost num a = a

unfoldable pub act_parsed : ℕ → Option ParsingResult → App → App
act_parsed now none a = a
act_parsed now (some p) a = act now p.action p.num a

unfoldable pub handle_main_menu_key : ℕ → ℕ → App → App
handle_main_menu_key now key a = act_parsed now (parse_console_action_from_key key) a

abbrev pub quit_line : Bytes
quit_line = b'|' ∷ b'q' ∷ []

abbrev pub redraw_line : Bytes
redraw_line = b'|' ∷ b'r' ∷ []

unfoldable pub leave_chat : ℕ → App → App
leave_chat now a =
    render now
      (record a { client = record (a.client) { ui_state = main_menu; active_chat_service = [] } })

-- Enter.
unfoldable pub enter_line : Machine → Bytes → App → Option App
enter_line env line a =
    let sent = send_chat_line env (a.client).active_chat_service line a in
    if bytes_beq line quit_line
    then some (leave_chat env.now a)
    else if is_null line || bytes_beq line redraw_line
    then some (render_chat env.now a)
    else (sent >>= λ a'. some (render_chat env.now a'))

-- Backspace.
unfoldable pub rub_out : Bytes → App → App
rub_out [] a = a
rub_out (b ∷ bs) a =
    print (rubbed_out ∷ [])
      (record a { client = record (a.client) { input_line = pop_back (b ∷ bs) } })

unfoldable pub type_char : ℕ → App → App
type_char c a =
    print (echo c ∷ [])
      (record a { client = record (a.client) { input_line = (a.client).input_line ++ (c ∷ []) } })

unfoldable pub handle_chat_key : Machine → ℕ → App → Option App
handle_chat_key env c a =
    let line = (a.client).input_line in
    let entered =
      enter_line env line
        (print (line_break ∷ []) (record a { client = record (a.client) { input_line = [] } })) in
    if c == 10 || c == 13
    then entered
    else if c == 127 || c == 8
    then some (rub_out line a)
    else if is_print c
    then some (type_char c a)
    else some a

-- The screen that was up before the prompt; a prompt is not drawn again.
unfoldable pub back_from_offer : ℕ → UiState → App → App
back_from_offer now file_offer_prompt a = a
back_from_offer now u a = render now a

unfoldable pub answer_offer : ℕ → PendingOffer → Bool → App → App
answer_offer now offer verdict a =
    let said = if verdict then offer_accepted offer.fname else offer_rejected offer.fname in
    let a' =
      print (said ∷ []) (record a {
        manager = respond_to_file_offer now offer.sender offer.key verdict a.manager;
      }) in
    back_from_offer now (a.client).prior_ui_state (record a' {
      client = record (a.client) { pending_offer = none; ui_state = (a.client).prior_ui_state };
    })

unfoldable pub offer_key : ℕ → ℕ → Option PendingOffer → App → App
offer_key now c none a = render now (with_ui (a.client).prior_ui_state a)
offer_key now c (some offer) a =
    if c == b'y' || c == b'Y'
    then answer_offer now offer true a
    else if c == b'n' || c == b'N'
    then answer_offer now offer false a
    else a

unfoldable pub handle_file_offer_key : ℕ → ℕ → App → App
handle_file_offer_key now c a = offer_key now c (a.client).pending_offer a

unfoldable pub key_on : UiState → Machine → ℕ → App → Option App
key_on file_offer_prompt env c a = some (handle_file_offer_key env.now c a)
key_on chat env c a = handle_chat_key env c a
key_on main_menu env c a = some (handle_main_menu_key env.now c a)

unfoldable pub on_key : Machine → ℕ → App → Option App
on_key env c a = key_on (a.client).ui_state env c a

abbrev pub new_message_from : Bytes
new_message_from =
    b'N' ∷ b'e' ∷ b'w' ∷ b' ' ∷ b'm' ∷ b'e' ∷ b's' ∷ b's' ∷ b'a' ∷ b'g' ∷ b'e' ∷ b' ' ∷ b'f' ∷ b'r'
    ∷ b'o' ∷ b'm' ∷ b' ' ∷ []

unfoldable pub is_chat : UiState → Bool
is_chat chat = true
is_chat u = false

unfoldable pub run_task : ℕ → Task → App → App
run_task now (show_message sender text) a =
    let quiet : App = record a { client = record (a.client) { last_notification = [] } } in
    let noted : App = record a {
      client = record (a.client) {
        last_notification = new_message_from ++ sender ++ (b':' ∷ b' ' ∷ []) ++ text;
      };
    } in
    if is_chat (a.client).ui_state && bytes_beq (a.client).active_chat_service sender
    then render_chat now quiet
    else render now noted
run_task now (show_offer offer) a = render_file_offer (record a {
  client = record (a.client) {
    pending_offer = some offer;
    prior_ui_state = (a.client).ui_state;
    ui_state = file_offer_prompt;
  };
})

-- What the event loop takes up: a key, or a task that a handler has posted.
pub data Input : Type 0 where
  key_press : ℕ → Input
  posted_task : Task → Input

unfoldable pub take_up : Machine → Input → App → Option App
take_up env (key_press c) a = on_key env c a
take_up env (posted_task t) a = some (run_task env.now t a)

-- The event loop (`Run`, `StartStdinRead`), which ends when the program no longer runs.
unfoldable pub run : Machine → List Input → App → Option App
run env [] a = some a
run env (i ∷ is) a =
    take_up env i a >>= λ a'. let rest = run env is a' in if a'.is_running then rest else some a'
