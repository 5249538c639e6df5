-- ===== src/Console/Keeps.antt =====
-- What keys and tasks leave alone: the discovered services; and the manager moves by its own steps.
use local_chat_xxx.Common.{Bool, List, Option, if-cases, none, refl, some, subst, sym, ℕ, ◌∙◌, ◌≡◌}
use local_chat_xxx.Console.Keys.{
  ActionType, ParsingResult, act, act_parsed, blockhost, chosen, enter_chat, enter_selected,
  handle_main_menu_key, open_chat, parse_console_action_from_key, pause_discovery, quit, reprint,
  resume_discovery, sendmsg,
}
use local_chat_xxx.Common.Results.{bind-some, of_some, ◌>>=◌}
use local_chat_xxx.Console.Screen.{print_all, render, render_chat}
use local_chat_xxx.Console.Lines.{log_own, path_argument, send_file, send_line_on, send_text}
use local_chat_xxx.Client.Defs.{Client}
use local_chat_xxx.Manager.Steps.{Reachable, goes_on, offered, sent}
use local_chat_xxx.Console.Loop.{render_prints}
use local_chat_xxx.Console.Defs.{App, Item, Machine, Request, print, send_message}
use local_chat_xxx.Wire.Defs.{construct_chat_message_from_input}
use local_chat_xxx.Manager.Defs.{
  Manager, get_session_service_names_in_display_order, initiate_file_transfer_with_session,
  send_data_to_node,
}
use local_chat_xxx.Status.{Status, fatal_error}
use local_chat_xxx.Common.Bytes.{Bytes}

pub record Keeps (name : Bytes) (a b : App) : Type 0 where
  pub services : b.service_v ≡ a.service_v
  pub host : b.hostname ≡ a.hostname
  pub managed : Reachable name a.manager → Reachable name b.manager

abbrev pub KeepsSome : Bytes → App → Option App → Type 0
KeepsSome name a o = (b : App) → o ≡ some b → Keeps name a b

module _ (name : Bytes) where
  pub Keeps-refl : (a : App) → Keeps name a a
  Keeps-refl a = record { services = refl; host = refl; managed = λ r. r }

  pub Keeps-trans : {a b c : App} → Keeps name a b → Keeps name b c → Keeps name a c
  Keeps-trans h k = record {
    services = k.services ∙ h.services;
    host = k.host ∙ h.host;
    managed = λ r. k.managed (h.managed r);
  }

  pub Keeps-some : (a b : App) → Keeps name a b → KeepsSome name a (some b)
  Keeps-some a b k c e = of_some (Keeps name a) k e

  -- An app that differs in what is printed, sent and shown.
  abbrev drawn : (a : App) → Client → List Request → Bool → List Item → App
  drawn a c s r o = record a { client = c; sent = s; is_running = r; out = o }

  Keeps-drawn :
      (a : App) (c : Client) (s : List Request) (r : Bool) (o : List Item)
      → Keeps name a (drawn a c s r o)
  Keeps-drawn a c s r o = record { services = refl; host = refl; managed = λ h. h }

  pub Keeps-render : (now : ℕ) (a b : App) → Keeps name a b → Keeps name a (render now b)
  Keeps-render now a b k =
      subst (Keeps name a) (sym (render_prints now b))
        (record { services = k.services; host = k.host; managed = k.managed })

  pub menu-Keeps : (now key : ℕ) (a : App) → Keeps name a (handle_main_menu_key now key a)
  unfolding handle_main_menu_key open_chat render_chat print print_all act enter_selected enter_chat
      chosen send_message act_parsed
  menu-Keeps now key a = parsed (parse_console_action_from_key key)
    where
      opened : (o : Option Bytes) → Keeps name a (open_chat now o a)
      opened none = Keeps-refl a
      opened (some n) = record { services = refl; host = refl; managed = λ h. h }

      acted : (t : ActionType) (n : Option ℕ) → Keeps name a (act now t n a)
      acted reprint n = Keeps-render now a a (Keeps-refl a)
      acted sendmsg none = Keeps-refl a
      acted sendmsg (some k) =
          opened (chosen k (get_session_service_names_in_display_order a.manager))
      acted pause_discovery n = record { services = refl; host = refl; managed = λ h. h }
      acted resume_discovery n = record { services = refl; host = refl; managed = λ h. h }
      acted quit n = record { services = refl; host = refl; managed = λ h. h }
      acted blockhost n = Keeps-refl a

      parsed : (p : Option ParsingResult) → Keeps name a (act_parsed now p a)
      parsed none = Keeps-refl a
      parsed (some p) = acted p.action p.num

  -- What a chain answers is kept if its parts keep it.
  pub keeps_bind :
      {A : Type 0} (a : App) (o : Option A) (f : A → Option App)
      → ((x : A) → o ≡ some x → KeepsSome name a (f x))
      → KeepsSome name a (o >>= f)
  keeps_bind a o f h b e = let r = bind-some o e in h r.0 r.1 b r.2

  send_file-Keeps :
      (env : Machine) (sid : ℕ) (path : Bytes) (a : App)
      → KeepsSome name a (send_file env sid path a)
  unfolding send_file
  send_file-Keeps env sid path a =
      if-cases (KeepsSome name a) (env.is_regular_file path)
        (λ _.
          keeps_bind a
            (initiate_file_transfer_with_session env.now sid (env.file_size path) path a.manager) _
            (λ m e. Keeps-some a _ (record {
              services = refl;
              host = refl;
              managed = λ r. goes_on r (offered env.now sid (env.file_size path) path m e);
            })))
        (λ _. Keeps-some a a (Keeps-refl a))

  log_own-Keeps :
      (now : ℕ) (who line : Bytes) (r : Status × Manager) (a : App)
      → (Reachable name a.manager → Reachable name r.1)
      → Keeps name a (log_own now who line r a)
  unfolding log_own
  log_own-Keeps now who line (fatal_error, m) a h = record {
    services = refl;
    host = refl;
    managed = h;
  }
  log_own-Keeps now who line (st, m) a h = record { services = refl; host = refl; managed = h }

  send_text-Keeps :
      (now : ℕ) (who line : Bytes) (sid : ℕ) (a : App)
      → KeepsSome name a (send_text now who sid line a)
  unfolding send_text
  send_text-Keeps now who line sid a =
      keeps_bind a (send_data_to_node (construct_chat_message_from_input now line) sid a.manager) _
        (λ r e. Keeps-some a _ (log_own-Keeps now who line r a (λ h. goes_on h (sent _ sid r e))))

  pub send_line_on-Keeps :
      (env : Machine) (who line : Bytes) (arg : Option Bytes) (sid : Option ℕ) (a : App)
      → KeepsSome name a (send_line_on env who line arg sid a)
  unfolding send_line_on
  send_line_on-Keeps env who line none none a = Keeps-some a a (Keeps-refl a)
  send_line_on-Keeps env who line (some arg) none a = Keeps-some a a (Keeps-refl a)
  send_line_on-Keeps env who line none (some sid) a = send_text-Keeps env.now who line sid a
  send_line_on-Keeps env who line (some arg) (some sid) a =
      send_file-Keeps env sid (path_argument arg) a
