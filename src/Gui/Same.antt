-- ===== src/Gui/Same.antt =====
-- The macOS client receives files as the console client does.
use local_chat_xxx.Client.Defs.{
  Client, after_bar, before_bar, checked, chunk_for, count_chunk, end_for, forget_transfer, handle,
  handle_file_chunk_sent, handle_file_offer, handle_file_transfer_begin, handle_file_transfer_end,
  handle_message_incoming, listen_to_mail, register_transfer,
}
use local_chat_xxx.Gui.Defs.{
  Gui, Mover, append_chat_entry, base, file_progress, gui_file_chunk_sent, gui_file_offer,
  gui_file_transfer_begin, gui_message_incoming, notify, progressed, then_notify,
}
use local_chat_xxx.Status.{Status, is_ok, ok}
use local_chat_xxx.Common.{
  Bool-cases, List, Option, [], ap, if-cases, if◌then◌else◌, inl, inr, length, ltb, none, refl,
  some, subst, sym, ℕ, ◌∙◌, ◌∷◌, ◌≡◌,
}
use local_chat_xxx.Received.Defs.{Disk, append_chunk, begin, finish}
use local_chat_xxx.Session.Defs.{
  AppEvent, app_file_offer, app_file_transfer_begin, app_file_transfer_chunk_sent,
  app_file_transfer_end, app_message_incoming, is_null,
}
use local_chat_xxx.Gui.Actions.{gui_file_transfer_end, gui_handle, move_saved, saved_to}
use local_chat_xxx.Wire.Defs.{FileData}
use local_chat_xxx.Console.Lost.{names}
use local_chat_xxx.Common.Assoc.{bytes_eq, lookup, nat_eq}
use local_chat_xxx.Common.Bytes.{Bytes}
use local_chat_xxx.Common.Results.{◌>>=◌}

unfoldable pub gui_checked : Gui × Status → Option Gui
gui_checked (g, st) = if is_ok st then some g else none

-- The mailbox loop of the macOS client.
unfoldable pub gui_listen : Mover → List AppEvent → Gui → Option Gui
gui_listen mv [] g = some g
gui_listen mv (e ∷ es) g = gui_checked (gui_handle mv e g) >>= gui_listen mv es

-- The same files, and the same transfers under way.
abbrev pub Agree : Client → Client → Type 0
Agree c d =
    (c.root ≡ d.root)
    × (c.disk ≡ d.disk)
    × (c.file_transfer_data ≡ d.file_transfer_data)
    × (c.recv_bytes ≡ d.recv_bytes)

-- Both loops end, or both go on and agree.
pub data Alike : Option Gui → Option Client → Type 0 where
  both_end : Alike none none
  both_go_on :
      {g : Gui} {c : Client} → Agree (g.app).client c → g.save_dir ≡ [] → Alike (some g) (some c)

-- Two answers of the console client's handlers.
abbrev pub Matches : Client × Status → Client × Status → Type 0
Matches r q = (r.1 ≡ q.1) × Agree r.0 q.0

-- The files and transfers of one client in another one.
abbrev filed : Client → Client → Client
filed c d = record d {
  root = c.root;
  disk = c.disk;
  file_transfer_data = c.file_transfer_data;
  recv_bytes = c.recv_bytes;
}

filed_same : (c d : Client) → Agree c d → filed c d ≡ d
filed_same c d a =
    λ i. record d { root = a.0 i; disk = a.1 i; file_transfer_data = a.2 i; recv_bytes = a.3 i }

begin-filed :
    (fd : FileData) (c d : Client)
    → Matches (handle_file_transfer_begin fd c) (handle_file_transfer_begin fd (filed c d))
unfolding handle_file_transfer_begin register_transfer
begin-filed fd c d = answered (begin c.root (before_bar fd.fdata) (after_bar fd.fdata) c.disk)
  where
    answered :
        (r : Disk × Status)
        → Matches
            (register_transfer fd.correlation_key (before_bar fd.fdata) (after_bar fd.fdata) r c)
            (register_transfer fd.correlation_key
              (before_bar fd.fdata)
              (after_bar fd.fdata)
              r
              (filed c d))
    answered (k, ok) = (refl, (refl, refl, refl, refl))
    answered (k, st) = (refl, (refl, refl, refl, refl))

chunk-filed :
    (fd : FileData) (c d : Client)
    → Matches (handle_file_chunk_sent fd c) (handle_file_chunk_sent fd (filed c d))
unfolding handle_file_chunk_sent chunk_for count_chunk
chunk-filed fd c d = known_as (lookup fd.correlation_key c.file_transfer_data)
  where
    answered :
        (r : Disk × Status)
        → Matches (count_chunk (length fd.fdata) r c) (count_chunk (length fd.fdata) r (filed c d))
    answered (k, ok) = (refl, (refl, refl, refl, refl))
    answered (k, st) = (refl, (refl, refl, refl, refl))

    known_as :
        (o : Option (Bytes × Bytes)) → Matches (chunk_for o fd c) (chunk_for o fd (filed c d))
    known_as none = (refl, (refl, refl, refl, refl))
    known_as (some names) = answered (append_chunk c.root names.0 names.1 fd.fdata c.disk)

end-filed :
    (fd : FileData) (c d : Client)
    → Matches (handle_file_transfer_end fd c) (handle_file_transfer_end fd (filed c d))
unfolding handle_file_transfer_end end_for forget_transfer
end-filed fd c d = known_as (lookup fd.correlation_key c.file_transfer_data)
  where
    answered :
        (r : Disk × Status)
        → Matches
            (forget_transfer fd.correlation_key r c)
            (forget_transfer fd.correlation_key r (filed c d))
    answered (k, ok) = (refl, (refl, refl, refl, refl))
    answered (k, st) = (refl, (refl, refl, refl, refl))

    known_as : (o : Option (Bytes × Bytes)) → Matches (end_for o fd c) (end_for o fd (filed c d))
    known_as none = (refl, (refl, refl, refl, refl))
    known_as (some names) = answered (finish c.root names.0 names.1 fd.fdata fd.fsize c.disk)

-- What the macOS client answers, beside what a console client answers that agrees with it.
abbrev Follows : Gui × Status → Client × Status → Type 0
Follows r q = Matches (((r.0).app).client, r.1) q × ((r.0).save_dir ≡ [])

not_moved :
    (mv : Mover) (root dir service fname : Bytes) (d : Disk)
    → dir ≡ []
    → (move_saved mv root dir service fname d).0 ≡ d
unfolding move_saved is_null
not_moved mv root dir service fname d e = ap (λ x. (move_saved mv root x service fname d).0) e

saved_to_files :
    (mv : Mover) (info : Option (Bytes × Bytes)) (g : Gui) (q : Client × Status) (st : Status)
    → Follows (g, st) q
    → Follows (saved_to mv info g, st) q
unfolding saved_to append_chat_entry
saved_to_files mv none g q st f = f
saved_to_files mv (some names) g q st f =
    let c = (g.app).client in
    let k = not_moved mv c.root g.save_dir names.0 names.1 c.disk f.1 in
    (((f.0).0, ((f.0).1.0, k ∙ (f.0).1.1, (f.0).1.2, (f.0).1.3)), f.1)

progressed_only :
    (n : ℕ) (g : Gui)
    → progressed n g ≡ record g {
      xfer_received = (progressed n g).xfer_received;
      xfer_status = (progressed n g).xfer_status;
    }
unfolding progressed
progressed_only n g =
    if-cases
      (λ (h : Gui). h ≡ record g { xfer_received = h.xfer_received; xfer_status = h.xfer_status })
      (ltb 0 g.xfer_total) (λ _. refl) (λ _. refl)

handle-Follows :
    (mv : Mover) (e : AppEvent) (g : Gui) (c : Client)
    → g.save_dir ≡ []
    → Follows (gui_handle mv e g) (handle e (filed (g.app).client c))
unfolding gui_handle handle gui_message_incoming handle_message_incoming gui_file_offer
    handle_file_offer then_notify notify base gui_file_transfer_begin gui_file_chunk_sent
    gui_file_transfer_end
handle-Follows mv (app_message_incoming msg) g c s = ((refl, (refl, refl, refl, refl)), s)
handle-Follows mv (app_file_offer fd) g c s = ((refl, (refl, refl, refl, refl)), s)
handle-Follows mv (app_file_transfer_begin fd) g c s = (begin-filed fd (g.app).client c, s)
handle-Follows mv (app_file_transfer_chunk_sent fd) g c s =
    subst
      (λ (h : Gui).
        Follows (then_notify file_progress (base (handle_file_chunk_sent fd) h))
          (handle_file_chunk_sent fd (filed (g.app).client c)))
      (sym (progressed_only fd.csize g)) (chunk-filed fd (g.app).client c, s)
handle-Follows mv (app_file_transfer_end fd) g c s =
    saved_to_files mv (lookup fd.correlation_key ((g.app).client).file_transfer_data)
      (base (handle_file_transfer_end fd) g).0
      (handle_file_transfer_end fd (filed (g.app).client c))
      (handle_file_transfer_end fd (g.app).client).1 (end-filed fd (g.app).client c, s)

Alike-step :
    (mv : Mover) (es : List AppEvent) (r : Gui × Status) (q : Client × Status)
    → Follows r q
    → ((g : Gui) (c : Client)
        → Agree (g.app).client c
        → g.save_dir ≡ []
        → Alike (gui_listen mv es g) (listen_to_mail es c))
    → Alike (gui_checked r >>= gui_listen mv es) (checked q >>= listen_to_mail es)
unfolding gui_checked checked
Alike-step mv es r q f rest = elim (Bool-cases (is_ok q.1)) [
  | inl e ↦ rw ((f.0).0) (rw e (rest r.0 q.0 (f.0).1 f.1))
  | inr e ↦ rw ((f.0).0) (rw e both_end)
]

-- The same events come to a macOS client without a chosen directory and to a console client that
-- agree on the received files and on the transfers under way. Either both mailbox loops end with a
-- failure, or both handle all events and the clients agree again.
pub gui_receives_same :
    (mv : Mover) (es : List AppEvent) (g : Gui) (c : Client)
    → Agree (g.app).client c
    → g.save_dir ≡ []
    → Alike (gui_listen mv es g) (listen_to_mail es c)
unfolding gui_listen listen_to_mail
gui_receives_same mv [] g c a s = both_go_on a s
gui_receives_same mv (e ∷ es) g c a s =
    let f =
      subst (λ d. Follows (gui_handle mv e g) (handle e d)) (filed_same (g.app).client c a)
        (handle-Follows mv e g c s) in
    Alike-step mv es (gui_handle mv e g) (handle e c) f (gui_receives_same mv es)
