-- ===== src/Gui/Defs.antt =====
-- The macOS client: what its handlers add to the console client's (mac-gui/BVApp_GuiClient.hpp).
-- The observer is the list of events it was called with. Work that is posted to the event loop is
-- done in the same step.
use local_chat_xxx.Client.Defs.{
  Client, add_to_log, after_bar, after_first_bar, before_bar, handle_file_chunk_sent,
  handle_file_transfer_begin, handle_message_incoming,
}
use local_chat_xxx.Common.{
  Bool, List, Option, [], if◌then◌else◌, ltb, none, some, ℕ, ◌%◌, ◌*◌, ◌++◌, ◌+◌, ◌/◌, ◌^◌, ◌∷◌,
}
use local_chat_xxx.Common.Bytes.{Bytes}
use local_chat_xxx.Common.Assoc.{bytes_eq, insert, lookup, nat_eq}
use local_chat_xxx.Status.{Status, ok}
use local_chat_xxx.Wire.Defs.{ChatMessage, FileData, until_nul}
use local_chat_xxx.Console.Defs.{App}

pub data GuiEvent : Type 0 where
  services_changed sessions_changed messages_changed file_progress file_offered : GuiEvent

-- `BVFileOffer`.
pub record FileOffer : Type 0 where
  pub correlation_key : ℕ
  pub file_name : Bytes
  pub sender : Bytes
  pub size : ℕ

-- The status line of a transfer: nothing, a text with a name and a percentage, or what was done.
pub data XferStatus : Type 0 where
  idle : XferStatus
  receiving sending : Bytes → ℕ → XferStatus
  saved : Bytes → Bytes → XferStatus
  sent_file : Bytes → XferStatus

-- Moving a file to another directory: whether `rename` succeeds from one path to the other, and
-- whether `copy_file` and `remove` do.
pub record Mover : Type 0 where
  pub can_rename : Bytes → Bytes → Bool
  pub can_copy : Bytes → Bytes → Bool
  pub can_remove : Bytes → Bool

pub record Gui : Type 0 where
  pub app : App
  pub notified : List GuiEvent
  pub pending_offers : List FileOffer
  pub offer_senders : List (ℕ × Bytes)
  pub save_dir : Bytes
  pub xfer_status : XferStatus
  pub xfer_name : Bytes
  pub xfer_total : ℕ
  pub xfer_received : ℕ

unfoldable pub notify : GuiEvent → Gui → Gui
notify e g = record g { notified = g.notified ++ (e ∷ []) }

-- The base client's handler runs on the client inside.
unfoldable pub base : (Client → Client × Status) → Gui → Gui × Status
base f g = let r = f (g.app).client in (record g { app = record (g.app) { client = r.0 } }, r.1)

unfoldable pub then_notify : GuiEvent → Gui × Status → Gui × Status
then_notify e (g, st) = (notify e g, st)

unfoldable pub gui_message_incoming : ChatMessage → Gui → Gui × Status
gui_message_incoming msg g = then_notify messages_changed (base (handle_message_incoming msg) g)

-- Without a bar the sender is empty and all of the text is the name.
unfoldable pub gui_sender : Option Bytes → Bytes → Bytes
gui_sender none meta = []
gui_sender (some r) meta = before_bar meta

unfoldable pub gui_file_offer : FileData → Gui → Gui × Status
gui_file_offer fd g =
    let meta = until_nul fd.fdata in
    let sender = gui_sender (after_first_bar meta) meta in
    let offer : FileOffer = record {
      correlation_key = fd.correlation_key;
      file_name = after_bar meta;
      sender = sender;
      size = fd.fsize;
    } in
    (
      notify file_offered (record g {
        pending_offers = g.pending_offers ++ (offer ∷ []);
        offer_senders = insert fd.correlation_key sender g.offer_senders;
      }),
      ok,
    )

unfoldable pub gui_file_transfer_begin : FileData → Gui → Gui × Status
gui_file_transfer_begin fd g =
    let name = after_bar (until_nul fd.fdata) in
    then_notify file_progress (
      base (handle_file_transfer_begin fd) (record g {
        xfer_name = name;
        xfer_total = fd.fsize;
        xfer_received = 0;
        xfer_status = receiving name 0;
      }))

abbrev pub received_percent : ℕ → ℕ → ℕ
received_percent received total = received * 100 % 2 ^ 64 / total

unfoldable pub progressed : ℕ → Gui → Gui
progressed n g =
    let received = (g.xfer_received + n) % 2 ^ 64 in
    let pct = received_percent received g.xfer_total in
    if ltb 0 g.xfer_total
    then record g {
      xfer_received = received;
      xfer_status = receiving g.xfer_name (if ltb 100 pct then 100 else pct);
    }
    else record g { xfer_received = received }

unfoldable pub gui_file_chunk_sent : FileData → Gui → Gui × Status
gui_file_chunk_sent fd g =
    then_notify file_progress (base (handle_file_chunk_sent fd) (progressed fd.csize g))

-- `AppendChatEntry`: an entry without a time.
unfoldable pub append_chat_entry : Bytes → Bytes → Bytes → Gui → Gui
append_chat_entry service text sender g =
    let c = (g.app).client in
    record g {
      app = record (g.app) {
        client = record c {
          chat_logs =
              add_to_log service (record { text_data = text; sender = sender; timestamp = 0 })
                (lookup service c.chat_logs) c.chat_logs;
        };
      };
    }
