-- ===== src/Tests/Fixtures.antt =====
-- Two machines, `ann` and `bob`, a ready session, a client with an empty disk.
use local_chat_xxx.Common.{ℕ, refl, true, arith, [], ◌∷◌, none, replicate}
use local_chat_xxx.Common.Bytes.{Bytes, Avoids}
use local_chat_xxx.Common.Assoc.{nat_eq, bytes_eq}
use local_chat_xxx.Session.Defs.{Session, established, outgoing, new_session, start_reading_frames}
use local_chat_xxx.Session.Handlers.{Env}
use local_chat_xxx.Session.Files.{IsReady}
use local_chat_xxx.Session.Announce.{FitsFrame}
use local_chat_xxx.Received.Defs.{Disk}
use local_chat_xxx.Received.Contents.{Works}
use local_chat_xxx.Client.Defs.{Client, main_menu}
use local_chat_xxx.Delivery.{Mailbox}
use local_chat_xxx.Manager.Defs.{Manager, manager_ops, put_message_into_app_mailbox}

abbrev pub ann : Bytes
ann = b'a' ∷ b'n' ∷ b'n' ∷ []

abbrev pub bob : Bytes
bob = b'b' ∷ b'o' ∷ b'b' ∷ []

abbrev pub notes : Bytes
notes = b'n' ∷ b'.' ∷ b't' ∷ []

abbrev pub content : Bytes
content = b'h' ∷ b'i' ∷ []

abbrev pub env : Env
env = record { now = 1000; stack = replicate 128 0; unset = 0 }

-- The clock, in milliseconds.
abbrev pub clock : ℕ → ℕ
clock i = 1000

-- Bob's session with Ann, waiting for a frame.
abbrev pub ready_session : Session
ready_session =
    start_reading_frames (record (new_session 0 ann bob outgoing) { state = established })

pub ready : IsReady ready_session
unfolding start_reading_frames new_session
ready = record { prepared = refl; nothing_read = refl; room = refl; waiting = refl }

pub app_box : Mailbox manager_ops
unfolding put_message_into_app_mailbox
app_box = record { inbox = λ (m : Manager). m.app_inbox; inbox_put = λ e w. refl }

abbrev pub disk : Disk
disk = record {
  files = [];
  can_create = λ p. true;
  can_open = λ p. true;
  can_write = λ p. true;
  can_resize = λ p. true;
}

abbrev pub client : Client
client = record {
  root = b'/' ∷ [];
  disk = disk;
  file_transfer_data = [];
  recv_bytes = 0;
  chat_logs = [];
  posted = [];
  ui_state = main_menu;
  prior_ui_state = main_menu;
  active_chat_service = [];
  input_line = [];
  last_notification = [];
  pending_offer = none;
}

pub fits : FitsFrame ann notes
fits = record {
  short = omega arith;
  service_clean = (
    (λ e. absurd (omega arith)),
    ((λ e. absurd (omega arith)), ((λ e. absurd (omega arith)), tt)),
  );
  name_clean = (
    (λ e. absurd (omega arith)),
    ((λ e. absurd (omega arith)), ((λ e. absurd (omega arith)), tt)),
  );
}

pub no_bar : Avoids 124 ann
no_bar =
    ((λ e. absurd (omega arith)), ((λ e. absurd (omega arith)), ((λ e. absurd (omega arith)), tt)))

pub works : Works (b'/' ∷ []) ann notes disk
works = record { creates = refl; opens = refl; writes = refl; resizes = refl }
