-- ===== src/Wire/Text.antt =====
-- Text on the wire: chat messages, and the names in an offer or at the start of a transfer.
use local_chat_xxx.Common.{
  ℕ, ◌-◌, ◌%◌, ◌^◌, ◌≤◌, ◌<◌, ◌≡◌, refl, sym, ap, ◌∙◌, inl, inr, if◌then◌else◌, ltb, ltb→lt,
  Bool-cases, [], ◌∷◌, ◌++◌, arith, length, take, drop, get_or, replicate, length-append, take_all,
  drop_all, length-take, take-append, append_assoc, append-nil,
}
use local_chat_xxx.Common.Bytes.{
  Bytes, store, load-store, overlay, overlay-drop, length-overlay, Avoids, load-drop_byte,
  get_or-overlay, get_or-take,
}
use local_chat_xxx.Wire.Defs.{
  MessageHeader, Message, FileChunk, fill_message_frame, get_msg_header, chat_text, chatmessage,
  get_file_header, construct_chat_message_from_input, get_file_text, until_nul, file_frame,
}
use local_chat_xxx.Wire.Frame.{padded, drop_header}

abbrev pub message_header_bytes : MessageHeader → Bytes
message_header_bytes h = store 1 h.data_len ++ (store 8 h.timestamp ++ store 1 h.msg_type)

-- A message frame is the header's three fields and the payload, whatever the buffer held before.
pub fill_message_frame_layout :
    (m : Message) (buf : Bytes)
    → length buf ≡ 138
    → length m.payload ≡ 128
    → fill_message_frame m buf ≡ message_header_bytes m.header ++ m.payload
unfolding fill_message_frame
fill_message_frame_layout m (a ∷ b ∷ c ∷ d ∷ e ∷ f ∷ g ∷ h ∷ i ∷ j ∷ rest) size psize =
    ap (◌++◌ (message_header_bytes m.header)) (
      overlay-drop m.payload rest (omega arith)
      ∙ ap (◌++◌ m.payload) (drop_all (length m.payload) rest (omega arith))
      ∙ append-nil m.payload)
fill_message_frame_layout m _ size psize = absurd (omega arith)

pub length-message :
    (m : Message)
    → length m.payload ≡ 128
    → length (message_header_bytes m.header ++ m.payload) ≡ 138
length-message m h = omega arith

-- The header is read back, its length byte and its type modulo 256.
pub get_msg_header-layout :
    (m : Message)
    → m.header.data_len < 256
    → m.header.timestamp < 2 ^ 64
    → m.header.msg_type < 256
    → get_msg_header (message_header_bytes m.header ++ m.payload) ≡ m.header
unfolding get_msg_header
get_msg_header-layout m hl ht hm = λ i. record {
  data_len = load-store 1 m.header.data_len [] hl i;
  timestamp = load-store 8 m.header.timestamp [] ht i;
  msg_type = load-store 1 m.header.msg_type [] hm i;
}

copy_len : Bytes → ℕ
copy_len input = if ltb (length input) 128 then length input else 128

copy_len_bounds : (input : Bytes) → (copy_len input ≤ 128) × (copy_len input ≤ length input)
unfolding copy_len
copy_len_bounds input = ground arith

take-copy_len : (input : Bytes) → take (copy_len input) input ≡ take 128 input
unfolding copy_len
take-copy_len input = elim (Bool-cases (ltb (length input) 128)) [
  | inl e ↦ rw e (
      take_all (length input) input (omega arith)
      ∙ sym (take_all 128 input (omega (arith, ltb→lt (length input) 128 e))))
  | inr e ↦ rw e
]

-- What a chat message looks like on the wire.
abbrev pub chat_frame : ℕ → Bytes → Bytes
chat_frame now input =
    message_header_bytes (construct_chat_message_from_input now input).header
    ++ (construct_chat_message_from_input now input).payload

chat_payload :
    (now : ℕ) (input : Bytes)
    → (construct_chat_message_from_input now input).payload
      ≡ overlay (take (copy_len input) input) (replicate 128 0)
unfolding construct_chat_message_from_input copy_len
chat_payload now input = refl

chat_data_len :
    (now : ℕ) (input : Bytes)
    → (construct_chat_message_from_input now input).header.data_len ≡ copy_len input
unfolding construct_chat_message_from_input
chat_data_len now input = computed ∙ small
  where
    computed : (construct_chat_message_from_input now input).header.data_len ≡ copy_len input % 256
    computed = unfold copy_len in refl

    small : copy_len input % 256 ≡ copy_len input
    small = omega (arith, copy_len_bounds input)

pub length-chat_payload :
    (now : ℕ) (input : Bytes) → length (construct_chat_message_from_input now input).payload ≡ 128
length-chat_payload now input =
    ap length (chat_payload now input)
    ∙ length-overlay (take (copy_len input) input) (replicate 128 0)

take-chat_payload :
    (now : ℕ) (input : Bytes)
    → take (copy_len input) (construct_chat_message_from_input now input).payload ≡ take 128 input
take-chat_payload now input =
    ap (take n) (chat_payload now input ∙ overlay-drop (take n input) (replicate 128 0) fits)
    ∙ take-append (take n input) (drop (length (take n input)) (replicate 128 0)) n whole
    ∙ take-copy_len input
  where
    n : ℕ
    n = copy_len input

    whole : length (take n input) ≡ n
    whole = omega (arith, length-take n input, copy_len_bounds input)

    fits : length (take n input) ≤ 128
    fits = omega (arith, whole, copy_len_bounds input)

chat_text_layout :
    (m : Message)
    → m.header.data_len < 256
    → length m.payload ≡ 128
    → chat_text (message_header_bytes m.header ++ m.payload) ≡ take m.header.data_len m.payload
unfolding chat_text
chat_text_layout m h size =
    ap (λ k. take k (take 128 m.payload)) (load-store 1 m.header.data_len [] h)
    ∙ ap (take m.header.data_len) (take_all 128 m.payload (omega arith))

-- The receiver's text is the sender's input cut to 128 bytes.
pub chat_text_round_trip :
    (now : ℕ) (input buf : Bytes)
    → length buf ≡ 138
    → chat_text (fill_message_frame (construct_chat_message_from_input now input) buf)
      ≡ take 128 input
chat_text_round_trip now input buf size =
    ap chat_text (fill_message_frame_layout m buf size psize)
    ∙ chat_text_layout m small psize
    ∙ ap (λ k. take k m.payload) (chat_data_len now input)
    ∙ take-chat_payload now input
  where
    m : Message
    m = construct_chat_message_from_input now input

    psize : length m.payload ≡ 128
    psize = length-chat_payload now input

    small : m.header.data_len < 256
    small = omega (arith, chat_data_len now input, copy_len_bounds input)

-- Byte 12 of a chat frame, where a file frame has its type, is the third byte of the text.
pub chat_type_byte :
    (now : ℕ) (input : Bytes) → (get_file_header (chat_frame now input)).msg_type ≡ get_or input 2 0
unfolding get_file_header
chat_type_byte now input =
    load-drop_byte 2 (construct_chat_message_from_input now input).payload
    ∙ ap (λ p. get_or p 2 0) (chat_payload now input)
    ∙ get_or-overlay (take (copy_len input) input) 128 2 fits
    ∙ ap (λ p. get_or p 2 0) (take-copy_len input)
    ∙ get_or-take 128 input 2 (omega arith)
  where
    fits : length (take (copy_len input) input) ≤ 128
    fits = omega (arith, length-take (copy_len input) input, copy_len_bounds input)

-- The header of a chat frame, as the receiver reads it.
pub chat_frame_header :
    (now : ℕ) (input : Bytes)
    → now < 2 ^ 64
    → ((get_msg_header (chat_frame now input)).timestamp ≡ now)
      × ((get_msg_header (chat_frame now input)).msg_type ≡ chatmessage)
chat_frame_header now input h =
    (ap (λ r. r.timestamp) read ∙ stamp, ap (λ r. r.msg_type) read ∙ kind)
  where
    m : Message
    m = construct_chat_message_from_input now input

    stamp : m.header.timestamp ≡ now
    stamp = unfold construct_chat_message_from_input in refl

    kind : m.header.msg_type ≡ chatmessage
    kind = unfold construct_chat_message_from_input in refl

    read : get_msg_header (chat_frame now input) ≡ m.header
    read =
        get_msg_header-layout m (omega (arith, chat_data_len now input, copy_len_bounds input))
          (omega (arith, stamp)) (omega (arith, kind))

pub chat_frame_sent :
    (now : ℕ) (input buf : Bytes)
    → length buf ≡ 138
    → fill_message_frame (construct_chat_message_from_input now input) buf ≡ chat_frame now input
chat_frame_sent now input buf size =
    fill_message_frame_layout (construct_chat_message_from_input now input) buf size
      (length-chat_payload now input)

pub until_nul-append : (xs rest : Bytes) → Avoids 0 xs → until_nul (xs ++ (0 ∷ rest)) ≡ xs
unfolding until_nul
until_nul-append [] rest h = refl
until_nul-append (x ∷ xs) rest h = ground (arith, until_nul-append xs rest h.1)

-- Text without NULs that leaves room for its terminator comes out of a control frame whole.
pub get_file_text-file_frame :
    (c : FileChunk) (text : Bytes)
    → c.payload ≡ text ++ (0 ∷ [])
    → length text < 117
    → Avoids 0 text
    → get_file_text (file_frame c 117) ≡ text
unfolding get_file_text
get_file_text-file_frame c text e short clean =
    ap until_nul (drop_header c 117 ∙ ap (padded 117) e ∙ shape) ∙ until_nul-append text zs clean
  where
    zs : Bytes
    zs = replicate (117 - length (text ++ (0 ∷ []))) 0

    shape : padded 117 (text ++ (0 ∷ [])) ≡ text ++ (0 ∷ zs)
    shape =
        ap (λ t. t ++ zs)
          (take_all 117 (text ++ (0 ∷ [])) (omega (arith, length-append text (0 ∷ []))))
        ∙ append_assoc text (0 ∷ []) zs
