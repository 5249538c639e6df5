-- ===== src/Wire/Frame.antt =====
-- File frames: what stands where, and that the receiver reads back what the sender packed.
use Prim.Native.Nat.{bit_or}
use native.Mathlib.Nat.{mod-mod}
use local_chat_xxx.Common.{
  ℕ, ◌+◌, ◌-◌, ◌*◌, ◌/◌, ◌%◌, ◌^◌, ◌≤◌, ◌<◌, ◌≡◌, sym, ap, ◌∙◌, inl, inr, if◌then◌else◌, ltb,
  lt→ltb, ltb→le, Bool-cases, [], ◌++◌, arith, length, take, drop, replicate, replicate-add,
  length-replicate, length-append, take_all, length-take, append-nil, zero, suc,
}
use local_chat_xxx.Common.Bytes.{Bytes, store, load-store, overlay, overlay-drop}
use local_chat_xxx.Common.Bits.{bit_or_disjoint, bit_and-ones, bit_and-high, ones}
use local_chat_xxx.Wire.Defs.{
  FileHeader, FileChunk, fill_file_frame, file_frame, get_file_header, get_file_data, pack_metadata,
  metadata_csize, metadata_fsize, offer_fsize,
}

-- The integer fields fit their types.
pub record InRange (h : FileHeader) : Type 0 where
  pub key_fits : h.correlation_key < 2 ^ 32
  pub timestamp_fits : h.timestamp < 2 ^ 64
  pub type_fits : h.msg_type < 2 ^ 8
  pub metadata_fits : h.metadata < 2 ^ 64

abbrev pub header_bytes : FileHeader → Bytes
header_bytes h =
    store 4 h.correlation_key ++ (store 8 h.timestamp ++ (store 1 h.msg_type ++ store 8 h.metadata))

-- The payload cut or padded with zeros to the size asked for.
abbrev pub padded : ℕ → Bytes → Bytes
padded n payload = take n payload ++ replicate (n - length payload) 0

zero_sub : (m : ℕ) → 0 ≡ 0 - m
zero_sub m = omega arith

drop-replicate : (k n a : ℕ) → drop k (replicate n a) ≡ replicate (n - k) a
drop-replicate zero n a = ap (λ m. replicate m a) (omega arith)
drop-replicate (suc k) zero a = ap (λ m. replicate m a) (zero_sub (suc k))
drop-replicate (suc k) (suc n) a = drop-replicate k n a ∙ ap (λ m. replicate m a) (omega arith)

overlay-replicate : (n : ℕ) (p : Bytes) → overlay (take n p) (replicate n 0) ≡ padded n p
overlay-replicate n p =
    overlay-drop (take n p) (replicate n 0) fits
    ∙ ap (◌++◌ (take n p)) (drop-replicate (length (take n p)) n 0 ∙ ap (λ m. replicate m 0) rest)
  where
    fits : length (take n p) ≤ length (replicate {A = ℕ} n 0)
    fits = omega (arith, length-take n p, length-replicate {A = ℕ} n 0)

    rest : n - length (take n p) ≡ n - length p
    rest = omega (arith, length-take n p)

take_capped : (n : ℕ) (p : Bytes) → take (if ltb n (length p) then n else length p) p ≡ take n p
take_capped n p = elim (Bool-cases (ltb n (length p))) [
  | inl e ↦ rw e
  | inr e ↦ rw e (take_all (length p) p (omega arith) ∙ sym (take_all n p (ltb→le n (length p) e)))
]

fill_file_frame_layout :
    (c : FileChunk) (n : ℕ)
    → fill_file_frame c n (replicate 21 0 ++ replicate n 0)
      ≡ header_bytes c.header ++ padded n c.payload
unfolding fill_file_frame
fill_file_frame_layout c zero =
    ap (λ m. header_bytes c.header ++ replicate m 0) (zero_sub (length c.payload))
fill_file_frame_layout c (suc n) = rw (lt→ltb 0 (suc n) (omega arith)) (
    ap (◌++◌ (header_bytes c.header)) (
      ap (λ p. overlay p (replicate (suc n) 0)) (take_capped (suc n) c.payload)
      ∙ overlay-replicate (suc n) c.payload))

-- A file frame is the header's four fields, low bytes first, and then the padded payload.
pub file_frame_layout :
    (c : FileChunk) (n : ℕ) → file_frame c n ≡ header_bytes c.header ++ padded n c.payload
unfolding file_frame
file_frame_layout c n = ap (fill_file_frame c n) (replicate-add 21 n 0) ∙ fill_file_frame_layout c n

pub length-padded : (n : ℕ) (p : Bytes) → length (padded n p) ≡ n
length-padded n p = omega (
  arith,
  length-append (take n p) (replicate (n - length p) 0),
  length-take n p,
  length-replicate {A = ℕ} (n - length p) 0,
)

pub length-file_frame : (c : FileChunk) (n : ℕ) → length (file_frame c n) ≡ 21 + n
length-file_frame c n = ap length (file_frame_layout c n) ∙ omega (arith, length-padded n c.payload)

header_read_back :
    (h : FileHeader) (rest : Bytes) → InRange h → get_file_header (header_bytes h ++ rest) ≡ h
unfolding get_file_header
header_read_back h rest r = λ i. record {
  correlation_key = load-store 4 h.correlation_key [] r.key_fits i;
  timestamp = load-store 8 h.timestamp [] r.timestamp_fits i;
  msg_type = load-store 1 h.msg_type [] r.type_fits i;
  metadata = load-store 8 h.metadata [] r.metadata_fits i;
}

-- The receiver reads the header that the sender wrote, whatever the payload and its size.
pub get_file_header-file_frame :
    (c : FileChunk) (n : ℕ) → InRange c.header → get_file_header (file_frame c n) ≡ c.header
get_file_header-file_frame c n r =
    ap get_file_header (file_frame_layout c n) ∙ header_read_back c.header (padded n c.payload) r

-- ... and its payload, padded with zeros.
pub get_file_data-file_frame :
    (c : FileChunk) (n : ℕ) → get_file_data (file_frame c n) n ≡ padded n c.payload
unfolding get_file_data
get_file_data-file_frame c n =
    ap (λ f. take n (drop 21 f)) (file_frame_layout c n)
    ∙ take_all n (padded n c.payload) (omega (arith, length-padded n c.payload))

pub drop_header : (c : FileChunk) (n : ℕ) → drop 21 (file_frame c n) ≡ padded n c.payload
drop_header c n = ap (drop 21) (file_frame_layout c n)

packed :
    (csize fsize : ℕ)
    → csize < 2 ^ 32
    → fsize < 2 ^ 32
    → pack_metadata csize fsize ≡ csize * 2 ^ 32 + fsize
unfolding pack_metadata
packed csize fsize hc hf = ap (λ (t : ℕ). bit_or t fsize) fits ∙ bit_or_disjoint 32 csize fsize hf
  where
    fits : csize * 2 ^ 32 % 2 ^ 64 ≡ csize * 2 ^ 32
    fits = omega arith

pub pack_metadata_fits :
    (csize fsize : ℕ) → csize < 2 ^ 32 → fsize < 2 ^ 32 → pack_metadata csize fsize < 2 ^ 64
pack_metadata_fits csize fsize hc hf = omega (arith, packed csize fsize hc hf)

metadata_csize_lem : (m : ℕ) → metadata_csize m ≡ m / 2 ^ 32 % 2 ^ 32
unfolding metadata_csize
metadata_csize_lem m =
    ap (λ (t : ℕ). t % 2 ^ 32) (bit_and-high 32 m (ones 32) ∙ bit_and-ones 32 (m / 2 ^ 32))
    ∙ mod-mod (m / 2 ^ 32) (2 ^ 32)

metadata_fsize_lem : (m : ℕ) → metadata_fsize m ≡ m % 2 ^ 32
unfolding metadata_fsize
metadata_fsize_lem m = omega (arith, bit_and-ones 36 m)

offer_fsize_lem : (m : ℕ) → offer_fsize m ≡ m % 2 ^ 32
unfolding offer_fsize
offer_fsize_lem m = omega (arith, bit_and-ones 32 m)

-- Both sizes survive the packing of the metadata: the mask of 36 bits is cut to 32 by the cast.
pub metadata_sizes :
    (csize fsize : ℕ)
    → csize < 2 ^ 32
    → fsize < 2 ^ 32
    → (metadata_csize (pack_metadata csize fsize) ≡ csize)
      × (metadata_fsize (pack_metadata csize fsize) ≡ fsize)
metadata_sizes csize fsize hc hf = (
  omega (arith, metadata_csize_lem (pack_metadata csize fsize), packed csize fsize hc hf),
  omega (arith, metadata_fsize_lem (pack_metadata csize fsize), packed csize fsize hc hf),
)

-- The size in an offer is read back.
pub offer_fsize_fits : (fsize : ℕ) → fsize < 2 ^ 32 → offer_fsize fsize ≡ fsize
offer_fsize_fits fsize h = omega (arith, offer_fsize_lem fsize)

pub padded_whole : (n : ℕ) (p : Bytes) → length p ≡ n → padded n p ≡ p
padded_whole n p h =
    ap (λ k. take n p ++ replicate k 0) none ∙ append-nil (take n p) ∙ take_all n p (omega arith)
  where
    none : n - length p ≡ 0
    none = omega arith
