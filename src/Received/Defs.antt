-- ===== src/Received/Defs.antt =====
-- `BVReceivedFile` over a file system whose calls may fail.
use local_chat_xxx.Common.{
  ℕ, ◌-◌, Bool, true, false, if◌then◌else◌, ◌==◌, List, [], ◌∷◌, ◌++◌, Option, none, some, length,
  take, replicate,
}
use local_chat_xxx.Common.Bytes.{Bytes}
use local_chat_xxx.Common.Assoc.{lookup, insert, bytes_eq}
use local_chat_xxx.Status.{Status, ok, nok, fatal_error}

-- The files by path, and for each path whether directories can be made there, a file opened for
-- writing, a write completed and a file resized.
pub record Disk : Type 0 where
  pub files : List (Bytes × Bytes)
  pub can_create : Bytes → Bool
  pub can_open : Bytes → Bool
  pub can_write : Bytes → Bool
  pub can_resize : Bytes → Bool

-- `p / q` of `std::filesystem`: an absolute `q` replaces `p`.
unfoldable pub is_absolute : Bytes → Bool
is_absolute [] = false
is_absolute (b ∷ bs) = b == b'/'

unfoldable pub has_filename : Bytes → Bool
has_filename [] = false
has_filename (b ∷ []) = if b == b'/' then false else true
has_filename (b ∷ (c ∷ bs)) = has_filename (c ∷ bs)

unfoldable pub join_path : Bytes → Bytes → Bytes
join_path p q = if is_absolute q then q else if has_filename p then p ++ (b'/' ∷ q) else p ++ q

abbrev pub data_dir : Bytes
data_dir = b'd' ∷ b'a' ∷ b't' ∷ b'a' ∷ []

unfoldable pub dir_for : Bytes → Bytes → Bytes
dir_for root service = join_path (join_path root data_dir) service

unfoldable pub path_for : Bytes → Bytes → Bytes → Bytes
path_for root service fname = join_path (dir_for root service) fname

abbrev pub content : Disk → Bytes → Option Bytes
content d p = lookup p d.files

-- What a stream opened for appending finds: a missing file is made.
unfoldable pub existing : Option Bytes → Bytes
existing none = []
existing (some b) = b

-- `resize_file` cuts the file or fills it up with zeros.
unfoldable pub resized : ℕ → Bytes → Bytes
resized n b = take n b ++ replicate (n - length b) 0

unfoldable pub begin : Bytes → Bytes → Bytes → Disk → Disk × Status
begin root service fname d =
    let p = path_for root service fname in
    if d.can_create (dir_for root service)
    then (if d.can_open p then (record d { files = insert p [] d.files }, ok) else (d, fatal_error))
    else (d, fatal_error)

-- A write that fails may leave the file as it was; that is what the model has.
unfoldable pub append_chunk : Bytes → Bytes → Bytes → Bytes → Disk → Disk × Status
append_chunk root service fname chunk d =
    let p = path_for root service fname in
    let old = existing (content d p) in
    if d.can_open p
    then (if d.can_write p
        then (record d { files = insert p (old ++ chunk) d.files }, ok)
        else (record d { files = insert p old d.files }, nok))
    else (d, fatal_error)

-- The last write is not looked at.
unfoldable pub finish : Bytes → Bytes → Bytes → Bytes → ℕ → Disk → Disk × Status
finish root service fname final fsize d =
    let p = path_for root service fname in
    let old = existing (content d p) in
    let written = if d.can_write p then old ++ final else old in
    if d.can_open p
    then (if d.can_resize p
        then (record d { files = insert p (resized fsize written) d.files }, ok)
        else (record d { files = insert p written d.files }, nok))
    else (d, fatal_error)
