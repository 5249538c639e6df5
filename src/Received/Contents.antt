-- ===== src/Received/Contents.antt =====
-- What the file on disk holds while a transfer writes it.
use local_chat_xxx.Common.{ℕ, ◌≡◌, ap, true, [], ◌++◌, some}
use local_chat_xxx.Common.Bytes.{Bytes}
use local_chat_xxx.Common.Assoc.{bytes_eq, insert, insert-insert, lookup-insert_self}
use local_chat_xxx.Status.{ok}
use local_chat_xxx.Received.Defs.{
  Disk, content, dir_for, path_for, existing, resized, begin, append_chunk, finish,
}

-- Every call on the file of this transfer goes through.
pub record Works (root service fname : Bytes) (d : Disk) : Type 0 where
  pub creates : d.can_create (dir_for root service) ≡ true
  pub opens : d.can_open (path_for root service fname) ≡ true
  pub writes : d.can_write (path_for root service fname) ≡ true
  pub resizes : d.can_resize (path_for root service fname) ≡ true

module _ (root service fname : Bytes) where
  abbrev p : Bytes
  p = path_for root service fname

  -- The disk with this content in the transfer's file.
  unfoldable pub holding : Bytes → Disk → Disk
  holding b d = record d { files = insert p b d.files }

  pub content-holding : (b : Bytes) (d : Disk) → content (holding b d) p ≡ some b
  unfolding holding
  content-holding b d = lookup-insert_self p b d.files

  pub holding-Works :
      (b : Bytes) (d : Disk) → Works root service fname d → Works root service fname (holding b d)
  unfolding holding
  holding-Works b d h = record {
    creates = h.creates;
    opens = h.opens;
    writes = h.writes;
    resizes = h.resizes;
  }

  pub begin_lem :
      (d : Disk) → Works root service fname d → begin root service fname d ≡ (holding [] d, ok)
  unfolding begin holding
  begin_lem d h = rw (h.creates, h.opens)

  pub append_chunk_lem :
      (chunk old : Bytes) (d : Disk)
      → Works root service fname d
      → content d p ≡ some old
      → append_chunk root service fname chunk d ≡ (holding (old ++ chunk) d, ok)
  unfolding append_chunk holding existing
  append_chunk_lem chunk old d h e = rw (e, h.opens, h.writes)

  pub finish_lem :
      (final old : Bytes) (fsize : ℕ) (d : Disk)
      → Works root service fname d
      → content d p ≡ some old
      → finish root service fname final fsize d ≡ (holding (resized fsize (old ++ final)) d, ok)
  unfolding finish holding existing
  finish_lem final old fsize d h e = rw (e, h.opens, h.writes, h.resizes)

  pub holding-holding : (b c : Bytes) (d : Disk) → holding b (holding c d) ≡ holding b d
  unfolding holding
  holding-holding b c d = ap (λ fs. record d { files = fs }) (insert-insert p b c d.files)
