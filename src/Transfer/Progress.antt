-- ===== src/Transfer/Progress.antt =====
-- The percentages that the worker prints while it sends a file.
use local_chat_xxx.Transfer.Run.{
  IsSending, advanced, advanced-IsSending, begun-IsSending, ended, last_step, middle_step,
  whole_size, worker_sends_file, worker_step, worker_stopped,
}
use local_chat_xxx.Common.{
  Bool-cases, ap, ap₂, arith, inl, inr, leb, leb→le, leb→lt, length, refl, subst, suc, sym, zero, ℕ,
  ◌*◌, ◌+◌, ◌/◌, ◌<◌, ◌^◌, ◌∙◌, ◌≡◌, ◌≤◌,
}
use local_chat_xxx.Common.Bytes.{Bytes}
use local_chat_xxx.Transfer.Defs.{
  Transfer, is_first, new_transfer, percent, transfer_begin, transfer_next_chunk, worker,
}
use local_chat_xxx.Transfer.ChunkSize.{percent_lem}
use native.Mathlib.Nat.{mul-div_cancel_left}

-- Behind a transfer there are never more bytes than the file has, and the size stays.
record Within (size : ℕ) (t : Transfer) : Type 0 where
  kept : t.fsize ≡ size
  within : t.bytes_sent ≤ size

module _ (clock : ℕ → ℕ) where
  sending-Within : (n : ℕ) (t : Transfer) → IsSending t → Within t.fsize (worker clock n t)
  unfolding worker
  sending-Within zero t h = record { kept = refl; within = omega (arith, h.accounted) }
  sending-Within (suc n) t h =
      let now = clock (length t.sent) in
      subst (Within t.fsize) (sym (worker_step clock n t h.running h.readable))
        (elim (Bool-cases (leb (length t.rest) t.csize)) [
          | inl e ↦
              subst (λ x. Within t.fsize (worker clock n x))
                (sym (last_step now t h (leb→le (length t.rest) t.csize e)))
                (subst (Within t.fsize) (sym (worker_stopped clock n (ended now t) refl))
                  (record { kept = refl; within = omega arith }))
          | inr e ↦
              let long = leb→lt (length t.rest) t.csize e in
              subst (λ x. Within t.fsize (worker clock n x)) (sym (middle_step now t h long))
                (sending-Within n (advanced now t) (advanced-IsSending now t h long))
        ])

  module _ (this_machine : Bytes) (ftcid : ℕ) (fname file : Bytes) (p : 0 < length file)
      (h : length file + 1048676 < 2 ^ 32) where
    abbrev after : ℕ → Transfer
    after n = worker clock n (new_transfer this_machine ftcid fname file)

    after-Within : (n : ℕ) → Within (length file) (after n)
    unfolding worker new_transfer transfer_next_chunk is_first transfer_begin
    after-Within zero = record { kept = omega arith; within = omega arith }
    after-Within (suc n) =
        subst (λ k. Within k (after (suc n))) (whole_size clock this_machine ftcid fname file p h)
          (sending-Within n (transfer_begin (clock 0) (new_transfer this_machine ftcid fname file))
            (begun-IsSending clock this_machine ftcid fname file p h))

    -- A file that is not empty and leaves room for one more chunk in 32 bits is sent. After any number
    -- of the worker's rounds, the percentage printed for the bytes sent so far is their exact share of
    -- the file, rounded down, and at most 100; after one round for each byte and one more it is 100.
    pub progress_reported :
        (n : ℕ)
        → (percent (after n).bytes_sent (after n).fsize ≡ (after n).bytes_sent * 100 / length file)
          × (percent (after n).bytes_sent (after n).fsize ≤ 100)
          × (percent (after (suc (length file))).bytes_sent (after (suc (length file))).fsize ≡ 100)
    progress_reported n =
        let w = after-Within n in
        let share = percent_lem (after n).bytes_sent (length file) p w.within (omega arith) in
        let same = ap (percent (after n).bytes_sent) w.kept in
        let z = worker_sends_file clock this_machine ftcid fname file p h in
        let size = (after-Within (suc (length file))).kept in
        (
          same ∙ share.0,
          rw same share.1,
          ap₂ percent (z.counted ∙ size) size
              ∙ (percent_lem (length file) (length file) p (omega arith) (omega arith)).0
              ∙ mul-div_cancel_left 100 p,
        )
