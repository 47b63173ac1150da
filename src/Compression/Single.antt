-- ===== src/Compression/Single.antt =====
-- A single message without context takeover: the reader restores what the writer was given.
use magilla.Base.{ℕ, zero, suc, ◌≡◌, refl, arith, List, [], ◌∷◌, ◌++◌, Option, none, some}
use magilla.Base.{length}
use magilla.Base.Integers.{ℤ}
use mathlib.Core.Path.{subst}
use magilla.Compression.{max_window_bits}
use magilla.Compression.Window.{last, concat}
use magilla.Compression.Flate.{
  Flate, eof, deflate_message_tail_read, compress_no_context_takeover, WriteWrapper, ReadWrapper,
  decompress_no_context_takeover, flate_read, flate_read_close,
}
use magilla.Compression.Deflating.{write_pieces, write_pieces-IsDeflated}
use magilla.Compression.Takeover.{IsFlate}

module _ (f : Flate) where
  -- Reads up to EOF, and the wrapper after them; one more round than there are pieces is enough.
  unfoldable pub flate_read_all : ℕ → ReadWrapper f → Option (List ℕ × ReadWrapper f)
  flate_read_all zero r = none
  flate_read_all (suc fuel) r =
      let ((b, e), r') = flate_read f r in
      elim e [
        | none ↦ elim (flate_read_all fuel r') [ none ↦ none | some (t, r'') ↦ some (b ++ t, r'') ]
        | some eof ↦ some ([], r')
        | some _ ↦ none
      ]

  flate_read_all-concat :
      (bs : List (List ℕ))
      → flate_read_all (suc (length bs)) (record { fr = some bs })
        ≡ some (concat bs, record { fr = none })
  unfolding flate_read_all flate_read flate_read_close
  flate_read_all-concat [] = refl
  flate_read_all-concat (b ∷ bs) = rw (flate_read_all-concat bs) refl

  abbrev rounds : Option (List (List ℕ)) → ℕ
  rounds none = 1
  rounds (some bs) = suc (length bs)

  -- All that is read of one message, and the wrapper after it.
  unfoldable pub decompress_message : List ℕ → Option (List ℕ × ReadWrapper f)
  decompress_message body = elim (decompress_no_context_takeover f body) [
    | none ↦ none
    | some r ↦ flate_read_all (rounds r.fr) r
  ]

  -- The message was compressed without an error, with one close of the writer below, and is restored
  -- from what was sent; the reader has then closed itself.
  pub record IsRestored (level : ℤ) (ps : List (List ℕ)) : Type 0 where
    pub body : List ℕ
    pub closed : WriteWrapper f
    pub compresses :
        write_pieces f ps
          (compress_no_context_takeover f (record { sent = []; answers = [] }) level)
        ≡ (none, closed)
    pub sent : closed.deflater.tw.below.sent ≡ body
    pub closes : closed.closes ≡ 1
    pub decompresses : decompress_message body ≡ some (concat ps, record { fr = none })

  decompress-reads :
      (body t : List ℕ) (bs : List (List ℕ))
      → f.read [] (body ++ deflate_message_tail_read) ≡ some bs
      → concat bs ≡ t
      → decompress_message body ≡ some (t, record { fr = none })
  unfolding decompress_message decompress_no_context_takeover
  decompress-reads body t bs reads whole = ground (arith, reads, whole, flate_read_all-concat bs)

  -- Without context takeover a message that is written in any pieces is compressed without an error,
  -- and a reader restores it from what was sent.
  pub no_context_takeover-IsRestored :
      IsFlate f → (level : ℤ) (ps : List (List ℕ)) → IsRestored level ps
  unfolding compress_no_context_takeover
  no_context_takeover-IsRestored laws level ps =
      let w = f.new_writer level in
      let (front, marked) = laws.marked w ps (laws.new-AtBoundary level) in
      let (bs, reads, whole) = laws.restores w ps front (laws.new-AtBoundary level) marked in
      let d = write_pieces-IsDeflated f ps w front marked in
      let r =
        write_pieces f ps
          (compress_no_context_takeover f (record { sent = []; answers = [] }) level) in
      record {
        body = front;
        closed = r.1;
        compresses = λ i. (d.no_error i, r.1);
        sent = d.sent;
        closes = d.closed;
        decompresses =
            decompress-reads front (concat ps) bs
              (subst
                (λ h.
                  f.read (last max_window_bits h) (front ++ deflate_message_tail_read) ≡ some bs)
                (laws.history-new level) reads)
              whole;
      }
