-- ===== src/Compression/Takeover.antt =====
-- Message after message with context takeover, and single messages without: the reader restores what
-- the writer was given.
use magilla.Base.{
  ℕ, zero, suc, ◌≡◌, refl, ap, sym, ◌∙◌, arith, true, List, [], ◌∷◌, ◌++◌, append_assoc, append-nil,
  Option, none, some, map,
}
use magilla.Base.{length}
use magilla.Base.Integers.{ℤ}
use mathlib.Core.Path.{subst}
use magilla.Conn.Net.{Network}
use magilla.Compression.{slide, max_window_bits}
use magilla.Compression.Account.{fresh}
use magilla.Compression.Window.{last, slide_all, slide_all-append, concat}
use magilla.Compression.Flate.{
  Flate, eof, deflate_message_tail, deflate_message_tail_read, trunc_over, Deflater,
  new_compression_writer, TakeoverReader, new_decompression_reader, takeover_read,
}
use magilla.Compression.Deflating.{
  run_writes, run, write_pieces, at_work, IsDeflated, write_pieces-IsDeflated,
}

-- What compress/flate documents. A flate.Writer is at a boundary when it is new and after a Flush,
-- and remembers what was written to it. From a boundary, Writes and a Flush give a stream that ends
-- in the marker of an empty stored block; a reader whose dictionary is the last window of what was
-- written before reads from it, with the marker and a last empty block behind it, what was written.
pub record IsFlate (f : Flate) : Type 1 where
  pub AtBoundary : f.Writer → Type 0
  pub history : f.Writer → List ℕ
  pub new-AtBoundary : (level : ℤ) → AtBoundary (f.new_writer level)
  pub flush-AtBoundary : (w : f.Writer) → AtBoundary (f.flush w).0
  pub history-new : (level : ℤ) → history (f.new_writer level) ≡ []
  pub history-write : (w : f.Writer) (p : List ℕ) → history (f.write w p).0 ≡ history w ++ p
  pub history-flush : (w : f.Writer) → history (f.flush w).0 ≡ history w
  pub marked :
      (w : f.Writer) (ps : List (List ℕ))
      → AtBoundary w
      → (front : List ℕ) × (concat (run f w ps).1 ≡ front ++ deflate_message_tail)
  pub restores :
      (w : f.Writer) (ps : List (List ℕ)) (front : List ℕ)
      → AtBoundary w
      → concat (run f w ps).1 ≡ front ++ deflate_message_tail
      → (bs : List (List ℕ)) × (f.read
            (last max_window_bits (history w))
            (front ++ deflate_message_tail_read)
          ≡ some bs)
        × (concat bs ≡ concat ps)

abbrev empty_net : Network
empty_net = record { sent = []; answers = [] }

module _ (f : Flate) where
  -- Messages, each given by its Writes, through one contextTakeoverWriterFactory: what is sent for
  -- each, or none after an error.
  unfoldable pub compress_messages :
      ℤ → List (List (List ℕ)) → Option (Deflater f) → Option (List (List ℕ))
  compress_messages level [] kept = some []
  compress_messages level (ps ∷ ms) kept =
      let (e, w) = write_pieces f ps (new_compression_writer f kept empty_net level) in
      elim e [
        | some e' ↦ none
        | none ↦ elim (compress_messages level ms (some w.deflater)) [
          | none ↦ none
          | some bodies ↦ some (w.deflater.tw.below.sent ∷ bodies)
        ]
      ]

  -- Reads up to EOF, and the window after them; one more round than there are pieces is enough.
  unfoldable pub takeover_read_all : ℕ → TakeoverReader f → Option (List ℕ × List ℕ)
  takeover_read_all zero r = none
  takeover_read_all (suc fuel) r =
      let ((b, e), r') = takeover_read f r in
      elim e [
        | none ↦ elim (takeover_read_all fuel r') [
          | none ↦ none
          | some (t, window) ↦ some (b ++ t, window)
        ]
        | some eof ↦ some ([], r'.window)
        | some _ ↦ none
      ]

  abbrev rounds : Option (List (List ℕ)) → ℕ
  rounds none = 1
  rounds (some bs) = suc (length bs)

  -- Bodies of messages through one contextTakeoverReaderFactory.
  unfoldable pub decompress_messages : List (List ℕ) → List ℕ → Option (List (List ℕ))
  decompress_messages [] window = some []
  decompress_messages (body ∷ bodies) window = elim (new_decompression_reader f window body) [
    | none ↦ none
    | some r ↦ elim (takeover_read_all (rounds r.pieces) r) [
      | none ↦ none
      | some (t, window') ↦ elim (decompress_messages bodies window') [
        | none ↦ none
        | some ts ↦ some (t ∷ ts)
      ]
    ]
  ]

  takeover_read_all-concat :
      (bs : List (List ℕ)) (window : List ℕ)
      → takeover_read_all (suc (length bs)) (record { pieces = some bs; window = window })
        ≡ some (concat bs, slide_all max_window_bits bs window)
  unfolding takeover_read_all takeover_read
  takeover_read_all-concat [] window = refl
  takeover_read_all-concat (b ∷ bs) window =
      rw (takeover_read_all-concat bs (slide max_window_bits b window)) refl

  module _ (laws : IsFlate f) where
    history-run_writes :
        (w : f.Writer) (ps : List (List ℕ))
        → laws.history (run_writes f w ps).0 ≡ laws.history w ++ concat ps
    unfolding run_writes
    history-run_writes w [] = sym (append-nil (laws.history w))
    history-run_writes w (p ∷ ps) =
        history-run_writes (f.write w p).0 ps
        ∙ ap (λ t. t ++ concat ps) (laws.history-write w p)
        ∙ append_assoc (laws.history w) p (concat ps)

    history-run :
        (w : f.Writer) (ps : List (List ℕ))
        → laws.history (run f w ps).0 ≡ laws.history w ++ concat ps
    unfolding run
    history-run w ps = laws.history-flush (run_writes f w ps).0 ∙ history-run_writes w ps

    run-AtBoundary : (w : f.Writer) (ps : List (List ℕ)) → laws.AtBoundary (run f w ps).0
    unfolding run
    run-AtBoundary w ps = laws.flush-AtBoundary (run_writes f w ps).0

    -- The messages are compressed without an error, and restored from what was sent.
    pub record AreRestored (level : ℤ) (ms : List (List (List ℕ))) (kept : Option (Deflater f))
        (window : List ℕ) : Type 0 where
      pub bodies : List (List ℕ)
      pub compresses : compress_messages level ms kept ≡ some bodies
      pub decompresses : decompress_messages bodies window ≡ some (map concat ms)

    decompress_first :
        (body window t window' : List ℕ) (bodies ts bs : List (List ℕ))
        → f.read window (body ++ deflate_message_tail_read) ≡ some bs
        → concat bs ≡ t
        → slide_all max_window_bits bs window ≡ window'
        → decompress_messages bodies window' ≡ some ts
        → decompress_messages (body ∷ bodies) window ≡ some (t ∷ ts)
    unfolding decompress_messages new_decompression_reader
    decompress_first body window t window' bodies ts bs reads whole slides rest = ground (
      arith,
      reads,
      whole,
      slides,
      rest,
      takeover_read_all-concat bs window,
      ap (λ w. decompress_messages bodies w) slides,
    )

    kept_writer :
        (level : ℤ) (d : Deflater f) (w : f.Writer)
        → d.fw ≡ w
        → d.sticky ≡ none
        → new_compression_writer f (some d) empty_net level ≡ at_work f w fresh
    unfolding new_compression_writer
    kept_writer level d w e fine = λ i. record {
      is_open = true;
      deflater = record { fw = e i; sticky = fine i; tw = trunc_over empty_net };
      closes = 0;
    }

    restored :
        (level : ℤ) (ms : List (List (List ℕ))) (kept : Option (Deflater f)) (w : f.Writer)
        → new_compression_writer f kept empty_net level ≡ at_work f w fresh
        → laws.AtBoundary w
        → AreRestored level ms kept (last max_window_bits (laws.history w))
    unfolding compress_messages decompress_messages
    restored level [] kept w start at = record {
      bodies = [];
      compresses = refl;
      decompresses = refl;
    }
    restored level (ps ∷ ms) kept w start at =
        let (front, marked) = laws.marked w ps at in
        let (bs, reads, whole) = laws.restores w ps front at marked in
        let r = write_pieces f ps (new_compression_writer f kept empty_net level) in
        let d : IsDeflated f w ps front r =
          subst (λ x. IsDeflated f w ps front (write_pieces f ps x)) (sym start)
            (write_pieces-IsDeflated f ps w front marked) in
        let w' = (run f w ps).0 in
        let rest =
          restored level ms (some r.1.deflater) w'
            (kept_writer level r.1.deflater w' d.writer d.fine) (run-AtBoundary w ps) in
        let slides : slide_all max_window_bits bs (last max_window_bits (laws.history w))
            ≡ last max_window_bits (laws.history w') =
          slide_all-append max_window_bits bs (laws.history w)
          ∙ ap (λ t. last max_window_bits (laws.history w ++ t)) whole
          ∙ ap (last max_window_bits) (sym (history-run w ps)) in
        record {
          bodies = front ∷ rest.bodies;
          compresses = ground (arith, d.no_error, d.sent, rest.compresses);
          decompresses =
              decompress_first front (last max_window_bits (laws.history w)) (concat ps)
                (last max_window_bits (laws.history w')) rest.bodies (map concat ms) bs reads whole
                slides rest.decompresses;
        }

    -- With context takeover on both sides, messages that are written in any pieces are compressed
    -- without an error, and the reader restores every one of them from what was sent, in their order.
    pub context_takeover-AreRestored :
        (level : ℤ) (ms : List (List (List ℕ))) → AreRestored level ms none []
    unfolding new_compression_writer
    context_takeover-AreRestored level ms =
        subst (AreRestored level ms none) (ap (last max_window_bits) (laws.history-new level))
          (restored level ms none (f.new_writer level) refl (laws.new-AtBoundary level))
