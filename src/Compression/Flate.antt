-- ===== src/Compression/Flate.antt =====
-- The compressors of compression.go over compress/flate, which is an argument: its writers and
-- readers, with or without context takeover. The pools are left out: a flate.Writer or a reader that
-- is reset is as good as new.
use magilla.Base.{ℕ, ◌+◌, Bool, true, false, List, [], ◌∷◌, ◌++◌, Option, none, some}
use magilla.Base.{same_text, if◌then◌else◌}
use magilla.Base.Integers.{ℤ}
use magilla.Errors.{Error}
use mathlib.Core.Option
use magilla.Conn.Net.{Network}
use magilla.Compression.{TruncWriter, max_window_bits, slide}
use magilla.Compression.Trunc.{trunc_write_all}

-- What is used of compress/flate. A Write and a Flush hand pieces to the writer below; a reader that
-- was reset with a dictionary on a stream returns pieces up to EOF, or none if it meets an error.
pub record Flate : Type 1 where
  pub Writer : Type 0
  pub new_writer : ℤ → Writer
  pub write : Writer → List ℕ → Writer × List (List ℕ)
  pub flush : Writer → Writer × List (List ℕ)
  pub read : List ℕ → List ℕ → Option (List (List ℕ))

-- The errors of the wrappers; `below` carries one of the writer below.
pub data FlateError : Type 0 where
  eof closed_pipe write_closed unexpected_bytes : FlateError
  below : Error → FlateError

-- `deflateMessageTail` and `deflateMessageTailRead`
abbrev pub deflate_message_tail : List ℕ
deflate_message_tail = 0 ∷ 0 ∷ 0xff ∷ 0xff ∷ []

abbrev pub deflate_message_tail_read : List ℕ
deflate_message_tail_read = 0 ∷ 0 ∷ 0xff ∷ 0xff ∷ 1 ∷ 0 ∷ 0 ∷ 0xff ∷ 0xff ∷ []

abbrev wrapped : Option Error → Option FlateError
wrapped none = none
wrapped (some e) = some (below e)

-- A truncWriter at the start of a message.
abbrev pub trunc_over : Network → TruncWriter
trunc_over net = record { below = net; n = 0; p = 0 ∷ 0 ∷ 0 ∷ 0 ∷ [] }

module _ (f : Flate) where
  -- A flate.Writer with the error that it keeps, and the truncWriter below it.
  pub record Deflater : Type 0 where
    pub fw : f.Writer
    pub sticky : Option Error
    pub tw : TruncWriter

  -- The pieces go through the truncWriter, up to an error.
  unfoldable pub hand_over : f.Writer × List (List ℕ) → Deflater → Option Error × Deflater
  hand_over (fw, bs) d = elim d.sticky [
    | some e ↦ (some e, d)
    | none ↦ let (e, tw) = trunc_write_all bs d.tw in (e, record { fw = fw; sticky = e; tw = tw })
  ]

  -- flateWriteWrapper and flateTakeoverWriteWrapper: whether it is open, and how often the writer
  -- below was closed.
  pub record WriteWrapper : Type 0 where
    pub is_open : Bool
    pub deflater : Deflater
    pub closes : ℕ

  -- flateWriteWrapper.Write
  unfoldable pub wrapper_write : List ℕ → WriteWrapper → Option FlateError × WriteWrapper
  wrapper_write p w =
      let (e, d) = hand_over (f.write w.deflater.fw p) w.deflater in
      if w.is_open then (wrapped e, record w { deflater = d }) else (some write_closed, w)

  abbrev first_error : Option Error → Option Error → Option FlateError
  first_error none e = wrapped e
  first_error (some e') e = wrapped (some e')

  -- flateWriteWrapper.Close, with what the writer below answers to its Close.
  unfoldable pub wrapper_close : Option Error → WriteWrapper → Option FlateError × WriteWrapper
  wrapper_close answer w =
      let (e, d) = hand_over (f.flush w.deflater.fw) w.deflater in
      let w' = record w { is_open = false; deflater = d } in
      if w.is_open
      then (if same_text d.tw.p deflate_message_tail
          then (first_error e answer, record w' { closes = w.closes + 1 })
          else (some unexpected_bytes, w'))
      else (none, w)

  -- compressNoContextTakeover
  unfoldable pub compress_no_context_takeover : Network → ℤ → WriteWrapper
  compress_no_context_takeover net level = record {
    is_open = true;
    deflater = record { fw = f.new_writer level; sticky = none; tw = trunc_over net };
    closes = 0;
  }

  -- contextTakeoverWriterFactory.newCompressionWriter, with what the factory has kept.
  unfoldable pub new_compression_writer : Option Deflater → Network → ℤ → WriteWrapper
  new_compression_writer kept net level = record {
    is_open = true;
    deflater = elim kept [
      | none ↦ record { fw = f.new_writer level; sticky = none; tw = trunc_over net }
      | some d ↦ record d { tw = trunc_over net }
    ];
    closes = 0;
  }

  -- flateReadWrapper: the pieces that its flate reader has left, or none for nil.
  pub record ReadWrapper : Type 0 where
    pub fr : Option (List (List ℕ))

  -- decompressNoContextTakeover on a stream that the reader can read.
  unfoldable pub decompress_no_context_takeover : List ℕ → Option ReadWrapper
  decompress_no_context_takeover s =
      Option.map (λ bs. record { fr = some bs }) (f.read [] (s ++ deflate_message_tail_read))

  -- flateReadWrapper.Close
  unfoldable pub flate_read_close : ReadWrapper → ReadWrapper
  flate_read_close r = record { fr = none }

  -- flateReadWrapper.Read
  unfoldable pub flate_read : ReadWrapper → (List ℕ × Option FlateError) × ReadWrapper
  flate_read r = elim r.fr [
    | none ↦ (([], some closed_pipe), r)
    | some bs ↦ elim bs [
      | [] ↦ (([], some eof), flate_read_close r)
      | b ∷ bs' ↦ ((b, none), record { fr = some bs' })
    ]
  ]

  -- flateTakeoverReadWrapper, with the window of its factory; none for the nil factory.
  pub record TakeoverReader : Type 0 where
    pub pieces : Option (List (List ℕ))
    pub window : List ℕ

  -- contextTakeoverReaderFactory.newDecompressionReader
  unfoldable pub new_decompression_reader : List ℕ → List ℕ → Option TakeoverReader
  new_decompression_reader window s =
      Option.map (λ bs. record { pieces = some bs; window = window })
        (f.read window (s ++ deflate_message_tail_read))

  -- flateTakeoverReadWrapper.Read
  unfoldable pub takeover_read : TakeoverReader → (List ℕ × Option FlateError) × TakeoverReader
  takeover_read r = elim r.pieces [
    | none ↦ (([], some closed_pipe), r)
    | some bs ↦ elim bs [
      | [] ↦ (([], some eof), r)
      | b ∷ bs' ↦
          ((b, none), record { pieces = some bs'; window = slide max_window_bits b r.window })
    ]
  ]

  -- flateTakeoverReadWrapper.Close; the window stays with the factory.
  unfoldable pub takeover_read_close : TakeoverReader → TakeoverReader
  takeover_read_close r = record r { pieces = none }
