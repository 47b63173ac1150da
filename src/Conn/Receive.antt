-- ===== src/Conn/Receive.antt =====
-- The public read methods of conn.go over advanceFrame, without compression: NextReader, the
-- messageReader, the utf8ValidatingReader and ReadMessage.
use magilla.Base.{ℕ, zero, suc, ◌+◌, ◌-◌, Bool, true, false, not, ◌&&◌}
use magilla.Base.{List, [], ◌∷◌, ◌++◌, Option, none, some, length, min}
use magilla.Base.{ltb, leb, ◌==◌, if◌then◌else◌, ◌⊎◌, inl, inr}
use magilla.Opcode
use magilla.CloseCode
use magilla.Errors.{Error, is_data, is_timeout, unexpected_eof}
use magilla.Errors.Error.{eof, invalid_utf8, unexpected_data}
use magilla.Utf8.{dfa_step, accept, reject}
use magilla.Conn.{Machine, Conn}
use magilla.Conn.Net.{read_input}
use magilla.Conn.Write.{mask}
use magilla.Conn.Read.{Advanced, advance_frame, format_close_message, send_close}

-- What NextReader returns. A reader is known by its number.
pub data Next : Type 0 where
  message : ℕ → ℕ → Conn → Next
  no_message : Option Error → Conn → Next
  panics : Conn → Next

-- What a Read returns.
pub record Piece : Type 0 where
  pub bytes : List ℕ
  pub err : Option Error
  pub conn : Conn

abbrev pub is_eof : Option Error → Bool
is_eof none = false
is_eof (some e) = elim e [ eof ↦ true | _ ↦ false ]

-- The utf8ValidatingReader's loop over the bytes that were read: the state and the code point, and
-- whether a byte was rejected.
unfoldable pub step_all : ℕ → ℕ → List ℕ → Bool × (ℕ × ℕ)
step_all state codepoint [] = (false, (state, codepoint))
step_all state codepoint (b ∷ p) =
    let (state', codepoint') = dfa_step state codepoint b in
    let rest = step_all state' codepoint' p in
    if state' == reject then (true, (state', codepoint')) else rest

module _ (m : Machine) where
  -- The end of NextReader on a connection that has failed.
  unfoldable pub failed_read : Conn → Next
  failed_read c =
      let c' = record c { read_err_count = c.read_err_count + 1 } in
      if leb 1000 c'.read_err_count then panics c' else no_message c.read_err c'

  -- NextReader with a frame of a data message.
  unfoldable pub new_reader : ℕ → Conn → Next
  new_reader frame_type c =
      let c' = record c { message_reader = some c.readers; readers = c.readers + 1 } in
      message frame_type c.readers (
        if frame_type == Opcode.text && not c.skip_utf8_validation
        then record c' { read_utf8_state = accept; read_utf8_codepoint = 0 }
        else c')

  -- One round of NextReader's loop: it ends, or goes on with a connection.
  unfoldable pub next_round : Advanced m → Next ⊎ Conn
  next_round (inl e, c) =
      if is_timeout e
      then inl (no_message (some e) c)
      else inl (failed_read (record c { read_err = some e }))
  next_round (inr frame_type, c) =
      let c' = record c { read_err_count = 0 } in
      if is_data frame_type then inl (new_reader frame_type c') else inr c'

  -- The loop of NextReader; `none` if the fuel runs out.
  unfoldable pub next_loop : ℕ → Conn → Option Next
  next_loop zero c = none
  next_loop (suc fuel) c = elim c.read_err [
    | some e ↦ some (failed_read c)
    | none ↦ elim (next_round (advance_frame m c)) [
      | inl next ↦ some next
      | inr c' ↦ next_loop fuel c'
    ]
  ]

  -- Conn.NextReader; each round takes two bytes of the input or ends the loop.
  unfoldable pub next_reader : Conn → Option Next
  next_reader c =
      next_loop (suc (length c.input)) (record c { message_reader = none; read_length = 0 })

  -- A Read within a frame.
  unfoldable pub read_payload : ℕ → Conn → Piece
  read_payload size c =
      let g = read_input (min size c.read_remaining) c.input in
      let (bytes, pos) =
        if c.is_server
        then mask m c.read_mask_key c.read_mask_pos g.bytes
        else (g.bytes, c.read_mask_pos) in
      let rem = c.read_remaining - length g.bytes in
      let e = if ltb 0 rem && is_eof g.err then some unexpected_eof else g.err in
      record {
        bytes = bytes;
        err = e;
        conn = record c { input = g.left; read_mask_pos = pos; read_remaining = rem; read_err = e };
      }

  -- The end of messageReader.Read on a connection that has failed.
  unfoldable pub failed_piece : Conn → Piece
  failed_piece c = record {
    bytes = [];
    err = if is_eof c.read_err then some unexpected_eof else c.read_err;
    conn = c;
  }

  -- What messageReader.Read keeps of the next frame.
  unfoldable pub next_part : Advanced m → Conn
  next_part (inl e, c) = record c { read_err = some e }
  next_part (inr frame_type, c) =
      if is_data frame_type then record c { read_err = some unexpected_data } else c

  -- The loop of messageReader.Read; `none` if the fuel runs out.
  unfoldable pub read_loop : ℕ → ℕ → Conn → Option Piece
  read_loop zero size c = none
  read_loop (suc fuel) size c = elim c.read_err [
    | some e ↦ some (failed_piece c)
    | none ↦
        let rest = read_loop fuel size (next_part (advance_frame m c)) in
        if ltb 0 c.read_remaining
        then some (read_payload size c)
        else if c.read_final
        then some (record { bytes = []; err = some eof; conn = record c { message_reader = none } })
        else rest
  ]

  abbrev pub is_current : ℕ → Option ℕ → Bool
  is_current reader none = false
  is_current reader (some r) = reader == r

  -- messageReader.Read into a buffer of `size` bytes.
  unfoldable pub message_read : ℕ → ℕ → Conn → Option Piece
  message_read reader size c =
      if is_current reader c.message_reader
      then read_loop (suc (suc (length c.input))) size c
      else some (record { bytes = []; err = some eof; conn = c })

  -- utf8ValidatingReader.rejectUTF8
  unfoldable pub reject_utf8 : Conn → Conn
  reject_utf8 c =
      let c' = send_close m (format_close_message CloseCode.invalid_payload []) c in
      elim c'.read_err [ some e ↦ c' | none ↦ record c' { read_err = some invalid_utf8 } ]

  -- utf8ValidatingReader.Read behind the Read below it: whether it has failed, and its result.
  unfoldable pub validate_piece : Piece → Bool × Piece
  validate_piece r =
      let (bad, (state, codepoint)) =
        step_all r.conn.read_utf8_state r.conn.read_utf8_codepoint r.bytes in
      let c = record r.conn { read_utf8_state = state; read_utf8_codepoint = codepoint } in
      if bad
      then (true, record { bytes = []; err = some invalid_utf8; conn = reject_utf8 c })
      else if is_eof r.err && not (state == accept)
      then (let c' = reject_utf8 c in (true, record { bytes = []; err = c'.read_err; conn = c' }))
      else (false, record { bytes = r.bytes; err = r.err; conn = c })

  -- Read on what NextReader returned; `checked` tells a text whose bytes are validated, and
  -- `failed` whether it was found invalid before.
  unfoldable pub reader_read : Bool → Bool → ℕ → ℕ → Conn → Option (Bool × Piece)
  reader_read checked failed reader size c =
      if checked && failed
      then some (true, record { bytes = []; err = c.read_err; conn = c })
      else elim (message_read reader size c) [
        | none ↦ none
        | some r ↦ some (if checked then validate_piece r else (false, r))
      ]

  -- `io.ReadAll`, which reads until it meets an error and makes EOF of none; the sizes of its
  -- buffer are `sizes`.
  unfoldable pub read_all :
      ℕ → List ℕ → Bool → Bool → ℕ → (ℕ → ℕ) → Conn → Option (List ℕ × (Option Error × Conn))
  read_all zero acc checked failed reader sizes c = none
  read_all (suc fuel) acc checked failed reader sizes c =
      elim (reader_read checked failed reader (sizes fuel) c) [
        | none ↦ none
        | some (failed', r) ↦
            let acc' = acc ++ r.bytes in
            elim r.err [
              | none ↦ read_all fuel acc' checked failed' reader sizes r.conn
              | some e ↦ some (acc', (if is_eof r.err then none else some e, r.conn))
            ]
      ]

  -- Conn.ReadMessage: the message type and the payload, or the error with what was read before it.
  pub data Received : Type 0 where
    received : ℕ → List ℕ → Option Error → Conn → Received
    nothing : Option Error → Conn → Received
    panicked runs_out : Received

  unfoldable pub read_message : ℕ → (ℕ → ℕ) → Conn → Received
  read_message fuel sizes c = elim (next_reader c) [
    | none ↦ runs_out
    | some (panics c') ↦ panicked
    | some (no_message e c') ↦ nothing e c'
    | some (message frame_type reader c') ↦
        let checked = frame_type == Opcode.text && not c.skip_utf8_validation in
        elim (read_all fuel [] checked false reader sizes c') [
          | none ↦ runs_out
          | some (body, (e, c'')) ↦ received frame_type body e c''
        ]
  ]
