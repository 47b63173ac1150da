-- ===== src/Conn/Read.antt =====
-- The frame reader of conn.go, without compression: FormatCloseMessage, Conn.read and
-- Conn.advanceFrame with the handlers of control messages.
use magilla.Base.{ℕ, zero, suc, ◌+◌, ◌*◌, ◌/◌, ◌%◌, ◌^◌, Bool, true, false, not, ◌&&◌, ◌||◌}
use magilla.Base.{List, [], ◌∷◌, ◌++◌, Option, none, some, take, get_or, bit_and}
use magilla.Base.{ltb, leb, ◌==◌, if◌then◌else◌, ◌⊎◌, inl, inr}
use magilla.Opcode
use magilla.CloseCode
use magilla.Errors.{Error, is_control, is_data, is_valid_received_close_code, unexpected_eof, codes}
use magilla.Errors.Error.{read_limit, eof, close_error, protocol}
use magilla.Utf8.{dfa_validate, accept}
use magilla.Conn.{Machine, Conn}
use magilla.Conn.Net.{take_input}
use magilla.Conn.Write.{
  final_bit, rsv1_bit, mask_bit, max_control_frame_payload_size, put_uint16, mask, write_control,
}

abbrev pub rsv2_bit : ℕ
rsv2_bit = 0x20

abbrev pub rsv3_bit : ℕ
rsv3_bit = 0x10

-- `writeWait`, in nanoseconds.
abbrev pub write_wait : ℕ
write_wait = 1000000000

-- FormatCloseMessage
unfoldable pub format_close_message : ℕ → List ℕ → List ℕ
unfolding put_uint16
format_close_message code text =
    if code == CloseCode.no_status then [] else put_uint16 (code % 65536) ++ text

-- `binary.BigEndian.Uint16` and `Uint64`, of two and of eight bytes.
unfoldable pub get_uint : ℕ → List ℕ → ℕ
get_uint v [] = v
get_uint v (b ∷ bs) = get_uint (v * 256 + b) bs

-- `strconv.Itoa`; the number itself is enough fuel for its digits.
unfoldable pub decimal : ℕ → ℕ → List ℕ
decimal zero n = (48 + n % 10) ∷ []
decimal (suc fuel) n =
    let front = decimal fuel (n / 10) in
    if ltb n 10 then (48 + n) ∷ [] else front ++ (48 + n % 10) ∷ []

abbrev pub itoa : ℕ → List ℕ
itoa n = decimal n n

-- `strings.Join(errors, ", ")`
unfoldable pub join_errors : List (List ℕ) → List ℕ
join_errors [] = []
join_errors (e ∷ []) = e
join_errors (e ∷ e' ∷ es) = e ++ (codes ", " ++ join_errors (e' ∷ es))

-- A bit of a header byte.
abbrev pub has_bit : ℕ → ℕ → Bool
has_bit b bit = not (bit_and b bit == 0)

-- The error of Conn.read: a connection that ends early is unexpected.
unfoldable pub read_error : Option Error → Option Error
read_error none = none
read_error (some e) = elim e [ eof ↦ some unexpected_eof | other ↦ some other ]

-- Conn.read
unfoldable pub read : ℕ → Conn → Option Error × (List ℕ × Conn)
read n c =
    let g = take_input n c.input in (read_error g.err, (g.bytes, record c { input = g.left }))

-- Conn.setReadRemaining of an int64, given as its 64 bits.
unfoldable pub set_read_remaining : ℕ → Conn → Option Error × Conn
set_read_remaining n c =
    if leb (2 ^ 63) n then (some read_limit, c) else (none, record c { read_remaining = n })

-- The error messages on the first two bytes of a header.
abbrev when : Bool → List ℕ → List (List ℕ)
when true message = message ∷ []
when false message = []

unfoldable pub header_errors : ℕ → ℕ → Conn → List (List ℕ)
header_errors p0 p1 c =
    let frame_type = bit_and p0 0xf in
    let final = has_bit p0 final_bit in
    let control = is_control frame_type in
    let data' = is_data frame_type in
    let continuation = frame_type == Opcode.continuation in
    when (has_bit p0 rsv1_bit) (codes "RSV1 set")
    ++ (when (has_bit p0 rsv2_bit) (codes "RSV2 set")
        ++ (when (has_bit p0 rsv3_bit) (codes "RSV3 set")
            ++ (when (control && ltb max_control_frame_payload_size (bit_and p1 0x7f))
                  (codes "len > 125 for control")
                ++ (when (control && not final) (codes "FIN not set on control")
                    ++ (when (data' && not c.read_final) (codes "data before FIN")
                        ++ (when (continuation && c.read_final) (codes "continuation after FIN")
                            ++ (when (not control && not data' && not continuation)
                                  (codes "bad opcode " ++ itoa frame_type)
                                ++ when (not (same (has_bit p1 mask_bit) c.is_server))
                                    (codes "bad MASK"))))))))
  where
    same : Bool → Bool → Bool
    same true b = b
    same false b = not b

-- `readFinal` behind the first two bytes.
abbrev pub final_after : ℕ → Bool → Bool
final_after p0 old =
    if is_control (bit_and p0 0xf)
    then old
    else if is_data (bit_and p0 0xf) || bit_and p0 0xf == Opcode.continuation
    then has_bit p0 final_bit
    else old

module _ (m : Machine) where
  -- A close message with a deadline, sent as well as may be.
  unfoldable pub send_close : List ℕ → Conn → Conn
  send_close body c = (write_control m Opcode.close body (some (c.now + write_wait)) c).1

  -- Conn.handleProtocolError
  unfoldable pub handle_protocol_error : List ℕ → Conn → Error × Conn
  handle_protocol_error message c = (
    protocol (codes "websocket: " ++ message),
    send_close
        (take max_control_frame_payload_size
          (format_close_message CloseCode.protocol_error message))
        c,
  )

  -- The handlers: those of the application, or the default ones.
  unfoldable pub handle_pong : List ℕ → Conn → Option Error × Conn
  handle_pong payload c = elim c.handle_pong [ none ↦ (none, c) | some h ↦ (h payload, c) ]

  unfoldable pub handle_ping : List ℕ → Conn → Option Error × Conn
  handle_ping payload c = elim c.handle_ping [
    | some h ↦ (h payload, c)
    | none ↦ (none, (write_control m Opcode.pong payload (some (c.now + write_wait)) c).1)
  ]

  unfoldable pub handle_close : ℕ → List ℕ → Conn → Option Error × Conn
  handle_close code text c = elim c.handle_close [
    | some h ↦ (h code text, c)
    | none ↦ (none, send_close (format_close_message code []) c)
  ]

  -- A frame type, or an error.
  abbrev pub Advanced : Type 0
  Advanced = (Error ⊎ ℕ) × Conn

  abbrev pub fails : Error × Conn → Advanced
  fails (e, c) = (inl e, c)

  -- What follows a read or a setReadRemaining that went well, and a header without errors.
  abbrev pub after_read : Option Error × (List ℕ × Conn) → (List ℕ → Conn → Advanced) → Advanced
  after_read (some e, (p, c)) f = (inl e, c)
  after_read (none, (p, c)) f = f p c

  abbrev pub after_set : Option Error × Conn → (Conn → Advanced) → Advanced
  after_set (some e, c) f = (inl e, c)
  after_set (none, c) f = f c

  abbrev pub checked : List (List ℕ) → Conn → (Conn → Advanced) → Advanced
  checked [] c f = f c
  checked (e ∷ es) c f = fails (handle_protocol_error (join_errors (e ∷ es)) c)

  -- The error of a close frame, behind its handler.
  abbrev pub closed : ℕ → List ℕ → Option Error × Conn → Advanced
  closed code text (some e, c) = (inl e, c)
  closed code text (none, c) = (inl (close_error code text), c)

  -- A close frame with a code.
  unfoldable pub process_code : ℕ → List ℕ → Conn → Advanced
  process_code code text c =
      if not (is_valid_received_close_code code)
      then fails (handle_protocol_error (codes "bad close code " ++ itoa code) c)
      else if not (dfa_validate text == accept)
      then fails (handle_protocol_error (codes "invalid utf8 payload in close frame") c)
      else closed code text (handle_close code text c)

  -- Step 7 for a close frame, by whether its payload has two bytes.
  unfoldable pub process_close : List ℕ → Conn → Advanced
  process_close (x ∷ y ∷ text) c = process_code (get_uint 0 (x ∷ y ∷ [])) text c
  process_close (x ∷ []) c = closed CloseCode.no_status [] (handle_close CloseCode.no_status [] c)
  process_close [] c = closed CloseCode.no_status [] (handle_close CloseCode.no_status [] c)

  abbrev pub handled : ℕ → Option Error × Conn → Advanced
  handled frame_type (some e, c) = (inl e, c)
  handled frame_type (none, c) = (inr frame_type, c)

  -- Step 7.
  unfoldable pub process_control : ℕ → List ℕ → Conn → Advanced
  process_control frame_type payload c =
      if frame_type == Opcode.pong
      then handled frame_type (handle_pong payload c)
      else if frame_type == Opcode.ping
      then handled frame_type (handle_ping payload c)
      else process_close payload c

  abbrev unmasked : List ℕ → Conn → List ℕ
  unmasked payload c = if c.is_server then (mask m c.read_mask_key 0 payload).0 else payload

  -- Steps 6 and 7: the payload of a control frame is read and processed.
  unfoldable pub read_control : ℕ → Conn → Advanced
  read_control frame_type c =
      if c.read_remaining == 0
      then process_control frame_type [] c
      else (let (e, (payload, c1)) = read c.read_remaining c in
          let c2 = record c1 { read_remaining = 0 } in
          elim e [
            | some e' ↦ (inl e', c2)
            | none ↦ process_control frame_type (unmasked payload c2) c2
          ])

  -- Step 5: the read limit. `read_length` is an int64, given as its 64 bits.
  unfoldable pub check_limit : ℕ → Conn → Advanced
  check_limit frame_type c =
      let total = c.read_length + c.read_remaining in
      let c' = record c { read_length = total } in
      if leb (2 ^ 63) total
      then (inl read_limit, c')
      else if ltb 0 c.read_limit && ltb c.read_limit total
      then (inl read_limit, send_close (format_close_message CloseCode.too_big []) c')
      else (inr frame_type, c')

  -- Steps 5 to 7.
  unfoldable pub finish_frame : ℕ → Conn → Advanced
  finish_frame frame_type c =
      if frame_type == Opcode.continuation || is_data frame_type
      then check_limit frame_type c
      else read_control frame_type c

  -- Steps 4 to 7.
  unfoldable pub read_key : ℕ → Bool → Conn → Advanced
  read_key frame_type masked' c =
      if masked'
      then after_read (read 4 (record c { read_mask_pos = 0 }))
          (λ key c'. finish_frame frame_type (record c' { read_mask_key = key }))
      else finish_frame frame_type c

  -- A length of `n` bytes behind the first two.
  unfoldable pub read_extended : ℕ → ℕ → Bool → Conn → Advanced
  read_extended n frame_type masked' c =
      after_read (read n c)
        (λ p c1. after_set (set_read_remaining (get_uint 0 p) c1) (read_key frame_type masked'))

  -- Steps 3 to 7.
  unfoldable pub read_length_bytes : ℕ → Bool → Conn → Advanced
  read_length_bytes frame_type masked' c =
      if c.read_remaining == 126
      then read_extended 2 frame_type masked' c
      else if c.read_remaining == 127
      then read_extended 8 frame_type masked' c
      else read_key frame_type masked' c

  -- The checks on the first two bytes, and steps 3 to 7.
  unfoldable pub parse_header : ℕ → ℕ → Conn → Advanced
  parse_header p0 p1 c =
      let errors = header_errors p0 p1 c in
      let c' = record c {
        read_remaining = bit_and p1 0x7f;
        read_final = final_after p0 c.read_final;
      } in
      checked errors c' (read_length_bytes (bit_and p0 0xf) (has_bit p1 mask_bit))

  -- Steps 2 to 7.
  unfoldable pub read_header : Conn → Advanced
  read_header c = after_read (read 2 c) (λ p c'. parse_header (get_or p 0 0) (get_or p 1 0) c')

  -- Conn.advanceFrame
  unfoldable pub advance_frame : Conn → Advanced
  advance_frame c =
      if ltb 0 c.read_remaining
      then (let g = take_input c.read_remaining c.input in
          let c' = record c { input = g.left } in
          elim g.err [ some e ↦ (inl e, c') | none ↦ read_header c' ])
      else read_header c
