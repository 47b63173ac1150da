-- ===== src/Conn/Message.antt =====
-- The messageWriter of conn.go: it fills `write_buf` and sends it as frames.
use magilla.Base.{ℕ, zero, suc, ◌+◌, ◌-◌, ◌*◌, ◌%◌, Bool, true, false, not, ◌&&◌, ◌||◌}
use magilla.Base.{List, [], ◌∷◌, Option, none, some, length, drop, bit_or, min}
use magilla.Base.{take, ltb, leb, ◌==◌, if◌then◌else◌}
use magilla.Opcode
use magilla.Errors.{Error, is_control}
use magilla.Errors.Error.{write_closed, invalid_control_frame, extra_in_client_mode}
use magilla.Conn.{Machine, Conn, MessageWriter}
use magilla.Conn.Write.{
  final_bit, rsv1_bit, mask_bit, max_frame_header_size, max_control_frame_payload_size, copy_at,
  slice, put_uint16, put_uint64, new_mask_key, write_fatal, write, masks, mask,
}

-- The error returned, the writer and the connection after a call.
pub record Wrote : Type 0 where
  pub err : Option Error
  pub writer : MessageWriter
  pub conn : Conn

-- `c.writePool.Put(writePoolData{buf: c.writeBuf}); c.writeBuf = nil`, with a pool.
unfoldable pub put_back : Conn → Conn
put_back c = elim c.write_pool [
  | none ↦ c
  | some bufs ↦ record c { write_pool = some (c.write_buf ∷ bufs); write_buf = [] }
]

-- Conn.releaseWriteMu
unfoldable pub release_write_mu : Conn → Conn
release_write_mu c = record c { write_mu = true }

-- messageWriter.endMessage
unfoldable pub end_message : Error → MessageWriter → Conn → Wrote
unfolding put_back release_write_mu
end_message e w c = elim w.err [
  | some old ↦ record { err = some e; writer = w; conn = c }
  | none ↦ record {
    err = some e;
    writer = record w { err = some e };
    conn = release_write_mu (put_back (record c { writer = none }));
  }
]

-- The first byte of a frame.
unfoldable pub first_byte : Bool → MessageWriter → ℕ
first_byte final w =
    let b = w.frame_type % 256 in
    let b' = if final then bit_or b final_bit else b in
    if w.compress then bit_or b' rsv1_bit else b'

-- The start of the header in `write_buf`, and the buffer with the header in it; `at` is the start
-- of a header with a length of eight bytes.
unfoldable pub put_header : ℕ → ℕ → ℕ → ℕ → List ℕ → ℕ × List ℕ
put_header at b0 b1 len buf =
    if leb 65536 len
    then (
      at,
      copy_at (at + 2) (put_uint64 len)
          (copy_at (at + 1) (bit_or b1 127 ∷ []) (copy_at at (b0 ∷ []) buf)),
    )
    else if ltb 125 len
    then (
      at + 6,
      copy_at (at + 6 + 2) (put_uint16 (len % 65536))
          (copy_at (at + 6 + 1) (bit_or b1 126 ∷ []) (copy_at (at + 6) (b0 ∷ []) buf)),
    )
    else (
      at + 8,
      copy_at (at + 8 + 1) (bit_or b1 (len % 256) ∷ []) (copy_at (at + 8) (b0 ∷ []) buf),
    )

module _ (m : Machine) where
  -- The key is put behind the header, and the payload masked in place.
  unfoldable pub mask_buffer : List ℕ → ℕ → List ℕ → List ℕ
  mask_buffer key pos buf =
      let buf' = copy_at (max_frame_header_size - 4) key buf in
      copy_at max_frame_header_size (mask m key 0 (slice max_frame_header_size pos buf')).0 buf'

  -- The end of flushFrame, once the bytes of the frame have been handed over.
  unfoldable pub after_write : Bool → MessageWriter → Option Error × Conn → Wrote
  after_write final w (e, c) = elim e [
    | some e' ↦ end_message e' w c
    | none ↦
        if final
        then (let r = end_message write_closed w c in record r { err = none })
        else record {
          err = none;
          writer = record w { pos = max_frame_header_size; frame_type = Opcode.continuation };
          conn = c;
        }
  ]

  -- messageWriter.flushFrame
  unfoldable pub flush_frame : Bool → List ℕ → MessageWriter → Conn → Wrote
  flush_frame final extra w c =
      let len = w.pos - max_frame_header_size + length extra in
      if is_control w.frame_type && (not final || ltb max_control_frame_payload_size len)
      then end_message invalid_control_frame w c
      else (let b0 = first_byte final w in
          let w' = record w { compress = false } in
          let b1 = if masks c then mask_bit else 0 in
          let (at, buf) = put_header (if masks c then 0 else 4) b0 b1 len c.write_buf in
          if masks c
          then (let (key, rand) = new_mask_key c.rand in
              let buf' = mask_buffer key w.pos buf in
              let c' = record c { write_buf = buf'; rand = rand } in
              if ltb 0 (length extra)
              then end_message extra_in_client_mode w' (write_fatal extra_in_client_mode c')
              else after_write final w' (write w'.frame_type (slice at w.pos buf') extra c'))
          else (let c' = record c { write_buf = buf } in
              after_write final w' (write w'.frame_type (slice at w.pos buf) extra c')))

  -- messageWriter.payloadRoom
  unfoldable pub payload_room : MessageWriter → Conn → ℕ
  payload_room w c =
      let room = length c.write_buf - w.pos in
      let cap' = c.write_frame_size - (w.pos - max_frame_header_size) in
      if ltb 0 c.write_frame_size && ltb cap' room then cap' else room

  -- messageWriter.ncopy: how many bytes to copy next, after a flush if the frame is full.
  unfoldable pub ncopy : ℕ → MessageWriter → Conn → ℕ × Wrote
  ncopy max' w c =
      let n = payload_room w c in
      if n == 0
      then (let r = flush_frame false [] w c in
          elim r.err [ some e ↦ (0, r) | none ↦ (min (payload_room r.writer r.conn) max', r) ])
      else (min n max', record { err = none; writer = w; conn = c })

  -- `copy(w.c.writeBuf[w.pos:], p[:n]); w.pos += n`
  unfoldable pub append_bytes : List ℕ → MessageWriter → Conn → MessageWriter × Conn
  append_bytes p w c =
      (record w { pos = w.pos + length p }, record c { write_buf = copy_at w.pos p c.write_buf })

  -- The copying loop of messageWriter.Write; `none` if the fuel runs out.
  unfoldable pub copy_loop : ℕ → List ℕ → MessageWriter → Conn → Option Wrote
  copy_loop fuel [] w c = some (record { err = none; writer = w; conn = c })
  copy_loop zero (b ∷ p) w c = none
  copy_loop (suc fuel) (b ∷ p) w c =
      let (n, r) = ncopy (length (b ∷ p)) w c in
      elim r.err [
        | some e ↦ some r
        | none ↦
            let (w', c') = append_bytes (take n (b ∷ p)) r.writer r.conn in
            copy_loop fuel (drop n (b ∷ p)) w' c'
      ]

  -- messageWriter.Write
  unfoldable pub message_write : List ℕ → MessageWriter → Conn → Option Wrote
  message_write p w c = elim w.err [
    | some e ↦ some (record { err = some e; writer = w; conn = c })
    | none ↦
        if ltb (2 * length c.write_buf) (length p)
          && c.is_server
          && (c.write_frame_size == 0 || leb (length p) c.write_frame_size)
        then some (flush_frame false p w c)
        else copy_loop (length p) p w c
  ]

  -- messageWriter.Close
  unfoldable pub message_close : MessageWriter → Conn → Wrote
  message_close w c = elim w.err [
    | some e ↦ record { err = some e; writer = w; conn = c }
    | none ↦ flush_frame true [] w c
  ]
