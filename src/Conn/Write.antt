-- ===== src/Conn/Write.antt =====
-- The frame writer of conn.go, without compression: Conn.write, WriteControl, and the
-- messageWriter with its buffer. One goroutine runs, so the inner mutex is free at each call.
use magilla.Base.{ℕ, zero, suc, ◌/◌, ◌%◌, ◌^◌, Bool, false, not, ◌&&◌}
use magilla.Base.{List, [], ◌∷◌, ◌++◌, Option, none, some, length, take, drop, bit_or}
use magilla.Base.{ltb, ◌==◌, if◌then◌else◌}
use magilla.Opcode
use magilla.Errors.{Error, is_control}
use magilla.Errors.Error.{close_sent, write_timeout, bad_write_op_code, invalid_control_frame}
use magilla.Mask.{mask_bytes}
use magilla.Conn.{Machine, Conn}
use magilla.Conn.Net.{Network, net_write, net_set_write_deadline}

abbrev pub final_bit : ℕ
final_bit = 0x80

abbrev pub rsv1_bit : ℕ
rsv1_bit = 0x40

abbrev pub mask_bit : ℕ
mask_bit = 0x80

abbrev pub max_frame_header_size : ℕ
max_frame_header_size = 14

abbrev pub max_control_frame_payload_size : ℕ
max_control_frame_payload_size = 125

-- `copy(buf[i:], bs)`, which stops at the end of `buf`.
unfoldable pub copy_at : ℕ → List ℕ → List ℕ → List ℕ
copy_at i bs [] = []
copy_at zero [] (x ∷ buf) = x ∷ buf
copy_at zero (b ∷ bs) (x ∷ buf) = b ∷ copy_at zero bs buf
copy_at (suc i) bs (x ∷ buf) = x ∷ copy_at i bs buf

-- `buf[from:to]`
unfoldable pub slice : ℕ → ℕ → List ℕ → List ℕ
slice from to buf = drop from (take to buf)

-- `binary.BigEndian.PutUint16` and `PutUint64`
unfoldable pub put_uint16 : ℕ → List ℕ
put_uint16 v = (v / 256 % 256) ∷ (v % 256) ∷ []

unfoldable pub put_uint64 : ℕ → List ℕ
unfolding put_uint16
put_uint64 v =
    put_uint16 (v / 2 ^ 48)
    ++ (put_uint16 (v / 2 ^ 32) ++ (put_uint16 (v / 2 ^ 16) ++ put_uint16 v))

-- newMaskKey: four random bytes; bytes that cannot be read stay zero.
unfoldable pub new_mask_key : List ℕ → List ℕ × List ℕ
new_mask_key rand = (take 4 (take 4 rand ++ 0 ∷ 0 ∷ 0 ∷ 0 ∷ []), drop 4 rand)

-- Conn.writeFatal: the first error stays.
unfoldable pub write_fatal : Error → Conn → Conn
write_fatal e c = elim c.write_err [ none ↦ record c { write_err = some e } | some old ↦ c ]

abbrev pub Result : Type 0
Result = Option Error × Conn

abbrev set_net : Network → Conn → Conn
set_net n c = record c { net = n }

-- Conn.writeBufs: each buffer in turn.
unfoldable pub write_bufs : List ℕ → List ℕ → Network → Option Error × Network
write_bufs buf0 buf1 n =
    let (e, n') = net_write buf0 n in elim e [ some e' ↦ (some e', n') | none ↦ net_write buf1 n' ]

-- What `write` and `WriteControl` do once they hold the inner mutex and have set the deadline:
-- an error is recorded, and after a close frame so is ErrCloseSent.
unfoldable pub written : ℕ → Option Error × Network → Conn → Result
unfolding write_fatal
written frame_type (e, n) c = elim e [
  | some e' ↦ (some e', write_fatal e' (set_net n c))
  | none ↦ (
    none,
    if frame_type == Opcode.close then write_fatal close_sent (set_net n c) else set_net n c,
  )
]

-- Conn.write
unfoldable pub write : ℕ → List ℕ → List ℕ → Conn → Result
unfolding write_fatal write_bufs written
write frame_type buf0 buf1 c = elim c.write_err [
  | some e ↦ (some e, c)
  | none ↦
      let (e, n) = net_set_write_deadline c.net in
      elim e [
        | some e' ↦ (some e', write_fatal e' (set_net n c))
        | none ↦
            written frame_type
              (if length buf1 == 0 then net_write buf0 n else write_bufs buf0 buf1 n) c
      ]
]

-- `!c.isServer && !c.disableMask`
unfoldable pub masks : Conn → Bool
masks c = not c.is_server && not c.disable_mask

module _ (m : Machine) where
  -- `maskBytes(key, pos, b)` on this machine.
  unfoldable pub mask : List ℕ → ℕ → List ℕ → List ℕ × ℕ
  mask key pos b = mask_bytes m.big_endian m.word_size (m.align b) key pos b

  -- The frame that Conn.WriteControl builds, and the random bytes left.
  unfoldable pub control_frame : ℕ → List ℕ → Conn → List ℕ × List ℕ
  unfolding mask new_mask_key
  control_frame message_type body c =
      let b0 = bit_or (message_type % 256) final_bit in
      let b1 = length body % 256 in
      if masks c
      then (let (key, rand) = new_mask_key c.rand in
          (b0 ∷ bit_or b1 mask_bit ∷ (key ++ (mask key 0 body).0), rand))
      else (b0 ∷ b1 ∷ body, c.rand)

  -- A deadline that lies before the clock's reading.
  abbrev pub has_passed : Option ℕ → ℕ → Bool
  has_passed none now = false
  has_passed (some t) now = ltb t now

  -- Conn.WriteControl
  unfoldable pub write_control : ℕ → List ℕ → Option ℕ → Conn → Result
  unfolding control_frame write_fatal written
  write_control message_type body deadline c =
      if not (is_control message_type)
      then (some bad_write_op_code, c)
      else if ltb max_control_frame_payload_size (length body)
      then (some invalid_control_frame, c)
      else (let (frame, rand) = control_frame message_type body c in
          let c' = record c { rand = rand } in
          if has_passed deadline c.now then (some write_timeout, c') else elim c.write_err [
            | some e ↦ (some e, c')
            | none ↦
                let (e, n) = net_set_write_deadline c.net in
                elim e [
                  | some e' ↦ (some e', write_fatal e' (set_net n c'))
                  | none ↦ written message_type (net_write frame n) c'
                ]
          ])
