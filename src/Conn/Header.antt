-- ===== src/Conn/Header.antt =====
-- The header that flushFrame builds in the write buffer is the header of the wire format.
use magilla.Base.{
  ℕ, ◌+◌, ◌*◌, ◌%◌, ◌^◌, ◌<◌, ◌≡◌, refl, ap, ◌∙◌, arith, Bool, true, false, List, [], ◌∷◌,
}
use magilla.Base.{bit_or, length, ltb, leb, if◌then◌else◌, Bool-cases, inl, inr}
use magilla.Base.Bits.{bit_or_fields, bit_or_disjoint, bit_or-zero, zero-bit_or}
use magilla.Conn.{MessageWriter}
use magilla.Conn.Write.{copy_at, put_uint16, put_uint64}
use magilla.Conn.Message.{first_byte, put_header}
use magilla.Conn.Buffer.{copy_at-copy_at}
use magilla.Frame.{big_endian, flag, length_code, extended_length}

-- `|` with a flag above the value is a sum.
pub or_flag : (k r : ℕ) → r < 2 ^ k → bit_or r (1 * 2 ^ k + 0) ≡ r + 2 ^ k
or_flag k r h =
    let e : 0 * 2 ^ k + r ≡ r = omega arith in
    let fields = bit_or_fields k 0 1 r 0 h (omega arith) in
    let fields' : bit_or r (1 * 2 ^ k + 0) ≡ bit_or 0 1 * 2 ^ k + bit_or r 0 = rw e at fields in
    rw (fields', bit_or-zero r) (omega arith)

pub final_flag : (t : ℕ) → t < 16 → bit_or t 0x80 ≡ t + 128
final_flag t h = or_flag 7 t (omega arith)

rsv1_flag : (t : ℕ) → t < 16 → bit_or t 0x40 ≡ t + 64
rsv1_flag t h = or_flag 6 t (omega arith)

rsv1_final_flag : (t : ℕ) → t < 16 → bit_or (t + 128) 0x40 ≡ t + 192
rsv1_final_flag t h =
    let e : 2 * 2 ^ 6 + t ≡ t + 128 = omega arith in
    let fields = bit_or_fields 6 2 1 t 0 (omega arith) (omega arith) in
    let fields' : bit_or (t + 128) 64 ≡ bit_or 2 1 * 2 ^ 6 + bit_or t 0 = rw e at fields in
    rw (fields', bit_or-zero t) (omega arith)

pub first_byte-flags :
    (final : Bool) (w : MessageWriter)
    → w.frame_type < 16
    → first_byte final w ≡ flag final 128 + flag w.compress 64 + w.frame_type
unfolding first_byte
first_byte-flags final w h =
    let e : w.frame_type % 256 ≡ w.frame_type = omega arith in
    ground (
      arith,
      e,
      final_flag w.frame_type h,
      rsv1_flag w.frame_type h,
      rsv1_final_flag w.frame_type h,
    )

-- Where the header starts, behind the place of a header with the longest length.
abbrev pub skipped : ℕ → ℕ
skipped n = if leb 65536 n then 0 else if ltb 125 n then 6 else 8

unfoldable pub header_bytes : ℕ → Bool → ℕ → List ℕ
header_bytes b0 masked' n = b0 ∷ (flag masked' 128 + length_code n) ∷ extended_length n

put_uint16-big_endian : (n : ℕ) → put_uint16 (n % 65536) ≡ big_endian 2 n
unfolding put_uint16
put_uint16-big_endian n = ground arith

put_uint64-big_endian : (n : ℕ) → put_uint64 n ≡ big_endian 8 n
unfolding put_uint64
put_uint64-big_endian n = ground arith

length_bits :
    (masked' : Bool) (n : ℕ) → n < 126 → bit_or (flag masked' 0x80) (n % 256) ≡ flag masked' 128 + n
length_bits false n h = rw (zero-bit_or (n % 256)) (omega arith)
length_bits true n h =
    let e : n % 256 ≡ n = omega arith in rw e (bit_or_disjoint 7 1 n (omega arith))

code_bits :
    (masked' : Bool)
    → (bit_or (flag masked' 0x80) 126 ≡ flag masked' 128 + 126)
      × (bit_or (flag masked' 0x80) 127 ≡ flag masked' 128 + 127)
code_bits false = (refl, refl)
code_bits true = (refl, refl)

-- The three writes of a header are one.
three_writes :
    (i b0 b1 : ℕ) (ys buf : List ℕ)
    → copy_at (i + 2) ys (copy_at (i + 1) (b1 ∷ []) (copy_at i (b0 ∷ []) buf))
      ≡ copy_at i (b0 ∷ b1 ∷ ys) buf
three_writes i b0 b1 ys buf =
    ap (copy_at (i + 2) ys) (copy_at-copy_at i (i + 1) (b0 ∷ []) (b1 ∷ []) buf refl)
    ∙ copy_at-copy_at i (i + 2) (b0 ∷ b1 ∷ []) ys buf refl

pub put_header-bytes :
    (at b0 n : ℕ) (masked' : Bool) (buf : List ℕ)
    → put_header at b0 (flag masked' 0x80) n buf
      ≡ (at + skipped n, copy_at (at + skipped n) (header_bytes b0 masked' n) buf)
unfolding put_header header_bytes
put_header-bytes at b0 n masked' buf = elim (Bool-cases (leb 65536 n)) [
  | inl long ↦
      let t : ltb n 126 ≡ false = ground arith in
      let t' : ltb n 65536 ≡ false = ground arith in
      let z : at + 0 ≡ at = omega arith in
      rw (long, t, t', z, (code_bits masked').1, put_uint64-big_endian n)
        (ap (λ b. (at, b)) (three_writes at b0 _ (big_endian 8 n) buf))
  | inr n1 ↦ elim (Bool-cases (ltb 125 n)) [
    | inl mid ↦
        let t : ltb n 126 ≡ false = ground arith in
        let t' : ltb n 65536 ≡ true = ground arith in
        rw (n1, mid, t, t', (code_bits masked').0, put_uint16-big_endian n)
          (ap (λ b. (at + 6, b)) (three_writes (at + 6) b0 _ (big_endian 2 n) buf))
    | inr n2 ↦
        let t : ltb n 126 ≡ true = ground arith in
        rw (n1, n2, t, length_bits masked' n (ground arith))
          (ap (λ b. (at + 8, b))
            (copy_at-copy_at (at + 8) (at + 8 + 1) (b0 ∷ []) ((flag masked' 128 + n) ∷ []) buf
              refl))
  ]
]

-- The header ends where the payload, or the key in front of it, begins.
pub length-header_bytes :
    (b0 n : ℕ) (masked' : Bool) → skipped n + length (header_bytes b0 masked' n) ≡ 10
unfolding header_bytes
length-header_bytes b0 n masked' = ground arith
