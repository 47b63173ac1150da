-- ===== src/Conn/Incoming.antt =====
-- Bytes on their way in: reads of them, and what the first two bytes of a frame's header say.
use magilla.Base.{
  ℕ, zero, suc, ◌+◌, ◌*◌, ◌/◌, ◌%◌, ◌^◌, ◌<◌, ◌≡◌, refl, ap, arith, Bool, true, false, List, [],
  ◌∷◌, ◌++◌, none,
}
use magilla.Base.{length, bit_and}
use magilla.Base.Bits.{bit_and_step, bit_and_fields, bit_and-zero}
use magilla.Errors.{is_data, is_control}
use magilla.Conn.{Conn}
use magilla.Conn.Net.{Input, octet, take_input}
use magilla.Conn.Read.{read, read_error, get_uint, has_bit, header_errors, final_after}
use native.Mathlib.Nat.{pow-suc}
use magilla.Frame.{flag, big_endian}

-- Bytes that arrive.
abbrev pub octets : List ℕ → List Input → List Input
octets [] rest = rest
octets (b ∷ bs) rest = octet b ∷ octets bs rest

pub octets-append :
    (a b : List ℕ) (rest : List Input) → octets (a ++ b) rest ≡ octets a (octets b rest)
octets-append [] b rest = refl
octets-append (x ∷ a) b rest = ap (λ t. octet x ∷ t) (octets-append a b rest)

take_input-octets :
    (bs : List ℕ) (rest : List Input)
    → take_input (length bs) (octets bs rest) ≡ record { bytes = bs; err = none; left = rest }
unfolding take_input
take_input-octets [] rest = refl
take_input-octets (b ∷ bs) rest = rw (take_input-octets bs rest) refl

pub read-octets :
    (n : ℕ) (bs : List ℕ) (rest : List Input) (c : Conn)
    → length bs ≡ n
    → c.input ≡ octets bs rest
    → read n c ≡ (none, (bs, record c { input = rest }))
unfolding read read_error
read-octets n bs rest c e h = rw (← e, h, take_input-octets bs rest) refl

-- The low bits of a number, one bit more at a time.
bit_and_one : (a : ℕ) → bit_and a 1 ≡ a % 2
bit_and_one a = omega (arith, bit_and_step a 1, bit_and-zero (a / 2))

bit_and_3 : (a : ℕ) → bit_and a 3 ≡ a % 4
bit_and_3 a = omega (arith, bit_and_step a 3, bit_and_one (a / 2))

bit_and_7 : (a : ℕ) → bit_and a 7 ≡ a % 8
bit_and_7 a = omega (arith, bit_and_step a 7, bit_and_3 (a / 2))

bit_and_15 : (a : ℕ) → bit_and a 15 ≡ a % 16
bit_and_15 a = omega (arith, bit_and_step a 15, bit_and_7 (a / 2))

bit_and_31 : (a : ℕ) → bit_and a 31 ≡ a % 32
bit_and_31 a = omega (arith, bit_and_step a 31, bit_and_15 (a / 2))

bit_and_63 : (a : ℕ) → bit_and a 63 ≡ a % 64
bit_and_63 a = omega (arith, bit_and_step a 63, bit_and_31 (a / 2))

pub bit_and_127 : (a : ℕ) → bit_and a 127 ≡ a % 128
bit_and_127 a = omega (arith, bit_and_step a 127, bit_and_63 (a / 2))

pub mask_flag :
    (masked' : Bool) (code : ℕ) → code < 128 → has_bit (flag masked' 128 + code) 128 ≡ masked'
mask_flag true code h =
    let e : 1 * 2 ^ 7 + code ≡ 128 + code = omega arith in
    let fields = bit_and_fields 7 1 1 code 0 h (omega arith) in
    let fields' : bit_and (128 + code) 128 ≡ 128 + bit_and code 0 = rw e at fields in
    rw (fields', bit_and-zero code) refl
mask_flag false code h =
    let e : 0 * 2 ^ 7 + code ≡ 0 + code = omega arith in
    let fields = bit_and_fields 7 0 1 code 0 h (omega arith) in
    let fields' : bit_and (0 + code) 128 ≡ 0 + bit_and code 0 = rw e at fields in
    rw (fields', bit_and-zero code) refl

get_uint-snoc : (v : ℕ) (p : List ℕ) (b : ℕ) → get_uint v (p ++ b ∷ []) ≡ get_uint v p * 256 + b
unfolding get_uint
get_uint-snoc v [] b = refl
get_uint-snoc v (x ∷ p) b = get_uint-snoc (v * 256 + x) p b

-- Reading undoes writing, where the bytes are enough for the number.
pub get_uint-big_endian : (k n : ℕ) → n < 256 ^ k → get_uint 0 (big_endian k n) ≡ n
get_uint-big_endian zero n h = unfold get_uint in omega arith
get_uint-big_endian (suc k) n h =
    let high = get_uint-big_endian k (n / 256) (omega (arith, pow-suc 256 k)) in
    omega (arith, high, get_uint-snoc 0 (big_endian k (n / 256)) (n % 256))

-- A frame of a message, in its turn.
pub data InTurn : Bool → ℕ → Type 0 where
  first_text : InTurn true 1
  first_binary : InTurn true 2
  continued : InTurn false 0

pub first_byte_ok :
    (final was_final : Bool) (opcode : ℕ)
    → InTurn was_final opcode
    → (bit_and (flag final 128 + 0 + opcode) 0xf ≡ opcode)
      × (final_after (flag final 128 + 0 + opcode) was_final ≡ final)
unfolding is_control is_data
first_byte_ok true _ _ first_text = (refl, refl)
first_byte_ok false _ _ first_text = (refl, refl)
first_byte_ok true _ _ first_binary = (refl, refl)
first_byte_ok false _ _ first_binary = (refl, refl)
first_byte_ok true _ _ continued = (refl, refl)
first_byte_ok false _ _ continued = (refl, refl)

pub header_errors-none :
    (final was_final : Bool) (opcode p1 : ℕ) (c : Conn)
    → c.read_final ≡ was_final
    → InTurn was_final opcode
    → has_bit p1 128 ≡ c.is_server
    → header_errors (flag final 128 + 0 + opcode) p1 c ≡ []
unfolding header_errors is_control is_data
header_errors-none true _ _ p1 c e first_text h = ground arith
header_errors-none false _ _ p1 c e first_text h = ground arith
header_errors-none true _ _ p1 c e first_binary h = ground arith
header_errors-none false _ _ p1 c e first_binary h = ground arith
header_errors-none true _ _ p1 c e continued h = ground arith
header_errors-none false _ _ p1 c e continued h = ground arith
