-- ===== src/Frame.antt =====
-- The wire format of a frame, as RFC 6455 section 5.2 draws it: what the writers of conn.go are
-- to send and its reader is to understand.
pub mod Message
use magilla.Base.{ℕ, zero, suc, ◌+◌, ◌/◌, ◌%◌, Bool, List, [], ◌∷◌, ◌++◌, Option, none, some}
use magilla.Base.{length, ltb, if◌then◌else◌}
use magilla.Mask.Laws.{masked}

pub record Frame : Type 0 where
  pub final : Bool
  pub compressed : Bool
  pub opcode : ℕ
  pub key : Option (List ℕ)
  pub payload : List ℕ

-- `k` bytes in network byte order.
abbrev pub big_endian : ℕ → ℕ → List ℕ
big_endian zero n = []
big_endian (suc k) n = big_endian k (n / 256) ++ (n % 256) ∷ []

abbrev pub flag : Bool → ℕ → ℕ
flag b v = if b then v else 0

-- The seven bits of the length, and the bytes that follow them.
abbrev pub length_code : ℕ → ℕ
length_code n = if ltb n 126 then n else if ltb n 65536 then 126 else 127

abbrev pub extended_length : ℕ → List ℕ
extended_length n = if ltb n 126 then [] else if ltb n 65536 then big_endian 2 n else big_endian 8 n

abbrev pub is_masked : Option (List ℕ) → Bool
is_masked none = Bool.false
is_masked (some key) = Bool.true

abbrev pub body : Option (List ℕ) → List ℕ → List ℕ
body none payload = payload
body (some key) payload = key ++ masked key 0 payload

unfoldable pub header : Frame → List ℕ
header f =
    (flag f.final 128 + flag f.compressed 64 + f.opcode)
    ∷ (flag (is_masked f.key) 128 + length_code (length f.payload))
    ∷ extended_length (length f.payload)

unfoldable pub wire : Frame → List ℕ
wire f = header f ++ body f.key f.payload

unfoldable pub wire_all : List Frame → List ℕ
wire_all [] = []
wire_all (f ∷ fs) = wire f ++ wire_all fs
