-- ===== src/Mask.antt =====
-- The frame masking of mask.go: XOR with a repeating key of four bytes, a machine word at a time
-- where the buffer is long enough.
pub mod Words
pub mod Laws
pub mod Bytes
pub mod Twice
use magilla.Base.{
  ℕ, zero, suc, ◌+◌, ◌-◌, ◌*◌, ◌/◌, ◌%◌, ◌^◌, Bool, List, [], ◌∷◌, ◌++◌, bit_and, bit_xor,
}
use magilla.Base.{get_or, take, drop, length, ltb, ◌==◌, if◌then◌else◌}
use mathlib.Core.List.{reverse}

-- `for i := range b { b[i] ^= key[pos&3]; pos++ }`: the masked bytes, and `pos` after them.
unfoldable pub mask_each : List ℕ → ℕ → List ℕ → List ℕ × ℕ
mask_each key pos [] = ([], pos)
mask_each key pos (x ∷ b) =
    let (b', pos') = mask_each key (pos + 1) b in
    (bit_xor x (get_or key (bit_and pos 3) 0) ∷ b', pos')

-- A word in memory, lowest byte first: `*(*uintptr)(p)` and its inverse.
unfoldable pub load_low_first : List ℕ → ℕ
load_low_first [] = 0
load_low_first (x ∷ b) = load_low_first b * 2 ^ 8 + x

unfoldable pub store_low_first : ℕ → ℕ → List ℕ
store_low_first zero v = []
store_low_first (suc n) v = (v % 2 ^ 8) ∷ store_low_first n (v / 2 ^ 8)

-- The machine's byte order decides which byte is the lowest.
unfoldable pub load_word : Bool → List ℕ → ℕ
load_word big b = load_low_first (if big then reverse b else b)

unfoldable pub store_word : Bool → ℕ → ℕ → List ℕ
store_word big n v = if big then reverse (store_low_first n v) else store_low_first n v

-- `k[i] = key[(pos+i)&3]` for the next `n` values of `i`.
unfoldable pub word_key : List ℕ → ℕ → ℕ → List ℕ
word_key key zero pos = []
word_key key (suc n) pos = get_or key (bit_and pos 3) 0 ∷ word_key key n (pos + 1)

-- The loop over `m` aligned words.
unfoldable pub mask_words : Bool → ℕ → ℕ → ℕ → List ℕ → List ℕ
mask_words big word_size kw zero b = []
mask_words big word_size kw (suc m) b =
    store_word big word_size (bit_xor (load_word big (take word_size b)) kw)
    ++ mask_words big word_size kw m (drop word_size b)

-- `maskBytes`: the buffer after it, and the position it returns. `align` is the address of the
-- buffer modulo the word size.
unfoldable pub mask_bytes : Bool → ℕ → ℕ → List ℕ → ℕ → List ℕ → List ℕ × ℕ
mask_bytes big word_size align key pos b =
    if ltb (length b) (2 * word_size)
    then (let (b', pos') = mask_each key pos b in (b', bit_and pos' 3))
    else (let n = if align == 0 then 0 else word_size - align in
        let (front, pos_front) = mask_each key pos (take n b) in
        let aligned = drop n b in
        let kw = load_word big (word_key key word_size pos_front) in
        let words = length aligned / word_size in
        let middle = mask_words big word_size kw words (take (words * word_size) aligned) in
        let (back, pos_back) = mask_each key pos_front (drop (words * word_size) aligned) in
        (front ++ (middle ++ back), bit_and pos_back 3))
