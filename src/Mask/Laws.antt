-- ===== src/Mask/Laws.antt =====
-- `maskBytes` against the masking of RFC 6455 section 5.3, byte by byte.
use magilla.Base.{ℕ, zero, suc, ◌+◌, ◌/◌, ◌%◌, ◌<◌, ◌≡◌, refl, ap, ◌∙◌, arith, List, [], ◌∷◌, ◌++◌}
use magilla.Base.{bit_xor, bit_and, length, get_or, All, IsByte}
use magilla.Base.Bits.{bit_and_step, bit_and-zero}
use magilla.Mask.{mask_each, word_key}
use magilla.Mask.Words.{xor_each}

-- Octet `i` is XORed with octet `(pos + i) mod 4` of the key.
unfoldable pub masked : List ℕ → ℕ → List ℕ → List ℕ
masked key pos [] = []
masked key pos (x ∷ b) = bit_xor x (get_or key (pos % 4) 0) ∷ masked key (pos + 1) b

pub bit_and_three : (a : ℕ) → bit_and a 3 ≡ a % 4
bit_and_three a = omega (arith, bit_and_step a 3, bit_and_step (a / 2) 1, bit_and-zero (a / 2 / 2))

pub length-masked : (key : List ℕ) (pos : ℕ) (b : List ℕ) → length (masked key pos b) ≡ length b
unfolding masked
length-masked key pos [] = refl
length-masked key pos (x ∷ b) = ap suc (length-masked key (pos + 1) b)

pub masked-mod :
    (key : List ℕ) (p q : ℕ) (b : List ℕ) → p % 4 ≡ q % 4 → masked key p b ≡ masked key q b
unfolding masked
masked-mod key p q [] e = refl
masked-mod key p q (x ∷ b) e = rw (e, masked-mod key (p + 1) (q + 1) b (omega arith))

pub masked-append :
    (key : List ℕ) (pos : ℕ) (a b : List ℕ)
    → masked key pos (a ++ b) ≡ masked key pos a ++ masked key (pos + length a) b
unfolding masked
masked-append key pos [] b = masked-mod key pos (pos + 0) b (omega arith)
masked-append key pos (x ∷ a) b =
    ap (λ t. bit_xor x (get_or key (pos % 4) 0) ∷ t)
      (masked-append key (pos + 1) a b
        ∙ ap (λ t. masked key (pos + 1) a ++ t)
            (masked-mod key (pos + 1 + length a) (pos + suc (length a)) b (omega arith)))

pub mask_each-masked :
    (key : List ℕ) (pos : ℕ) (b : List ℕ) → mask_each key pos b ≡ (masked key pos b, pos + length b)
unfolding mask_each masked
mask_each-masked key pos [] = ground arith
mask_each-masked key pos (x ∷ b) =
    ground (arith, bit_and_three pos, mask_each-masked key (pos + 1) b)

pub key_byte : (key : List ℕ) (i : ℕ) → All IsByte key → get_or key i 0 < 256
key_byte [] i h = omega arith
key_byte (k ∷ key) zero h = h.0
key_byte (k ∷ key) (suc i) h = key_byte key i h.1

pub length-word_key : (key : List ℕ) (n pos : ℕ) → length (word_key key n pos) ≡ n
unfolding word_key
length-word_key key zero pos = refl
length-word_key key (suc n) pos = ap suc (length-word_key key n (pos + 1))

pub word_key-IsByte : (key : List ℕ) (n pos : ℕ) → All IsByte key → All IsByte (word_key key n pos)
unfolding word_key
word_key-IsByte key zero pos h = tt
word_key-IsByte key (suc n) pos h =
    (key_byte key (bit_and pos 3) h, word_key-IsByte key n (pos + 1) h)

pub xor_word_key :
    (key : List ℕ) (n pos : ℕ) (b : List ℕ)
    → length b ≡ n
    → xor_each b (word_key key n pos) ≡ masked key pos b
unfolding xor_each word_key masked
xor_word_key key zero pos [] e = refl
xor_word_key key zero pos (x ∷ b) e = absurd (omega arith)
xor_word_key key (suc n) pos [] e = absurd (omega arith)
xor_word_key key (suc n) pos (x ∷ b) e =
    rw (bit_and_three pos, xor_word_key key n (pos + 1) b (omega arith))
