-- ===== src/Mask/Twice.antt =====
-- What the two ends of a connection rely on: masking twice restores the bytes, and a buffer may be
-- masked in parts.
use magilla.Base.{ℕ, ◌+◌, ◌%◌, ◌<◌, ◌≡◌, refl, ap, ◌∙◌, arith, Bool, List, [], ◌∷◌, ◌++◌}
use magilla.Base.{length, length-append, get_or, All, IsByte, All-append}
use magilla.Base.Bits.{xor_xor, bit_xor-lt}
use magilla.Mask.{mask_bytes}
use magilla.Mask.Laws.{masked, masked-mod, masked-append, key_byte}
use magilla.Mask.Bytes.{mask_bytes-masked}

pub masked-masked : (key : List ℕ) (pos : ℕ) (b : List ℕ) → masked key pos (masked key pos b) ≡ b
unfolding masked
masked-masked key pos [] = refl
masked-masked key pos (x ∷ b) =
    let k = get_or key (pos % 4) 0 in λ i. xor_xor x k i ∷ masked-masked key (pos + 1) b i

pub masked-IsByte :
    (key : List ℕ) (pos : ℕ) (b : List ℕ)
    → All IsByte key
    → All IsByte b
    → All IsByte (masked key pos b)
unfolding masked
masked-IsByte key pos [] hk hb = tt
masked-IsByte key pos (x ∷ b) hk hb = (
  bit_xor-lt 8 x (get_or key (pos % 4) 0) hb.0 (key_byte key (pos % 4) hk),
  masked-IsByte key (pos + 1) b hk hb.1,
)

-- Masking again with the same key from the same position restores the bytes, also on another
-- machine and at another alignment.
pub mask_bytes-mask_bytes :
    (big big' : Bool) (w w' align align' pos : ℕ) (key b : List ℕ)
    → w % 4 ≡ 0
    → w' % 4 ≡ 0
    → align < w
    → align' < w'
    → All IsByte key
    → All IsByte b
    → (mask_bytes big' w' align' key pos (mask_bytes big w align key pos b).0).0 ≡ b
mask_bytes-mask_bytes big big' w w' align align' pos key b f f' h h' hk hb =
    rw
      (
        mask_bytes-masked big w f (omega arith) key hk align pos b h hb,
        mask_bytes-masked big' w' f' (omega arith) key hk align' pos (masked key pos b) h'
            (masked-IsByte key pos b hk hb),
      )
      (masked-masked key pos b)

-- Masking a buffer part by part, each from the position that the part before returned, is masking
-- it at once.
pub mask_bytes-append :
    (big : Bool) (w align align_a align_b pos : ℕ) (key a b : List ℕ)
    → w % 4 ≡ 0
    → align < w
    → align_a < w
    → align_b < w
    → All IsByte key
    → All IsByte a
    → All IsByte b
    → let first = mask_bytes big w align_a key pos a in
      let second = mask_bytes big w align_b key first.1 b in
      mask_bytes big w align key pos (a ++ b) ≡ (first.0 ++ second.0, second.1)
mask_bytes-append big w align align_a align_b pos key a b f h ha hb hk ba bb =
    let q = (pos + length a) % 4 in
    let parts : masked key pos (a ++ b) ≡ masked key pos a ++ masked key q b =
      masked-append key pos a b
      ∙ ap (λ t. masked key pos a ++ t) (masked-mod key (pos + length a) q b (omega arith)) in
    let last : (pos + length (a ++ b)) % 4 ≡ (q + length b) % 4 =
      omega (arith, length-append a b) in
    rw
      (
        mask_bytes-masked big w f (omega arith) key hk align pos (a ++ b) h
            (All-append IsByte a b ba bb),
        mask_bytes-masked big w f (omega arith) key hk align_a pos a ha ba,
        mask_bytes-masked big w f (omega arith) key hk align_b q b hb bb,
      )
      (λ i. (parts i, last i))
