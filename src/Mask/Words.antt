-- ===== src/Mask/Words.antt =====
-- XOR on words is XOR on their bytes, on either byte order.
use magilla.Base.{
  ℕ, zero, suc, ◌+◌, ◌*◌, ◌/◌, ◌%◌, ◌^◌, ◌≡◌, refl, ap, sym, ◌∙◌, arith, Bool, true, false, List,
  [], ◌∷◌, ◌++◌,
}
use magilla.Base.{bit_xor, length, All, IsByte, length-append, All-append}
use magilla.Base.Bits.{bit_xor_fields, bit_xor-lt}
use magilla.Mask.{load_low_first, store_low_first, load_word, store_word}
use mathlib.Core.List.{reverse, reverse-append, reverse-reverse}

-- Byte by byte; the lists are of one length wherever it is used.
unfoldable pub xor_each : List ℕ → List ℕ → List ℕ
xor_each [] ks = []
xor_each (x ∷ xs) [] = []
xor_each (x ∷ xs) (k ∷ ks) = bit_xor x k ∷ xor_each xs ks

xor_low_first :
    (n : ℕ) (xs ks : List ℕ)
    → length xs ≡ n
    → length ks ≡ n
    → All IsByte xs
    → All IsByte ks
    → store_low_first n (bit_xor (load_low_first xs) (load_low_first ks)) ≡ xor_each xs ks
unfolding store_low_first load_low_first xor_each
xor_low_first zero [] ks ex ek hx hk = refl
xor_low_first zero (x ∷ xs) ks ex ek hx hk = absurd (omega arith)
xor_low_first (suc n) [] ks ex ek hx hk = absurd (omega arith)
xor_low_first (suc n) (x ∷ xs) [] ex ek hx hk = absurd (omega arith)
xor_low_first (suc n) (x ∷ xs) (k ∷ ks) ex ek hx hk =
    let fields = bit_xor_fields 8 (load_low_first xs) (load_low_first ks) x k hx.0 hk.0 in
    let small = bit_xor-lt 8 x k hx.0 hk.0 in
    let v = bit_xor (load_low_first xs * 2 ^ 8 + x) (load_low_first ks * 2 ^ 8 + k) in
    let low : v % 2 ^ 8 ≡ bit_xor x k = omega (arith, fields, small) in
    let high : v / 2 ^ 8 ≡ bit_xor (load_low_first xs) (load_low_first ks) =
      omega (arith, fields, small) in
    rw (low, high)
      (ap (λ t. bit_xor x k ∷ t) (xor_low_first n xs ks (omega arith) (omega arith) hx.1 hk.1))

pub xor_each-append :
    (xs ks ys ls : List ℕ)
    → length xs ≡ length ks
    → xor_each (xs ++ ys) (ks ++ ls) ≡ xor_each xs ks ++ xor_each ys ls
unfolding xor_each
xor_each-append [] [] ys ls e = refl
xor_each-append [] (k ∷ ks) ys ls e = absurd (omega arith)
xor_each-append (x ∷ xs) [] ys ls e = absurd (omega arith)
xor_each-append (x ∷ xs) (k ∷ ks) ys ls e = rw (xor_each-append xs ks ys ls (omega arith))

reverse-cons : (x : ℕ) (xs : List ℕ) → reverse (x ∷ xs) ≡ reverse xs ++ x ∷ []
reverse-cons x xs = reverse-append (x ∷ []) xs

length-reverse : (xs : List ℕ) → length (reverse xs) ≡ length xs
length-reverse [] = refl
length-reverse (x ∷ xs) =
    let before = length-reverse xs in
    let one = ap length (reverse-cons x xs) ∙ length-append (reverse xs) (x ∷ []) in
    omega (arith, one, before)

All-reverse : (xs : List ℕ) → All IsByte xs → All IsByte (reverse xs)
All-reverse [] h = tt
All-reverse (x ∷ xs) h =
    rw (reverse-cons x xs) (All-append IsByte (reverse xs) (x ∷ []) (All-reverse xs h.1) (h.0, tt))

xor_each-reverse :
    (xs ks : List ℕ)
    → length xs ≡ length ks
    → xor_each (reverse xs) (reverse ks) ≡ reverse (xor_each xs ks)
unfolding xor_each
xor_each-reverse [] [] e = refl
xor_each-reverse [] (k ∷ ks) e = absurd (omega arith)
xor_each-reverse (x ∷ xs) [] e = absurd (omega arith)
xor_each-reverse (x ∷ xs) (k ∷ ks) e =
    let eq : length (reverse xs) ≡ length (reverse ks) =
      omega (arith, length-reverse xs, length-reverse ks) in
    rw (reverse-cons x xs, reverse-cons k ks, reverse-cons (bit_xor x k) (xor_each xs ks))
      (xor_each-append (reverse xs) (reverse ks) (x ∷ []) (k ∷ []) eq
        ∙ ap (λ t. t ++ bit_xor x k ∷ []) (xor_each-reverse xs ks (omega arith)))

-- One XOR of two words of `n` bytes is the XOR of their bytes.
pub xor_word :
    (big : Bool) (n : ℕ) (xs ks : List ℕ)
    → length xs ≡ n
    → length ks ≡ n
    → All IsByte xs
    → All IsByte ks
    → store_word big n (bit_xor (load_word big xs) (load_word big ks)) ≡ xor_each xs ks
unfolding store_word load_word
xor_word false n xs ks ex ek hx hk = xor_low_first n xs ks ex ek hx hk
xor_word true n xs ks ex ek hx hk =
    ap reverse (
      xor_low_first n (reverse xs) (reverse ks) (length-reverse xs ∙ ex) (length-reverse ks ∙ ek)
        (All-reverse xs hx) (All-reverse ks hk))
    ∙ ap reverse (xor_each-reverse xs ks (ex ∙ sym ek))
    ∙ reverse-reverse (xor_each xs ks)
