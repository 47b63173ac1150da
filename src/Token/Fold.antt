-- ===== src/Token/Fold.antt =====
-- equalASCIIFold on ASCII strings.
use magilla.Base.{ℕ, zero, suc, ◌≤◌, ◌<◌, ◌≡◌, refl, arith, List, [], ◌∷◌, All}
use magilla.Base.{
  ◌-◌, ap, sym, ◌∙◌, Bool-cases, inl, inr, ==_iff, Bool, true, false, ◌&&◌, length, leb, ◌==◌,
  if◌then◌else◌,
}
use magilla.Token.{decode_rune, lower, equal_fold, equal_ascii_fold}

-- Bytes of ASCII characters.
abbrev pub IsAscii : List ℕ → Type 0
IsAscii = All (λ b. b < 128)

ascii_rune : (a : ℕ) (s : List ℕ) → a < 128 → decode_rune a s ≡ (a, 1)
unfolding decode_rune
ascii_rune a s h = ground arith

-- A letter in upper case, and another byte as it is.
abbrev pub upper : ℕ → ℕ
upper b = if leb b'a' b && leb b b'z' then b - 32 else b

-- Texts that are the same but for the case of their letters.
abbrev pub same_letters : List ℕ → List ℕ → Bool
same_letters [] [] = true
same_letters [] (b ∷ t) = false
same_letters (a ∷ s) [] = false
same_letters (a ∷ s) (b ∷ t) = upper a == upper b && same_letters s t

upper-lower : (a : ℕ) → upper (lower a) ≡ upper a
upper-lower a = ground arith

lower-upper : (a : ℕ) → lower (upper a) ≡ lower a
lower-upper a = ground arith

same_case : (a b : ℕ) → (lower a == lower b) ≡ (upper a == upper b)
same_case a b = elim (Bool-cases (lower a == lower b)) [
  | inl same ↦
      let e : lower a ≡ lower b = (==_iff _ _).0 same in
      same ∙ sym ((==_iff _ _).1 (sym (upper-lower a) ∙ ap upper e ∙ upper-lower b))
  | inr other ↦ elim (Bool-cases (upper a == upper b)) [
    | inl same ↦
        let e : upper a ≡ upper b = (==_iff _ _).0 same in
        (==_iff _ _).1 (sym (lower-upper a) ∙ ap lower e ∙ lower-upper b) ∙ sym same
    | inr other' ↦ other ∙ sym other'
  ]
]

folded :
    (a b : ℕ) (rest : Bool)
    → (if a == b then rest else if lower a == lower b then rest else false)
      ≡ upper a == upper b && rest
folded a b rest = elim (Bool-cases (a == b)) [
  | inl same ↦ rw (same, (==_iff _ _).1 (ap upper ((==_iff a b).0 same))) refl
  | inr other ↦ rw (other, same_case a b) (either (upper a == upper b) rest)
]
  where
    either : (t r : Bool) → (if t then r else false) ≡ t && r
    either true r = refl
    either false r = refl

equal_fold-same_letters :
    (fuel : ℕ) (s t : List ℕ)
    → length s ≤ fuel
    → IsAscii s
    → IsAscii t
    → equal_fold fuel s t ≡ same_letters s t
unfolding equal_fold
equal_fold-same_letters fuel [] [] le hs ht = refl
equal_fold-same_letters fuel [] (b ∷ t) le hs ht = ground arith
equal_fold-same_letters fuel (a ∷ s) [] le hs ht = refl
equal_fold-same_letters zero (a ∷ s) (b ∷ t) le hs ht = absurd (omega arith)
equal_fold-same_letters (suc fuel) (a ∷ s) (b ∷ t) le hs ht =
    let rest = equal_fold-same_letters fuel s t (omega arith) hs.1 ht.1 in
    rw (ascii_rune a s hs.0, ascii_rune b t ht.0, rest) (folded a b (same_letters s t))

-- On ASCII strings equalASCIIFold is equality but for the case of letters.
pub equal_ascii_fold-same_letters :
    (s t : List ℕ) → IsAscii s → IsAscii t → equal_ascii_fold s t ≡ same_letters s t
unfolding equal_ascii_fold
equal_ascii_fold-same_letters s t hs ht = equal_fold-same_letters (length s) s t (omega arith) hs ht
