-- ===== src/Token/Laws.antt =====
-- nextToken takes the longest token off a string.
use magilla.Base.{ℕ, ◌≡◌, refl, ap, arith, true, false, List, [], ◌∷◌, ◌++◌, All}
use magilla.Base.{◌==◌, Bool-cases, inl, inr}
use magilla.Token.{is_token_octet, skip_space, next_token}

abbrev pub IsToken : List ℕ → Type 0
IsToken = All (λ b. is_token_octet b ≡ true)

-- A string that does not go on with a token.
abbrev pub Ends : List ℕ → Type 0
Ends [] = Unit
Ends (b ∷ s) = is_token_octet b ≡ false

-- The token and what is behind it make up the string, the token has token octets only, and no
-- longer one is in front of the string.
next_token-IsToken :
    (s : List ℕ)
    → ((next_token s).0 ++ (next_token s).1 ≡ s) × IsToken (next_token s).0 × Ends (next_token s).1
unfolding next_token
next_token-IsToken [] = (refl, tt, tt)
next_token-IsToken (b ∷ s) = elim (Bool-cases (is_token_octet b)) [
  | inl inside ↦
      let (whole, token, ends) = next_token-IsToken s in
      rw inside (ap (λ t. b ∷ t) whole, (inside, token), ends)
  | inr outside ↦ rw outside (refl, tt, outside)
]

-- A token that is followed by something else is found.
pub next_token-append :
    (t rest : List ℕ) → IsToken t → Ends rest → next_token (t ++ rest) ≡ (t, rest)
unfolding next_token
next_token-append [] [] token ends = refl
next_token-append [] (b ∷ rest) token ends = rw ends refl
next_token-append (b ∷ t) rest token ends = rw (next_token-append t rest token.1 ends, token.0) refl

space_or_token : (b : ℕ) → is_token_octet b ≡ true → (b == b' ') ≡ false × (b == b'\t') ≡ false
unfolding is_token_octet
space_or_token b h = ground arith

-- A token has no space in front.
pub skip_space-token : (b : ℕ) (s : List ℕ) → is_token_octet b ≡ true → skip_space (b ∷ s) ≡ b ∷ s
unfolding skip_space
skip_space-token b s h = let (e, e') = space_or_token b h in rw (e, e') refl
