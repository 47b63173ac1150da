-- ===== src/Token/Listed.antt =====
-- tokenListContainsValue on a list of tokens.
use magilla.Base.{
  ℕ, zero, suc, ◌≤◌, ◌<◌, ◌≡◌, refl, ap, sym, ◌∙◌, arith, Bool, true, false, ◌||◌, List, [], ◌∷◌,
  ◌++◌, All, append-nil,
}
use magilla.Base.{length, length-append}
use magilla.Token.{
  is_token_octet, skip_space, next_token, equal_ascii_fold, value_contains, any_contains,
}
use magilla.Token.Fold.{IsAscii, same_letters, equal_ascii_fold-same_letters}
use magilla.Token.Laws.{IsToken, Ends, next_token-append, skip_space-token}

-- A token of at least one octet.
abbrev pub IsName : List ℕ → Type 0
IsName [] = ⊥
IsName (b ∷ t) = IsToken (b ∷ t)

-- A header value of tokens with commas and spaces between them.
abbrev pub listed : List ℕ → List (List ℕ) → List ℕ
listed t [] = t
listed t (t' ∷ ts) = t ++ b',' ∷ b' ' ∷ listed t' ts

abbrev any_folded : List ℕ → List (List ℕ) → Bool
any_folded value [] = false
any_folded value (t ∷ ts) = equal_ascii_fold t value || any_folded value ts

comma_ends : is_token_octet b',' ≡ false
unfolding is_token_octet
comma_ends = refl

-- The first token of a string, behind spaces.
first_token :
    (t rest : List ℕ) → IsName t → Ends rest → next_token (skip_space (t ++ rest)) ≡ (t, rest)
first_token [] rest name ends = absurd name
first_token (b ∷ t) rest name ends =
    ap next_token (skip_space-token b (t ++ rest) name.0) ∙ next_token-append (b ∷ t) rest name ends

value_contains-last :
    (fuel : ℕ) (value t s : List ℕ)
    → IsName t
    → skip_space s ≡ skip_space (t ++ [])
    → value_contains (suc fuel) value s ≡ any_folded value (t ∷ [])
unfolding value_contains skip_space
value_contains-last fuel value [] s name e = absurd name
value_contains-last fuel value (b ∷ t) s name e =
    let found = ap next_token e ∙ first_token (b ∷ t) [] name tt in rw found (ground arith)

value_contains-more :
    (fuel : ℕ) (value t s rest : List ℕ)
    → IsName t
    → skip_space s ≡ skip_space (t ++ b',' ∷ rest)
    → value_contains (suc fuel) value s ≡ equal_ascii_fold t value || value_contains fuel value rest
unfolding value_contains skip_space
value_contains-more fuel value [] s rest name e = absurd name
value_contains-more fuel value (b ∷ t) s rest name e =
    let found = ap next_token e ∙ first_token (b ∷ t) (b',' ∷ rest) name comma_ends in
    rw found (ground arith)

value_contains-listed :
    (fuel : ℕ) (value t s : List ℕ) (ts : List (List ℕ))
    → length ts < fuel
    → All IsName (t ∷ ts)
    → skip_space s ≡ skip_space (listed t ts)
    → value_contains fuel value s ≡ any_folded value (t ∷ ts)
value_contains-listed zero value t s ts le names e = absurd (omega arith)
value_contains-listed (suc fuel) value t s [] le names e =
    value_contains-last fuel value t s names.0 (e ∙ ap skip_space (sym (append-nil t)))
value_contains-listed (suc fuel) value t s (t' ∷ ts) le names e =
    let rest = b' ' ∷ listed t' ts in
    let next =
      value_contains-listed fuel value t' rest ts (omega arith) names.1
        (unfold skip_space in refl) in
    value_contains-more fuel value t s rest names.0 e ∙ ap (λ b. equal_ascii_fold t value || b) next

length-listed : (t : List ℕ) (ts : List (List ℕ)) → length ts ≤ length (listed t ts)
length-listed t [] = omega arith
length-listed t (t' ∷ ts) =
    omega (arith, length-append t (b',' ∷ b' ' ∷ listed t' ts), length-listed t' ts)

-- One of the texts is the value but for the case of letters.
abbrev pub any_equal : List ℕ → List (List ℕ) → Bool
any_equal value [] = false
any_equal value (t ∷ ts) = same_letters t value || any_equal value ts

token-IsAscii : (t : List ℕ) → IsToken t → IsAscii t
unfolding is_token_octet
token-IsAscii [] token = tt
token-IsAscii (b ∷ t) token = (ground (arith, token.0), token-IsAscii t token.1)

name-IsAscii : (t : List ℕ) → IsName t → IsAscii t
name-IsAscii [] name = absurd name
name-IsAscii (b ∷ t) name = token-IsAscii (b ∷ t) name

any_folded-any_equal :
    (value : List ℕ) (ts : List (List ℕ))
    → IsAscii value
    → All IsName ts
    → any_folded value ts ≡ any_equal value ts
any_folded-any_equal value [] ascii names = refl
any_folded-any_equal value (t ∷ ts) ascii names =
    rw
      (
        equal_ascii_fold-same_letters t value (name-IsAscii t names.0) ascii,
        any_folded-any_equal value ts ascii names.1,
      )
      refl

-- A header value that lists tokens with commas and spaces between them contains an ASCII value
-- exactly when one of the tokens is the value but for the case of letters. The fuel that the code's
-- loop is given is enough.
pub any_contains-listed :
    (value t : List ℕ) (ts : List (List ℕ))
    → IsAscii value
    → All IsName (t ∷ ts)
    → any_contains value (listed t ts ∷ []) ≡ any_equal value (t ∷ ts)
unfolding any_contains
any_contains-listed value t ts ascii names =
    let one =
      value_contains-listed (suc (length (listed t ts))) value t (listed t ts) ts
        (omega (arith, length-listed t ts)) names refl in
    rw one (or-false _) ∙ any_folded-any_equal value (t ∷ ts) ascii names
  where
    or-false : (b : Bool) → b || false ≡ b
    or-false true = refl
    or-false false = refl
