-- ===== src/Conn/CloseErrors.antt =====
-- CloseError.Error, IsCloseError and IsUnexpectedCloseError of conn.go.
use magilla.Base.{
  ℕ, ◌≡◌, ◌↔◌, refl, arith, Bool, true, false, not, ◌&&◌, List, [], ◌∷◌, ◌++◌, Option, none, some,
}
use magilla.Base.{Bool-cases, ◌==◌, if◌then◌else◌, length, ◌⊎◌, inl, inr}
use magilla.Errors.{Error, codes}
use magilla.Errors.Error.{close_error}
use magilla.Conn.Read.{itoa}

-- The name of a code in the text of an error.
unfoldable close_name : ℕ → List ℕ
close_name c =
    if c == 1000
    then codes " (normal)"
    else if c == 1001
    then codes " (going away)"
    else if c == 1002
    then codes " (protocol error)"
    else if c == 1003
    then codes " (unsupported data)"
    else if c == 1005
    then codes " (no status)"
    else if c == 1006
    then codes " (abnormal closure)"
    else if c == 1007
    then codes " (invalid payload data)"
    else if c == 1008
    then codes " (policy violation)"
    else if c == 1009
    then codes " (message too big)"
    else if c == 1010
    then codes " (mandatory extension missing)"
    else if c == 1011
    then codes " (internal server error)"
    else if c == 1015
    then codes " (TLS handshake error)"
    else []

-- CloseError.Error
unfoldable close_error_text : ℕ → List ℕ → List ℕ
close_error_text code text =
    codes "websocket: close "
    ++ (itoa code ++ (close_name code ++ (if length text == 0 then [] else codes ": " ++ text)))

-- The loops of IsCloseError and IsUnexpectedCloseError: is a code listed?
unfoldable has_code : ℕ → List ℕ → Bool
has_code code [] = false
has_code code (c ∷ cs) = if code == c then true else has_code code cs

-- IsCloseError
unfoldable is_close_error : Option Error → List ℕ → Bool
is_close_error none cs = false
is_close_error (some e) cs = elim e [ close_error code text ↦ has_code code cs | _ ↦ false ]

-- IsUnexpectedCloseError
unfoldable is_unexpected_close_error : Option Error → List ℕ → Bool
is_unexpected_close_error none cs = false
is_unexpected_close_error (some e) cs = elim e [
  | close_error code text ↦ not (has_code code cs)
  | _ ↦ false
]

-- The code of a close error.
abbrev close_code : Option Error → Option ℕ
close_code none = none
close_code (some e) = elim e [ close_error code text ↦ some code | _ ↦ none ]

abbrev is_some : Option ℕ → Bool
is_some none = false
is_some (some n) = true

-- One of the codes.
abbrev Listed : Option ℕ → List ℕ → Type 0
Listed none cs = ⊥
Listed (some code) [] = ⊥
Listed (some code) (c ∷ cs) = (code ≡ c) ⊎ Listed (some code) cs

has_code-Listed : (code : ℕ) (cs : List ℕ) → has_code code cs ≡ true → Listed (some code) cs
unfolding has_code
has_code-Listed code [] h = cc
has_code-Listed code (c ∷ cs) h = elim (Bool-cases (code == c)) [
  | inl same ↦ inl (ground (arith, same))
  | inr other ↦ inr (has_code-Listed code cs (ground (arith, other, h)))
]

Listed-has_code : (code : ℕ) (cs : List ℕ) → Listed (some code) cs → has_code code cs ≡ true
unfolding has_code
Listed-has_code code [] h = elim h [ ]
Listed-has_code code (c ∷ cs) (inl same) = ground (arith, same)
Listed-has_code code (c ∷ cs) (inr later) = ground (arith, Listed-has_code code cs later)

-- A close error is expected or unexpected, by whether its code is listed, and never both; another
-- error, or none, is neither.
is_close_error-Listed :
    (e : Option Error) (cs : List ℕ)
    → ((is_close_error e cs ≡ true) ↔ Listed (close_code e) cs)
      × (is_unexpected_close_error e cs ≡ is_some (close_code e) && not (is_close_error e cs))
unfolding is_close_error is_unexpected_close_error
is_close_error-Listed none cs = ((λ h. cc, λ h. elim h [ ]), refl)
is_close_error-Listed (some (close_error code text)) cs =
    ((has_code-Listed code cs, Listed-has_code code cs), refl)
is_close_error-Listed (some e) cs = ((λ h. cc, λ h. elim h [ ]), refl)
