-- ===== src/Http.antt =====
-- What the handshake uses of net/http and encoding/base64: headers, and the length of a decoded
-- base64 text.
use magilla.Base.{ℕ, ◌+◌, Bool, not, ◌&&◌, ◌||◌, List, [], ◌∷◌, Option, none, some}
use magilla.Base.{same_text, leb, ◌==◌, if◌then◌else◌, length}

-- An http.Header: the values of each name, in its canonical form.
abbrev pub Header : Type 0
Header = List (List ℕ × List (List ℕ))

-- `header[name]`
unfoldable pub values : Header → List ℕ → List (List ℕ)
values [] name = []
values ((n, vs) ∷ header) name = if same_text n name then vs else values header name

-- `header.Get(name)`
abbrev pub first_value : List (List ℕ) → List ℕ
first_value [] = []
first_value (v ∷ vs) = v

unfoldable pub get : Header → List ℕ → List ℕ
unfolding values
get header name = first_value (values header name)

abbrev is_base64 : ℕ → Bool
is_base64 b =
    (leb b'A' b && leb b b'Z')
    || (leb b'a' b && leb b b'z')
    || (leb b'0' b && leb b b'9')
    || b == b'+'
    || b == b'/'

-- `base64.StdEncoding.DecodeString` skips line ends.
unfoldable pub skip_newlines : List ℕ → List ℕ
skip_newlines [] = []
skip_newlines (b ∷ s) = if b == b'\r' || b == b'\n' then skip_newlines s else b ∷ skip_newlines s

-- The length of what a text without line ends decodes to: quads of letters, of which the last may
-- end in padding.
unfoldable pub decoded_length : List ℕ → Option ℕ
decoded_length [] = some 0
decoded_length (a ∷ []) = none
decoded_length (a ∷ b ∷ []) = none
decoded_length (a ∷ b ∷ c ∷ []) = none
decoded_length (a ∷ b ∷ c ∷ d ∷ s) =
    let rest = decoded_length s in
    if not (is_base64 a && is_base64 b)
    then none
    else if is_base64 c && is_base64 d
    then elim rest [ none ↦ none | some n ↦ some (n + 3) ]
    else if not (d == b'=' && length s == 0)
    then none
    else if c == b'='
    then some 1
    else if is_base64 c
    then some 2
    else none
