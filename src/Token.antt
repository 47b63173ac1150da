-- ===== src/Token.antt =====
-- The header tokens of util.go. A string is the list of its bytes.
pub mod Laws
pub mod Quote
pub mod Listed
pub mod Fold
use magilla.Base.{
  ℕ, zero, suc, ◌+◌, ◌-◌, ◌*◌, Bool, true, false, not, ◌&&◌, ◌||◌, List, [], ◌∷◌, ◌++◌, Option,
  none, some,
}
use magilla.Base.{same_text, ltb, leb, ◌==◌, if◌then◌else◌, length, drop}
use magilla.Errors.{codes}
use magilla.Http.{Header, values, skip_newlines, decoded_length}

abbrev pub within : ℕ → ℕ → ℕ → Bool
within lo hi b = leb lo b && leb b hi

-- `isTokenOctet`
unfoldable pub is_token_octet : ℕ → Bool
is_token_octet b =
    within b'0' b'9' b
    || within b'A' b'Z' b
    || within b'a' b'z' b
    || b == b'!'
    || within b'#' b'\'' b
    || b == b'*'
    || b == b'+'
    || b == b'-'
    || b == b'.'
    || within b'^' b'`' b
    || b == b'|'
    || b == b'~'

unfoldable pub skip_space : List ℕ → List ℕ
skip_space [] = []
skip_space (b ∷ s) = if b == b' ' || b == b'\t' then skip_space s else b ∷ s

-- The token, and the string behind it.
unfoldable pub next_token : List ℕ → List ℕ × List ℕ
next_token [] = ([], [])
next_token (b ∷ s) =
    let (token, rest) = next_token s in if is_token_octet b then (b ∷ token, rest) else ([], b ∷ s)

-- The loops of nextTokenOrQuoted behind the opening quote: `escape` tells that a backslash came
-- last. A string that does not end gives two empty ones.
unfoldable pub quoted : Bool → List ℕ → List ℕ → List ℕ × List ℕ
quoted escape p [] = ([], [])
quoted true p (b ∷ s) = quoted false (p ++ b ∷ []) s
quoted false p (b ∷ s) =
    let escaped = quoted true p s in
    let plain = quoted false (p ++ b ∷ []) s in
    if b == b'\\' then escaped else if b == b'"' then (p, s) else plain

unfoldable pub next_token_or_quoted : List ℕ → List ℕ × List ℕ
next_token_or_quoted [] = next_token []
next_token_or_quoted (b ∷ s) = if b == b'"' then quoted false [] s else next_token (b ∷ s)

abbrev is_continuation : ℕ → Bool
is_continuation b = within 0x80 0xbf b

-- `utf8.RuneError`
abbrev pub rune_error : ℕ
rune_error = 0xfffd

-- The second byte that may follow the first byte of a rune.
abbrev second_byte : ℕ → ℕ → Bool
second_byte a b =
    if a == 0xe0
    then within 0xa0 0xbf b
    else if a == 0xed
    then within 0x80 0x9f b
    else if a == 0xf0
    then within 0x90 0xbf b
    else if a == 0xf4
    then within 0x80 0x8f b
    else is_continuation b

abbrev nth : ℕ → List ℕ → ℕ
nth n s = elim (drop n s) [ [] ↦ 0 | b ∷ rest ↦ b ]

-- `utf8.DecodeRuneInString` of a string that is not empty: the rune and its size.
unfoldable pub decode_rune : ℕ → List ℕ → ℕ × ℕ
decode_rune a s =
    let b = nth 0 s in
    let c = nth 1 s in
    let d = nth 2 s in
    if leb a 0x7f
    then (a, 1)
    else if within 0xc2 0xdf a && is_continuation b
    then ((a - 0xc0) * 64 + (b - 0x80), 2)
    else if within 0xe0 0xef a && second_byte a b && is_continuation c
    then ((a - 0xe0) * 4096 + (b - 0x80) * 64 + (c - 0x80), 3)
    else if within 0xf0 0xf4 a && second_byte a b && is_continuation c && is_continuation d
    then ((a - 0xf0) * 262144 + (b - 0x80) * 4096 + (c - 0x80) * 64 + (d - 0x80), 4)
    else (rune_error, 1)

abbrev pub lower : ℕ → ℕ
lower r = if within b'A' b'Z' r then r + 32 else r

-- equalASCIIFold, with the length of a string as fuel: each round takes a rune off both.
unfoldable pub equal_fold : ℕ → List ℕ → List ℕ → Bool
equal_fold fuel [] t = length t == 0
equal_fold fuel (a ∷ s) [] = false
equal_fold zero (a ∷ s) (b ∷ t) = false
equal_fold (suc fuel) (a ∷ s) (b ∷ t) =
    let (sr, size) = decode_rune a s in
    let (tr, size') = decode_rune b t in
    let rest = equal_fold fuel (drop (size - 1) s) (drop (size' - 1) t) in
    if sr == tr then rest else if lower sr == lower tr then rest else false

unfoldable pub equal_ascii_fold : List ℕ → List ℕ → Bool
equal_ascii_fold s t = equal_fold (length s) s t

-- Does a string start with the byte?
abbrev pub starts : ℕ → List ℕ → Bool
starts b [] = false
starts b (x ∷ s) = x == b

-- `s != "" && s[0] != b`, for a comma.
abbrev pub is_stray : List ℕ → Bool
is_stray s = not (length s == 0) && not (starts b',' s)

-- One value of a header, token by token; each round takes a token or ends the loop.
unfoldable pub value_contains : ℕ → List ℕ → List ℕ → Bool
value_contains zero value s = false
value_contains (suc fuel) value s =
    let (t, s1) = next_token (skip_space s) in
    let s2 = skip_space s1 in
    let rest = value_contains fuel value (drop 1 s2) in
    if length t == 0
    then false
    else if is_stray s2
    then false
    else if equal_ascii_fold t value
    then true
    else if length s2 == 0
    then false
    else rest

unfoldable pub any_contains : List ℕ → List (List ℕ) → Bool
any_contains value [] = false
any_contains value (s ∷ ss) = value_contains (suc (length s)) value s || any_contains value ss

unfoldable pub token_list_contains_value : Header → List ℕ → List ℕ → Bool
token_list_contains_value header name value = any_contains value (values header name)

-- A map[string]string.
abbrev pub Params : Type 0
Params = List (List ℕ × List ℕ)

-- `ext[k] = v`
unfoldable pub set_param : List ℕ → List ℕ → Params → Params
set_param k v [] = (k, v) ∷ []
set_param k v ((k', v') ∷ ext) =
    if same_text k' k then (k, v) ∷ ext else (k', v') ∷ set_param k v ext

-- `v` and the string behind it, if there is a value.
unfoldable pub param_value : List ℕ → List ℕ × List ℕ
param_value s =
    if starts b'=' s
    then (let (v, rest) = next_token_or_quoted (skip_space (drop 1 s)) in (v, skip_space rest))
    else ([], s)

-- The parameters of an extension and the string behind them; `none` where the header is given up.
unfoldable pub parse_params : ℕ → Params → List ℕ → Option (Params × List ℕ)
parse_params zero ext s = none
parse_params (suc fuel) ext s =
    let s1 = skip_space s in
    let (k, s2) = next_token (skip_space (drop 1 s1)) in
    let (v, s3) = param_value (skip_space s2) in
    let rest = parse_params fuel (set_param k v ext) s3 in
    if not (starts b';' s1)
    then some (ext, s1)
    else if length k == 0
    then none
    else if is_stray s3 && not (starts b';' s3)
    then none
    else rest

-- The extensions of one value of the header, up to where it is given up.
unfoldable pub parse_value : ℕ → List ℕ → List Params
parse_value zero s = []
parse_value (suc fuel) s =
    let (t, s1) = next_token (skip_space s) in
    if length t == 0 then [] else elim (parse_params (suc (length s1)) (([], t) ∷ []) s1) [
      | none ↦ []
      | some (ext, s2) ↦
          if is_stray s2
          then []
          else ext ∷ (if length s2 == 0 then [] else parse_value fuel (drop 1 s2))
    ]

unfoldable pub parse_values : List (List ℕ) → List Params
parse_values [] = []
parse_values (s ∷ ss) = parse_value (suc (length s)) s ++ parse_values ss

unfoldable pub parse_extensions : Header → List Params
parse_extensions header = parse_values (values header (codes "Sec-Websocket-Extensions"))

abbrev is_sixteen : Option ℕ → Bool
is_sixteen none = false
is_sixteen (some n) = n == 16

unfoldable pub is_valid_challenge_key : List ℕ → Bool
is_valid_challenge_key s = not (length s == 0) && is_sixteen (decoded_length (skip_newlines s))

-- computeAcceptKey; SHA-1 and base64 are the arguments.
unfoldable pub compute_accept_key : (List ℕ → List ℕ) → (List ℕ → List ℕ) → List ℕ → List ℕ
compute_accept_key sha1 base64 challenge_key =
    base64 (sha1 (challenge_key ++ codes "258EAFA5-E914-47DA-95CA-C5AB0DC85B11"))
