-- ===== src/Handshake/Response.antt =====
-- The lines of the response: values of the header cannot split it.
use magilla.Base.{
  ℕ, suc, ◌+◌, ◌≤◌, ◌<◌, ◌≡◌, refl, ap, ◌∙◌, arith, true, false, List, [], ◌∷◌, ◌++◌, All, ◌⊎◌,
  Bool,
}
use magilla.Base.{Option, none, some, sym, same_text, length, ◌==◌, if◌then◌else◌, inl, inr}
use mathlib.Core.Path.{ap₂, subst}
use magilla.Errors.{codes}
use magilla.Http.{Header, get}
use magilla.Token.{compute_accept_key}
use magilla.Handshake.{Library, Request, Compressed}
use magilla.Handshake.Extensions.{accepted_extension}
use magilla.Handshake.Upgrade.{sanitized, value_lines, header_lines, response_bytes}

-- How often a byte stands in a text.
abbrev pub count : ℕ → List ℕ → ℕ
count b [] = 0
count b (x ∷ s) = if x == b then suc (count b s) else count b s

count-append : (b : ℕ) (s t : List ℕ) → count b (s ++ t) ≡ count b s + count b t
count-append b [] t = omega arith
count-append b (x ∷ s) t = ground (arith, count-append b s t)

-- The values that are written, one line each.
abbrev pub written_values : Header → ℕ
written_values [] = 0
written_values ((k, vs) ∷ header) =
    (if same_text k (codes "Sec-Websocket-Protocol") then 0 else length vs) + written_values header

-- Names without control characters.
abbrev pub PlainNames : Header → Type 0
PlainNames = All (λ (e : List ℕ × List (List ℕ)). All (λ b. 31 < b) e.0)

count-plain : (b : ℕ) (s : List ℕ) → b ≤ 31 → All (λ b. 31 < b) s → count b s ≡ 0
count-plain b [] low plain = refl
count-plain b (x ∷ s) low plain = ground (arith, count-plain b s low plain.1)

sanitized-plain : (v : List ℕ) → All (λ b. 31 < b) (sanitized v)
sanitized-plain [] = tt
sanitized-plain (b ∷ v) = (ground arith, sanitized-plain v)

-- A line end is one of the two bytes.
abbrev IsEnd : ℕ → Type 0
IsEnd b = (b ≡ 10) ⊎ (b ≡ 13)

IsEnd-low : (b : ℕ) → IsEnd b → b ≤ 31
IsEnd-low b (inl e) = omega arith
IsEnd-low b (inr e) = omega arith

count-end : (b : ℕ) (rest : List ℕ) → IsEnd b → count b (codes "\r\n" ++ rest) ≡ suc (count b rest)
count-end b rest (inl e) = ground arith
count-end b rest (inr e) = ground arith

-- A line of a plain name and any value has one line end.
count-line :
    (b : ℕ) (k v rest : List ℕ)
    → IsEnd b
    → All (λ b. 31 < b) k
    → count b (((k ++ (codes ": " ++ sanitized v)) ++ codes "\r\n") ++ rest) ≡ suc (count b rest)
count-line b k v rest end plain =
    let low = IsEnd-low b end in
    ground (
      arith,
      count-append b ((k ++ (codes ": " ++ sanitized v)) ++ codes "\r\n") rest,
      count-append b (k ++ (codes ": " ++ sanitized v)) (codes "\r\n"),
      count-append b k (codes ": " ++ sanitized v),
      count-append b (codes ": ") (sanitized v),
      count-plain b k low plain,
      count-plain b (codes ": ") low (omega arith, (omega arith, tt)),
      count-plain b (sanitized v) low (sanitized-plain v),
      count-end b [] end,
    )

count-value_lines :
    (b : ℕ) (k : List ℕ) (vs : List (List ℕ))
    → IsEnd b
    → All (λ b. 31 < b) k
    → count b (value_lines k vs) ≡ length vs
unfolding value_lines
count-value_lines b k [] end plain = refl
count-value_lines b k (v ∷ vs) end plain =
    count-line b k v (value_lines k vs) end plain ∙ ap suc (count-value_lines b k vs end plain)

count-unless :
    (b : ℕ) (t : Bool) (s rest : List ℕ)
    → count b ((if t then [] else s) ++ rest) ≡ (if t then 0 else count b s) + count b rest
count-unless b true s rest = omega arith
count-unless b false s rest = count-append b s rest

count-header_lines :
    (b : ℕ) (h : Header) → IsEnd b → PlainNames h → count b (header_lines h) ≡ written_values h
unfolding header_lines
count-header_lines b [] end plain = refl
count-header_lines b ((k, vs) ∷ h) end plain =
    let skip = same_text k (codes "Sec-Websocket-Protocol") in
    count-unless b skip (value_lines k vs) (header_lines h)
    ∙ ap₂ (λ m n. (if skip then 0 else m) + n) (count-value_lines b k vs end plain.0)
        (count-header_lines b h end plain.1)

IsEnd-both : (P : ℕ → Type 0) (b : ℕ) → P 10 → P 13 → IsEnd b → P b
IsEnd-both P b lf cr (inl e) = subst P (sym e) lf
IsEnd-both P b lf cr (inr e) = subst P (sym e) cr

-- What stands in front of the key: a status line and two headers.
abbrev front : List ℕ
front =
    codes
      "HTTP/1.1 101 Switching Protocols\r\nUpgrade: websocket\r\nConnection: Upgrade\r\nSec-WebSocket-Accept: "

front-ends : (b : ℕ) → IsEnd b → count b front ≡ 3
front-ends b end = IsEnd-both (λ b. count b front ≡ 3) b refl refl end

crlf-ends : (b : ℕ) → IsEnd b → count b (codes "\r\n") ≡ 1
crlf-ends b end = IsEnd-both (λ b. count b (codes "\r\n") ≡ 1) b refl refl end

-- The line ends of the subprotocol and of its own line.
abbrev pub protocol_ends : ℕ → List ℕ → ℕ
protocol_ends b subprotocol = if length subprotocol == 0 then 0 else suc (count b subprotocol)

abbrev protocol_line : List ℕ → List ℕ
protocol_line subprotocol =
    if length subprotocol == 0
    then []
    else (codes "Sec-WebSocket-Protocol: " ++ subprotocol) ++ codes "\r\n"

count-protocol_line : (b : ℕ) (s : List ℕ) → IsEnd b → count b (protocol_line s) ≡ protocol_ends b s
count-protocol_line b [] end = refl
count-protocol_line b (x ∷ s) end = ground (
  arith,
  count-append b (codes "Sec-WebSocket-Protocol: " ++ (x ∷ s)) (codes "\r\n"),
  count-append b (codes "Sec-WebSocket-Protocol: ") (x ∷ s),
  crlf-ends b end,
  name-ends b end,
)
  where
    name-ends : (b : ℕ) → IsEnd b → count b (codes "Sec-WebSocket-Protocol: ") ≡ 0
    name-ends b end =
        IsEnd-both (λ b. count b (codes "Sec-WebSocket-Protocol: ") ≡ 0) b refl refl end

abbrev extension_line : Option Compressed → List ℕ
extension_line compressed = elim compressed [
  | none ↦ []
  | some c ↦ (codes "Sec-WebSocket-Extensions: " ++ accepted_extension c) ++ codes "\r\n"
]

abbrev pub extension_ends : Option Compressed → ℕ
extension_ends none = 0
extension_ends (some c) = 1

-- The line of the extension with its parameters.
abbrev parameters_line : Bool → Bool → List ℕ
parameters_line server client =
    (codes "Sec-WebSocket-Extensions: "
      ++ (codes "permessage-deflate"
          ++ ((if server then [] else codes "; server_no_context_takeover")
              ++ (if client then [] else codes "; client_no_context_takeover"))))
    ++ codes "\r\n"

parameters-ends :
    (server client : Bool) (b : ℕ) → IsEnd b → count b (parameters_line server client) ≡ 1
parameters-ends true true b end =
    IsEnd-both (λ b. count b (parameters_line true true) ≡ 1) b refl refl end
parameters-ends true false b end =
    IsEnd-both (λ b. count b (parameters_line true false) ≡ 1) b refl refl end
parameters-ends false true b end =
    IsEnd-both (λ b. count b (parameters_line false true) ≡ 1) b refl refl end
parameters-ends false false b end =
    IsEnd-both (λ b. count b (parameters_line false false) ≡ 1) b refl refl end

count-extension_line :
    (b : ℕ) (c : Option Compressed) → IsEnd b → count b (extension_line c) ≡ extension_ends c
unfolding accepted_extension
count-extension_line b none end = refl
count-extension_line b (some c) end = parameters-ends c.server_takeover c.client_takeover b end

module _ (lib : Library) (r : Request) (subprotocol : List ℕ) (c : Option Compressed)
    (h : Header) where
  -- The line ends of the response: those of the five fixed lines, those that the subprotocol, the
  -- extension and the values of the application add.
  abbrev pub expected_ends : ℕ → ℕ
  expected_ends b = 5 + protocol_ends b subprotocol + extension_ends c + written_values h

  count-response_bytes :
      (b : ℕ)
      → ((s : List ℕ) → All (λ b. 31 < b) (lib.base64 s))
      → PlainNames h
      → IsEnd b
      → count b (response_bytes lib r subprotocol c h) ≡ expected_ends b
  unfolding response_bytes compute_accept_key
  count-response_bytes b plain names end =
      let key = compute_accept_key lib.sha1 lib.base64 (get r.header (codes "Sec-Websocket-Key")) in
      let rest = header_lines h ++ codes "\r\n" in
      let ext = extension_line c in
      let line = protocol_line subprotocol in
      ground (
        arith,
        count-append b front ((key ++ codes "\r\n") ++ (line ++ (ext ++ rest))),
        count-append b (key ++ codes "\r\n") (line ++ (ext ++ rest)),
        count-append b key (codes "\r\n"),
        count-append b line (ext ++ rest),
        count-append b ext rest,
        count-append b (header_lines h) (codes "\r\n"),
        front-ends b end,
        crlf-ends b end,
        count-plain b key (IsEnd-low b end) (plain _),
        count-protocol_line b subprotocol end,
        count-extension_line b c end,
        count-header_lines b h end names,
      )

  -- The line feeds of the response that Upgrade writes, and its carriage returns, are those of its
  -- five fixed lines, one for the line of the extension if there is one, one for each value of the
  -- application's header that is written, and, if there is a subprotocol, one for its line and those
  -- that it has itself. So no value of the header adds a line, and the subprotocol does with every
  -- line end that it has. The names of the header have no control characters, nor has what base64
  -- encodes.
  pub response_bytes-line_ends :
      ((s : List ℕ) → All (λ b. 31 < b) (lib.base64 s))
      → PlainNames h
      → (count 10 (response_bytes lib r subprotocol c h) ≡ expected_ends 10)
        × (count 13 (response_bytes lib r subprotocol c h) ≡ expected_ends 13)
  response_bytes-line_ends plain names = (
    count-response_bytes 10 plain names (inl refl),
    count-response_bytes 13 plain names (inr refl),
  )
