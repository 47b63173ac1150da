-- ===== src/Handshake/Dial.antt =====
-- The header of the request that Dialer.DialContext of client.go sends, and its checks on the
-- response. No cookie jar is set.
use magilla.Base.{
  ℕ, ◌-◌, Bool, true, false, not, ◌&&◌, ◌||◌, List, [], ◌∷◌, ◌++◌, Option, ◌⊎◌, inl, inr,
}
use magilla.Base.{same_text, leb, ◌==◌, if◌then◌else◌, length}
use magilla.Errors.{codes}
use magilla.Http.{Header, get}
use magilla.Token.{lower, token_list_contains_value, parse_extensions, compute_accept_key}
use magilla.Compression.{CompressionMode, compression_offer_header}
use magilla.Handshake.{Library, Compressed}
use magilla.Handshake.Extensions.{read_response}

-- `strings.Join(ss, ", ")`
unfoldable pub join_comma : List (List ℕ) → List ℕ
join_comma [] = []
join_comma (s ∷ []) = s
join_comma (s ∷ t ∷ ss) = s ++ (codes ", " ++ join_comma (t ∷ ss))

-- `header[name] = vs`
unfoldable pub set_header : List ℕ → List (List ℕ) → Header → Header
set_header name vs [] = (name, vs) ∷ []
set_header name vs ((n, ws) ∷ header) =
    if same_text n name then (name, vs) ∷ header else (n, ws) ∷ set_header name vs header

-- The host and the header of a request.
abbrev pub HostHeader : Type 0
HostHeader = List ℕ × Header

-- A name that the application may not give.
unfoldable pub is_reserved : Bool → List ℕ → Bool
is_reserved has_subprotocols k =
    same_text k (codes "Upgrade")
    || same_text k (codes "Connection")
    || same_text k (codes "Sec-Websocket-Key")
    || same_text k (codes "Sec-Websocket-Version")
    || same_text k (codes "Sec-Websocket-Extensions")
    || (same_text k (codes "Sec-Websocket-Protocol") && has_subprotocols)

abbrev pub host_of : List (List ℕ) → List ℕ → List ℕ
host_of [] host = host
host_of (v ∷ vs) host = v

-- The loop over the application's header: a reserved name is an error.
unfoldable pub add_headers : Bool → Header → HostHeader → List ℕ ⊎ HostHeader
add_headers sub [] (host, header) = inr (host, header)
add_headers sub ((k, vs) ∷ given) (host, header) =
    if same_text k (codes "Host")
    then add_headers sub given (host_of vs host, header)
    else if is_reserved sub k
    then inl k
    else if same_text k (codes "Sec-Websocket-Protocol")
    then add_headers sub given (host, set_header (codes "Sec-WebSocket-Protocol") vs header)
    else add_headers sub given (host, set_header k vs header)

-- `len(d.Subprotocols) > 0`, negated.
abbrev pub has_none : List (List ℕ) → Bool
has_none [] = true
has_none (s ∷ ss) = false

-- What is sent whatever the application gives.
unfoldable pub own_headers : List (List ℕ) → List ℕ → Header
own_headers subprotocols key =
    (codes "Upgrade", codes "websocket" ∷ [])
    ∷ (codes "Connection", codes "Upgrade" ∷ [])
    ∷ (codes "Sec-WebSocket-Key", key ∷ [])
    ∷ (codes "Sec-WebSocket-Version", codes "13" ∷ [])
    ∷ (if has_none subprotocols
        then []
        else (codes "Sec-WebSocket-Protocol", join_comma subprotocols ∷ []) ∷ [])

abbrev pub add_offer : List ℕ → Header → Header
add_offer offer header =
    if length offer == 0
    then header
    else set_header (codes "Sec-WebSocket-Extensions") (offer ∷ []) header

-- The host and the header that DialContext sends to `host`, or the name that it refuses.
unfoldable pub dial_header :
    List (List ℕ) → CompressionMode → List ℕ → List ℕ → Header → List ℕ ⊎ HostHeader
dial_header subprotocols mode key host given =
    elim (add_headers (not (has_none subprotocols)) given (host, own_headers subprotocols key)) [
      | inl k ↦ inl k
      | inr (host', header) ↦ inr (host', add_offer (compression_offer_header mode) header)
    ]

abbrev upper : ℕ → ℕ
upper b = if leb b'a' b && leb b b'z' then b - 32 else b

-- The canonical form of a name, as net/http gives it to a server.
unfoldable pub canonical : Bool → List ℕ → List ℕ
canonical start [] = []
canonical start (b ∷ s) = (if start then upper b else lower b) ∷ canonical (b == b'-') s

unfoldable pub canonical_header : Header → Header
canonical_header [] = []
canonical_header ((k, vs) ∷ header) = (canonical true k, vs) ∷ canonical_header header

-- How DialContext ends behind the response.
pub data Dialed : Type 0 where
  bad_handshake invalid_compression : Dialed
  dialed : List ℕ → Option Compressed → Dialed

module _ (lib : Library) where
  -- Is the response the one that was asked for?
  unfoldable pub is_switched : ℕ → Header → List ℕ → Bool
  is_switched status header key =
      status == 101
      && token_list_contains_value header (codes "Upgrade") (codes "websocket")
      && token_list_contains_value header (codes "Connection") (codes "upgrade")
      && same_text (get header (codes "Sec-Websocket-Accept"))
          (compute_accept_key lib.sha1 lib.base64 key)

  -- DialContext from the response on.
  unfoldable pub finish_dial : CompressionMode → List ℕ → ℕ → Header → Dialed
  finish_dial mode key status header =
      if not (is_switched status header key)
      then bad_handshake
      else elim (read_response mode (parse_extensions header)) [
        | inl e ↦ invalid_compression
        | inr c ↦ dialed (get header (codes "Sec-Websocket-Protocol")) c
      ]
