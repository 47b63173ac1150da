-- ===== src/H2/Dial.antt =====
-- dialHTTP2 of h2.go, from the request to the connection, and the HTTP/2 branch of
-- Dialer.DialContext. The transport of HTTP/2 is an argument: what it answers to a request.
use magilla.Base.{
  ℕ, suc, Bool, true, false, not, ◌&&◌, ◌||◌, List, [], ◌∷◌, ◌++◌, Option, none, some, ◌⊎◌, inl,
  inr,
}
use magilla.Base.{same_text, ◌==◌, if◌then◌else◌, length, take}
use magilla.Base.Integers.{ℤ}
use magilla.Errors.{codes}
use magilla.Http.{Header, get}
use magilla.Token.{parse_extensions}
use magilla.Compression.{CompressionMode, effective_compression_mode, compression_offer_header}
use magilla.Handshake.{Compressed}
use magilla.Handshake.Extensions.{is_disabled, read_response}
use magilla.Handshake.Dial.{HostHeader, host_of, has_none, join_comma, set_header, add_offer}

-- `strings.LastIndex(s, b)` for a text of one byte.
unfoldable pub last_index : ℕ → List ℕ → Option ℕ
last_index b [] = none
last_index b (x ∷ s) = elim (last_index b s) [
  | some i ↦ some (suc i)
  | none ↦ if x == b then some 0 else none
]

-- `strings.HasSuffix(s, b)` and `strings.Contains(s, b)` for a text of one byte.
unfoldable pub ends_in : ℕ → List ℕ → Bool
ends_in b [] = false
ends_in b (x ∷ []) = x == b
ends_in b (x ∷ y ∷ s) = ends_in b (y ∷ s)

unfoldable pub has_byte : ℕ → List ℕ → Bool
has_byte b [] = false
has_byte b (x ∷ s) = x == b || has_byte b s

-- stripPort
unfoldable pub strip_port : List ℕ → List ℕ
strip_port host = elim (last_index b':' host) [
  | none ↦ host
  | some i ↦ if not (ends_in b']' (take i host)) || has_byte b']' host then take i host else host
]

-- containsString
unfoldable pub contains_string : List (List ℕ) → List ℕ → Bool
contains_string [] s = false
contains_string (v ∷ ss) s = if same_text v s then true else contains_string ss s

-- `tlsCfg` of dialHTTP2: the server's name and the protocols of ALPN.
unfoldable pub tls_config : List ℕ → List (List ℕ) → List ℕ → List ℕ × List (List ℕ)
tls_config server_name next_protos host = (
  if length server_name == 0 then strip_port host else server_name,
  if contains_string next_protos (codes "h2") then next_protos else codes "h2" ∷ next_protos,
)

-- `strings.HasPrefix` and `strings.Contains`.
unfoldable pub has_prefix : List ℕ → List ℕ → Bool
has_prefix s [] = true
has_prefix [] (p ∷ ps) = false
has_prefix (b ∷ s) (p ∷ ps) = b == p && has_prefix s ps

unfoldable pub contains : List ℕ → List ℕ → Bool
contains [] sub = has_prefix [] sub
contains (b ∷ s) sub = has_prefix (b ∷ s) sub || contains s sub

-- isExtendedConnectNotSupported, on the texts of an error and of what it unwraps to; [] for nil.
unfoldable pub is_extended_connect_not_supported : List (List ℕ) → Bool
is_extended_connect_not_supported [] = false
is_extended_connect_not_supported (msg ∷ chain) =
    same_text msg (codes "net/http: extended connect not supported by peer")
    || is_extended_connect_not_supported chain

-- isH2NotAvailable
unfoldable pub is_h2_not_available : List (List ℕ) → Bool
is_h2_not_available [] = false
is_h2_not_available (msg ∷ chain) =
    if is_extended_connect_not_supported (msg ∷ chain)
    then true
    else contains msg (codes "no application protocol")
      || contains msg (codes "unsupported application protocol")

-- The fields of a Dialer that dialHTTP2 reads. There is no cookie jar.
pub record H2Dialer : Type 0 where
  pub handshake_timeout : ℕ
  pub has_proxy : Bool
  pub subprotocols : List (List ℕ)
  pub compression_mode : CompressionMode
  pub enable_compression : Bool
  pub write_buffer_size : ℤ
  pub write_buffer_pool : Option (List (List ℕ))
  pub disable_client_mask : Bool
  pub skip_utf8_validation : Bool

-- The errors of dialHTTP2; `request` and `transport` carry the texts of an error from below.
pub data H2Failure : Type 0 where
  requires_https proxy_unsupported not_supported bad_handshake invalid_compression : H2Failure
  request transport : List (List ℕ) → H2Failure
  not_allowed duplicate : List ℕ → H2Failure

-- The texts of an error.
unfoldable pub error_texts : H2Failure → List (List ℕ)
error_texts requires_https = codes "websocket: HTTP/2 requires an https:// URL" ∷ []
error_texts proxy_unsupported =
    codes "websocket: Dialer.Proxy is not supported with HTTP/2 (set HTTP2 = HTTP2Disabled)" ∷ []
error_texts not_supported = codes "websocket: HTTP/2 Extended CONNECT not supported by peer" ∷ []
error_texts bad_handshake = codes "websocket: bad handshake" ∷ []
error_texts invalid_compression = codes "websocket: invalid compression negotiation" ∷ []
error_texts (request chain) = chain
error_texts (transport chain) = chain
error_texts (not_allowed k) = (codes "websocket: header not allowed over HTTP/2: " ++ k) ∷ []
error_texts (duplicate k) = (codes "websocket: duplicate header not allowed: " ++ k) ∷ []

-- The loop over the application's header.
unfoldable pub add_h2_headers : Bool → Header → HostHeader → H2Failure ⊎ HostHeader
add_h2_headers sub [] (host, header) = inr (host, header)
add_h2_headers sub ((k, vs) ∷ given) (host, header) =
    if same_text k (codes "Host")
    then add_h2_headers sub given (host_of vs host, header)
    else if same_text k (codes "Upgrade")
        || same_text k (codes "Connection")
        || same_text k (codes "Sec-Websocket-Key")
    then inl (not_allowed k)
    else if same_text k (codes "Sec-Websocket-Version")
        || same_text k (codes "Sec-Websocket-Extensions")
        || (same_text k (codes "Sec-Websocket-Protocol") && sub)
    then inl (duplicate k)
    else if same_text k (codes "Sec-Websocket-Protocol")
    then add_h2_headers sub given (host, set_header (codes "Sec-WebSocket-Protocol") vs header)
    else add_h2_headers sub given (host, set_header k vs header)

unfoldable pub own_h2_headers : H2Dialer → Header
own_h2_headers d =
    add_offer
      (compression_offer_header
        (effective_compression_mode d.compression_mode d.enable_compression))
      ((codes ":protocol", codes "websocket" ∷ [])
        ∷ (codes "Sec-WebSocket-Version", codes "13" ∷ [])
        ∷ (if has_none d.subprotocols
            then []
            else (codes "Sec-WebSocket-Protocol", join_comma d.subprotocols ∷ []) ∷ []))

-- The host and the header of the request.
unfoldable pub h2_dial_header : H2Dialer → List ℕ → Header → H2Failure ⊎ HostHeader
h2_dial_header d host given =
    add_h2_headers (not (has_none d.subprotocols)) given (host, own_h2_headers d)

-- What dialHTTP2 makes of a response with its mode and its subprotocols: an error, or the
-- subprotocol and the compression.
unfoldable pub choose :
    CompressionMode → List (List ℕ) → ℕ → Header → H2Failure ⊎ (List ℕ × Option Compressed)
choose mode offered status header =
    let selected = get header (codes "Sec-Websocket-Protocol") in
    if not (status == 200)
    then inl bad_handshake
    else if not (length selected == 0) && not (contains_string offered selected)
    then inl bad_handshake
    else if is_disabled mode
    then inr (selected, none)
    else elim (read_response mode (parse_extensions header)) [
      | inl e ↦ inl invalid_compression
      | inr c ↦ inr (selected, c)
    ]

unfoldable pub h2_choice : H2Dialer → ℕ → Header → H2Failure ⊎ (List ℕ × Option Compressed)
h2_choice d status header =
    choose (effective_compression_mode d.compression_mode d.enable_compression) d.subprotocols
      status header
