-- ===== src/Handshake/Checks.antt =====
-- The checks of Upgrade on a request, with the subprotocols and the origin.
use magilla.Base.{ℕ, Bool, true, false, not, ◌&&◌, ◌||◌, List, [], ◌∷◌, ◌++◌, Option, none, some}
use magilla.Base.{same_text, ◌==◌, if◌then◌else◌, length}
use Prim.Native.String.{String}
use magilla.Errors.{codes}
use magilla.Http.{Header, values, get}
use magilla.Token.{equal_ascii_fold, token_list_contains_value, is_valid_challenge_key}
use magilla.Compression.{}
use magilla.Handshake.{Library, Request, Upgrader, Refusal}

-- `strings.Split(s, ",")`
unfoldable pub split_comma : List ℕ → List (List ℕ)
split_comma [] = [] ∷ []
split_comma (b ∷ s) =
    let rest = split_comma s in
    if b == b',' then [] ∷ rest else elim rest [ [] ↦ (b ∷ []) ∷ [] | p ∷ ps ↦ (b ∷ p) ∷ ps ]

unfoldable pub has_text : List ℕ → List (List ℕ) → Bool
has_text s [] = false
has_text s (t ∷ ts) = same_text s t || has_text s ts

abbrev trim_all : (List ℕ → List ℕ) → List (List ℕ) → List (List ℕ)
trim_all trim [] = []
trim_all trim (s ∷ ss) = trim s ∷ trim_all trim ss

-- The loops of selectSubprotocol: the first protocol of the client that the server has.
unfoldable pub first_common : List (List ℕ) → List (List ℕ) → List ℕ
first_common [] server = []
first_common (p ∷ ps) server = if has_text p server then p else first_common ps server

-- `badHandshake` in front of a text.
abbrev bad_handshake : String → List ℕ
bad_handshake s = codes "websocket: the client is not using the websocket protocol: " ++ codes s

abbrev pub refuse : ℕ → List ℕ → Option Refusal
refuse status reason = some (record { status = status; reason = reason })

-- Has a header the name?
unfoldable pub has_name : List ℕ → Header → Bool
has_name name [] = false
has_name name ((n, vs) ∷ header) = same_text n name || has_name name header

-- IsWebSocketUpgrade
unfoldable pub is_web_socket_upgrade : Request → Bool
is_web_socket_upgrade r =
    token_list_contains_value r.header (codes "Connection") (codes "upgrade")
    && token_list_contains_value r.header (codes "Upgrade") (codes "websocket")

module _ (lib : Library) where
  -- Subprotocols
  unfoldable pub subprotocols : Request → List (List ℕ)
  subprotocols r =
      let h = lib.trim_space (get r.header (codes "Sec-Websocket-Protocol")) in
      if length h == 0 then [] else trim_all lib.trim_space (split_comma h)

  -- Upgrader.selectSubprotocol; the header of the response is [] for nil.
  unfoldable pub select_subprotocol : Upgrader → Request → Header → List ℕ
  select_subprotocol u r response = elim u.negotiate_subprotocol [
    | some f ↦ f r (subprotocols r)
    | none ↦ elim u.subprotocols [
      | some server ↦ first_common (subprotocols r) server
      | none ↦ get response (codes "Sec-Websocket-Protocol")
    ]
  ]

  unfoldable pub check_same_origin : Request → Bool
  check_same_origin r = elim (values r.header (codes "Origin")) [
    | [] ↦ true
    | origin ∷ more ↦ elim (lib.url_host origin) [
      | none ↦ false
      | some host ↦ equal_ascii_fold host r.host
    ]
  ]

  abbrev pub origin_allowed : Upgrader → Request → Bool
  origin_allowed u r = elim u.check_origin [ none ↦ check_same_origin r | some f ↦ f r ]

  abbrev key_allowed : Upgrader → List ℕ → Bool
  key_allowed u key = elim u.valid_challenge_key [
    | none ↦ is_valid_challenge_key key
    | some f ↦ f key
  ]

  -- The checks of Upgrade, in their order.
  unfoldable pub check_request : Upgrader → Request → Header → Option Refusal
  check_request u r response =
      if not (token_list_contains_value r.header (codes "Connection") (codes "upgrade"))
      then refuse 400 (bad_handshake "'upgrade' token not found in 'Connection' header")
      else if not (token_list_contains_value r.header (codes "Upgrade") (codes "websocket"))
      then refuse 426 (bad_handshake "'websocket' token not found in 'Upgrade' header")
      else if not (same_text r.method (codes "GET"))
      then refuse 405 (bad_handshake "request method is not GET")
      else if not (token_list_contains_value r.header (codes "Sec-Websocket-Version") (codes "13"))
      then refuse 400
          (codes "websocket: unsupported version: 13 not found in 'Sec-Websocket-Version' header")
      else if has_name (codes "Sec-Websocket-Extensions") response
      then refuse 500 (
          codes
            "websocket: application specific 'Sec-WebSocket-Extensions' headers are unsupported")
      else if not (origin_allowed u r)
      then refuse 403 (codes "websocket: request origin not allowed by Upgrader.CheckOrigin")
      else if not (key_allowed u (get r.header (codes "Sec-Websocket-Key")))
      then refuse 400 (
          codes
            "websocket: not a websocket handshake: 'Sec-WebSocket-Key' header must be Base64 encoded value of 16-byte in length")
      else none
