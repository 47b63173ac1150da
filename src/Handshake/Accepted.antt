-- ===== src/Handshake/Accepted.antt =====
-- What one side of the handshake sends is accepted by the other.
use magilla.Base.{ℕ, ◌≡◌, refl, true, false, List, [], ◌∷◌, none, inr}
use magilla.Base.{same_text}
use magilla.Errors.{codes}
use magilla.Http.{Header, values, get}
use magilla.Token.{
  is_token_octet, skip_space, next_token, is_valid_challenge_key, token_list_contains_value,
  any_contains, value_contains, equal_ascii_fold, equal_fold, decode_rune,
}
use magilla.Compression.{CompressionMode, default_mode, compression_offer_header}
use magilla.Handshake.{Library, Request, Upgrader}
use magilla.Handshake.Checks.{has_name, check_same_origin, check_request}
use magilla.Handshake.Dial.{
  HostHeader, set_header, add_headers, own_headers, dial_header, canonical, canonical_header,
}

-- The request that a server gets.
abbrev pub arrives : HostHeader → Request
arrives (host, header) = record {
  proto_major = 1;
  method = codes "GET";
  host = host;
  header = canonical_header header;
}

-- The request of a Dialer without headers of the application passes all checks of an Upgrader that
-- has no hooks of its own, whatever the subprotocols and the compression, if the key is a valid one and
-- the response header that is given to Upgrade has no Sec-Websocket-Extensions.
pub dial_header-check_request :
    (lib : Library) (u : Upgrader) (subprotocols : List (List ℕ)) (mode : CompressionMode)
    (key host : List ℕ) (response : Header)
    → u.check_origin ≡ none
    → u.valid_challenge_key ≡ none
    → is_valid_challenge_key key ≡ true
    → has_name (codes "Sec-Websocket-Extensions") response ≡ false
    → (sent : HostHeader) × (dial_header subprotocols mode key host [] ≡ inr sent)
      × (check_request lib u (arrives sent) response ≡ none)
unfolding dial_header add_headers own_headers set_header canonical_header canonical
    compression_offer_header check_request check_same_origin values get token_list_contains_value
    any_contains value_contains equal_ascii_fold equal_fold decode_rune next_token skip_space
    is_token_octet same_text
dial_header-check_request lib u [] default_mode key host response origin hook valid free =
    (_, refl, rw (free, origin, hook, valid) refl)
dial_header-check_request lib u (s ∷ ss) default_mode key host response origin hook valid free =
    (_, refl, rw (free, origin, hook, valid) refl)
dial_header-check_request lib u subprotocols mode key host response origin hook valid free =
    (_, refl, rw (free, origin, hook, valid) refl)
