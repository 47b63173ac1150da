-- ===== src/Handshake/Negotiate.antt =====
-- What a client and a server agree on about permessage-deflate.
use magilla.Base.{◌≡◌, refl, List, [], ◌∷◌, Option, none, some, inr, ℕ}
use magilla.Base.{same_text}
use magilla.Errors.{codes}
use magilla.Http.{Header, values}
use magilla.Token.{
  is_token_octet, skip_space, next_token, next_token_or_quoted, set_param, param_value,
  parse_params, parse_value, parse_values, parse_extensions,
}
use magilla.Compression.{
  CompressionMode, default_mode, disabled, no_context_takeover, context_takeover,
  compression_offer_header, read_param, read_params, parse_pm_deflate,
}
use magilla.Handshake.{Compressed}
use magilla.Handshake.Extensions.{
  get_param, accept_offer, negotiate_compression, accepted_extension, read_response,
}

-- A header with one value for Sec-WebSocket-Extensions, or none.
abbrev pub extensions : List ℕ → Header
extensions [] = []
extensions (b ∷ s) = (codes "Sec-Websocket-Extensions", (b ∷ s) ∷ []) ∷ []

-- The value in the response.
abbrev pub answer : Option Compressed → List ℕ
answer none = []
answer (some c) = accepted_extension c

-- Whatever modes the two sides have, the client reads from the server's response the very choice
-- that the server made from the client's offer: whether messages are compressed, and which
-- direction keeps its context.
pub read_response-negotiate_compression :
    (client server : CompressionMode)
    → let chosen = negotiate_compression server (extensions (compression_offer_header client)) in
      read_response client (parse_extensions (extensions (answer chosen))) ≡ inr chosen
unfolding compression_offer_header negotiate_compression accept_offer accepted_extension
    read_response parse_extensions parse_values parse_value parse_params param_value set_param
    next_token_or_quoted next_token skip_space is_token_octet values same_text get_param
    parse_pm_deflate read_params read_param
read_response-negotiate_compression default_mode default_mode = refl
read_response-negotiate_compression default_mode disabled = refl
read_response-negotiate_compression default_mode no_context_takeover = refl
read_response-negotiate_compression default_mode context_takeover = refl
read_response-negotiate_compression disabled default_mode = refl
read_response-negotiate_compression disabled disabled = refl
read_response-negotiate_compression disabled no_context_takeover = refl
read_response-negotiate_compression disabled context_takeover = refl
read_response-negotiate_compression no_context_takeover default_mode = refl
read_response-negotiate_compression no_context_takeover disabled = refl
read_response-negotiate_compression no_context_takeover no_context_takeover = refl
read_response-negotiate_compression no_context_takeover context_takeover = refl
read_response-negotiate_compression context_takeover default_mode = refl
read_response-negotiate_compression context_takeover disabled = refl
read_response-negotiate_compression context_takeover no_context_takeover = refl
read_response-negotiate_compression context_takeover context_takeover = refl
