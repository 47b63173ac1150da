-- ===== src/Tests/Handshakes.antt =====
-- Runs of the handshake, the header tokens and the compression at concrete inputs.
use magilla.Base.{ℕ, ◌≡◌, refl, arith, true, false, List, [], ◌∷◌, ◌++◌, none, some, inr, length}
use magilla.Base.{same_text}
use magilla.Base.Integers.{pos}
use magilla.Errors.{codes}
use magilla.Http.{Header, skip_newlines, decoded_length}
use magilla.Token.{is_token_octet, next_token_or_quoted, any_contains, is_valid_challenge_key}
use magilla.Token.Quote.{escaped, next_token_or_quoted-escaped}
use magilla.Token.Listed.{listed, any_equal, any_contains-listed}
use magilla.Compression.{
  context_takeover, no_context_takeover, compression_offer_header, default_mode,
}
use magilla.Compression.Window.{concat}
use magilla.Compression.Trunc.{trunc_write_all, new_trunc_writer, trunc_write_all-fresh}
use magilla.Base.{◌+◌, ◌%◌, ◌<◌, All}
use magilla.Handshake.{Library, Request, Upgrader, Compressed}
use magilla.Handshake.Checks.{has_name, subprotocols, check_request}
use magilla.Handshake.Extensions.{negotiate_compression, read_response}
use magilla.Handshake.Upgrade.{response_bytes}
use magilla.Token.{parse_extensions}
use magilla.Handshake.Negotiate.{extensions, answer, read_response-negotiate_compression}
use magilla.Handshake.Response.{count, response_bytes-line_ends, expected_ends}
use magilla.Handshake.Dial.{HostHeader, dial_header}
use magilla.Handshake.Accepted.{arrives, dial_header-check_request}

next_token_or_quoted-escaped_example :
    next_token_or_quoted (b'"' ∷ (escaped (codes "a\"b\\c") ++ b'"' ∷ codes "; x"))
    ≡ (codes "a\"b\\c", codes "; x")
next_token_or_quoted-escaped_example = next_token_or_quoted-escaped (codes "a\"b\\c") (codes "; x")

any_contains-listed_example :
    any_contains (codes "upgrade") (listed (codes "keep-alive") (codes "Upgrade" ∷ []) ∷ [])
    ≡ any_equal (codes "upgrade") (codes "keep-alive" ∷ codes "Upgrade" ∷ [])
unfolding is_token_octet
any_contains-listed_example =
    any_contains-listed (codes "upgrade") (codes "keep-alive") (codes "Upgrade" ∷ []) (omega arith)
      (ground arith)

trunc_write_all-fresh_example :
    let bs = codes "ab" ∷ codes "cdefghijk" ∷ codes "l" ∷ [] in
    let (e, w) = trunc_write_all bs new_trunc_writer in
    (e ≡ none) × (w.below.sent ++ w.p ≡ concat bs) × (length w.p ≡ 4)
trunc_write_all-fresh_example =
    trunc_write_all-fresh (codes "ab" ∷ codes "cdefghijk" ∷ codes "l" ∷ []) (omega arith)

read_response-negotiate_compression_example :
    let chosen =
      negotiate_compression no_context_takeover
        (extensions (compression_offer_header context_takeover)) in
    read_response context_takeover (parse_extensions (extensions (answer chosen))) ≡ inr chosen
read_response-negotiate_compression_example =
    read_response-negotiate_compression context_takeover no_context_takeover

-- Functions in the place of net/url, strings and crypto.
abbrev pub library : Library
library = record { url_host = λ s. some s; trim_space = λ s. s; sha1 = λ s. s; base64 = λ s. s }

abbrev request : Request
request = record {
  proto_major = 1;
  method = codes "GET";
  host = codes "example.org";
  header = (codes "Sec-Websocket-Protocol", codes "v1,v2" ∷ []) ∷ [];
}

abbrev pub upgrader : Upgrader
upgrader = record {
  handshake_timeout = 0;
  subprotocols = some (codes "v3" ∷ codes "v2" ∷ []);
  valid_challenge_key = none;
  negotiate_subprotocol = none;
  check_origin = none;
  enable_compression = false;
  compression_mode = default_mode;
  write_buffer_size = pos 0;
  write_buffer_pool = none;
  skip_utf8_validation = false;
}

abbrev cookies : Header
cookies = (codes "Set-Cookie", codes "a=1\r\nX: y" ∷ codes "b=2" ∷ []) ∷ []

-- A base64 of one letter for each byte.
abbrev letters : List ℕ → List ℕ
letters [] = []
letters (b ∷ s) = (65 + b % 26) ∷ letters s

letters-plain : (s : List ℕ) → All (λ b. 31 < b) (letters s)
letters-plain [] = tt
letters-plain (b ∷ s) = (omega arith, letters-plain s)

abbrev spelling : Library
spelling = record library { base64 = letters }

abbrev split : List ℕ
split = codes "v1\r\nX: y"

abbrev both_ways : Compressed
both_ways = record { server_takeover = true; client_takeover = false }

response_bytes-line_ends_example :
    (count 10 (response_bytes spelling request split (some both_ways) cookies)
      ≡ expected_ends spelling request split (some both_ways) cookies 10)
    × (count 13 (response_bytes spelling request split (some both_ways) cookies)
        ≡ expected_ends spelling request split (some both_ways) cookies 13)
response_bytes-line_ends_example =
    response_bytes-line_ends spelling request split (some both_ways) cookies letters-plain
      (omega arith)

abbrev challenge : List ℕ
challenge = codes "dGhlIHNhbXBsZSBub25jZQ=="

challenge-valid : is_valid_challenge_key challenge ≡ true
unfolding is_valid_challenge_key skip_newlines decoded_length
challenge-valid = refl

cookies-free : has_name (codes "Sec-Websocket-Extensions") cookies ≡ false
unfolding has_name same_text
cookies-free = refl

dial_header-check_request_example :
    (sent : HostHeader) × (dial_header
        (codes "v1" ∷ codes "v2" ∷ [])
        context_takeover
        challenge
        (codes "example.org")
        []
      ≡ inr sent)
    × (check_request library upgrader (arrives sent) cookies ≡ none)
dial_header-check_request_example =
    dial_header-check_request library upgrader (codes "v1" ∷ codes "v2" ∷ []) context_takeover
      challenge (codes "example.org") cookies refl refl challenge-valid cookies-free
