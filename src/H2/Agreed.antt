-- ===== src/H2/Agreed.antt =====
-- What the two ends of the handshake over HTTP/2 make of each other, and how dialHTTP2 ends.
use magilla.Base.{ℕ, ◌≡◌, List, [], ◌∷◌, none, ◌⊎◌, inr}
use magilla.Errors.{codes}
use magilla.Http.{Header}
use magilla.Compression.{CompressionMode, effective_compression_mode, compression_offer_header}
use magilla.Handshake.{Library, Request, Upgrader, Hijacked}
use magilla.Handshake.Extensions.{negotiate_compression}
use magilla.Handshake.Checks.{select_subprotocol}
use magilla.Handshake.Upgrade.{upgrade, over_http2}
use magilla.Handshake.Dial.{HostHeader, add_offer, canonical_header}
use magilla.H2.Dial.{H2Dialer, h2_dial_header, h2_choice}
use magilla.H2.Upgrade.{h2_response_header, check_http2}

-- The request that a server gets over HTTP/2.
abbrev pub arrives : HostHeader → Request
arrives (host, header) = record {
  proto_major = 2;
  method = codes "CONNECT";
  host = host;
  header = canonical_header header;
}

-- The two ends agree: the request goes to the HTTP/2 handler of Upgrade and passes its checks, and
-- from the header of the response the client takes the server's choice.
pub record Agrees (lib : Library) (d : H2Dialer) (u : Upgrader) (host : List ℕ) : Type 0 where
  pub sent : HostHeader
  pub sends : h2_dial_header d host [] ≡ inr sent
  pub dispatched :
      (response : Header) (hijack : List ℕ ⊎ Hijacked)
      → upgrade lib u (arrives sent) response hijack ≡ over_http2
  pub passes : check_http2 lib u (arrives sent) [] ≡ none
  pub chosen :
      let mode = effective_compression_mode u.compression_mode u.enable_compression in
      let c = negotiate_compression mode (arrives sent).header in
      h2_choice d 200 (h2_response_header (select_subprotocol lib u (arrives sent) []) c [] [])
      ≡ inr ([], c)

-- What is sent with no subprotocols.
abbrev plain_header : CompressionMode → Header
plain_header mode = add_offer (compression_offer_header mode) (
    (codes ":protocol", codes "websocket" ∷ [])
    ∷ (codes "Sec-WebSocket-Version", codes "13" ∷ [])
    ∷ [])
