-- ===== src/H2/Upgrade.antt =====
-- upgradeHTTP2 of h2.go: the checks, the header of the response, and the connection.
use magilla.Base.{ℕ, true, not, List, [], ◌∷◌, ◌++◌, Option, none, some}
use magilla.Base.{same_text, length, ◌==◌, if◌then◌else◌}
use magilla.Errors.{Error, codes}
use magilla.Http.{Header, values, get}
use magilla.Compression.{effective_compression_mode}
use magilla.Conn.{Conn}
use magilla.Conn.Net.{Network, Input}
use magilla.Conn.Open.{new_conn}
use magilla.Handshake.{Library, Request, Upgrader, Refusal, Compressed}
use magilla.Handshake.Extensions.{accepted_extension, negotiate_compression}
use magilla.Handshake.Checks.{select_subprotocol, has_name, origin_allowed, refuse}
use magilla.Handshake.Upgrade.{harmless}
use magilla.Handshake.Dial.{set_header, canonical}

-- sanitizeHeaderValue
unfoldable pub sanitize_header_value : List ℕ → List ℕ
sanitize_header_value [] = []
sanitize_header_value (b ∷ v) = harmless b ∷ sanitize_header_value v

-- `header.Add(k, v)` for the loop over the values of one name.
unfoldable pub add_values : List ℕ → List (List ℕ) → Header → Header
add_values k [] header = header
add_values k (v ∷ vs) header =
    add_values k vs (set_header k (values header k ++ (sanitize_header_value v ∷ [])) header)

-- The loop over the application's header.
unfoldable pub add_response_headers : Header → Header → Header
add_response_headers [] header = header
add_response_headers ((k, vs) ∷ response) header =
    if same_text k (codes "Sec-Websocket-Protocol")
    then add_response_headers response header
    else add_response_headers response (add_values (canonical true k) vs header)

-- The header of the response, from what the ResponseWriter has in it.
unfoldable pub h2_response_header : List ℕ → Option Compressed → Header → Header → Header
h2_response_header subprotocol compressed response header =
    let header' =
      if length subprotocol == 0
      then header
      else set_header (codes "Sec-Websocket-Protocol") (subprotocol ∷ []) header in
    add_response_headers response (elim compressed [
      | none ↦ header'
      | some c ↦ set_header (codes "Sec-Websocket-Extensions") (accepted_extension c ∷ []) header'
    ])

-- The stream that a request over HTTP/2 brings along.
pub record H2Stream : Type 0 where
  pub net : Network
  pub input : List Input
  pub rand : List ℕ
  pub now : ℕ

-- How upgradeHTTP2 ends; without the flush of its header a response has been sent all the same.
pub data H2Upgraded : Type 0 where
  h2_refused : Refusal → H2Upgraded
  flush_failed : Error → Header → H2Upgraded
  h2_upgraded : Conn → List ℕ → Option Compressed → Header → H2Upgraded

module _ (lib : Library) where
  -- The checks of upgradeHTTP2, in their order.
  unfoldable pub check_http2 : Upgrader → Request → Header → Option Refusal
  check_http2 u r response =
      if not (same_text (get r.header (codes "Sec-Websocket-Version")) (codes "13"))
      then refuse 400
          (codes "websocket: unsupported version: 13 not found in 'Sec-Websocket-Version' header")
      else if has_name (codes "Sec-Websocket-Extensions") response
      then refuse 500 (
          codes
            "websocket: application specific 'Sec-WebSocket-Extensions' headers are unsupported")
      else if not (origin_allowed lib u r)
      then refuse 403 (codes "websocket: request origin not allowed by Upgrader.CheckOrigin")
      else none

  -- Upgrader.upgradeHTTP2, with the header of the ResponseWriter and the error of Flush.
  unfoldable pub upgrade_http2 :
      Upgrader → Request → Header → Header → Option Error → H2Stream → H2Upgraded
  upgrade_http2 u r response header flushed s = elim (check_http2 u r response) [
    | some refusal ↦ h2_refused refusal
    | none ↦
        let subprotocol = select_subprotocol lib u r response in
        let mode = effective_compression_mode u.compression_mode u.enable_compression in
        let compressed = negotiate_compression mode r.header in
        let sent = h2_response_header subprotocol compressed response header in
        elim flushed [
          | some e ↦ flush_failed e sent
          | none ↦
              let c =
                new_conn true u.write_buffer_size u.write_buffer_pool [] s.net s.input s.rand
                  s.now in
              h2_upgraded (record c { skip_utf8_validation = u.skip_utf8_validation }) subprotocol
                compressed sent
        ]
  ]
