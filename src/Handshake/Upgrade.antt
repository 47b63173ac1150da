-- ===== src/Handshake/Upgrade.antt =====
-- Upgrader.Upgrade: the response, the connection behind it, and the whole handler.
use magilla.Base.{
  ℕ, ◌+◌, Bool, true, false, ◌&&◌, List, [], ◌∷◌, ◌++◌, Option, none, some, ◌⊎◌, inl, inr,
}
use magilla.Base.{same_text, leb, ◌==◌, if◌then◌else◌, length}
use magilla.Errors.{Error, codes}
use magilla.Http.{Header, get}
use magilla.Token.{compute_accept_key}
use magilla.Compression.{effective_compression_mode}
use magilla.Base.Integers.{ℤ, pos, negsuc}
use magilla.Conn.{Conn}
use magilla.Conn.Open.{new_conn}
use magilla.Conn.Write.{max_frame_header_size}
use magilla.Conn.Net.{Network, net_write, net_set_write_deadline}
use magilla.Handshake.{Library, Request, Upgrader, Hijacked, Refusal, Compressed}
use magilla.Handshake.Extensions.{accepted_extension, negotiate_compression}
use magilla.Handshake.Checks.{select_subprotocol, check_request}

abbrev line : List ℕ → List ℕ
line s = s ++ codes "\r\n"

-- A byte of a header value, so that it cannot split the response.
abbrev pub harmless : ℕ → ℕ
harmless b = if leb b 31 then b' ' else b

abbrev pub sanitized : List ℕ → List ℕ
sanitized [] = []
sanitized (b ∷ v) = harmless b ∷ sanitized v

unfoldable pub value_lines : List ℕ → List (List ℕ) → List ℕ
value_lines k [] = []
value_lines k (v ∷ vs) = line (k ++ (codes ": " ++ sanitized v)) ++ value_lines k vs

unfoldable pub header_lines : Header → List ℕ
header_lines [] = []
header_lines ((k, vs) ∷ header) =
    (if same_text k (codes "Sec-Websocket-Protocol") then [] else value_lines k vs)
    ++ header_lines header

-- How Upgrade ends.
pub data Upgraded : Type 0 where
  refused : Refusal → Upgraded
  over_http2 : Upgraded
  failed : Error → Network → Upgraded
  upgraded : Conn → List ℕ → Option Compressed → Upgraded

abbrev is_zero : ℤ → Bool
is_zero (pos n) = n == 0
is_zero (negsuc n) = false

-- `writeBuf` of Upgrade: the hijacked buffer, if nothing else was asked for and it is large enough.
unfoldable pub reused_buffer : Upgrader → List ℕ → List ℕ
reused_buffer u buf = elim u.write_buffer_pool [
  | some bufs ↦ []
  | none ↦
      if is_zero u.write_buffer_size && leb (max_frame_header_size + 256) (length buf)
      then buf
      else []
]

-- The connection of Upgrade, as it is behind the response.
unfoldable pub upgraded_conn : Upgrader → Hijacked → Network → Conn
upgraded_conn u h net =
    let buf = reused_buffer u h.buf in
    let c = new_conn true u.write_buffer_size u.write_buffer_pool buf net h.input h.rand h.now in
    record c { skip_utf8_validation = u.skip_utf8_validation }

module _ (lib : Library) where
  -- The response that Upgrade writes.
  unfoldable pub response_bytes : Request → List ℕ → Option Compressed → Header → List ℕ
  response_bytes r subprotocol compressed response =
      codes
        "HTTP/1.1 101 Switching Protocols\r\nUpgrade: websocket\r\nConnection: Upgrade\r\nSec-WebSocket-Accept: "
      ++ (line (compute_accept_key lib.sha1 lib.base64 (get r.header (codes "Sec-Websocket-Key")))
          ++ ((if length subprotocol == 0
                then []
                else line (codes "Sec-WebSocket-Protocol: " ++ subprotocol))
              ++ (elim compressed [
                | none ↦ []
                | some c ↦ line (codes "Sec-WebSocket-Extensions: " ++ accepted_extension c)
              ]
                  ++ (header_lines response ++ codes "\r\n"))))

  -- The deadlines around the response; `SetDeadline` and `SetWriteDeadline` answer alike.
  unfoldable pub send_response : ℕ → List ℕ → Network → Option Error × Network
  send_response timeout bytes n =
      let (e, n1) = net_set_write_deadline n in
      elim e [
        | some e' ↦ (some e', n1)
        | none ↦
            let (e1, n2) = net_write bytes n1 in
            elim e1 [
              | some e' ↦ (some e', n2)
              | none ↦ if timeout == 0 then (none, n2) else net_set_write_deadline n2
            ]
      ]

  -- `netConn.Close()` of the deferred function, whose error is dropped.
  abbrev closed_network : Network → Network
  closed_network n = (net_set_write_deadline n).1

  -- Upgrader.Upgrade, with what Hijack answers: an error's text, or the connection.
  unfoldable pub upgrade : Upgrader → Request → Header → List ℕ ⊎ Hijacked → Upgraded
  upgrade u r response hijack =
      if r.proto_major == 2
        && same_text r.method (codes "CONNECT")
        && same_text (get r.header (codes ":protocol")) (codes "websocket")
      then over_http2
      else elim (check_request lib u r response) [
        | some refusal ↦ refused refusal
        | none ↦ elim hijack [
          | inl e ↦ refused (record { status = 500; reason = codes "websocket: hijack: " ++ e })
          | inr h ↦
              let mode = effective_compression_mode u.compression_mode u.enable_compression in
              let c = negotiate_compression mode r.header in
              let subprotocol = select_subprotocol lib u r response in
              let (e, n') =
                send_response u.handshake_timeout (response_bytes r subprotocol c response) h.net in
              elim e [
                | some e' ↦ failed e' (closed_network n')
                | none ↦ upgraded (upgraded_conn u h n') subprotocol c
              ]
        ]
      ]
