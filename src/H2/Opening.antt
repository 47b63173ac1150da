-- ===== src/H2/Opening.antt =====
-- dialHTTP2 of h2.go as a whole, with what it closes on the way, and how Dialer.DialContext goes on
-- after it.
use magilla.Base.{ℕ, Bool, true, false, not, List, [], Option, none, some, inl, inr}
use magilla.Base.{◌∷◌, ◌&&◌, ◌||◌, ◌⊎◌, same_text, length, ◌==◌, if◌then◌else◌}
use magilla.Errors.{codes}
use magilla.Http.{Header, get}
use magilla.Token.{Params, parse_extensions}
use magilla.Conn.{Conn}
use magilla.Conn.Net.{Network, Input}
use magilla.Conn.Open.{new_conn}
use magilla.Handshake.{Compressed}
use magilla.Compression.{CompressionMode, effective_compression_mode, parse_pm_deflate}
use magilla.Handshake.Extensions.{is_disabled, is_takeover, is_no_takeover, get_param}
use magilla.Handshake.Dial.{HostHeader}
use magilla.H2.Dial.{
  H2Dialer, H2Failure, requires_https, proxy_unsupported, not_supported, request, transport,
  is_extended_connect_not_supported, is_h2_not_available, error_texts, h2_dial_header,
  bad_handshake, invalid_compression, contains_string,
}

-- What the transport answers to a request: an error, whether it is `http2.ErrNoCachedConn` and its
-- texts; or a response, with the stream behind it.
pub data RoundTrip : Type 0 where
  failed : Bool → List (List ℕ) → RoundTrip
  responded : ℕ → Header → Network → List Input → RoundTrip

-- What dialHTTP2 has opened: whether the pipe, the context and the body of a response are closed,
-- and whether the goroutine that waits for the handshake's timeout still runs.
pub record Held : Type 0 where
  pub pipe_closed : Bool
  pub cancelled : Bool
  pub body_closed : Bool
  pub watched : Bool

-- Before the pipe is made nothing is held.
pub data H2Dialed : Type 0 where
  failed_early : H2Failure → H2Dialed
  failed_request : H2Failure → Held → H2Dialed
  failed_response : H2Failure → Held → H2Dialed
  dialed : Conn → List ℕ → Option Compressed → Held → H2Dialed

abbrev pub all_open : Held
all_open = record { pipe_closed = false; cancelled = false; body_closed = false; watched = false }

-- The pipe and the context are made, and the goroutine started if there is a timeout.
unfoldable pub opened : H2Dialer → Held
opened d = record all_open { watched = not (d.handshake_timeout == 0) }

-- `_ = pw.Close()`, `streamCancel()`, `_ = resp.Body.Close()` and `close(handshakeDone)`.
unfoldable pub close_pipe : Held → Held
close_pipe h = record h { pipe_closed = true }

unfoldable pub cancel_stream : Held → Held
cancel_stream h = record h { cancelled = true }

unfoldable pub close_body : Held → Held
close_body h = record h { body_closed = true }

unfoldable pub retire_watchdog : Held → Held
retire_watchdog h = record h { watched = false }

-- The error of RoundTrip that dialHTTP2 returns.
unfoldable pub round_trip_error : Bool → List (List ℕ) → H2Failure
round_trip_error no_cached_conn texts =
    if no_cached_conn
    then transport texts
    else if is_extended_connect_not_supported texts
    then not_supported
    else transport texts

-- The loop of dialHTTP2 over the extensions of the response: an error with what is closed for it, or
-- the compression.
unfoldable pub take_extension : CompressionMode → List Params → Held → Held ⊎ Option Compressed
take_extension mode [] h = inr none
take_extension mode (ext ∷ exts) h =
    if not (same_text (get_param ext) (codes "permessage-deflate"))
    then take_extension mode exts h
    else (let p = parse_pm_deflate ext in
        if not p.window_bits_valid
        then inl (close_body (cancel_stream (close_pipe h)))
        else if is_no_takeover mode
            && (not p.server_no_context_takeover || not p.client_no_context_takeover)
        then inl (close_body (cancel_stream (close_pipe h)))
        else inr (
            some (record {
              server_takeover = is_takeover mode && not p.server_no_context_takeover;
              client_takeover = is_takeover mode && not p.client_no_context_takeover;
            })))

-- The connection of dialHTTP2.
abbrev pub dialed_conn : H2Dialer → Network → List Input → List ℕ → ℕ → Conn
dialed_conn d net input rand now =
    let c = new_conn false d.write_buffer_size d.write_buffer_pool [] net input rand now in
    record c { disable_mask = d.disable_client_mask; skip_utf8_validation = d.skip_utf8_validation }

-- dialHTTP2 behind the compression.
unfoldable pub with_compression :
    H2Failure → Conn → List ℕ → Held → Held ⊎ Option Compressed → H2Dialed
with_compression e c subprotocol h (inl h') = failed_response e h'
with_compression e c subprotocol h (inr compressed) = dialed c subprotocol compressed h

-- dialHTTP2 with a response. The body of one with another status than 200 is read up to a limit
-- before it is closed.
unfoldable pub with_response :
    H2Dialer → ℕ → Header → Network → List Input → List ℕ → ℕ → Held → H2Dialed
with_response d status header net input rand now h =
    let mode = effective_compression_mode d.compression_mode d.enable_compression in
    let selected = get header (codes "Sec-Websocket-Protocol") in
    let c = dialed_conn d net input rand now in
    if not (status == 200)
    then failed_response bad_handshake (close_body (cancel_stream (close_pipe h)))
    else if not (length selected == 0) && not (contains_string d.subprotocols selected)
    then failed_response bad_handshake (close_body (cancel_stream (close_pipe h)))
    else if is_disabled mode
    then dialed c selected none h
    else with_compression invalid_compression c selected h
        (take_extension mode (parse_extensions header) h)

-- dialHTTP2 behind RoundTrip.
unfoldable pub answered : H2Dialer → RoundTrip → List ℕ → ℕ → Held → H2Dialed
answered d (failed no_cached_conn texts) rand now h =
    failed_request (round_trip_error no_cached_conn texts) (cancel_stream (close_pipe h))
answered d (responded status header net input) rand now h =
    with_response d status header net input rand now h

-- dialHTTP2 to `host`, with the error of NewRequestWithContext, if any, and the transport.
unfoldable pub dial_http2 :
    H2Dialer
    → List ℕ
    → List ℕ
    → Header
    → Option (List (List ℕ))
    → (HostHeader → RoundTrip)
    → List ℕ
    → ℕ
    → H2Dialed
dial_http2 d scheme host given request_error round_trip rand now =
    if not (same_text scheme (codes "https"))
    then failed_early requires_https
    else if d.has_proxy
    then failed_early proxy_unsupported
    else (let h = opened d in
        elim request_error [
          | some texts ↦ failed_request (request texts) (cancel_stream (close_pipe h))
          | none ↦ elim (h2_dial_header d host given) [
            | inl e ↦ failed_request e (cancel_stream (close_pipe h))
            | inr sent ↦ answered d (round_trip sent) rand now (retire_watchdog h)
          ]
        ])

pub data Http2Mode : Type 0 where
  http2_disabled http2_auto http2_required : Http2Mode

-- The scheme of a WebSocket URL as DialContext replaces it, or none for a malformed one.
unfoldable pub dial_scheme : List ℕ → Bool → Option (List ℕ)
dial_scheme scheme has_user =
    if same_text scheme (codes "ws")
    then (if has_user then none else some (codes "http"))
    else if same_text scheme (codes "wss")
    then (if has_user then none else some (codes "https"))
    else none

abbrev pub is_https_error : H2Failure → Bool
is_https_error requires_https = true
is_https_error e = false

-- Does DialContext go on over HTTP/1.1 after an error of dialHTTP2?
unfoldable pub falls_back : Http2Mode → H2Failure → Bool
falls_back http2_disabled e = false
falls_back http2_required e = false
falls_back http2_auto e = if is_h2_not_available (error_texts e) then true else is_https_error e

-- What DialContext returns of dialHTTP2, or none if it goes on over HTTP/1.1.
unfoldable pub returns_of : Http2Mode → H2Dialed → Option H2Dialed
returns_of mode (failed_early e) = if falls_back mode e then none else some (failed_early e)
returns_of mode (failed_request e h) = if falls_back mode e then none else some (failed_request e h)
returns_of mode (failed_response e h) =
    if falls_back mode e then none else some (failed_response e h)
returns_of mode (dialed c subprotocol compressed h) = some (dialed c subprotocol compressed h)

-- The HTTP/2 branch of DialContext; none if it goes on over HTTP/1.1.
unfoldable pub dial_over_http2 : Http2Mode → H2Dialed → Option H2Dialed
dial_over_http2 http2_disabled r = none
dial_over_http2 http2_auto r = returns_of http2_auto r
dial_over_http2 http2_required r = returns_of http2_required r
