-- ===== src/Tests/Streams.antt =====
-- Runs of the handshake over HTTP/2 and of the stream behind it.
use magilla.Base.{ℕ, ◌+◌, ◌≡◌, refl, true, false, List, [], ◌∷◌, none, some, inr, if◌then◌else◌}
use magilla.Base.{same_text}
use magilla.Base.Integers.{pos}
use magilla.Errors.{codes}
use magilla.Compression.{context_takeover}
use magilla.Handshake.Dial.{HostHeader}
use magilla.H2.StreamConn.{
  running, stopped, H2StreamConn, deadline_exceeded, other, new_h2_stream_conn,
  set_stream_write_deadline, stream_close, stream_read, stream_write, arm_deadline,
}
use magilla.H2.Deadlines.{
  IsSafe, Reach, here, next, closed, set_write, ends, as_number, counted, new_h2_stream_conn-IsSafe,
  stream_read-exceeded,
}
use magilla.H2.Endings.{write_timer, at_once, after, Expires, set_deadlines-Expires}
use magilla.H2.Dial.{
  H2Dialer, not_supported, h2_dial_header, add_h2_headers, own_h2_headers,
  is_extended_connect_not_supported,
}
use magilla.H2.Opening.{RoundTrip, failed, failed_request, dial_http2, dial_over_http2, http2_auto}
use magilla.H2.Settled.{dial_over_http2-not_supported}

abbrev stream : H2StreamConn
stream = new_h2_stream_conn true true true

-- A write deadline that has come, and then Close.
life : Reach stream (stream_close none (set_stream_write_deadline (some 3) 5 stream)).1
life =
    next (next here (set_write stream (some 3) 5))
      (closed (set_stream_write_deadline (some 3) 5 stream) none)

new_h2_stream_conn-IsSafe_example :
    let d = (stream_close none (set_stream_write_deadline (some 3) 5 stream)).1 in
    IsSafe d × (d.closes ≡ counted true (ends life + as_number d.close_once))
new_h2_stream_conn-IsSafe_example = new_h2_stream_conn-IsSafe true true true life

-- A deadline that has come, and is then taken away.
abbrev late : H2StreamConn
late = set_stream_write_deadline (some 3) 5 stream

late-exceeded : late.exceeded ≡ true
unfolding set_stream_write_deadline arm_deadline new_h2_stream_conn
late-exceeded = refl

stream_read-exceeded_example :
    let d = set_stream_write_deadline none 6 late in
    (stream_read (1 ∷ []) (some (other [])) d ≡ (1 ∷ [], some deadline_exceeded))
    × (stream_read (1 ∷ []) none d ≡ (1 ∷ [], none))
    × (stream_write 2 (some (other [])) none d ≡ (2, some deadline_exceeded))
    × (stream_write 2 none (some (other [])) d
        ≡ (if d.has_flush then (2, some deadline_exceeded) else (2, none)))
    × (stream_write 2 none none d ≡ (2, none))
stream_read-exceeded_example =
    stream_read-exceeded (1 ∷ []) 2 (other []) none (next here (set_write late none 6))
      late-exceeded

has_context : stream.has_cancel ≡ true
unfolding new_h2_stream_conn
has_context = refl

-- A deadline whose time has come by now.
abbrev armed : H2StreamConn
armed = set_stream_write_deadline (some 9) 5 stream

abbrev ringing : H2StreamConn
ringing = record armed { write_deadline = some stopped; starting = armed.starting + 1 }

armed-runs : armed.write_deadline ≡ some running
unfolding set_stream_write_deadline arm_deadline
armed-runs = refl

set_deadlines-Expires_example : Expires ringing
set_deadlines-Expires_example =
    set_deadlines-Expires 9 5 stream has_context
      (inr (after at_once (write_timer armed armed-runs)))

abbrev dialer : H2Dialer
dialer = record {
  handshake_timeout = 5;
  has_proxy = false;
  subprotocols = [];
  compression_mode = context_takeover;
  enable_compression = false;
  write_buffer_size = pos 0;
  write_buffer_pool = none;
  disable_client_mask = false;
  skip_utf8_validation = false;
}

-- A transport whose peer has no Extended CONNECT.
abbrev texts : List (List ℕ)
texts = codes "net/http: extended connect not supported by peer" ∷ []

abbrev unsupported : HostHeader → RoundTrip
unsupported sent = failed false texts

abbrev sent : HostHeader
sent = (codes "example.org", own_h2_headers dialer)

dial_over_http2-not_supported_example :
    dial_over_http2 http2_auto
      (dial_http2 dialer (codes "https") (codes "example.org") [] none unsupported [] 0)
    ≡ some (
        failed_request not_supported
          (record { pipe_closed = true; cancelled = true; body_closed = false; watched = false }))
unfolding same_text h2_dial_header add_h2_headers is_extended_connect_not_supported
dial_over_http2-not_supported_example =
    dial_over_http2-not_supported dialer (codes "https") (codes "example.org") [] sent unsupported
      texts [] 0 refl refl refl refl refl
