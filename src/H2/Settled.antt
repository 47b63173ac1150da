-- ===== src/H2/Settled.antt =====
-- How dialHTTP2 ends, and where DialContext does not fall back to HTTP/1.1.
use magilla.Base.{
  ℕ, ◌≡◌, refl, ap, ◌∙◌, arith, Bool, true, false, not, ◌&&◌, List, Option, none, some, ◌⊎◌, inl,
  inr,
}
use Prim.Native.String.{String}
use magilla.Base.{same_text, length, ◌==◌}
use magilla.Errors.{codes}
use magilla.Http.{Header}
use magilla.Conn.{Conn}
use magilla.Handshake.{Compressed}
use magilla.Handshake.Dial.{HostHeader}
use magilla.H2.Dial.{
  H2Dialer, H2Failure, request, not_allowed, duplicate, not_supported, h2_dial_header,
  contains_string, contains, has_prefix, is_extended_connect_not_supported, is_h2_not_available,
  error_texts,
}
use magilla.H2.Opening.{
  RoundTrip, failed, all_open, H2Dialed, failed_early, failed_request, failed_response, dialed,
  round_trip_error, dial_http2, Held, close_pipe, cancel_stream, close_body, retire_watchdog,
  opened, answered, http2_auto, falls_back, returns_of, dial_over_http2,
}

-- An error that dialHTTP2 meets between the pipe and RoundTrip.
abbrev pub is_early : H2Failure → Bool
is_early (request texts) = true
is_early (not_allowed k) = true
is_early (duplicate k) = true
is_early e = false

-- What a result of dialHTTP2 says.
abbrev pub IsSettled : H2Dialer → List ℕ → H2Dialed → Type 0
IsSettled d scheme (failed_early e) =
    (same_text scheme (codes "https") ≡ false) ⊎ (d.has_proxy ≡ true)
IsSettled d scheme (failed_request e h) = h ≡ record {
  pipe_closed = true;
  cancelled = true;
  body_closed = false;
  watched = is_early e && not (d.handshake_timeout == 0);
}
IsSettled d scheme (failed_response e h) =
    h ≡ record { pipe_closed = true; cancelled = true; body_closed = true; watched = false }
IsSettled d scheme (dialed c subprotocol compressed h) =
    (h ≡ all_open)
    × (same_text scheme (codes "https") ≡ true)
    × (d.has_proxy ≡ false)
    × (c.is_server ≡ false)
    × (c.disable_mask ≡ d.disable_client_mask)
    × (c.skip_utf8_validation ≡ d.skip_utf8_validation)
    × ((length subprotocol ≡ 0) ⊎ (contains_string d.subprotocols subprotocol ≡ true))

-- A choice from a response has a subprotocol that was offered, or none.
abbrev IsOffered : List (List ℕ) → H2Failure ⊎ (List ℕ × Option Compressed) → Type 0
IsOffered offered (inl e) = Unit
IsOffered offered (inr (s, c)) = (length s ≡ 0) ⊎ (contains_string offered s ≡ true)

-- What dialHTTP2 makes of a choice.
abbrev chosen : Conn → Held → H2Failure ⊎ (List ℕ × Option Compressed) → H2Dialed
chosen c h (inl e) = failed_response e (close_body (cancel_stream (close_pipe h)))
chosen c h (inr (selected, compressed)) = dialed c selected compressed h

-- An error of the application's header is an early one.
abbrev IsEarly : H2Failure ⊎ HostHeader → Type 0
IsEarly (inl e) = is_early e ≡ true
IsEarly (inr sent) = Unit

not_available-none : is_h2_not_available (error_texts not_supported) ≡ false
unfolding is_h2_not_available error_texts is_extended_connect_not_supported same_text contains
    has_prefix
not_available-none = refl

-- Where the peer does not support Extended CONNECT and the transport says so, DialContext in the
-- mode HTTP2Auto does not fall back to HTTP/1.1: it returns ErrHTTP2NotSupported. The scheme is
-- https, there is no proxy, and the request is in order.
pub dial_over_http2-not_supported :
    (d : H2Dialer) (scheme host : List ℕ) (given : Header) (sent : HostHeader)
    (round_trip : HostHeader → RoundTrip) (texts : List (List ℕ)) (rand : List ℕ) (now : ℕ)
    → same_text scheme (codes "https") ≡ true
    → d.has_proxy ≡ false
    → h2_dial_header d host given ≡ inr sent
    → round_trip sent ≡ failed false texts
    → is_extended_connect_not_supported texts ≡ true
    → dial_over_http2 http2_auto (dial_http2 d scheme host given none round_trip rand now)
      ≡ some (
          failed_request not_supported
            (record { pipe_closed = true; cancelled = true; body_closed = false; watched = false }))
unfolding dial_http2 dial_over_http2 returns_of falls_back round_trip_error answered retire_watchdog
    opened close_pipe cancel_stream
dial_over_http2-not_supported d scheme host given sent round_trip texts rand now https direct e e'
      told =
    let path : dial_http2 d scheme host given none round_trip rand now
        ≡ failed_request not_supported (record {
          pipe_closed = true;
          cancelled = true;
          body_closed = false;
          watched = false;
        }) =
      ground (arith, https, direct, e, e', told) in
    ap (dial_over_http2 http2_auto) path ∙ rw not_available-none refl
