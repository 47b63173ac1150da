-- ===== src/H2/StreamConn.antt =====
-- h2StreamConn of h2.go: a net.Conn over a stream of HTTP/2, whose deadlines are timers that end the
-- stream. The stream below it, its flush hook and its closer are not this package's code: what they
-- answer is an argument.
use magilla.Base.{ℕ, ◌+◌, ◌-◌, Bool, true, false, ◌||◌, List, Option, none, some}
use magilla.Base.{leb, if◌then◌else◌}

-- An error of the stream, of which only `os.ErrDeadlineExceeded` matters here.
pub data StreamError : Type 0 where
  deadline_exceeded : StreamError
  other : List ℕ → StreamError

-- A timer of `time.AfterFunc`: it is running, or it has expired or been stopped.
pub data Timer : Type 0 where
  running stopped : Timer

-- The fields of h2StreamConn, with `close_once` for whether Close has run; and of its surroundings
-- whether the context is cancelled, how often the closer was called, how many callbacks of timers
-- have started without having marked the deadline yet, and how many have marked it and not yet
-- called the closer.
pub record H2StreamConn : Type 0 where
  pub has_flush : Bool
  pub has_cancel : Bool
  pub has_closer : Bool
  pub read_deadline : Option Timer
  pub write_deadline : Option Timer
  pub exceeded : Bool
  pub close_once : Bool
  pub close_err : Option StreamError
  pub cancelled : Bool
  pub closes : ℕ
  pub starting : ℕ
  pub ending : ℕ

-- newH2StreamConn
unfoldable pub new_h2_stream_conn : Bool → Bool → Bool → H2StreamConn
new_h2_stream_conn flush cancel closer = record {
  has_flush = flush;
  has_cancel = cancel;
  has_closer = closer;
  read_deadline = none;
  write_deadline = none;
  exceeded = false;
  close_once = false;
  close_err = none;
  cancelled = false;
  closes = 0;
  starting = 0;
  ending = 0;
}

-- An error that is returned: the deadline's, once that has fired.
unfoldable pub normalized : StreamError → H2StreamConn → StreamError
normalized e c = if c.exceeded then deadline_exceeded else e

-- h2StreamConn.Read, with the bytes and the error of the reader below.
unfoldable pub stream_read :
    List ℕ → Option StreamError → H2StreamConn → List ℕ × Option StreamError
stream_read p err c = elim err [ none ↦ (p, none) | some e ↦ (p, some (normalized e c)) ]

-- h2StreamConn.Write, with how many bytes the writer below took and its error, and the error of the
-- flush hook.
unfoldable pub stream_write :
    ℕ → Option StreamError → Option StreamError → H2StreamConn → ℕ × Option StreamError
stream_write n err flushed c = elim err [
  | some e ↦ (n, some (normalized e c))
  | none ↦
      if c.has_flush
      then elim flushed [ some e ↦ (n, some (normalized e c)) | none ↦ (n, none) ]
      else (n, none)
]

-- `if c.closer != nil { ... c.closer() }`: how often it was called.
abbrev pub one_more : Bool → ℕ → ℕ
one_more b n = if b then n + 1 else n

-- h2StreamConn.Close, with what the closer would answer.
unfoldable pub stream_close : Option StreamError → H2StreamConn → Option StreamError × H2StreamConn
stream_close answer c =
    let err = if c.has_closer then answer else c.close_err in
    if c.close_once then (c.close_err, c) else (
      err,
      record c {
        close_once = true;
        read_deadline = none;
        write_deadline = none;
        close_err = err;
        closes = one_more c.has_closer c.closes;
        cancelled = c.has_cancel || c.cancelled;
      },
    )

-- h2StreamConn.armDeadline at the time `now`, with a time or none for the zero time: the timer and
-- the connection. The old timer is stopped and dropped.
unfoldable pub arm_deadline : Option ℕ → ℕ → H2StreamConn → Option Timer × H2StreamConn
arm_deadline none now c = (none, c)
arm_deadline (some t) now c =
    if leb t now
    then (none, record c { exceeded = true; cancelled = c.has_cancel || c.cancelled })
    else (some running, c)

-- h2StreamConn.SetReadDeadline
unfoldable pub set_stream_read_deadline : Option ℕ → ℕ → H2StreamConn → H2StreamConn
set_stream_read_deadline t now c =
    let (timer, c') = arm_deadline t now c in record c' { read_deadline = timer }

-- h2StreamConn.SetWriteDeadline
unfoldable pub set_stream_write_deadline : Option ℕ → ℕ → H2StreamConn → H2StreamConn
set_stream_write_deadline t now c =
    let (timer, c') = arm_deadline t now c in record c' { write_deadline = timer }

-- h2StreamConn.SetDeadline
unfoldable pub set_stream_deadline : Option ℕ → ℕ → H2StreamConn → H2StreamConn
set_stream_deadline t now c = set_stream_write_deadline t now (set_stream_read_deadline t now c)

-- h2StreamConn.fireDeadline, up to the unlocking of the mutex and from there on.
unfoldable pub mark_deadline : H2StreamConn → H2StreamConn
mark_deadline c = record c { exceeded = true; starting = c.starting - 1; ending = c.ending + 1 }

unfoldable pub end_stream : H2StreamConn → H2StreamConn
end_stream c = record c {
  closes = one_more c.has_closer c.closes;
  cancelled = c.has_cancel || c.cancelled;
  ending = c.ending - 1;
}
