-- ===== src/H2/Deadlines.antt =====
-- The life of an h2StreamConn: calls of its methods and callbacks of its timers, in any order.
use magilla.Base.{
  ℕ, ◌+◌, ◌<◌, ◌≡◌, refl, ◌∙◌, arith, Bool, true, List, Option, none, some, if◌then◌else◌,
}
use magilla.H2.StreamConn.{
  StreamError, deadline_exceeded, running, stopped, H2StreamConn, new_h2_stream_conn, normalized,
  stream_read, stream_write, stream_close, arm_deadline, set_stream_read_deadline,
  set_stream_write_deadline, mark_deadline, end_stream,
}

-- One step. Close runs once, under its sync.Once; a timer that expires starts its callback, which
-- takes two steps, between which others may come. A timer that is stopped does not expire.
pub data Step : H2StreamConn → H2StreamConn → Type 0 where
  closed : (c : H2StreamConn) (answer : Option StreamError) → Step c (stream_close answer c).1
  set_read : (c : H2StreamConn) (t : Option ℕ) (now : ℕ) → Step c (set_stream_read_deadline t now c)
  set_write :
      (c : H2StreamConn) (t : Option ℕ) (now : ℕ) → Step c (set_stream_write_deadline t now c)
  read_expired :
      (c : H2StreamConn)
      → c.read_deadline ≡ some running
      → Step c (record c { read_deadline = some stopped; starting = c.starting + 1 })
  write_expired :
      (c : H2StreamConn)
      → c.write_deadline ≡ some running
      → Step c (record c { write_deadline = some stopped; starting = c.starting + 1 })
  marked : (c : H2StreamConn) → 0 < c.starting → Step c (mark_deadline c)
  ended : (c : H2StreamConn) → 0 < c.ending → Step c (end_stream c)

pub data Reach (c : H2StreamConn) : H2StreamConn → Type 0 where
  here : Reach c c
  next : {d e : H2StreamConn} → Reach c d → Step d e → Reach c e

-- How many callbacks have ended the stream on the way.
abbrev pub is_end : {c d : H2StreamConn} → Step c d → ℕ
is_end (closed c answer) = 0
is_end (set_read c t now) = 0
is_end (set_write c t now) = 0
is_end (read_expired c h) = 0
is_end (write_expired c h) = 0
is_end (marked c h) = 0
is_end (ended c h) = 1

abbrev pub ends : {c d : H2StreamConn} → Reach c d → ℕ
ends here = 0
ends (next r s) = ends r + is_end s

-- A deadline that has passed cancels the context, if there is one to cancel, as soon as no callback
-- is on its way; and so does Close.
pub record IsSafe (c : H2StreamConn) : Type 0 where
  pub fired : c.exceeded ≡ true → c.has_cancel ≡ true → c.ending ≡ 0 → c.cancelled ≡ true
  pub closed' : c.close_once ≡ true → c.has_cancel ≡ true → c.cancelled ≡ true

Step-IsSafe : {c d : H2StreamConn} → Step c d → IsSafe c → IsSafe d
unfolding stream_close set_stream_read_deadline set_stream_write_deadline arm_deadline mark_deadline
    end_stream
Step-IsSafe (closed c answer) h = ground (arith, h.fired, h.closed')
Step-IsSafe (set_read c none now) h = ground (arith, h.fired, h.closed')
Step-IsSafe (set_read c (some t) now) h = ground (arith, h.fired, h.closed')
Step-IsSafe (set_write c none now) h = ground (arith, h.fired, h.closed')
Step-IsSafe (set_write c (some t) now) h = ground (arith, h.fired, h.closed')
Step-IsSafe (read_expired c e) h = ground (arith, h.fired, h.closed')
Step-IsSafe (write_expired c e) h = ground (arith, h.fired, h.closed')
Step-IsSafe (marked c e) h = ground (arith, h.fired, h.closed')
Step-IsSafe (ended c e) h = ground (arith, h.fired, h.closed')

Reach-IsSafe : {c d : H2StreamConn} → Reach c d → IsSafe c → IsSafe d
Reach-IsSafe here h = h
Reach-IsSafe (next r s) h = Step-IsSafe s (Reach-IsSafe r h)

abbrev pub as_number : Bool → ℕ
as_number b = if b then 1 else 0

-- A number of calls of a closer, if there is one.
abbrev pub counted : Bool → ℕ → ℕ
counted closer n = if closer then n else 0

-- The closer was called once by Close and once by each callback.
Step-closes :
    {c d : H2StreamConn} (s : Step c d)
    → (d.has_closer ≡ c.has_closer)
      × (d.closes + counted c.has_closer (as_number c.close_once)
          ≡ c.closes + counted c.has_closer (is_end s + as_number d.close_once))
unfolding stream_close set_stream_read_deadline set_stream_write_deadline arm_deadline mark_deadline
    end_stream
Step-closes (closed c answer) = ground arith
Step-closes (set_read c none now) = ground arith
Step-closes (set_read c (some t) now) = ground arith
Step-closes (set_write c none now) = ground arith
Step-closes (set_write c (some t) now) = ground arith
Step-closes (read_expired c e) = ground arith
Step-closes (write_expired c e) = ground arith
Step-closes (marked c e) = ground arith
Step-closes (ended c e) = ground arith

Reach-closes :
    {c d : H2StreamConn} (r : Reach c d)
    → (d.has_closer ≡ c.has_closer)
      × (d.closes + counted c.has_closer (as_number c.close_once)
          ≡ c.closes + counted c.has_closer (ends r + as_number d.close_once))
Reach-closes here = (refl, ground arith)
Reach-closes (next r s) =
    let (same, before) = Reach-closes r in
    let (same', after) = Step-closes s in (same' ∙ same, ground (arith, same, before, after))

-- Whatever is called on a new stream and whichever timers expire, in any order: if it has a context,
-- that is cancelled once a deadline has passed and no callback is between its two steps, and once
-- Close has run; and if it has a closer, that was called once for all calls of Close, and once more
-- for each callback of a deadline that has ended the stream.
pub new_h2_stream_conn-IsSafe :
    (flush cancel closer : Bool) {d : H2StreamConn}
    (r : Reach (new_h2_stream_conn flush cancel closer) d)
    → IsSafe d × (d.closes ≡ counted closer (ends r + as_number d.close_once))
unfolding new_h2_stream_conn
new_h2_stream_conn-IsSafe flush cancel closer r = (
  Reach-IsSafe r (record { fired = λ e. cc; closed' = λ e. cc }),
  ground (arith, (Reach-closes r).1),
)

-- What a deadline that has passed, or Close, leaves forever.
Step-exceeded : {c d : H2StreamConn} → Step c d → c.exceeded ≡ true → d.exceeded ≡ true
unfolding stream_close set_stream_read_deadline set_stream_write_deadline arm_deadline mark_deadline
    end_stream
Step-exceeded (closed c answer) h = ground (arith, h)
Step-exceeded (set_read c none now) h = h
Step-exceeded (set_read c (some t) now) h = ground (arith, h)
Step-exceeded (set_write c none now) h = h
Step-exceeded (set_write c (some t) now) h = ground (arith, h)
Step-exceeded (read_expired c e) h = h
Step-exceeded (write_expired c e) h = h
Step-exceeded (marked c e) h = refl
Step-exceeded (ended c e) h = h

Reach-exceeded : {c d : H2StreamConn} → Reach c d → c.exceeded ≡ true → d.exceeded ≡ true
Reach-exceeded here h = h
Reach-exceeded (next r s) h = Step-exceeded s (Reach-exceeded r h)

-- After a deadline has passed, at any later time and also if the deadlines are cleared, a Read or a
-- Write below which something fails returns the deadline's error with the bytes that were moved, and
-- one that succeeds is left as it is.
pub stream_read-exceeded :
    {c d : H2StreamConn} (p : List ℕ) (n : ℕ) (e : StreamError) (flushed : Option StreamError)
    → Reach c d
    → c.exceeded ≡ true
    → (stream_read p (some e) d ≡ (p, some deadline_exceeded))
      × (stream_read p none d ≡ (p, none))
      × (stream_write n (some e) flushed d ≡ (n, some deadline_exceeded))
      × (stream_write n none (some e) d
          ≡ (if d.has_flush then (n, some deadline_exceeded) else (n, none)))
      × (stream_write n none none d ≡ (n, none))
unfolding stream_read stream_write normalized
stream_read-exceeded p n e flushed r h =
    let h' = Reach-exceeded r h in
    (ground (arith, h'), refl, ground (arith, h'), ground (arith, h'), ground arith)
