-- ===== src/Conn/InTime.antt =====
-- ReadMessageContext on the frames of one message.
use magilla.Base.{ℕ, ◌^◌, ◌≤◌, ◌<◌, ◌≡◌, ap, arith, Bool, true, false, not, List, [], none}
use magilla.Base.{Option-cases, inl, inr, length, All, IsByte, ◌&&◌, ◌==◌}
use magilla.Opcode
use magilla.Errors.{is_data}
use magilla.Utf8.Spec.{IsUtf8}
use magilla.Frame.{Frame, wire_all}
use magilla.Frame.Message.{IsMessage}
use magilla.Conn.{Machine, Conn}
use magilla.Conn.Net.{Input}
use magilla.Conn.Incoming.{octets}
use magilla.Conn.Arriving.{IsBetween, IsMidway}
use magilla.Conn.Arrived.{read_all-Gathers}
use magilla.Conn.Beginning.{next_reader-Begins}
use magilla.Conn.Graceful.{net_step}
use magilla.Conn.Contexts.{Context, stop_watchdog}
use magilla.Conn.ReadContexts.{wait_until, after_next, next_reader_context, read_message_context}
use magilla.Conn.WholeArrival.{IsReceived}

module _ (m : Machine) (server : Bool) (limit : ℕ) (skip : Bool) (rest : List Input) where
  waiting-IsBetween :
      (ctx : Context) (input : List Input) (c : Conn)
      → IsBetween server limit skip input c
      → IsBetween server limit skip input ((wait_until ctx c).1)
  unfolding wait_until net_step
  waiting-IsBetween ctx input c b = elim (Option-cases ctx.deadline) [
    | inl e ↦ rw e b
    | inr (t, e) ↦ rw e (record {
      role = b.role;
      same_limit = b.same_limit;
      same_skip = b.same_skip;
      fine = b.fine;
      done = b.done;
      final = b.final;
      input = b.input;
      keyed = b.keyed;
    })
  ]

  stopped-IsMidway :
      (t : List ℕ) (fs : List Frame) (c : Conn)
      → IsMidway server limit skip rest t fs c
      → IsMidway server limit skip rest t fs (stop_watchdog c)
  unfolding stop_watchdog net_step
  stopped-IsMidway t fs c h = record {
    role = h.role;
    same_limit = h.same_limit;
    same_skip = h.same_skip;
    fine = h.fine;
    remaining = h.remaining;
    input = h.input;
    keyed = h.keyed;
    bytes = h.bytes;
    frames = h.frames;
    room = h.room;
    within = h.within;
  }

  -- ReadMessageContext with a context that has not ended when it is called, on a connection between
  -- two messages whose SetReadDeadline takes the deadline of the context, if it has one. Where the
  -- frames of a data message arrive, uncompressed, fragmented in any way and masked if it is a
  -- server that reads, it returns the type of the message and all of its payload with no error,
  -- even if the context has ended by then, and leaves what arrives behind the message. The payload
  -- is within the read limit, and UTF-8 if it is a text that is checked; io.ReadAll has one byte of
  -- the payload to read for each round.
  pub read_message_context-IsReceived :
      (ctx : Context) (fuel cap opcode : ℕ) (sizes : ℕ → ℕ) (body : List ℕ) (fs : List Frame)
      (c : Conn)
      → ctx.early ≡ none
      → (wait_until ctx c).0 ≡ none
      → ((n : ℕ) → 0 < sizes n)
      → length body < fuel
      → is_data opcode ≡ true
      → IsBetween server limit skip (octets (wire_all fs) rest) c
      → IsMessage server cap opcode body fs
      → length body < 2 ^ 63
      → (0 < limit → length body ≤ limit)
      → All IsByte body
      → (opcode ≡ 1 → skip ≡ false → IsUtf8 body)
      → IsReceived m server limit skip rest opcode body (read_message_context m ctx fuel sizes c)
  unfolding read_message_context next_reader_context after_next stop_watchdog net_step
  read_message_context-IsReceived ctx fuel cap opcode sizes body fs c early taken' pos enough data'
        b msg room within bytes text =
      let c1 = (wait_until ctx c).1 in
      let b1 = waiting-IsBetween ctx _ c b in
      let s =
        next_reader-Begins m server limit skip rest cap opcode body fs c1 data' b1 msg room within
          bytes text in
      let checked = opcode == Opcode.text && not c1.skip_utf8_validation in
      let same : c1.skip_utf8_validation ≡ c.skip_utf8_validation =
        ground (arith, b.same_skip, b1.same_skip) in
      let g =
        read_all-Gathers m server limit skip rest fuel [] checked c1.readers sizes s.first s.later
          (stop_watchdog s.begun) pos (omega (arith, enough, ap length s.whole)) s.current
          (stopped-IsMidway s.first s.later s.begun s.midway) s.text in
      record {
        later = g.later;
        returns = ground (arith, early, taken', s.starts, g.returns, s.whole, same);
        between = g.between;
      }
