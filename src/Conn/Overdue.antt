-- ===== src/Conn/Overdue.antt =====
-- What a context with a deadline leaves behind.
use magilla.Base.{ℕ, ◌≤◌, ◌≡◌, arith, not, ◌&&◌, List, Option, none, some}
use magilla.Base.{if◌then◌else◌, ◌==◌, ◌⊎◌, inl, inr}
use mathlib.Core.Path.{subst}
use magilla.Errors.{Error}
use magilla.Errors.Error.{write_timeout, invalid_utf8}
use magilla.Utf8.{dfa_validate, accept}
use magilla.Conn.InFrames.{is_checked}
use magilla.Conn.{Machine, Conn, Pipeline}
use magilla.Conn.Send.{
  Outcome, returned, blocked, stuck, acquire_write_mu, timed_out, next_writer, write_message,
  write_whole, write_in_frames, write_and_close,
}
use magilla.Conn.Graceful.{net_step}
use magilla.Conn.Open.{set_write_deadline}
use magilla.Conn.SameDeadline.{KeepsOutcome, next_writer-Keeps, write_message-Keeps}
use magilla.Conn.Contexts.{
  Context, take_deadline, stop_watchdog, after_message, after_writer, write_message_context,
  next_writer_context,
}

-- The connection at a later reading of the clock.
abbrev pub at : ℕ → Conn → Conn
at now c = record c { now = now }

-- What WriteMessage returns when it is too late for the lock.
abbrev pub late_error : ℕ → List ℕ → Conn → Error
late_error message_type body c =
    if is_checked message_type c && not (dfa_validate body == accept)
    then invalid_utf8
    else write_timeout

module _ (m : Machine) (now message_type : ℕ) (body : List ℕ) where
  -- NextWriter and WriteMessage do nothing at that time but return an error: errWriteTimeout, or
  -- that for a text which is not UTF-8.
  pub record IsOverdue (c : Conn) : Type 0 where
    pub no_writer : next_writer m message_type (at now c) ≡ returned (inl write_timeout) (at now c)
    pub no_message :
        write_message m message_type body (at now c)
        ≡ returned (some (late_error message_type body c)) (at now c)

  -- The call returned, and left such a connection.
  abbrev pub LeavesOverdue : {A : Type 0} → Outcome A → Type 0
  LeavesOverdue (returned a c) = IsOverdue c
  LeavesOverdue blocked = ⊥
  LeavesOverdue stuck = Unit

  passed-IsOverdue : (t : ℕ) (c : Conn) → c.write_deadline ≡ some t → t ≤ now → IsOverdue c
  unfolding next_writer write_message write_whole write_in_frames write_and_close acquire_write_mu
  passed-IsOverdue t c h past =
      let late : acquire_write_mu c.write_deadline (at now c) ≡ timed_out =
        rw h (ground (arith, past)) in
      record { no_writer = ground (arith, late); no_message = ground (arith, late) }

  after_message-LeavesOverdue :
      (ctx : Context) (t : ℕ) (o : Outcome (Option Error))
      → t ≤ now
      → KeepsOutcome m (some t) o
      → LeavesOverdue (after_message ctx o)
  unfolding after_message stop_watchdog net_step
  after_message-LeavesOverdue ctx t (returned e c) past h = passed-IsOverdue t _ h past
  after_message-LeavesOverdue ctx t blocked past h = absurd (ground (arith, h))
  after_message-LeavesOverdue ctx t stuck past h = tt

  after_writer-LeavesOverdue :
      (ctx : Context) (t : ℕ) (o : Outcome (Error ⊎ Pipeline))
      → t ≤ now
      → KeepsOutcome m (some t) o
      → LeavesOverdue (after_writer ctx o)
  unfolding after_writer stop_watchdog net_step
  after_writer-LeavesOverdue ctx t (returned (inl e) c) past h = passed-IsOverdue t _ h past
  after_writer-LeavesOverdue ctx t (returned (inr w) c) past h = passed-IsOverdue t _ h past
  after_writer-LeavesOverdue ctx t blocked past h = absurd (ground (arith, h))
  after_writer-LeavesOverdue ctx t stuck past h = tt

  -- WriteMessageContext and NextWriterContext with a context that has a deadline and has not ended:
  -- neither waits for a lock that nobody releases, and however they return, with or without an
  -- error, from the deadline on both NextWriter and WriteMessage fail on the connection that they
  -- leave, for any message, before anything is sent.
  pub contexts-LeavesOverdue :
      (ctx : Context) (t message_type' : ℕ) (body' : List ℕ) (c : Conn)
      → ctx.early ≡ none
      → ctx.deadline ≡ some t
      → t ≤ now
      → LeavesOverdue (write_message_context m ctx message_type' body' c)
        × LeavesOverdue (next_writer_context m ctx message_type' c)
  unfolding write_message_context next_writer_context
  contexts-LeavesOverdue ctx t message_type' body' c early due past =
      let taken' : (take_deadline ctx c).write_deadline ≡ some t =
        unfold take_deadline set_write_deadline in ground (arith, due) in
      let first : after_message ctx (write_message m message_type' body' (take_deadline ctx c))
          ≡ write_message_context m ctx message_type' body' c =
        ground (arith, early) in
      let second : after_writer ctx (next_writer m message_type' (take_deadline ctx c))
          ≡ next_writer_context m ctx message_type' c =
        ground (arith, early) in
      let message =
        after_message-LeavesOverdue ctx t _ past
          (write_message-Keeps m (some t) message_type' body' (take_deadline ctx c) taken') in
      let writer =
        after_writer-LeavesOverdue ctx t _ past
          (next_writer-Keeps m (some t) message_type' (take_deadline ctx c) taken') in
      (subst LeavesOverdue first message, subst LeavesOverdue second writer)
