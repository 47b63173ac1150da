-- ===== src/Conn/ReadContexts.antt =====
-- The read methods of conn.go that take a context, whose watchdog is abstract as it is in the
-- writes: what its SetReadDeadline does is among the errors that arrive.
use magilla.Base.{ℕ, false, not, ◌&&◌, [], Option, none, some}
use magilla.Base.{◌==◌}
use magilla.Opcode
use magilla.Errors.{Error}
use magilla.Conn.{Machine, Conn}
use magilla.Conn.Receive.{
  Next, message, no_message, panics, next_reader, Received, received, nothing, panicked, runs_out,
  read_all,
}
use magilla.Conn.Graceful.{net_step}
use magilla.Conn.Contexts.{Context, or_ended, stop_watchdog}

-- SetReadDeadline with the deadline of the context, if it has one.
unfoldable pub wait_until : Context → Conn → Option Error × Conn
unfolding net_step
wait_until ctx c = elim ctx.deadline [ none ↦ (none, c) | some t ↦ net_step c ]

-- The end of NextReaderContext.
unfoldable pub after_next : Context → Next → Next
after_next ctx (message t reader c) = message t reader (stop_watchdog c)
after_next ctx (no_message e c) = no_message (or_ended ctx e) (stop_watchdog c)
after_next ctx (panics c) = panics c

module _ (m : Machine) where
  -- Conn.NextReaderContext
  unfoldable pub next_reader_context : Context → Conn → Option Next
  next_reader_context ctx c = elim ctx.early [
    | some e ↦ some (no_message (some e) c)
    | none ↦
        let (failed, c1) = wait_until ctx c in
        elim failed [
          | some e ↦ some (no_message (some e) c1)
          | none ↦ elim (next_reader m c1) [ none ↦ none | some r ↦ some (after_next ctx r) ]
        ]
  ]

  -- Conn.ReadMessageContext
  unfoldable pub read_message_context : Context → ℕ → (ℕ → ℕ) → Conn → Received m
  read_message_context ctx fuel sizes c = elim (next_reader_context ctx c) [
    | none ↦ runs_out
    | some (panics c') ↦ panicked
    | some (no_message e c') ↦ nothing e c'
    | some (message frame_type reader c') ↦
        let checked = frame_type == Opcode.text && not c.skip_utf8_validation in
        elim (read_all m fuel [] checked false reader sizes c') [
          | none ↦ runs_out
          | some (body, (e, c'')) ↦ received frame_type body e c''
        ]
  ]
