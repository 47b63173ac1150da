-- ===== src/Conn/Contexts.antt =====
-- The write methods of conn.go that take a context.
--
-- A context is what the methods see of it. Its watchdog runs beside the write: nobody looks at
-- what its own SetWriteDeadline returns, and what that does to the write is among the answers of
-- the network to the write, of which nothing is assumed.
use magilla.Base.{ℕ, List, Option, none, some, ◌⊎◌, inl, inr}
use magilla.Errors.{Error}
use magilla.Conn.{Machine, Conn, Pipeline}
use magilla.Conn.Write.{write_control}
use magilla.Conn.Send.{Outcome, returned, blocked, stuck, write_message, next_writer}
use magilla.Conn.Open.{set_write_deadline}
use magilla.Conn.Graceful.{net_step}

-- Deadline, and Err before the call and after it.
pub record Context : Type 0 where
  pub deadline : Option ℕ
  pub early : Option Error
  pub late : Option Error

-- The deadline of the context, if it has one, is the connection's.
unfoldable pub take_deadline : Context → Conn → Conn
unfolding set_write_deadline
take_deadline ctx c = elim ctx.deadline [ none ↦ c | some t ↦ set_write_deadline (some t) c ]

-- `stop` of the watchdog clears the deadline of the net.Conn, whatever that returns.
unfoldable pub stop_watchdog : Conn → Conn
unfolding net_step
stop_watchdog c = (net_step c).1

-- An error of the call gives way to that of a context that has ended.
unfoldable pub or_ended : Context → Option Error → Option Error
or_ended ctx none = none
or_ended ctx (some e) = elim ctx.late [ none ↦ some e | some e' ↦ some e' ]

unfoldable pub after_message : Context → Outcome (Option Error) → Outcome (Option Error)
after_message ctx (returned e c) = returned (or_ended ctx e) (stop_watchdog c)
after_message ctx blocked = blocked
after_message ctx stuck = stuck

unfoldable pub after_writer : Context → Outcome (Error ⊎ Pipeline) → Outcome (Error ⊎ Pipeline)
after_writer ctx (returned (inr w) c) = returned (inr w) (stop_watchdog c)
after_writer ctx (returned (inl e) c) =
    returned (elim ctx.late [ none ↦ inl e | some e' ↦ inl e' ]) (stop_watchdog c)
after_writer ctx blocked = blocked
after_writer ctx stuck = stuck

module _ (m : Machine) where
  -- Conn.WriteMessageContext
  unfoldable pub write_message_context : Context → ℕ → List ℕ → Conn → Outcome (Option Error)
  write_message_context ctx message_type body c = elim ctx.early [
    | some e ↦ returned (some e) c
    | none ↦ after_message ctx (write_message m message_type body (take_deadline ctx c))
  ]

  -- Conn.WriteControlContext
  unfoldable pub write_control_context : Context → ℕ → List ℕ → Conn → Option Error × Conn
  write_control_context ctx message_type body c = elim ctx.early [
    | some e ↦ (some e, c)
    | none ↦
        let (e, c') = write_control m message_type body ctx.deadline c in
        (or_ended ctx e, stop_watchdog c')
  ]

  -- Conn.NextWriterContext
  unfoldable pub next_writer_context : Context → ℕ → Conn → Outcome (Error ⊎ Pipeline)
  next_writer_context ctx message_type c = elim ctx.early [
    | some e ↦ returned (inl e) c
    | none ↦ after_writer ctx (next_writer m message_type (take_deadline ctx c))
  ]
