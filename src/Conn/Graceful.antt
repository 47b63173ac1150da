-- ===== src/Conn/Graceful.antt =====
-- Conn.CloseGracefully.
use magilla.Base.{ℕ, zero, suc, ◌+◌, ◌≤◌, ◌<◌, arith, List, Option, none, some, length}
use magilla.Opcode
use magilla.Errors.{Error}
use magilla.Errors.Error.{close_sent}
use magilla.Conn.{Machine, Conn}
use magilla.Conn.Net.{net_set_write_deadline}
use magilla.Conn.Write.{write_control}
use magilla.Conn.Read.{format_close_message}
use magilla.Conn.Receive.{Next, message, no_message, panics, next_reader}
use magilla.Conn.Terminates.{Returns, Found, next_reader-Found}

-- `net.Conn.Close`, and `SetReadDeadline`, which answer as SetWriteDeadline does.
unfoldable pub net_step : Conn → Option Error × Conn
unfolding net_set_write_deadline
net_step c = let (e, n) = net_set_write_deadline c.net in (e, record c { net = n })

-- The error of WriteControl, unless it is ErrCloseSent.
abbrev pub not_close_sent : Option Error → Option Error
not_close_sent none = none
not_close_sent (some e) = elim e [ close_sent ↦ none | other ↦ some other ]

-- `firstErr` with another error.
abbrev pub first_of : Option Error → Option Error → Option Error
first_of none e = e
first_of (some e') e = some e'

-- How the loop over NextReader ends.
pub data Drained : Type 0 where
  drained : Conn → Drained
  drain_panics : Drained

-- CloseGracefully returned, or NextReader panicked.
pub data Closed : Type 0 where
  closes : Option Error → Conn → Closed
  panicked : Closed

module _ (m : Machine) where
  -- The loop over NextReader; `none` if the fuel runs out.
  unfoldable pub drain : ℕ → Conn → Option Drained
  drain zero c = none
  drain (suc fuel) c = elim (next_reader m c) [
    | none ↦ none
    | some (message t reader c') ↦ drain fuel c'
    | some (no_message e c') ↦ elim e [ none ↦ drain fuel c' | some e' ↦ some (drained c') ]
    | some (panics c') ↦ some drain_panics
  ]

  -- The connection behind WriteControl, with its read deadline.
  unfoldable pub before_drain : ℕ → List ℕ → Option ℕ → Conn → Option Error × Conn
  before_drain code reason deadline c =
      let (e, c1) = write_control m Opcode.close (format_close_message code reason) deadline c in
      (not_close_sent e, elim deadline [ none ↦ c1 | some t ↦ (net_step c1).1 ])

  -- Conn.CloseGracefully; every message that is drained takes bytes off the input.
  unfoldable pub close_gracefully : ℕ → List ℕ → Option ℕ → Conn → Option Closed
  close_gracefully code reason deadline c =
      let (e, c1) = before_drain code reason deadline c in
      elim (drain (suc (length c1.input)) c1) [
        | none ↦ none
        | some drain_panics ↦ some panicked
        | some (drained c2) ↦ let (e', c3) = net_step c2 in some (closes (first_of e e') c3)
      ]

  pub drain-Returns : (fuel : ℕ) (c : Conn) → length c.input < fuel → Returns (drain fuel c)
  unfolding drain
  drain-Returns zero c h = omega (arith, h)
  drain-Returns (suc fuel) c h =
      go (next_reader m c) (next_reader-Found m c)
        (λ c' less. drain-Returns fuel c' (omega (arith, less, h)))
    where
      go :
          (o : Option Next)
          → Found (length c.input) o
          → ((c' : Conn) → 2 + length c'.input ≤ length c.input → Returns (drain fuel c'))
          → Returns (elim o as (λ _. Option Drained) [
            | none ↦ none
            | some (message t reader c') ↦ drain fuel c'
            | some (no_message e c') ↦ elim e [ none ↦ drain fuel c' | some e' ↦ some (drained c') ]
            | some (panics c') ↦ some drain_panics
          ])
      go none f more = f
      go (some (message t reader c')) f more = more c' f
      go (some (no_message none c')) f more = elim f [ ]
      go (some (no_message (some e) c')) f more = tt
      go (some (panics c')) f more = tt

  -- CloseGracefully comes to an end on an input that ends: the messages that it drains are finite in
  -- number, and the first error or the panic of NextReader ends the loop.
  close_gracefully-Returns :
      (code : ℕ) (reason : List ℕ) (deadline : Option ℕ) (c : Conn)
      → Returns (close_gracefully code reason deadline c)
  unfolding close_gracefully
  close_gracefully-Returns code reason deadline c =
      let c1 = (before_drain code reason deadline c).1 in
      go (drain (suc (length c1.input)) c1) (drain-Returns _ c1 (omega arith))
    where
      go :
          (o : Option Drained)
          → Returns o
          → Returns (elim o as (λ _. Option Closed) [
            | none ↦ none
            | some drain_panics ↦ some panicked
            | some (drained c2) ↦
                let (e', c3) = net_step c2 in
                some (closes (first_of (before_drain code reason deadline c).0 e') c3)
          ])
      go none r = r
      go (some drain_panics) r = tt
      go (some (drained c2)) r = tt
