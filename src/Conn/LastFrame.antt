-- ===== src/Conn/LastFrame.antt =====
-- The close frame of CloseGracefully is the last frame of its connection.
use magilla.Base.{ℕ, ◌≡◌, List, [], Option, none, some, ◌⊎◌, inl, inr}
use magilla.Opcode
use magilla.Errors.{Error}
use magilla.Errors.Error.{close_sent}
use magilla.Conn.{Machine, Conn}
use magilla.Conn.Net.{Network}
use magilla.Conn.Receive.{Next, message, no_message, panics}
use magilla.Conn.Graceful.{Drained, drained, drain_panics, Closed, closes, panicked}
use magilla.Conn.Broken.{IsBroken}

module _ (m : Machine) (e : Error) (n : Network) where
  -- The connection that a round, NextReader or the drain leaves.
  abbrev KeepsNext : Next → Type 0
  KeepsNext (message t reader c) = IsBroken e n c
  KeepsNext (no_message err c) = IsBroken e n c
  KeepsNext (panics c) = IsBroken e n c

  abbrev KeepsRound : Next ⊎ Conn → Type 0
  KeepsRound (inl next) = KeepsNext next
  KeepsRound (inr c) = IsBroken e n c

  abbrev KeepsFound : Option Next → Type 0
  KeepsFound none = Unit
  KeepsFound (some next) = KeepsNext next

  abbrev KeepsDrained : Option Drained → Type 0
  KeepsDrained none = Unit
  KeepsDrained (some (drained c)) = IsBroken e n c
  KeepsDrained (some drain_panics) = Unit

module _ (m : Machine) (sent : List ℕ) where
  -- CloseGracefully returned no error, or NextReader panicked; it sent `sent` in all, and the
  -- connection sends nothing more.
  abbrev pub IsLast : Option Closed → Type 0
  IsLast none = ⊥
  IsLast (some panicked) = Unit
  IsLast (some (closes err c)) =
      (err ≡ none) × (c.net.sent ≡ sent) × (c.write_err ≡ some close_sent)

  -- A network on which all that was sent is `sent`, and which takes what it is given.
  abbrev Took : Network → Type 0
  Took n = (n.sent ≡ sent) × (n.answers ≡ [])
