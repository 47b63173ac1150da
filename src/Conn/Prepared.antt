-- ===== src/Conn/Prepared.antt =====
-- prepared.go and Conn.WritePreparedMessage, for connections without compression.
pub mod Cached
use magilla.Base.{
  ℕ, zero, suc, ◌+◌, ◌≡◌, ◌<◌, refl, sym, ap, ◌∙◌, arith, Bool, true, false, ◌&&◌, List, [], ◌∷◌,
  ◌++◌, Option, none, some, All, IsByte,
}
use magilla.Base.{
  ◌==◌, if◌then◌else◌, ◌⊎◌, inl, inr, length, drop, ◌-◌, replicate, length-replicate,
}
use magilla.Base.Integers.{ℤ, pos, negsuc}
use magilla.Errors.{Error, is_data}
use magilla.Errors.Error.{write_timeout}
use magilla.Utf8.Spec.{IsUtf8}
use magilla.Frame.{Frame, wire_all}
use magilla.Frame.Message.{IsMessage}
use magilla.Conn.{Machine, Conn}
use magilla.Conn.Net.{Network, Input}
use magilla.Conn.Write.{masks, write}
use magilla.Conn.Message.{release_write_mu}
use magilla.Conn.Send.{Outcome, returned, blocked, stuck, acquire_write_mu, on_lock, write_message}
use magilla.Conn.Sending.{IsLive, after, write_live, moved}
use magilla.Conn.Deliver.{IsIdle, IsDelivered}
use magilla.Conn.InFrames.{is_checked}
use magilla.Conn.WholeMessage.{write_message-IsDelivered}
use magilla.Conn.Open.{new_conn}

-- A prepareKey, of a connection that compresses nothing.
pub record PrepareKey : Type 0 where
  pub is_server : Bool
  pub compression_level : ℤ

-- A PreparedMessage with the frames that were prepared so far. A frame is prepared once, also when
-- that fails.
pub record PreparedMessage : Type 0 where
  pub message_type : ℕ
  pub body : List ℕ
  pub frames : List (PrepareKey × List ℕ)

abbrev pub same_level : ℤ → ℤ → Bool
same_level (pos m) (pos n) = m == n
same_level (negsuc m) (negsuc n) = m == n
same_level (pos m) (negsuc n) = false
same_level (negsuc m) (pos n) = false

abbrev pub same_side : Bool → Bool → Bool
same_side true b = b
same_side false true = false
same_side false false = true

abbrev pub same_key : PrepareKey → PrepareKey → Bool
same_key a b =
    same_side a.is_server b.is_server && same_level a.compression_level b.compression_level

-- `pm.frames[key]`
unfoldable pub prepared_frame : PrepareKey → List (PrepareKey × List ℕ) → Option (List ℕ)
prepared_frame key [] = none
prepared_frame key ((k, data') ∷ frames) =
    if same_key k key then some data' else prepared_frame key frames

-- The connection that a frame is prepared on: it writes to a buffer. What differs from newConn are
-- fields of the readers.
unfoldable pub prepare_conn : PrepareKey → List ℕ → Conn
prepare_conn key rand =
    new_conn key.is_server (pos 4096) none [] (record { sent = []; answers = [] }) [] rand 0

-- What WriteMessage on that connection returned, and what it wrote. A call that does not return
-- would hold up the caller.
abbrev pub written_frame : Outcome (Option Error) → Option (Option Error × List ℕ)
written_frame blocked = none
written_frame stuck = none
written_frame (returned e c) = some (e, c.net.sent)

-- The result of PreparedMessage.frame: the error, the bytes, and the message with its cache.
abbrev pub Framed : Type 0
Framed = Option (Option Error × (List ℕ × PreparedMessage))

abbrev pub add_frame : PrepareKey → PreparedMessage → Option (Option Error × List ℕ) → Framed
add_frame key pm none = none
add_frame key pm (some (e, data')) =
    some (e, (data', record pm { frames = (key, data') ∷ pm.frames }))

abbrev pub cached_or : PreparedMessage → Option (List ℕ) → Framed → Framed
cached_or pm none new_frame = new_frame
cached_or pm (some data') new_frame = some (none, (data', pm))

module _ (m : Machine) where
  -- PreparedMessage.frame; `rand` are the random bytes for a new frame.
  unfoldable pub frame : PrepareKey → List ℕ → PreparedMessage → Framed
  frame key rand pm = cached_or pm (prepared_frame key pm.frames) (
      add_frame key pm
        (written_frame (write_message m pm.message_type pm.body (prepare_conn key rand))))

  -- NewPreparedMessage
  unfoldable pub new_prepared_message : ℕ → List ℕ → Option (Error ⊎ PreparedMessage)
  new_prepared_message message_type body =
      let pm : PreparedMessage = record { message_type = message_type; body = body; frames = [] } in
      elim (frame (record { is_server = true; compression_level = pos 0 }) [] pm) [
        | none ↦ none
        | some (e, (data', pm')) ↦ elim e [
          | some e' ↦ some (inl e')
          | none ↦ some (inr (record pm' { body = drop (length data' - length body) data' }))
        ]
      ]

  -- The write of WritePreparedMessage, under the outer mutex.
  unfoldable pub write_frame : ℕ → List ℕ → Conn → Outcome (Option Error)
  write_frame message_type data' c =
      on_lock (acquire_write_mu c.write_deadline c) (returned (some write_timeout) c)
        (λ c1. let (e, c2) = write message_type data' [] c1 in returned e (release_write_mu c2))

  abbrev pub send_framed : Conn → Framed → Option (Outcome (Option Error) × PreparedMessage)
  send_framed c none = none
  send_framed c (some (some e, (data', pm))) = some (returned (some e) c, pm)
  send_framed c (some (none, (data', pm))) = some (write_frame pm.message_type data' c, pm)

  -- Conn.WritePreparedMessage of a connection with a compression level, and the message with its
  -- cache.
  unfoldable pub write_prepared_message :
      ℤ → List ℕ → PreparedMessage → Conn → Option (Outcome (Option Error) × PreparedMessage)
  write_prepared_message level rand pm c =
      send_framed c (frame (record { is_server = c.is_server; compression_level = level }) rand pm)
