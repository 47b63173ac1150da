-- ===== src/Conn/Session.antt =====
-- A new connection, and message after message on it.
use magilla.Base.{
  ℕ, zero, suc, ◌≡◌, ◌<◌, refl, sym, ap, ◌∙◌, arith, Bool, true, List, [], ◌∷◌, ◌++◌, append_assoc,
  append-nil, Option, none, some, All, IsByte,
}
use magilla.Base.{length, replicate, length-replicate}
use magilla.Base.Integers.{ℤ, pos, negsuc}
use mathlib.Core.Path.{subst}
use magilla.Errors.{Error, is_data}
use magilla.Utf8.Spec.{IsUtf8}
use magilla.Frame.{Frame, wire_all}
use magilla.Frame.Message.{IsMessage}
use magilla.Conn.{Machine, Conn}
use magilla.Conn.Net.{Network, Input}
use magilla.Conn.Write.{masks}
use magilla.Conn.Send.{Outcome, returned, blocked, stuck, write_message}
use magilla.Conn.Deliver.{IsIdle}
use magilla.Conn.InFrames.{is_checked}
use magilla.Conn.WholeMessage.{write_message-IsDelivered}
use magilla.Conn.Open.{write_buffer_size, new_conn}

-- A message to send: its type and its payload.
abbrev pub Message : Type 0
Message = ℕ × List ℕ

-- A data message of bytes, in UTF-8 if it is a text.
abbrev pub IsSendable : Message → Type 0
IsSendable (opcode, body) = (is_data opcode ≡ true) × All IsByte body × (opcode ≡ 1 → IsUtf8 body)

-- The frames of one message after the other.
abbrev pub AreMessages : Bool → ℕ → List Message → List (List Frame) → Type 0
AreMessages masked cap [] [] = Unit
AreMessages masked cap [] (f ∷ fs) = ⊥
AreMessages masked cap (x ∷ xs) [] = ⊥
AreMessages masked cap ((opcode, body) ∷ xs) (f ∷ fs) =
    IsMessage masked cap opcode body f × AreMessages masked cap xs fs

abbrev pub wires : List (List Frame) → List ℕ
wires [] = []
wires (f ∷ fs) = wire_all f ++ wires fs

write_buffer_size-room : (size : ℤ) → 14 < write_buffer_size size
unfolding write_buffer_size
write_buffer_size-room (negsuc n) = omega arith
write_buffer_size-room (pos zero) = omega arith
write_buffer_size-room (pos (suc n)) = omega arith

write_buf-new :
    (server : Bool) (size : ℤ) (net : Network) (input : List Input) (rand : List ℕ) (now : ℕ)
    → (new_conn server size none [] net input rand now).write_buf
      ≡ replicate (write_buffer_size size) 0
unfolding new_conn
write_buf-new server size net input rand now = refl

-- A new connection without a pool can send.
pub new_conn-IsIdle :
    (server : Bool) (size : ℤ) (sent rand : List ℕ) (input : List Input) (now : ℕ)
    → All IsByte rand
    → IsIdle (new_conn server size none [] (record { sent = sent; answers = [] }) input rand now)
unfolding new_conn
new_conn-IsIdle server size sent rand input now bytes = record {
  live = record { unbroken = refl; accepting = refl; random = bytes };
  unlocked = refl;
  no_writer = refl;
  no_deadline = refl;
  no_pool = refl;
  room = omega (
    arith,
    ap length (write_buf-new server size (record { sent = sent; answers = [] }) input rand now),
    length-replicate {A = ℕ} (write_buffer_size size) 0,
    write_buffer_size-room size,
  );
}

module _ (m : Machine) where
  -- WriteMessage on one message after the other, up to the first error.
  unfoldable pub write_messages : List Message → Conn → Outcome (Option Error)
  write_messages [] c = returned none c
  write_messages ((opcode, body) ∷ xs) c = elim (write_message m opcode body c) [
    | returned e c' ↦ elim e [ none ↦ write_messages xs c' | some e' ↦ returned (some e') c' ]
    | blocked ↦ blocked
    | stuck ↦ stuck
  ]

  -- All messages went out in their order, and the connection is idle.
  pub record AreDelivered (xs : List Message) (c : Conn) : Type 0 where
    pub later : Conn
    pub returns : write_messages xs c ≡ returned none later
    pub frames : List (List Frame)
    pub messages : AreMessages (masks c) c.write_frame_size xs frames
    pub sent : later.net.sent ≡ c.net.sent ++ wires frames
    pub idle : IsIdle later

  write_messages-first :
      (opcode : ℕ) (body : List ℕ) (xs : List Message) (c later : Conn)
      → write_message m opcode body c ≡ returned none later
      → write_messages ((opcode, body) ∷ xs) c ≡ write_messages xs later
  unfolding write_messages
  write_messages-first opcode body xs c later e =
      ap
        (λ (o : Outcome (Option Error)). elim o as (λ _. Outcome (Option Error)) [
          | returned e' c' ↦ elim e' [
            | none ↦ write_messages xs c'
            | some e'' ↦ returned (some e'') c'
          ]
          | blocked ↦ blocked
          | stuck ↦ stuck
        ])
        e

  pub IsSendable-checked :
      (opcode : ℕ) (body : List ℕ) (c : Conn)
      → (opcode ≡ 1 → IsUtf8 body)
      → is_checked opcode c ≡ true
      → IsUtf8 body
  IsSendable-checked opcode body c text h = text (ground (arith, h))

  pub write_messages-AreDelivered :
      (xs : List Message) (c : Conn) → IsIdle c → All IsSendable xs → AreDelivered xs c
  unfolding write_messages masks
  write_messages-AreDelivered [] c idle sendable = record {
    later = c;
    returns = refl;
    frames = [];
    messages = tt;
    sent = sym (append-nil c.net.sent);
    idle = idle;
  }
  write_messages-AreDelivered ((opcode, body) ∷ xs) c idle ((data', bytes, text), rest) =
      let d =
        write_message-IsDelivered m opcode body c idle data' bytes
          (IsSendable-checked opcode body c text) in
      let ds = write_messages-AreDelivered xs d.later d.idle rest in
      record {
        later = ds.later;
        returns = write_messages-first opcode body xs c d.later d.returns ∙ ds.returns;
        frames = d.frames ∷ ds.frames;
        messages = (
          d.message,
          subst (λ (c' : Conn). AreMessages (masks c') c'.write_frame_size xs ds.frames) d.changes
              ds.messages,
        );
        sent =
            ds.sent
            ∙ ap (λ (c' : Conn). c'.net.sent ++ wires ds.frames) d.changes
            ∙ append_assoc c.net.sent (wire_all d.frames) (wires ds.frames);
        idle = ds.idle;
      }

  -- The same from a connection as newConn makes it.
  pub new_conn-delivers :
      (server : Bool) (size : ℤ) (rand : List ℕ) (input : List Input) (now : ℕ) (xs : List Message)
      → All IsByte rand
      → All IsSendable xs
      → AreDelivered xs
          (new_conn server size none [] (record { sent = []; answers = [] }) input rand now)
  new_conn-delivers server size rand input now xs random sendable =
      write_messages-AreDelivered xs _ (new_conn-IsIdle server size [] rand input now random)
        sendable
