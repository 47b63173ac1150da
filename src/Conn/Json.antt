-- ===== src/Conn/Json.antt =====
-- WriteJSON of json.go. encoding/json is a parameter: the encoding of a value with the line feed
-- behind it, which Encode hands to the writer, or the error for a value that has none.
use magilla.Base.{ℕ, ◌≡◌, refl, ap, ◌∙◌, arith, false, List, Option, none, some, ◌⊎◌, inl, inr}
use magilla.Base.{All, IsByte}
use magilla.Opcode
use magilla.Errors.{Error, is_data}
use magilla.Utf8.Spec.{IsUtf8}
use magilla.Utf8.Accepts.{dfa_validate-IsUtf8}
use magilla.Conn.{Machine, Conn, Pipeline}
use magilla.Conn.Send.{
  Outcome, returned, blocked, stuck, Piped, next_writer, pipeline_write, pipeline_close,
  close_written, write_and_close, write_in_frames,
}
use magilla.Conn.Deliver.{IsIdle, IsDelivered}
use magilla.Conn.InFrames.{write_in_frames-IsDelivered}

module _ (m : Machine) {V : Type 0} (encode : V → Error ⊎ List ℕ) where
  -- The close behind Encode, whose own error comes first.
  unfoldable pub close_encoded : Option Error → Pipeline → Conn → Outcome (Option Error)
  close_encoded err1 p c =
      let (err2, c') = pipeline_close m p c in
      returned (elim err1 [ none ↦ err2 | some e ↦ some e ]) c'

  -- Encode on a writer, and the close.
  unfoldable pub encode_and_close : Error ⊎ List ℕ → Pipeline → Conn → Outcome (Option Error)
  encode_and_close (inl e) p c = close_encoded (some e) p c
  encode_and_close (inr bytes) p c = elim (pipeline_write m bytes p c) [
    | none ↦ stuck
    | some r ↦ close_encoded r.err r.pipeline r.conn
  ]

  -- The writer that NextWriter returned, if it did.
  unfoldable pub write_encoded : V → Outcome (Error ⊎ Pipeline) → Outcome (Option Error)
  write_encoded v (returned (inl e) c) = returned (some e) c
  write_encoded v (returned (inr p) c) = encode_and_close (encode v) p c
  write_encoded v blocked = blocked
  write_encoded v stuck = stuck

  -- Conn.WriteJSON
  unfoldable pub write_json : V → Conn → Outcome (Option Error)
  write_json v c = write_encoded v (next_writer m Opcode.text c)

  -- Where the write and the close meet no error, it makes no difference that WriteJSON closes the
  -- writer after an error too.
  close_piped :
      (o : Option Piped) (c' : Conn)
      → close_written m o ≡ returned none c'
      → elim o as (λ _. Outcome (Option Error)) [
        | none ↦ stuck
        | some r ↦ close_encoded r.err r.pipeline r.conn
      ]
        ≡ returned none c'
  unfolding close_written close_encoded
  close_piped none c' h = absurd (ground (arith, h))
  close_piped (some r) c' h = ground (arith, h)

  encoded-written :
      (v : V) (body : List ℕ) (o : Outcome (Error ⊎ Pipeline)) (c' : Conn)
      → encode v ≡ inr body
      → write_and_close m body o ≡ returned none c'
      → write_encoded v o ≡ returned none c'
  unfolding write_encoded write_and_close encode_and_close
  encoded-written v body (returned (inl e) c) c' has h = h
  encoded-written v body (returned (inr p) c) c' has h =
      ap (λ x. encode_and_close x p c) has ∙ close_piped (pipeline_write m body p c) c' h
  encoded-written v body blocked c' has h = h
  encoded-written v body stuck c' has h = h

  -- WriteJSON of a value that has an encoding, on an idle connection of a client: exactly one text
  -- message goes out, whose payload is the encoding, and the connection is idle again. The encoding
  -- is UTF-8.
  pub write_json-IsDelivered :
      (v : V) (body : List ℕ) (c : Conn)
      → IsIdle c
      → c.is_server ≡ false
      → encode v ≡ inr body
      → All IsByte body
      → IsUtf8 body
      → IsDelivered Opcode.text body c (write_json v c)
  unfolding write_json write_in_frames is_data
  write_json-IsDelivered v body c idle client has bytes text =
      let d =
        write_in_frames-IsDelivered m Opcode.text body c idle refl bytes
          (λ h. (dfa_validate-IsUtf8 body bytes).1 text) (ground (arith, client)) in
      record {
        later = d.later;
        returns = encoded-written v body (next_writer m Opcode.text c) d.later has d.returns;
        frames = d.frames;
        message = d.message;
        buf = d.buf;
        rand = d.rand;
        changes = d.changes;
        idle = d.idle;
      }
