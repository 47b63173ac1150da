-- ===== src/Conn/WholeMessage.antt =====
-- Conn.WriteMessage, both paths, on an idle connection.
use magilla.Base.{ℕ, ◌≤◌, ◌<◌, ◌≡◌, arith, Bool, true, false, ◌&&◌, ◌||◌, List, some, if◌then◌else◌}
use magilla.Base.{Bool-cases, inl, inr, leb, ◌==◌, length, All, IsByte}
use magilla.Errors.{is_data}
use magilla.Errors.Error.{invalid_utf8}
use magilla.Utf8.{dfa_validate, accept}
use magilla.Utf8.Spec.{IsUtf8}
use magilla.Utf8.Accepts.{dfa_validate-IsUtf8}
use magilla.Conn.{Machine, Conn}
use magilla.Conn.Send.{returned, write_whole, write_in_frames, write_message}
use magilla.Conn.Deliver.{IsIdle, IsDelivered, write_whole-IsDelivered}
use magilla.Conn.InFrames.{is_checked, write_in_frames-IsDelivered}

module _ (m : Machine) where
  -- Whether a message takes the fast path.
  abbrev pub is_whole_frame : Conn → List ℕ → Bool
  is_whole_frame c body =
      c.is_server && (c.write_frame_size == 0 || leb (length body) c.write_frame_size)

  whole_frame :
      (c : Conn) (body : List ℕ)
      → is_whole_frame c body ≡ true
      → (c.is_server ≡ true) × (0 < c.write_frame_size → length body ≤ c.write_frame_size)
  whole_frame c body h = (ground arith, λ z. ground arith)

  accepted_path :
      (opcode : ℕ) (body : List ℕ) (c : Conn)
      → (is_checked opcode c ≡ true → dfa_validate body ≡ accept)
      → write_message m opcode body c ≡ (
          if is_whole_frame c body
          then write_whole m opcode body c
          else write_in_frames m opcode body c)
  unfolding write_message
  accepted_path opcode body c valid = ground (arith, valid)

  pub write_message-IsDelivered :
      (opcode : ℕ) (body : List ℕ) (c : Conn)
      → IsIdle c
      → is_data opcode ≡ true
      → All IsByte body
      → (is_checked opcode c ≡ true → IsUtf8 body)
      → IsDelivered opcode body c (write_message m opcode body c)
  write_message-IsDelivered opcode body c idle data' bytes text =
      let valid : is_checked opcode c ≡ true → dfa_validate body ≡ accept =
        λ h. (dfa_validate-IsUtf8 body bytes).1 (text h) in
      rw (accepted_path opcode body c valid) (elim (Bool-cases (is_whole_frame c body)) [
        | inl whole ↦
            let (server, capped) = whole_frame c body whole in
            rw whole (write_whole-IsDelivered m opcode body c idle data' bytes server capped)
        | inr slow ↦
            rw slow (write_in_frames-IsDelivered m opcode body c idle data' bytes valid slow)
      ])

  -- A text of bytes that are not UTF-8 is refused where it is checked, whatever the state of the
  -- connection, and the connection stays as it was.
  write_message-refuses :
      (opcode : ℕ) (body : List ℕ) (c : Conn)
      → is_checked opcode c ≡ true
      → All IsByte body
      → ¬ IsUtf8 body
      → write_message m opcode body c ≡ returned (some invalid_utf8) c
  unfolding write_message
  write_message-refuses opcode body c checked bytes bad =
      let wrong : dfa_validate body == accept ≡ false =
        elim (Bool-cases (dfa_validate body == accept)) [
          | inl good ↦ absurd (bad ((dfa_validate-IsUtf8 body bytes).0 (ground arith)))
          | inr wrong ↦ wrong
        ] in
      ground arith
