-- ===== src/Conn/Drains.antt =====
-- ReadMessage returns: every read that meets no error takes something off the input.
use magilla.Base.{
  ℕ, zero, suc, ◌≤◌, ◌<◌, ◌≡◌, ◌≢◌, refl, arith, Bool, true, false, List, [], ◌∷◌, ◌++◌, Option,
  none, some, length, min,
}
use magilla.Base.{◌&&◌, not, ltb, ltb→lt, ◌==◌, if◌then◌else◌}
use magilla.Opcode
use magilla.Errors.{Error}
use magilla.Conn.{Machine, Conn}
use magilla.Conn.Net.{Input, read_input, take_chunk, octet, pause, stop}
use magilla.Conn.Read.{advance_frame}
use magilla.Conn.Receive.{
  Next, message, no_message, panics, next_reader, next_part, read_loop, read_payload, message_read,
  Piece, step_all, failed_piece, is_current, validate_piece, reject_utf8, reader_read, read_all,
  read_message, Received, received, nothing, panicked, runs_out, is_eof,
}
use magilla.Conn.Progress.{advance_frame-Leaves}
use magilla.Conn.Terminates.{
  Returns, next_reader-Found, Found, message_read-Returns, next_part-shorter, by_option, by_if,
}

take_chunk-shorter : (n : ℕ) (is : List Input) → length (take_chunk n is).left ≤ length is
unfolding take_chunk
take_chunk-shorter zero is = omega arith
take_chunk-shorter (suc n) [] = omega arith
take_chunk-shorter (suc n) (octet b ∷ is) = omega (arith, take_chunk-shorter n is)
take_chunk-shorter (suc n) (pause ∷ is) = omega arith
take_chunk-shorter (suc n) (stop e ∷ is) = omega arith

read_input-shorter :
    (n : ℕ) (is : List Input)
    → 0 < n
    → (read_input n is).err ≡ none
    → length (read_input n is).left < length is
unfolding read_input take_chunk
read_input-shorter zero is pos h = omega (arith, pos)
read_input-shorter (suc n) [] pos h = cc
read_input-shorter (suc n) (octet b ∷ is) pos h = omega (arith, take_chunk-shorter n is)
read_input-shorter (suc n) (pause ∷ is) pos h = omega (arith, read_input-shorter (suc n) is pos h)
read_input-shorter (suc n) (stop e ∷ is) pos h = cc

end_of :
    {A : Type 0} (b : Bool) (a : A) (o : Option A) → (if b then some a else o) ≡ none → o ≡ none
end_of true a o h = cc
end_of false a o h = h

-- A piece without an error leaves less than `k` events of the input.
abbrev pub Drains : ℕ → Piece → Type 0
Drains k r = r.err ≡ none → length r.conn.input < k

abbrev pub Drains? : ℕ → Option Piece → Type 0
Drains? k none = Unit
Drains? k (some r) = Drains k r

module _ (m : Machine) where
  read_payload-Drains :
      (k size : ℕ) (c : Conn)
      → length c.input ≤ k
      → 0 < size
      → 0 < c.read_remaining
      → Drains k (read_payload m size c)
  unfolding read_payload
  read_payload-Drains k size c h pos more fine =
      let n = min size c.read_remaining in
      omega (arith, h, read_input-shorter n c.input (omega (arith, pos, more)) (end_of _ _ _ fine))

  failed_piece-Drains :
      (k : ℕ) (c : Conn) (e : Error) → c.read_err ≡ some e → Drains k (failed_piece m c)
  unfolding failed_piece
  failed_piece-Drains k c e bad fine = ground (arith, bad, fine)

  reject_utf8-fails : (c : Conn) → (reject_utf8 m c).read_err ≢ none
  unfolding reject_utf8
  reject_utf8-fails c h = ground (arith, h)

  -- The same of Read on what NextReader returned, which has then not failed either.
  abbrev DrainsRead : ℕ → Bool × Piece → Type 0
  DrainsRead k (failed, r) = r.err ≡ none → (failed ≡ false) × (length r.conn.input < k)

  validate_piece-Drains : (k : ℕ) (r : Piece) → Drains k r → DrainsRead k (validate_piece m r)
  unfolding validate_piece
  validate_piece-Drains k r h fine =
      let (bad, (state, codepoint)) =
        step_all r.conn.read_utf8_state r.conn.read_utf8_codepoint r.bytes in
      ground (
        arith,
        h,
        fine,
        reject_utf8-fails
            (record r.conn { read_utf8_state = state; read_utf8_codepoint = codepoint }),
      )

  read_loop-Drains :
      (fuel size k : ℕ) (c : Conn)
      → 0 < size
      → (c.read_err ≡ none → length c.input ≤ k)
      → Drains? k (read_loop m fuel size c)
  unfolding read_loop
  read_loop-Drains zero size k c pos h = tt
  read_loop-Drains (suc fuel) size k c pos h =
      by_option (Drains? k) c.read_err (λ e. some (failed_piece m c)) _
        (λ e bad. failed_piece-Drains k c e bad)
        (λ fine.
          by_if (Drains? k) (ltb 0 c.read_remaining) _ _
            (λ more. read_payload-Drains k size c (h fine) pos (ltb→lt _ _ more))
            (λ done.
              by_if (Drains? k) c.read_final _ _ (λ final at_end. cc)
                (λ more.
                  read_loop-Drains fuel size k (next_part m (advance_frame m c)) pos (λ fine'.
                    omega (
                      arith,
                      h fine,
                      next_part-shorter m _ (advance_frame m c) (advance_frame-Leaves m c) fine',
                    )))))

  message_read-Drains :
      (reader size : ℕ) (c : Conn)
      → 0 < size
      → Drains? (length c.input) (message_read m reader size c)
  unfolding message_read
  message_read-Drains reader size c pos =
      by_if (Drains? (length c.input)) (is_current m reader c.message_reader) _ _
        (λ current. read_loop-Drains _ size _ c pos (λ fine. omega arith)) (λ other at_end. cc)

  -- A Read that has not failed before returns, and drains the input unless it meets an error.
  abbrev Answers : ℕ → Option (Bool × Piece) → Type 0
  Answers k none = ⊥
  Answers k (some r) = DrainsRead k r

  checked-Answers :
      (k : ℕ) (checked : Bool) (o : Option Piece)
      → Returns o
      → Drains? k o
      → Answers k (elim o as (λ _. Option (Bool × Piece)) [
        | none ↦ none
        | some r ↦ some (if checked then validate_piece m r else (false, r))
      ])
  checked-Answers k checked none t h = elim t [ ]
  checked-Answers k true (some r) t h = validate_piece-Drains k r h
  checked-Answers k false (some r) t h = λ fine. (refl, h fine)

  reader_read-Answers :
      (checked : Bool) (reader size : ℕ) (c : Conn)
      → 0 < size
      → Answers (length c.input) (reader_read m checked false reader size c)
  unfolding reader_read
  reader_read-Answers checked reader size c pos =
      by_if (Answers (length c.input)) (checked && false) _ _ (λ both. ground (arith, both))
        (λ one.
          checked-Answers (length c.input) checked (message_read m reader size c)
            (message_read-Returns m reader size c) (message_read-Drains reader size c pos))

  -- read_all with any fuel above the length of the input.
  read_all-Returns :
      (fuel : ℕ) (acc : List ℕ) (checked : Bool) (reader : ℕ) (sizes : ℕ → ℕ) (c : Conn)
      → ((n : ℕ) → 0 < sizes n)
      → length c.input < fuel
      → Returns (read_all m fuel acc checked false reader sizes c)
  unfolding read_all
  read_all-Returns zero acc checked reader sizes c pos h = omega (arith, h)
  read_all-Returns (suc fuel) acc checked reader sizes c pos h =
      go (reader_read m checked false reader (sizes fuel) c)
        (reader_read-Answers checked reader (sizes fuel) c (pos fuel))
        (λ acc' c' less.
          read_all-Returns fuel acc' checked reader sizes c' pos (omega (arith, less, h)))
    where
      go :
          (o : Option (Bool × Piece))
          → Answers (length c.input) o
          → ((acc' : List ℕ) (c' : Conn)
              → length c'.input < length c.input
              → Returns (read_all m fuel acc' checked false reader sizes c'))
          → Returns (elim o as (λ _. Option (List ℕ × (Option Error × Conn))) [
            | none ↦ none
            | some (failed', r) ↦ elim r.err as (λ _. Option (List ℕ × (Option Error × Conn))) [
              | none ↦ read_all m fuel (acc ++ r.bytes) checked failed' reader sizes r.conn
              | some e ↦ some (acc ++ r.bytes, (if is_eof r.err then none else some e, r.conn))
            ]
          ])
      go none a more = elim a [ ]
      go (some (true, r)) a more =
          by_option Returns r.err _ _ (λ e bad. tt) (λ fine. ground (arith, a fine))
      go (some (false, r)) a more =
          by_option Returns r.err _ _ (λ e bad. tt) (λ fine. more _ r.conn (a fine).1)

  -- ReadMessage ended with a message, or an error, or the panic of NextReader.
  abbrev pub Ends : Received m → Type 0
  Ends (received t body e c) = Unit
  Ends (nothing e c) = Unit
  Ends panicked = Unit
  Ends runs_out = ⊥

  -- ReadMessage ends, whatever arrives: a fuel above the length of the input, before NextReader takes
  -- anything off it, is enough for io.ReadAll, if its buffer is never empty.
  pub read_message-Ends :
      (fuel : ℕ) (sizes : ℕ → ℕ) (c : Conn)
      → ((n : ℕ) → 0 < sizes n)
      → length c.input < fuel
      → Ends (read_message m fuel sizes c)
  unfolding read_message
  read_message-Ends fuel sizes c pos h = go (next_reader m c) (next_reader-Found m c)
    where
      ends :
          (t : ℕ) (o : Option (List ℕ × (Option Error × Conn)))
          → Returns o
          → Ends (elim o as (λ _. Received m) [
            | none ↦ runs_out
            | some (body, (e, c')) ↦ received t body e c'
          ])
      ends t none h' = h'
      ends t (some r) h' = tt

      go :
          (o : Option Next)
          → Found (length c.input) o
          → Ends (elim o as (λ _. Received m) [
            | none ↦ runs_out
            | some (panics c') ↦ panicked
            | some (no_message e c') ↦ nothing e c'
            | some (message frame_type reader c') ↦
                let checked = frame_type == Opcode.text && not c.skip_utf8_validation in
                elim (read_all m fuel [] checked false reader sizes c') as (λ _. Received m) [
                  | none ↦ runs_out
                  | some (body, (e, c'')) ↦ received frame_type body e c''
                ]
          ])
      go none f = f
      go (some (panics c')) f = tt
      go (some (no_message e c')) f = tt
      go (some (message frame_type reader c')) f =
          ends frame_type _ (read_all-Returns fuel [] _ reader sizes c' pos (omega (arith, f, h)))
