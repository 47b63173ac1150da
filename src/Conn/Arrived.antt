-- ===== src/Conn/Arrived.antt =====
-- A whole message that arrives: io.ReadAll over the validating reader, and NextReader in front of
-- it.
use magilla.Base.{
  ℕ, zero, suc, ◌+◌, ◌<◌, ◌≡◌, ap, sym, ◌∙◌, arith, Bool, true, false, not, List, ◌++◌, Option,
  none, some, append_assoc,
}
use magilla.Base.{length, length-append, if◌then◌else◌, ◌&&◌, inl, inr, ◌==◌}
use mathlib.Core.Path.{subst}
use magilla.Opcode
use magilla.Errors.{Error, is_data}
use magilla.Utf8.{accept}
use magilla.Frame.{Frame}
use magilla.Frame.Message.{payloads}
use magilla.Conn.{Machine, Conn}
use magilla.Conn.Net.{Input}
use magilla.Conn.Read.{advance_frame}
use magilla.Conn.Receive.{
  Piece, validate_piece, is_eof, reader_read, read_all, message, next_loop, next_reader, next_round,
  new_reader,
}
use magilla.Conn.Arriving.{IsBetween, IsMidway}
use magilla.Conn.Continuing.{Gives, CanOpen, opened, advance_frame-opened}
use magilla.Conn.Gathering.{IsText, GivesRead, message_read-Gives, more-validated, end-validated}

module _ (m : Machine) (server : Bool) (limit : ℕ) (skip : Bool) (rest : List Input) where
  after_read :
      (checked : Bool) (body : List ℕ) (c : Conn) (o : Option Piece)
      → Gives server limit skip rest body c o
      → IsText checked c.read_utf8_state body
      → GivesRead m server limit skip rest checked body c (elim o as (λ _. Option (Bool × Piece)) [
        | none ↦ none
        | some r ↦ some (if checked then validate_piece m r else (false, r))
      ])
  after_read false body c o g text = record {
    piece' = g.piece';
    returns =
        ap
          (λ (p : Option Piece). elim p as (λ _. Option (Bool × Piece)) [
            | none ↦ none
            | some r ↦ some (false, r)
          ])
          g.returns;
    same_reader = g.same_reader;
    outcome = elim g.outcome [ inl more ↦ inl (more, λ e. cc) | inr end' ↦ inr end' ];
  }
  after_read true body c o g text =
      let path : some (validate_piece m g.piece') ≡ (elim o as (λ _. Option (Bool × Piece)) [
        | none ↦ none
        | some r ↦ some (validate_piece m r)
      ]) =
        ap
          (λ (p : Option Piece). elim p as (λ _. Option (Bool × Piece)) [
            | none ↦ none
            | some r ↦ some (validate_piece m r)
          ])
          (sym g.returns) in
      subst (GivesRead m server limit skip rest true body c) path (elim g.outcome [
        | inl more ↦
            more-validated m server limit skip rest body c g.piece' more c.read_utf8_state
              g.same_state g.same_reader text
        | inr end' ↦
            end-validated m server limit skip rest body c g.piece' end' c.read_utf8_state
              g.same_state g.same_reader text
      ])

  pub reader_read-GivesRead :
      (checked : Bool) (reader size : ℕ) (t : List ℕ) (fs : List Frame) (c : Conn)
      → 0 < size
      → c.message_reader ≡ some reader
      → IsMidway server limit skip rest t fs c
      → IsText checked c.read_utf8_state (t ++ payloads fs)
      → GivesRead m server limit skip rest checked
          (t ++ payloads fs)
          c
          (reader_read m checked false reader size c)
  unfolding reader_read
  reader_read-GivesRead true reader size t fs c pos current h text =
      after_read true _ c _
        (message_read-Gives m server limit skip rest reader size t fs c pos current h) text
  reader_read-GivesRead false reader size t fs c pos current h text =
      after_read false _ c _
        (message_read-Gives m server limit skip rest reader size t fs c pos current h) text

  -- All of the body was gathered, and the connection is between two messages.
  pub record Gathers (acc body : List ℕ) (o : Option (List ℕ × (Option Error × Conn)))
      : Type 0 where
    pub later : Conn
    pub returns : o ≡ some (acc ++ body, (none, later))
    pub between : IsBetween server limit skip rest later

  -- One byte of the body for each round is enough fuel.
  pub read_all-Gathers :
      (fuel : ℕ) (acc : List ℕ) (checked : Bool) (reader : ℕ) (sizes : ℕ → ℕ) (t : List ℕ)
      (fs : List Frame) (c : Conn)
      → ((n : ℕ) → 0 < sizes n)
      → length (t ++ payloads fs) < fuel
      → c.message_reader ≡ some reader
      → IsMidway server limit skip rest t fs c
      → IsText checked c.read_utf8_state (t ++ payloads fs)
      → Gathers acc (t ++ payloads fs) (read_all m fuel acc checked false reader sizes c)
  unfolding read_all
  read_all-Gathers zero acc checked reader sizes t fs c pos enough current h text = elim enough [ ]
  read_all-Gathers (suc fuel) acc checked reader sizes t fs c pos enough current h text =
      go (reader_read m checked false reader (sizes fuel) c)
        (reader_read-GivesRead checked reader (sizes fuel) t fs c (pos fuel) current h text)
        (λ acc' left later c'. read_all-Gathers fuel acc' checked reader sizes left later c' pos)
    where
      go :
          (o : Option (Bool × Piece))
          → GivesRead m server limit skip rest checked (t ++ payloads fs) c o
          → ((acc' left : List ℕ) (later : List Frame) (c' : Conn)
              → length (left ++ payloads later) < fuel
              → c'.message_reader ≡ some reader
              → IsMidway server limit skip rest left later c'
              → IsText checked c'.read_utf8_state (left ++ payloads later)
              → Gathers acc'
                  (left ++ payloads later)
                  (read_all m fuel acc' checked false reader sizes c'))
          → Gathers acc
              (t ++ payloads fs)
              (elim o as (λ _. Option (List ℕ × (Option Error × Conn))) [
                | none ↦ none
                | some (failed', r) ↦ elim r.err as (λ _. Option (List ℕ × (Option Error × Conn))) [
                  | none ↦ read_all m fuel (acc ++ r.bytes) checked failed' reader sizes r.conn
                  | some e ↦ some (acc ++ r.bytes, (if is_eof r.err then none else some e, r.conn))
                ]
              ])
      go o g again = elim g.outcome [
        | inl (more, text') ↦
            let r = g.piece' in
            let rec =
              again (acc ++ r.bytes) more.left more.later r.conn
                (omega (
                  arith,
                  enough,
                  more.some_bytes,
                  ap length more.whole,
                  length-append r.bytes (more.left ++ payloads more.later),
                ))
                (g.same_reader more.fine ∙ current) more.midway text' in
            record {
              later = rec.later;
              returns = ground (
                arith,
                g.returns,
                more.fine,
                rec.returns,
                append_assoc acc r.bytes (more.left ++ payloads more.later),
                ap (λ u. acc ++ u) more.whole,
              );
              between = rec.between;
            }
        | inr end' ↦ record {
          later = g.piece'.conn;
          returns = ground (
            arith,
            g.returns,
            end'.ended,
            ap (λ u. acc ++ u) end'.empty,
            ap (λ u. acc ++ u) end'.nothing_left,
          );
          between = end'.between;
        }
      ]

  -- The state in which the first frame of a message is read.
  abbrev pub fresh : Conn → Conn
  fresh c = record c { message_reader = none; read_length = 0 }

  -- What NextReader makes of it.
  abbrev pub started : ℕ → Frame → List Frame → Conn → Conn
  started opcode f fs c =
      let c' : Conn = record (opened m f fs rest (fresh c)) {
        read_err_count = 0;
        message_reader = some c.readers;
        readers = c.readers + 1;
      } in
      if opcode == Opcode.text && not c.skip_utf8_validation
      then record c' { read_utf8_state = accept; read_utf8_codepoint = 0 }
      else c'

  pub next_reader-started :
      (opcode : ℕ) (f : Frame) (fs : List Frame) (c : Conn)
      → is_data opcode ≡ true
      → f.opcode ≡ opcode
      → CanOpen m server limit skip rest f fs (fresh c)
      → next_reader m c ≡ some (message opcode c.readers (started opcode f fs c))
  unfolding next_reader next_loop
  next_reader-started opcode f fs c data' type o =
      let path : next_round m (advance_frame m (fresh c))
          ≡ inl (message opcode c.readers (started opcode f fs c)) =
        ap (next_round m) (advance_frame-opened m server limit skip rest f fs (fresh c) o)
        ∙ ap {A = ℕ} (λ n. next_round m (inr n, opened m f fs rest (fresh c))) type
        ∙ unfold next_round new_reader in ground (arith, data') in
      ground (arith, path, o.fine)
