-- ===== src/Conn/Join.antt =====
-- join.go: a reader of all messages, each with a text behind it.
use magilla.Base.{ℕ, Bool, false, not, ◌&&◌, List, [], ◌∷◌, Option, none, some}
use magilla.Base.{take, drop, ◌==◌, if◌then◌else◌}
use magilla.Opcode
use magilla.Errors.{Error}
use magilla.Conn.{Machine, Conn}
use magilla.Conn.Receive.{message, no_message, panics, next_reader, reader_read, is_eof}

-- What NextReader returned, as the source of an io.MultiReader: the reader, whether it validates and
-- has failed, and what is left of the text behind it once the message has been read.
pub record Source : Type 0 where
  pub reader : ℕ
  pub checked : Bool
  pub failed : Bool
  pub in_term : Option (List ℕ)

-- joinReader, with none for a nil reader.
pub record JoinReader : Type 0 where
  pub conn : Conn
  pub term : List ℕ
  pub current : Option Source

-- JoinMessages
unfoldable pub join_messages : Conn → List ℕ → JoinReader
join_messages c term = record { conn = c; term = term; current = none }

-- How a Read ends.
pub data JoinRead : Type 0 where
  join_result : List ℕ → Option Error → JoinReader → JoinRead
  join_panicked join_ran_out : JoinRead

-- A Read of what is left of the text; at its end the next message is due.
unfoldable pub read_term : ℕ → List ℕ → Source → JoinReader → JoinRead
read_term size [] s j = join_result [] none (record j { current = none })
read_term size (b ∷ t) s j =
    join_result (take size (b ∷ t)) none
      (record j { current = some (record s { in_term = some (drop size (b ∷ t)) }) })

-- EOF of the message: without a text the next message is due, and else the text, at once if the read
-- has not returned a byte.
unfoldable pub message_ended : ℕ → List ℕ → Source → JoinReader → JoinRead
message_ended size bytes s j = elim j.term [
  | [] ↦ join_result bytes none (record j { current = none })
  | b ∷ t ↦ elim bytes [
    | [] ↦ read_term size (b ∷ t) s j
    | x ∷ xs ↦
        join_result (x ∷ xs) none
          (record j { current = some (record s { in_term = some (b ∷ t) }) })
  ]
]

module _ (m : Machine) where
  -- Read of the io.MultiReader, and what joinReader.Read makes of EOF.
  unfoldable pub read_source : ℕ → Source → JoinReader → JoinRead
  read_source size s j = elim s.in_term [
    | some t ↦ read_term size t s j
    | none ↦ elim (reader_read m s.checked s.failed s.reader size j.conn) [
      | none ↦ join_ran_out
      | some (failed, r) ↦
          let s' = record s { failed = failed } in
          let j' = record j { conn = r.conn; current = some s' } in
          if is_eof r.err then message_ended size r.bytes s' j' else join_result r.bytes r.err j'
    ]
  ]

  -- joinReader.Read
  unfoldable pub join_read : ℕ → JoinReader → JoinRead
  join_read size j = elim j.current [
    | some s ↦ read_source size s j
    | none ↦ elim (next_reader m j.conn) [
      | none ↦ join_ran_out
      | some (panics c) ↦ join_panicked
      | some (no_message e c) ↦ join_result [] e (record j { conn = c })
      | some (message frame_type reader c) ↦
          let s : Source = record {
            reader = reader;
            checked = frame_type == Opcode.text && not j.conn.skip_utf8_validation;
            failed = false;
            in_term = none;
          } in
          read_source size s (record j { conn = c; current = some s })
    ]
  ]
