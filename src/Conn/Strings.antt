-- ===== src/Conn/Strings.antt =====
-- messageWriter.WriteString and messageWriter.ReadFrom of conn.go.
use magilla.Base.{ℕ, zero, suc, ◌+◌, false, List, [], Option, none, some}
use magilla.Base.{◌==◌, if◌then◌else◌, length}
use magilla.Errors.{Error}
use magilla.Errors.Error.{eof}
use magilla.Conn.{Machine, Conn, MessageWriter}
use magilla.Conn.Net.{Input, read_input}
use magilla.Conn.Message.{Wrote, flush_frame, payload_room, append_bytes, copy_loop}

-- The number of bytes, the error, the writer and the connection that ReadFrom leaves.
pub record ReadIn : Type 0 where
  pub count : ℕ
  pub err : Option Error
  pub writer : MessageWriter
  pub conn : Conn

-- EOF ends ReadFrom without an error.
abbrev pub unless_eof : Error → Option Error
unless_eof eof = none
unless_eof e = some e

module _ (m : Machine) where
  -- messageWriter.WriteString
  unfoldable pub write_string : List ℕ → MessageWriter → Conn → Option Wrote
  write_string p w c = elim w.err [
    | some e ↦ some (record { err = some e; writer = w; conn = c })
    | none ↦ copy_loop m (length p) p w c
  ]

  -- A full frame is sent.
  unfoldable pub make_room : MessageWriter → Conn → Wrote
  make_room w c =
      if payload_room m w c == 0
      then flush_frame m false [] w c
      else record { err = none; writer = w; conn = c }

  -- The loop of ReadFrom over a reader that returns what has arrived; `none` if the fuel runs out.
  unfoldable pub read_in_loop : ℕ → ℕ → List Input → MessageWriter → Conn → Option ReadIn
  read_in_loop zero count input w c = none
  read_in_loop (suc fuel) count input w c =
      let r = make_room w c in
      elim r.err [
        | some e ↦ some (record { count = count; err = some e; writer = r.writer; conn = r.conn })
        | none ↦
            let g = read_input (payload_room m r.writer r.conn) input in
            let (w', c') = append_bytes m g.bytes r.writer r.conn in
            let count' = count + length g.bytes in
            elim g.err [
              | some e ↦
                  some (record { count = count'; err = unless_eof e; writer = w'; conn = c' })
              | none ↦ read_in_loop fuel count' g.left w' c'
            ]
      ]

  -- messageWriter.ReadFrom; each round takes something off the input of the reader or ends the loop.
  unfoldable pub read_from : List Input → MessageWriter → Conn → Option ReadIn
  read_from input w c = elim w.err [
    | some e ↦ some (record { count = 0; err = some e; writer = w; conn = c })
    | none ↦ read_in_loop (suc (length input)) 0 input w c
  ]
