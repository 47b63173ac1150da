-- ===== src/Conn/WholeArrival.antt =====
-- ReadMessage on the frames of one message.
use magilla.Base.{ℕ, ◌^◌, ◌≤◌, ◌<◌, ◌≡◌, ap, arith, Bool, true, false, not, List, [], none}
use magilla.Base.{length, All, IsByte, ◌&&◌, ◌==◌}
use magilla.Opcode
use magilla.Errors.{is_data}
use magilla.Utf8.Spec.{IsUtf8}
use magilla.Frame.{Frame, wire_all}
use magilla.Frame.Message.{IsMessage}
use magilla.Conn.{Machine, Conn}
use magilla.Conn.Net.{Input}
use magilla.Conn.Incoming.{octets}
use magilla.Conn.Receive.{read_message, Received, received}
use magilla.Conn.Arriving.{IsBetween}
use magilla.Conn.Arrived.{read_all-Gathers}
use magilla.Conn.Beginning.{next_reader-Begins}

module _ (m : Machine) (server : Bool) (limit : ℕ) (skip : Bool) (rest : List Input) where
  -- ReadMessage returned the message, and the connection is between two messages again.
  pub record IsReceived (opcode : ℕ) (body : List ℕ) (o : Received m) : Type 0 where
    pub later : Conn
    pub returns : o ≡ received opcode body none later
    pub between : IsBetween server limit skip rest later

  -- ReadMessage on a connection between two messages, where the frames of a data message arrive,
  -- uncompressed, fragmented in any way and masked if it is a server that reads: it returns the
  -- type of the message and all of its payload, with no error, and leaves what arrives behind the
  -- message. The payload is within the read limit, and UTF-8 if it is a text that is checked;
  -- io.ReadAll has one byte of the payload to read for each round.
  pub read_message-IsReceived :
      (fuel cap opcode : ℕ) (sizes : ℕ → ℕ) (body : List ℕ) (fs : List Frame) (c : Conn)
      → ((n : ℕ) → 0 < sizes n)
      → length body < fuel
      → is_data opcode ≡ true
      → IsBetween server limit skip (octets (wire_all fs) rest) c
      → IsMessage server cap opcode body fs
      → length body < 2 ^ 63
      → (0 < limit → length body ≤ limit)
      → All IsByte body
      → (opcode ≡ 1 → skip ≡ false → IsUtf8 body)
      → IsReceived opcode body (read_message m fuel sizes c)
  unfolding read_message
  read_message-IsReceived fuel cap opcode sizes body fs c pos enough data' b msg room within bytes
        text =
      let s =
        next_reader-Begins m server limit skip rest cap opcode body fs c data' b msg room within
          bytes text in
      let checked = opcode == Opcode.text && not c.skip_utf8_validation in
      let g =
        read_all-Gathers m server limit skip rest fuel [] checked c.readers sizes s.first s.later
          s.begun pos (omega (arith, enough, ap length s.whole)) s.current s.midway s.text in
      record {
        later = g.later;
        returns = ground (arith, s.starts, g.returns, s.whole);
        between = g.between;
      }
