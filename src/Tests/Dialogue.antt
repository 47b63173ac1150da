-- ===== src/Tests/Dialogue.antt =====
-- Runs of a connection that reads what another has sent.
use magilla.Base.{◌+◌, length, refl, arith, true, false, List, [], ◌∷◌, none, some, All}
use magilla.Base.Integers.{pos}
use magilla.Errors.{is_data}
use magilla.Frame.{Frame, wire_all}
use magilla.Frame.Message.{IsMessage}
use magilla.Conn.{Conn}
use magilla.Conn.Net.{pause}
use magilla.Conn.Incoming.{octets}
use magilla.Conn.Receive.{read_message}
use magilla.Conn.Open.{new_conn}
use magilla.Conn.Arriving.{IsBetween}
use magilla.Conn.Join.{join_messages}
use magilla.Conn.Joined.{Joins}
use magilla.Conn.Concatenated.{Arrival, IsReceivable, arrivals, joined, join_reads-joined}
use magilla.Errors.Error.{application}
use magilla.Conn.Contexts.{Context}
use magilla.Conn.Graceful.{net_step}
use magilla.Conn.ReadContexts.{wait_until, read_message_context}
use magilla.Conn.InTime.{read_message_context-IsReceived}
use magilla.Conn.WholeArrival.{IsReceived, read_message-IsReceived}
use magilla.Conn.Exchange.{IsShort, Exchanged, write_messages-read_messages}
use magilla.Tests.{machine, client, key, key-bytes, text, text-bytes, text-IsUtf8}
use magilla.Tests.Sessions.{messages, messages-IsSendable}

-- A text in two frames: the first has a part of a character, the last is final.
abbrev parts : List Frame
parts =
    record { final = false; compressed = false; opcode = 1; key = none; payload = 0xe2 ∷ 0x82 ∷ [] }
    ∷ record {
      final = true;
      compressed = false;
      opcode = 0;
      key = none;
      payload = 0xac ∷ 0x21 ∷ [];
    }
    ∷ []

abbrev reader : Conn
reader = record client { input = octets (wire_all parts) (pause ∷ []) }

reader-IsBetween : IsBetween false 0 false (octets (wire_all parts) (pause ∷ [])) reader
reader-IsBetween = record {
  role = refl;
  same_limit = refl;
  same_skip = refl;
  fine = refl;
  done = refl;
  final = refl;
  input = refl;
  keyed = tt;
}

parts-IsMessage : IsMessage false 3 1 text parts
parts-IsMessage = record {
  front =
      record {
        final = false;
        compressed = false;
        opcode = 1;
        key = none;
        payload = 0xe2 ∷ 0x82 ∷ [];
      }
      ∷ [];
  last = record {
    final = true;
    compressed = false;
    opcode = 0;
    key = none;
    payload = 0xac ∷ 0x21 ∷ [];
  };
  split = refl;
  fragments = (
    record {
      final_bit = refl;
      plain = refl;
      type = refl;
      has_key = tt;
      bytes = omega arith;
      capped = λ p. omega arith;
    },
    tt,
  );
  final = record {
    final_bit = refl;
    plain = refl;
    type = refl;
    has_key = tt;
    bytes = omega arith;
    capped = λ p. omega arith;
  };
  whole = refl;
}

read_message-IsReceived_example :
    IsReceived machine false 0 false (pause ∷ []) 1 text (read_message machine 9 (λ n. 1) reader)
unfolding is_data
read_message-IsReceived_example =
    read_message-IsReceived machine false 0 false (pause ∷ []) 9 3 1 (λ n. 1) text parts reader
      (λ n. omega arith) (omega arith) refl reader-IsBetween parts-IsMessage (omega arith)
      (λ p. absurd (omega (arith, p))) text-bytes (λ e e'. text-IsUtf8)

messages-IsShort : All (IsShort 100) messages
messages-IsShort = omega arith

write_messages-read_messages_example :
    Exchanged machine machine true 100
      (λ n. 512)
      messages
      []
      (new_conn false (pos 20) none [] (record { sent = []; answers = [] }) [] key 0)
      (λ arriving. new_conn true (pos 0) none [] (record { sent = []; answers = [] }) arriving [] 0)
write_messages-read_messages_example =
    write_messages-read_messages machine machine false (pos 20) (pos 0) 100 (λ n. 512) key [] 0 0 []
      [] (record { sent = []; answers = [] }) messages (λ n. omega arith) key-bytes
      messages-IsSendable messages-IsShort

-- The text, and then an empty binary message.
abbrev coming : List Arrival
coming =
    record { opcode = 1; body = text; frames = parts }
    ∷ record {
      opcode = 2;
      body = [];
      frames =
          record { final = true; compressed = false; opcode = 2; key = none; payload = [] } ∷ [];
    }
    ∷ []

abbrev listener : Conn
listener = record client { input = arrivals coming (pause ∷ []) }

listener-IsBetween : IsBetween false 0 false (arrivals coming (pause ∷ [])) listener
listener-IsBetween = record {
  role = refl;
  same_limit = refl;
  same_skip = refl;
  fine = refl;
  done = refl;
  final = refl;
  input = refl;
  keyed = tt;
}

coming-IsReceivable : All (IsReceivable false 0 false 3) coming
unfolding is_data
coming-IsReceivable = (
  record {
    data' = refl;
    framed = parts-IsMessage;
    room = omega arith;
    within = λ p. absurd (omega (arith, p));
    bytes = text-bytes;
    text = λ e e'. text-IsUtf8;
  },
  (
    record {
      data' = refl;
      framed = record {
        front = [];
        last = record { final = true; compressed = false; opcode = 2; key = none; payload = [] };
        split = refl;
        fragments = tt;
        final = record {
          final_bit = refl;
          plain = refl;
          type = refl;
          has_key = tt;
          bytes = tt;
          capped = λ p. omega arith;
        };
        whole = refl;
      };
      room = omega arith;
      within = λ p. absurd (omega (arith, p));
      bytes = tt;
      text = λ e. absurd (omega (arith, e));
    },
    tt,
  ),
)

join_reads-joined_example :
    Joins machine 2 false 0 false
      (pause ∷ [])
      (10 ∷ [])
      (2 + length (joined (10 ∷ []) coming))
      (joined (10 ∷ []) coming)
      (join_messages listener (10 ∷ []))
join_reads-joined_example =
    join_reads-joined machine 2 false 0 false 3 (pause ∷ []) (10 ∷ []) coming listener (omega arith)
      listener-IsBetween coming-IsReceivable

-- A context with a deadline, which has ended by the time that the call returns.
abbrev closing : Context
closing = record { deadline = some 120; early = none; late = some (application 0) }

read_message_context-IsReceived_example :
    IsReceived machine false 0 false
      (pause ∷ [])
      1
      text
      (read_message_context machine closing 9 (λ n. 1) reader)
unfolding is_data wait_until net_step
read_message_context-IsReceived_example =
    read_message_context-IsReceived machine false 0 false (pause ∷ []) closing 9 3 1 (λ n. 1) text
      parts reader refl refl (λ n. omega arith) (omega arith) refl reader-IsBetween parts-IsMessage
      (omega arith) (λ p. absurd (omega (arith, p))) text-bytes (λ e e'. text-IsUtf8)
