-- ===== src/Tests/Sessions.antt =====
-- Runs of the connection over several messages.
use magilla.Base.{◌≡◌, refl, arith, true, List, [], ◌∷◌, none, some, All}
use magilla.Base.Integers.{pos}
use magilla.Opcode
use magilla.Base.{ℕ, Bool, ◌⊎◌, inr}
use magilla.Utf8.{dfa_validate, dfa_step, dfa_table, accept}
use magilla.Utf8.Accepts.{dfa_validate-IsUtf8}
use magilla.Errors.{Error}
use magilla.Conn.Deliver.{IsDelivered}
use magilla.Conn.Json.{write_json, write_json-IsDelivered}
use magilla.Errors.Error.{application}
use magilla.Errors.{is_data}
use magilla.Conn.{Conn}
use magilla.Conn.Net.{octet, pause}
use magilla.Conn.Receive.{next_reader, read_message}
use magilla.Base.{length}
use magilla.Conn.Read.{advance_frame}
use magilla.Conn.Progress.{Leaves, advance_frame-Leaves}
use magilla.Conn.Terminates.{Found, next_reader-Found}
use magilla.Conn.Drains.{Ends, read_message-Ends}
use magilla.Conn.Contexts.{Context, write_message_context, next_writer_context}
use magilla.Conn.Overdue.{LeavesOverdue, contexts-LeavesOverdue}
use magilla.Errors.{is_timeout, unexpected_eof}
use magilla.Base.{◌+◌, false, leb, if◌then◌else◌}
use magilla.Conn.Net.{take_input}
use magilla.Conn.Read.{read_header, read, read_error}
use magilla.Conn.Receive.{next_loop, next_round, failed_read, no_message}
use magilla.Conn.Sticky.{answer_of, next_readers, panicked, fails, next_reader-permanent}
use magilla.Conn.Session.{Message, IsSendable}
use magilla.Conn.Prepared.{PreparedMessage, write_prepared_message}
use magilla.Conn.Prepared.Cached.{IsSent, write_prepared_message-IsSent}
use magilla.Conn.Net.{Input}
use magilla.Conn.Message.{Wrote}
use magilla.Conn.Send.{new_writer}
use magilla.Conn.Sending.{IsSending}
use magilla.Conn.Deliver.{start-IsSending}
use magilla.Conn.Fragments.{Copied}
use magilla.Conn.Strings.{ReadIn, read_from, write_string}
use magilla.Conn.Pieces.{stream}
use magilla.Conn.Streaming.{CopiedIn, read_from-CopiedIn, write_string-Copied}
use magilla.Tests.{
  client-IsLive, machine, client, client-IsIdle, key, key-bytes, text, text-bytes, text-IsUtf8,
}

-- A connection whose peer sends an unmasked ping and an unmasked text, in two pieces.
abbrev busy : Conn
busy = record client {
  input = octet 0x89 ∷ octet 0 ∷ pause ∷ octet 0x81 ∷ octet 1 ∷ octet 0x41 ∷ [];
}

advance_frame-Leaves_example :
    Leaves machine (length busy.input) (advance_frame machine (record busy { read_limit = 3 }))
advance_frame-Leaves_example = advance_frame-Leaves machine (record busy { read_limit = 3 })

next_reader-Found_example : Found 6 (next_reader machine busy)
next_reader-Found_example = next_reader-Found machine busy

read_message-Ends_example : Ends machine (read_message machine 10 (λ n. 512) busy)
read_message-Ends_example =
    read_message-Ends machine 10 (λ n. 512) busy (λ n. omega arith) (omega arith)

abbrev pub messages : List Message
messages = (Opcode.text, text) ∷ (Opcode.binary, 0 ∷ 255 ∷ []) ∷ (Opcode.text, text) ∷ []

pub messages-IsSendable : All IsSendable messages
unfolding is_data
messages-IsSendable = (
  (refl, text-bytes, λ h. text-IsUtf8),
  ((refl, omega arith, λ h. absurd (omega (arith, h))), ((refl, text-bytes, λ h. text-IsUtf8), tt)),
)

abbrev prepared : PreparedMessage
prepared = record { message_type = Opcode.text; body = text; frames = [] }

write_prepared_message-IsSent_example :
    IsSent machine prepared client (write_prepared_message machine (pos 1) key prepared client)
unfolding is_data
write_prepared_message-IsSent_example =
    write_prepared_message-IsSent machine (pos 1) key prepared client tt
      (refl, text-bytes, λ h. text-IsUtf8) key-bytes client-IsIdle

-- A reader of two pieces.
abbrev source : List Input
source = octet 0xe2 ∷ octet 0x82 ∷ pause ∷ octet 0xac ∷ octet 0x21 ∷ []

binary-data : is_data Opcode.binary ≡ true
unfolding is_data
binary-data = refl

client-IsSending : IsSending client Opcode.binary [] [] (new_writer Opcode.binary) client
client-IsSending = start-IsSending Opcode.binary client client-IsLive (omega arith)

read_from-CopiedIn_example :
    (r : ReadIn) × (read_from machine source (new_writer Opcode.binary) client ≡ some r)
    × CopiedIn machine client Opcode.binary binary-data (omega arith) [] [] (stream source) 0 r
read_from-CopiedIn_example =
    read_from-CopiedIn machine client Opcode.binary binary-data (omega arith) source [] []
      (new_writer Opcode.binary) client tt (omega arith) client-IsSending

write_string-Copied_example :
    (r : Wrote) × (write_string machine text (new_writer Opcode.binary) client ≡ some r)
    × Copied machine client Opcode.binary binary-data [] [] text r
write_string-Copied_example =
    write_string-Copied machine client Opcode.binary binary-data (omega arith) text [] []
      (new_writer Opcode.binary) client text-bytes client-IsSending

-- A connection on which nothing arrives any more.
abbrev silent : Conn
silent = record client { input = pause ∷ [] }

abbrev failed : Conn
failed = record silent { input = []; read_err = some unexpected_eof; read_err_count = 1 }

silent-fails : next_reader machine silent ≡ some (no_message (some unexpected_eof) failed)
unfolding next_reader next_loop next_round advance_frame read_header read take_input read_error
    failed_read is_timeout
silent-fails = refl

lasting : is_timeout unexpected_eof ≡ false
unfolding is_timeout
lasting = refl

next_reader-permanent_example :
    answer_of (next_readers machine 7 failed)
    ≡ (if leb 1000 (1 + 8) then panicked else fails (some unexpected_eof))
next_reader-permanent_example =
    next_reader-permanent machine 7 silent failed unexpected_eof silent-fails lasting

-- A context that ends at 120, after the call has begun and before it returns.
abbrev brief : Context
brief = record { deadline = some 120; early = none; late = some (application 0) }

contexts-LeavesOverdue_example :
    LeavesOverdue machine 130 Opcode.binary text
      (write_message_context machine brief Opcode.text text client)
    × LeavesOverdue machine 130 Opcode.binary text
        (next_writer_context machine brief Opcode.text client)
contexts-LeavesOverdue_example =
    contexts-LeavesOverdue machine 130 Opcode.binary text brief 120 Opcode.text text client refl
      refl (omega arith)

-- encoding/json on the truth values.
abbrev encode_bool : Bool → Error ⊎ List ℕ
encode_bool true = inr (0x74 ∷ 0x72 ∷ 0x75 ∷ 0x65 ∷ 10 ∷ [])
encode_bool false = inr (0x66 ∷ 0x61 ∷ 0x6c ∷ 0x73 ∷ 0x65 ∷ 10 ∷ [])

abbrev true_text : List ℕ
true_text = 0x74 ∷ 0x72 ∷ 0x75 ∷ 0x65 ∷ 10 ∷ []

true_text-accepted : dfa_validate true_text ≡ accept
unfolding dfa_validate dfa_step dfa_table
true_text-accepted = refl

write_json-IsDelivered_example :
    IsDelivered Opcode.text true_text client (write_json machine encode_bool true client)
write_json-IsDelivered_example =
    write_json-IsDelivered machine encode_bool true true_text client client-IsIdle refl refl
      (omega arith) ((dfa_validate-IsUtf8 true_text (omega arith)).0 true_text-accepted)

-- A ping arrives while the messages are drained.
abbrev pinged : Conn
pinged = record client { input = octet 0x89 ∷ octet 0 ∷ octet 0x88 ∷ octet 0 ∷ [] }
