-- ===== src/Tests.antt =====
-- Runs of the model at concrete inputs.
mod Handshakes
mod Sessions
mod Dialogue
mod Streams
mod Compressors
use magilla.Base.{
  ℕ, ◌≡◌, ◌≢◌, refl, arith, true, false, List, [], ◌∷◌, ◌++◌, none, some, inl, inr, All, IsByte,
  ◌↔◌,
}
use magilla.Base.{replicate}
use magilla.Opcode
use magilla.Errors.{is_valid_received_close_code, listed_close_code}
use magilla.Errors.Error.{invalid_utf8, close_sent, close_error}
use magilla.Utf8.{dfa_validate, accept, dfa_step, dfa_table}
use magilla.Utf8.Spec.{IsUtf8}
use magilla.Utf8.Accepts.{dfa_validate-IsUtf8}
use magilla.Mask.{mask_bytes}
use magilla.Mask.Laws.{masked}
use magilla.Mask.Bytes.{mask_bytes-masked}
use magilla.Mask.Twice.{mask_bytes-mask_bytes, mask_bytes-append}
use magilla.Frame.{Frame, wire}
use magilla.Conn.{Machine, Conn}
use magilla.Conn.Write.{write_control}
use magilla.Conn.Net.{Input, pause}
use magilla.Conn.Incoming.{octets, first_text}
use magilla.Conn.Parse.{parsed, advance_frame-wire}
use magilla.Conn.Read.{advance_frame, process_close, format_close_message, send_close}
use magilla.Conn.Closing.{process_close-format_close_message}
use magilla.Conn.Send.{returned, write_message}
use magilla.Conn.Sending.{IsLive}
use magilla.Conn.Deliver.{IsIdle}
use magilla.Conn.Broken.{Refuses, IsRefused, write_message-IsRefused, write_control-Refuses}

abbrev key : List ℕ
key = 1 ∷ 2 ∷ 3 ∷ 4 ∷ []

abbrev text : List ℕ
text = 0xe2 ∷ 0x82 ∷ 0xac ∷ 0x21 ∷ []

abbrev machine : Machine
machine = record {
  big_endian = false;
  word_size = 8;
  align = λ b. 3;
  word_size_fours = refl;
  word_size_pos = omega arith;
  align-lt = λ b. omega arith;
}

-- A client's connection as newConn leaves it, with a frame size of three bytes.
abbrev client : Conn
client = record {
  is_server = false;
  disable_mask = false;
  skip_utf8_validation = false;
  net = record { sent = []; answers = [] };
  rand = key ++ key ++ key ++ key;
  now = 100;
  write_mu = true;
  write_buf = replicate 30 0;
  write_pool = none;
  write_buf_size = 30;
  write_frame_size = 3;
  write_deadline = none;
  writer = none;
  write_err = none;
  input = [];
  read_err = none;
  read_remaining = 0;
  read_final = true;
  read_length = 0;
  read_limit = 0;
  read_mask_pos = 0;
  read_mask_key = 0 ∷ 0 ∷ 0 ∷ 0 ∷ [];
  read_err_count = 0;
  message_reader = none;
  readers = 0;
  read_utf8_state = 0;
  read_utf8_codepoint = 0;
  handle_pong = none;
  handle_ping = none;
  handle_close = none;
}

abbrev closed : Conn
closed = record client { write_err = some close_sent }

text-bytes : All IsByte text
text-bytes = omega arith

key-bytes : All IsByte key
key-bytes = omega arith

client-IsLive : IsLive client
client-IsLive = record { unbroken = refl; accepting = refl; random = omega arith }

client-IsIdle : IsIdle client
client-IsIdle = record {
  live = client-IsLive;
  unlocked = refl;
  no_writer = refl;
  no_deadline = refl;
  no_pool = refl;
  room = omega arith;
}

text-accepted : dfa_validate text ≡ accept
unfolding dfa_validate dfa_step dfa_table
text-accepted = refl

text-IsUtf8 : IsUtf8 text
text-IsUtf8 = (dfa_validate-IsUtf8 text text-bytes).0 text-accepted

dfa_validate-IsUtf8_example : (dfa_validate text ≡ accept) ↔ IsUtf8 text
dfa_validate-IsUtf8_example = dfa_validate-IsUtf8 text text-bytes

mask_bytes-masked_example :
    mask_bytes true 4 1 key 2 (text ++ text ++ text) ≡ (masked key 2 (text ++ text ++ text), 2)
mask_bytes-masked_example =
    mask_bytes-masked true 4 refl (omega arith) key key-bytes 1 2 (text ++ text ++ text)
      (omega arith) (omega arith)

mask_bytes-mask_bytes_example :
    (mask_bytes true 4 1 key 3 (mask_bytes false 8 5 key 3 (text ++ text ++ text)).0).0
    ≡ text ++ text ++ text
mask_bytes-mask_bytes_example =
    mask_bytes-mask_bytes false true 8 4 5 1 3 key (text ++ text ++ text) refl refl (omega arith)
      (omega arith) key-bytes (omega arith)

mask_bytes-append_example :
    let first = mask_bytes false 4 1 key 2 text in
    let second = mask_bytes false 4 0 key first.1 (text ++ text) in
    mask_bytes false 4 3 key 2 (text ++ (text ++ text)) ≡ (first.0 ++ second.0, second.1)
mask_bytes-append_example =
    mask_bytes-append false 4 3 1 0 2 key text (text ++ text) refl (omega arith) (omega arith)
      (omega arith) key-bytes text-bytes (omega arith)

write_message-IsRefused_example :
    IsRefused close_sent closed.net closed (write_message machine Opcode.binary text closed)
write_message-IsRefused_example =
    write_message-IsRefused machine close_sent closed.net Opcode.binary text closed (refl, refl)

write_control-Refuses_example :
    Refuses close_sent closed.net (write_control machine Opcode.ping text none closed)
write_control-Refuses_example =
    write_control-Refuses machine close_sent closed.net Opcode.ping text none closed (refl, refl)

-- A server with bytes on their way in.
abbrev server : List Input → Conn
server input = record client { is_server = true; input = input }

abbrev text_frame : Frame
text_frame = record {
  final = false;
  compressed = false;
  opcode = Opcode.text;
  key = some key;
  payload = text;
}

abbrev incoming : List Input
incoming = octets (wire text_frame) (pause ∷ [])

advance_frame-wire_example : advance_frame machine (server incoming) ≡ (
  inr Opcode.text,
  parsed machine true 4 false key (octets (masked key 0 text) (pause ∷ [])) (server incoming),
)
advance_frame-wire_example =
    advance_frame-wire machine text_frame (pause ∷ []) (server incoming) refl first_text refl
      (refl, key-bytes) (record { no_overflow = omega arith; limit = λ h. omega (arith, h) }) refl

process_close-format_close_message_example :
    process_close machine (format_close_message 1001 text) client
    ≡ (inl (close_error 1001 text), send_close machine (format_close_message 1001 []) client)
unfolding is_valid_received_close_code listed_close_code
process_close-format_close_message_example =
    process_close-format_close_message machine 1001 text client refl text-bytes text-IsUtf8 refl
