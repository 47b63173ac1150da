-- ===== src/Conn.antt =====
-- The connection of conn.go: its fields, the network under it, and the machine it runs on.
pub mod Net
pub mod Write
pub mod Buffer
pub mod Header
pub mod Flush
pub mod Sending
pub mod Fragments
pub mod Final
pub mod Deliver
pub mod InFrames
pub mod WholeMessage
pub mod Control
pub mod Broken
pub mod Read
pub mod Receive
pub mod Parse
pub mod Incoming
pub mod Closing
pub mod Progress
pub mod Terminates
pub mod Strings
pub mod Pieces
pub mod Streaming
pub mod Graceful
pub mod Prepared
pub mod CloseErrors
pub mod Open
pub mod Session
pub mod Drains
pub mod Arriving
pub mod Continuing
pub mod Gathering
pub mod Arrived
pub mod Beginning
pub mod WholeArrival
pub mod Exchange
pub mod Sticky
pub mod Join
pub mod Joined
pub mod Concatenated
pub mod Contexts
pub mod SameDeadline
pub mod Overdue
pub mod ReadContexts
pub mod InTime
pub mod Json
pub mod Silent
pub mod LastFrame
pub mod Message
pub mod Send
use magilla.Base.{ℕ, zero, suc, ◌%◌, ◌<◌, ◌≡◌, Bool, List, [], ◌∷◌, Option, none, some}
use magilla.Errors.{Error}
use Net.{Network, Input}

-- What `maskBytes` sees of the machine: the byte order, the size of a word, and the address of
-- each buffer modulo that size.
pub record Machine : Type 0 where
  pub big_endian : Bool
  pub word_size : ℕ
  pub align : List ℕ → ℕ
  pub word_size_fours : word_size % 4 ≡ 0
  pub word_size_pos : 0 < word_size
  pub align-lt : (b : List ℕ) → align b < word_size

-- An application's handler for a control message; it decides what error to return, and leaves
-- the connection alone.
abbrev pub Handler : Type 0
Handler = List ℕ → Option Error

-- The messageWriter of an outgoing message: `pos` is the end of the data in `write_buf`.
pub record MessageWriter : Type 0 where
  pub compress : Bool
  pub pos : ℕ
  pub frame_type : ℕ
  pub err : Option Error

-- The utf8ValidatingWriter over it.
pub record Utf8Writer : Type 0 where
  pub state : ℕ
  pub codepoint : ℕ
  pub failed : Bool

-- What NextWriter returns: the writer of the frames, under a validator for a text message.
pub record Pipeline : Type 0 where
  pub message : MessageWriter
  pub utf8 : Option Utf8Writer

-- `write_mu` is true while the token is in the channel. `write_buf` is [] for nil. A deadline is
-- `none` for the zero time, and counts nanoseconds, as `now` does.
pub record Conn : Type 0 where
  pub is_server : Bool
  pub disable_mask : Bool
  pub skip_utf8_validation : Bool
  pub net : Network
  pub rand : List ℕ
  pub now : ℕ
  pub write_mu : Bool
  pub write_buf : List ℕ
  pub write_pool : Option (List (List ℕ))
  pub write_buf_size : ℕ
  pub write_frame_size : ℕ
  pub write_deadline : Option ℕ
  pub writer : Option Pipeline
  pub write_err : Option Error
  pub input : List Input
  pub read_err : Option Error
  pub read_remaining : ℕ
  pub read_final : Bool
  pub read_length : ℕ
  pub read_limit : ℕ
  pub read_mask_pos : ℕ
  pub read_mask_key : List ℕ
  pub read_err_count : ℕ
  pub message_reader : Option ℕ
  pub readers : ℕ
  pub read_utf8_state : ℕ
  pub read_utf8_codepoint : ℕ
  pub handle_pong : Option Handler
  pub handle_ping : Option Handler
  pub handle_close : Option (ℕ → Handler)
