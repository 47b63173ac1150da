-- ===== src/Errors.antt =====
-- The error values of conn.go and the codes and opcodes they speak of. A Go `error` that may be
-- nil is an `Option Error`.
use magilla.Base.{ℕ, Bool, true, false, ◌&&◌, ◌||◌, List, [], ◌∷◌}
use magilla.Base.{leb, ◌==◌}
use magilla.Opcode
use magilla.CloseCode
use Prim.Native.Char.{code}
use Prim.Native.String.{String}

-- The bytes of an ASCII text.
abbrev pub codes : String → List ℕ
codes String.[] = []
codes (String.◌∷◌ c s) = code c ∷ codes s

-- `network n timeout` stands for an error of the net.Conn, told apart by `n`.
pub data Error : Type 0 where
  close_sent read_limit write_timeout bad_write_op_code write_closed : Error
  invalid_control_frame invalid_utf8 eof extra_in_client_mode unexpected_data : Error
  close_error : ℕ → List ℕ → Error
  protocol : List ℕ → Error
  network : ℕ → Bool → Error
  application : ℕ → Error

unfoldable pub is_control : ℕ → Bool
is_control t = t == Opcode.close || t == Opcode.ping || t == Opcode.pong

unfoldable pub is_data : ℕ → Bool
is_data t = t == Opcode.text || t == Opcode.binary

-- errUnexpectedEOF
abbrev pub unexpected_eof : Error
unexpected_eof = close_error CloseCode.abnormal (codes "unexpected EOF")

-- Does errors.As find a net.Error whose Timeout() is true?
unfoldable pub is_timeout : Error → Bool
is_timeout write_timeout = true
is_timeout (network n timeout) = timeout
is_timeout close_sent = false
is_timeout read_limit = false
is_timeout bad_write_op_code = false
is_timeout write_closed = false
is_timeout invalid_control_frame = false
is_timeout invalid_utf8 = false
is_timeout eof = false
is_timeout extra_in_client_mode = false
is_timeout unexpected_data = false
is_timeout (close_error c t) = false
is_timeout (protocol m) = false
is_timeout (application n) = false

-- The map `validReceivedCloseCodes`; a code that it lacks reads false.
unfoldable pub listed_close_code : ℕ → Bool
listed_close_code c =
    c == 1000
    || c == 1001
    || c == 1002
    || c == 1003
    || c == 1007
    || c == 1008
    || c == 1009
    || c == 1010
    || c == 1011
    || c == 1012
    || c == 1013

unfoldable pub is_valid_received_close_code : ℕ → Bool
unfolding listed_close_code
is_valid_received_close_code c = listed_close_code c || leb 3000 c && leb c 4999
