-- ===== src/Opcode.antt =====
-- The opcodes and message types of conn.go.
use magilla.Base.{ℕ}

abbrev pub continuation : ℕ
continuation = 0

abbrev pub text : ℕ
text = 1

abbrev pub binary : ℕ
binary = 2

abbrev pub close : ℕ
close = 8

abbrev pub ping : ℕ
ping = 9

abbrev pub pong : ℕ
pong = 10
