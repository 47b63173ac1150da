-- ===== src/CloseCode.antt =====
-- Close codes of conn.go.
use magilla.Base.{ℕ}

abbrev pub normal : ℕ
normal = 1000

abbrev pub protocol_error : ℕ
protocol_error = 1002

abbrev pub no_status : ℕ
no_status = 1005

abbrev pub abnormal : ℕ
abnormal = 1006

abbrev pub invalid_payload : ℕ
invalid_payload = 1007

abbrev pub too_big : ℕ
too_big = 1009
