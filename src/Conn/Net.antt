-- ===== src/Conn/Net.antt =====
-- The net.Conn under a connection, which is not this package's code: what it was sent, and how it
-- will answer; and the bytes that will arrive, with the bounds of the single reads.
use magilla.Base.{ℕ, zero, suc, List, [], ◌∷◌, ◌++◌, Option, none, some, take}
use magilla.Errors.{Error, eof}

-- The answer to one call: no error, or an error after `n` bytes.
pub data Answer : Type 0 where
  fine : Answer
  fails : ℕ → Error → Answer

-- With no answer left every call succeeds.
pub record Network : Type 0 where
  pub sent : List ℕ
  pub answers : List Answer

abbrev pub answered : Answer → List ℕ → List ℕ → List Answer → Option Error × Network
answered fine b sent rest = (none, record { sent = sent ++ b; answers = rest })
answered (fails n e) b sent rest = (some e, record { sent = sent ++ take n b; answers = rest })

abbrev pub net_call : List Answer → List ℕ → List ℕ → Option Error × Network
net_call [] b sent = (none, record { sent = sent ++ b; answers = [] })
net_call (a ∷ rest) b sent = answered a b sent rest

-- `net.Conn.Write`
unfoldable pub net_write : List ℕ → Network → Option Error × Network
net_write b n = net_call n.answers b n.sent

-- `net.Conn.SetWriteDeadline`
unfoldable pub net_set_write_deadline : Network → Option Error × Network
net_set_write_deadline n = net_call n.answers [] n.sent

-- What arrives: a byte, the end of what one read of the net.Conn returns, or an error. After the
-- last event every read meets EOF.
pub data Input : Type 0 where
  octet : ℕ → Input
  pause : Input
  stop : Error → Input

-- The bytes that a read returns, its error, and what is left.
pub record Got : Type 0 where
  pub bytes : List ℕ
  pub err : Option Error
  pub left : List Input

abbrev cons_got : ℕ → Got → Got
cons_got b g = record { bytes = b ∷ g.bytes; err = g.err; left = g.left }

-- `bufio.Reader.Peek(n)` with `Discard` of what it returned: `n` bytes, or fewer and an error,
-- which is then forgotten.
unfoldable pub take_input : ℕ → List Input → Got
take_input zero is = record { bytes = []; err = none; left = is }
take_input (suc n) [] = record { bytes = []; err = some eof; left = [] }
take_input (suc n) (octet b ∷ is) = cons_got b (take_input n is)
take_input (suc n) (pause ∷ is) = take_input (suc n) is
take_input (suc n) (stop e ∷ is) = record { bytes = []; err = some e; left = is }

-- The bytes up to the bound of a read.
unfoldable pub take_chunk : ℕ → List Input → Got
take_chunk zero is = record { bytes = []; err = none; left = is }
take_chunk (suc n) [] = record { bytes = []; err = none; left = [] }
take_chunk (suc n) (octet b ∷ is) = cons_got b (take_chunk n is)
take_chunk (suc n) (pause ∷ is) = record { bytes = []; err = none; left = is }
take_chunk (suc n) (stop e ∷ is) = record { bytes = []; err = none; left = stop e ∷ is }

-- `bufio.Reader.Read` into a buffer of `n` bytes: some of what has arrived, or the error.
unfoldable pub read_input : ℕ → List Input → Got
unfolding take_chunk
read_input zero is = record { bytes = []; err = none; left = is }
read_input (suc n) [] = record { bytes = []; err = some eof; left = [] }
read_input (suc n) (octet b ∷ is) = take_chunk (suc n) (octet b ∷ is)
read_input (suc n) (pause ∷ is) = read_input (suc n) is
read_input (suc n) (stop e ∷ is) = record { bytes = []; err = some e; left = is }
