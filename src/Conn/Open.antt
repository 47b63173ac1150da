-- ===== src/Conn/Open.antt =====
-- newConn, and the setters of conn.go.
use magilla.Base.{ℕ, zero, suc, ◌+◌, Bool, true, false, List, [], ◌∷◌, Option, none, some}
use magilla.Base.{◌==◌, if◌then◌else◌, length, replicate}
use magilla.Base.Integers.{ℤ, pos, negsuc}
use magilla.Conn.{Conn}
use magilla.Conn.Net.{Network, Input}
use magilla.Conn.Write.{max_frame_header_size}

-- `defaultWriteBufferSize`
abbrev pub default_write_buffer_size : ℕ
default_write_buffer_size = 4096

-- `writeBufferSize` of newConn, with the room for a header.
unfoldable pub write_buffer_size : ℤ → ℕ
write_buffer_size (negsuc n) = default_write_buffer_size + max_frame_header_size
write_buffer_size (pos zero) = default_write_buffer_size + max_frame_header_size
write_buffer_size (pos (suc n)) = suc n + max_frame_header_size

-- newConn: a server's connection or a client's, with a size, a pool and a buffer to write from ([]
-- for nil), over a network with what will arrive. The fields of Upgrader or Dialer come later.
unfoldable pub new_conn :
    Bool → ℤ → Option (List (List ℕ)) → List ℕ → Network → List Input → List ℕ → ℕ → Conn
new_conn is_server size pool buf net input rand now =
    let n = write_buffer_size size in
    let own : List ℕ = elim pool [
      | none ↦ if length buf == 0 then replicate n 0 else buf
      | some bufs ↦ buf
    ] in
    record {
      is_server = is_server;
      disable_mask = false;
      skip_utf8_validation = false;
      net = net;
      rand = rand;
      now = now;
      write_mu = true;
      write_buf = own;
      write_pool = pool;
      write_buf_size = n;
      write_frame_size = 0;
      write_deadline = none;
      writer = none;
      write_err = none;
      input = input;
      read_err = none;
      read_remaining = 0;
      read_final = true;
      read_length = 0;
      read_limit = 0;
      read_mask_pos = 0;
      read_mask_key = 0 ∷ 0 ∷ 0 ∷ 0 ∷ [];
      read_err_count = 0;
      message_reader = none;
      readers = 0;
      read_utf8_state = 0;
      read_utf8_codepoint = 0;
      handle_pong = none;
      handle_ping = none;
      handle_close = none;
    }

-- Conn.SetWriteFrameSize
unfoldable pub set_write_frame_size : ℤ → Conn → Conn
set_write_frame_size (pos n) c = record c { write_frame_size = n }
set_write_frame_size (negsuc n) c = record c { write_frame_size = 0 }

-- Conn.SetWriteDeadline
unfoldable pub set_write_deadline : Option ℕ → Conn → Conn
set_write_deadline t c = record c { write_deadline = t }

-- Conn.SetReadLimit; only whether a limit is positive matters, so that 0 stands for the negative
-- ones.
unfoldable pub set_read_limit : ℤ → Conn → Conn
set_read_limit (pos n) c = record c { read_limit = n }
set_read_limit (negsuc n) c = record c { read_limit = 0 }
