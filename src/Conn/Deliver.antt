-- ===== src/Conn/Deliver.antt =====
-- WriteMessage on an idle connection: both of its paths send one whole message.
use magilla.Base.{
  ℕ, ◌+◌, ◌-◌, ◌≤◌, ◌<◌, ◌≡◌, refl, ap, sym, ◌∙◌, arith, true, false, List, [], ◌∷◌, ◌++◌, Option,
  none, some, min,
}
use magilla.Base.{
  length, take, drop, append-nil, All, IsByte, All-take, All-drop, take-append-drop, length-take,
}
use magilla.Errors.Error.{write_timeout}
use magilla.Errors.{Error, is_data}
use magilla.Utf8.{dfa_step, validate_loop, accept}
use magilla.Conn.{Machine, Conn, MessageWriter, Pipeline}
use magilla.Conn.Write.{masks, copy_at}
use magilla.Conn.Message.{Wrote, payload_room, append_bytes}
use magilla.Conn.Send.{
  Outcome, returned, acquire_write_mu, taken, feed, begin_message, get_buffer, new_writer, on_lock,
  write_one_frame, write_whole, sync,
}
use magilla.Conn.Buffer.{copy_at-take}
use magilla.Conn.Sending.{IsSending, IsLive, moved}
use magilla.Conn.Fragments.{append-IsSending}
use magilla.Conn.Final.{Finished, flush-Finished, ended}
use mathlib.Core.Path.{subst}
use magilla.Frame.{Frame, wire_all}
use magilla.Frame.Message.{IsMessage, Fragments, payloads, payloads-snoc}

-- Nobody is writing, no error has been met, and the connection has a buffer of its own.
pub record IsIdle (c : Conn) : Type 0 where
  pub live : IsLive c
  pub unlocked : c.write_mu ≡ true
  pub no_writer : c.writer ≡ none
  pub no_deadline : c.write_deadline ≡ none
  pub no_pool : c.write_pool ≡ none
  pub room : 14 < length c.write_buf

-- A call returned no error; it sent one message of type `opcode` with the payload `body`, and left
-- all but the network, the buffer and the random bytes as it was.
pub record IsDelivered (opcode : ℕ) (body : List ℕ) (c : Conn) (o : Outcome (Option Error))
    : Type 0 where
  pub later : Conn
  pub returns : o ≡ returned none later
  pub frames : List Frame
  pub message : IsMessage (masks c) c.write_frame_size opcode body frames
  pub buf : List ℕ
  pub rand : List ℕ
  pub changes : later ≡ moved (c.net.sent ++ wire_all frames) buf rand c
  pub idle : IsIdle later

get_buffer_own : (c : Conn) → 14 < length c.write_buf → get_buffer c ≡ c
unfolding get_buffer
get_buffer_own c h = ground arith

-- The validator's loop finds nothing wrong with what utf8DFAValidate accepts.
pub feed-accepts :
    (i s x : ℕ) (p : List ℕ)
    → validate_loop s x p ≡ accept
    → ((feed i s x p).bad ≡ none) × ((feed i s x p).state ≡ accept)
unfolding feed validate_loop
feed-accepts i s x [] h = (refl, h)
feed-accepts i s x (b ∷ p) h =
    ground (arith, feed-accepts (i + 1) (dfa_step s x b).0 (dfa_step s x b).1 p)

pub sync-some :
    (p old : Pipeline) (c : Conn) → c.writer ≡ some old → sync p c ≡ record c { writer = some p }
sync-some p old c e = rw (e, sync)

-- A message that is about to begin.
pub start-IsSending :
    (opcode : ℕ) (c : Conn)
    → IsLive c
    → 14 < length c.write_buf
    → IsSending c opcode [] [] (new_writer opcode) c
unfolding wire_all
start-IsSending opcode c live room = record {
  holding = record {
    front = take 14 c.write_buf;
    back = drop 14 c.write_buf;
    buffer = sym (take-append-drop 14 c.write_buf);
    front_size = omega (arith, length-take 14 c.write_buf);
    end = refl;
  };
  open_writer = refl;
  uncompressed = refl;
  type = refl;
  shape = λ i. record c {
    net = record { sent = sym (append-nil c.net.sent) i; answers = live.accepting i };
  };
  buffer_size = refl;
  live = live;
  fragments = tt;
  pending_bytes = tt;
  pending_capped = λ z. omega arith;
}

-- The writer that the connection remembers makes no difference to what is sent.
pub writer-IsSending :
    (c0 c : Conn) (p : Option Pipeline) (opcode : ℕ) (out : List Frame) (pending : List ℕ)
    (w : MessageWriter)
    → IsSending c0 opcode out pending w c
    → IsSending (record c0 { writer = p }) opcode out pending w (record c { writer = p })
unfolding masks
writer-IsSending c0 c p opcode out pending w s = record {
  holding = record {
    front = s.holding.front;
    back = s.holding.back;
    buffer = s.holding.buffer;
    front_size = s.holding.front_size;
    end = s.holding.end;
  };
  open_writer = s.open_writer;
  uncompressed = s.uncompressed;
  type = s.type;
  shape = ap (λ (t : Conn). record t { writer = p }) s.shape;
  buffer_size = s.buffer_size;
  live = record {
    unbroken = s.live.unbroken;
    accepting = s.live.accepting;
    random = s.live.random;
  };
  fragments = s.fragments;
  pending_bytes = s.pending_bytes;
  pending_capped = s.pending_capped;
}

-- An idle connection with its lock taken.
abbrev pub busy : Option Pipeline → Conn → Conn
busy p c = record c { write_mu = false; writer = p }

module _ (m : Machine) where
  pub begin_idle :
      (opcode : ℕ) (c : Conn)
      → is_data opcode ≡ true
      → c.writer ≡ none
      → c.write_err ≡ none
      → 14 < length c.write_buf
      → begin_message m opcode c ≡ (none, c)
  unfolding begin_message
  begin_idle opcode c data' no_writer unbroken room = ground (arith, get_buffer_own c room)

  pub acquire_idle :
      (c : Conn)
      → c.write_deadline ≡ none
      → c.write_mu ≡ true
      → acquire_write_mu c.write_deadline c ≡ taken (record c { write_mu = false })
  unfolding acquire_write_mu
  acquire_idle c none' free = rw (none', free)

  -- A finished message leaves an idle connection behind.
  pub delivered :
      (opcode : ℕ) (body payload : List ℕ) (c : Conn) (p : Option Pipeline) (out : List Frame)
      (r : Wrote)
      → IsIdle c
      → Fragments (masks c) c.write_frame_size opcode out
      → payloads out ++ payload ≡ body
      → Finished m (busy p c) opcode out payload r
      → IsDelivered opcode body c (returned r.err r.conn)
  unfolding masks
  delivered opcode body payload c p out r idle fragments whole f = record {
    later = moved (c.net.sent ++ wire_all (out ++ f.last ∷ [])) f.buf f.rand c;
    returns = λ i. returned (f.no_error i) ((f.shape ∙ unlocked) i);
    frames = out ++ f.last ∷ [];
    message = record {
      front = out;
      last = f.last;
      split = refl;
      fragments = fragments;
      final = f.final;
      whole = payloads-snoc out f.last ∙ ap (λ t. payloads out ++ t) f.content ∙ whole;
    };
    buf = f.buf;
    rand = f.rand;
    changes = refl;
    idle = record {
      live = record { unbroken = idle.live.unbroken; accepting = refl; random = f.random };
      unlocked = idle.unlocked;
      no_writer = idle.no_writer;
      no_deadline = idle.no_deadline;
      no_pool = idle.no_pool;
      room = rw f.buffer_size idle.room;
    };
  }
    where
      sent : List ℕ
      sent = c.net.sent ++ wire_all (out ++ f.last ∷ [])

      unlocked : ended (moved sent f.buf f.rand (busy p c)) ≡ moved sent f.buf f.rand c
      unlocked = λ i. record c {
        net = record { sent = sent; answers = [] };
        write_buf = f.buf;
        rand = f.rand;
        writer = sym idle.no_writer i;
        write_mu = sym idle.unlocked i;
      }

  pub busy-IsLive : (p : Option Pipeline) (c : Conn) → IsLive c → IsLive (busy p c)
  busy-IsLive p c live = record {
    unbroken = live.unbroken;
    accepting = live.accepting;
    random = live.random;
  }

  write_whole_eq :
      (opcode : ℕ) (body : List ℕ) (c : Conn)
      → IsIdle c
      → is_data opcode ≡ true
      → write_whole m opcode body c ≡ write_one_frame m opcode body (none, busy c.writer c)
  unfolding write_whole
  write_whole_eq opcode body c idle data' =
      ap
        (λ a.
          on_lock a (returned (some write_timeout) c)
            (λ c1. write_one_frame m opcode body (begin_message m opcode c1)))
        (acquire_idle c idle.no_deadline idle.unlocked)
      ∙ ap (write_one_frame m opcode body)
          (begin_idle opcode (busy c.writer c) data' idle.no_writer idle.live.unbroken idle.room)

  -- The fast path: what fits the buffer is copied, and the rest is handed over as it is.
  pub write_whole-IsDelivered :
      (opcode : ℕ) (body : List ℕ) (c : Conn)
      → IsIdle c
      → is_data opcode ≡ true
      → All IsByte body
      → c.is_server ≡ true
      → (0 < c.write_frame_size → length body ≤ c.write_frame_size)
      → IsDelivered opcode body c (write_whole m opcode body c)
  unfolding append_bytes write_one_frame
  write_whole-IsDelivered opcode body c idle data' bytes server capped =
      let c1 = busy c.writer c in
      let n = min (length c.write_buf - 14) (length body) in
      let start = start-IsSending opcode c1 (busy-IsLive c.writer c idle.live) idle.room in
      let size : length (take n body) ≡ n = omega (arith, length-take n body) in
      let s =
        append-IsSending m c1 opcode data' [] [] (take n body) (new_writer opcode) c1 start
          (All-take IsByte n body bytes) (unfold payload_room in ground arith) in
      let w = record (new_writer opcode) { pos = 14 + n } in
      let c3 : Conn = record c1 { write_buf = copy_at 14 body c.write_buf } in
      let s' : IsSending c1 opcode [] (take n body) w c3 =
        subst
          (λ (t : ℕ × List ℕ).
            IsSending c1 opcode [] (take n body) (record (new_writer opcode) { pos = 14 + t.0 })
              (record c1 { write_buf = t.1 }))
          (λ i. (size i, sym (copy_at-take 14 body c.write_buf) i)) s in
      let joined : take n body ++ drop n body ≡ body = take-append-drop n body in
      let no_mask : masks c1 ≡ false = unfold masks in rw server in
      let f =
        flush-Finished m c1 opcode [] (take n body) (drop n body) w c3 data' idle.no_pool s'
          (λ e. cc) (All-drop IsByte n body bytes) (rw joined capped) in
      rw (write_whole_eq opcode body c idle data')
        (delivered opcode body (take n body ++ drop n body) c c.writer [] _ idle tt joined f)
