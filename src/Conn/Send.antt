-- ===== src/Conn/Send.antt =====
-- The public write methods of conn.go over the messageWriter: the outer mutex, the validator of
-- text messages, NextWriter and WriteMessage. No compression was negotiated.
use magilla.Base.{ℕ, ◌+◌, ◌-◌, Bool, true, false, not, ◌&&◌, ◌||◌}
use magilla.Base.{List, [], ◌∷◌, Option, none, some, length, drop, replicate, min}
use magilla.Base.{leb, ◌==◌, if◌then◌else◌, ◌⊎◌, inl, inr}
use magilla.Opcode
use magilla.Errors.{Error, is_control, is_data}
use magilla.Errors.Error.{write_timeout, bad_write_op_code, invalid_utf8}
use magilla.Utf8.{dfa_step, dfa_validate, accept, reject}
use magilla.Conn.{Machine, Conn, MessageWriter, Utf8Writer, Pipeline}
use magilla.Conn.Write.{max_frame_header_size, copy_at}
use magilla.Conn.Message.{Wrote, flush_frame, message_write, message_close, release_write_mu}

-- How a call ends: it returns, it waits for a lock that nobody will release, or the copying loop
-- makes no progress.
pub data Outcome (A : Type 0) : Type 0 where
  returned : A → Conn → Outcome A
  blocked stuck : Outcome A

-- Conn.acquireWriteMu: `timed_out` is errWriteTimeout.
pub data Acquired : Type 0 where
  taken : Conn → Acquired
  timed_out waits : Acquired

unfoldable pub acquire_write_mu : Option ℕ → Conn → Acquired
acquire_write_mu none c = if c.write_mu then taken (record c { write_mu = false }) else waits
acquire_write_mu (some t) c =
    if leb t c.now
    then timed_out
    else if c.write_mu
    then taken (record c { write_mu = false })
    else timed_out

-- What a method that takes the lock does with it, and what it returns when it was too late.
abbrev pub on_lock : {A : Type 0} → Acquired → Outcome A → (Conn → Outcome A) → Outcome A
on_lock waits late f = blocked
on_lock timed_out late f = late
on_lock (taken c) late f = f c

-- The validator's loop over a slice: its state and code point, and the index of a byte that
-- makes it reject.
pub record Fed : Type 0 where
  pub state : ℕ
  pub codepoint : ℕ
  pub bad : Option ℕ

unfoldable pub feed : ℕ → ℕ → ℕ → List ℕ → Fed
feed i state codepoint [] = record { state = state; codepoint = codepoint; bad = none }
feed i state codepoint (b ∷ p) =
    let (state', codepoint') = dfa_step state codepoint b in
    let rest = feed (i + 1) state' codepoint' p in
    if state' == reject
    then record { state = state'; codepoint = codepoint'; bad = some i }
    else rest

-- What a Write returns, with the pipeline after it.
pub record Piped : Type 0 where
  pub count : ℕ
  pub err : Option Error
  pub pipeline : Pipeline
  pub conn : Conn

-- `c.writer` is the same object, as long as the message has not ended.
abbrev pub sync : Pipeline → Conn → Conn
sync p c = elim c.writer [ none ↦ c | some old ↦ record c { writer = some p } ]

abbrev pub piped : ℕ → Option Utf8Writer → Wrote → Piped
piped n u r =
    let p : Pipeline = record { message = r.writer; utf8 = u } in
    record {
      count = elim r.err [ none ↦ n | some e ↦ 0 ];
      err = r.err;
      pipeline = p;
      conn = sync p r.conn;
    }

abbrev pub refused : ℕ → Utf8Writer → Pipeline → Conn → Piped
refused n u p c =
    let p' : Pipeline = record p { utf8 = some u } in
    record { count = n; err = some invalid_utf8; pipeline = p'; conn = sync p' c }

-- The validator's verdict on a slice, before the writer below sees it.
pub data Verdict : Type 0 where
  passes : Option Utf8Writer → Verdict
  refuses : ℕ → Utf8Writer → Verdict

unfoldable pub validate_slice : List ℕ → Option Utf8Writer → Verdict
unfolding feed
validate_slice b none = passes none
validate_slice b (some u) =
    if u.failed
    then refuses 0 u
    else (let f = feed 0 u.state u.codepoint b in
        elim f.bad [
          | some i ↦ refuses i (record { state = f.state; codepoint = f.codepoint; failed = true })
          | none ↦
              passes (some (record { state = f.state; codepoint = f.codepoint; failed = false }))
        ])

-- `c.writeBuf` of a new message: its own, one from the pool, or a new one.
unfoldable pub get_buffer : Conn → Conn
get_buffer c = elim c.write_buf [
  | x ∷ buf ↦ c
  | [] ↦ elim c.write_pool [
    | some (b ∷ bufs) ↦ record c { write_buf = b; write_pool = some bufs }
    | other ↦ record c { write_buf = replicate c.write_buf_size 0 }
  ]
]

abbrev pub new_writer : ℕ → MessageWriter
new_writer message_type = record {
  compress = false;
  pos = max_frame_header_size;
  frame_type = message_type;
  err = none;
}

abbrev pub with_pipeline : ℕ → Option Utf8Writer → Option Wrote → Option Piped
with_pipeline n u none = none
with_pipeline n u (some r) = some (piped n u r)

module _ (m : Machine) where
  -- The write below the validator, if the slice passed.
  unfoldable pub write_checked : List ℕ → Pipeline → Conn → Verdict → Option Piped
  write_checked b p c (refuses n u) = some (refused n u p c)
  write_checked b p c (passes u) = with_pipeline (length b) u (message_write m b p.message c)

  -- Write on what NextWriter returned: utf8ValidatingWriter.Write, or messageWriter.Write.
  unfoldable pub pipeline_write : List ℕ → Pipeline → Conn → Option Piped
  pipeline_write b p c = write_checked b p c (validate_slice b p.utf8)

  -- Does utf8ValidatingWriter.Close find the text whole?
  unfoldable pub is_whole : Option Utf8Writer → Bool
  is_whole none = true
  is_whole (some u) = not u.failed && u.state == accept

  -- Close on what NextWriter returned.
  unfoldable pub pipeline_close : Pipeline → Conn → Option Error × Conn
  pipeline_close p c =
      let r = message_close m p.message c in
      (if is_whole p.utf8 then r.err else some invalid_utf8, r.conn)

  -- Conn.beginMessage: an error, or the connection ready for a new messageWriter.
  unfoldable pub begin_message : ℕ → Conn → Option Error × Conn
  begin_message message_type c =
      let c' : Conn = elim c.writer [
        | none ↦ c
        | some p ↦ record ((pipeline_close p c).1) { writer = none }
      ] in
      if not (is_control message_type) && not (is_data message_type)
      then (some bad_write_op_code, c')
      else elim c'.write_err [ some e ↦ (some e, c') | none ↦ (none, get_buffer c') ]

  -- The pipeline of a new message.
  unfoldable pub new_pipeline : ℕ → Conn → Pipeline
  new_pipeline message_type c = record {
    message = new_writer message_type;
    utf8 =
        if message_type == Opcode.text && not c.skip_utf8_validation
        then some (record { state = 0; codepoint = 0; failed = false })
        else none;
  }

  -- NextWriter after beginMessage.
  unfoldable pub open_writer : ℕ → Option Error × Conn → Outcome (Error ⊎ Pipeline)
  open_writer message_type (some e, c) = returned (inl e) (release_write_mu c)
  open_writer message_type (none, c) =
      let p = new_pipeline message_type c in returned (inr p) (record c { writer = some p })

  -- Conn.NextWriter
  unfoldable pub next_writer : ℕ → Conn → Outcome (Error ⊎ Pipeline)
  next_writer message_type c =
      on_lock (acquire_write_mu c.write_deadline c) (returned (inl write_timeout) c)
        (λ c1. open_writer message_type (begin_message message_type c1))

  -- The single frame of WriteMessage's fast path, after beginMessage.
  unfoldable pub write_one_frame : ℕ → List ℕ → Option Error × Conn → Outcome (Option Error)
  write_one_frame message_type body (some e, c) = returned (some e) (release_write_mu c)
  write_one_frame message_type body (none, c) =
      let n = min (length c.write_buf - max_frame_header_size) (length body) in
      let c' : Conn = record c { write_buf = copy_at max_frame_header_size body c.write_buf } in
      let w = record (new_writer message_type) { pos = max_frame_header_size + n } in
      let r = flush_frame m true (drop n body) w c' in returned r.err r.conn

  -- The fast path of WriteMessage.
  unfoldable pub write_whole : ℕ → List ℕ → Conn → Outcome (Option Error)
  write_whole message_type body c =
      on_lock (acquire_write_mu c.write_deadline c) (returned (some write_timeout) c)
        (λ c1. write_one_frame message_type body (begin_message message_type c1))

  -- The close that follows a write without error.
  unfoldable pub close_written : Option Piped → Outcome (Option Error)
  close_written none = stuck
  close_written (some r) = elim r.err [
    | some e ↦ returned (some e) r.conn
    | none ↦ let (e, c') = pipeline_close r.pipeline r.conn in returned e c'
  ]

  -- The write and the close of WriteMessage's slow path.
  unfoldable pub write_and_close : List ℕ → Outcome (Error ⊎ Pipeline) → Outcome (Option Error)
  write_and_close body blocked = blocked
  write_and_close body stuck = stuck
  write_and_close body (returned (inl e) c) = returned (some e) c
  write_and_close body (returned (inr p) c) = close_written (pipeline_write body p c)

  -- The slow path of WriteMessage.
  unfoldable pub write_in_frames : ℕ → List ℕ → Conn → Outcome (Option Error)
  write_in_frames message_type body c = write_and_close body (next_writer message_type c)

  -- Conn.WriteMessage
  unfoldable pub write_message : ℕ → List ℕ → Conn → Outcome (Option Error)
  write_message message_type body c =
      if message_type == Opcode.text
        && not c.skip_utf8_validation
        && not (dfa_validate body == accept)
      then returned (some invalid_utf8) c
      else if c.is_server && (c.write_frame_size == 0 || leb (length body) c.write_frame_size)
      then write_whole message_type body c
      else write_in_frames message_type body c
