-- ===== src/Conn/SameDeadline.antt =====
-- WriteMessage and the writers under it leave the write deadline as it is.
use magilla.Base.{
  ℕ, zero, suc, ◌≡◌, refl, arith, Bool, true, false, not, ◌&&◌, ◌⊎◌, List, [], ◌∷◌, Option, none,
  some, length, take, drop, ◌*◌, ltb, leb, ◌||◌,
}
use magilla.Base.{Bool-cases, Option-cases, inl, inr, ◌==◌}
use magilla.Errors.{Error}
use magilla.Errors.Error.{invalid_utf8}
use magilla.Utf8.{dfa_validate, accept}
use magilla.Conn.InFrames.{is_checked}
use magilla.Conn.WholeMessage.{is_whole_frame}
use magilla.Conn.{Machine, Conn, MessageWriter, Pipeline, Utf8Writer}
use magilla.Conn.Write.{write, write_fatal, written}
use magilla.Conn.Message.{
  Wrote, flush_frame, after_write, end_message, put_back, release_write_mu, message_close,
  message_write, copy_loop, ncopy, append_bytes,
}
use magilla.Conn.Send.{
  Outcome, returned, blocked, stuck, taken, timed_out, waits, begin_message, next_writer,
  write_message, acquire_write_mu, Acquired, on_lock, open_writer, write_and_close, write_one_frame,
  write_whole, write_in_frames, pipeline_close, pipeline_write, write_checked, close_written,
  get_buffer, Verdict, passes, refuses, validate_slice, with_pipeline, Piped,
}

module _ (m : Machine) (d : Option ℕ) where
  abbrev Keeps : Conn → Type 0
  Keeps c = c.write_deadline ≡ d

  end_message-Keeps :
      (old : Error) (w : MessageWriter) (c : Conn) → Keeps c → Keeps ((end_message old w c).conn)
  unfolding end_message put_back release_write_mu
  end_message-Keeps old w c h = ground (arith, h)

  write-Keeps : (t : ℕ) (buf extra : List ℕ) (c : Conn) → Keeps c → Keeps ((write t buf extra c).1)
  unfolding write written write_fatal
  write-Keeps t buf extra c h = ground (arith, h)

  after_write-Keeps :
      (final : Bool) (w : MessageWriter) (r : Option Error × Conn)
      → Keeps r.1
      → Keeps ((after_write m final w r).conn)
  unfolding after_write
  after_write-Keeps true w (none, c) h = end_message-Keeps _ w c h
  after_write-Keeps false w (none, c) h = h
  after_write-Keeps final w (some e, c) h = end_message-Keeps e w c h

  flush_frame-Keeps :
      (final : Bool) (extra : List ℕ) (w : MessageWriter) (c : Conn)
      → Keeps c
      → Keeps ((flush_frame m final extra w c).conn)
  unfolding flush_frame after_write write written write_fatal end_message put_back release_write_mu
  flush_frame-Keeps final extra w c h = ground (arith, h)

  ncopy-Keeps : (n : ℕ) (w : MessageWriter) (c : Conn) → Keeps c → Keeps ((ncopy m n w c).1.conn)
  unfolding ncopy
  ncopy-Keeps n w c h = ground (arith, h, flush_frame-Keeps false [] w c h)

  -- The connection of a result that there is.
  abbrev KeepsWrote : Option Wrote → Type 0
  KeepsWrote none = Unit
  KeepsWrote (some r) = Keeps r.conn

  copy_loop-Keeps :
      (fuel : ℕ) (p : List ℕ) (w : MessageWriter) (c : Conn)
      → Keeps c
      → KeepsWrote (copy_loop m fuel p w c)
  unfolding copy_loop append_bytes
  copy_loop-Keeps fuel [] w c h = h
  copy_loop-Keeps zero (b ∷ p) w c h = tt
  copy_loop-Keeps (suc fuel) (b ∷ p) w c h =
      go (ncopy m (length (b ∷ p)) w c) (ncopy-Keeps (length (b ∷ p)) w c h)
        (λ q w' c' h'. copy_loop-Keeps fuel q w' c' h')
    where
      go :
          (o : ℕ × Wrote)
          → Keeps o.1.conn
          → ((q : List ℕ) (w' : MessageWriter) (c' : Conn)
              → Keeps c'
              → KeepsWrote (copy_loop m fuel q w' c'))
          → KeepsWrote (elim o.1.err as (λ _. Option Wrote) [
            | some e ↦ some o.1
            | none ↦
                let (w', c') = append_bytes m (take o.0 (b ∷ p)) o.1.writer o.1.conn in
                copy_loop m fuel (drop o.0 (b ∷ p)) w' c'
          ])
      go o k again = elim (Option-cases o.1.err) [
        | inl fine ↦ rw fine (again _ _ _ k)
        | inr (e, bad) ↦ rw bad k
      ]

  -- Whether a server sends the slice at once.
  abbrev is_large : List ℕ → Conn → Bool
  is_large p c =
      ltb (2 * length c.write_buf) (length p)
      && c.is_server
      && (c.write_frame_size == 0 || leb (length p) c.write_frame_size)

  message_write-Keeps :
      (p : List ℕ) (w : MessageWriter) (c : Conn) → Keeps c → KeepsWrote (message_write m p w c)
  unfolding message_write
  message_write-Keeps p w c h =
      let w' : MessageWriter = record w { err = none } in
      let loop = copy_loop-Keeps (length p) p w' c h in
      let whole = flush_frame-Keeps false p w' c h in
      elim (Option-cases w.err) [
        | inr (e, bad) ↦ rw bad h
        | inl fine ↦
            rw fine (elim (Bool-cases (is_large p c)) [
              | inl one ↦ rw one whole
              | inr many ↦ rw many loop
            ])
      ]

  -- The connection of a Write on what NextWriter returned.
  abbrev KeepsPiped : Option Piped → Type 0
  KeepsPiped none = Unit
  KeepsPiped (some r) = Keeps r.conn

  with_pipeline-Keeps :
      (n : ℕ) (u : Option Utf8Writer) (o : Option Wrote)
      → KeepsWrote o
      → KeepsPiped (with_pipeline n u o)
  with_pipeline-Keeps n u none h = tt
  with_pipeline-Keeps n u (some r) h = ground (arith, h)

  write_checked-Keeps :
      (body : List ℕ) (p : Pipeline) (c : Conn) (v : Verdict)
      → Keeps c
      → KeepsPiped (write_checked m body p c v)
  unfolding write_checked
  write_checked-Keeps body p c (refuses n u) h = ground (arith, h)
  write_checked-Keeps body p c (passes u) h =
      with_pipeline-Keeps (length body) u _ (message_write-Keeps body p.message c h)

  pipeline_close-Keeps : (p : Pipeline) (c : Conn) → Keeps c → Keeps ((pipeline_close m p c).1)
  unfolding pipeline_close message_close
  pipeline_close-Keeps p c h = ground (arith, h, flush_frame-Keeps true [] p.message c h)

  begin_message-Keeps : (t : ℕ) (c : Conn) → Keeps c → Keeps ((begin_message m t c).1)
  unfolding begin_message get_buffer
  begin_message-Keeps t c h = elim (Option-cases c.writer) [
    | inl idle ↦ rw idle (ground (arith, h))
    | inr (p, busy) ↦ rw busy (let q = pipeline_close-Keeps p c h in ground (arith, q))
  ]

  -- The connection that a call returned; only without a deadline can it wait for ever.
  abbrev pub KeepsOutcome : {A : Type 0} → Outcome A → Type 0
  KeepsOutcome (returned a c) = Keeps c
  KeepsOutcome blocked = d ≡ none
  KeepsOutcome stuck = Unit

  open_writer-Keeps :
      (t : ℕ) (r : Option Error × Conn) → Keeps r.1 → KeepsOutcome (open_writer m t r)
  unfolding open_writer release_write_mu
  open_writer-Keeps t (some e, c) h = h
  open_writer-Keeps t (none, c) h = h

  write_one_frame-Keeps :
      (t : ℕ) (body : List ℕ) (r : Option Error × Conn)
      → Keeps r.1
      → KeepsOutcome (write_one_frame m t body r)
  unfolding write_one_frame release_write_mu
  write_one_frame-Keeps t body (some e, c) h = h
  write_one_frame-Keeps t body (none, c) h = flush_frame-Keeps true _ _ _ h

  close_written-Keeps : (o : Option Piped) → KeepsPiped o → KeepsOutcome (close_written m o)
  unfolding close_written
  close_written-Keeps none h = tt
  close_written-Keeps (some r) h = elim (Option-cases r.err) [
    | inl fine ↦ rw fine (pipeline_close-Keeps r.pipeline r.conn h)
    | inr (e, bad) ↦ rw bad h
  ]

  write_and_close-Keeps :
      (body : List ℕ) (o : Outcome (Error ⊎ Pipeline))
      → KeepsOutcome o
      → KeepsOutcome (write_and_close m body o)
  unfolding write_and_close pipeline_write
  write_and_close-Keeps body (returned (inl e) c) h = h
  write_and_close-Keeps body (returned (inr p) c) h =
      close_written-Keeps _ (write_checked-Keeps body p c (validate_slice body p.utf8) h)
  write_and_close-Keeps body blocked h = h
  write_and_close-Keeps body stuck h = tt

  on_lock-Keeps :
      {A : Type 0} (a : Acquired) (c : Conn) (late : Outcome A) (f : Conn → Outcome A)
      → a ≡ acquire_write_mu c.write_deadline c
      → Keeps c
      → KeepsOutcome late
      → ((c' : Conn) → Keeps c' → KeepsOutcome (f c'))
      → KeepsOutcome (on_lock a late f)
  unfolding acquire_write_mu
  on_lock-Keeps waits c late f e h l k = ground (arith, e, h)
  on_lock-Keeps timed_out c late f e h l k = l
  on_lock-Keeps (taken c') c late f e h l k = k c' (ground (arith, e, h))

  pub next_writer-Keeps : (t : ℕ) (c : Conn) → Keeps c → KeepsOutcome (next_writer m t c)
  unfolding next_writer
  next_writer-Keeps t c h =
      on_lock-Keeps _ c _ _ refl h h
        (λ c' h'. open_writer-Keeps t (begin_message m t c') (begin_message-Keeps t c' h'))

  pub write_message-Keeps :
      (t : ℕ) (body : List ℕ) (c : Conn) → Keeps c → KeepsOutcome (write_message m t body c)
  unfolding write_message write_whole write_in_frames
  write_message-Keeps t body c h =
      let whole : KeepsOutcome (write_whole m t body c) = on_lock-Keeps _ c _ _ refl h h (λ c' h'.
        write_one_frame-Keeps t body (begin_message m t c') (begin_message-Keeps t c' h')) in
      let frames : KeepsOutcome (write_in_frames m t body c) =
        write_and_close-Keeps body (next_writer m t c) (next_writer-Keeps t c h) in
      let refused : KeepsOutcome (returned (some invalid_utf8) c) = h in
      elim (Bool-cases (is_checked t c && not (dfa_validate body == accept))) [
        | inl bad ↦ rw bad refused
        | inr good ↦ rw good (elim (Bool-cases (is_whole_frame m c body)) [
          | inl one ↦ rw one whole
          | inr many ↦ rw many frames
        ])
      ]
