-- ===== src/Conn/InFrames.antt =====
-- WriteMessage's slow path: NextWriter, one Write and Close send one whole message.
use magilla.Base.{
  ℕ, ◌*◌, ◌≡◌, refl, ap, ◌∙◌, arith, Bool, true, false, not, ◌&&◌, ◌||◌, List, [], ◌++◌, Option,
  none, some,
}
use magilla.Base.{Bool-cases, inl, inr, ltb, leb, ◌==◌, length, append-nil, All, IsByte}
use magilla.Opcode
use magilla.Errors.{is_data}
use magilla.Errors.Error.{write_timeout}
use magilla.Utf8.{dfa_validate, accept}
use magilla.Conn.{Machine, Conn, Utf8Writer, Pipeline}
use magilla.Conn.Write.{masks}
use magilla.Conn.Message.{Wrote, flush_frame, copy_loop, message_write, message_close}
use magilla.Conn.Send.{
  returned, with_pipeline, write_checked, close_written, on_lock, open_writer, begin_message,
  new_writer, new_pipeline, next_writer, write_in_frames, write_and_close, validate_slice, feed,
  is_whole, passes, pipeline_write, pipeline_close,
}
use magilla.Conn.Fragments.{copy_loop-Copied}
use magilla.Conn.Final.{flush-Finished}
use magilla.Conn.Deliver.{
  IsIdle, IsDelivered, busy, busy-IsLive, acquire_idle, begin_idle, delivered, feed-accepts,
  start-IsSending, writer-IsSending,
}
use magilla.Frame.Message.{payloads}

-- Text that the validator must accept.
abbrev pub is_checked : ℕ → Conn → Bool
is_checked opcode c = opcode == Opcode.text && not c.skip_utf8_validation

module _ (m : Machine) where
  next_writer_idle :
      (opcode : ℕ) (c : Conn)
      → IsIdle c
      → is_data opcode ≡ true
      → let p = new_pipeline m opcode (busy c.writer c) in
        next_writer m opcode c ≡ returned (inr p) (busy (some p) c)
  unfolding next_writer open_writer
  next_writer_idle opcode c idle data' =
      ap
        (λ a.
          on_lock a (returned (inl write_timeout) c)
            (λ c1. open_writer m opcode (begin_message m opcode c1)))
        (acquire_idle m c idle.no_deadline idle.unlocked)
      ∙ ap (open_writer m opcode)
          (begin_idle m opcode (busy c.writer c) data' idle.no_writer idle.live.unbroken idle.room)

  -- A text in one slice passes the validator, and ends a code point.
  record Passing (body : List ℕ) (u : Option Utf8Writer) : Type 0 where
    below : Option Utf8Writer
    passing : validate_slice body u ≡ passes below
    ended : is_whole m below ≡ true

  pipeline-Passing :
      (opcode : ℕ) (body : List ℕ) (c : Conn)
      → (is_checked opcode c ≡ true → dfa_validate body ≡ accept)
      → Passing body (new_pipeline m opcode c).utf8
  unfolding new_pipeline validate_slice is_whole dfa_validate
  pipeline-Passing opcode body c valid = elim (Bool-cases (is_checked opcode c)) [
    | inr free ↦ rw free (record { below = none; passing = refl; ended = refl })
    | inl checked ↦
        let (good, last) = feed-accepts 0 0 0 body (valid checked) in
        let f = feed 0 0 0 body in
        rw checked (record {
          below = some (record { state = f.state; codepoint = f.codepoint; failed = false });
          passing = rw good refl;
          ended = rw last refl;
        })
  ]

  -- A slice that is not sent at once goes through the copying loop.
  write_by_loop :
      (body : List ℕ) (opcode : ℕ) (c : Conn)
      → c.is_server && (c.write_frame_size == 0 || leb (length body) c.write_frame_size) ≡ false
      → message_write m body (new_writer opcode) c
        ≡ copy_loop m (length body) body (new_writer opcode) c
  unfolding message_write
  write_by_loop body opcode c slow =
      elim (Bool-cases (ltb (2 * length c.write_buf) (length body))) [
        | inl long ↦ rw (long, slow) refl
        | inr short ↦ rw short refl
      ]

  -- Writing and closing, once the loop has run.
  write_and_close_eq :
      (body : List ℕ) (p : Pipeline) (c : Conn) (u : Option Utf8Writer) (r : Wrote)
      → validate_slice body p.utf8 ≡ passes u
      → is_whole m u ≡ true
      → message_write m body p.message c ≡ some r
      → r.err ≡ none
      → r.writer.err ≡ none
      → r.conn.writer ≡ some p
      → let p' : Pipeline = record { message = r.writer; utf8 = u } in
        let f = flush_frame m true [] r.writer (record r.conn { writer = some p' }) in
        write_and_close m body (returned (inr p) c) ≡ returned f.err f.conn
  unfolding write_and_close close_written write_checked pipeline_write pipeline_close message_close
  write_and_close_eq body p c u r passing whole runs no_error open' here =
      ap (λ t. close_written m t)
        (ap (λ v. write_checked m body p c v) passing
          ∙ ap (λ o. with_pipeline (length body) u o) runs)
      ∙ rw (no_error, here, open', whole) refl

  pub write_in_frames-IsDelivered :
      (opcode : ℕ) (body : List ℕ) (c : Conn)
      → IsIdle c
      → is_data opcode ≡ true
      → All IsByte body
      → (is_checked opcode c ≡ true → dfa_validate body ≡ accept)
      → c.is_server && (c.write_frame_size == 0 || leb (length body) c.write_frame_size) ≡ false
      → IsDelivered opcode body c (write_in_frames m opcode body c)
  unfolding write_in_frames masks new_pipeline
  write_in_frames-IsDelivered opcode body c idle data' bytes valid slow =
      let p = new_pipeline m opcode (busy c.writer c) in
      let c1 = busy (some p) c in
      let v = pipeline-Passing opcode body (busy c.writer c) valid in
      let start = start-IsSending opcode c1 (busy-IsLive m (some p) c idle.live) idle.room in
      let (r, runs, done) =
        copy_loop-Copied m c1 opcode data' (length body) body [] [] (new_writer opcode) c1
          (omega arith) start bytes idle.room in
      let p' : Pipeline = record { message = r.writer; utf8 = v.below } in
      let s =
        writer-IsSending c1 r.conn (some p') opcode done.sent done.waiting r.writer done.sending in
      let here : r.conn.writer ≡ some p = ap (λ (t : Conn). t.writer) done.sending.shape in
      let f =
        flush-Finished m (busy (some p') c) opcode done.sent done.waiting [] r.writer
          (record r.conn { writer = some p' }) data' idle.no_pool s (λ e. refl) tt
          (rw (append-nil done.waiting) done.sending.pending_capped) in
      let whole : payloads done.sent ++ (done.waiting ++ []) ≡ body =
        ap (λ t. payloads done.sent ++ t) (append-nil done.waiting) ∙ done.all_there in
      rw
        (
          next_writer_idle opcode c idle data',
          write_and_close_eq body p c1 v.below r v.passing v.ended
              (write_by_loop body opcode c1 slow ∙ runs) done.no_error done.sending.open_writer
              here,
        )
        (delivered m opcode body (done.waiting ++ []) c (some p') done.sent _ idle
          done.sending.fragments whole f)
