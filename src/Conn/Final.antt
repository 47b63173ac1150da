-- ===== src/Conn/Final.antt =====
-- The final frame of a message: it ends the message, and gives the write lock back.
use magilla.Base.{
  ℕ, ◌≤◌, ◌<◌, ◌≡◌, refl, ap, sym, ◌∙◌, arith, true, false, List, [], ◌∷◌, ◌++◌, Option, none, some,
}
use magilla.Base.{if◌then◌else◌, ◌==◌, length, All, IsByte, All-append}
use mathlib.Core.Path.{subst}
use magilla.Opcode
use magilla.Errors.{Error, is_data, is_control}
use magilla.Errors.Error.{write_closed, close_sent}
use magilla.Conn.{Machine, Conn, MessageWriter}
use magilla.Conn.Write.{masks}
use magilla.Conn.Message.{Wrote, flush_frame, after_write, end_message, put_back, release_write_mu}
use magilla.Conn.Flush.{Flushing, flushing, frame_of}
use magilla.Conn.Sending.{
  IsSending, IsLive, moved, after, write_live, masks-moved, data_type, shape-frame, frame_of-HasKey,
}
use magilla.Frame.{Frame, wire, wire_all}
use magilla.Frame.Message.{HasKey, IsFragment, next_opcode}

-- The connection once a message has ended.
abbrev pub ended : Conn → Conn
ended c = record c { writer = none; write_mu = true }

end_live :
    (e : Error) (w : MessageWriter) (c : Conn)
    → w.err ≡ none
    → c.write_pool ≡ none
    → end_message e w c
      ≡ record { err = some e; writer = record w { err = some e }; conn = ended c }
unfolding end_message put_back release_write_mu
end_live e w c open_writer no_pool = ground arith

module _ (m : Machine) where
  flush_final :
      (pending extra : List ℕ) (w : MessageWriter) (c : Conn)
      → IsLive c
      → is_control w.frame_type ≡ false
      → w.err ≡ none
      → c.write_pool ≡ none
      → (f : Flushing m true pending extra w c)
      → flush_frame m true extra w c ≡ record {
        err = none;
        writer = record w { compress = false; err = some write_closed };
        conn = ended (
            moved
              (c.net.sent ++ wire (frame_of true pending extra w c))
              (f.front ++ f.back)
              f.rand
              c);
      }
  unfolding after_write is_control
  flush_final pending extra w c live kind open_writer no_pool f =
      let c1 : Conn = record c { write_buf = f.front ++ f.back; rand = f.rand } in
      f.result
      ∙ ap (after_write m true (record w { compress = false }))
          (write_live w.frame_type f.bytes extra c1 live.unbroken live.accepting)
      ∙ ap (λ (r : Wrote). record r { err = none })
          (end_live write_closed (record w { compress = false })
            (after w.frame_type (f.bytes ++ extra) c1) open_writer no_pool)
      ∙ ap {A = List ℕ × Option Error} {B = Wrote}
          (λ t. record {
            err = none;
            writer = record w { compress = false; err = some write_closed };
            conn = record c {
              net = record { sent = c.net.sent ++ t.0; answers = [] };
              write_buf = f.front ++ f.back;
              rand = f.rand;
              write_err = t.1;
              writer = none;
              write_mu = true;
            };
          })
          (λ i. (f.layout i, no_close i))
    where
      no_close : (if w.frame_type == Opcode.close then some close_sent else none) ≡ c.write_err
      no_close = ground (arith, live.unbroken)

  -- The last frame of a message of type `opcode`, of which `out` went before since `c0`.
  pub record Finished (c0 : Conn) (opcode : ℕ) (out : List Frame) (payload : List ℕ) (r : Wrote)
      : Type 0 where
    pub last : Frame
    pub no_error : r.err ≡ none
    pub final : IsFragment (masks c0) c0.write_frame_size true (next_opcode opcode out) last
    pub content : last.payload ≡ payload
    pub buf : List ℕ
    pub rand : List ℕ
    pub buffer_size : length buf ≡ length c0.write_buf
    pub random : All IsByte rand
    pub shape : r.conn ≡ ended (moved (c0.net.sent ++ wire_all (out ++ last ∷ [])) buf rand c0)

  pub flush-Finished :
      (c0 : Conn) (opcode : ℕ) (out : List Frame) (pending extra : List ℕ) (w : MessageWriter)
      (c : Conn)
      → is_data opcode ≡ true
      → c0.write_pool ≡ none
      → IsSending c0 opcode out pending w c
      → (masks c0 ≡ true → extra ≡ [])
      → All IsByte extra
      → (0 < c0.write_frame_size → length (pending ++ extra) ≤ c0.write_frame_size)
      → Finished c0 opcode out (pending ++ extra) (flush_frame m true extra w c)
  flush-Finished c0 opcode out pending extra w c data' no_pool s buffered be capped =
      let same = masks-moved m c c0 _ _ _ s.shape in
      let kind = data_type m opcode out data' in
      let control : is_control w.frame_type ≡ false = ap is_control s.type ∙ kind.1 in
      let small : w.frame_type < 16 = rw s.type kind.0 in
      let F =
        flushing m true pending extra w c s.holding small (rw control)
          (λ e. buffered (sym same ∙ e)) s.pending_bytes s.live.random in
      let f = frame_of true pending extra w c in
      let pool : c.write_pool ≡ none = ap (λ (t : Conn). t.write_pool) s.shape ∙ no_pool in
      rw (flush_final pending extra w c s.live control s.open_writer pool F) (record {
        last = f;
        no_error = refl;
        final = record {
          final_bit = refl;
          plain = s.uncompressed;
          type = s.type;
          has_key =
              subst (λ b. HasKey b f.key) same
                (frame_of-HasKey m true pending extra w c s.live.random);
          bytes = All-append IsByte pending extra s.pending_bytes be;
          capped = capped;
        };
        content = refl;
        buf = F.front ++ F.back;
        rand = F.rand;
        buffer_size = F.buffer_size ∙ s.buffer_size;
        random = F.random s.live.random;
        shape = ap ended (shape-frame m c c0 out f _ _ s.shape);
      })
