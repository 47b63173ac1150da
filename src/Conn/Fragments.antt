-- ===== src/Conn/Fragments.antt =====
-- messageWriter.Write on a live connection: all bytes are sent or buffered, in frames within the cap.
use magilla.Base.{
  ℕ, zero, suc, ◌+◌, ◌≤◌, ◌<◌, ◌≡◌, refl, ap, sym, ◌∙◌, arith, true, false, List, [], ◌∷◌, ◌++◌,
  none, some,
}
use magilla.Base.{
  Bool-cases, inl, inr, ◌==◌, length, length-append, append_assoc, append-nil, All, IsByte,
  All-append, All-drop, take, drop, All-take, take-append-drop, length-take, length-drop,
}
use magilla.Errors.{is_data}
use magilla.Conn.{Machine, Conn, MessageWriter}
use magilla.Conn.Write.{copy_at}
use magilla.Conn.Message.{Wrote, flush_frame, payload_room, ncopy, append_bytes, copy_loop}
use magilla.Conn.Buffer.{copy_behind, length-copy_at}
use magilla.Conn.Flush.{IsHolding, frame_of}
use magilla.Conn.Sending.{IsSending, flush-IsSending}
use magilla.Frame.{Frame}
use magilla.Frame.Message.{payloads, payloads-snoc}

-- Bytes put behind those that wait.
holding_more :
    (pending p : List ℕ) (w : MessageWriter) (c : Conn)
    → IsHolding pending w c
    → w.pos + length p ≤ length c.write_buf
    → (back' : List ℕ) × (h : List ℕ) × (copy_at w.pos p c.write_buf
        ≡ h ++ ((pending ++ p) ++ back'))
      × (length h ≡ 14)
holding_more pending p w c h fits =
    let n = length p in
    let tk = take n h.back in
    let dr = drop n h.back in
    let total : length c.write_buf ≡ length h.front + (length pending + length h.back) =
      ap length h.buffer
      ∙ length-append h.front (pending ++ h.back)
      ∙ ap (λ t. length h.front + t) (length-append pending h.back) in
    let cut : length p ≡ length tk =
      omega (arith, length-take n h.back, total, h.end, h.front_size, fits) in
    let at : length (h.front ++ pending) ≡ w.pos =
      omega (arith, length-append h.front pending, h.end, h.front_size) in
    let split : c.write_buf ≡ (h.front ++ pending) ++ (tk ++ dr) =
      h.buffer
      ∙ sym (append_assoc h.front pending h.back)
      ∙ ap (λ t. (h.front ++ pending) ++ t) (sym (take-append-drop n h.back)) in
    (
      dr,
      h.front,
      ap (copy_at w.pos p) split
          ∙ copy_behind w.pos (h.front ++ pending) p tk dr at cut
          ∙ append_assoc h.front pending (p ++ dr)
          ∙ ap (λ t. h.front ++ t) (sym (append_assoc pending p dr)),
      h.front_size,
    )

pub holding-inside :
    (pending : List ℕ) (w : MessageWriter) (c : Conn)
    → IsHolding pending w c
    → w.pos ≤ length c.write_buf
holding-inside pending w c h = omega (
  arith,
  ap length h.buffer,
  length-append h.front (pending ++ h.back),
  length-append pending h.back,
)

module _ (m : Machine) where
  -- The room in the frame respects the buffer and the cap.
  room-bounds :
      (n : ℕ) (pending : List ℕ) (w : MessageWriter) (c : Conn)
      → IsHolding pending w c
      → w.pos ≤ length c.write_buf
      → (0 < c.write_frame_size → length pending ≤ c.write_frame_size)
      → n ≤ payload_room m w c
      → (w.pos + n ≤ length c.write_buf)
        × (0 < c.write_frame_size → length pending + n ≤ c.write_frame_size)
  unfolding payload_room
  room-bounds n pending w c h inside capped le = (ground arith, λ z. ground arith)

  -- An empty frame has room.
  room-pos :
      (w : MessageWriter) (c : Conn) → w.pos ≡ 14 → 14 < length c.write_buf → 0 < payload_room m w c
  unfolding payload_room
  room-pos w c e h = ground arith

  module _ (c0 : Conn) (opcode : ℕ) (data' : is_data opcode ≡ true) where
    pub append-IsSending :
        (out : List Frame) (pending p : List ℕ) (w : MessageWriter) (c : Conn)
        → IsSending c0 opcode out pending w c
        → All IsByte p
        → length p ≤ payload_room m w c
        → IsSending c0 opcode out (pending ++ p) (append_bytes m p w c).0 (append_bytes m p w c).1
    unfolding append_bytes
    append-IsSending out pending p w c s bp le =
        let same_size : c.write_frame_size ≡ c0.write_frame_size =
          ap (λ (t : Conn). t.write_frame_size) s.shape in
        let (fits, capped) =
          room-bounds (length p) pending w c s.holding (holding-inside pending w c s.holding)
            (rw same_size s.pending_capped) le in
        let (back', front', laid, size) = holding_more pending p w c s.holding fits in
        record {
          holding = record {
            front = front';
            back = back';
            buffer = laid;
            front_size = size;
            end = omega (arith, s.holding.end, length-append pending p);
          };
          open_writer = s.open_writer;
          uncompressed = s.uncompressed;
          type = s.type;
          shape = ap (λ (t : Conn). record t { write_buf = copy_at w.pos p c.write_buf }) s.shape;
          buffer_size = length-copy_at w.pos p c.write_buf ∙ s.buffer_size;
          live = record {
            unbroken = s.live.unbroken;
            accepting = s.live.accepting;
            random = s.live.random;
          };
          fragments = s.fragments;
          pending_bytes = All-append IsByte pending p s.pending_bytes bp;
          pending_capped = λ z. omega (arith, length-append pending p, capped (rw same_size z));
        }

    -- What ncopy leaves: room for `n` bytes, `n` of them to be copied.
    pub record Room (max' : ℕ) (out : List Frame) (pending : List ℕ) (nr : ℕ × Wrote) : Type 0 where
      pub sent : List Frame
      pub waiting : List ℕ
      pub no_error : nr.1.err ≡ none
      pub sending : IsSending c0 opcode sent waiting nr.1.writer nr.1.conn
      pub same_bytes : payloads sent ++ waiting ≡ payloads out ++ pending
      pub some_bytes : 0 < nr.0
      pub at_most : nr.0 ≤ max'
      pub fits : nr.0 ≤ payload_room m nr.1.writer nr.1.conn

    pub ncopy-Room :
        (max' : ℕ) (out : List Frame) (pending : List ℕ) (w : MessageWriter) (c : Conn)
        → IsSending c0 opcode out pending w c
        → 0 < max'
        → 14 < length c0.write_buf
        → Room max' out pending (ncopy m max' w c)
    unfolding ncopy
    ncopy-Room max' out pending w c s some' room = elim (Bool-cases (payload_room m w c == 0)) [
      | inr free ↦ rw free (record {
        sent = out;
        waiting = pending;
        no_error = refl;
        sending = s;
        same_bytes = refl;
        some_bytes = ground arith;
        at_most = omega arith;
        fits = omega arith;
      })
      | inl full ↦
          let same_size : c.write_frame_size ≡ c0.write_frame_size =
            ap (λ (t : Conn). t.write_frame_size) s.shape in
          let (no_err, s') =
            flush-IsSending m c0 opcode data' out pending [] w c s (λ e. refl) tt
              (rw (append-nil pending) s.pending_capped) in
          let f = frame_of false pending [] w c in
          let pos' =
            room-pos (flush_frame m false [] w c).writer (flush_frame m false [] w c).conn
              s'.holding.end (rw s'.buffer_size room) in
          rw (full, no_err)
            (record {
              sent = out ++ f ∷ [];
              waiting = [];
              no_error = no_err;
              sending = s';
              same_bytes =
                  append-nil _
                  ∙ payloads-snoc out f
                  ∙ ap (λ t. payloads out ++ t) (append-nil pending);
              some_bytes = omega arith;
              at_most = omega arith;
              fits = omega arith;
            })
    ]

    -- The state of the message after the bytes `p`.
    pub record Copied (out : List Frame) (pending p : List ℕ) (r : Wrote) : Type 0 where
      pub sent : List Frame
      pub waiting : List ℕ
      pub no_error : r.err ≡ none
      pub sending : IsSending c0 opcode sent waiting r.writer r.conn
      pub all_there : payloads sent ++ waiting ≡ (payloads out ++ pending) ++ p

    -- The loop of messageWriter.Write makes progress in every round, so the length of the slice is
    -- enough fuel, and it leaves all bytes sent or waiting.
    pub copy_loop-Copied :
        (fuel : ℕ) (p : List ℕ) (out : List Frame) (pending : List ℕ) (w : MessageWriter) (c : Conn)
        → length p ≤ fuel
        → IsSending c0 opcode out pending w c
        → All IsByte p
        → 14 < length c0.write_buf
        → (r : Wrote) × (copy_loop m fuel p w c ≡ some r) × Copied out pending p r
    unfolding copy_loop
    copy_loop-Copied fuel [] out pending w c le s bp room = (
      record { err = none; writer = w; conn = c },
      refl,
      record {
        sent = out;
        waiting = pending;
        no_error = refl;
        sending = s;
        all_there = sym (append-nil (payloads out ++ pending));
      },
    )
    copy_loop-Copied zero (b ∷ p) out pending w c le s bp room = absurd (omega arith)
    copy_loop-Copied (suc fuel) (b ∷ p) out pending w c le s bp room =
        let k = ncopy-Room (length (b ∷ p)) out pending w c s (omega arith) room in
        let n = (ncopy m (length (b ∷ p)) w c).0 in
        let r = (ncopy m (length (b ∷ p)) w c).1 in
        let tk = take n (b ∷ p) in
        let size : length tk ≡ n = omega (arith, length-take n (b ∷ p), k.at_most) in
        let s' =
          append-IsSending k.sent k.waiting tk r.writer r.conn k.sending
            (All-take IsByte n (b ∷ p) bp) (rw size k.fits) in
        let next = append_bytes m tk r.writer r.conn in
        let (r', runs, done) =
          copy_loop-Copied fuel (drop n (b ∷ p)) k.sent (k.waiting ++ tk) next.0 next.1
            (omega (arith, length-drop n (b ∷ p), k.some_bytes, le)) s'
            (All-drop IsByte n (b ∷ p) bp) room in
        (
          r',
          rw (k.no_error, copy_loop) runs,
          record {
            sent = done.sent;
            waiting = done.waiting;
            no_error = done.no_error;
            sending = done.sending;
            all_there =
                done.all_there
                ∙ ap (λ t. t ++ drop n (b ∷ p)) (sym (append_assoc (payloads k.sent) k.waiting tk))
                ∙ append_assoc (payloads k.sent ++ k.waiting) tk (drop n (b ∷ p))
                ∙ ap (λ t. (payloads k.sent ++ k.waiting) ++ t) (take-append-drop n (b ∷ p))
                ∙ ap (λ t. t ++ b ∷ p) k.same_bytes;
          },
        )
