-- ===== src/Conn/Sending.antt =====
-- A message on its way: the frames that the network has taken and the bytes still in the buffer.
use magilla.Base.{
  ℕ, ◌≤◌, ◌<◌, ◌≡◌, refl, ap, sym, ◌∙◌, arith, Bool, true, false, List, [], ◌∷◌, ◌++◌, none, some,
}
use magilla.Base.{
  Bool-cases, inl, inr, length, ◌==◌, if◌then◌else◌, append_assoc, append-nil, All, IsByte,
  All-append,
}
use magilla.Errors.{is_control, is_data}
use magilla.Errors.Error.{close_sent}
use magilla.Opcode
use magilla.Conn.{Machine, Conn, MessageWriter}
use magilla.Conn.Net.{net_write, net_set_write_deadline}
use magilla.Conn.Write.{masks, write}
use magilla.Conn.Message.{flush_frame, after_write}
use magilla.Conn.Flush.{
  IsHolding, Flushing, flushing, frame_of, new_mask_key-IsByte, length-new_mask_key,
}
use mathlib.Core.Path.{subst}
use magilla.Frame.{Frame, wire, wire_all}
use magilla.Frame.Message.{
  HasKey, IsFragment, Fragments, next_opcode, wire_all-append, wire_all_one, Fragments-append,
  next_opcode-append,
}

-- A network that takes all it is given, and a connection that has seen no error.
pub record IsLive (c : Conn) : Type 0 where
  pub unbroken : c.write_err ≡ none
  pub accepting : c.net.answers ≡ []
  pub random : All IsByte c.rand

abbrev pub after : ℕ → List ℕ → Conn → Conn
after frame_type bytes c = record c {
  net = record { sent = c.net.sent ++ bytes; answers = [] };
  write_err = if frame_type == Opcode.close then some close_sent else none;
}

-- On such a connection `write` sends all its bytes, and latches ErrCloseSent behind a close frame.
pub write_live :
    (frame_type : ℕ) (buf extra : List ℕ) (c : Conn)
    → c.write_err ≡ none
    → c.net.answers ≡ []
    → write frame_type buf extra c ≡ (none, after frame_type (buf ++ extra) c)
unfolding write net_write net_set_write_deadline
write_live frame_type buf [] c e a =
    ground (arith, append-nil c.net.sent, append-nil buf, append-nil (c.net.sent ++ buf))
write_live frame_type buf (x ∷ extra) c e a =
    ground (arith, append-nil c.net.sent, append_assoc c.net.sent buf (x ∷ extra))

-- What sending a frame changes in a connection.
abbrev pub moved : List ℕ → List ℕ → List ℕ → Conn → Conn
moved sent buf rand c = record c {
  net = record { sent = sent; answers = [] };
  write_buf = buf;
  rand = rand;
}

-- Since `c0` the frames `out` of a message of type `opcode` were sent, and `pending` waits in the
-- buffer. Nothing but the network, the buffer and the random bytes has changed.
pub record IsSending (c0 : Conn) (opcode : ℕ) (out : List Frame) (pending : List ℕ)
    (w : MessageWriter) (c : Conn) : Type 0 where
  pub holding : IsHolding pending w c
  pub open_writer : w.err ≡ none
  pub uncompressed : w.compress ≡ false
  pub type : w.frame_type ≡ next_opcode opcode out
  pub shape : c ≡ moved (c0.net.sent ++ wire_all out) c.write_buf c.rand c0
  pub buffer_size : length c.write_buf ≡ length c0.write_buf
  pub live : IsLive c
  pub fragments : Fragments (masks c0) c0.write_frame_size opcode out
  pub pending_bytes : All IsByte pending
  pub pending_capped : 0 < c0.write_frame_size → length pending ≤ c0.write_frame_size

abbrev pub next_writer_state : MessageWriter → MessageWriter
next_writer_state w = record w { compress = false; pos = 14; frame_type = 0 }

module _ (m : Machine) where
  -- A frame that is not final goes out, and the writer starts the next one.
  pub flush_live :
      (pending extra : List ℕ) (w : MessageWriter) (c : Conn)
      → IsLive c
      → is_control w.frame_type ≡ false
      → (f : Flushing m false pending extra w c)
      → flush_frame m false extra w c ≡ record {
        err = none;
        writer = next_writer_state w;
        conn =
            moved
              (c.net.sent ++ wire (frame_of false pending extra w c))
              (f.front ++ f.back)
              f.rand
              c;
      }
  unfolding after_write is_control
  flush_live pending extra w c live kind f =
      let c1 : Conn = record c { write_buf = f.front ++ f.back; rand = f.rand } in
      f.result
      ∙ ap (after_write m false (record w { compress = false }))
          (write_live w.frame_type f.bytes extra c1 live.unbroken live.accepting)
      ∙ (λ i. record {
        err = none;
        writer = next_writer_state w;
        conn = record c {
          net = record { sent = c.net.sent ++ f.layout i; answers = [] };
          write_buf = f.front ++ f.back;
          rand = f.rand;
          write_err = no_close i;
        };
      })
    where
      no_close : (if w.frame_type == Opcode.close then some close_sent else none) ≡ c.write_err
      no_close = ground (arith, live.unbroken)

  -- The key of a frame that is masked.
  pub frame_of-HasKey :
      (final : Bool) (pending extra : List ℕ) (w : MessageWriter) (c : Conn)
      → All IsByte c.rand
      → HasKey (masks c) (frame_of final pending extra w c).key
  frame_of-HasKey final pending extra w c h = elim (Bool-cases (masks c)) [
    | inl masking ↦ rw (masking) (length-new_mask_key c.rand, new_mask_key-IsByte c.rand h)
    | inr plain ↦ rw (plain) tt
  ]

  pub masks-moved :
      (c c0 : Conn) (sent buf rand : List ℕ) → c ≡ moved sent buf rand c0 → masks c ≡ masks c0
  unfolding masks
  masks-moved c c0 sent buf rand e = ap masks e

  pub shape-frame :
      (c c0 : Conn) (out : List Frame) (f : Frame) (buf rand : List ℕ)
      → c ≡ moved (c0.net.sent ++ wire_all out) c.write_buf c.rand c0
      → moved (c.net.sent ++ wire f) buf rand c
        ≡ moved (c0.net.sent ++ wire_all (out ++ f ∷ [])) buf rand c0
  shape-frame c c0 out f buf rand e =
      let sent =
        ap (λ t. t ++ wire f) (ap (λ (t : Conn). t.net.sent) e)
        ∙ append_assoc c0.net.sent (wire_all out) (wire f)
        ∙ ap (λ t. c0.net.sent ++ t)
            (ap (λ t. wire_all out ++ t) (sym (wire_all_one f))
              ∙ sym (wire_all-append out (f ∷ []))) in
      ap (moved (c.net.sent ++ wire f) buf rand) e ∙ ap (λ t. moved t buf rand c0) sent

  -- The type of a data message, or of its continuation, is small and no control type.
  pub data_type :
      (opcode : ℕ) (out : List Frame)
      → is_data opcode ≡ true
      → (next_opcode opcode out < 16) × (is_control (next_opcode opcode out) ≡ false)
  unfolding is_data is_control
  data_type opcode [] h = ground arith
  data_type opcode (f ∷ out) h = ground arith

  module _ (c0 : Conn) (opcode : ℕ) (data' : is_data opcode ≡ true) where
    -- Writing a frame keeps the account of the message.
    pub flush-IsSending :
        (out : List Frame) (pending extra : List ℕ) (w : MessageWriter) (c : Conn)
        → IsSending c0 opcode out pending w c
        → (masks c0 ≡ true → extra ≡ [])
        → All IsByte extra
        → (0 < c0.write_frame_size → length (pending ++ extra) ≤ c0.write_frame_size)
        → let f = frame_of false pending extra w c in
          let r = flush_frame m false extra w c in
          (r.err ≡ none) × IsSending c0 opcode (out ++ f ∷ []) [] r.writer r.conn
    flush-IsSending out pending extra w c s buffered be capped =
        let same = masks-moved c c0 _ _ _ s.shape in
        let kind = data_type opcode out data' in
        let control : is_control w.frame_type ≡ false = ap is_control s.type ∙ kind.1 in
        let small : w.frame_type < 16 = rw s.type kind.0 in
        let F =
          flushing m false pending extra w c s.holding small (rw control)
            (λ e. buffered (sym same ∙ e)) s.pending_bytes s.live.random in
        let f = frame_of false pending extra w c in
        let fragment : IsFragment (masks c0) c0.write_frame_size false (next_opcode opcode out) f =
          record {
            final_bit = refl;
            plain = s.uncompressed;
            type = s.type;
            has_key =
                subst (λ b. HasKey b f.key) same
                  (frame_of-HasKey false pending extra w c s.live.random);
            bytes = All-append IsByte pending extra s.pending_bytes be;
            capped = capped;
          } in
        rw (flush_live pending extra w c s.live control F) (
          refl,
          record {
            holding = record {
              front = F.front;
              back = F.back;
              buffer = refl;
              front_size = F.front_size;
              end = refl;
            };
            open_writer = s.open_writer;
            uncompressed = refl;
            type = sym (next_opcode-append opcode out f);
            shape = shape-frame c c0 out f _ _ s.shape;
            buffer_size = F.buffer_size ∙ s.buffer_size;
            live = record {
              unbroken = s.live.unbroken;
              accepting = refl;
              random = F.random s.live.random;
            };
            fragments =
                Fragments-append (masks c0) c0.write_frame_size opcode out f s.fragments fragment;
            pending_bytes = tt;
            pending_capped = λ h. omega arith;
          },
        )
