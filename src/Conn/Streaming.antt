-- ===== src/Conn/Streaming.antt =====
-- ReadFrom on a live connection: all that the reader gives is sent or buffered.
use magilla.Base.{
  ℕ, zero, suc, ◌+◌, ◌<◌, ◌≡◌, refl, ap, sym, ◌∙◌, arith, true, List, [], ◌++◌, Option, none, some,
}
use magilla.Base.{length, length-append, append_assoc, append-nil, All, IsByte}
use mathlib.Core.Path.{subst}
use magilla.Conn.Terminates.{by_option}
use magilla.Errors.{is_data}
use magilla.Conn.{Machine, Conn, MessageWriter}
use magilla.Conn.Net.{Input, read_input}
use magilla.Conn.Message.{Wrote, payload_room, ncopy, append_bytes}
use magilla.Conn.Sending.{IsSending}
use magilla.Conn.Fragments.{Copied, copy_loop-Copied, ncopy-Room, append-IsSending}
use magilla.Conn.Strings.{write_string, ReadIn, unless_eof, make_room, read_in_loop, read_from}
use magilla.Frame.{Frame}
use magilla.Frame.Message.{payloads}
use magilla.Conn.Pieces.{stream, EndsInEof, final, read-Taken, split-bytes}

none-some : {A : Type 0} {a : A} → none ≡ some a → ⊥
none-some h = cc

module _ (m : Machine) where
  make_room-ncopy : (w : MessageWriter) (c : Conn) → make_room m w c ≡ (ncopy m 1 w c).1
  unfolding make_room ncopy
  make_room-ncopy w c = ground arith

  module _ (c0 : Conn) (opcode : ℕ) (data' : is_data opcode ≡ true)
      (room : 14 < length c0.write_buf) where
    -- The state of the message after the bytes `p` from the reader.
    pub record CopiedIn (out : List Frame) (pending p : List ℕ) (count : ℕ) (r : ReadIn)
        : Type 0 where
      pub sent : List Frame
      pub waiting : List ℕ
      pub no_error : r.err ≡ none
      pub counted : r.count ≡ count + length p
      pub sending : IsSending c0 opcode sent waiting r.writer r.conn
      pub all_there : payloads sent ++ waiting ≡ (payloads out ++ pending) ++ p

    -- After make_room there is room in the frame.
    record Ready (out : List Frame) (pending : List ℕ) (r : Wrote) : Type 0 where
      ahead : List Frame
      behind : List ℕ
      fine : r.err ≡ none
      sending : IsSending c0 opcode ahead behind r.writer r.conn
      same_bytes : payloads ahead ++ behind ≡ payloads out ++ pending
      some_room : 0 < payload_room m r.writer r.conn

    make_room-Ready :
        (out : List Frame) (pending : List ℕ) (w : MessageWriter) (c : Conn)
        → IsSending c0 opcode out pending w c
        → Ready out pending (make_room m w c)
    make_room-Ready out pending w c s =
        let k = ncopy-Room m c0 opcode data' 1 out pending w c s (omega arith) room in
        subst (Ready out pending) (sym (make_room-ncopy w c)) (record {
          ahead = k.sent;
          behind = k.waiting;
          fine = k.no_error;
          sending = k.sending;
          same_bytes = k.same_bytes;
          some_room = omega (arith, k.some_bytes, k.fits);
        })

    IsRead : List Frame → List ℕ → List ℕ → ℕ → Option ReadIn → Type 0
    IsRead out pending p count o = (r : ReadIn) × (o ≡ some r) × CopiedIn out pending p count r

    all_in :
        (ahead behind before a b p : List ℕ)
        → ahead ++ behind ≡ before
        → a ++ b ≡ p
        → (ahead ++ (behind ++ a)) ++ b ≡ before ++ p
    all_in ahead behind before a b p e e' =
        ap (λ t. t ++ b) (sym (append_assoc ahead behind a) ∙ ap (λ t. t ++ a) e)
        ∙ append_assoc before a b
        ∙ ap (λ t. before ++ t) e'

    read_in_loop-CopiedIn :
        (fuel count : ℕ) (is : List Input) (out : List Frame) (pending : List ℕ) (w : MessageWriter)
        (c : Conn)
        → length is < fuel
        → EndsInEof is
        → All IsByte (stream is)
        → IsSending c0 opcode out pending w c
        → IsRead out pending (stream is) count (read_in_loop m fuel count is w c)
    unfolding read_in_loop IsRead
    read_in_loop-CopiedIn zero count is out pending w c h plain bytes s = absurd (omega (arith, h))
    read_in_loop-CopiedIn (suc fuel) count is out pending w c h plain bytes s =
        let r = make_room m w c in
        let k = make_room-Ready out pending w c s in
        let n = payload_room m r.writer r.conn in
        let g = read_input n is in
        let t = read-Taken n is k.some_room plain in
        let parts : All IsByte g.bytes × All IsByte (stream g.left) =
          split-bytes g.bytes (stream g.left) (subst (All IsByte) (sym t.got) bytes) in
        let s' =
          append-IsSending m c0 opcode data' k.ahead k.behind g.bytes r.writer r.conn k.sending
            parts.0 t.few in
        let a = append_bytes m g.bytes r.writer r.conn in
        let P = IsRead out pending (stream is) count in
        let size : length (stream is) ≡ length g.bytes + length (stream g.left) =
          ap length (sym t.got) ∙ length-append g.bytes (stream g.left) in
        by_option P r.err _ _ (λ e bad. absurd (none-some (sym k.fine ∙ bad)))
          (λ fine.
            by_option P g.err _ _
              (λ e ends. (
                record {
                  count = count + length g.bytes;
                  err = unless_eof e;
                  writer = a.0;
                  conn = a.1;
                },
                refl,
                record {
                  sent = k.ahead;
                  waiting = k.behind ++ g.bytes;
                  no_error = ap final (sym ends) ∙ t.ends;
                  counted = omega (arith, size, ap length (t.empty e ends));
                  sending = s';
                  all_there =
                      sym (append-nil _)
                      ∙ all_in (payloads k.ahead) k.behind (payloads out ++ pending) g.bytes []
                          (stream is) k.same_bytes
                          (ap (λ x. g.bytes ++ x) (sym (t.empty e ends)) ∙ t.got);
                },
              ))
              (λ more.
                let (r', runs, d) =
                  read_in_loop-CopiedIn fuel (count + length g.bytes) g.left k.ahead
                    (k.behind ++ g.bytes) a.0 a.1 (omega (arith, t.goes_on more, h)) t.rest parts.1
                    s' in
                (
                  r',
                  runs,
                  record {
                    sent = d.sent;
                    waiting = d.waiting;
                    no_error = d.no_error;
                    counted = omega (arith, d.counted, size);
                    sending = d.sending;
                    all_there =
                        d.all_there
                        ∙ all_in (payloads k.ahead) k.behind (payloads out ++ pending) g.bytes
                            (stream g.left) (stream is) k.same_bytes t.got;
                  },
                )))

    -- messageWriter.ReadFrom on a live message: if the reader gives bytes up to its EOF, in whatever
    -- pieces, it returns their number and no error, and all of them are sent in frames of the
    -- message or wait in the buffer, behind what was there.
    pub read_from-CopiedIn :
        (is : List Input) (out : List Frame) (pending : List ℕ) (w : MessageWriter) (c : Conn)
        → EndsInEof is
        → All IsByte (stream is)
        → IsSending c0 opcode out pending w c
        → (r : ReadIn) × (read_from m is w c ≡ some r) × CopiedIn out pending (stream is) 0 r
    unfolding read_from IsRead
    read_from-CopiedIn is out pending w c plain bytes s =
        by_option (IsRead out pending (stream is) 0) w.err _ _
          (λ e bad. absurd (none-some (sym s.open_writer ∙ bad)))
          (λ fine.
            read_in_loop-CopiedIn (suc (length is)) 0 is out pending w c (omega arith) plain bytes
              s)

    IsCopied : List Frame → List ℕ → List ℕ → Option Wrote → Type 0
    IsCopied out pending p o = (r : Wrote) × (o ≡ some r) × Copied m c0 opcode data' out pending p r

    -- messageWriter.WriteString on a live message returns no error, and all bytes are sent in frames
    -- of the message or wait in the buffer, behind what was there.
    pub write_string-Copied :
        (p : List ℕ) (out : List Frame) (pending : List ℕ) (w : MessageWriter) (c : Conn)
        → All IsByte p
        → IsSending c0 opcode out pending w c
        → (r : Wrote) × (write_string m p w c ≡ some r) × Copied m c0 opcode data' out pending p r
    unfolding write_string IsCopied
    write_string-Copied p out pending w c bytes s =
        by_option (IsCopied out pending p) w.err _ _
          (λ e bad. absurd (none-some (sym s.open_writer ∙ bad)))
          (λ fine.
            copy_loop-Copied m c0 opcode data' (length p) p out pending w c (omega arith) s bytes
              room)
