-- ===== src/Conn/Flush.antt =====
-- flushFrame hands over exactly one frame of the wire format, built in the write buffer.
use magilla.Base.{
  ℕ, ◌+◌, ◌-◌, ◌<◌, ◌≡◌, refl, ap, sym, ◌∙◌, arith, Bool, true, false, not, ◌&&◌, ◌||◌, List, [],
  ◌∷◌, ◌++◌, Option, none, some,
}
use magilla.Base.{
  length, take, drop, length-append, length-take, drop_all, ltb, if◌then◌else◌, Bool-cases, inl,
  inr, append_assoc, append-nil, All, IsByte, All-append, All-take, All-drop,
}
use magilla.Mask.Laws.{masked, length-masked}
use magilla.Mask.Bytes.{mask_bytes-masked}
use magilla.Errors.{is_control}
use magilla.Conn.{Machine, Conn, MessageWriter}
use magilla.Conn.Write.{copy_at, slice, masks, mask, new_mask_key, write}
use magilla.Conn.Message.{first_byte, flush_frame, after_write, mask_buffer}
use magilla.Conn.Buffer.{
  length-copy_at, copy_at-copy_at, copy_at-append, drop-copy_at, copy_behind, slice-append,
}
use magilla.Conn.Header.{
  first_byte-flags, put_header-bytes, skipped, header_bytes, length-header_bytes,
}
use magilla.Frame.{Frame, wire, body, header, is_masked}

-- The bytes of the message so far lie in the buffer behind the room for a header.
pub record IsHolding (pending : List ℕ) (w : MessageWriter) (c : Conn) : Type 0 where
  pub front : List ℕ
  pub back : List ℕ
  pub buffer : c.write_buf ≡ front ++ (pending ++ back)
  pub front_size : length front ≡ 14
  pub end : w.pos ≡ 14 + length pending

-- The frame that the writer is about to send.
abbrev pub frame_of : Bool → List ℕ → List ℕ → MessageWriter → Conn → Frame
frame_of final pending extra w c = record {
  final = final;
  compressed = w.compress;
  opcode = w.frame_type;
  key = if masks c then some (new_mask_key c.rand).0 else none;
  payload = pending ++ extra;
}

pub length-new_mask_key : (rand : List ℕ) → length (new_mask_key rand).0 ≡ 4
unfolding new_mask_key
length-new_mask_key rand = omega (
  arith,
  length-take 4 (take 4 rand ++ 0 ∷ 0 ∷ 0 ∷ 0 ∷ []),
  length-append (take 4 rand) (0 ∷ 0 ∷ 0 ∷ 0 ∷ []),
)

pub new_mask_key-IsByte : (rand : List ℕ) → All IsByte rand → All IsByte (new_mask_key rand).0
unfolding new_mask_key
new_mask_key-IsByte rand h =
    All-take IsByte 4 (take 4 rand ++ 0 ∷ 0 ∷ 0 ∷ 0 ∷ []) (
      All-append IsByte (take 4 rand) (0 ∷ 0 ∷ 0 ∷ 0 ∷ []) (All-take IsByte 4 rand h) (omega arith))

pub new_mask_key-rest : (rand : List ℕ) → All IsByte rand → All IsByte (new_mask_key rand).1
unfolding new_mask_key
new_mask_key-rest rand h = All-drop IsByte 4 rand h

-- What a header, or a header with a key, does to the buffer.
put_front :
    (at : ℕ) (bs front back : List ℕ)
    → at + length bs ≡ length front
    → (front' : List ℕ) × (copy_at at bs (front ++ back) ≡ front' ++ back)
      × (length front' ≡ length front)
      × (drop at front' ≡ bs)
put_front at bs front back h = (
  copy_at at bs front,
  copy_at-append at bs front back (omega arith),
  length-copy_at at bs front,
  drop-copy_at at bs front h,
)

-- The wire format of the frame, with the header that flushFrame computes.
frame_bytes :
    (final : Bool) (pending extra : List ℕ) (w : MessageWriter) (c : Conn)
    → w.frame_type < 16
    → (masked' : Bool) (key : Option (List ℕ))
    → (if masks c then some (new_mask_key c.rand).0 else none) ≡ key
    → is_masked key ≡ masked'
    → header_bytes (first_byte final w) masked' (length pending + length extra)
        ++ body key (pending ++ extra)
      ≡ wire (frame_of final pending extra w c)
unfolding wire header header_bytes
frame_bytes final pending extra w c small masked' key ek em =
    rw (ek, ← em, first_byte-flags final w small, length-append pending extra)

module _ (m : Machine) where
  pub mask-masked :
      (key b : List ℕ) → All IsByte key → All IsByte b → (mask m key 0 b).0 ≡ masked key 0 b
  unfolding mask
  mask-masked key b hk hb =
      ap (λ t. t.0)
        (mask_bytes-masked m.big_endian m.word_size m.word_size_fours m.word_size_pos key hk
          (m.align b) 0 b (m.align-lt b) hb)

  -- Without a mask: the header, and the payload behind it.
  plain_bytes :
      (b0 n : ℕ) (pending front back : List ℕ) (pos : ℕ)
      → length front ≡ 14
      → pos ≡ 14 + length pending
      → (front' : List ℕ) × (length front' ≡ 14)
        × (copy_at (4 + skipped n) (header_bytes b0 false n) (front ++ (pending ++ back))
            ≡ front' ++ (pending ++ back))
        × (slice (4 + skipped n) pos (front' ++ (pending ++ back))
            ≡ header_bytes b0 false n ++ pending)
  plain_bytes b0 n pending front back pos hf hp =
      let size = length-header_bytes b0 n false in
      let (front', laid, same, tail) =
        put_front (4 + skipped n) (header_bytes b0 false n) front (pending ++ back)
          (omega (arith, size)) in
      (
        front',
        same ∙ hf,
        laid,
        slice-append (4 + skipped n) pos front' pending back (omega (arith, size, same))
              (omega (arith, same))
            ∙ ap (λ t. t ++ pending) tail,
      )

  -- With a mask: the header, the key, and the masked payload behind it.
  masked_bytes :
      (b0 n : ℕ) (key pending front back : List ℕ) (pos : ℕ)
      → length front ≡ 14
      → length key ≡ 4
      → pos ≡ 14 + length pending
      → All IsByte key
      → All IsByte pending
      → let buf = copy_at (0 + skipped n) (header_bytes b0 true n) (front ++ (pending ++ back)) in
        (front' : List ℕ) × (length front' ≡ 14)
        × (mask_buffer m key pos buf ≡ front' ++ (masked key 0 pending ++ back))
        × (slice (0 + skipped n) pos (front' ++ (masked key 0 pending ++ back))
            ≡ header_bytes b0 true n ++ (key ++ masked key 0 pending))
  unfolding mask_buffer
  masked_bytes b0 n key pending front back pos hf hk hp bk bp =
      let size = length-header_bytes b0 n true in
      let at = 0 + skipped n in
      let hb = header_bytes b0 true n in
      let both : at + length (hb ++ key) ≡ length front =
        omega (arith, size, length-append hb key) in
      let (front', laid, same, tail) = put_front at (hb ++ key) front (pending ++ back) both in
      let keyed =
        copy_at-copy_at at 10 hb key (front ++ (pending ++ back)) (omega (arith, size)) ∙ laid in
      let payload =
        slice-append 14 pos front' pending back (omega (arith, same)) (omega (arith, same))
        ∙ ap (λ t. t ++ pending) (drop_all 14 front' (omega (arith, same))) in
      (
        front',
        same ∙ hf,
        rw (keyed, payload, mask-masked key pending bk bp)
            (copy_behind 14 front' (masked key 0 pending) pending back (same ∙ hf)
              (length-masked key 0 pending)),
        slice-append at pos front' (masked key 0 pending) back (omega (arith, size, same))
              (omega (arith, same, length-masked key 0 pending))
            ∙ ap (λ t. t ++ masked key 0 pending) tail
            ∙ append_assoc hb key (masked key 0 pending),
      )

  -- What flushFrame does when it has a frame to send: the bytes that it hands to `write`, and the
  -- buffer that it leaves.
  pub record Flushing (final : Bool) (pending extra : List ℕ) (w : MessageWriter) (c : Conn)
      : Type 0 where
    pub bytes : List ℕ
    pub front : List ℕ
    pub back : List ℕ
    pub rand : List ℕ
    pub random : All IsByte c.rand → All IsByte rand
    pub front_size : length front ≡ 14
    pub buffer_size : length (front ++ back) ≡ length c.write_buf
    pub layout : bytes ++ extra ≡ wire (frame_of final pending extra w c)
    pub result :
        flush_frame m final extra w c
        ≡ after_write m final
            (record w { compress = false })
            (write w.frame_type bytes extra (record c { write_buf = front ++ back; rand = rand }))

  length-mask_buffer :
      (key : List ℕ) (pos : ℕ) (buf : List ℕ) → length (mask_buffer m key pos buf) ≡ length buf
  unfolding mask_buffer
  length-mask_buffer key pos buf = length-copy_at 14 _ _ ∙ length-copy_at 10 key buf

  -- A control frame must be final and short.
  abbrev pub Sendable : Bool → List ℕ → List ℕ → MessageWriter → Type 0
  Sendable final pending extra w =
      (is_control w.frame_type && (not final || ltb 125 (length pending + length extra))) ≡ false

  plain-Flushing :
      (final : Bool) (pending extra : List ℕ) (w : MessageWriter) (c : Conn)
      → IsHolding pending w c
      → w.frame_type < 16
      → Sendable final pending extra w
      → masks c ≡ false
      → Flushing final pending extra w c
  unfolding flush_frame
  plain-Flushing final pending extra w c h small ok plain =
      let n = length pending + length extra in
      let b0 = first_byte final w in
      let (front', size, laid, sliced) =
        plain_bytes b0 n pending h.front h.back w.pos h.front_size h.end in
      let len : w.pos - 14 ≡ length pending = omega (arith, h.end) in
      record {
        bytes = header_bytes b0 false n ++ pending;
        front = front';
        back = pending ++ h.back;
        rand = c.rand;
        random = λ h. h;
        front_size = size;
        buffer_size = ap length (sym laid) ∙ length-copy_at _ _ _ ∙ ap length (sym h.buffer);
        layout =
            append_assoc (header_bytes b0 false n) pending extra
            ∙ frame_bytes final pending extra w c small false none plain_key refl;
        result = rw (len, ok, plain, h.buffer, put_header-bytes 4 b0 n false) (rw (laid, sliced));
      }
    where
      plain_key : (if masks c then some (new_mask_key c.rand).0 else none) ≡ none
      plain_key = rw plain

  masked-Flushing :
      (final : Bool) (pending : List ℕ) (w : MessageWriter) (c : Conn)
      → IsHolding pending w c
      → w.frame_type < 16
      → Sendable final pending [] w
      → masks c ≡ true
      → All IsByte pending
      → All IsByte c.rand
      → Flushing final pending [] w c
  unfolding flush_frame
  masked-Flushing final pending w c h small ok masking bp br =
      let n = length pending + 0 in
      let b0 = first_byte final w in
      let key = (new_mask_key c.rand).0 in
      let (front', size, laid, sliced) =
        masked_bytes b0 n key pending h.front h.back w.pos h.front_size (length-new_mask_key c.rand)
          h.end (new_mask_key-IsByte c.rand br) bp in
      let len : w.pos - 14 ≡ length pending = omega (arith, h.end) in
      record {
        bytes = header_bytes b0 true n ++ (key ++ masked key 0 pending);
        front = front';
        back = masked key 0 pending ++ h.back;
        rand = (new_mask_key c.rand).1;
        random = new_mask_key-rest c.rand;
        front_size = size;
        buffer_size =
            ap length (sym laid)
            ∙ length-mask_buffer key w.pos _
            ∙ length-copy_at _ _ _
            ∙ ap length (sym h.buffer);
        layout =
            append-nil (header_bytes b0 true n ++ (key ++ masked key 0 pending))
            ∙ ap (λ t. header_bytes b0 true n ++ (key ++ masked key 0 t)) (sym (append-nil pending))
            ∙ frame_bytes final pending [] w c small true (some key) masked_key refl;
        result = rw (len, ok, masking, h.buffer, put_header-bytes 0 b0 n true) (rw (laid, sliced));
      }
    where
      masked_key :
          (if masks c then some (new_mask_key c.rand).0 else none) ≡ some (new_mask_key c.rand).0
      masked_key = rw masking

  -- Behind a mask nothing can be sent past the buffer.
  pub flushing :
      (final : Bool) (pending extra : List ℕ) (w : MessageWriter) (c : Conn)
      → IsHolding pending w c
      → w.frame_type < 16
      → Sendable final pending extra w
      → (masks c ≡ true → extra ≡ [])
      → All IsByte pending
      → All IsByte c.rand
      → Flushing final pending extra w c
  flushing final pending extra w c h small ok buffered bp br = elim (Bool-cases (masks c)) [
    | inr plain ↦ plain-Flushing final pending extra w c h small ok plain
    | inl masking ↦
        let e = buffered masking in
        rw e (masked-Flushing final pending w c h small (rw e at ok) masking bp br)
  ]
