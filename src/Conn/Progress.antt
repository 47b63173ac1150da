-- ===== src/Conn/Progress.antt =====
-- Conn.advanceFrame takes bytes off the input whenever it returns a frame.
use magilla.Base.{
  ℕ, zero, suc, ◌+◌, ◌^◌, ◌≤◌, ◌<◌, ◌≡◌, refl, ap, arith, Bool, ◌||◌, true, false, List, [], ◌∷◌,
  Option, none, some, length,
}
use magilla.Base.{Option-cases, Bool-cases, inl, inr, ltb, leb, ◌==◌}
use magilla.Opcode
use magilla.Errors.{Error, is_data}
use magilla.Conn.{Machine, Conn}
use magilla.Conn.Net.{Input, octet, pause, stop, take_input}
use magilla.Conn.Write.{write_control, written, write_fatal}
use magilla.Conn.Read.{
  read, read_error, Advanced, handle_pong, handle_ping, handle_close, handled, write_wait, closed,
  process_code, process_close, process_control, read_control, check_limit, finish_frame, read_key,
  read_extended, read_length_bytes, parse_header, read_header, advance_frame, set_read_remaining,
  after_read, get_uint, after_set, checked, header_errors,
}

-- What is taken without an error is gone.
take_input-left :
    (n : ℕ) (is : List Input)
    → (take_input n is).err ≡ none
    → n + length (take_input n is).left ≤ length is
unfolding take_input
take_input-left zero is h = omega arith
take_input-left (suc n) [] h = cc
take_input-left (suc n) (octet b ∷ is) h = omega (arith, take_input-left n is h)
take_input-left (suc n) (pause ∷ is) h = omega (arith, take_input-left (suc n) is h)
take_input-left (suc n) (stop e ∷ is) h = cc

take_input-shorter : (n : ℕ) (is : List Input) → length (take_input n is).left ≤ length is
unfolding take_input
take_input-shorter zero is = omega arith
take_input-shorter (suc n) [] = omega arith
take_input-shorter (suc n) (octet b ∷ is) = omega (arith, take_input-shorter n is)
take_input-shorter (suc n) (pause ∷ is) = omega (arith, take_input-shorter (suc n) is)
take_input-shorter (suc n) (stop e ∷ is) = omega arith

module _ (m : Machine) where
  -- Behind the header of a data frame the length of the message is no more than an int64 can hold,
  -- nor than the read limit, if there is one.
  abbrev pub Bounded : ℕ → Conn → Type 0
  Bounded t c =
      t == Opcode.continuation || is_data t ≡ true
      → (c.read_length < 2 ^ 63) × (0 < c.read_limit → c.read_length ≤ c.read_limit)

  -- A frame leaves at least two events less than `k` of the input, and keeps the bounds.
  abbrev pub Leaves : ℕ → Advanced m → Type 0
  Leaves k (inl e, c) = Unit {0}
  Leaves k (inr t, c) = (2 + length c.input ≤ k) × Bounded t c

  write_control-input :
      (message_type : ℕ) (body : List ℕ) (deadline : Option ℕ) (c : Conn)
      → (write_control m message_type body deadline c).1.input ≡ c.input
  unfolding write_control written write_fatal
  write_control-input message_type body deadline c = ground arith

  check_limit-Leaves : (k t : ℕ) (c : Conn) → 2 + length c.input ≤ k → Leaves k (check_limit m t c)
  unfolding check_limit
  check_limit-Leaves k t c h = ground (arith, h)

  read_error-none : (e : Option Error) → read_error e ≡ none → e ≡ none
  unfolding read_error
  read_error-none none h = refl
  read_error-none (some e) h = ground (arith, h)

  -- A read of `n` bytes, and what follows.
  after_read-Leaves :
      (n k : ℕ) (c : Conn) (f : List ℕ → Conn → Advanced m)
      → ((p : List ℕ) (c' : Conn) → n + length c'.input ≤ length c.input → Leaves k (f p c'))
      → Leaves k (after_read m (read n c) f)
  unfolding read
  after_read-Leaves n k c f next = go (read_error (take_input n c.input).err) refl
    where
      go :
          (e : Option Error)
          → read_error (take_input n c.input).err ≡ e
          → let g = take_input n c.input in
            Leaves k (after_read m (e, (g.bytes, record c { input = g.left })) f)
      go none h =
          next _ _ (take_input-left n c.input (read_error-none (take_input n c.input).err h))
      go (some e) h = tt

  handle_pong-input : (p : List ℕ) (c : Conn) → (handle_pong m p c).1.input ≡ c.input
  unfolding handle_pong
  handle_pong-input p c = ground arith

  handle_ping-input : (p : List ℕ) (c : Conn) → (handle_ping m p c).1.input ≡ c.input
  unfolding handle_ping
  handle_ping-input p c =
      ground (arith, write_control-input Opcode.pong p (some (c.now + write_wait)) c)

  handled-Leaves :
      (k t : ℕ) (r : Option Error × Conn)
      → (t == Opcode.continuation || is_data t ≡ false)
      → 2 + length r.1.input ≤ k
      → Leaves k (handled m t r)
  handled-Leaves k t (none, c) control h = (h, λ data'. absurd (ground (arith, control, data')))
  handled-Leaves k t (some e, c) control h = tt

  closed-Leaves :
      (k code : ℕ) (text : List ℕ) (r : Option Error × Conn) → Leaves k (closed m code text r)
  closed-Leaves k code text (none, c) = tt
  closed-Leaves k code text (some e, c) = tt

  process_code-Leaves :
      (k code : ℕ) (text : List ℕ) (c : Conn) → Leaves k (process_code m code text c)
  unfolding process_code
  process_code-Leaves k code text c =
      ground (arith, closed-Leaves k code text (handle_close m code text c))

  process_close-Leaves : (k : ℕ) (p : List ℕ) (c : Conn) → Leaves k (process_close m p c)
  unfolding process_close
  process_close-Leaves k [] c = closed-Leaves k _ _ _
  process_close-Leaves k (x ∷ []) c = closed-Leaves k _ _ _
  process_close-Leaves k (x ∷ y ∷ text) c = process_code-Leaves k _ text c

  process_control-Leaves :
      (k t : ℕ) (p : List ℕ) (c : Conn)
      → (t == Opcode.continuation || is_data t ≡ false)
      → 2 + length c.input ≤ k
      → Leaves k (process_control m t p c)
  unfolding process_control
  process_control-Leaves k t p c control h =
      let pong : 2 + length (handle_pong m p c).1.input ≤ k =
        omega (arith, ap length (handle_pong-input p c), h) in
      let ping : 2 + length (handle_ping m p c).1.input ≤ k =
        omega (arith, ap length (handle_ping-input p c), h) in
      elim (Bool-cases (t == Opcode.pong)) [
        | inl is_pong ↦ rw is_pong (handled-Leaves k t (handle_pong m p c) control pong)
        | inr not_pong ↦ elim (Bool-cases (t == Opcode.ping)) [
          | inl is_ping ↦
              rw (not_pong, is_ping) (handled-Leaves k t (handle_ping m p c) control ping)
          | inr not_ping ↦ rw (not_pong, not_ping) (process_close-Leaves k p c)
        ]
      ]

  read_control-Leaves :
      (k t : ℕ) (c : Conn)
      → (t == Opcode.continuation || is_data t ≡ false)
      → 2 + length c.input ≤ k
      → Leaves k (read_control m t c)
  unfolding read_control read
  read_control-Leaves k t c control h =
      let r = c.read_remaining in
      let g = take_input r c.input in
      let short : 2 + length g.left ≤ k = omega (arith, h, take_input-shorter r c.input) in
      elim (Bool-cases (r == 0)) [
        | inl empty ↦ rw empty (process_control-Leaves k t [] c control h)
        | inr full ↦ elim (Option-cases (read_error g.err)) [
          | inr (e, bad) ↦ rw (full, bad) tt
          | inl fine ↦ rw (full, fine) (process_control-Leaves k t _ _ control short)
        ]
      ]

  finish_frame-Leaves :
      (k t : ℕ) (c : Conn) → 2 + length c.input ≤ k → Leaves k (finish_frame m t c)
  unfolding finish_frame
  finish_frame-Leaves k t c h = elim (Bool-cases (t == Opcode.continuation || is_data t)) [
    | inl data' ↦ rw data' (check_limit-Leaves k t c h)
    | inr control ↦ rw control (read_control-Leaves k t c control h)
  ]

  read_key-Leaves :
      (k t : ℕ) (masked : Bool) (c : Conn)
      → 2 + length c.input ≤ k
      → Leaves k (read_key m t masked c)
  unfolding read_key
  read_key-Leaves k t true c h =
      after_read-Leaves 4 k _ _ (λ p c' less. finish_frame-Leaves k t _ (omega (arith, less, h)))
  read_key-Leaves k t false c h = finish_frame-Leaves k t c h

  read_extended-Leaves :
      (k n t : ℕ) (masked : Bool) (c : Conn)
      → 2 + length c.input ≤ k
      → Leaves k (read_extended m n t masked c)
  unfolding read_extended set_read_remaining
  read_extended-Leaves k n t masked c h =
      after_read-Leaves n k c _ (λ p c' less. set-Leaves p c' (omega (arith, less, h)))
    where
      set-Leaves :
          (p : List ℕ) (c' : Conn)
          → 2 + length c'.input ≤ k
          → Leaves k (after_set m (set_read_remaining (get_uint 0 p) c') (read_key m t masked))
      set-Leaves p c' h' = elim (Bool-cases (leb (2 ^ 63) (get_uint 0 p))) [
        | inl big ↦ rw big tt
        | inr small ↦ rw small (read_key-Leaves k t masked _ h')
      ]

  read_length_bytes-Leaves :
      (k t : ℕ) (masked : Bool) (c : Conn)
      → 2 + length c.input ≤ k
      → Leaves k (read_length_bytes m t masked c)
  unfolding read_length_bytes
  read_length_bytes-Leaves k t masked c h = ground (
    arith,
    read_extended-Leaves k 2 t masked c h,
    read_extended-Leaves k 8 t masked c h,
    read_key-Leaves k t masked c h,
  )

  checked-Leaves :
      (k : ℕ) (es : List (List ℕ)) (c : Conn) (f : Conn → Advanced m)
      → Leaves k (f c)
      → Leaves k (checked m es c f)
  checked-Leaves k [] c f h = h
  checked-Leaves k (e ∷ es) c f h = tt

  parse_header-Leaves :
      (k p0 p1 : ℕ) (c : Conn) → 2 + length c.input ≤ k → Leaves k (parse_header m p0 p1 c)
  unfolding parse_header
  parse_header-Leaves k p0 p1 c h =
      checked-Leaves k (header_errors p0 p1 c) _ _ (read_length_bytes-Leaves k _ _ _ h)

  read_header-Leaves : (k : ℕ) (c : Conn) → length c.input ≤ k → Leaves k (read_header m c)
  unfolding read_header
  read_header-Leaves k c h =
      after_read-Leaves 2 k c _ (λ p c' less. parse_header-Leaves k _ _ c' (omega (arith, less, h)))

  -- advanceFrame returns the type of a frame only if it took at least the two bytes of a header off
  -- the input. Behind the header of a data frame or a continuation, the length of the message so far
  -- fits an int64, and is at most the read limit if that is positive.
  pub advance_frame-Leaves : (c : Conn) → Leaves (length c.input) (advance_frame m c)
  unfolding advance_frame
  advance_frame-Leaves c =
      let g = take_input c.read_remaining c.input in
      let c' : Conn = record c { input = g.left } in
      elim (Bool-cases (ltb 0 c.read_remaining)) [
        | inr none_left ↦ rw none_left (read_header-Leaves _ c (omega arith))
        | inl some_left ↦ elim (Option-cases g.err) [
          | inr (e, bad) ↦ rw (some_left, bad) tt
          | inl fine ↦
              rw (some_left, fine)
                (read_header-Leaves _ _
                  (omega (arith, take_input-shorter c.read_remaining c.input)))
        ]
      ]
