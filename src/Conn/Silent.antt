-- ===== src/Conn/Silent.antt =====
-- A connection that must not send any more reads on in silence: no handler gets an answer out.
use magilla.Base.{
  ℕ, arith, Bool, true, false, not, ◌&&◌, ◌||◌, List, [], ◌∷◌, ◌++◌, Option, none, some, inl,
  if◌then◌else◌, ◌==◌,
}
use magilla.Opcode
use magilla.Errors.{Error}
use magilla.CloseCode
use magilla.Base.{ltb, leb, ◌^◌, ◌+◌}
use magilla.Errors.{codes, is_data, is_valid_received_close_code}
use magilla.Utf8.{dfa_validate, accept}
use magilla.Conn.Read.{has_bit, itoa, get_uint, final_after, header_errors}
use magilla.Base.{get_or, bit_and}
use magilla.Conn.Write.{mask_bit}
use magilla.Conn.{Machine, Conn}
use magilla.Conn.Net.{Network}
use magilla.Conn.Write.{mask}
use magilla.Conn.Read.{
  send_close, handle_protocol_error, handle_ping, handle_pong, handle_close, closed, handled,
  process_code, process_close, process_control, read_control, check_limit, finish_frame, read_key,
  read_extended, read_length_bytes, parse_header, read_header, advance_frame, set_read_remaining,
  read, after_read, after_set, checked, Advanced,
}
use magilla.Conn.Terminates.{by_option}
use magilla.Conn.Broken.{IsBroken, write_control-Refuses}

module _ (m : Machine) (e : Error) (n : Network) where
  abbrev Left : Option Error × Conn → Type 0
  Left r = IsBroken e n r.1

  send_close-IsBroken :
      (body : List ℕ) (c : Conn) → IsBroken e n c → IsBroken e n (send_close m body c)
  unfolding send_close
  send_close-IsBroken body c b = (write_control-Refuses m e n Opcode.close body _ c b).1

  protocol-IsBroken :
      (text : List ℕ) (c : Conn) → IsBroken e n c → IsBroken e n (handle_protocol_error m text c).1
  unfolding handle_protocol_error
  protocol-IsBroken text c b = send_close-IsBroken _ c b

  closed-IsBroken :
      (code : ℕ) (text : List ℕ) (r : Option Error × Conn)
      → IsBroken e n r.1
      → IsBroken e n (closed m code text r).1
  closed-IsBroken code text (some e', c) b = b
  closed-IsBroken code text (none, c) b = b

  handled-IsBroken :
      (t : ℕ) (r : Option Error × Conn) → IsBroken e n r.1 → IsBroken e n (handled m t r).1
  handled-IsBroken t (some e', c) b = b
  handled-IsBroken t (none, c) b = b

  handle_close-IsBroken :
      (code : ℕ) (text : List ℕ) (c : Conn)
      → IsBroken e n c
      → IsBroken e n (handle_close m code text c).1
  unfolding handle_close
  handle_close-IsBroken code text c b =
      by_option Left c.handle_close (λ h. (h code text, c)) _ (λ h own. b)
        (λ default. send_close-IsBroken _ c b)

  handle_ping-IsBroken :
      (payload : List ℕ) (c : Conn) → IsBroken e n c → IsBroken e n (handle_ping m payload c).1
  unfolding handle_ping
  handle_ping-IsBroken payload c b =
      by_option Left c.handle_ping (λ h. (h payload, c)) _ (λ h own. b)
        (λ default. (write_control-Refuses m e n Opcode.pong payload _ c b).1)

  handle_pong-IsBroken :
      (payload : List ℕ) (c : Conn) → IsBroken e n c → IsBroken e n (handle_pong m payload c).1
  unfolding handle_pong
  handle_pong-IsBroken payload c b =
      by_option Left c.handle_pong (λ h. (h payload, c)) _ (λ h own. b) (λ default. b)

  -- Of two results the one that a test chooses.
  either : {A : Type 0} (P : A → Type 0) (t : Bool) (x y : A) → P x → P y → P (if t then x else y)
  either P true x y hx hy = hx
  either P false x y hx hy = hy

  record Stays (r : Advanced m) : Type 0 where
    pub broken : IsBroken e n r.1

  stays : (r : Advanced m) → IsBroken e n r.1 → Stays r
  stays r b = record { broken = b }

  process_code-Stays :
      (code : ℕ) (text : List ℕ) (c : Conn) → IsBroken e n c → Stays (process_code m code text c)
  unfolding process_code
  process_code-Stays code text c b =
      either Stays (not (is_valid_received_close_code code)) _ _
        (stays _ (protocol-IsBroken (codes "bad close code " ++ itoa code) c b))
        (either Stays (not (dfa_validate text == accept)) _ _
          (stays _ (protocol-IsBroken (codes "invalid utf8 payload in close frame") c b))
          (stays _ (closed-IsBroken code text _ (handle_close-IsBroken code text c b))))

  process_close-Stays : (p : List ℕ) (c : Conn) → IsBroken e n c → Stays (process_close m p c)
  unfolding process_close
  process_close-Stays [] c b =
      stays _ (closed-IsBroken _ _ _ (handle_close-IsBroken CloseCode.no_status [] c b))
  process_close-Stays (x ∷ []) c b =
      stays _ (closed-IsBroken _ _ _ (handle_close-IsBroken CloseCode.no_status [] c b))
  process_close-Stays (x ∷ y ∷ text) c b = process_code-Stays _ text c b

  process_control-Stays :
      (t : ℕ) (p : List ℕ) (c : Conn) → IsBroken e n c → Stays (process_control m t p c)
  unfolding process_control
  process_control-Stays t p c b =
      either Stays (t == Opcode.pong) _ _
        (stays _ (handled-IsBroken t _ (handle_pong-IsBroken p c b)))
        (either Stays (t == Opcode.ping) _ _
          (stays _ (handled-IsBroken t _ (handle_ping-IsBroken p c b))) (process_close-Stays p c b))

  -- A read keeps what was latched.
  read-IsBroken : (k : ℕ) (c : Conn) → IsBroken e n c → IsBroken e n (read k c).1.1
  unfolding read
  read-IsBroken k c b = ground (arith, b)

  control_payload-Stays :
      (t : ℕ) (f : List ℕ → Conn → List ℕ) (r : Option Error × (List ℕ × Conn))
      → IsBroken e n r.1.1
      → Stays (
          let c2 : Conn = record r.1.1 { read_remaining = 0 } in
          elim r.0 as (λ _. Advanced m) [
            | some e' ↦ (inl e', c2)
            | none ↦ process_control m t (f r.1.0 c2) c2
          ])
  control_payload-Stays t f (some e', (p, c)) b = stays _ b
  control_payload-Stays t f (none, (p, c)) b = process_control-Stays t _ _ b

  read_control-Stays : (t : ℕ) (c : Conn) → IsBroken e n c → Stays (read_control m t c)
  unfolding read_control
  read_control-Stays t c b =
      either Stays (c.read_remaining == 0) _ _ (process_control-Stays t [] c b) (
        control_payload-Stays t
          (λ p c2. if c2.is_server then (mask m c2.read_mask_key 0 p).0 else p)
          (read c.read_remaining c) (read-IsBroken _ c b))

  check_limit-Stays : (t : ℕ) (c : Conn) → IsBroken e n c → Stays (check_limit m t c)
  unfolding check_limit
  check_limit-Stays t c b =
      either Stays (leb (2 ^ 63) (c.read_length + c.read_remaining)) _ _ (stays _ b) (
        either Stays (ltb 0 c.read_limit && ltb c.read_limit (c.read_length + c.read_remaining)) _ _
          (stays _ (send_close-IsBroken _ _ b)) (stays _ b))

  finish_frame-Stays : (t : ℕ) (c : Conn) → IsBroken e n c → Stays (finish_frame m t c)
  unfolding finish_frame
  finish_frame-Stays t c b =
      either Stays (t == Opcode.continuation || is_data t) _ _ (check_limit-Stays t c b)
        (read_control-Stays t c b)

  after_read-Stays :
      (r : Option Error × (List ℕ × Conn)) (f : List ℕ → Conn → Advanced m)
      → IsBroken e n r.1.1
      → ((p : List ℕ) (c : Conn) → IsBroken e n c → Stays (f p c))
      → Stays (after_read m r f)
  after_read-Stays (some e', (p, c)) f b k = stays _ b
  after_read-Stays (none, (p, c)) f b k = k p c b

  after_set-Stays :
      (r : Option Error × Conn) (f : Conn → Advanced m)
      → IsBroken e n r.1
      → ((c : Conn) → IsBroken e n c → Stays (f c))
      → Stays (after_set m r f)
  after_set-Stays (some e', c) f b k = stays _ b
  after_set-Stays (none, c) f b k = k c b

  set-IsBroken : (k : ℕ) (c : Conn) → IsBroken e n c → IsBroken e n (set_read_remaining k c).1
  unfolding set_read_remaining
  set-IsBroken k c b = ground (arith, b)

  read_key-Stays :
      (t : ℕ) (masked' : Bool) (c : Conn) → IsBroken e n c → Stays (read_key m t masked' c)
  unfolding read_key
  read_key-Stays t masked' c b =
      either Stays masked' _ _
        (after_read-Stays (read 4 (record c { read_mask_pos = 0 }))
          (λ key c'. finish_frame m t (record c' { read_mask_key = key }))
          (read-IsBroken 4 (record c { read_mask_pos = 0 }) b)
          (λ key c' b'. finish_frame-Stays t (record c' { read_mask_key = key }) b'))
        (finish_frame-Stays t c b)

  read_extended-Stays :
      (k t : ℕ) (masked' : Bool) (c : Conn) → IsBroken e n c → Stays (read_extended m k t masked' c)
  unfolding read_extended
  read_extended-Stays k t masked' c b =
      after_read-Stays (read k c)
        (λ p c'. after_set m (set_read_remaining (get_uint 0 p) c') (read_key m t masked'))
        (read-IsBroken k c b)
        (λ p c' b'.
          after_set-Stays (set_read_remaining (get_uint 0 p) c') (read_key m t masked')
            (set-IsBroken (get_uint 0 p) c' b') (read_key-Stays t masked'))

  read_length_bytes-Stays :
      (t : ℕ) (masked' : Bool) (c : Conn) → IsBroken e n c → Stays (read_length_bytes m t masked' c)
  unfolding read_length_bytes
  read_length_bytes-Stays t masked' c b =
      either Stays (c.read_remaining == 126) _ _ (read_extended-Stays 2 t masked' c b) (
        either Stays (c.read_remaining == 127) _ _ (read_extended-Stays 8 t masked' c b)
          (read_key-Stays t masked' c b))

  checked-Stays :
      (es : List (List ℕ)) (c : Conn) (f : Conn → Advanced m)
      → IsBroken e n c
      → Stays (f c)
      → Stays (checked m es c f)
  checked-Stays [] c f b k = k
  checked-Stays (x ∷ es) c f b k = stays _ (protocol-IsBroken _ c b)

  parse_header-Stays : (p0 p1 : ℕ) (c : Conn) → IsBroken e n c → Stays (parse_header m p0 p1 c)
  unfolding parse_header
  parse_header-Stays p0 p1 c b =
      let c' : Conn = record c {
        read_remaining = bit_and p1 0x7f;
        read_final = final_after p0 c.read_final;
      } in
      checked-Stays (header_errors p0 p1 c) c'
        (read_length_bytes m (bit_and p0 0xf) (has_bit p1 mask_bit)) b
        (read_length_bytes-Stays (bit_and p0 0xf) (has_bit p1 mask_bit) c' b)

  read_header-Stays : (c : Conn) → IsBroken e n c → Stays (read_header m c)
  unfolding read_header
  read_header-Stays c b =
      after_read-Stays (read 2 c) (λ p c'. parse_header m (get_or p 0 0) (get_or p 1 0) c')
        (read-IsBroken 2 c b) (λ p c' b'. parse_header-Stays (get_or p 0 0) (get_or p 1 0) c' b')

  skipped-Stays :
      (o : Option Error) (c : Conn)
      → IsBroken e n c
      → Stays (elim o as (λ _. Advanced m) [ some x ↦ (inl x, c) | none ↦ read_header m c ])
  skipped-Stays (some x) c b = stays _ b
  skipped-Stays none c b = read_header-Stays c b

  -- Whatever advanceFrame reads, it sends nothing, and what was latched stays.
  pub advance_frame-IsBroken : (c : Conn) → IsBroken e n c → IsBroken e n (advance_frame m c).1
  unfolding advance_frame
  advance_frame-IsBroken c b =
      (either Stays (ltb 0 c.read_remaining) _ _ (skipped-Stays _ _ b)
        (read_header-Stays c b)).broken
