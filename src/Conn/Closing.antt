-- ===== src/Conn/Closing.antt =====
-- A close frame that is received: its code and its text, and the reply.
use magilla.Base.{
  ℕ, ◌/◌, ◌%◌, ◌<◌, ◌≡◌, refl, ap, ◌∙◌, arith, true, false, List, [], ◌∷◌, none, inl,
}
use magilla.Base.{◌==◌, All, IsByte}
use magilla.Errors.{is_valid_received_close_code, listed_close_code}
use magilla.Errors.Error.{close_error}
use magilla.Utf8.{dfa_validate, accept}
use magilla.Utf8.Spec.{IsUtf8}
use magilla.Utf8.Accepts.{dfa_validate-IsUtf8}
use magilla.Conn.{Machine, Conn}
use magilla.Conn.Write.{put_uint16}
use magilla.Conn.Read.{
  format_close_message, get_uint, process_close, process_code, closed, handle_close, send_close,
}

valid_code :
    (code : ℕ)
    → is_valid_received_close_code code ≡ true
    → (code < 65536) × ((code == 1005) ≡ false)
unfolding is_valid_received_close_code listed_close_code
valid_code code h = ground arith

laid_out :
    (code : ℕ) (text : List ℕ)
    → code < 65536
    → (code == 1005) ≡ false
    → format_close_message code text ≡ (code / 256) ∷ (code % 256) ∷ text
unfolding format_close_message put_uint16
laid_out code text small known = ground arith

module _ (m : Machine) where
  handle_default :
      (code : ℕ) (text : List ℕ) (c : Conn)
      → c.handle_close ≡ none
      → handle_close m code text c ≡ (none, send_close m (format_close_message code []) c)
  unfolding handle_close
  handle_default code text c default = ground arith

  process_valid :
      (code : ℕ) (text : List ℕ) (c : Conn)
      → is_valid_received_close_code code ≡ true
      → dfa_validate text ≡ accept
      → process_code m code text c ≡ closed m code text (handle_close m code text c)
  unfolding process_code
  process_valid code text c valid accepted = rw (valid, accepted) refl

  -- A close message that FormatCloseMessage made of a code which may be received and a text in
  -- UTF-8 is read back: the error has the code and the text, and the default handler replies with
  -- the code alone.
  pub process_close-format_close_message :
      (code : ℕ) (text : List ℕ) (c : Conn)
      → is_valid_received_close_code code ≡ true
      → All IsByte text
      → IsUtf8 text
      → c.handle_close ≡ none
      → process_close m (format_close_message code text) c
        ≡ (inl (close_error code text), send_close m (format_close_message code []) c)
  unfolding process_close get_uint
  process_close-format_close_message code text c valid bytes utf8 default =
      let (small, known) = valid_code code valid in
      let accepted = (dfa_validate-IsUtf8 text bytes).1 utf8 in
      let laid = laid_out code text small known in
      let value : get_uint 0 ((code / 256) ∷ (code % 256) ∷ []) ≡ code = omega arith in
      ap (λ p. process_close m p c) laid
      ∙ ap (λ k. process_code m k text c) value
      ∙ process_valid code text c valid accepted
      ∙ ap (closed m code text) (handle_default code text c default)
