-- ===== src/Conn/Broken.antt =====
-- A connection that has met a write error, or has sent a close frame, sends nothing more.
use magilla.Base.{
  ℕ, ◌≡◌, ◌≢◌, refl, sym, arith, Bool, true, false, not, ◌&&◌, ◌⊎◌, List, [], Option, none, some,
}
use magilla.Base.{Bool-cases, Option-cases, inl, inr, ◌==◌}
use magilla.Errors.{Error}
use magilla.Errors.Error.{write_timeout, invalid_utf8}
use magilla.Utf8.{dfa_validate, accept}
use mathlib.Core.Path.{subst}
use magilla.Conn.InFrames.{is_checked}
use magilla.Conn.WholeMessage.{is_whole_frame}
use magilla.Conn.{Machine, Conn, MessageWriter}
use magilla.Conn.Net.{Network}
use magilla.Conn.Write.{write, write_fatal, write_control}
use magilla.Conn.Message.{
  flush_frame, after_write, end_message, put_back, release_write_mu, message_close,
}
use magilla.Conn.Send.{
  Outcome, returned, blocked, stuck, taken, timed_out, waits, begin_message, next_writer,
  write_message, acquire_write_mu, on_lock, open_writer, write_and_close, write_one_frame,
  write_whole, write_in_frames, pipeline_close,
}

-- The error `e` is latched, and the network was not touched.
abbrev pub IsBroken : Error → Network → Conn → Type 0
IsBroken e n c = (c.write_err ≡ some e) × (c.net ≡ n)

-- The same of a call that returned an error.
abbrev pub Refuses : Error → Network → Option Error × Conn → Type 0
Refuses e n (err, c) = (err ≢ none) × IsBroken e n c

-- How such a call ends: with an error, or by waiting for a lock that is held.
abbrev pub IsRefused : Error → Network → Conn → Outcome (Option Error) → Type 0
IsRefused e n c (returned err c') = Refuses e n (err, c')
IsRefused e n c blocked = c.write_mu ≡ false
IsRefused e n c stuck = ⊥

acquire-cases :
    (d : Option ℕ) (c : Conn)
    → ((c.write_mu ≡ false) × (acquire_write_mu d c ≡ waits))
      ⊎ ((acquire_write_mu d c ≡ timed_out)
          ⊎ (acquire_write_mu d c ≡ taken (record c { write_mu = false })))
unfolding acquire_write_mu
acquire-cases d c = ground arith

-- What holds of a call that takes the lock first.
on_lock-holds :
    {A : Type 0} (P : Outcome A → Type 0) (c : Conn) (late : Outcome A) (f : Conn → Outcome A)
    → (c.write_mu ≡ false → P blocked)
    → P late
    → P (f (record c { write_mu = false }))
    → P (on_lock (acquire_write_mu c.write_deadline c) late f)
on_lock-holds P c late f waiting l h = elim (acquire-cases c.write_deadline c) [
  | inl (held, e) ↦ subst (λ a. P (on_lock a late f)) (sym e) (waiting held)
  | inr (inl e) ↦ subst (λ a. P (on_lock a late f)) (sym e) l
  | inr (inr e) ↦ subst (λ a. P (on_lock a late f)) (sym e) h
]

module _ (m : Machine) (e : Error) (n : Network) where
  end_message-IsBroken :
      (old : Error) (w : MessageWriter) (c : Conn)
      → IsBroken e n c
      → Refuses e n ((end_message old w c).err, (end_message old w c).conn)
  unfolding end_message put_back release_write_mu
  end_message-IsBroken old w c b = ground arith

  write-Refuses :
      (t : ℕ) (buf extra : List ℕ) (c : Conn) → IsBroken e n c → write t buf extra c ≡ (some e, c)
  unfolding write
  write-Refuses t buf extra c b = rw b.0 refl

  flush_frame-Refuses :
      (final : Bool) (extra : List ℕ) (w : MessageWriter) (c : Conn)
      → IsBroken e n c
      → Refuses e n ((flush_frame m final extra w c).err, (flush_frame m final extra w c).conn)
  unfolding flush_frame after_write write write_fatal end_message put_back release_write_mu
  flush_frame-Refuses final extra w c b = ground arith

  message_close-Refuses :
      (w : MessageWriter) (c : Conn)
      → IsBroken e n c
      → Refuses e n ((message_close m w c).err, (message_close m w c).conn)
  unfolding message_close
  message_close-Refuses w c b = ground (arith, flush_frame-Refuses true [] w c)

  begin_message-Refuses : (t : ℕ) (c : Conn) → IsBroken e n c → Refuses e n (begin_message m t c)
  unfolding begin_message pipeline_close
  begin_message-Refuses t c b = elim (Option-cases c.writer) [
    | inl idle ↦ rw idle (ground arith)
    | inr (p, busy) ↦ rw busy (let q = message_close-Refuses p.message c b in ground (arith, q))
  ]

  write_one_frame-IsRefused :
      (t : ℕ) (body : List ℕ) (c : Conn) (r : Option Error × Conn)
      → Refuses e n r
      → IsRefused e n c (write_one_frame m t body r)
  unfolding write_one_frame release_write_mu
  write_one_frame-IsRefused t body c (some e', c') h = h
  write_one_frame-IsRefused t body c (none, c') h = absurd (h.0 refl)

  write_in_frames-IsRefused :
      (t : ℕ) (body : List ℕ) (c : Conn) (r : Option Error × Conn)
      → Refuses e n r
      → IsRefused e n c (write_and_close m body (open_writer m t r))
  unfolding write_and_close open_writer release_write_mu
  write_in_frames-IsRefused t body c (some e', c') h = h
  write_in_frames-IsRefused t body c (none, c') h = absurd (h.0 refl)

  -- Once a write error is latched, ErrCloseSent behind a close frame included, WriteMessage sends
  -- nothing, leaves the error, and returns an error itself or waits for a lock that is held.
  pub write_message-IsRefused :
      (t : ℕ) (body : List ℕ) (c : Conn)
      → IsBroken e n c
      → IsRefused e n c (write_message m t body c)
  unfolding write_message write_whole write_in_frames next_writer write_and_close
  write_message-IsRefused t body c b =
      let late : IsRefused e n c (returned (some write_timeout) c) = (ground arith, b) in
      let begun = begin_message-Refuses t (record c { write_mu = false }) b in
      let whole : IsRefused e n c (write_whole m t body c) =
        on_lock-holds (IsRefused e n c) c _ _ (λ held. held) late
          (write_one_frame-IsRefused t body c _ begun) in
      let frames : IsRefused e n c (write_in_frames m t body c) =
        on_lock-holds (λ o. IsRefused e n c (write_and_close m body o)) c _ _ (λ held. held) late
          (write_in_frames-IsRefused t body c _ begun) in
      let refused : IsRefused e n c (returned (some invalid_utf8) c) = (ground arith, b) in
      elim (Bool-cases (is_checked t c && not (dfa_validate body == accept))) [
        | inl bad ↦ rw bad refused
        | inr good ↦ rw good (elim (Bool-cases (is_whole_frame m c body)) [
          | inl one ↦ rw one whole
          | inr many ↦ rw many frames
        ])
      ]

  -- Once a write error is latched WriteControl sends nothing, leaves the error, and returns an
  -- error itself, whatever its message and its deadline.
  pub write_control-Refuses :
      (t : ℕ) (body : List ℕ) (deadline : Option ℕ) (c : Conn)
      → IsBroken e n c
      → Refuses e n (write_control m t body deadline c)
  unfolding write_control
  write_control-Refuses t body deadline c b = ground arith
