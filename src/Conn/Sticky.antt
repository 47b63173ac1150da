-- ===== src/Conn/Sticky.antt =====
-- NextReader on a connection that has failed.
use magilla.Base.{ℕ, zero, suc, ◌+◌, ◌≡◌, refl, ap, ◌∙◌, arith, true, false, Option, none, some}
use magilla.Base.{leb, if◌then◌else◌, ◌⊎◌, inl, inr, Bool-cases}
use mathlib.Core.Path.{subst}
use magilla.Errors.{Error, is_timeout, is_data}
use magilla.Conn.{Machine, Conn}
use magilla.Conn.Read.{Advanced, advance_frame}
use magilla.Conn.Receive.{
  Next, message, no_message, panics, failed_read, next_round, next_loop, next_reader, new_reader,
}
use magilla.Conn.Terminates.{by_option, by_if}

-- What an application sees of a call.
pub data Answer : Type 0 where
  gives_message panicked ran_out : Answer
  fails : Option Error → Answer

abbrev pub answer_of : Option Next → Answer
answer_of none = ran_out
answer_of (some (message t reader c)) = gives_message
answer_of (some (no_message e c)) = fails e
answer_of (some (panics c)) = panicked

-- An error that was returned is a timeout, or it stays with the connection.
abbrev IsLatched : Next → Type 0
IsLatched (message t reader c) = Unit
IsLatched (no_message none c) = Unit
IsLatched (no_message (some e) c) = (is_timeout e ≡ true) ⊎ (c.read_err ≡ some e)
IsLatched (panics c) = Unit

abbrev IsLatched? : Option Next → Type 0
IsLatched? none = Unit
IsLatched? (some n) = IsLatched n

module _ (m : Machine) where
  no_message-IsLatched : (o : Option Error) (c : Conn) → c.read_err ≡ o → IsLatched (no_message o c)
  no_message-IsLatched none c h = tt
  no_message-IsLatched (some e) c h = inr h

  failed_read-IsLatched : (c : Conn) → IsLatched (failed_read m c)
  unfolding failed_read
  failed_read-IsLatched c =
      by_if IsLatched (leb 1000 (c.read_err_count + 1)) _ _ (λ e. tt)
        (λ e. no_message-IsLatched c.read_err _ refl)

  -- A round that ends latches its error.
  abbrev LatchedRound : Next ⊎ Conn → Type 0
  LatchedRound (inl n) = IsLatched n
  LatchedRound (inr c) = Unit

  next_round-IsLatched : (a : Advanced m) → LatchedRound (next_round m a)
  unfolding next_round new_reader
  next_round-IsLatched (inl e, c) =
      by_if LatchedRound (is_timeout e) _ _ (λ timeout. inl timeout)
        (λ lasting. failed_read-IsLatched (record c { read_err = some e }))
  next_round-IsLatched (inr t, c) =
      by_if LatchedRound (is_data t) (inl (new_reader m t (record c { read_err_count = 0 })))
        (inr (record c { read_err_count = 0 })) (λ data'. tt) (λ other. tt)

  next_loop-IsLatched : (fuel : ℕ) (c : Conn) → IsLatched? (next_loop m fuel c)
  unfolding next_loop
  next_loop-IsLatched zero c = tt
  next_loop-IsLatched (suc fuel) c =
      by_option IsLatched? c.read_err (λ e. some (failed_read m c)) _
        (λ e bad. failed_read-IsLatched c)
        (λ fine.
          again (next_round m (advance_frame m c)) (next_round-IsLatched (advance_frame m c))
            (λ c'. next_loop-IsLatched fuel c'))
    where
      again :
          (r : Next ⊎ Conn)
          → LatchedRound r
          → ((c' : Conn) → IsLatched? (next_loop m fuel c'))
          → IsLatched?
              (elim r as (λ _. Option Next) [ inl next ↦ some next | inr c' ↦ next_loop m fuel c' ])
      again (inl n) h more = h
      again (inr c') h more = more c'

  -- One call after another; the last of `n + 1`, or the first that panics.
  unfoldable pub next_readers : ℕ → Conn → Option Next
  next_readers zero c = next_reader m c
  next_readers (suc n) c = elim (next_reader m c) [
    | none ↦ none
    | some (message t reader c') ↦ next_readers n c'
    | some (no_message e c') ↦ next_readers n c'
    | some (panics c') ↦ some (panics c')
  ]

  -- The connection after a call that fails.
  abbrev after_failure : Conn → Conn
  after_failure c = record c {
    message_reader = none;
    read_length = 0;
    read_err_count = c.read_err_count + 1;
  }

  next_reader-failed :
      (c : Conn) (e : Error)
      → c.read_err ≡ some e
      → next_reader m c ≡ (
          if leb 1000 (c.read_err_count + 1)
          then some (panics (after_failure c))
          else some (no_message (some e) (after_failure c)))
  unfolding next_reader next_loop failed_read
  next_reader-failed c e bad = ground (arith, bad)

  goes_on :
      (n : ℕ) (c c' : Conn) (o : Option Error)
      → next_reader m c ≡ some (no_message o c')
      → next_readers (suc n) c ≡ next_readers n c'
  unfolding next_readers
  goes_on n c c' o e = ground (arith, e)

  stops :
      (n : ℕ) (c c' : Conn)
      → next_reader m c ≡ some (panics c')
      → next_readers (suc n) c ≡ some (panics c')
  unfolding next_readers
  stops n c c' e = ground (arith, e)

  next_readers-failed :
      (n : ℕ) (c : Conn) (e : Error)
      → c.read_err ≡ some e
      → answer_of (next_readers n c)
        ≡ (if leb 1000 (c.read_err_count + suc n) then panicked else fails (some e))
  unfolding next_readers
  next_readers-failed zero c e bad = elim (Bool-cases (leb 1000 (c.read_err_count + 1))) [
    | inl many ↦ rw (next_reader-failed c e bad) (rw many refl)
    | inr few ↦ rw (next_reader-failed c e bad) (rw few refl)
  ]
  next_readers-failed (suc n) c e bad =
      let first = next_reader-failed c e bad in
      elim (Bool-cases (leb 1000 (c.read_err_count + 1))) [
        | inl many ↦
            let all : leb 1000 (c.read_err_count + suc (suc n)) ≡ true = ground arith in
            ap answer_of (stops n c (after_failure c) (first ∙ rw many refl)) ∙ rw all refl
        | inr few ↦
            ap answer_of (goes_on n c (after_failure c) (some e) (first ∙ rw few refl))
            ∙ next_readers-failed n (after_failure c) e bad
            ∙ ap (λ (k : ℕ). if leb 1000 k then panicked else fails (some e)) (omega arith)
      ]

  -- Errors of NextReader are permanent, but for timeouts: once it has returned an error that is no
  -- timeout, call after call returns the same error, until the calls that failed in a row are a
  -- thousand, from which on it panics.
  pub next_reader-permanent :
      (n : ℕ) (c c' : Conn) (e : Error)
      → next_reader m c ≡ some (no_message (some e) c')
      → is_timeout e ≡ false
      → answer_of (next_readers n c')
        ≡ (if leb 1000 (c'.read_err_count + suc n) then panicked else fails (some e))
  unfolding next_reader
  next_reader-permanent n c c' e h lasting =
      let latched : IsLatched (no_message (some e) c') =
        subst IsLatched? h (next_loop-IsLatched _ _) in
      elim latched [
        | inl timeout ↦ absurd (ground (arith, timeout, lasting))
        | inr bad ↦ next_readers-failed n c' e bad
      ]
