-- ===== src/Conn/Terminates.antt =====
-- NextReader, the readers and ReadMessage return.
use magilla.Base.{
  ℕ, zero, suc, ◌+◌, ◌≤◌, ◌<◌, ◌≡◌, refl, arith, Bool, true, false, Option, none, some, length,
}
use magilla.Base.{inl, inr, ltb, if◌then◌else◌, ◌⊎◌}
use magilla.Errors.{Error}
use magilla.Conn.{Machine, Conn}
use magilla.Conn.Read.{Advanced, advance_frame}
use magilla.Conn.Receive.{
  Next, message, no_message, panics, next_round, next_loop, next_reader, new_reader, failed_read,
  next_part, read_loop, message_read, failed_piece, is_current,
}
use magilla.Conn.Progress.{Leaves, advance_frame-Leaves}

-- There is a result.
abbrev pub Returns {ℓ} : {A : Type ℓ} → Option A → Type 0
Returns none = ⊥
Returns (some a) = Unit

-- What holds in both cases holds of the choice.
pub by_option {ℓ ℓ'} :
    {A : Type ℓ} {B : Type ℓ'} (P : B → Type 0) (o : Option A) (f : A → B) (x : B)
    → ((a : A) → o ≡ some a → P (f a))
    → ((o ≡ none) → P x)
    → P (elim o as (λ _. B) [ none ↦ x | some a ↦ f a ])
by_option P none f x on_some on_none = on_none refl
by_option P (some a) f x on_some on_none = on_some a refl

pub by_if {ℓ} :
    {A : Type ℓ} (P : A → Type 0) (b : Bool) (x y : A)
    → (b ≡ true → P x)
    → (b ≡ false → P y)
    → P (if b then x else y)
by_if P true x y h h' = h refl
by_if P false x y h h' = h' refl

-- A reader of a message starts with at least two events less than `k` of the input, and without a
-- message there is an error.
abbrev pub Starts : ℕ → Next → Type 0
Starts k (message t reader c) = 2 + length c.input ≤ k
Starts k (no_message e c) = Returns e
Starts k (panics c) = Unit

-- NextReader returned, with such a reader if with any.
abbrev pub Found : ℕ → Option Next → Type 0
Found k none = ⊥
Found k (some n) = Starts k n

-- Another round has at least two events less than `k` of the input.
abbrev GoesOn : ℕ → Next ⊎ Conn → Type 0
GoesOn k (inl n) = Starts k n
GoesOn k (inr c) = 2 + length c.input ≤ k

module _ (m : Machine) where
  some-Returns : (o : Option Error) (e : Error) → o ≡ some e → Returns o
  some-Returns none e h = cc
  some-Returns (some e') e h = tt

  failed_read-Starts : (k : ℕ) (c : Conn) → Returns c.read_err → Starts k (failed_read m c)
  unfolding failed_read
  failed_read-Starts k c bad = ground (arith, bad)

  next_round-GoesOn : (k : ℕ) (a : Advanced m) → Leaves m k a → GoesOn k (next_round m a)
  unfolding next_round new_reader
  next_round-GoesOn k (inl e, c) h =
      ground (arith, failed_read-Starts k (record c { read_err = some e }) tt)
  next_round-GoesOn k (inr t, c) h = ground (arith, h.0)

  Starts-le : (j k : ℕ) (n : Next) → j ≤ k → Starts j n → Starts k n
  Starts-le j k (message t reader c) le g = omega (arith, le, g)
  Starts-le j k (no_message e c) le g = g
  Starts-le j k (panics c) le g = tt

  next_loop-more :
      (fuel j k : ℕ) (r : Next ⊎ Conn)
      → ((c : Conn) → 2 + length c.input ≤ j → Found k (next_loop m fuel c))
      → j ≤ k
      → GoesOn j r
      → Found k (elim r as (λ _. Option Next) [ inl next ↦ some next | inr c ↦ next_loop m fuel c ])
  next_loop-more fuel j k (inl n) more le g = Starts-le j k n le g
  next_loop-more fuel j k (inr c) more le g = more c g

  -- A round that goes on has taken two events off the input, so that a fuel above its length is
  -- enough.
  next_loop-Found :
      (fuel k : ℕ) (c : Conn)
      → length c.input < fuel
      → length c.input ≤ k
      → Found k (next_loop m fuel c)
  unfolding next_loop
  next_loop-Found zero k c h le = omega (arith, h)
  next_loop-Found (suc fuel) k c h le =
      let a = advance_frame m c in
      by_option (Found k) c.read_err (λ e. some (failed_read m c)) _
        (λ e bad. failed_read-Starts k c (some-Returns c.read_err e bad))
        (λ fine.
          next_loop-more fuel (length c.input) k (next_round m a)
            (λ c' less.
              next_loop-Found fuel k c' (omega (arith, less, h)) (omega (arith, less, le)))
            le (next_round-GoesOn (length c.input) a (advance_frame-Leaves m c)))

  -- NextReader returns, on whatever input: a reader of a message, with two bytes less to come, or
  -- an error, or the panic.
  pub next_reader-Found : (c : Conn) → Found (length c.input) (next_reader m c)
  unfolding next_reader
  next_reader-Found c = next_loop-Found _ _ _ (omega arith) (omega arith)

  -- Unless it has failed, a reader that goes on with the next frame has a shorter input.
  pub next_part-shorter :
      (k : ℕ) (a : Advanced m)
      → Leaves m k a
      → (next_part m a).read_err ≡ none
      → 2 + length (next_part m a).input ≤ k
  unfolding next_part
  next_part-shorter k (inl e, c) h fine = ground (arith, fine)
  next_part-shorter k (inr t, c) h fine = ground (arith, h.0, fine)

  read_loop-Returns :
      (fuel size : ℕ) (c : Conn)
      → (c.read_err ≡ none → length c.input + 1 < suc fuel)
      → Returns (read_loop m (suc fuel) size c)
  unfolding read_loop
  read_loop-Returns zero size c h =
      by_option Returns c.read_err (λ e. some (failed_piece m c)) _ (λ e bad. tt)
        (λ fine.
          by_if Returns (ltb 0 c.read_remaining) _ _ (λ more. tt)
            (λ done. by_if Returns c.read_final _ _ (λ final. tt) (λ more. omega (arith, h fine))))
  read_loop-Returns (suc fuel) size c h =
      by_option Returns c.read_err (λ e. some (failed_piece m c)) _ (λ e bad. tt)
        (λ fine.
          by_if Returns (ltb 0 c.read_remaining) _ _ (λ more. tt)
            (λ done.
              by_if Returns c.read_final _ _ (λ final. tt)
                (λ more. read_loop-Returns fuel size (next_part m (advance_frame m c)) (λ fine'.
                  omega (
                    arith,
                    h fine,
                    next_part-shorter _ (advance_frame m c) (advance_frame-Leaves m c) fine',
                  )))))

  -- A Read of the current reader, or of another, returns.
  pub message_read-Returns : (reader size : ℕ) (c : Conn) → Returns (message_read m reader size c)
  unfolding message_read
  message_read-Returns reader size c =
      by_if Returns (is_current m reader c.message_reader) _ _
        (λ current. read_loop-Returns (suc (length c.input)) size c (λ fine. omega arith))
        (λ other. tt)
