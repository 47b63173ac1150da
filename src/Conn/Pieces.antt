-- ===== src/Conn/Pieces.antt =====
-- What a single read takes of a reader that ends in EOF.
use magilla.Base.{
  ℕ, zero, suc, ◌≤◌, ◌<◌, ◌≡◌, refl, ap, arith, List, [], ◌∷◌, ◌++◌, Option, none, some,
}
use magilla.Base.{length, All, IsByte}
use magilla.Errors.{Error}
use magilla.Conn.Net.{Input, octet, pause, stop, read_input, take_chunk}
use magilla.Conn.Strings.{unless_eof}

-- The bytes of a reader that ends in EOF and has no other error.
abbrev pub stream : List Input → List ℕ
stream [] = []
stream (octet b ∷ is) = b ∷ stream is
stream (pause ∷ is) = stream is
stream (stop e ∷ is) = []

abbrev pub EndsInEof : List Input → Type 0
EndsInEof [] = Unit
EndsInEof (octet b ∷ is) = EndsInEof is
EndsInEof (pause ∷ is) = EndsInEof is
EndsInEof (stop e ∷ is) = ⊥

abbrev pub final : Option Error → Option Error
final none = none
final (some e) = unless_eof e

-- What a read takes of the stream.
pub record Taken (n : ℕ) (is : List Input) : Type 0 where
  pub got : (read_input n is).bytes ++ stream (read_input n is).left ≡ stream is
  pub rest : EndsInEof (read_input n is).left
  pub few : length (read_input n is).bytes ≤ n
  pub ends : final (read_input n is).err ≡ none
  pub empty : (e : Error) → (read_input n is).err ≡ some e → stream (read_input n is).left ≡ []
  pub goes_on : (read_input n is).err ≡ none → length (read_input n is).left < length is

chunk-stream :
    (n : ℕ) (is : List Input) → (take_chunk n is).bytes ++ stream (take_chunk n is).left ≡ stream is
unfolding take_chunk
chunk-stream zero is = refl
chunk-stream (suc n) [] = refl
chunk-stream (suc n) (octet b ∷ is) = ap (λ t. b ∷ t) (chunk-stream n is)
chunk-stream (suc n) (pause ∷ is) = refl
chunk-stream (suc n) (stop e ∷ is) = refl

chunk-rest :
    (n : ℕ) (is : List Input)
    → EndsInEof is
    → EndsInEof (take_chunk n is).left
      × (length (take_chunk n is).bytes ≤ n)
      × (length (take_chunk n is).left ≤ length is)
      × ((take_chunk n is).err ≡ none)
unfolding take_chunk
chunk-rest zero is h = (h, omega arith, omega arith, refl)
chunk-rest (suc n) [] h = (tt, omega arith, omega arith, refl)
chunk-rest (suc n) (octet b ∷ is) h =
    let (a, b', c, d) = chunk-rest n is h in (a, omega (arith, b'), omega (arith, c), d)
chunk-rest (suc n) (pause ∷ is) h = (h, omega arith, omega arith, refl)
chunk-rest (suc n) (stop e ∷ is) h = absurd h

read_input-Taken : (n : ℕ) (is : List Input) → EndsInEof is → Taken (suc n) is
unfolding read_input take_chunk
read_input-Taken n [] h = record {
  got = refl;
  rest = tt;
  few = omega arith;
  ends = refl;
  empty = λ e x. refl;
  goes_on = λ x. cc;
}
read_input-Taken n (octet b ∷ is) h =
    let (a, b', c, d) = chunk-rest n is h in
    record {
      got = ap (λ t. b ∷ t) (chunk-stream n is);
      rest = a;
      few = omega (arith, b');
      ends = ap final d;
      empty = λ e x. ground (arith, d, x);
      goes_on = λ x. omega (arith, c);
    }
read_input-Taken n (pause ∷ is) h =
    let t = read_input-Taken n is h in
    record {
      got = t.got;
      rest = t.rest;
      few = t.few;
      ends = t.ends;
      empty = t.empty;
      goes_on = λ x. omega (arith, t.goes_on x);
    }
read_input-Taken n (stop e ∷ is) h = absurd h

pub read-Taken : (n : ℕ) (is : List Input) → 0 < n → EndsInEof is → Taken n is
read-Taken zero is pos plain = absurd (omega (arith, pos))
read-Taken (suc n) is pos plain = read_input-Taken n is plain

pub split-bytes : (a b : List ℕ) → All IsByte (a ++ b) → All IsByte a × All IsByte b
split-bytes [] b h = (tt, h)
split-bytes (x ∷ a) b (h, hs) = let (l, r) = split-bytes a b hs in ((h, l), r)
