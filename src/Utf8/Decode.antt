-- ===== src/Utf8/Decode.antt =====
-- A run of the automaton that ends in the accept state has read the encoding of a text.
use magilla.Base.{
  ℕ, zero, suc, ◌+◌, ◌-◌, ◌*◌, ◌≤◌, ◌<◌, ◌≡◌, refl, ap, ◌∙◌, arith, List, [], ◌∷◌, ◌++◌, ltb, leb,
  ◌==◌, Bool-cases, false, ◌&&◌, if◌then◌else◌, inl, inr, length,
}
use magilla.Utf8.Table.{within, lead_state}
use magilla.Utf8.Spec.{IsScalar, encode, encode_all, IsUtf8}
use magilla.Utf8.Run.{run, run_reject}

within_out : (lo hi next b : ℕ) → (leb lo b && leb b hi) ≡ false → within lo hi next b ≡ 1
within_out lo hi next b e = rw e

-- A run that ends in the accept state has read a byte in `[lo, hi]` first.
record Reads (lo hi next : ℕ) (p : List ℕ) : Type 0 where
  byte : ℕ
  rest : List ℕ
  split : p ≡ byte ∷ rest
  low : lo ≤ byte
  high : byte ≤ hi
  goes_on : run next rest ≡ 0

Reads-within :
    (lo hi next b : ℕ) (q : List ℕ) → run (within lo hi next b) q ≡ 0 → Reads lo hi next (b ∷ q)
Reads-within lo hi next b q h = elim (Bool-cases (leb lo b && leb b hi)) [
  | inl e ↦ record {
    byte = b;
    rest = q;
    split = refl;
    low = ground arith;
    high = ground arith;
    goes_on = rw e at h;
  }
  | inr e ↦ absurd (ground (arith, ap (λ t. run t q) (within_out lo hi next b e), run_reject q))
]

one_tail : (p : List ℕ) → run 2 p ≡ 0 → Reads 0x80 0xbf 0 p
unfolding run
one_tail [] h = absurd (omega arith)
one_tail (b ∷ q) h = Reads-within _ _ _ b q h

two_tails : (p : List ℕ) → run 3 p ≡ 0 → Reads 0x80 0xbf 2 p
unfolding run
two_tails [] h = absurd (omega arith)
two_tails (b ∷ q) h = Reads-within _ _ _ b q h

after_e0 : (p : List ℕ) → run 4 p ≡ 0 → Reads 0xa0 0xbf 2 p
unfolding run
after_e0 [] h = absurd (omega arith)
after_e0 (b ∷ q) h = Reads-within _ _ _ b q h

after_ed : (p : List ℕ) → run 5 p ≡ 0 → Reads 0x80 0x9f 2 p
unfolding run
after_ed [] h = absurd (omega arith)
after_ed (b ∷ q) h = Reads-within _ _ _ b q h

after_f0 : (p : List ℕ) → run 6 p ≡ 0 → Reads 0x90 0xbf 3 p
unfolding run
after_f0 [] h = absurd (omega arith)
after_f0 (b ∷ q) h = Reads-within _ _ _ b q h

after_f1 : (p : List ℕ) → run 7 p ≡ 0 → Reads 0x80 0xbf 3 p
unfolding run
after_f1 [] h = absurd (omega arith)
after_f1 (b ∷ q) h = Reads-within _ _ _ b q h

after_f4 : (p : List ℕ) → run 8 p ≡ 0 → Reads 0x80 0x8f 3 p
unfolding run
after_f4 [] h = absurd (omega arith)
after_f4 (b ∷ q) h = Reads-within _ _ _ b q h

-- The first code point of an accepted run, and the accepted rest.
record First (p : List ℕ) : Type 0 where
  code_point : ℕ
  rest : List ℕ
  scalar : IsScalar code_point
  split : p ≡ encode code_point ++ rest
  goes_on : run 0 rest ≡ 0

two_bytes : (b : ℕ) (p : List ℕ) → 0xc2 ≤ b → b < 0xe0 → Reads 0x80 0xbf 0 p → First (b ∷ p)
unfolding encode
two_bytes b p lo hi r = record {
  code_point = (b - 0xc0) * 64 + (r.byte - 0x80);
  rest = r.rest;
  scalar = inl (omega (arith, r.low, r.high));
  split = rw r.split (ground (arith, r.low, r.high));
  goes_on = r.goes_on;
}

-- `lo` and `hi` are the bounds that the lead byte puts on its successor.
three_bytes :
    (lo hi b : ℕ) (p : List ℕ)
    → 0xe0 ≤ b
    → b < 0xf0
    → 0x80 ≤ lo
    → hi ≤ 0xbf
    → (b ≡ 0xe0 → 0xa0 ≤ lo)
    → (b ≡ 0xed → hi ≤ 0x9f)
    → Reads lo hi 2 p
    → First (b ∷ p)
unfolding encode
three_bytes lo hi b p hb hb' hlo hhi e0 ed r =
    let s = one_tail r.rest r.goes_on in
    record {
      code_point = (b - 0xe0) * 4096 + (r.byte - 0x80) * 64 + (s.byte - 0x80);
      rest = s.rest;
      scalar = ground (arith, r.low, r.high, s.low, s.high);
      split = rw (r.split) (rw s.split (ground (arith, r.low, r.high, s.low, s.high)));
      goes_on = s.goes_on;
    }

four_bytes :
    (lo hi b : ℕ) (p : List ℕ)
    → 0xf0 ≤ b
    → b < 0xf5
    → 0x80 ≤ lo
    → hi ≤ 0xbf
    → (b ≡ 0xf0 → 0x90 ≤ lo)
    → (b ≡ 0xf4 → hi ≤ 0x8f)
    → Reads lo hi 3 p
    → First (b ∷ p)
unfolding encode
four_bytes lo hi b p hb hb' hlo hhi f0 f4 r =
    let s = two_tails r.rest r.goes_on in
    let t = one_tail s.rest s.goes_on in
    record {
      code_point =
          (b - 0xf0) * 262144 + (r.byte - 0x80) * 4096 + (s.byte - 0x80) * 64 + (t.byte - 0x80);
      rest = t.rest;
      scalar = inr (ground (arith, r.low, r.high, s.low, s.high, t.low, t.high));
      split =
          rw r.split
            (rw s.split (rw t.split (ground (arith, r.low, r.high, s.low, s.high, t.low, t.high))));
      goes_on = t.goes_on;
    }

rejected : (p : List ℕ) → run 1 p ≡ 0 → ⊥
rejected p h = ground (arith, run_reject p)

abbrev four_lead : ℕ → ℕ
four_lead b = if b == 0xf0 then 6 else if ltb b 0xf4 then 7 else if b == 0xf4 then 8 else 1

first_of_four : (b : ℕ) (p : List ℕ) → 0xf0 ≤ b → run (four_lead b) p ≡ 0 → First (b ∷ p)
first_of_four b p lo h = elim (Bool-cases (b == 0xf0)) [
  | inl e ↦
      let e' : b ≡ 0xf0 = ground arith in
      four_bytes 0x90 0xbf b p lo (omega arith) (omega arith) (omega arith) (λ q. omega arith)
        (λ q. omega arith) (after_f0 p (rw e at h))
  | inr n1 ↦ elim (Bool-cases (ltb b 0xf4)) [
    | inl e ↦
        let e' : b < 0xf4 = ground arith in
        four_bytes 0x80 0xbf b p lo (omega arith) (omega arith) (omega arith) (λ q. ground arith)
          (λ q. omega arith) (after_f1 p (rw (n1, e) at h))
    | inr n2 ↦ elim (Bool-cases (b == 0xf4)) [
      | inl e ↦
          let e' : b ≡ 0xf4 = ground arith in
          four_bytes 0x80 0x8f b p lo (omega arith) (omega arith) (omega arith) (λ q. omega arith)
            (λ q. omega arith) (after_f4 p (rw (n1, n2, e) at h))
      | inr n3 ↦ absurd (rejected p (rw (n1, n2, n3) at h))
    ]
  ]
]

-- The lead bytes from e0 on.
abbrev long_lead : ℕ → ℕ
long_lead b =
    if b == 0xe0
    then 4
    else if b == 0xed
    then 5
    else if ltb b 0xf0
    then 3
    else if b == 0xf0
    then 6
    else if ltb b 0xf4
    then 7
    else if b == 0xf4
    then 8
    else 1

first_of_long : (b : ℕ) (p : List ℕ) → 0xe0 ≤ b → run (long_lead b) p ≡ 0 → First (b ∷ p)
first_of_long b p lo h = elim (Bool-cases (b == 0xe0)) [
  | inl e ↦
      let e' : b ≡ 0xe0 = ground arith in
      three_bytes 0xa0 0xbf b p (omega arith) (omega arith) (omega arith) (omega arith)
        (λ q. omega arith) (λ q. omega arith) (after_e0 p (rw e at h))
  | inr n1 ↦ elim (Bool-cases (b == 0xed)) [
    | inl e ↦
        let e' : b ≡ 0xed = ground arith in
        three_bytes 0x80 0x9f b p (omega arith) (omega arith) (omega arith) (omega arith)
          (λ q. omega arith) (λ q. omega arith) (after_ed p (rw (n1, e) at h))
    | inr n2 ↦ elim (Bool-cases (ltb b 0xf0)) [
      | inl e ↦
          let e' : b < 0xf0 = ground arith in
          three_bytes 0x80 0xbf b p lo e' (omega arith) (omega arith) (λ q. ground arith)
            (λ q. ground arith) (two_tails p (rw (n1, n2, e) at h))
      | inr n3 ↦ first_of_four b p (ground arith) (rw (n1, n2, n3) at h)
    ]
  ]
]

first : (b : ℕ) (p : List ℕ) → run (lead_state b) p ≡ 0 → First (b ∷ p)
unfolding encode
first b p h = elim (Bool-cases (ltb b 0x80)) [
  | inl ascii ↦ record {
    code_point = b;
    rest = p;
    scalar = inl (ground arith);
    split = ground arith;
    goes_on = rw ascii at h;
  }
  | inr n1 ↦ elim (Bool-cases (ltb b 0xc2)) [
    | inl e ↦ absurd (rejected p (rw (n1, e) at h))
    | inr n2 ↦ elim (Bool-cases (ltb b 0xe0)) [
      | inl e ↦ two_bytes b p (ground arith) (ground arith) (one_tail p (rw (n1, n2, e) at h))
      | inr n3 ↦ first_of_long b p (ground arith) (rw (n1, n2, n3) at h)
    ]
  ]
]

length-encode-pos : (c : ℕ) (p : List ℕ) → length p < length (encode c ++ p)
unfolding encode
length-encode-pos c p = ground arith

-- Fuel above the length is enough, since each code point takes a byte or more.
pub decode : (n : ℕ) (p : List ℕ) → length p ≤ n → run 0 p ≡ 0 → IsUtf8 p
unfolding run encode_all
decode n [] h acc = record { text = []; scalars = tt; encoded = refl }
decode zero (b ∷ p) h acc = absurd (omega arith)
decode (suc n) (b ∷ p) h acc =
    let f = first b p acc in
    let shorter : length f.rest ≤ n =
      omega (arith, h, length-encode-pos f.code_point f.rest, ap length f.split) in
    let r = decode n f.rest shorter f.goes_on in
    record {
      text = f.code_point ∷ r.text;
      scalars = (f.scalar, r.scalars);
      encoded = f.split ∙ ap (λ t. encode f.code_point ++ t) r.encoded;
    }
