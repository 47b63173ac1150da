-- ===== src/Conn/Buffer.antt =====
-- `copy` and slices of the write buffer: writes side by side, and writes into one part of it.
use magilla.Base.{ℕ, zero, suc, ◌+◌, ◌-◌, ◌≤◌, ◌≡◌, refl, ap, arith, List, [], ◌∷◌, ◌++◌}
use magilla.Base.{take, min, length, drop}
use magilla.Conn.Write.{copy_at, slice}

pub length-copy_at : (i : ℕ) (bs buf : List ℕ) → length (copy_at i bs buf) ≡ length buf
unfolding copy_at
length-copy_at i bs [] = refl
length-copy_at zero [] (x ∷ buf) = refl
length-copy_at zero (b ∷ bs) (x ∷ buf) = ap suc (length-copy_at zero bs buf)
length-copy_at (suc i) bs (x ∷ buf) = ap suc (length-copy_at i bs buf)

copy_nothing : (i : ℕ) (buf : List ℕ) → copy_at i [] buf ≡ buf
unfolding copy_at
copy_nothing i [] = refl
copy_nothing zero (x ∷ buf) = refl
copy_nothing (suc i) (x ∷ buf) = ap (λ t. x ∷ t) (copy_nothing i buf)

-- Two writes, the second where the first ends, are one.
pub copy_at-copy_at :
    (i j : ℕ) (xs ys buf : List ℕ)
    → j ≡ i + length xs
    → copy_at j ys (copy_at i xs buf) ≡ copy_at i (xs ++ ys) buf
unfolding copy_at
copy_at-copy_at i j xs ys [] e = refl
copy_at-copy_at zero zero [] ys (x ∷ buf) e = refl
copy_at-copy_at zero (suc j) [] ys (x ∷ buf) e = absurd (omega arith)
copy_at-copy_at zero zero (b ∷ xs) ys (x ∷ buf) e = absurd (omega arith)
copy_at-copy_at zero (suc j) (b ∷ xs) ys (x ∷ buf) e =
    ap (λ t. b ∷ t) (copy_at-copy_at zero j xs ys buf (omega arith))
copy_at-copy_at (suc i) zero xs ys (x ∷ buf) e = absurd (omega arith)
copy_at-copy_at (suc i) (suc j) xs ys (x ∷ buf) e =
    ap (λ t. x ∷ t) (copy_at-copy_at i j xs ys buf (omega arith))

-- A write within the front of the buffer.
pub copy_at-append :
    (i : ℕ) (bs front back : List ℕ)
    → i + length bs ≤ length front
    → copy_at i bs (front ++ back) ≡ copy_at i bs front ++ back
unfolding copy_at
copy_at-append zero [] [] back h = copy_nothing zero back
copy_at-append zero (b ∷ bs) [] back h = absurd (omega arith)
copy_at-append (suc i) bs [] back h = absurd (omega arith)
copy_at-append zero [] (x ∷ front) back h = refl
copy_at-append zero (b ∷ bs) (x ∷ front) back h =
    ap (λ t. b ∷ t) (copy_at-append zero bs front back (omega arith))
copy_at-append (suc i) bs (x ∷ front) back h =
    ap (λ t. x ∷ t) (copy_at-append i bs front back (omega arith))

-- A write that fills the end of the front.
pub drop-copy_at :
    (i : ℕ) (bs front : List ℕ) → i + length bs ≡ length front → drop i (copy_at i bs front) ≡ bs
unfolding copy_at
drop-copy_at zero [] [] h = refl
drop-copy_at zero (b ∷ bs) [] h = absurd (omega arith)
drop-copy_at (suc i) bs [] h = absurd (omega arith)
drop-copy_at zero [] (x ∷ front) h = absurd (omega arith)
drop-copy_at zero (b ∷ bs) (x ∷ front) h =
    ap (λ t. b ∷ t) (drop-copy_at zero bs front (omega arith))
drop-copy_at (suc i) bs (x ∷ front) h = drop-copy_at i bs front (omega arith)

-- A write over what stands behind the front.
pub copy_behind :
    (n : ℕ) (front bs old back : List ℕ)
    → length front ≡ n
    → length bs ≡ length old
    → copy_at n bs (front ++ (old ++ back)) ≡ front ++ (bs ++ back)
unfolding copy_at
copy_behind zero [] [] [] back e h = copy_nothing zero back
copy_behind zero [] [] (o ∷ old) back e h = absurd (omega arith)
copy_behind zero [] (b ∷ bs) [] back e h = absurd (omega arith)
copy_behind zero [] (b ∷ bs) (o ∷ old) back e h =
    ap (λ t. b ∷ t) (copy_behind zero [] bs old back refl (omega arith))
copy_behind zero (x ∷ front) bs old back e h = absurd (omega arith)
copy_behind (suc n) [] bs old back e h = absurd (omega arith)
copy_behind (suc n) (x ∷ front) bs old back e h =
    ap (λ t. x ∷ t) (copy_behind n front bs old back (omega arith) h)

-- A slice from within the front to the end of the middle.
pub slice-append :
    (at pos : ℕ) (front mid back : List ℕ)
    → at ≤ length front
    → pos ≡ length front + length mid
    → slice at pos (front ++ (mid ++ back)) ≡ drop at front ++ mid
unfolding slice
slice-append zero zero [] [] back h e = refl
slice-append at zero (x ∷ front) mid back h e = absurd (omega arith)
slice-append at zero [] (x ∷ mid) back h e = absurd (omega arith)
slice-append (suc at) pos [] mid back h e = absurd (omega arith)
slice-append zero (suc pos) [] [] back h e = absurd (omega arith)
slice-append zero (suc pos) [] (x ∷ mid) back h e =
    ap (λ t. x ∷ t) (unfold slice in slice-append zero pos [] mid back h (omega arith))
slice-append zero (suc pos) (x ∷ front) mid back h e =
    ap (λ t. x ∷ t) (slice-append zero pos front mid back (omega arith) (omega arith))
slice-append (suc at) (suc pos) (x ∷ front) mid back h e =
    slice-append at pos front mid back (omega arith) (omega arith)

-- A copy stops at the end of the buffer.
pub copy_at-take :
    (i : ℕ) (bs buf : List ℕ)
    → copy_at i bs buf ≡ copy_at i (take (min (length buf - i) (length bs)) bs) buf
unfolding copy_at
copy_at-take i bs [] = refl
copy_at-take zero [] (x ∷ buf) = let e : min (suc (length buf) - 0) 0 ≡ 0 = omega arith in rw e
copy_at-take zero (b ∷ bs) (x ∷ buf) =
    let e : min (suc (length buf) - 0) (suc (length bs)) ≡ suc (min (length buf - 0) (length bs)) =
      omega arith in
    rw e (ap (λ t. b ∷ t) (copy_at-take zero bs buf))
copy_at-take (suc i) bs (x ∷ buf) =
    let e : suc (length buf) - suc i ≡ length buf - i = omega arith in
    rw e (ap (λ t. x ∷ t) (copy_at-take i bs buf))
