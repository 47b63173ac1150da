-- ===== src/Compression/Account.antt =====
-- An account of a truncWriter over a writer without errors: it keeps back the last four bytes of all that is written to it.
use magilla.Base.{
  ℕ, ◌+◌, ◌-◌, ◌≤◌, ◌<◌, ◌≡◌, refl, ap, sym, ◌∙◌, arith, List, [], ◌∷◌, ◌++◌, append_assoc,
  append-nil, min,
}
use magilla.Base.{
  ltb, if◌then◌else◌, ◌==◌, Bool-cases, inl, inr, length, length-append, length-take, length-drop,
  drop, take, take_all, take-append_length, ltb→lt, drop_all, take-append-drop,
}
use magilla.Conn.Write.{copy_at}
use magilla.Conn.Buffer.{copy_behind, length-copy_at, copy_at-take}
use mathlib.Core.Path.{subst}
use magilla.Compression.Window.{concat}

-- A truncWriter whose writer takes all it is given, and has got `out`.
pub record Account : Type 0 where
  pub out : List ℕ
  pub n : ℕ
  pub p : List ℕ

-- The bytes that push others out.
abbrev pub push : List ℕ → Account → Account
push b w =
    let m = min (length b) 4 in
    let p1 = copy_at 0 (drop m w.p) w.p in
    record w {
      out = (w.out ++ take m w.p) ++ take (length b - m) b;
      p = copy_at (4 - m) (drop (length b - m) b) p1;
    }

-- A write that meets no error.
abbrev pub keep_back : List ℕ → Account → Account
keep_back b w =
    if ltb w.n 4
    then (let k = min (4 - w.n) (length b) in
        let w' = record w { p = copy_at w.n b w.p; n = w.n + k } in
        let b' = drop k b in if length b' == 0 then w' else push b' w')
    else push b w

-- `whole` was written so far.
pub record Holds (whole : List ℕ) (w : Account) : Type 0 where
  pub four : length w.p ≡ 4
  pub filled : w.n ≡ min (length whole) 4
  pub kept : w.out ++ take w.n w.p ≡ whole

-- The bytes move up, and the new ones come behind them.
moved_up :
    (m : ℕ) (p r : List ℕ)
    → length p ≡ 4
    → m ≤ 4
    → length r ≡ m
    → copy_at (4 - m) r (copy_at 0 (drop m p) p) ≡ drop m p ++ r
moved_up m p r four le size =
    let q = drop m p in
    let old = take (4 - m) p in
    let back = drop (4 - m) p in
    let first : copy_at 0 q p ≡ q ++ back =
      ap (copy_at 0 q) (sym (take-append-drop (4 - m) p))
      ∙ copy_behind 0 [] q old back refl (omega (arith, length-take (4 - m) p, length-drop m p)) in
    let second =
      copy_behind (4 - m) q r back [] (omega (arith, length-drop m p))
        (omega (arith, length-drop (4 - m) p)) in
    ap (copy_at (4 - m) r) (first ∙ ap (λ t. q ++ t) (sym (append-nil back)))
    ∙ second
    ∙ ap (λ t. q ++ t) (append-nil r)

-- Either the four bytes all leave, or all the new ones stay.
swap :
    (p b : List ℕ)
    → length p ≡ 4
    → let m = min (length b) 4 in
      let k = length b - m in take k b ++ drop m p ≡ drop m p ++ take k b
swap p b four = elim (Bool-cases (ltb (length b) 4)) [
  | inl short ↦
      let k : length b - min (length b) 4 ≡ 0 = ground arith in
      let e : take (length b - min (length b) 4) b ≡ [] = ap (λ (t : ℕ). take t b) k in
      rw e (sym (append-nil (drop (min (length b) 4) p)))
  | inr long ↦
      let e = drop_all (min (length b) 4) p (ground arith) in
      rw e (append-nil (take (length b - min (length b) 4) b))
]

rejoin :
    (out p b : List ℕ)
    → length p ≡ 4
    → let m = min (length b) 4 in
      let k = length b - m in
      ((out ++ take m p) ++ take k b) ++ (drop m p ++ drop k b) ≡ (out ++ p) ++ b
rejoin out p b four =
    let m = min (length b) 4 in
    let k = length b - m in
    let s : take k b ++ (drop m p ++ drop k b) ≡ drop m p ++ b =
      sym (append_assoc (take k b) (drop m p) (drop k b))
      ∙ ap (λ t. t ++ drop k b) (swap p b four)
      ∙ append_assoc (drop m p) (take k b) (drop k b)
      ∙ ap (λ t. drop m p ++ t) (take-append-drop k b) in
    append_assoc (out ++ take m p) (take k b) (drop m p ++ drop k b)
    ∙ ap (λ t. (out ++ take m p) ++ t) s
    ∙ append_assoc out (take m p) (drop m p ++ b)
    ∙ ap (λ t. out ++ t)
        (sym (append_assoc (take m p) (drop m p) b) ∙ ap (λ t. t ++ b) (take-append-drop m p))
    ∙ sym (append_assoc out p b)

push-Holds :
    (b whole : List ℕ) (w : Account) → Holds whole w → w.n ≡ 4 → Holds (whole ++ b) (push b w)
push-Holds b whole w h full =
    let m = min (length b) 4 in
    let k = length b - m in
    let r = drop k b in
    let up = moved_up m w.p r h.four (omega arith) (omega (arith, length-drop k b)) in
    let size : length (drop m w.p ++ r) ≡ 4 =
      omega (arith, length-append (drop m w.p) r, length-drop m w.p, length-drop k b, h.four) in
    let before : w.out ++ w.p ≡ whole =
      ap (λ t. w.out ++ t) (sym (take_all 4 w.p (omega (arith, h.four))))
      ∙ ap (λ (t : ℕ). w.out ++ take t w.p) (sym full)
      ∙ h.kept in
    record {
      four = ap length up ∙ size;
      filled = omega (arith, length-append whole b, h.filled);
      kept =
          ap (λ (t : ℕ × List ℕ). ((w.out ++ take m w.p) ++ take k b) ++ take t.0 t.1)
            (λ i. (full i, up i))
          ∙ ap (λ t. ((w.out ++ take m w.p) ++ take k b) ++ t)
              (take_all 4 (drop m w.p ++ r) (omega (arith, size)))
          ∙ rejoin w.out w.p b h.four
          ∙ ap (λ t. t ++ b) before;
    }

-- The bytes that still fit.
fill-Holds :
    (b whole : List ℕ) (w : Account)
    → Holds whole w
    → w.n < 4
    → let k = min (4 - w.n) (length b) in
      Holds (whole ++ take k b) (record w { p = copy_at w.n b w.p; n = w.n + k })
fill-Holds b whole w h room =
    let k = min (4 - w.n) (length b) in
    let front = take w.n w.p in
    let old = take k (drop w.n w.p) in
    let back = drop k (drop w.n w.p) in
    let b' = take k b in
    let split : w.p ≡ front ++ (old ++ back) =
      sym (take-append-drop w.n w.p)
      ∙ ap (λ t. front ++ t) (sym (take-append-drop k (drop w.n w.p))) in
    let fits : copy_at w.n b w.p ≡ copy_at w.n b' w.p =
      copy_at-take w.n b w.p
      ∙ ap (λ (t : ℕ). copy_at w.n (take (min (t - w.n) (length b)) b) w.p) h.four in
    let size : length front ≡ w.n = omega (arith, length-take w.n w.p, h.four) in
    let laid : copy_at w.n b w.p ≡ front ++ (b' ++ back) =
      fits
      ∙ ap (copy_at w.n b') split
      ∙ copy_behind w.n front b' old back size (
          omega
            (arith, length-take k b, length-take k (drop w.n w.p), length-drop w.n w.p, h.four)) in
    let taken : take (w.n + k) (front ++ (b' ++ back)) ≡ front ++ b' =
      ap (take (w.n + k)) (sym (append_assoc front b' back))
      ∙ take-append_length (w.n + k) (front ++ b') back
          (omega (arith, size, length-append front b', length-take k b)) in
    record {
      four = length-copy_at w.n b w.p ∙ h.four;
      filled = omega (arith, h.filled, length-append whole b', length-take k b, room);
      kept =
          ap (λ t. w.out ++ take (w.n + k) t) laid
          ∙ ap (λ t. w.out ++ t) taken
          ∙ sym (append_assoc w.out front b')
          ∙ ap (λ t. t ++ b') h.kept;
    }

-- A write, whatever its length, keeps the account.
keep_back-Holds :
    (b whole : List ℕ) (w : Account) → Holds whole w → Holds (whole ++ b) (keep_back b w)
keep_back-Holds b whole w h = elim (Bool-cases (ltb w.n 4)) [
  | inr full ↦ rw full (push-Holds b whole w h (ground (arith, h.filled)))
  | inl room ↦
      let k = min (4 - w.n) (length b) in
      let w' : Account = record w { p = copy_at w.n b w.p; n = w.n + k } in
      let early = fill-Holds b whole w h (ltb→lt w.n 4 room) in
      elim (Bool-cases (length (drop k b) == 0)) [
        | inl all' ↦
            let all : take k b ≡ b = take_all k b (ground (arith, length-drop k b)) in
            rw (room, all') (subst (λ t. Holds (whole ++ t) w') all early)
        | inr more ↦
            let rest : whole ++ b ≡ (whole ++ take k b) ++ drop k b = sym (
              append_assoc whole (take k b) (drop k b)
              ∙ ap (λ t. whole ++ t) (take-append-drop k b)) in
            rw (room, more, rest)
              (push-Holds (drop k b) (whole ++ take k b) w' early (ground (arith, length-drop k b)))
      ]
]

-- One write after another.
abbrev pub keep_all : List (List ℕ) → Account → Account
keep_all [] w = w
keep_all (b ∷ bs) w = keep_all bs (keep_back b w)

-- A truncWriter as compressNoContextTakeover and the factory make it.
abbrev pub fresh : Account
fresh = record { out = []; n = 0; p = 0 ∷ 0 ∷ 0 ∷ 0 ∷ [] }

keep_all-Holds :
    (bs : List (List ℕ)) (whole : List ℕ) (w : Account)
    → Holds whole w
    → Holds (whole ++ concat bs) (keep_all bs w)
keep_all-Holds [] whole w h = subst (λ t. Holds t w) (sym (append-nil whole)) h
keep_all-Holds (b ∷ bs) whole w h =
    subst (λ t. Holds t (keep_all bs (keep_back b w))) (append_assoc whole b (concat bs))
      (keep_all-Holds bs (whole ++ b) (keep_back b w) (keep_back-Holds b whole w h))

pub keep_all-fresh :
    (bs : List (List ℕ))
    → 4 ≤ length (concat bs)
    → let w = keep_all bs fresh in (w.out ++ w.p ≡ concat bs) × (length w.p ≡ 4)
keep_all-fresh bs long =
    let h = keep_all-Holds bs [] fresh (record { four = refl; filled = refl; kept = refl }) in
    let w = keep_all bs fresh in
    let n : w.n ≡ 4 = omega (arith, h.filled, long) in
    (
      ap (λ t. w.out ++ t) (sym (take_all 4 w.p (omega (arith, h.four))))
          ∙ ap (λ (t : ℕ). w.out ++ take t w.p) (sym n)
          ∙ h.kept,
      h.four,
    )
