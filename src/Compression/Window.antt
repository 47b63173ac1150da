-- ===== src/Compression/Window.antt =====
-- The sliding window of a reader with context takeover.
use magilla.Base.{
  ℕ, zero, suc, ◌+◌, ◌-◌, ◌≤◌, ◌≡◌, refl, ap, sym, ◌∙◌, arith, true, List, [], ◌∷◌, ◌++◌,
  append_assoc, append-nil,
}
use magilla.Base.{ltb, if◌then◌else◌, Bool-cases, inl, inr, length, length-append, drop}
use magilla.Compression.{slide, max_window_bits}

-- The last `size` bytes of a text.
abbrev pub last : ℕ → List ℕ → List ℕ
last size s = drop (length s - size) s

-- The windows of one read after another.
abbrev pub slide_all : ℕ → List (List ℕ) → List ℕ → List ℕ
slide_all size [] window = window
slide_all size (b ∷ bs) window = slide_all size bs (slide size b window)

abbrev pub concat : List (List ℕ) → List ℕ
concat [] = []
concat (b ∷ bs) = b ++ concat bs

last_drop :
    (size k : ℕ) (s t : List ℕ)
    → k + size ≤ length s
    → last size (drop k s ++ t) ≡ last size (s ++ t)
last_drop size zero s t h = refl
last_drop size (suc k) [] t h = absurd (omega arith)
last_drop size (suc k) (x ∷ s) t h =
    let e : length (x ∷ (s ++ t)) - size ≡ suc (length (s ++ t) - size) =
      omega (arith, length-append s t) in
    last_drop size k s t (omega arith) ∙ rw e refl

last-append : (size : ℕ) (b s : List ℕ) → last size (last size s ++ b) ≡ last size (s ++ b)
last-append size b s = elim (Bool-cases (ltb (length s) size)) [
  | inl short ↦
      let e : length s - size ≡ 0 = ground arith in ap (λ (k : ℕ). last size (drop k s ++ b)) e
  | inr long ↦ last_drop size (length s - size) s b (ground arith)
]

clamp-last :
    (size : ℕ) (w : List ℕ)
    → (if ltb size (length w) then drop (length w - size) w else w) ≡ last size w
clamp-last size w = elim (Bool-cases (ltb size (length w))) [
  | inl long ↦ rw long refl
  | inr short ↦
      let e : length w - size ≡ 0 = ground arith in rw short (ap (λ (k : ℕ). drop k w) (sym e))
]

slide-last : (size : ℕ) (b s : List ℕ) → slide size b (last size s) ≡ last size (s ++ b)
unfolding slide
slide-last size [] s = ap (last size) (sym (append-nil s))
slide-last size (x ∷ b) s =
    let some' : ltb 0 (length (x ∷ b)) ≡ true = ground arith in
    let clamped = clamp-last size (last size s ++ x ∷ b) ∙ last-append size (x ∷ b) s in
    rw some' clamped

pub slide_all-append :
    (size : ℕ) (bs : List (List ℕ)) (s : List ℕ)
    → slide_all size bs (last size s) ≡ last size (s ++ concat bs)
slide_all-append size [] s = ap (last size) (sym (append-nil s))
slide_all-append size (b ∷ bs) s =
    ap (slide_all size bs) (slide-last size b s)
    ∙ slide_all-append size bs (s ++ b)
    ∙ ap (last size) (append_assoc s b (concat bs))

-- After any run of reads the window is the last 32768 bytes of all that was decompressed so far.
slide_all-last :
    (bs : List (List ℕ)) → slide_all max_window_bits bs [] ≡ last max_window_bits (concat bs)
slide_all-last bs = slide_all-append max_window_bits bs []
