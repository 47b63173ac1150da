-- ===== src/Compression/Deflating.antt =====
-- One message through a write wrapper of compression.go: what arrives below it.
use magilla.Base.{
  ℕ, ◌≡◌, refl, ap, sym, ◌∙◌, arith, true, false, List, [], ◌∷◌, ◌++◌, append_assoc, Option, none,
  some,
}
use magilla.Base.{
  length, length-append, take, drop, take-append_length, drop-append_length, same_text,
}
use mathlib.Core.Path.{subst}
use magilla.Compression.Account.{Account, keep_all, fresh, keep_all-fresh}
use magilla.Compression.Trunc.{writer_of, trunc_write_all-keep_all}
use magilla.Compression.Window.{concat}
use magilla.Compression.Flate.{
  Flate, FlateError, deflate_message_tail, hand_over, WriteWrapper, wrapper_write, wrapper_close,
}

pub concat-append : (a b : List (List ℕ)) → concat (a ++ b) ≡ concat a ++ concat b
concat-append [] b = refl
concat-append (x ∷ a) b =
    ap (λ t. x ++ t) (concat-append a b) ∙ sym (append_assoc x (concat a) (concat b))

keep_all-append :
    (a b : List (List ℕ)) (w : Account) → keep_all (a ++ b) w ≡ keep_all b (keep_all a w)
keep_all-append [] b w = refl
keep_all-append (x ∷ a) b w = keep_all-append a b _

-- Backs of the same length can be told apart from the fronts.
pub append_inj : (a b c d : List ℕ) → a ++ b ≡ c ++ d → length b ≡ length d → (a ≡ c) × (b ≡ d)
append_inj a b c d e size =
    let front : length a ≡ length c =
      omega (arith, ap length e, length-append a b, length-append c d, size) in
    (
      sym (take-append_length (length a) a b refl)
          ∙ ap (take (length a)) e
          ∙ take-append_length (length a) c d (sym front),
      sym (drop-append_length (length a) a b refl)
          ∙ ap (drop (length a)) e
          ∙ drop-append_length (length a) c d (sym front),
    )

module _ (f : Flate) where
  -- What a flate.Writer does on its own for one message: Writes, and a Flush.
  unfoldable pub run_writes : f.Writer → List (List ℕ) → f.Writer × List (List ℕ)
  run_writes w [] = (w, [])
  run_writes w (p ∷ ps) =
      let (w', bs) = f.write w p in let (w'', cs) = run_writes w' ps in (w'', bs ++ cs)

  unfoldable pub run : f.Writer → List (List ℕ) → f.Writer × List (List ℕ)
  run w ps = let (w', bs) = run_writes w ps in let (w'', cs) = f.flush w' in (w'', bs ++ cs)

  -- Writes through a wrapper, up to the first error, and its Close if there is none.
  unfoldable pub write_pieces : List (List ℕ) → WriteWrapper f → Option FlateError × WriteWrapper f
  write_pieces [] w = wrapper_close f none w
  write_pieces (p ∷ ps) w =
      let (e, w') = wrapper_write f p w in
      elim e [ some e' ↦ (some e', w') | none ↦ write_pieces ps w' ]

  -- An open wrapper that has met no error.
  abbrev pub at_work : f.Writer → Account → WriteWrapper f
  at_work fw a = record {
    is_open = true;
    deflater = record { fw = fw; sticky = none; tw = writer_of a };
    closes = 0;
  }

  -- A wrapper that was closed once.
  abbrev pub at_end : f.Writer → Account → WriteWrapper f
  at_end fw a = record {
    is_open = false;
    deflater = record { fw = fw; sticky = none; tw = writer_of a };
    closes = 1;
  }

  handed :
      (r : f.Writer × List (List ℕ)) (fw : f.Writer) (a : Account)
      → hand_over f r (record { fw = fw; sticky = none; tw = writer_of a })
        ≡ (none, record { fw = r.0; sticky = none; tw = writer_of (keep_all r.1 a) })
  unfolding hand_over
  handed (fw', bs) fw a = rw (trunc_write_all-keep_all bs a) refl

  one_write :
      (p : List ℕ) (fw : f.Writer) (a : Account)
      → wrapper_write f p (at_work fw a)
        ≡ (none, at_work (f.write fw p).0 (keep_all (f.write fw p).1 a))
  unfolding wrapper_write
  one_write p fw a = rw (handed (f.write fw p) fw a) refl

  last_close :
      (fw : f.Writer) (a : Account)
      → same_text (keep_all (f.flush fw).1 a).p deflate_message_tail ≡ true
      → wrapper_close f none (at_work fw a)
        ≡ (none, at_end (f.flush fw).0 (keep_all (f.flush fw).1 a))
  unfolding wrapper_close
  last_close fw a tail = rw (handed (f.flush fw) fw a, tail) refl

  write_pieces-run :
      (ps : List (List ℕ)) (fw : f.Writer) (a : Account)
      → same_text (keep_all (run fw ps).1 a).p deflate_message_tail ≡ true
      → write_pieces ps (at_work fw a) ≡ (none, at_end (run fw ps).0 (keep_all (run fw ps).1 a))
  unfolding write_pieces run run_writes
  write_pieces-run [] fw a tail = last_close fw a tail
  write_pieces-run (p ∷ ps) fw a tail =
      let fw' = (f.write fw p).0 in
      let bs = (f.write fw p).1 in
      let rest = (run_writes fw' ps).1 ++ (f.flush (run_writes fw' ps).0).1 in
      let joined : keep_all ((bs ++ (run_writes fw' ps).1) ++ (f.flush (run_writes fw' ps).0).1) a
          ≡ keep_all rest (keep_all bs a) =
        ap (λ t. keep_all t a)
          (append_assoc bs (run_writes fw' ps).1 (f.flush (run_writes fw' ps).0).1)
        ∙ keep_all-append bs rest a in
      ap
        (λ (r : Option FlateError × WriteWrapper f).
          elim r.0 as (λ _. Option FlateError × WriteWrapper f) [
            | some e' ↦ (some e', r.1)
            | none ↦ write_pieces ps r.1
          ])
        (one_write p fw a)
      ∙ write_pieces-run ps fw' (keep_all bs a)
          (ap (λ (w : Account). same_text w.p deflate_message_tail) (sym joined) ∙ tail)
      ∙ ap {A = Account} (λ w. (none, at_end (f.flush (run_writes fw' ps).0).0 w)) (sym joined)

  -- What a message leaves: no error, one close of the writer below, and below it all but the tail.
  pub record IsDeflated (fw : f.Writer) (ps : List (List ℕ)) (front : List ℕ)
      (r : Option FlateError × WriteWrapper f) : Type 0 where
    pub no_error : r.0 ≡ none
    pub closed : r.1.closes ≡ 1
    pub shut : r.1.is_open ≡ false
    pub sent : r.1.deflater.tw.below.sent ≡ front
    pub writer : r.1.deflater.fw ≡ (run fw ps).0
    pub fine : r.1.deflater.sticky ≡ none

  pub write_pieces-IsDeflated :
      (ps : List (List ℕ)) (fw : f.Writer) (front : List ℕ)
      → concat (run fw ps).1 ≡ front ++ deflate_message_tail
      → IsDeflated fw ps front (write_pieces ps (at_work fw fresh))
  unfolding same_text
  write_pieces-IsDeflated ps fw front marked =
      let bs = (run fw ps).1 in
      let (whole, four) =
        keep_all-fresh bs
          (omega (arith, ap length marked, length-append front deflate_message_tail)) in
      let (out, tail) =
        append_inj (keep_all bs fresh).out (keep_all bs fresh).p front deflate_message_tail
          (whole ∙ marked) four in
      let e = write_pieces-run ps fw fresh (ap (λ t. same_text t deflate_message_tail) tail) in
      subst (IsDeflated fw ps front) (sym e) (record {
        no_error = refl;
        closed = refl;
        shut = refl;
        sent = out;
        writer = refl;
        fine = refl;
      })
