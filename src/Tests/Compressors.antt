-- ===== src/Tests/Compressors.antt =====
-- Runs of the compressors over a flate that stores what it is given.
use magilla.Base.{
  ℕ, ◌-◌, ◌≡◌, refl, ap, sym, ◌∙◌, arith, List, [], ◌∷◌, ◌++◌, append-nil, none, some,
}
use magilla.Base.{length, length-append, take, take-append_length}
use magilla.Base.Integers.{pos}
use magilla.Errors.{codes}
use magilla.Compression.Window.{concat}
use magilla.Compression.Flate.{Flate, deflate_message_tail, deflate_message_tail_read}
use magilla.Compression.Deflating.{run_writes, run, append_inj, concat-append}
use magilla.Compression.Takeover.{IsFlate, AreRestored, context_takeover-AreRestored}
use magilla.Compression.Single.{IsRestored, no_context_takeover-IsRestored}

abbrev stored : Flate
stored = record {
  Writer = List ℕ;
  new_writer = λ level. [];
  write = λ h p. (h ++ p, p ∷ []);
  flush = λ h. (h, deflate_message_tail ∷ []);
  read = λ dict s. some (take (length s - 9) s ∷ []);
}

concat-run_writes :
    (h : List ℕ) (ps : List (List ℕ)) → concat (run_writes stored h ps).1 ≡ concat ps
unfolding run_writes
concat-run_writes h [] = refl
concat-run_writes h (p ∷ ps) = ap (λ t. p ++ t) (concat-run_writes (h ++ p) ps)

concat-run :
    (h : List ℕ) (ps : List (List ℕ))
    → concat (run stored h ps).1 ≡ concat ps ++ deflate_message_tail
unfolding run
concat-run h ps =
    concat-append (run_writes stored h ps).1 (deflate_message_tail ∷ [])
    ∙ ap (λ t. t ++ deflate_message_tail) (concat-run_writes h ps)

read-stored :
    (front t : List ℕ)
    → front ≡ t
    → concat (
        take (length (front ++ deflate_message_tail_read) - 9) (front ++ deflate_message_tail_read)
        ∷ [])
      ≡ t
read-stored front t e =
    append-nil _
    ∙ take-append_length _ front deflate_message_tail_read
        (omega (arith, length-append front deflate_message_tail_read))
    ∙ e

stored-IsFlate : IsFlate stored
stored-IsFlate = record {
  AtBoundary = λ w. Unit {0};
  history = λ w. w;
  new-AtBoundary = λ level. tt;
  flush-AtBoundary = λ w. tt;
  history-new = λ level. refl;
  history-write = λ w p. refl;
  history-flush = λ w. refl;
  marked = λ w ps at. (concat ps, concat-run w ps);
  restores = λ w ps front at e. (
    take (length (front ++ deflate_message_tail_read) - 9) (front ++ deflate_message_tail_read)
        ∷ [],
    refl,
    read-stored front (concat ps)
        (append_inj front deflate_message_tail (concat ps) deflate_message_tail
          (sym e ∙ concat-run w ps) refl).0,
  );
}

abbrev written : List (List (List ℕ))
written = (codes "one" ∷ codes " message" ∷ []) ∷ [] ∷ (codes "another" ∷ []) ∷ []

context_takeover-AreRestored_example : AreRestored stored stored-IsFlate (pos 1) written none []
context_takeover-AreRestored_example =
    context_takeover-AreRestored stored stored-IsFlate (pos 1) written

no_context_takeover-IsRestored_example :
    IsRestored stored (pos 1) (codes "one" ∷ codes " message" ∷ [])
no_context_takeover-IsRestored_example =
    no_context_takeover-IsRestored stored stored-IsFlate (pos 1)
      (codes "one" ∷ codes " message" ∷ [])
