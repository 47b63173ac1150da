-- ===== src/Utf8/Run.antt =====
-- The automaton without its code point: what `dfa_validate` computes, and what a run that ends
-- in the accept state must have read.
use magilla.Base.{ℕ, zero, suc, ◌<◌, ◌≡◌, refl, ap, ◌∙◌, arith, List, [], ◌∷◌, All, IsByte}
use magilla.Utf8.{dfa_step, dfa_validate, validate_loop, accept}
use magilla.Utf8.Table.{dfa_step-next_state, tail_state, next_state-tail_state}

unfoldable pub run : ℕ → List ℕ → ℕ
run s [] = s
run s (b ∷ p) = run (tail_state s b) p

pub run_reject : (p : List ℕ) → run 1 p ≡ 1
unfolding run
run_reject [] = refl
run_reject (b ∷ p) = run_reject p

pub tail_state-lt : (s b : ℕ) → s < 9 → tail_state s b < 9
tail_state-lt zero b h = ground arith
tail_state-lt (suc zero) b h = ground arith
tail_state-lt (suc (suc zero)) b h = ground arith
tail_state-lt (suc (suc (suc zero))) b h = ground arith
tail_state-lt (suc (suc (suc (suc zero)))) b h = ground arith
tail_state-lt (suc (suc (suc (suc (suc zero))))) b h = ground arith
tail_state-lt (suc (suc (suc (suc (suc (suc zero)))))) b h = ground arith
tail_state-lt (suc (suc (suc (suc (suc (suc (suc zero))))))) b h = ground arith
tail_state-lt (suc (suc (suc (suc (suc (suc (suc (suc s)))))))) b h = ground arith

-- The early return of the loop changes no result.
validate_loop-run : (s x : ℕ) (p : List ℕ) → s < 9 → All IsByte p → validate_loop s x p ≡ run s p
unfolding validate_loop run
validate_loop-run s x [] h bytes = refl
validate_loop-run s x (b ∷ p) h bytes =
    let step : (dfa_step s x b).0 ≡ tail_state s b =
      dfa_step-next_state s x b ∙ next_state-tail_state s b h bytes.0 in
    ground (
      arith,
      step,
      ap (λ t. run t p) step,
      run_reject p,
      tail_state-lt s b h,
      validate_loop-run (tail_state s b) (dfa_step s x b).1 p,
    )

pub dfa_validate-run : (p : List ℕ) → All IsByte p → dfa_validate p ≡ run accept p
unfolding dfa_validate
dfa_validate-run p bytes = validate_loop-run 0 0 p (omega arith) bytes
