-- ===== src/Token/Quote.antt =====
-- nextTokenOrQuoted reads back every string that was quoted.
use magilla.Base.{
  ℕ, ◌≡◌, ap, sym, ◌∙◌, arith, false, ◌||◌, List, [], ◌∷◌, ◌++◌, append_assoc, append-nil,
}
use magilla.Base.{◌==◌, if◌then◌else◌}
use magilla.Token.{quoted, next_token_or_quoted}

-- A quoted string by RFC 2616, behind its opening quote: a quote and a backslash are escaped.
abbrev pub escaped : List ℕ → List ℕ
escaped [] = []
escaped (b ∷ v) = if b == b'"' || b == b'\\' then b'\\' ∷ b ∷ escaped v else b ∷ escaped v

quoted-escaped : (p v rest : List ℕ) → quoted false p (escaped v ++ b'"' ∷ rest) ≡ (p ++ v, rest)
unfolding quoted
quoted-escaped p [] rest = ap (λ t. (t, rest)) (sym (append-nil p))
quoted-escaped p (b ∷ v) rest =
    let next =
      quoted-escaped (p ++ b ∷ []) v rest ∙ ap (λ t. (t, rest)) (append_assoc p (b ∷ []) v) in
    ground (arith, next)

-- A string that was quoted, its quotes and backslashes escaped, is read back, whatever its bytes
-- and whatever follows.
pub next_token_or_quoted-escaped :
    (v rest : List ℕ) → next_token_or_quoted (b'"' ∷ (escaped v ++ b'"' ∷ rest)) ≡ (v, rest)
unfolding next_token_or_quoted
next_token_or_quoted-escaped v rest = quoted-escaped [] v rest
