-- ===== src/Utf8/Accepts.antt =====
-- The validator accepts exactly the encodings of texts.
use magilla.Base.{ℕ, ◌≡◌, refl, ap, sym, ◌∙◌, arith, List, [], ◌∷◌, ◌++◌, All, IsByte, ◌↔◌, length}
use magilla.Utf8.{dfa_validate, accept}
use magilla.Utf8.Spec.{IsScalar, encode, encode_all, IsUtf8}
use magilla.Utf8.Decode.{decode}
use magilla.Utf8.Run.{run, dfa_validate-run}

run-encode : (c : ℕ) (p : List ℕ) → IsScalar c → run 0 (encode c ++ p) ≡ run 0 p
unfolding run encode
run-encode c p h = ground arith

run-encode_all : (cs : List ℕ) → All IsScalar cs → run 0 (encode_all cs) ≡ 0
unfolding run encode_all
run-encode_all [] h = refl
run-encode_all (c ∷ cs) h = run-encode c (encode_all cs) h.0 ∙ run-encode_all cs h.1

-- `utf8DFAValidate` ends in the accept state exactly on the bytes that are the encoding of a
-- sequence of Unicode scalar values.
pub dfa_validate-IsUtf8 : (p : List ℕ) → All IsByte p → (dfa_validate p ≡ accept) ↔ IsUtf8 p
dfa_validate-IsUtf8 p bytes = (there, back)
  where
    there : dfa_validate p ≡ accept → IsUtf8 p
    there h = decode (length p) p (omega arith) (sym (dfa_validate-run p bytes) ∙ h)

    back : IsUtf8 p → dfa_validate p ≡ accept
    back u = dfa_validate-run p bytes ∙ ap (run 0) u.encoded ∙ run-encode_all u.text u.scalars
