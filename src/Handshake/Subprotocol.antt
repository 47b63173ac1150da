-- ===== src/Handshake/Subprotocol.antt =====
-- The choice of a subprotocol.
use magilla.Base.{ℕ, ◌≡◌, true, false, List, [], ◌∷◌, ◌++◌, ◌⊎◌, All}
use magilla.Handshake.Checks.{has_text}

-- `chosen` is the first of the client's protocols that the server has.
pub record IsFirst (client server : List (List ℕ)) (chosen : List ℕ) : Type 0 where
  pub before : List (List ℕ)
  pub behind : List (List ℕ)
  pub split : client ≡ before ++ chosen ∷ behind
  pub others : All (λ p. has_text p server ≡ false) before
  pub supported : has_text chosen server ≡ true

-- The first of the client's protocols that the server has, or none without one.
abbrev pub FirstOrNone : List (List ℕ) → List (List ℕ) → List ℕ → Type 0
FirstOrNone client server chosen =
    (All (λ p. has_text p server ≡ false) client × (chosen ≡ [])) ⊎ IsFirst client server chosen
