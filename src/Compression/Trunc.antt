-- ===== src/Compression/Trunc.antt =====
-- The truncWriter keeps back the last four bytes of all that is written to it.
use magilla.Base.{ℕ, ◌-◌, ◌≤◌, ◌≡◌, refl, ap, ◌∙◌, List, [], ◌∷◌, ◌++◌, min, Option, none, some}
use magilla.Base.{ltb, ◌==◌, Bool-cases, inl, inr, length, drop}
use magilla.Compression.Account.{Account, push, keep_back, keep_all, fresh, keep_all-fresh}
use magilla.Compression.Window.{concat}
use magilla.Errors.{Error}
use magilla.Conn.Net.{net_write}
use magilla.Compression.{TruncWriter, push_through, trunc_write}

-- The truncWriter of an account.
abbrev pub writer_of : Account → TruncWriter
writer_of a = record { below = record { sent = a.out; answers = [] }; n = a.n; p = a.p }

push_through-push :
    (b : List ℕ) (a : Account) → push_through b (writer_of a) ≡ (none, writer_of (push b a))
unfolding push_through net_write
push_through-push b a = refl

trunc_write-keep_back :
    (b : List ℕ) (a : Account) → trunc_write b (writer_of a) ≡ (none, writer_of (keep_back b a))
unfolding trunc_write
trunc_write-keep_back b a = elim (Bool-cases (ltb a.n 4)) [
  | inr full ↦ rw full (push_through-push b a)
  | inl room ↦ elim (Bool-cases (length (drop (min (4 - a.n) (length b)) b) == 0)) [
    | inl all ↦ rw (room, all) refl
    | inr more ↦ rw (room, more) (push_through-push _ _)
  ]
]

-- One write after another, up to the first error.
unfoldable pub trunc_write_all : List (List ℕ) → TruncWriter → Option Error × TruncWriter
trunc_write_all [] w = (none, w)
trunc_write_all (b ∷ bs) w =
    let (e, w') = trunc_write b w in
    elim e [ some e' ↦ (some e', w') | none ↦ trunc_write_all bs w' ]

pub trunc_write_all-keep_all :
    (bs : List (List ℕ)) (a : Account)
    → trunc_write_all bs (writer_of a) ≡ (none, writer_of (keep_all bs a))
unfolding trunc_write_all
trunc_write_all-keep_all [] a = refl
trunc_write_all-keep_all (b ∷ bs) a =
    ap
      (λ (r : Option Error × TruncWriter). elim r.0 [
        | some e ↦ (some e, r.1)
        | none ↦ trunc_write_all bs r.1
      ])
      (trunc_write-keep_back b a)
    ∙ trunc_write_all-keep_all bs (keep_back b a)

-- A truncWriter as compressNoContextTakeover and the factory make it, over a writer without errors.
abbrev pub new_trunc_writer : TruncWriter
new_trunc_writer = writer_of fresh

-- However a stream of at least four bytes is cut into writes, over a writer that takes all it is
-- given no write fails, the writer has got all but the last four bytes of the stream, and those are
-- the ones that were kept back.
pub trunc_write_all-fresh :
    (bs : List (List ℕ))
    → 4 ≤ length (concat bs)
    → let (e, w) = trunc_write_all bs new_trunc_writer in
      (e ≡ none) × (w.below.sent ++ w.p ≡ concat bs) × (length w.p ≡ 4)
trunc_write_all-fresh bs long =
    let (whole, four) = keep_all-fresh bs long in
    rw (trunc_write_all-keep_all bs fresh) (refl, whole, four)
