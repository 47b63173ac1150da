-- ===== src/Utf8/Table.antt =====
-- The table, read as ranges of bytes: what each state does on each byte.
use magilla.Base.{ℕ, zero, suc, ◌+◌, ◌*◌, ◌<◌, ◌≡◌, refl, arith, Bool, true, false}
use magilla.Base.{◌&&◌, get_or, ltb, leb, ◌==◌, ==_iff, if◌then◌else◌}
use magilla.Utf8.{dfa_table, dfa_step}

-- The class of a byte and the next state, as the table has them.
pub byte_class : ℕ → ℕ
byte_class b = get_or dfa_table b 0

pub next_state : ℕ → ℕ → ℕ
next_state s b = get_or dfa_table (256 + s * 16 + byte_class b) 0

pub dfa_step-next_state : (s x b : ℕ) → (dfa_step s x b).0 ≡ next_state s b
unfolding dfa_step next_state byte_class
dfa_step-next_state s x b = refl

-- The states by what they wait for. 2, 3: one, two continuation bytes; 4, 5: the second byte
-- after e0, ed; 6, 7, 8: the second byte after f0, f1..f3, f4.
abbrev pub lead_state : ℕ → ℕ
lead_state b =
    if ltb b 0x80
    then 0
    else if ltb b 0xc2
    then 1
    else if ltb b 0xe0
    then 2
    else if b == 0xe0
    then 4
    else if b == 0xed
    then 5
    else if ltb b 0xf0
    then 3
    else if b == 0xf0
    then 6
    else if ltb b 0xf4
    then 7
    else if b == 0xf4
    then 8
    else 1

-- In `[lo, hi]` to `target`, else to the reject state.
abbrev pub within : ℕ → ℕ → ℕ → ℕ → ℕ
within lo hi target b = if leb lo b && leb b hi then target else 1

abbrev pub tail_state : ℕ → ℕ → ℕ
tail_state zero b = lead_state b
tail_state (suc zero) b = 1
tail_state (suc (suc zero)) b = within 0x80 0xbf 0 b
tail_state (suc (suc (suc zero))) b = within 0x80 0xbf 2 b
tail_state (suc (suc (suc (suc zero)))) b = within 0xa0 0xbf 2 b
tail_state (suc (suc (suc (suc (suc zero))))) b = within 0x80 0x9f 2 b
tail_state (suc (suc (suc (suc (suc (suc zero)))))) b = within 0x90 0xbf 3 b
tail_state (suc (suc (suc (suc (suc (suc (suc zero))))))) b = within 0x80 0xbf 3 b
tail_state (suc (suc (suc (suc (suc (suc (suc (suc s)))))))) b = within 0x80 0x8f 3 b

every : (ℕ → Bool) → ℕ → Bool
every test zero = true
every test (suc n) = if test n then every test n else false

every-holds : (test : ℕ → Bool) (k n : ℕ) → n < k → every test k ≡ true → test n ≡ true
unfolding every
every-holds test zero n inside all' = absurd (omega arith)
every-holds test (suc k) n inside all' = let below = every-holds test k n in ground (below, arith)

state_table : (every (λ s. every (λ b. next_state s b == tail_state s b) 256) 9) ≡ true
unfolding every next_state byte_class dfa_table
state_table = refl

-- Every entry of the nine rows, at every byte.
pub next_state-tail_state : (s b : ℕ) → s < 9 → b < 256 → next_state s b ≡ tail_state s b
next_state-tail_state s b hs hb =
    (==_iff _ _).0 (every-holds _ 256 b hb (every-holds _ 9 s hs state_table))
