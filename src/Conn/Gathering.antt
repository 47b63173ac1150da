-- ===== src/Conn/Gathering.antt =====
-- The validating reader and io.ReadAll in the middle of a message: they gather all of it.
use magilla.Base.{
  ℕ, suc, ◌+◌, ◌≤◌, ◌<◌, ◌≡◌, refl, ap, sym, ◌∙◌, arith, Bool, true, false, List, [], ◌∷◌, ◌++◌,
  Option, none, some,
}
use magilla.Base.{length, All, IsByte, length-append, ◌⊎◌, inl, inr}
use mathlib.Core.Path.{subst}
use magilla.Utf8.{accept, dfa_step}
use magilla.Utf8.Table.{dfa_step-next_state, tail_state, next_state-tail_state}
use magilla.Utf8.Run.{run, run_reject, tail_state-lt}
use magilla.Frame.{Frame, wire, wire_all, header}
use magilla.Frame.Message.{payloads}
use magilla.Conn.{Machine, Conn}
use magilla.Conn.Net.{Input}
use magilla.Conn.Incoming.{octets}
use magilla.Conn.Receive.{Piece, read_loop, message_read, validate_piece, step_all}
use magilla.Conn.Arriving.{seen, IsMidway}
use magilla.Conn.Continuing.{IsMore, IsEnd, Gives, read_loop-Gives}

run-append : (s : ℕ) (p q : List ℕ) → run s (p ++ q) ≡ run (run s p) q
unfolding run
run-append s [] q = refl
run-append s (b ∷ p) q = run-append (tail_state s b) p q

-- No byte of a text that will be accepted is rejected.
step_all-run :
    (s x : ℕ) (p q : List ℕ)
    → s < 9
    → All IsByte p
    → run s (p ++ q) ≡ accept
    → ((step_all s x p).0 ≡ false) × ((step_all s x p).1.0 ≡ run s p) × (run s p < 9)
unfolding step_all run
step_all-run s x [] q small bytes h = (refl, refl, small)
step_all-run s x (b ∷ p) q small bytes h =
    let step : (dfa_step s x b).0 ≡ tail_state s b =
      dfa_step-next_state s x b ∙ next_state-tail_state s b small bytes.0 in
    let s' = (dfa_step s x b).0 in
    let small' : s' < 9 = omega (arith, step, tail_state-lt s b small) in
    let (a, b', c) =
      step_all-run s' (dfa_step s x b).1 p q small' bytes.1 (ap (λ t. run t (p ++ q)) step ∙ h) in
    ground (
      arith,
      a,
      b',
      c,
      h,
      step,
      ap (λ t. run t p) step,
      ap (λ t. run t (p ++ q)) step,
      run_reject (p ++ q),
    )

length-octets :
    (bs : List ℕ) (rest : List Input) → length (octets bs rest) ≡ length bs + length rest
length-octets [] rest = omega arith
length-octets (b ∷ bs) rest = omega (arith, length-octets bs rest)

frames-le : (fs : List Frame) → length fs ≤ length (wire_all fs)
unfolding wire_all wire header
frames-le [] = omega arith
frames-le (f ∷ fs) = omega (arith, length-append (wire f) (wire_all fs), frames-le fs)

-- What is left of a text takes the validator from its state to the accepting one.
abbrev pub IsText : Bool → ℕ → List ℕ → Type 0
IsText checked state body = checked ≡ true → (state < 9) × (run state body ≡ accept)

module _ (m : Machine) (server : Bool) (limit : ℕ) (skip : Bool) (rest : List Input) where
  pub message_read-Gives :
      (reader size : ℕ) (t : List ℕ) (fs : List Frame) (c : Conn)
      → 0 < size
      → c.message_reader ≡ some reader
      → IsMidway server limit skip rest t fs c
      → Gives server limit skip rest (t ++ payloads fs) c (message_read m reader size c)
  unfolding message_read
  message_read-Gives reader size t fs c pos current h =
      let behind = octets (wire_all fs) rest in
      let enough : length fs < suc (suc (length c.input)) = omega (
        arith,
        frames-le fs,
        length-octets (wire_all fs) rest,
        length-octets (seen server c.read_mask_key c.read_mask_pos t) behind,
        ap length h.input,
      ) in
      let path : read_loop m (suc (suc (length c.input))) size c ≡ message_read m reader size c =
        ground (arith, current) in
      subst (Gives server limit skip rest (t ++ payloads fs) c) path
        (read_loop-Gives m server limit skip rest _ size t fs c pos enough h)

  -- Read on what NextReader returned gives a piece, with what is left a text again, or the end.
  pub record GivesRead (checked : Bool) (body : List ℕ) (c : Conn) (o : Option (Bool × Piece))
      : Type 0 where
    pub piece' : Piece
    pub returns : o ≡ some (false, piece')
    pub same_reader : piece'.err ≡ none → piece'.conn.message_reader ≡ c.message_reader
    pub outcome :
        ((r : IsMore server limit skip rest body piece') × IsText checked
            piece'.conn.read_utf8_state
            (r.left ++ payloads r.later))
        ⊎ IsEnd server limit skip rest body piece'

  -- What the validator keeps of a connection.
  abbrev validated : Piece → ℕ × ℕ → Piece
  validated r (state, codepoint) = record {
    bytes = r.bytes;
    err = r.err;
    conn = record r.conn { read_utf8_state = state; read_utf8_codepoint = codepoint };
  }

  pub more-validated :
      (body : List ℕ) (c : Conn) (r : Piece)
      → IsMore server limit skip rest body r
      → (state : ℕ) → r.conn.read_utf8_state ≡ state
      → (r.err ≡ none → r.conn.message_reader ≡ c.message_reader)
      → IsText true state body
      → GivesRead true body c (some (validate_piece m r))
  unfolding validate_piece
  more-validated body c r h state same reader text =
      let (small, ok) = text refl in
      let (good, next, small') =
        step_all-run r.conn.read_utf8_state r.conn.read_utf8_codepoint r.bytes
          (h.left ++ payloads h.later) (omega (arith, same, small)) h.bytes
          ((λ i. run (same i) (h.whole i)) ∙ ok) in
      let q = (step_all r.conn.read_utf8_state r.conn.read_utf8_codepoint r.bytes).1 in
      record {
        piece' = validated r q;
        returns = ground (arith, good, h.fine);
        same_reader = reader;
        outcome = inl (
          record {
            fine = h.fine;
            left = h.left;
            later = h.later;
            whole = h.whole;
            some_bytes = h.some_bytes;
            bytes = h.bytes;
            midway = record {
              role = h.midway.role;
              same_limit = h.midway.same_limit;
              same_skip = h.midway.same_skip;
              fine = h.midway.fine;
              remaining = h.midway.remaining;
              input = h.midway.input;
              keyed = h.midway.keyed;
              bytes = h.midway.bytes;
              frames = h.midway.frames;
              room = h.midway.room;
              within = h.midway.within;
            };
          },
          λ e. (
            omega (arith, next, small'),
            ap (λ s. run s (h.left ++ payloads h.later)) next
                ∙ sym (run-append r.conn.read_utf8_state r.bytes (h.left ++ payloads h.later))
                ∙ (λ i. run (same i) (h.whole i))
                ∙ ok,
          ),
        );
      }

  pub end-validated :
      (body : List ℕ) (c : Conn) (r : Piece)
      → IsEnd server limit skip rest body r
      → (state : ℕ) → r.conn.read_utf8_state ≡ state
      → (r.err ≡ none → r.conn.message_reader ≡ c.message_reader)
      → IsText true state body
      → GivesRead true body c (some (validate_piece m r))
  unfolding validate_piece step_all run
  end-validated body c r h state same reader text =
      let (small, ok) = text refl in
      let state_ok : r.conn.read_utf8_state ≡ accept =
        same ∙ ap (run state) (sym h.nothing_left) ∙ ok in
      record {
        piece' = validated r (r.conn.read_utf8_state, r.conn.read_utf8_codepoint);
        returns = ground (arith, h.empty, h.ended, state_ok);
        same_reader = reader;
        outcome = inr (record {
          ended = h.ended;
          empty = h.empty;
          nothing_left = h.nothing_left;
          between = record {
            role = h.between.role;
            same_limit = h.between.same_limit;
            same_skip = h.between.same_skip;
            fine = h.between.fine;
            done = h.between.done;
            final = h.between.final;
            input = h.between.input;
            keyed = h.between.keyed;
          };
        });
      }
