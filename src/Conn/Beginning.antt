-- ===== src/Conn/Beginning.antt =====
-- NextReader on the frames of one message: the reader that it makes.
use magilla.Base.{
  ◌+◌, ℕ, zero, suc, ◌^◌, ◌≤◌, ◌<◌, ◌≡◌, refl, ap, sym, ◌∙◌, arith, Bool, true, false, not, List,
  [], ◌∷◌, ◌++◌, some,
}
use magilla.Base.{length, All, IsByte, ◌&&◌, ◌==◌}
use mathlib.Core.Path.{subst}
use magilla.Opcode
use magilla.Errors.{is_data}
use magilla.Utf8.{accept}
use magilla.Utf8.Run.{run, dfa_validate-run}
use magilla.Utf8.Spec.{IsUtf8}
use magilla.Utf8.Accepts.{dfa_validate-IsUtf8}
use magilla.Frame.{Frame, wire_all}
use magilla.Frame.Message.{IsMessage, HasKey, payloads, IsFragment, Fragments, next_opcode}
use magilla.Conn.{Machine, Conn}
use magilla.Conn.Net.{Input}
use magilla.Conn.Incoming.{octets, InTurn, first_text, first_binary}
use magilla.Conn.Receive.{next_reader, message}
use magilla.Conn.Terminates.{by_if}
use magilla.Conn.Arriving.{AreRest, IsBetween, IsMidway}
use magilla.Conn.Continuing.{opened, CanOpen, opened-IsMidway}
use magilla.Conn.Gathering.{IsText}
use magilla.Conn.Arrived.{fresh, started, next_reader-started}

-- The first frame of a message, and the frames after it.
record Starting (server : Bool) (opcode : ℕ) (fs : List Frame) : Type 0 where
  pub first : Frame
  pub later : List Frame
  pub split : fs ≡ first ∷ later
  pub type : first.opcode ≡ opcode
  pub plain : first.compressed ≡ false
  pub has_key : HasKey server first.key
  pub bytes : All IsByte first.payload
  pub frames : AreRest server first.final later

module _ (server : Bool) (cap : ℕ) where
  next_zero : (gs : List Frame) → next_opcode 0 gs ≡ 0
  next_zero [] = refl
  next_zero (g ∷ gs) = refl

  continuations :
      (was : Bool) (gs : List Frame) (last : Frame)
      → was ≡ false
      → Fragments server cap 0 gs
      → IsFragment server cap true 0 last
      → AreRest server was (gs ++ last ∷ [])
  continuations was [] last e h k = (e, k.type, k.plain, k.has_key, k.bytes, k.final_bit)
  continuations was (g ∷ gs) last e h k = (
    e,
    h.0.type,
    h.0.plain,
    h.0.has_key,
    h.0.bytes,
    continuations g.final gs last h.0.final_bit h.1 k,
  )

  starting :
      (opcode : ℕ) (front : List Frame) (last : Frame) (fs : List Frame)
      → fs ≡ front ++ last ∷ []
      → Fragments server cap opcode front
      → IsFragment server cap true (next_opcode opcode front) last
      → Starting server opcode fs
  starting opcode [] last fs e h k = record {
    first = last;
    later = [];
    split = e;
    type = k.type;
    plain = k.plain;
    has_key = k.has_key;
    bytes = k.bytes;
    frames = k.final_bit;
  }
  starting opcode (g ∷ gs) last fs e h k = record {
    first = g;
    later = gs ++ last ∷ [];
    split = e;
    type = h.0.type;
    plain = h.0.plain;
    has_key = h.0.has_key;
    bytes = h.0.bytes;
    frames = continuations g.final gs last h.0.final_bit h.1 k;
  }

data_turn : (opcode : ℕ) → is_data opcode ≡ true → InTurn true opcode
unfolding is_data
data_turn zero h = cc
data_turn (suc zero) h = first_text
data_turn (suc (suc zero)) h = first_binary
data_turn (suc (suc (suc n))) h = absurd (ground (arith, h))

module _ (m : Machine) (server : Bool) (limit : ℕ) (skip : Bool) (rest : List Input) where
  -- Such a reader at its start.
  record IsStarted (checked : Bool) (reader : ℕ) (t : List ℕ) (fs : List Frame) (c : Conn)
      : Type 0 where
    pub midway : IsMidway server limit skip rest t fs c
    pub current : c.message_reader ≡ some reader
    pub text : checked ≡ true → c.read_utf8_state ≡ accept

  -- The fields that NextReader sets beside those of the frame.
  begun :
      (f : Frame) (fs : List Frame) (c : Conn)
      → IsMidway server limit skip rest f.payload fs
          (opened m f fs rest (fresh m server limit skip rest c))
      → (state codepoint : ℕ)
      → IsMidway server limit skip rest f.payload fs
          (record (opened m f fs rest (fresh m server limit skip rest c)) {
            read_err_count = 0;
            message_reader = some c.readers;
            readers = c.readers + 1;
            read_utf8_state = state;
            read_utf8_codepoint = codepoint;
          })
  begun f fs c h state codepoint = record {
    role = h.role;
    same_limit = h.same_limit;
    same_skip = h.same_skip;
    fine = h.fine;
    remaining = h.remaining;
    input = h.input;
    keyed = h.keyed;
    bytes = h.bytes;
    frames = h.frames;
    room = h.room;
    within = h.within;
  }

  started-IsStarted :
      (opcode : ℕ) (f : Frame) (fs : List Frame) (c : Conn)
      → CanOpen m server limit skip rest f fs (fresh m server limit skip rest c)
      → IsStarted
          (opcode == Opcode.text && not c.skip_utf8_validation)
          c.readers
          f.payload
          fs
          (started m server limit skip rest opcode f fs c)
  started-IsStarted opcode f fs c o =
      let h = opened-IsMidway m server limit skip rest f fs (fresh m server limit skip rest c) o in
      let checked = opcode == Opcode.text && not c.skip_utf8_validation in
      by_if (IsStarted checked c.readers f.payload fs) checked _ _
        (λ is_text. record { midway = begun f fs c h _ _; current = refl; text = λ e. refl })
        (λ other. record { midway = begun f fs c h _ _; current = refl; text = λ e. cc })

  -- What NextReader makes of the first frame of a message: a reader, with all of the message to
  -- come.
  pub record Begins (opcode : ℕ) (body : List ℕ) (c : Conn) : Type 0 where
    pub first : List ℕ
    pub later : List Frame
    pub begun : Conn
    pub starts : next_reader m c ≡ some (message opcode c.readers begun)
    pub midway : IsMidway server limit skip rest first later begun
    pub current : begun.message_reader ≡ some c.readers
    pub whole : first ++ payloads later ≡ body
    pub text :
        IsText
          (opcode == Opcode.text && not c.skip_utf8_validation)
          begun.read_utf8_state
          (first ++ payloads later)

  utf8-run : (body : List ℕ) → All IsByte body → IsUtf8 body → run accept body ≡ accept
  utf8-run body bytes utf8 =
      sym (dfa_validate-run body bytes) ∙ (dfa_validate-IsUtf8 body bytes).1 utf8

  begins :
      (opcode : ℕ) (body : List ℕ) (fs : List Frame) (c : Conn)
      → is_data opcode ≡ true
      → IsBetween server limit skip (octets (wire_all fs) rest) c
      → Starting server opcode fs
      → payloads fs ≡ body
      → length body < 2 ^ 63
      → (0 < limit → length body ≤ limit)
      → All IsByte body
      → (opcode ≡ 1 → skip ≡ false → IsUtf8 body)
      → Begins opcode body c
  begins opcode body fs c data' b s whole room within bytes text =
      let c0 = fresh m server limit skip rest c in
      let whole' : s.first.payload ++ payloads s.later ≡ body = ap payloads (sym s.split) ∙ whole in
      let o : CanOpen m server limit skip rest s.first s.later c0 = record {
        role = b.role;
        same_limit = b.same_limit;
        same_skip = b.same_skip;
        fine = b.fine;
        done = b.done;
        turn =
            subst (λ x. InTurn x s.first.opcode) (sym b.final)
              (subst (InTurn true) (sym s.type) (data_turn opcode data'));
        plain = s.plain;
        has_key = s.has_key;
        bytes = s.bytes;
        frames = s.frames;
        input = b.input ∙ ap (λ t. octets (wire_all t) rest) s.split;
        room = omega (arith, room, ap length whole');
        within = λ p. omega (arith, within p, ap length whole');
      } in
      let st = started-IsStarted opcode s.first s.later c o in
      let c1 = started m server limit skip rest opcode s.first s.later c in
      record {
        first = s.first.payload;
        later = s.later;
        begun = c1;
        starts =
            next_reader-started m server limit skip rest opcode s.first s.later c data' s.type o;
        midway = st.midway;
        current = st.current;
        whole = whole';
        text = λ e. (
          omega (arith, st.text e),
          (λ i. run (st.text e i) (whole' i))
              ∙ utf8-run body bytes (text (ground (arith, e)) (ground (arith, e, b.same_skip))),
        );
      }

  -- NextReader on a message that arrives.
  pub next_reader-Begins :
      (cap opcode : ℕ) (body : List ℕ) (fs : List Frame) (c : Conn)
      → is_data opcode ≡ true
      → IsBetween server limit skip (octets (wire_all fs) rest) c
      → IsMessage server cap opcode body fs
      → length body < 2 ^ 63
      → (0 < limit → length body ≤ limit)
      → All IsByte body
      → (opcode ≡ 1 → skip ≡ false → IsUtf8 body)
      → Begins opcode body c
  next_reader-Begins cap opcode body fs c data' b msg room within bytes text =
      begins opcode body fs c data' b
        (starting server cap opcode msg.front msg.last fs msg.split msg.fragments msg.final)
        msg.whole room within bytes text
