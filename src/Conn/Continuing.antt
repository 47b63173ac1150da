-- ===== src/Conn/Continuing.antt =====
-- messageReader.Read in the middle of a message: it gives the next bytes, of this frame or of the
-- next one that has any, or the end of the message.
use magilla.Base.{
  ℕ, zero, suc, ◌+◌, ◌^◌, ◌≤◌, ◌<◌, ◌≡◌, refl, ap, sym, ◌∙◌, arith, Bool, true, false, List, [],
  ◌∷◌, ◌++◌, Option, none, some, min, append_assoc,
}
use magilla.Base.{
  length, take, drop, All, IsByte, All-take, All-drop, length-take, take-append-drop, length-append,
  if◌then◌else◌, ◌⊎◌, inl, inr,
}
use mathlib.Core.Path.{subst}
use magilla.Errors.{is_data}
use magilla.Errors.Error.{eof}
use magilla.Mask.Laws.{masked}
use magilla.Frame.{Frame, wire, wire_all}
use magilla.Frame.Message.{HasKey, payloads}
use magilla.Conn.{Machine, Conn}
use magilla.Conn.Net.{Input}
use magilla.Conn.Incoming.{octets, octets-append, InTurn, continued}
use magilla.Conn.Parse.{parsed, new_key, on_wire, advance_frame-wire}
use magilla.Conn.Read.{advance_frame}
use magilla.Conn.Receive.{Piece, read_payload, next_part, read_loop}
use magilla.Conn.Arriving.{
  AreRest, seen, IsKeyed, IsBetween, IsMidway, pos_after, piece, read_payload-piece,
}

-- A piece of what is left of the message, `body`.
pub record IsMore (server : Bool) (limit : ℕ) (skip : Bool) (rest : List Input) (body : List ℕ)
    (r : Piece) : Type 0 where
  pub fine : r.err ≡ none
  pub left : List ℕ
  pub later : List Frame
  pub whole : r.bytes ++ (left ++ payloads later) ≡ body
  pub some_bytes : 0 < length r.bytes
  pub bytes : All IsByte r.bytes
  pub midway : IsMidway server limit skip rest left later r.conn

pub record IsEnd (server : Bool) (limit : ℕ) (skip : Bool) (rest : List Input) (body : List ℕ)
    (r : Piece) : Type 0 where
  pub ended : r.err ≡ some eof
  pub empty : r.bytes ≡ []
  pub nothing_left : body ≡ []
  pub between : IsBetween server limit skip rest r.conn

-- A piece or the end, on a connection whose reader and whose UTF-8 state are those of `c`.
pub record Gives (server : Bool) (limit : ℕ) (skip : Bool) (rest : List Input) (body : List ℕ)
    (c : Conn) (o : Option Piece) : Type 0 where
  pub piece' : Piece
  pub returns : o ≡ some piece'
  pub outcome : IsMore server limit skip rest body piece' ⊎ IsEnd server limit skip rest body piece'
  pub same_state : piece'.conn.read_utf8_state ≡ c.read_utf8_state
  pub same_reader : piece'.err ≡ none → piece'.conn.message_reader ≡ c.message_reader

module _ (m : Machine) where
  in_frame :
      (fuel size : ℕ) (c : Conn)
      → c.read_err ≡ none
      → 0 < c.read_remaining
      → read_loop m (suc fuel) size c ≡ some (read_payload m size c)
  unfolding read_loop
  in_frame fuel size c fine more = ground arith

  at_end :
      (fuel size : ℕ) (c : Conn)
      → c.read_err ≡ none
      → c.read_remaining ≡ 0
      → c.read_final ≡ true
      → read_loop m (suc fuel) size c
        ≡ some (record { bytes = []; err = some eof; conn = record c { message_reader = none } })
  unfolding read_loop
  at_end fuel size c fine done final = ground arith

  at_next :
      (fuel size : ℕ) (c : Conn)
      → c.read_err ≡ none
      → c.read_remaining ≡ 0
      → c.read_final ≡ false
      → read_loop m (suc fuel) size c ≡ read_loop m fuel size (next_part m (advance_frame m c))
  unfolding read_loop
  at_next fuel size c fine done more = ground arith

  seen-on_wire :
      (server s : Bool) (key : Option (List ℕ)) (old : List ℕ) (pos : ℕ) (payload : List ℕ)
      → s ≡ server
      → HasKey server key
      → on_wire m key payload ≡ seen server (new_key m key old) (if s then 0 else pos) payload
  seen-on_wire false s none old pos payload e h = refl
  seen-on_wire false s (some k) old pos payload e h = absurd h
  seen-on_wire true s none old pos payload e h = absurd h
  seen-on_wire true s (some k) old pos payload e h =
      ap (λ b. masked k (if b then 0 else pos) payload) (sym e)

  seen-nil : (server : Bool) (key : List ℕ) (pos : ℕ) → seen server key pos [] ≡ []
  unfolding masked
  seen-nil false key pos = refl
  seen-nil true key pos = refl

  new_key-IsKeyed :
      (server : Bool) (key : Option (List ℕ)) (old : List ℕ)
      → HasKey server key
      → IsKeyed server (new_key m key old)
  new_key-IsKeyed false key old h = tt
  new_key-IsKeyed true none old h = absurd h
  new_key-IsKeyed true (some k) old h = h.1

  -- The connection when the header of a frame has been read.
  abbrev pub opened : Frame → List Frame → List Input → Conn → Conn
  opened f fs rest c =
      parsed m c.is_server (length f.payload) f.final (new_key m f.key c.read_mask_key)
        (octets (on_wire m f.key f.payload) (octets (wire_all fs) rest)) c

  module _ (server : Bool) (limit : ℕ) (skip : Bool) (rest : List Input) where
    -- A frame can be taken in this state, and those after it follow.
    pub record CanOpen (f : Frame) (fs : List Frame) (c : Conn) : Type 0 where
      pub role : c.is_server ≡ server
      pub same_limit : c.read_limit ≡ limit
      pub same_skip : c.skip_utf8_validation ≡ skip
      pub fine : c.read_err ≡ none
      pub done : c.read_remaining ≡ 0
      pub turn : InTurn c.read_final f.opcode
      pub plain : f.compressed ≡ false
      pub has_key : HasKey server f.key
      pub bytes : All IsByte f.payload
      pub frames : AreRest server f.final fs
      pub input : c.input ≡ octets (wire_all (f ∷ fs)) rest
      pub room : c.read_length + length (f.payload ++ payloads fs) < 2 ^ 63
      pub within : 0 < limit → c.read_length + length (f.payload ++ payloads fs) ≤ limit

    pub opened-IsMidway :
        (f : Frame) (fs : List Frame) (c : Conn)
        → CanOpen f fs c
        → IsMidway server limit skip rest f.payload fs (opened f fs rest c)
    opened-IsMidway f fs c o = record {
      role = o.role;
      same_limit = o.same_limit;
      same_skip = o.same_skip;
      fine = o.fine;
      remaining = refl;
      input =
          ap (λ t. octets t (octets (wire_all fs) rest))
            (seen-on_wire server c.is_server f.key c.read_mask_key c.read_mask_pos f.payload o.role
              o.has_key);
      keyed = new_key-IsKeyed server f.key c.read_mask_key o.has_key;
      bytes = o.bytes;
      frames = o.frames;
      room = omega (arith, o.room, length-append f.payload (payloads fs));
      within = λ p. omega (arith, o.within p, length-append f.payload (payloads fs));
    }

    pub advance_frame-opened :
        (f : Frame) (fs : List Frame) (c : Conn)
        → CanOpen f fs c
        → advance_frame m c ≡ (inr f.opcode, opened f fs rest c)
    unfolding wire_all
    advance_frame-opened f fs c o =
        advance_frame-wire m f (octets (wire_all fs) rest) c o.done o.turn o.plain
          (subst (λ s. HasKey s f.key) (sym o.role) o.has_key)
          (record {
            no_overflow = omega (arith, o.room, length-append f.payload (payloads fs));
            limit = λ p. omega (
              arith,
              o.within (omega (arith, p, o.same_limit)),
              o.same_limit,
              length-append f.payload (payloads fs),
            );
          })
          (o.input ∙ octets-append (wire f) (wire_all fs) rest)

    midway-CanOpen :
        (f : Frame) (fs : List Frame) (c : Conn)
        → IsMidway server limit skip rest [] (f ∷ fs) c
        → CanOpen f fs c
    midway-CanOpen f fs c h =
        let (more, type, plain, key, bytes, frames) = h.frames in
        record {
          role = h.role;
          same_limit = h.same_limit;
          same_skip = h.same_skip;
          fine = h.fine;
          done = h.remaining;
          turn =
              subst (λ n. InTurn c.read_final n) (sym type)
                (subst (λ b. InTurn b 0) (sym more) continued);
          plain = plain;
          has_key = key;
          bytes = bytes;
          frames = frames;
          input =
              h.input ∙ ap (λ t. octets t (octets (wire_all (f ∷ fs)) rest)) (seen-nil server _ _);
          room = h.room;
          within = h.within;
        }

    payload-Gives :
        (size : ℕ) (t : List ℕ) (fs : List Frame) (c : Conn)
        → 0 < size
        → 0 < length t
        → IsMidway server limit skip rest t fs c
        → Gives server limit skip rest (t ++ payloads fs) c (some (read_payload m size c))
    payload-Gives size t fs c pos more h =
        let n = min size (length t) in
        let a = take n t in
        let b = drop n t in
        let whole : a ++ b ≡ t = take-append-drop n t in
        let few : length a ≡ n = omega (arith, length-take n t) in
        let q = pos_after server c.read_mask_pos (length a) in
        let r =
          piece m server a b (octets (seen server c.read_mask_key q b) (octets (wire_all fs) rest))
            c in
        record {
          piece' = r;
          returns = ap some (
              read_payload-piece m server size a b (octets (wire_all fs) rest) c h.role
                (h.remaining ∙ ap length (sym whole))
                (h.input
                  ∙ ap
                      (λ u.
                        octets (seen server c.read_mask_key c.read_mask_pos u)
                          (octets (wire_all fs) rest))
                      (sym whole))
                h.keyed (All-take IsByte n t h.bytes)
                (few ∙ ap (λ u. min size (length u)) (sym whole)));
          outcome = inl (record {
            fine = refl;
            left = b;
            later = fs;
            whole = sym (append_assoc a b (payloads fs)) ∙ ap (λ u. u ++ payloads fs) whole;
            some_bytes = omega (arith, few, pos, more);
            bytes = All-take IsByte n t h.bytes;
            midway = record {
              role = h.role;
              same_limit = h.same_limit;
              same_skip = h.same_skip;
              fine = refl;
              remaining = refl;
              input = refl;
              keyed = h.keyed;
              bytes = All-drop IsByte n t h.bytes;
              frames = h.frames;
              room = h.room;
              within = h.within;
            };
          });
          same_state = refl;
          same_reader = λ fine. refl;
        }

    end-Gives :
        (size : ℕ) (c : Conn)
        → IsMidway server limit skip rest [] [] c
        → Gives server limit skip rest [] c (
            some (record { bytes = []; err = some eof; conn = record c { message_reader = none } }))
    unfolding wire_all
    end-Gives size c h = record {
      piece' = record { bytes = []; err = some eof; conn = record c { message_reader = none } };
      returns = refl;
      outcome = inr (record {
        ended = refl;
        empty = refl;
        nothing_left = refl;
        between = record {
          role = h.role;
          same_limit = h.same_limit;
          same_skip = h.same_skip;
          fine = h.fine;
          done = h.remaining;
          final = h.frames;
          input = h.input ∙ ap (λ t. octets t rest) (seen-nil server _ _);
          keyed = h.keyed;
        };
      });
      same_state = refl;
      same_reader = λ fine. cc;
    }

    -- messageReader.Read's loop in a message; every frame takes one round.
    pub read_loop-Gives :
        (fuel size : ℕ) (t : List ℕ) (fs : List Frame) (c : Conn)
        → 0 < size
        → length fs < fuel
        → IsMidway server limit skip rest t fs c
        → Gives server limit skip rest (t ++ payloads fs) c (read_loop m fuel size c)
    unfolding next_part is_data
    read_loop-Gives zero size t fs c pos enough h = elim enough [ ]
    read_loop-Gives (suc fuel) size (x ∷ t) fs c pos enough h =
        subst (Gives server limit skip rest ((x ∷ t) ++ payloads fs) c)
          (sym (in_frame fuel size c h.fine (omega (arith, h.remaining))))
          (payload-Gives size (x ∷ t) fs c pos (omega arith) h)
    read_loop-Gives (suc fuel) size [] [] c pos enough h =
        subst (Gives server limit skip rest [] c)
          (sym (at_end fuel size c h.fine h.remaining h.frames)) (end-Gives size c h)
    read_loop-Gives (suc fuel) size [] (f ∷ fs) c pos enough h =
        let o = midway-CanOpen f fs c h in
        let (more, type, _, _, _, _) = h.frames in
        let g =
          read_loop-Gives fuel size f.payload fs (opened f fs rest c) pos (omega (arith, enough))
            (opened-IsMidway f fs c o) in
        let next : next_part m (advance_frame m c) ≡ opened f fs rest c =
          ap (next_part m) (advance_frame-opened f fs c o)
          ∙ ap {A = ℕ} (λ n. next_part m (inr n, opened f fs rest c)) type in
        let g' : Gives server limit skip rest (f.payload ++ payloads fs) c
            (read_loop m fuel size (opened f fs rest c)) =
          record {
            piece' = g.piece';
            returns = g.returns;
            outcome = g.outcome;
            same_state = g.same_state;
            same_reader = g.same_reader;
          } in
        subst (Gives server limit skip rest (f.payload ++ payloads fs) c)
          (sym (at_next fuel size c h.fine h.remaining more ∙ ap (read_loop m fuel size) next)) g'
