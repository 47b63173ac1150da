-- ===== src/Conn/Joined.antt =====
-- The reads of a client of JoinMessages, on one message after another.
use magilla.Base.{
  ℕ, zero, suc, ◌+◌, ◌^◌, ◌≤◌, ◌<◌, ◌≡◌, refl, ap, sym, ◌∙◌, arith, Bool, true, false, not, List,
  [], ◌∷◌, ◌++◌, Option, none, some, append_assoc,
}
use magilla.Base.{
  length, length-append, take, drop, take-append-drop, length-drop, All, IsByte, ◌&&◌, ◌==◌, inl,
  inr,
}
use mathlib.Core.Path.{subst}
use magilla.Opcode
use magilla.Errors.{is_data}
use magilla.Utf8.Spec.{IsUtf8}
use magilla.Frame.{Frame, wire_all}
use magilla.Frame.Message.{IsMessage, payloads}
use magilla.Conn.{Machine, Conn}
use magilla.Conn.Net.{Input}
use magilla.Conn.Incoming.{octets}
use magilla.Conn.Join.{
  Source, JoinReader, JoinRead, join_result, join_panicked, join_ran_out, read_term, message_ended,
  read_source, join_read, join_messages,
}
use magilla.Conn.Arriving.{IsBetween, IsMidway}
use magilla.Conn.Gathering.{IsText}
use magilla.Conn.Arrived.{reader_read-GivesRead}
use magilla.Conn.Beginning.{next_reader-Begins}

-- Bytes in front of those that more reads returned.
unfoldable pub add_bytes : List ℕ → Option (List ℕ × JoinReader) → Option (List ℕ × JoinReader)
add_bytes bytes none = none
add_bytes bytes (some (more, after)) = some (bytes ++ more, after)

module _ (m : Machine) (size : ℕ) where
  -- So many calls of Read, each with a buffer of the size and without an error: all that they
  -- returned, and the reader behind them.
  unfoldable pub join_reads : ℕ → JoinReader → Option (List ℕ × JoinReader)
  join_reads zero j = some ([], j)
  join_reads (suc n) j = elim (join_read m size j) [
    | join_result bytes none j' ↦ add_bytes bytes (join_reads n j')
    | join_result bytes (some e) j' ↦ none
    | join_panicked ↦ none
    | join_ran_out ↦ none
  ]

  -- At the end of a message an empty text is read like any other.
  message_ended-read_term :
      (t : List ℕ) (s : Source) (c : Conn) (current : Option Source)
      → message_ended size [] s (record { conn = c; term = t; current = current })
        ≡ read_term size t s (record { conn = c; term = t; current = current })
  unfolding message_ended read_term
  message_ended-read_term [] s c current = refl
  message_ended-read_term (x ∷ t) s c current = refl

  module _ (server : Bool) (limit : ℕ) (skip : Bool) (rest : List Input) (term : List ℕ) where
    -- At most `bound` reads return the text, and leave the reader between two messages.
    pub record Joins (bound : ℕ) (text : List ℕ) (j : JoinReader) : Type 0 where
      pub count : ℕ
      pub later : Conn
      pub bounded : count ≤ bound
      pub reads :
          join_reads count j ≡ some (text, record { conn = later; term = term; current = none })
      pub between : IsBetween server limit skip rest later

    -- A read that returned a part of the text; at most `bound` more return what is left of it.
    record JoinsFrom (bound : ℕ) (text : List ℕ) (o : JoinRead) : Type 0 where
      pub bytes : List ℕ
      pub left : List ℕ
      pub after : JoinReader
      pub returns : o ≡ join_result bytes none after
      pub whole : bytes ++ left ≡ text
      pub then' : Joins bound left after

    step :
        (bound : ℕ) (text : List ℕ) (j : JoinReader)
        → JoinsFrom bound text (join_read m size j)
        → Joins (suc bound) text j
    unfolding join_reads add_bytes
    step bound text j f = record {
      count = suc f.then'.count;
      later = f.then'.later;
      bounded = omega (arith, f.then'.bounded);
      reads = ground (arith, f.returns, f.then'.reads, f.whole);
      between = f.then'.between;
    }

    weaken :
        (small bound : ℕ) (text : List ℕ) (j : JoinReader)
        → small ≤ bound
        → Joins small text j
        → Joins bound text j
    weaken small bound text j le f = record {
      count = f.count;
      later = f.later;
      bounded = omega (arith, le, f.bounded);
      reads = f.reads;
      between = f.between;
    }

    done :
        (bound : ℕ) (c : Conn)
        → IsBetween server limit skip rest c
        → Joins bound [] (record { conn = c; term = term; current = none })
    unfolding join_reads
    done bound c b = record {
      count = 0;
      later = c;
      bounded = omega arith;
      reads = refl;
      between = b;
    }

    term-JoinsFrom :
        (fuel : ℕ) (t : List ℕ) (s : Source) (c : Conn) (current : Option Source)
        → length t < fuel
        → 0 < size
        → IsBetween server limit skip rest c
        → JoinsFrom
            (length t)
            t
            (read_term size t s (record { conn = c; term = term; current = current }))
    unfolding read_term join_read read_source
    term-JoinsFrom zero t s c current enough pos b = absurd (omega (arith, enough))
    term-JoinsFrom (suc fuel) [] s c current enough pos b = record {
      bytes = [];
      left = [];
      after = record { conn = c; term = term; current = none };
      returns = refl;
      whole = refl;
      then' = done 0 c b;
    }
    term-JoinsFrom (suc fuel) (x ∷ t) s c current enough pos b =
        let left = drop size (x ∷ t) in
        let shorter : suc (length left) ≤ length (x ∷ t) =
          omega (arith, pos, length-drop size (x ∷ t)) in
        let s' : Source = record s { in_term = some left } in
        let after : JoinReader = record { conn = c; term = term; current = some s' } in
        record {
          bytes = take size (x ∷ t);
          left = left;
          after = after;
          returns = refl;
          whole = take-append-drop size (x ∷ t);
          then' = weaken (suc (length left)) (length (x ∷ t)) left after shorter (
              step (length left) left after
                (term-JoinsFrom fuel left s' c (some s') (omega (arith, shorter, enough)) pos b));
        }

    -- The source of a message that is being read.
    abbrev source : ℕ → Bool → Source
    source reader checked = record {
      reader = reader;
      checked = checked;
      failed = false;
      in_term = none;
    }

    body-JoinsFrom :
        (fuel : ℕ) (checked : Bool) (reader : ℕ) (t : List ℕ) (fs : List Frame) (c : Conn)
        (current : Option Source)
        → 0 < size
        → length (t ++ payloads fs) < fuel
        → c.message_reader ≡ some reader
        → IsMidway server limit skip rest t fs c
        → IsText checked c.read_utf8_state (t ++ payloads fs)
        → JoinsFrom (length (t ++ payloads fs) + length term) ((t ++ payloads fs) ++ term) (
            read_source m size
              (source reader checked)
              (record { conn = c; term = term; current = current }))
    unfolding join_read read_source
    body-JoinsFrom zero checked reader t fs c current pos enough cur h text =
        absurd (omega (arith, enough))
    body-JoinsFrom (suc fuel) checked reader t fs c current pos enough cur h text =
        let g =
          reader_read-GivesRead m server limit skip rest checked reader size t fs c pos cur h
            text in
        let s = source reader checked in
        elim g.outcome [
          | inl (more, text') ↦
              let r = g.piece' in
              let body = more.left ++ payloads more.later in
              let shorter : length body < length (t ++ payloads fs) =
                omega (arith, more.some_bytes, ap length more.whole, length-append r.bytes body) in
              let after : JoinReader = record { conn = r.conn; term = term; current = some s } in
              record {
                bytes = r.bytes;
                left = body ++ term;
                after = after;
                returns = ground (arith, g.returns, more.fine);
                whole = sym (append_assoc r.bytes body term) ∙ ap (λ u. u ++ term) more.whole;
                then' =
                    weaken (suc (length body + length term))
                      (length (t ++ payloads fs) + length term) (body ++ term) after
                      (omega (arith, shorter))
                      (step (length body + length term) (body ++ term) after (
                        body-JoinsFrom fuel checked reader more.left more.later r.conn (some s) pos
                          (omega (arith, shorter, enough)) (g.same_reader more.fine ∙ cur)
                          more.midway text'));
              }
          | inr end' ↦
              let c' = g.piece'.conn in
              let f =
                term-JoinsFrom (suc (length term)) term s c' (some s) (omega arith) pos
                  end'.between in
              record {
                bytes = f.bytes;
                left = f.left;
                after = f.after;
                returns = ground (
                  arith,
                  g.returns,
                  end'.ended,
                  end'.empty,
                  message_ended-read_term term s c' (some s),
                  f.returns,
                );
                whole = f.whole ∙ ap (λ u. u ++ term) (sym end'.nothing_left);
                then' =
                    weaken (length term) (length (t ++ payloads fs) + length term) f.left f.after
                      (omega arith) f.then';
              }
        ]

    -- A client of JoinMessages whose buffer is not empty, on a connection between two messages,
    -- where the frames of a data message arrive, uncompressed, fragmented in any way and masked if
    -- it is a server that reads: after finitely many reads without an error, at most one more than
    -- the bytes to read, it has all of the payload and then the text, whatever part of them each
    -- read returned, and its connection is between two messages again. The payload is within the
    -- read limit, and UTF-8 if it is a text that is checked.
    pub join_reads-Joins :
        (cap opcode : ℕ) (body : List ℕ) (fs : List Frame) (c : Conn)
        → 0 < size
        → is_data opcode ≡ true
        → IsBetween server limit skip (octets (wire_all fs) rest) c
        → IsMessage server cap opcode body fs
        → length body < 2 ^ 63
        → (0 < limit → length body ≤ limit)
        → All IsByte body
        → (opcode ≡ 1 → skip ≡ false → IsUtf8 body)
        → Joins (suc (length body + length term)) (body ++ term) (join_messages c term)
    unfolding join_read join_messages
    join_reads-Joins cap opcode body fs c pos data' b msg room within bytes text =
        let s =
          next_reader-Begins m server limit skip rest cap opcode body fs c data' b msg room within
            bytes text in
        let checked = opcode == Opcode.text && not c.skip_utf8_validation in
        let o = source c.readers checked in
        let f =
          body-JoinsFrom (suc (length (s.first ++ payloads s.later))) checked c.readers s.first
            s.later s.begun (some o) pos (omega arith) s.current s.midway s.text in
        let path : read_source m size o (record { conn = s.begun; term = term; current = some o })
            ≡ join_read m size (join_messages c term) =
          ground (arith, s.starts) in
        step (length body + length term) (body ++ term) (join_messages c term) (
          subst (JoinsFrom (length body + length term) (body ++ term)) path (
            subst
              (λ u.
                JoinsFrom (length u + length term) (u ++ term)
                  (read_source m size o (record { conn = s.begun; term = term; current = some o })))
              s.whole f))
