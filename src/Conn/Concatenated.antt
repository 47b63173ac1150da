-- ===== src/Conn/Concatenated.antt =====
-- JoinMessages on the messages that arrive one after another.
use magilla.Base.{
  ℕ, zero, suc, ◌+◌, ◌^◌, ◌≤◌, ◌<◌, ◌≡◌, refl, ap, arith, Bool, true, false, List, [], ◌∷◌, ◌++◌,
  Option, none, some, append_assoc,
}
use mathlib.Core.Path.{subst}
use magilla.Base.{length, length-append, All, IsByte}
use magilla.Errors.{is_data}
use magilla.Utf8.Spec.{IsUtf8}
use magilla.Frame.{Frame, wire_all}
use magilla.Frame.Message.{IsMessage}
use magilla.Conn.{Machine, Conn}
use magilla.Conn.Net.{Input}
use magilla.Conn.Incoming.{octets}
use magilla.Conn.Join.{
  JoinReader, JoinRead, join_result, join_panicked, join_ran_out, join_read, join_messages,
}
use magilla.Conn.Arriving.{IsBetween}
use magilla.Conn.Joined.{add_bytes, join_reads, Joins, join_reads-Joins}

-- A message that arrives: its type, its payload and its frames.
pub record Arrival : Type 0 where
  pub opcode : ℕ
  pub body : List ℕ
  pub frames : List Frame

-- A data message that a connection may receive.
pub record IsReceivable (server : Bool) (limit : ℕ) (skip : Bool) (cap : ℕ) (a : Arrival)
    : Type 0 where
  pub data' : is_data a.opcode ≡ true
  pub framed : IsMessage server cap a.opcode a.body a.frames
  pub room : length a.body < 2 ^ 63
  pub within : 0 < limit → length a.body ≤ limit
  pub bytes : All IsByte a.body
  pub text : a.opcode ≡ 1 → skip ≡ false → IsUtf8 a.body

-- The messages on the wire, before the rest of the input.
unfoldable pub arrivals : List Arrival → List Input → List Input
arrivals [] rest = rest
arrivals (a ∷ as') rest = octets (wire_all a.frames) (arrivals as' rest)

-- The payloads, each with the text behind it.
unfoldable pub joined : List ℕ → List Arrival → List ℕ
joined term [] = []
joined term (a ∷ as') = (a.body ++ term) ++ joined term as'

module _ (m : Machine) (size : ℕ) where
  more_added :
      (b : List ℕ) (j' after : JoinReader) (bytes more : List ℕ)
      (p q : Option (List ℕ × JoinReader))
      → ((c : List ℕ) → p ≡ some (c, j') → q ≡ some (c ++ more, after))
      → add_bytes b p ≡ some (bytes, j')
      → add_bytes b q ≡ some (bytes ++ more, after)
  unfolding add_bytes
  more_added b j' after bytes more none q again e = absurd (ground (arith, e))
  more_added b j' after bytes more (some (c, d)) q again e =
      let whole : b ++ c ≡ bytes = ground (arith, e) in
      let same : d ≡ j' = ground (arith, e) in
      ground (
        arith,
        again c (ap (λ u. some (c, u)) same),
        append_assoc b c more,
        ap (λ u. u ++ more) whole,
      )

  join_reads-more :
      (n k : ℕ) (j j' after : JoinReader) (bytes more : List ℕ)
      → join_reads m size n j ≡ some (bytes, j')
      → join_reads m size k j' ≡ some (more, after)
      → join_reads m size (n + k) j ≡ some (bytes ++ more, after)
  unfolding join_reads
  join_reads-more zero k j j' after bytes more first second = ground (arith, first, second)
  join_reads-more (suc n) k j j' after bytes more first second =
      let count : suc (n + k) ≡ suc n + k = omega arith in
      subst (λ u. join_reads m size u j ≡ some (bytes ++ more, after)) count
        (go (join_read m size j) (λ next c e. join_reads-more n k next j' after c more e second)
          first)
    where
      go :
          (o : JoinRead)
          → ((next : JoinReader) (c : List ℕ)
              → join_reads m size n next ≡ some (c, j')
              → join_reads m size (n + k) next ≡ some (c ++ more, after))
          → elim o as (λ _. Option (List ℕ × JoinReader)) [
            | join_result b none next ↦ add_bytes b (join_reads m size n next)
            | join_result b (some e) next ↦ none
            | join_panicked ↦ none
            | join_ran_out ↦ none
          ]
            ≡ some (bytes, j')
          → elim o as (λ _. Option (List ℕ × JoinReader)) [
            | join_result b none next ↦ add_bytes b (join_reads m size (n + k) next)
            | join_result b (some e) next ↦ none
            | join_panicked ↦ none
            | join_ran_out ↦ none
          ]
            ≡ some (bytes ++ more, after)
      go (join_result b none next) again h = more_added b j' after bytes more _ _ (again next) h
      go (join_result b (some e) next) again h = absurd (ground (arith, h))
      go join_panicked again h = absurd (ground (arith, h))
      go join_ran_out again h = absurd (ground (arith, h))

  -- A client of JoinMessages whose buffer is not empty, on a connection between two messages, where
  -- data messages arrive one after another, each with any type and fragmented in any way,
  -- uncompressed, and masked if it is a server that reads: after finitely many reads without an
  -- error it has the payloads in order, each with the text behind it, whatever part of them each
  -- read returned, and its connection is between two messages again. It takes at most one read more
  -- for each message than there are bytes. Each payload is within the read limit, and UTF-8 if it
  -- is a text that is checked.
  pub join_reads-joined :
      (server : Bool) (limit : ℕ) (skip : Bool) (cap : ℕ) (rest : List Input) (term : List ℕ)
      (as' : List Arrival) (c : Conn)
      → 0 < size
      → IsBetween server limit skip (arrivals as' rest) c
      → All (IsReceivable server limit skip cap) as'
      → Joins m size server limit skip rest term
          (length as' + length (joined term as'))
          (joined term as')
          (join_messages c term)
  unfolding arrivals joined join_reads join_messages
  join_reads-joined server limit skip cap rest term [] c pos b h = record {
    count = 0;
    later = c;
    bounded = omega arith;
    reads = refl;
    between = b;
  }
  join_reads-joined server limit skip cap rest term (a ∷ as') c pos b h =
      let r = h.0 in
      let first =
        join_reads-Joins m size server limit skip (arrivals as' rest) term cap a.opcode a.body
          a.frames c pos r.data' b r.framed r.room r.within r.bytes r.text in
      let more =
        join_reads-joined server limit skip cap rest term as' first.later pos first.between h.1 in
      record {
        count = first.count + more.count;
        later = more.later;
        bounded = omega (
          arith,
          first.bounded,
          more.bounded,
          length-append (a.body ++ term) (joined term as'),
          length-append a.body term,
        );
        reads =
            join_reads-more first.count more.count (join_messages c term)
              (join_messages first.later term) (join_messages more.later term) (a.body ++ term)
              (joined term as') first.reads more.reads;
        between = more.between;
      }
