-- ===== src/Conn/Exchange.antt =====
-- Two new connections, the output of one being the input of the other.
use magilla.Base.{
  ℕ, zero, suc, ◌^◌, ◌<◌, ◌≡◌, refl, ap, ◌∙◌, arith, Bool, true, false, not, List, [], ◌∷◌, Option,
  none, some,
}
use magilla.Base.{length, All, IsByte}
use magilla.Base.Integers.{ℤ}
use mathlib.Core.Path.{subst}
use magilla.Frame.{Frame, wire_all}
use magilla.Conn.{Machine, Conn}
use magilla.Conn.Net.{Input, Network}
use magilla.Conn.Write.{masks}
use magilla.Conn.Send.{returned}
use magilla.Conn.Incoming.{octets, octets-append}
use magilla.Conn.Receive.{read_message, received, nothing, panicked, runs_out}
use magilla.Conn.Open.{new_conn}
use magilla.Conn.Session.{
  Message, IsSendable, AreMessages, wires, write_messages, new_conn-delivers,
}
use magilla.Conn.Arriving.{IsBetween, IsKeyed}
use magilla.Conn.WholeArrival.{read_message-IsReceived}

-- A message that fits in an int64 and in the fuel of io.ReadAll.
abbrev pub IsShort : ℕ → Message → Type 0
IsShort fuel (opcode, body) = (length body < 2 ^ 63) × (length body < fuel)

module _ (m : Machine) where
  -- ReadMessage, once for each message that is expected, up to the first error.
  unfoldable pub read_messages : ℕ → ℕ → (ℕ → ℕ) → Conn → Option (List Message × Conn)
  read_messages zero fuel sizes c = some ([], c)
  read_messages (suc n) fuel sizes c = elim (read_message m fuel sizes c) [
    | received opcode body e c' ↦ elim e [
      | none ↦ elim (read_messages n fuel sizes c') [
        | none ↦ none
        | some (xs, later) ↦ some ((opcode, body) ∷ xs, later)
      ]
      | some e' ↦ none
    ]
    | nothing e c' ↦ none
    | panicked ↦ none
    | runs_out ↦ none
  ]

  -- All messages were read, and the connection is between two messages.
  pub record AreReceived (server : Bool) (rest : List Input) (xs : List Message)
      (o : Option (List Message × Conn)) : Type 0 where
    pub later : Conn
    pub returns : o ≡ some (xs, later)
    pub between : IsBetween server 0 false rest later

  one_more :
      (n fuel : ℕ) (sizes : ℕ → ℕ) (opcode : ℕ) (body : List ℕ) (xs : List Message)
      (c c' later : Conn)
      → read_message m fuel sizes c ≡ received opcode body none c'
      → read_messages n fuel sizes c' ≡ some (xs, later)
      → read_messages (suc n) fuel sizes c ≡ some ((opcode, body) ∷ xs, later)
  unfolding read_messages
  one_more n fuel sizes opcode body xs c c' later e e' = ground (arith, e, e')

  read_messages-AreReceived :
      (server : Bool) (cap fuel : ℕ) (sizes : ℕ → ℕ) (rest : List Input) (xs : List Message)
      (frames : List (List Frame)) (c : Conn)
      → ((n : ℕ) → 0 < sizes n)
      → AreMessages server cap xs frames
      → All IsSendable xs
      → All (IsShort fuel) xs
      → IsBetween server 0 false (octets (wires frames) rest) c
      → AreReceived server rest xs (read_messages (length xs) fuel sizes c)
  unfolding read_messages
  read_messages-AreReceived server cap fuel sizes rest [] [] c pos h sendable short b = record {
    later = c;
    returns = refl;
    between = b;
  }
  read_messages-AreReceived server cap fuel sizes rest [] (f ∷ fs) c pos h sendable short b =
      absurd h
  read_messages-AreReceived server cap fuel sizes rest (x ∷ xs) [] c pos h sendable short b =
      absurd h
  read_messages-AreReceived server cap fuel sizes rest ((opcode, body) ∷ xs) (f ∷ fs) c pos h
        sendable short b =
      let ((data', bytes, text), others) = sendable in
      let r =
        read_message-IsReceived m server 0 false (octets (wires fs) rest) fuel cap opcode sizes body
          f c pos short.0.1 data'
          (subst (λ i. IsBetween server 0 false i c) (octets-append (wire_all f) (wires fs) rest) b)
          h.0 short.0.0 (λ p. absurd (omega (arith, p))) bytes (λ e e'. text e) in
      let rs =
        read_messages-AreReceived server cap fuel sizes rest xs fs r.later pos h.1 others short.1
          r.between in
      record {
        later = rs.later;
        returns =
            one_more (length xs) fuel sizes opcode body xs c r.later rs.later r.returns rs.returns;
        between = rs.between;
      }

new_conn-IsBetween :
    (server : Bool) (size : ℤ) (net : Network) (input : List Input) (rand : List ℕ) (now : ℕ)
    → IsBetween server 0 false input (new_conn server size none [] net input rand now)
unfolding new_conn
new_conn-IsBetween server size net input rand now = record {
  role = refl;
  same_limit = refl;
  same_skip = refl;
  fine = refl;
  done = refl;
  final = refl;
  input = refl;
  keyed = zeros server;
}
  where
    zeros : (server : Bool) → IsKeyed server (0 ∷ 0 ∷ 0 ∷ 0 ∷ [])
    zeros true = omega arith
    zeros false = tt

-- The sender returned no error, and the receiver read what was sent, and only that.
pub record Exchanged (m m' : Machine) (server : Bool) (fuel : ℕ) (sizes : ℕ → ℕ) (xs : List Message)
    (rest : List Input) (sender : Conn) (receiver : List Input → Conn) : Type 0 where
  pub sent : Conn
  pub sends : write_messages m xs sender ≡ returned none sent
  pub received' :
      AreReceived m' server rest xs
        (read_messages m' (length xs) fuel sizes (receiver (octets sent.net.sent rest)))

masks-new :
    (server : Bool) (size : ℤ) (net : Network) (input : List Input) (rand : List ℕ) (now : ℕ)
    → masks (new_conn server size none [] net input rand now) ≡ not server
unfolding masks new_conn
masks-new true size net input rand now = refl
masks-new false size net input rand now = refl

-- What one new connection sends by calls of WriteMessage, a new connection of the other role reads
-- by as many calls of ReadMessage: the same messages, in their order, with nothing left over. The
-- messages are data messages, in UTF-8 if they are texts; the sizes of the buffers and the machines
-- of the two ends may differ.
pub write_messages-read_messages :
    (m m' : Machine) (server : Bool) (size size' : ℤ) (fuel : ℕ) (sizes : ℕ → ℕ)
    (rand rand' : List ℕ) (now now' : ℕ) (input rest : List Input) (net' : Network)
    (xs : List Message)
    → ((n : ℕ) → 0 < sizes n)
    → All IsByte rand
    → All IsSendable xs
    → All (IsShort fuel) xs
    → Exchanged m m'
        (not server)
        fuel
        sizes
        xs
        rest
        (new_conn server size none [] (record { sent = []; answers = [] }) input rand now)
        (λ arriving. new_conn (not server) size' none [] net' arriving rand' now')
write_messages-read_messages m m' server size size' fuel sizes rand rand' now now' input rest net'
      xs pos random sendable short =
    let net : Network = record { sent = []; answers = [] } in
    let d = new_conn-delivers m server size rand input now xs random sendable in
    let cap = (new_conn server size none [] net input rand now).write_frame_size in
    let messages =
      subst (λ b. AreMessages b cap xs d.frames) (masks-new server size net input rand now)
        d.messages in
    record {
      sent = d.later;
      sends = d.returns;
      received' =
          read_messages-AreReceived m' (not server) cap fuel sizes rest xs d.frames _ pos messages
            sendable short
            (subst
              (λ i. IsBetween (not server) 0 false i (
                new_conn (not server) size' none [] net' (octets d.later.net.sent rest) rand' now'))
              (ap (λ t. octets t rest) (d.sent ∙ unfold new_conn in refl))
              (new_conn-IsBetween (not server) size' net' (octets d.later.net.sent rest) rand'
                now'));
    }
