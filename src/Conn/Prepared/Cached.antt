-- ===== src/Conn/Prepared/Cached.antt =====
-- The frames in the cache of a PreparedMessage, and what WritePreparedMessage sends.
use mathlib.Core.Path.{subst}
use magilla.Base.{
  ℕ, ◌≡◌, refl, sym, ap, ◌∙◌, arith, Bool, true, false, not, ◌&&◌, List, [], ◌∷◌, ◌++◌, append-nil,
  Option, none, some, All, IsByte,
}
use magilla.Base.{◌==◌, if◌then◌else◌, inl, inr, Bool-cases, Option-cases}
use magilla.Base.Integers.{ℤ, pos}
use magilla.Errors.{Error, is_data}
use magilla.Frame.{Frame, wire_all}
use magilla.Frame.Message.{IsMessage}
use magilla.Conn.{Machine, Conn}
use magilla.Conn.Write.{masks}
use magilla.Conn.Message.{release_write_mu}
use magilla.Conn.Send.{Outcome, returned, acquire_write_mu, write_message}
use magilla.Conn.Sending.{write_live, moved}
use magilla.Conn.Deliver.{IsIdle}
use magilla.Conn.WholeMessage.{write_message-IsDelivered}
use magilla.Conn.Open.{new_conn}
use magilla.Conn.Session.{IsSendable, IsSendable-checked, new_conn-IsIdle}
use magilla.Conn.Prepared.{
  PrepareKey, PreparedMessage, same_key, prepared_frame, prepare_conn, written_frame, add_frame,
  cached_or, frame, write_frame, send_framed, write_prepared_message,
}

-- The bytes are those of one whole message, masked for the side of the key.
pub record IsFrameOf (opcode : ℕ) (body : List ℕ) (entry : PrepareKey × List ℕ) : Type 0 where
  pub frames : List Frame
  pub message : IsMessage (not entry.0.is_server && true) 0 opcode body frames
  pub bytes : entry.1 ≡ wire_all frames

-- All that is cached was prepared from the message.
abbrev pub IsPrepared : PreparedMessage → Type 0
IsPrepared pm = All (IsFrameOf pm.message_type pm.body) pm.frames

same_key-side : (a b : PrepareKey) → same_key a b ≡ true → a.is_server ≡ b.is_server
same_key-side a b h = ground (arith, h)

-- What is found for a key is a frame for its side.
prepared_frame-IsFrameOf :
    (opcode : ℕ) (body data' : List ℕ) (key : PrepareKey) (frames : List (PrepareKey × List ℕ))
    → All (IsFrameOf opcode body) frames
    → prepared_frame key frames ≡ some data'
    → IsFrameOf opcode body (key, data')
unfolding prepared_frame
prepared_frame-IsFrameOf opcode body data' key [] all found = cc
prepared_frame-IsFrameOf opcode body data' key ((k, d) ∷ frames) (first, all) found =
    elim (Bool-cases (same_key k key)) [
      | inl same ↦
          subst (λ side. IsFrameOf opcode body (record key { is_server = side }, data'))
            (same_key-side k key same)
            (record {
              frames = first.frames;
              message = first.message;
              bytes = sym (here same) ∙ first.bytes;
            })
      | inr other ↦
          prepared_frame-IsFrameOf opcode body data' key frames all
            (sym (ap (λ b. if b then some d else prepared_frame key frames) other) ∙ found)
    ]
  where
    here : same_key k key ≡ true → d ≡ data'
    here same = ground (arith, same, found)

module _ (m : Machine) where
  -- A message of bytes is prepared without an error, for a key that is cached or a new one, and
  -- the cache stays one of the message.
  pub record Prepared (key : PrepareKey) (rand : List ℕ) (pm : PreparedMessage) : Type 0 where
    pub data' : List ℕ
    pub later : PreparedMessage
    pub returns : frame m key rand pm ≡ some (none, (data', later))
    pub right : IsFrameOf pm.message_type pm.body (key, data')
    pub kept : IsPrepared later
    pub same_type : later.message_type ≡ pm.message_type

  frame-new :
      (key : PrepareKey) (rand : List ℕ) (pm : PreparedMessage)
      → prepared_frame key pm.frames ≡ none
      → IsPrepared pm
      → IsSendable (pm.message_type, pm.body)
      → All IsByte rand
      → Prepared key rand pm
  unfolding frame prepare_conn masks new_conn
  frame-new key rand pm missing all (data', bytes, text) random =
      let c = prepare_conn key rand in
      let d =
        write_message-IsDelivered m pm.message_type pm.body c
          (new_conn-IsIdle key.is_server (pos 4096) [] rand [] 0 random) data' bytes
          (IsSendable-checked m pm.message_type pm.body c text) in
      let right : IsFrameOf pm.message_type pm.body (key, d.later.net.sent) = record {
        frames = d.frames;
        message = d.message;
        bytes = ap (λ (c' : Conn). c'.net.sent) d.changes;
      } in
      record {
        data' = d.later.net.sent;
        later = record pm { frames = (key, d.later.net.sent) ∷ pm.frames };
        returns =
            ap
              (λ (o : Option (List ℕ)).
                cached_or pm o
                  (add_frame key pm (written_frame (write_message m pm.message_type pm.body c))))
              missing
            ∙ ap (λ (o : Outcome (Option Error)). add_frame key pm (written_frame o)) d.returns;
        right = right;
        kept = (right, all);
        same_type = refl;
      }

  frame-cached :
      (key : PrepareKey) (rand data' : List ℕ) (pm : PreparedMessage)
      → prepared_frame key pm.frames ≡ some data'
      → IsPrepared pm
      → Prepared key rand pm
  unfolding frame
  frame-cached key rand data' pm found all = record {
    data' = data';
    later = pm;
    returns =
        ap
          (λ (o : Option (List ℕ)). cached_or pm o (
            add_frame key pm
              (written_frame (write_message m pm.message_type pm.body (prepare_conn key rand)))))
          found;
    right = prepared_frame-IsFrameOf pm.message_type pm.body data' key pm.frames all found;
    kept = all;
    same_type = refl;
  }

  frame-Prepared :
      (key : PrepareKey) (rand : List ℕ) (pm : PreparedMessage)
      → IsPrepared pm
      → IsSendable (pm.message_type, pm.body)
      → All IsByte rand
      → Prepared key rand pm
  frame-Prepared key rand pm all sendable random =
      elim (Option-cases (prepared_frame key pm.frames)) [
        | inl missing ↦ frame-new key rand pm missing all sendable random
        | inr (data', found) ↦ frame-cached key rand data' pm found all
      ]

  -- WritePreparedMessage returned no error; it sent one message with the type and the payload, and
  -- the connection is idle again.
  pub record IsSent (pm : PreparedMessage) (c : Conn)
      (o : Option (Outcome (Option Error) × PreparedMessage)) : Type 0 where
    pub later : Conn
    pub pm' : PreparedMessage
    pub returns : o ≡ some (returned none later, pm')
    pub frames : List Frame
    pub message : IsMessage (not c.is_server) 0 pm.message_type pm.body frames
    pub sent : later.net.sent ≡ c.net.sent ++ wire_all frames
    pub idle : IsIdle later
    pub kept : IsPrepared pm'

  data-not-close : (opcode : ℕ) → is_data opcode ≡ true → (opcode == 8) ≡ false
  unfolding is_data
  data-not-close opcode h = ground (arith, h)

  write_frame-idle :
      (opcode : ℕ) (data' : List ℕ) (c : Conn)
      → IsIdle c
      → is_data opcode ≡ true
      → write_frame m opcode data' c
        ≡ returned none (moved (c.net.sent ++ data') c.write_buf c.rand c)
  unfolding write_frame acquire_write_mu release_write_mu
  write_frame-idle opcode data' c idle h =
      let c1 : Conn = record c { write_mu = false } in
      ground (
        arith,
        idle.unlocked,
        idle.no_deadline,
        idle.live.unbroken,
        write_live opcode data' [] c1 idle.live.unbroken idle.live.accepting,
        append-nil data',
        data-not-close opcode h,
      )

  and-true : (b : Bool) → b && true ≡ b
  and-true true = refl
  and-true false = refl

  -- A prepared data message, sent on an idle connection, goes out as one whole message, whether its
  -- frame was cached or is prepared now; what is cached stays right. A client's message is masked,
  -- even if the connection has its masking turned off, and a server's is not. The frame size of the
  -- connection plays no part. The cached frames are right for the message, whose type and payload
  -- may be sent, and the random bytes for the key are bytes.
  pub write_prepared_message-IsSent :
      (level : ℤ) (rand : List ℕ) (pm : PreparedMessage) (c : Conn)
      → IsPrepared pm
      → IsSendable (pm.message_type, pm.body)
      → All IsByte rand
      → IsIdle c
      → IsSent pm c (write_prepared_message m level rand pm c)
  unfolding write_prepared_message
  write_prepared_message-IsSent level rand pm c all sendable random idle =
      let key : PrepareKey = record { is_server = c.is_server; compression_level = level } in
      let f = frame-Prepared key rand pm all sendable random in
      let sent' =
        ap (λ (t : ℕ). write_frame m t f.data' c) f.same_type
        ∙ write_frame-idle pm.message_type f.data' c idle sendable.0 in
      record {
        later = moved (c.net.sent ++ f.data') c.write_buf c.rand c;
        pm' = f.later;
        returns = ap (send_framed m c) f.returns ∙ ap (λ o. some (o, f.later)) sent';
        frames = f.right.frames;
        message =
            subst (λ side. IsMessage side 0 pm.message_type pm.body f.right.frames)
              (and-true (not c.is_server)) f.right.message;
        sent = ap (λ t. c.net.sent ++ t) f.right.bytes;
        idle = record {
          live = record {
            unbroken = idle.live.unbroken;
            accepting = refl;
            random = idle.live.random;
          };
          unlocked = idle.unlocked;
          no_writer = idle.no_writer;
          no_deadline = idle.no_deadline;
          no_pool = idle.no_pool;
          room = idle.room;
        };
        kept = f.kept;
      }
