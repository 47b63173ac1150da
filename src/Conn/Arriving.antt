-- ===== src/Conn/Arriving.antt =====
-- A connection in the middle of a message whose frames arrive, and one read within a frame.
use magilla.Base.{
  ℕ, ◌+◌, ◌-◌, ◌%◌, ◌^◌, ◌≤◌, ◌<◌, ◌≡◌, refl, ap, ◌∙◌, arith, Bool, true, false, List, [], ◌∷◌,
  ◌++◌, none, min,
}
use magilla.Base.{length, All, IsByte, length-append, if◌then◌else◌}
use magilla.Mask.Laws.{masked, masked-mod, masked-append, length-masked}
use magilla.Mask.Bytes.{mask_bytes-masked}
use magilla.Mask.Twice.{masked-masked, masked-IsByte}
use magilla.Frame.{Frame, wire_all}
use magilla.Frame.Message.{HasKey, payloads}
use magilla.Conn.{Machine, Conn}
use magilla.Conn.Net.{Input, read_input, take_chunk}
use magilla.Conn.Write.{mask}
use magilla.Conn.Incoming.{octets, octets-append}
use magilla.Conn.Receive.{Piece, read_payload}

-- The frames that are still to come, behind one whose FIN bit is `final`.
abbrev pub AreRest : Bool → Bool → List Frame → Type 0
AreRest server final [] = final ≡ true
AreRest server final (f ∷ fs) =
    (final ≡ false)
    × (f.opcode ≡ 0)
    × (f.compressed ≡ false)
    × HasKey server f.key
    × All IsByte f.payload
    × AreRest server f.final fs

-- A payload as it arrives at a server or at a client.
abbrev pub seen : Bool → List ℕ → ℕ → List ℕ → List ℕ
seen false key pos t = t
seen true key pos t = masked key pos t

abbrev pub IsKeyed : Bool → List ℕ → Type 0
IsKeyed false key = Unit
IsKeyed true key = All IsByte key

-- A connection between two messages, and what is to arrive next.
pub record IsBetween (server : Bool) (limit : ℕ) (skip : Bool) (rest : List Input) (c : Conn)
    : Type 0 where
  pub role : c.is_server ≡ server
  pub same_limit : c.read_limit ≡ limit
  pub same_skip : c.skip_utf8_validation ≡ skip
  pub fine : c.read_err ≡ none
  pub done : c.read_remaining ≡ 0
  pub final : c.read_final ≡ true
  pub input : c.input ≡ rest
  pub keyed : IsKeyed server c.read_mask_key

-- A connection within a message: the unread part of the frame, the frames after it, and what is to
-- arrive behind the message.
pub record IsMidway (server : Bool) (limit : ℕ) (skip : Bool) (rest : List Input) (t : List ℕ)
    (fs : List Frame) (c : Conn) : Type 0 where
  pub role : c.is_server ≡ server
  pub same_limit : c.read_limit ≡ limit
  pub same_skip : c.skip_utf8_validation ≡ skip
  pub fine : c.read_err ≡ none
  pub remaining : c.read_remaining ≡ length t
  pub input :
      c.input ≡ octets (seen server c.read_mask_key c.read_mask_pos t) (octets (wire_all fs) rest)
  pub keyed : IsKeyed server c.read_mask_key
  pub bytes : All IsByte t
  pub frames : AreRest server c.read_final fs
  pub room : c.read_length + length (payloads fs) < 2 ^ 63
  pub within : 0 < limit → c.read_length + length (payloads fs) ≤ limit

seen-append :
    (server : Bool) (key : List ℕ) (pos : ℕ) (a b : List ℕ)
    → seen server key pos (a ++ b) ≡ seen server key pos a ++ seen server key (pos + length a) b
seen-append false key pos a b = refl
seen-append true key pos a b = masked-append key pos a b

length-seen :
    (server : Bool) (key : List ℕ) (pos : ℕ) (a : List ℕ)
    → length (seen server key pos a) ≡ length a
length-seen false key pos a = refl
length-seen true key pos a = length-masked key pos a

take_chunk-octets :
    (bs : List ℕ) (rest : List Input)
    → take_chunk (length bs) (octets bs rest) ≡ record { bytes = bs; err = none; left = rest }
unfolding take_chunk
take_chunk-octets [] rest = refl
take_chunk-octets (b ∷ bs) rest = rw (take_chunk-octets bs rest) refl

read_input-octets :
    (n : ℕ) (bs : List ℕ) (rest : List Input)
    → length bs ≡ n
    → read_input n (octets bs rest) ≡ record { bytes = bs; err = none; left = rest }
unfolding read_input take_chunk
read_input-octets n [] rest h = rw (← h) refl
read_input-octets n (b ∷ bs) rest h = rw (← h) (rw (take_chunk-octets bs rest) refl)

-- The position in the key behind `n` bytes.
abbrev pub pos_after : Bool → ℕ → ℕ → ℕ
pos_after false pos n = pos
pos_after true pos n = (pos + n) % 4

seen-pos_after :
    (server : Bool) (key : List ℕ) (pos n : ℕ) (b : List ℕ)
    → seen server key (pos + n) b ≡ seen server key (pos_after server pos n) b
seen-pos_after false key pos n b = refl
seen-pos_after true key pos n b = masked-mod key (pos + n) ((pos + n) % 4) b (omega arith)

module _ (m : Machine) where
  unseen :
      (server : Bool) (key : List ℕ) (pos : ℕ) (a : List ℕ)
      → IsKeyed server key
      → All IsByte a
      → (if server then mask m key pos (seen server key pos a) else (seen server key pos a, pos))
        ≡ (a, pos_after server pos (length a))
  unfolding mask
  unseen false key pos a k h = refl
  unseen true key pos a k h =
      mask_bytes-masked m.big_endian m.word_size m.word_size_fours m.word_size_pos key k
        (m.align (masked key pos a)) pos (masked key pos a) (m.align-lt (masked key pos a))
        (masked-IsByte key pos a k h)
      ∙ (λ i. (masked-masked key pos a i, (pos + length-masked key pos a i) % 4))

  -- What a read within a frame returns when it is handed `a` and leaves `b`.
  abbrev pub piece : Bool → List ℕ → List ℕ → List Input → Conn → Piece
  piece server a b rest c = record {
    bytes = a;
    err = none;
    conn = record c {
      input = rest;
      read_mask_pos = pos_after server c.read_mask_pos (length a);
      read_remaining = length b;
      read_err = none;
    };
  }

  pub read_payload-piece :
      (server : Bool) (size : ℕ) (a b : List ℕ) (rest : List Input) (c : Conn)
      → c.is_server ≡ server
      → c.read_remaining ≡ length (a ++ b)
      → c.input ≡ octets (seen server c.read_mask_key c.read_mask_pos (a ++ b)) rest
      → IsKeyed server c.read_mask_key
      → All IsByte a
      → length a ≡ min size (length (a ++ b))
      → let q = pos_after server c.read_mask_pos (length a) in
        read_payload m size c ≡ piece server a b (octets (seen server c.read_mask_key q b) rest) c
  unfolding read_payload
  read_payload-piece server size a b rest c role remaining input keyed bytes size_a =
      let key = c.read_mask_key in
      let pos = c.read_mask_pos in
      let left = octets (seen server key (pos_after server pos (length a)) b) rest in
      let arrived : c.input ≡ octets (seen server key pos a) left =
        input
        ∙ ap (λ t. octets t rest) (seen-append server key pos a b)
        ∙ octets-append (seen server key pos a) (seen server key (pos + length a) b) rest
        ∙ ap (λ t. octets (seen server key pos a) (octets t rest))
            (seen-pos_after server key pos (length a) b) in
      let got : read_input (min size c.read_remaining) c.input
          ≡ record { bytes = seen server key pos a; err = none; left = left } =
        (λ i. read_input (min size (remaining i)) (arrived i))
        ∙ read_input-octets _ _ left (length-seen server key pos a ∙ size_a) in
      let rem : c.read_remaining - length (seen server key pos a) ≡ length b =
        omega (arith, remaining, length-append a b, length-seen server key pos a) in
      let plain : (if c.is_server
            then mask m key pos (seen server key pos a)
            else (seen server key pos a, pos))
          ≡ (a, pos_after server pos (length a)) =
        ap (λ s. if s then mask m key pos (seen server key pos a) else (seen server key pos a, pos))
          role
        ∙ unseen server key pos a keyed bytes in
      rw (got, plain, rem) (ground arith)
