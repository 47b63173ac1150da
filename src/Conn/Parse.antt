-- ===== src/Conn/Parse.antt =====
-- advanceFrame on the wire format: it understands what the writers send.
use magilla.Base.{
  ℕ, ◌+◌, ◌%◌, ◌^◌, ◌≤◌, ◌<◌, ◌≡◌, refl, ap, ◌∙◌, arith, Bool, true, false, List, [], ◌∷◌, ◌++◌,
  Option, none, some, inl, inr,
}
use magilla.Base.{length, ltb→lt, get_or, ltb, if◌then◌else◌, Bool-cases, bit_and}
use magilla.Errors.{is_data}
use magilla.Conn.{Machine, Conn}
use magilla.Conn.Net.{Input, octet}
use magilla.Conn.Read.{
  get_uint, set_read_remaining, has_bit, final_after, Advanced, check_limit, finish_frame,
  after_read, after_set, checked, read_key, read_extended, read_length_bytes, parse_header,
  read_header, advance_frame,
}
use magilla.Mask.Laws.{masked}
use magilla.Frame.{
  Frame, wire, body, flag, big_endian, length_code, extended_length, is_masked, header,
}
use magilla.Frame.Message.{HasKey}
use magilla.Conn.Incoming.{
  octets, octets-append, read-octets, bit_and_127, mask_flag, get_uint-big_endian, InTurn,
  first_text, first_binary, continued, first_byte_ok, header_errors-none,
}

module _ (m : Machine) where
  -- What is left to do when the header and the key have been read.
  abbrev pub parsed : Bool → ℕ → Bool → List ℕ → List Input → Conn → Conn
  parsed masked' n final key rest c = record c {
    input = rest;
    read_remaining = n;
    read_final = final;
    read_length = c.read_length + n;
    read_mask_key = key;
    read_mask_pos = if masked' then 0 else c.read_mask_pos;
  }

  abbrev pub new_key : Option (List ℕ) → List ℕ → List ℕ
  new_key none old = old
  new_key (some key) old = key

  limit_ok :
      (opcode : ℕ) (c : Conn)
      → opcode ≤ 2
      → c.read_length + c.read_remaining < 2 ^ 63
      → (0 < c.read_limit → c.read_length + c.read_remaining ≤ c.read_limit)
      → finish_frame m opcode c
        ≡ (inr opcode, record c { read_length = c.read_length + c.read_remaining })
  unfolding finish_frame check_limit is_data
  limit_ok opcode c small fits limit = ground arith

  abbrev pub key_bytes : Option (List ℕ) → List ℕ
  key_bytes none = []
  key_bytes (some key) = key

  -- A length and a limit that the connection can take.
  pub record Fits (n : ℕ) (c : Conn) : Type 0 where
    pub no_overflow : c.read_length + n < 2 ^ 63
    pub limit : 0 < c.read_limit → c.read_length + n ≤ c.read_limit

  read_key-parsed :
      (opcode : ℕ) (masked' : Bool) (key : Option (List ℕ)) (rest : List Input) (c : Conn)
      → HasKey masked' key
      → c.input ≡ octets (key_bytes key) rest
      → opcode ≤ 2
      → Fits c.read_remaining c
      → read_key m opcode masked' c ≡ (
        inr opcode,
        parsed masked' c.read_remaining c.read_final (new_key key c.read_mask_key) rest c,
      )
  unfolding read_key
  read_key-parsed opcode false none rest c has h small fits =
      limit_ok opcode c small fits.no_overflow fits.limit ∙ (λ i.
        (inr opcode, record c { input = h i; read_length = c.read_length + c.read_remaining }))
  read_key-parsed opcode false (some key) rest c has h small fits = absurd has
  read_key-parsed opcode true none rest c has h small fits = absurd has
  read_key-parsed opcode true (some key) rest c has h small fits =
      let c' : Conn = record c { input = rest; read_mask_pos = 0; read_mask_key = key } in
      ap (λ r. after_read m r (λ key c'. finish_frame m opcode (record c' { read_mask_key = key })))
        (read-octets 4 key rest (record c { read_mask_pos = 0 }) has.0 h)
      ∙ limit_ok opcode c' small fits.no_overflow fits.limit

  set_remaining :
      (n : ℕ) (c : Conn)
      → n < 2 ^ 63
      → set_read_remaining n c ≡ (none, record c { read_remaining = n })
  unfolding set_read_remaining
  set_remaining n c h = ground arith

  read_extended-parsed :
      (k n opcode : ℕ) (bs : List ℕ) (masked' : Bool) (key : Option (List ℕ)) (rest : List Input)
      (c : Conn)
      → length bs ≡ k
      → get_uint 0 bs ≡ n
      → HasKey masked' key
      → c.input ≡ octets bs (octets (key_bytes key) rest)
      → opcode ≤ 2
      → Fits n c
      → read_extended m k opcode masked' c
        ≡ (inr opcode, parsed masked' n c.read_final (new_key key c.read_mask_key) rest c)
  unfolding read_extended
  read_extended-parsed k n opcode bs masked' key rest c size value has h small fits =
      let c1 : Conn = record c { input = octets (key_bytes key) rest } in
      let c2 : Conn = record c1 { read_remaining = n } in
      let below : n < 2 ^ 63 = omega (arith, fits.no_overflow) in
      ap
        (λ r.
          after_read m r (λ p c1.
            after_set m (set_read_remaining (get_uint 0 p) c1) (read_key m opcode masked')))
        (read-octets k bs (octets (key_bytes key) rest) c size h)
      ∙ ap (λ r. after_set m r (read_key m opcode masked'))
          (ap (λ v. set_read_remaining v c1) value ∙ set_remaining n c1 below)
      ∙ read_key-parsed opcode masked' key rest c2 has refl small
          (record { no_overflow = fits.no_overflow; limit = fits.limit })

  -- Each of the three forms of a length.
  read_length_bytes-parsed :
      (n opcode : ℕ) (masked' : Bool) (key : Option (List ℕ)) (rest : List Input) (c : Conn)
      → HasKey masked' key
      → c.input ≡ octets (extended_length n) (octets (key_bytes key) rest)
      → c.read_remaining ≡ length_code n
      → opcode ≤ 2
      → Fits n c
      → read_length_bytes m opcode masked' c
        ≡ (inr opcode, parsed masked' n c.read_final (new_key key c.read_mask_key) rest c)
  unfolding read_length_bytes
  read_length_bytes-parsed n opcode masked' key rest c has h code small fits =
      elim (Bool-cases (ltb n 126)) [
        | inl short ↦
            let e : c.read_remaining ≡ n = code ∙ rw short refl in
            let path : read_length_bytes m opcode masked' c ≡ read_key m opcode masked' c =
              ground arith in
            let h' : c.input ≡ octets (key_bytes key) rest = h ∙ rw short refl in
            path
            ∙ read_key-parsed opcode masked' key rest c has h' small
                (record { no_overflow = rw e fits.no_overflow; limit = rw e fits.limit })
            ∙ ap {A = ℕ} {B = Advanced m}
                (λ t.
                  (inr opcode, parsed masked' t c.read_final (new_key key c.read_mask_key) rest c))
                e
        | inr long ↦ elim (Bool-cases (ltb n 65536)) [
          | inl medium ↦
              let path : read_length_bytes m opcode masked' c ≡ read_extended m 2 opcode masked' c =
                ground arith in
              path
              ∙ read_extended-parsed 2 n opcode (big_endian 2 n) masked' key rest c refl
                  (get_uint-big_endian 2 n (omega (arith, ltb→lt n 65536 medium))) has
                  (h ∙ rw (long, medium) refl) small fits
          | inr large ↦
              let path : read_length_bytes m opcode masked' c ≡ read_extended m 8 opcode masked' c =
                ground arith in
              path
              ∙ read_extended-parsed 8 n opcode (big_endian 8 n) masked' key rest c refl
                  (get_uint-big_endian 8 n (omega (arith, fits.no_overflow))) has
                  (h ∙ rw (long, large) refl) small fits
        ]
      ]

  keyed : (masked' : Bool) (key : Option (List ℕ)) → HasKey masked' key → is_masked key ≡ masked'
  keyed false none h = refl
  keyed false (some key) h = absurd h
  keyed true none h = absurd h
  keyed true (some key) h = refl

  -- The payload as it lies on the wire.
  abbrev pub on_wire : Option (List ℕ) → List ℕ → List ℕ
  on_wire none payload = payload
  on_wire (some key) payload = masked key 0 payload

  body-on_wire :
      (key : Option (List ℕ)) (payload : List ℕ)
      → body key payload ≡ key_bytes key ++ on_wire key payload
  body-on_wire none payload = refl
  body-on_wire (some key) payload = refl

  length_code_small : (n : ℕ) → length_code n < 128
  length_code_small n = ground arith

  turn_small : (was : Bool) (opcode : ℕ) → InTurn was opcode → opcode ≤ 2
  turn_small _ _ first_text = omega arith
  turn_small _ _ first_binary = omega arith
  turn_small _ _ continued = omega arith

  parse_header-parsed :
      (final was : Bool) (opcode n : ℕ) (key : Option (List ℕ)) (rest : List Input) (c : Conn)
      → c.read_final ≡ was
      → InTurn was opcode
      → HasKey c.is_server key
      → Fits n c
      → c.input ≡ octets (extended_length n) (octets (key_bytes key) rest)
      → parse_header m (flag final 128 + 0 + opcode) (flag (is_masked key) 128 + length_code n) c
        ≡ (inr opcode, parsed c.is_server n final (new_key key c.read_mask_key) rest c)
  unfolding parse_header
  parse_header-parsed final was opcode n key rest c e turn has fits h =
      let p0 = flag final 128 + 0 + opcode in
      let p1 = flag (is_masked key) 128 + length_code n in
      let (type, last) = first_byte_ok final was opcode turn in
      let bit =
        mask_flag (is_masked key) (length_code n) (length_code_small n)
        ∙ keyed c.is_server key has in
      let low : bit_and p1 127 ≡ length_code n =
        bit_and_127 p1 ∙ low_seven (is_masked key) (length_code n) (length_code_small n) in
      let c' : Conn = record c { read_remaining = length_code n; read_final = final } in
      ap
        (λ es.
          checked m es
            (record c { read_remaining = bit_and p1 127; read_final = final_after p0 c.read_final })
            (read_length_bytes m (bit_and p0 0xf) (has_bit p1 128)))
        (header_errors-none final was opcode p1 c e turn bit)
      ∙ (λ i.
          read_length_bytes m (type i) (bit i)
            (record c { read_remaining = low i; read_final = (ap (final_after p0) e ∙ last) i }))
      ∙ read_length_bytes-parsed n opcode c.is_server key rest c' has h refl
          (turn_small was opcode turn)
          (record { no_overflow = fits.no_overflow; limit = fits.limit })
    where
      low_seven : (b : Bool) (k : ℕ) → k < 128 → (flag b 128 + k) % 128 ≡ k
      low_seven b k lt = ground arith

  -- At the end of a frame, advanceFrame takes the header and the key of the next frame of a message
  -- off the input, if the frame is uncompressed, in its turn, masked as the role of the peer asks,
  -- and within the read limit. It returns the opcode and leaves the payload to be read.
  pub advance_frame-wire :
      (f : Frame) (rest : List Input) (c : Conn)
      → c.read_remaining ≡ 0
      → InTurn c.read_final f.opcode
      → f.compressed ≡ false
      → HasKey c.is_server f.key
      → Fits (length f.payload) c
      → c.input ≡ octets (wire f) rest
      → advance_frame m c ≡ (
        inr f.opcode,
        parsed c.is_server
            (length f.payload)
            f.final
            (new_key f.key c.read_mask_key)
            (octets (on_wire f.key f.payload) rest)
            c,
      )
  unfolding advance_frame read_header wire header
  advance_frame-wire f rest c done turn plain has fits h =
      let n = length f.payload in
      let p0 = flag f.final 128 + 0 + f.opcode in
      let p1 = flag (is_masked f.key) 128 + length_code n in
      let ext = extended_length n in
      let left = octets ext (octets (key_bytes f.key) (octets (on_wire f.key f.payload) rest)) in
      let split : octets (ext ++ body f.key f.payload) rest ≡ left =
        octets-append ext (body f.key f.payload) rest
        ∙ ap (octets ext) (
            ap (λ t. octets t rest) (body-on_wire f.key f.payload)
            ∙ octets-append (key_bytes f.key) (on_wire f.key f.payload) rest) in
      let input : c.input ≡ octets (p0 ∷ p1 ∷ []) left =
        h ∙ (λ i. octet (flag f.final 128 + flag (plain i) 64 + f.opcode) ∷ octet p1 ∷ split i) in
      let start : advance_frame m c ≡ read_header m c = ground arith in
      start
      ∙ ap (λ r. after_read m r (λ p c'. parse_header m (get_or p 0 0) (get_or p 1 0) c'))
          (read-octets 2 (p0 ∷ p1 ∷ []) left c refl input)
      ∙ parse_header-parsed f.final c.read_final f.opcode n f.key
          (octets (on_wire f.key f.payload) rest) (record c { input = left }) refl turn has
          (record { no_overflow = fits.no_overflow; limit = fits.limit }) refl
