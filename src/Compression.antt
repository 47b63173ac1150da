-- ===== src/Compression.antt =====
-- compression.go, but for compress/flate itself: the modes and parameters of permessage-deflate, the
-- truncWriter, and the sliding window of a reader with context takeover.
pub mod Account
pub mod Trunc
pub mod Window
pub mod Flate
pub mod Deflating
pub mod Takeover
pub mod Single
use magilla.Base.{
  ℕ, zero, suc, ◌+◌, ◌-◌, ◌*◌, Bool, true, false, not, ◌&&◌, ◌||◌, List, [], ◌∷◌, ◌++◌, Option,
  none, some, min,
}
use magilla.Base.{same_text, ltb, leb, ◌==◌, if◌then◌else◌, length, take, drop}
use magilla.Base.Integers.{ℤ, pos, negsuc}
use magilla.Errors.{Error, codes}
use magilla.Conn.Net.{Network, net_write}
use magilla.Token.{Params}
use magilla.Conn.Write.{copy_at}

-- `minCompressionLevel` is -2 and `flate.BestCompression` is 9.
unfoldable pub is_valid_compression_level : ℤ → Bool
is_valid_compression_level (pos n) = leb n 9
is_valid_compression_level (negsuc n) = leb n 1

pub data CompressionMode : Type 0 where
  default_mode disabled no_context_takeover context_takeover : CompressionMode

unfoldable pub effective_compression_mode : CompressionMode → Bool → CompressionMode
effective_compression_mode default_mode true = no_context_takeover
effective_compression_mode default_mode false = disabled
effective_compression_mode disabled enable = disabled
effective_compression_mode no_context_takeover enable = no_context_takeover
effective_compression_mode context_takeover enable = context_takeover

unfoldable pub compression_offer_header : CompressionMode → List ℕ
compression_offer_header no_context_takeover =
    codes "permessage-deflate; server_no_context_takeover; client_no_context_takeover"
compression_offer_header context_takeover = codes "permessage-deflate"
compression_offer_header default_mode = []
compression_offer_header disabled = []

-- pmdeflateParams
pub record PmDeflate : Type 0 where
  pub server_no_context_takeover : Bool
  pub client_no_context_takeover : Bool
  pub window_bits_valid : Bool

abbrev is_other_window : List ℕ → Bool
is_other_window v = not (length v == 0) && not (same_text v (codes "15"))

-- The switch of parsePMDeflate on one parameter.
unfoldable pub read_param : List ℕ → List ℕ → PmDeflate → PmDeflate
read_param k v p =
    if same_text k (codes "server_no_context_takeover")
    then record p { server_no_context_takeover = true }
    else if same_text k (codes "client_no_context_takeover")
    then record p { client_no_context_takeover = true }
    else if same_text k (codes "server_max_window_bits")
        || same_text k (codes "client_max_window_bits")
    then (if is_other_window v then record p { window_bits_valid = false } else p)
    else p

unfoldable pub read_params : Params → PmDeflate → PmDeflate
read_params [] p = p
read_params ((k, v) ∷ ext) p = read_params ext (read_param k v p)

-- parsePMDeflate; the order of the map makes no difference.
unfoldable pub parse_pm_deflate : Params → PmDeflate
parse_pm_deflate ext = read_params ext (record {
  server_no_context_takeover = false;
  client_no_context_takeover = false;
  window_bits_valid = true;
})

-- The truncWriter: the writer below it, its four bytes, and how many of them are filled.
pub record TruncWriter : Type 0 where
  pub below : Network
  pub n : ℕ
  pub p : List ℕ

-- The second half of truncWriter.Write, with the four bytes filled. The counts that Write returns
-- are left out: flate looks at the error.
unfoldable pub push_through : List ℕ → TruncWriter → Option Error × TruncWriter
push_through b w =
    let m = min (length b) 4 in
    let (e, below) = net_write (take m w.p) w.below in
    elim e [
      | some e' ↦ (some e', record w { below = below })
      | none ↦
          let p1 = copy_at 0 (drop m w.p) w.p in
          let p2 = copy_at (4 - m) (drop (length b - m) b) p1 in
          let (e', below') = net_write (take (length b - m) b) below in
          (e', record w { below = below'; p = p2 })
    ]

-- truncWriter.Write
unfoldable pub trunc_write : List ℕ → TruncWriter → Option Error × TruncWriter
trunc_write b w =
    if ltb w.n 4
    then (let k = min (4 - w.n) (length b) in
        let w' = record w { p = copy_at w.n b w.p; n = w.n + k } in
        let b' = drop k b in if length b' == 0 then (none, w') else push_through b' w')
    else push_through b w

-- `maxWindowBits`
abbrev pub max_window_bits : ℕ
max_window_bits = 32768

-- flateTakeoverReadWrapper.Read on the window, with the bytes that flate returned.
unfoldable pub slide : ℕ → List ℕ → List ℕ → List ℕ
slide size bytes window =
    if ltb 0 (length bytes)
    then (let w = window ++ bytes in if ltb size (length w) then drop (length w - size) w else w)
    else window
