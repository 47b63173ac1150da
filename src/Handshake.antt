-- ===== src/Handshake.antt =====
-- What the parts of the opening handshake over HTTP/1.1 share: Upgrader.Upgrade of server.go and
-- Dialer.DialContext of client.go.
pub mod Extensions
pub mod Checks
pub mod Upgrade
pub mod Negotiate
pub mod Subprotocol
pub mod Response
pub mod Dial
pub mod Accepted
use magilla.Base.{
  ℕ, zero, suc, ◌+◌, Bool, true, false, not, ◌&&◌, ◌||◌, List, [], ◌∷◌, ◌++◌, Option, none, some,
  ◌⊎◌, inl, inr,
}
use magilla.Base.{same_text, leb, ◌==◌, if◌then◌else◌, length}
use Prim.Native.String.{String}
use magilla.Errors.{Error, codes}
use magilla.Http.{Header, values, get}
use magilla.Token.{
  Params, equal_ascii_fold, token_list_contains_value, parse_extensions, is_valid_challenge_key,
  compute_accept_key,
}
use magilla.Compression.{
  CompressionMode, disabled, no_context_takeover, context_takeover, default_mode, PmDeflate,
  effective_compression_mode, compression_offer_header, parse_pm_deflate,
}
use magilla.Base.Integers.{ℤ, pos, negsuc}
use magilla.Conn.{Conn}
use magilla.Conn.Open.{new_conn}
use magilla.Conn.Write.{max_frame_header_size}
use magilla.Conn.Net.{Network, Input, net_write, net_set_write_deadline}

-- What the handshake calls of net/url, strings and crypto: the host of a parsed URL, TrimSpace,
-- SHA-1, and the encoding to base64.
pub record Library : Type 0 where
  pub url_host : List ℕ → Option (List ℕ)
  pub trim_space : List ℕ → List ℕ
  pub sha1 : List ℕ → List ℕ
  pub base64 : List ℕ → List ℕ

pub record Request : Type 0 where
  pub proto_major : ℕ
  pub method : List ℕ
  pub host : List ℕ
  pub header : Header

-- The fields of an Upgrader that the handshake reads.
pub record Upgrader : Type 0 where
  pub handshake_timeout : ℕ
  pub subprotocols : Option (List (List ℕ))
  pub valid_challenge_key : Option (List ℕ → Bool)
  pub negotiate_subprotocol : Option (Request → List (List ℕ) → List ℕ)
  pub check_origin : Option (Request → Bool)
  pub enable_compression : Bool
  pub compression_mode : CompressionMode
  pub write_buffer_size : ℤ
  pub write_buffer_pool : Option (List (List ℕ))
  pub skip_utf8_validation : Bool

-- What Hijack returns: the network connection, what will arrive on it or has arrived already, and
-- the buffer of its writer up to its capacity; with the random bytes and the clock.
pub record Hijacked : Type 0 where
  pub net : Network
  pub input : List Input
  pub buf : List ℕ
  pub rand : List ℕ
  pub now : ℕ

-- What Upgrade answers with, before it takes the connection over.
pub record Refusal : Type 0 where
  pub status : ℕ
  pub reason : List ℕ

-- Whether messages are compressed, and which direction keeps its context.
pub record Compressed : Type 0 where
  pub server_takeover : Bool
  pub client_takeover : Bool
