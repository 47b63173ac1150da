-- ===== src/Handshake/Extensions.antt =====
-- What the two sides make of Sec-WebSocket-Extensions: the walk of Upgrade over the offers, and the
-- walk of DialContext over the response.
use magilla.Base.{
  ℕ, Bool, true, false, not, ◌&&◌, ◌||◌, List, [], ◌∷◌, ◌++◌, Option, none, some, ◌⊎◌, inl, inr,
}
use magilla.Base.{same_text, ◌==◌, if◌then◌else◌, length}
use magilla.Errors.{codes}
use magilla.Http.{Header}
use magilla.Token.{Params, parse_extensions}
use magilla.Compression.{
  CompressionMode, disabled, no_context_takeover, context_takeover, default_mode, parse_pm_deflate,
}
use magilla.Handshake.{Compressed}

abbrev pub is_takeover : CompressionMode → Bool
is_takeover default_mode = false
is_takeover disabled = false
is_takeover no_context_takeover = false
is_takeover context_takeover = true

abbrev pub is_no_takeover : CompressionMode → Bool
is_no_takeover default_mode = false
is_no_takeover disabled = false
is_no_takeover no_context_takeover = true
is_no_takeover context_takeover = false

abbrev pub is_disabled : CompressionMode → Bool
is_disabled default_mode = false
is_disabled disabled = true
is_disabled no_context_takeover = false
is_disabled context_takeover = false

-- `ext[""]`, the name of an extension.
unfoldable pub get_param : Params → List ℕ
get_param [] = []
get_param ((k, v) ∷ ext) = if length k == 0 then v else get_param ext

-- Upgrade's walk over the extensions of the request.
unfoldable pub accept_offer : CompressionMode → List Params → Option Compressed
accept_offer mode [] = none
accept_offer mode (ext ∷ exts) =
    if not (same_text (get_param ext) (codes "permessage-deflate"))
    then accept_offer mode exts
    else (let p = parse_pm_deflate ext in
        if not p.window_bits_valid
        then none
        else some (record {
          server_takeover = is_takeover mode && not p.server_no_context_takeover;
          client_takeover = is_takeover mode && not p.client_no_context_takeover;
        }))

-- Upgrade's compression, from the mode and the request.
unfoldable pub negotiate_compression : CompressionMode → Header → Option Compressed
negotiate_compression mode header =
    if is_disabled mode then none else accept_offer mode (parse_extensions header)

-- The value of Sec-WebSocket-Extensions in the response.
unfoldable pub accepted_extension : Compressed → List ℕ
accepted_extension c =
    codes "permessage-deflate"
    ++ ((if c.server_takeover then [] else codes "; server_no_context_takeover")
        ++ (if c.client_takeover then [] else codes "; client_no_context_takeover"))

-- What a client makes of the extensions of the response: an error, or the directions.
unfoldable pub read_response : CompressionMode → List Params → Unit {0} ⊎ Option Compressed
read_response mode [] = inr none
read_response mode (ext ∷ exts) =
    if not (same_text (get_param ext) (codes "permessage-deflate"))
    then read_response mode exts
    else (let p = parse_pm_deflate ext in
        if not p.window_bits_valid
        then inl tt
        else if is_no_takeover mode
            && (not p.server_no_context_takeover || not p.client_no_context_takeover)
        then inl tt
        else inr (
            some (record {
              server_takeover = is_takeover mode && not p.server_no_context_takeover;
              client_takeover = is_takeover mode && not p.client_no_context_takeover;
            })))
