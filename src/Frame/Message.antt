-- ===== src/Frame/Message.antt =====
-- A message as RFC 6455 section 5.4 fragments it: a run of frames, of which the first carries the
-- message type, the others are continuations, and the last is final.
use magilla.Base.{
  ℕ, ◌≤◌, ◌<◌, ◌≡◌, refl, ap, sym, ◌∙◌, Bool, true, false, List, [], ◌∷◌, ◌++◌, Option, none, some,
  length, All, IsByte, append_assoc, append-nil,
}
use magilla.Frame.{Frame, wire, wire_all}

abbrev pub HasKey : Bool → Option (List ℕ) → Type 0
HasKey false none = Unit
HasKey false (some key) = ⊥
HasKey true none = ⊥
HasKey true (some key) = (length key ≡ 4) × All IsByte key

-- One frame of an uncompressed message, its payload within `limit` where that is not 0.
pub record IsFragment (masked' : Bool) (limit : ℕ) (final : Bool) (opcode : ℕ) (f : Frame)
    : Type 0 where
  pub final_bit : f.final ≡ final
  pub plain : f.compressed ≡ false
  pub type : f.opcode ≡ opcode
  pub has_key : HasKey masked' f.key
  pub bytes : All IsByte f.payload
  pub capped : 0 < limit → length f.payload ≤ limit

-- The frames before the last one.
abbrev pub Fragments : Bool → ℕ → ℕ → List Frame → Type 0
Fragments masked' limit opcode [] = Unit
Fragments masked' limit opcode (f ∷ fs) =
    IsFragment masked' limit false opcode f × Fragments masked' limit 0 fs

-- The opcode of the frame that comes next.
abbrev pub next_opcode : ℕ → List Frame → ℕ
next_opcode opcode [] = opcode
next_opcode opcode (f ∷ fs) = 0

abbrev pub payloads : List Frame → List ℕ
payloads [] = []
payloads (f ∷ fs) = f.payload ++ payloads fs

pub wire_all-append : (fs gs : List Frame) → wire_all (fs ++ gs) ≡ wire_all fs ++ wire_all gs
unfolding wire_all
wire_all-append [] gs = refl
wire_all-append (f ∷ fs) gs =
    ap (λ t. wire f ++ t) (wire_all-append fs gs)
    ∙ sym (append_assoc (wire f) (wire_all fs) (wire_all gs))

pub wire_all_one : (f : Frame) → wire_all (f ∷ []) ≡ wire f
unfolding wire_all
wire_all_one f = append-nil (wire f)

pub payloads-append : (fs gs : List Frame) → payloads (fs ++ gs) ≡ payloads fs ++ payloads gs
payloads-append [] gs = refl
payloads-append (f ∷ fs) gs =
    ap (λ t. f.payload ++ t) (payloads-append fs gs)
    ∙ sym (append_assoc f.payload (payloads fs) (payloads gs))

module _ (masked' : Bool) (limit : ℕ) where
  pub Fragments-append :
      (opcode : ℕ) (fs : List Frame) (f : Frame)
      → Fragments masked' limit opcode fs
      → IsFragment masked' limit false (next_opcode opcode fs) f
      → Fragments masked' limit opcode (fs ++ f ∷ [])
  Fragments-append opcode [] f h k = (k, tt)
  Fragments-append opcode (g ∷ fs) f h k = (h.0, later fs h.1 k)
    where
      later :
          (fs : List Frame)
          → Fragments masked' limit 0 fs
          → IsFragment masked' limit false 0 f
          → Fragments masked' limit 0 (fs ++ f ∷ [])
      later [] h k = (k, tt)
      later (g ∷ fs) h k = (h.0, later fs h.1 k)

pub next_opcode-append :
    (opcode : ℕ) (fs : List Frame) (f : Frame) → next_opcode opcode (fs ++ f ∷ []) ≡ 0
next_opcode-append opcode [] f = refl
next_opcode-append opcode (g ∷ fs) f = refl

pub payloads-snoc :
    (fs : List Frame) (f : Frame) → payloads (fs ++ f ∷ []) ≡ payloads fs ++ f.payload
payloads-snoc fs f = payloads-append fs (f ∷ []) ∙ ap (λ t. payloads fs ++ t) (append-nil f.payload)

-- The frames of one whole message.
pub record IsMessage (masked' : Bool) (limit opcode : ℕ) (body' : List ℕ) (fs : List Frame)
    : Type 0 where
  pub front : List Frame
  pub last : Frame
  pub split : fs ≡ front ++ last ∷ []
  pub fragments : Fragments masked' limit opcode front
  pub final : IsFragment masked' limit true (next_opcode opcode front) last
  pub whole : payloads fs ≡ body'
