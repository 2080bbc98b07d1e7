-- ===== src/Net/Frame.antt =====
-- crates/poker-engine/src/net/frame.rs: frames with a length before the payload. The payload's codec
-- is `rmp_serde`, a parameter.
use vibe_poker.Base.{
  ℕ, ◌+◌, ◌*◌, ◌/◌, ◌%◌, List, [], ◌∷◌, ◌++◌, length, ltb, if◌then◌else◌, Option, none, some,
  u32_mod,
}

abbrev pub max_frame_bytes : ℕ
max_frame_bytes = 4 * 1024 * 1024

pub data FrameError : Type 0 where
  too_large : (len : ℕ) → FrameError
  encode_failed decode_failed : FrameError

pub data Framed {ℓ} (A : Type ℓ) : Type ℓ where
  framed : A → Framed A
  failed : FrameError → Framed A

-- `u32::to_le_bytes`
abbrev pub to_le_bytes : ℕ → List ℕ
to_le_bytes n = n % 256 ∷ n / 256 % 256 ∷ n / 65536 % 256 ∷ n / 16777216 % 256 ∷ []

-- `u32::from_le_bytes`, of the four bytes of a prefix.
abbrev pub from_le_bytes : (a b c d : ℕ) → ℕ
from_le_bytes a b c d = a + b * 256 + c * 65536 + d * 16777216

-- `parse_length_prefix`
unfoldable pub parse_length_prefix : (a b c d : ℕ) → Framed ℕ
parse_length_prefix a b c d =
    let len = from_le_bytes a b c d in
    if ltb max_frame_bytes len then failed (too_large len) else framed len

abbrev pub framed_payload : List ℕ → Framed (List ℕ)
framed_payload payload =
    if ltb max_frame_bytes (length payload)
    then failed (too_large (length payload))
    else framed (to_le_bytes (length payload % u32_mod) ++ payload)

module _ {ℓ} {T : Type ℓ} (to_vec : T → Option (List ℕ)) (from_slice : List ℕ → Option T) where
  abbrev encode_with : Option (List ℕ) → Framed (List ℕ)
  encode_with none = failed encode_failed
  encode_with (some payload) = framed_payload payload

  -- `encode`
  unfoldable pub encode : T → Framed (List ℕ)
  encode value = encode_with (to_vec value)

  abbrev decoded : Option T → Framed T
  decoded none = failed decode_failed
  decoded (some v) = framed v

  -- `decode`
  unfoldable pub decode : List ℕ → Framed T
  decode payload = decoded (from_slice payload)
