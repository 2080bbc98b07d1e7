-- ===== src/Net/Wire.antt =====
-- crates/poker-server/src/wire.rs: messages on a stream of bytes.
pub mod Streams
use vibe_poker.Base.{
  ℕ, zero, suc, ◌+◌, ◌*◌, ◌/◌, ◌%◌, ◌≤◌, ◌<◌, Bool, true, false, List, [], ◌∷◌, ◌++◌, length, ltb,
  if◌then◌else◌, Option, none, some, u32_mod, ◌≡◌, ◌∙◌, refl, sym, ap, arith, Bool-cases,
  Option-cases, inl, inr,
}
use vibe_poker.Net.Frame.{
  max_frame_bytes, FrameError, Framed, framed, failed, from_le_bytes, to_le_bytes,
  parse_length_prefix, framed_payload, encode, decode, too_large,
}

-- `read_exact`: as many bytes, and those after them.
abbrev pub read_exact : ℕ → List ℕ → Option (List ℕ × List ℕ)
read_exact zero bytes = some ([], bytes)
read_exact (suc n) [] = none
read_exact (suc n) (b ∷ bytes) = elim (read_exact n bytes) [
  | none ↦ none
  | some (taken, rest) ↦ some (b ∷ taken, rest)
]

-- A message and the bytes after it, or an error.
pub data Read {ℓ} (A : Type ℓ) : Type ℓ where
  message : A → (rest : List ℕ) → Read A
  closed io_failed : Read A
  frame_failed : FrameError → Read A

-- What is written, and what is written after it.
abbrev pub written_before : Framed (List ℕ) → Framed (List ℕ) → Framed (List ℕ)
written_before (failed e) rest = failed e
written_before (framed bytes) (failed e) = failed e
written_before (framed bytes) (framed more) = framed (bytes ++ more)

module _ {ℓ} {T : Type ℓ} (to_vec : T → Option (List ℕ)) (from_slice : List ℕ → Option T) where
  abbrev decoded_with : List ℕ → Framed T → Read T
  decoded_with rest (framed v) = message v rest
  decoded_with rest (failed e) = frame_failed e

  abbrev read_payload : Option (List ℕ × List ℕ) → Read T
  read_payload none = io_failed
  read_payload (some (payload, rest)) = decoded_with rest (decode to_vec from_slice payload)

  abbrev read_length : Framed ℕ → List ℕ → Read T
  read_length (failed e) bytes = frame_failed e
  read_length (framed len) bytes = read_payload (read_exact len bytes)

  -- `read_message`, on the bytes that the peer sends before it shuts the connection.
  unfoldable pub read_message : List ℕ → Read T
  unfolding parse_length_prefix decode
  read_message (a ∷ b ∷ c ∷ d ∷ bytes) = read_length (parse_length_prefix a b c d) bytes
  read_message _ = closed

  -- `write_message` of one message after another, up to the first that fails.
  unfoldable pub write_messages : List T → Framed (List ℕ)
  unfolding encode
  write_messages [] = framed []
  write_messages (v ∷ vs) = written_before (encode to_vec from_slice v) (write_messages vs)

  abbrev more_with : Read T → (List ℕ → List T × Read T) → List T × Read T
  more_with (message v rest) k = let (vs, end) = k rest in (v ∷ vs, end)
  more_with closed k = ([], closed)
  more_with io_failed k = ([], io_failed)
  more_with (frame_failed e) k = ([], frame_failed e)

  -- A loop of `read_message`, for as many rounds: the messages, and what ended it.
  unfoldable pub read_messages : ℕ → List ℕ → List T × Read T
  unfolding read_message
  read_messages zero bytes = ([], read_message bytes)
  read_messages (suc n) bytes = more_with (read_message bytes) (read_messages n)
