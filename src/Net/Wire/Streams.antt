-- ===== src/Net/Wire/Streams.antt =====
-- crates/poker-server/src/wire.rs and crates/poker-engine/src/net/frame.rs: what is written is what
-- is read.
use vibe_poker.Base.{
  ℕ, ◌+◌, ◌/◌, ◌%◌, ◌≤◌, ◌<◌, ◌⊎◌, false, List, [], ◌∷◌, ◌++◌, length, ltb, Option, some, u32_mod,
  ◌≡◌, ◌∙◌, refl, sym, ap, arith, Bool-cases, Option-cases, inl, inr,
}
use vibe_poker.Net.Frame.{
  max_frame_bytes, FrameError, Framed, framed, failed, too_large, encode_failed, from_le_bytes,
  to_le_bytes, parse_length_prefix, encode, decode,
}
use vibe_poker.Net.Wire.{
  read_exact, written_before, message, closed, read_message, write_messages, read_messages,
}

read_exact-append : (xs ys : List ℕ) → read_exact (length xs) (xs ++ ys) ≡ some (xs, ys)
read_exact-append [] ys = refl
read_exact-append (x ∷ xs) ys = rw (read_exact-append xs ys) refl

from_le_bytes-to_le_bytes :
    (n : ℕ)
    → n < u32_mod
    → from_le_bytes (n % 256) (n / 256 % 256) (n / 65536 % 256) (n / 16777216 % 256) ≡ n
from_le_bytes-to_le_bytes n h = omega arith

abbrev bytes_of : List ℕ → Framed (List ℕ) → List ℕ
bytes_of d (framed bytes) = bytes
bytes_of d (failed e) = d

written_before-framed :
    (x y : Framed (List ℕ)) (bytes : List ℕ)
    → written_before x y ≡ framed bytes
    → (b : List ℕ) × (m : List ℕ) × (x ≡ framed b) × (y ≡ framed m) × (bytes ≡ b ++ m)
written_before-framed (failed e) y bytes h = absurd (ground arith)
written_before-framed (framed b) (failed e) bytes h = absurd (ground arith)
written_before-framed (framed b) (framed m) bytes h = (b, m, refl, refl, ap (bytes_of []) (sym h))

module _ {ℓ} {T : Type ℓ} (to_vec : T → Option (List ℕ)) (from_slice : List ℕ → Option T)
    (decodes : (v : T) (payload : List ℕ)
      → to_vec v ≡ some payload
      → from_slice payload ≡ some v) where
  read-payload :
      (v : T) (payload rest : List ℕ)
      → to_vec v ≡ some payload
      → length payload ≤ max_frame_bytes
      → read_message to_vec from_slice ((to_le_bytes (length payload % u32_mod) ++ payload) ++ rest)
        ≡ message v rest
  unfolding read_message parse_length_prefix decode
  read-payload v payload rest h small =
      let n = length payload in
      let fits : n % u32_mod ≡ n = omega arith in
      let whole = from_le_bytes-to_le_bytes n (omega arith) in
      let passes : ltb max_frame_bytes n ≡ false = ground arith in
      rw (fits, whole, passes, read_exact-append payload rest, decodes v payload h) refl

  -- A value is framed if its payload is within the cap; else the error says why not.
  encode-cases :
      (v : T)
      → ((payload : List ℕ) × (to_vec v ≡ some payload)
          × (length payload ≤ max_frame_bytes)
          × (encode to_vec from_slice v
              ≡ framed (to_le_bytes (length payload % u32_mod) ++ payload)))
        ⊎ ((e : FrameError) × (encode to_vec from_slice v ≡ failed e))
  unfolding encode
  encode-cases v = elim (Option-cases (to_vec v)) [
    | inl e ↦ inr (encode_failed, rw e refl)
    | inr (payload, e) ↦ elim (Bool-cases (ltb max_frame_bytes (length payload))) [
      | inl q ↦ inr (too_large (length payload), rw (e, q) refl)
      | inr q ↦ inl (payload, e, ground arith, rw (e, q) refl)
    ]
  ]

  read_message-encode :
      (v : T) (bytes rest : List ℕ)
      → encode to_vec from_slice v ≡ framed bytes
      → read_message to_vec from_slice (bytes ++ rest) ≡ message v rest
  read_message-encode v bytes rest h = elim (encode-cases v) [
    | inl (payload, e, small, q) ↦
        (let same = ap (bytes_of []) (sym h ∙ q) in
          ap (λ b. read_message to_vec from_slice (b ++ rest)) same
          ∙ read-payload v payload rest e small)
    | inr (err, q) ↦ (let clash = sym h ∙ q in absurd (ground arith))
  ]

  -- Messages that are written one after another are read again, in the same order and all of them,
  -- and then the connection is found closed. It is assumed that the codec decodes what it encodes.
  pub read_messages-write_messages :
      (vs : List T) (bytes : List ℕ)
      → write_messages to_vec from_slice vs ≡ framed bytes
      → read_messages to_vec from_slice (length vs) bytes ≡ (vs, closed)
  unfolding read_messages write_messages read_message
  read_messages-write_messages [] bytes h =
      ap (λ b. ([], read_message to_vec from_slice b)) (ap (bytes_of []) (sym h))
  read_messages-write_messages (v ∷ vs) bytes h =
      let (b, m, first, others, all) =
        written_before-framed (encode to_vec from_slice v) (write_messages to_vec from_slice vs)
          bytes h in
      rw (all, read_message-encode v b m first, read_messages-write_messages vs m others) refl

  -- A value whose payload is longer than 4 MiB is refused with its length; another that the codec
  -- encodes is framed, in 4 bytes more than its payload. And no prefix, whatever its bytes, makes the
  -- reader ask for more than 4 MiB.
  pub encode_bounds :
      (v : T) (payload : List ℕ) (a b c d : ℕ)
      → to_vec v ≡ some payload
      → ((encode to_vec from_slice v ≡ failed (too_large (length payload)))
            × (max_frame_bytes < length payload)
          ⊎ ((bytes : List ℕ) × (encode to_vec from_slice v ≡ framed bytes)
              × (length bytes ≡ 4 + length payload)
              × (length payload ≤ max_frame_bytes)))
        × ((n : ℕ) → parse_length_prefix a b c d ≡ framed n → n ≤ max_frame_bytes)
  unfolding encode parse_length_prefix
  encode_bounds v payload a b c d h = (
    elim (Bool-cases (ltb max_frame_bytes (length payload))) [
      | inl q ↦ inl (rw (h, q) refl, ground arith)
      | inr q ↦ inr (
        to_le_bytes (length payload % u32_mod) ++ payload,
        rw (h, q) refl,
        omega arith,
        ground arith,
      )
    ],
    λ n e. ground arith,
  )
