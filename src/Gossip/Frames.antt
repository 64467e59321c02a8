-- ===== src/Gossip/Frames.antt =====
-- The frames of src/gossip/mod.rs: four bytes of length, the most significant first, and a payload.
-- The payload's MessagePack encoding is that of the `rmp_serde` crate, a parameter here.
use stouter.Prelude.{
  ℕ, zero, suc, ◌+◌, ◌*◌, ◌/◌, ◌%◌, ◌^◌, ◌<◌, Option, none, some, List, [], ◌∷◌, ◌++◌, length, ltb,
  if◌then◌else◌, Result, ok, err, ◌≡◌, refl, arith, Bool-cases, inl, inr, ap, ltb→lt,
}

abbrev pub max_msg_bytes : ℕ
max_msg_bytes = 1024 * 1024

-- Why a frame is not sent or not read.
pub data FrameErr : Type 0 where
  not_serialized too_long : FrameErr
  read_length read_payload not_deserialized : FrameErr
  too_large : ℕ → FrameErr

-- `u32::to_be_bytes`, `u32::from_be_bytes`
unfoldable pub to_be_bytes : ℕ → List ℕ
to_be_bytes n = n / 16777216 % 256 ∷ n / 65536 % 256 ∷ n / 256 % 256 ∷ n % 256 ∷ []

unfoldable pub from_be_bytes : List ℕ → ℕ
from_be_bytes (a ∷ b ∷ c ∷ d ∷ []) = a * 16777216 + b * 65536 + c * 256 + d
from_be_bytes _ = 0

-- `read_exact`: that many bytes, and what follows them.
unfoldable pub read_exact : ℕ → List ℕ → Option (List ℕ × List ℕ)
read_exact zero bytes = some ([], bytes)
read_exact (suc n) [] = none
read_exact (suc n) (b ∷ bytes) = elim (read_exact n bytes) [
  | none ↦ none
  | some (taken, rest) ↦ some (b ∷ taken, rest)
]

module _ {ℓ} {M : Type ℓ} where
  unfoldable pub send_message : (M → Option (List ℕ)) → M → Result FrameErr (List ℕ)
  unfolding to_be_bytes
  send_message encode msg = elim (encode msg) [
    | none ↦ err not_serialized
    | some payload ↦
        if ltb (length payload) (2 ^ 32)
        then ok (to_be_bytes (length payload) ++ payload)
        else err too_long
  ]

  unfoldable pub recv_payload : (List ℕ → Option M) → ℕ → List ℕ → Result FrameErr (M × List ℕ)
  unfolding read_exact
  recv_payload decode len stream = elim (read_exact len stream) [
    | none ↦ err read_payload
    | some (payload, rest) ↦ elim (decode payload) [
      | none ↦ err not_deserialized
      | some msg ↦ ok (msg, rest)
    ]
  ]

  -- The message, and the rest of the stream.
  unfoldable pub recv_message : (List ℕ → Option M) → List ℕ → Result FrameErr (M × List ℕ)
  unfolding recv_payload from_be_bytes
  recv_message decode stream = elim (read_exact 4 stream) [
    | none ↦ err read_length
    | some (len_buf, rest) ↦
        if ltb max_msg_bytes (from_be_bytes len_buf)
        then err (too_large (from_be_bytes len_buf))
        else recv_payload decode (from_be_bytes len_buf) rest
  ]

pub be_bytes-trip : (n : ℕ) → n < 2 ^ 32 → from_be_bytes (to_be_bytes n) ≡ n
unfolding to_be_bytes from_be_bytes
be_bytes-trip n h = omega arith

pub read_exact-append :
    (bytes rest : List ℕ) → read_exact (length bytes) (bytes ++ rest) ≡ some (bytes, rest)
unfolding read_exact
read_exact-append [] rest = refl
read_exact-append (b ∷ bytes) rest = rw (read_exact-append bytes rest)

pub append_assoc : (a b c : List ℕ) → (a ++ b) ++ c ≡ a ++ (b ++ c)
append_assoc [] b c = refl
append_assoc (x ∷ a) b c = ap (◌∷◌ x) (append_assoc a b c)

module _ {ℓ} {M : Type ℓ} where
  recv_frame :
      (decode : List ℕ → Option M) (msg : M) (payload rest : List ℕ)
      → decode payload ≡ some msg
      → length payload < 2 ^ 32
      → recv_message decode ((to_be_bytes (length payload) ++ payload) ++ rest) ≡ (
          if ltb max_msg_bytes (length payload)
          then err (too_large (length payload))
          else ok (msg, rest))
  unfolding to_be_bytes recv_message recv_payload read_exact
  recv_frame decode msg payload rest d bound = rw (
    recv_message,
    recv_payload,
    be_bytes-trip (length payload) bound,
    read_exact-append payload rest,
    d,
  )

  -- A message that was sent and whose encoding decodes is received as it was, and the stream goes on
  -- behind its frame, where the encoding is not longer than the limit. A longer one is sent all the
  -- same and refused by the receiver.
  pub recv_message-send_message :
      (encode : M → Option (List ℕ)) (decode : List ℕ → Option M) (msg : M)
      (payload frame rest : List ℕ)
      → encode msg ≡ some payload
      → decode payload ≡ some msg
      → send_message encode msg ≡ ok frame
      → recv_message decode (frame ++ rest) ≡ (
          if ltb max_msg_bytes (length payload)
          then err (too_large (length payload))
          else ok (msg, rest))
  unfolding send_message
  recv_message-send_message encode decode msg payload frame rest e d sent =
      elim (Bool-cases (ltb (length payload) (2 ^ 32))) [
        | inl small ↦
            let same : to_be_bytes (length payload) ++ payload ≡ frame = ground (arith, e, sent) in
            rw (← same)
              (recv_frame decode msg payload rest d (ltb→lt (length payload) (2 ^ 32) small))
        | inr long ↦ absurd (ground (arith, e, sent))
      ]
