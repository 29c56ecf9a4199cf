-- ===== src/Codec/RoundTrip.antt =====
-- Writing and reading frames of xraft-transport/src/codec.rs.
use xraft.Prelude.{
  ℕ, ◌+◌, ◌/◌, ◌%◌, ◌≤◌, ◌<◌, ◌*◌, ◌∷◌, ◌≡◌, ◌∙◌, ap, inl, inr, Option-cases, some, ◌++◌, arith,
  ◌==◌, length, if◌then◌else◌,
}
use xraft.Prelude.Exec.{ok, err}
use xraft.Types.{Bytes, ClusterId}
use xraft.Types.Rpc.{RpcEnvelope}
use xraft.Codec.{
  Bincode, invalid_cluster_id, max_frame_len, to_be_bytes, from_be_bytes, encode, decode,
}

from_be_bytes-to_be_bytes :
    (n : ℕ) → from_be_bytes (n / 16_777_216) (n / 65_536 % 256) (n / 256 % 256) (n % 256) ≡ n
unfolding from_be_bytes
from_be_bytes-to_be_bytes n = omega arith

module _ (B : Bincode) where
  -- what a frame is
  encode-ok :
      (e : RpcEnvelope) (frame : Bytes)
      → encode B e ≡ ok frame
      → (payload : Bytes) × (B.serialize e ≡ some payload)
        × (length payload ≤ max_frame_len)
        × (frame ≡ to_be_bytes (length payload) ++ payload)
  unfolding encode to_be_bytes
  encode-ok e frame h = elim (Option-cases (B.serialize e)) [
    | inl n ↦ absurd (ground arith)
    | inr (payload, s) ↦ (payload, s, ground arith, ground arith)
  ]

  -- reading a frame of the right length
  decode-frame :
      (expected : ClusterId) (payload : Bytes) (e : RpcEnvelope)
      → length payload ≤ max_frame_len
      → B.deserialize payload ≡ some e
      → decode B expected (to_be_bytes (length payload) ++ payload)
        ≡ (if e.cluster_id == expected then ok e else err invalid_cluster_id)
  unfolding decode to_be_bytes
  decode-frame expected payload e h d = ground (arith, from_be_bytes-to_be_bytes (length payload))

  -- If `bincode` reads back what it wrote, then a frame that `encode` made is decoded to the same
  -- envelope by a codec of the same cluster, and refused as foreign by a codec of any other; and the
  -- frame is four bytes that spell the length of the payload, the highest first, and then the payload.
  pub decode-encode :
      ((e : RpcEnvelope) (b : Bytes) → B.serialize e ≡ some b → B.deserialize b ≡ some e)
      → (expected : ClusterId) (e : RpcEnvelope) (frame : Bytes) → encode B e ≡ ok frame
      → (decode B expected frame
          ≡ (if e.cluster_id == expected then ok e else err invalid_cluster_id))
        × ((payload : Bytes) × (a : ℕ) × (b : ℕ) × (c : ℕ) × (d : ℕ) × (B.serialize e
              ≡ some payload)
            × (frame ≡ a ∷ b ∷ c ∷ d ∷ payload)
            × (length payload ≡ ((a * 256 + b) * 256 + c) * 256 + d)
            × (a < 256)
            × (b < 256)
            × (c < 256)
            × (d < 256))
  unfolding to_be_bytes
  decode-encode law expected e frame h =
      let (payload, s, le, f) = encode-ok e frame h in
      let d = ap (decode B expected) f ∙ decode-frame expected payload e le (law e payload s) in
      let n = length payload in
      (
        d,
        (
          payload,
          n / 16_777_216,
          n / 65_536 % 256,
          n / 256 % 256,
          n % 256,
          s,
          f,
          omega arith,
          omega (arith, le),
          omega arith,
          omega arith,
          omega arith,
        ),
      )
