-- ===== src/Codec.antt =====
-- xraft-transport/src/codec.rs: envelopes in frames with a length prefix. `bincode` is a parameter.
pub mod RoundTrip
use xraft.Prelude.{
  ℕ, ◌+◌, ◌*◌, ◌/◌, ◌%◌, ◌^◌, Bool, true, false, not, Option, none, some, List, [], ◌∷◌, ◌++◌, ltb,
  leb, ◌==◌, length, if◌then◌else◌,
}
use xraft.Prelude.Exec.{Result, ok, err}
use xraft.Types.{Bytes, ClusterId}
use xraft.Types.Rpc.{RpcEnvelope}

pub record Bincode : Type 0 where
  pub serialize : RpcEnvelope → Option Bytes
  pub deserialize : Bytes → Option RpcEnvelope

pub data CodecError : Type 0 where
  encode_failed too_large_for_prefix exceeds_max_frame too_short declared_too_large
        shorter_than_declared trailing_bytes decode_failed invalid_cluster_id :
      CodecError

abbrev pub max_frame_len : ℕ
max_frame_len = 67_108_864

-- `u32::to_be_bytes` and `u32::from_be_bytes`
unfoldable pub to_be_bytes : ℕ → Bytes
to_be_bytes n = n / 16_777_216 ∷ n / 65_536 % 256 ∷ n / 256 % 256 ∷ n % 256 ∷ []

unfoldable pub from_be_bytes : (a b c d : ℕ) → ℕ
from_be_bytes a b c d = ((a * 256 + b) * 256 + c) * 256 + d

module _ (B : Bincode) where
  abbrev framed : Option Bytes → Result CodecError Bytes
  framed none = err encode_failed
  framed (some payload) =
      if leb (2 ^ 32) (length payload)
      then err too_large_for_prefix
      else if ltb max_frame_len (length payload)
      then err exceeds_max_frame
      else ok (to_be_bytes (length payload) ++ payload)

  unfoldable pub encode : RpcEnvelope → Result CodecError Bytes
  encode envelope = framed (B.serialize envelope)

  abbrev checked : ClusterId → Option RpcEnvelope → Result CodecError RpcEnvelope
  checked expected none = err decode_failed
  checked expected (some envelope) =
      if not (envelope.cluster_id == expected) then err invalid_cluster_id else ok envelope

  abbrev unframed : ClusterId → ℕ → Bytes → Result CodecError RpcEnvelope
  unframed expected len payload =
      if ltb max_frame_len len
      then err declared_too_large
      else if ltb (length payload) len
      then err shorter_than_declared
      else if ltb len (length payload)
      then err trailing_bytes
      else checked expected (B.deserialize payload)

  unfoldable pub decode : ClusterId → Bytes → Result CodecError RpcEnvelope
  decode expected (a ∷ b ∷ c ∷ d ∷ payload) = unframed expected (from_be_bytes a b c d) payload
  decode expected _ = err too_short
