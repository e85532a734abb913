-- ===== src/Cluster/Envelope.antt =====
-- The envelope of a datagram in crates/kamino-cluster/src/message.rs. The body is encoded and
-- decoded by the `rmp-serde` crate; a text is the list of its bytes.
pub mod RoundTrip
use kamino.Prelude.{
  ℕ, ◌+◌, Bool, true, false, not, ◌&&◌, List, [], ◌∷◌, ◌++◌, Option, none, some, ltb, ◌==◌,
  if◌then◌else◌, length,
}
use kamino.Cluster.Message.{SocketAddr, GossipEvent}
use kamino.Cluster.Gossip.{same_bytes}

abbrev pub header : List ℕ
header = 75 ∷ 109 ∷ 1 ∷ 0 ∷ []

abbrev pub max_datagram : ℕ
max_datagram = 1400

pub data SwimMessage : Type 0 where
  ping : (seq target : ℕ) → SwimMessage
  ack : (seq from : ℕ) → SwimMessage
  ping_req : (seq target : ℕ) (target_addr : SocketAddr) → SwimMessage
  indirect_ack : (seq target from : ℕ) → SwimMessage

pub record Envelope : Type 0 where
  pub cluster_secret : List ℕ
  pub from : ℕ
  pub msg : SwimMessage
  pub gossip : List GossipEvent

-- What went wrong, from which the source formats a text.
pub data CodecError : Type 0 where
  encode_envelope : CodecError
  envelope_too_large : ℕ → CodecError
  short_datagram : CodecError
  bad_magic : ℕ → ℕ → CodecError
  unsupported_swim_version : ℕ → CodecError
  decode_envelope : CodecError
  secret_mismatch : CodecError

pub data ClusterResult {ℓ} (A : Type ℓ) : Type ℓ where
  ok : A → ClusterResult A
  err : CodecError → ClusterResult A

-- `to_vec_named` and `from_slice` of the encoding crate
module _ (to_vec_named : Envelope → Option (List ℕ)) (from_slice : List ℕ → Option Envelope) where
  unfoldable pub encode : Envelope → ClusterResult (List ℕ)
  encode e = elim (to_vec_named e) [
    | none ↦ err encode_envelope
    | some body ↦
        let total = 4 + length body in
        if ltb max_datagram total then err (envelope_too_large total) else ok (header ++ body)
  ]

  abbrev decoded : Option Envelope → ClusterResult Envelope
  decoded none = err decode_envelope
  decoded (some e) = ok e

  unfoldable pub decode : List ℕ → ClusterResult Envelope
  decode (k ∷ m ∷ version ∷ reserved ∷ body) =
      if not (k == 75 && m == 109)
      then err (bad_magic k m)
      else if not (version == 1)
      then err (unsupported_swim_version version)
      else decoded (from_slice body)
  decode _ = err short_datagram

unfoldable pub check_secret : Envelope → List ℕ → ClusterResult (Unit {0})
check_secret e expected =
    if same_bytes e.cluster_secret expected then ok tt else err secret_mismatch
