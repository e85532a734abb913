-- ===== src/Cluster/Envelope/RoundTrip.antt =====
-- Decoding what was encoded, for the envelope of crates/kamino-cluster/src/message.rs.
use kamino.Prelude.{ℕ, ◌≤◌, ◌≡◌, List, [], ◌∷◌, Option, some, arith, inl, inr, Option-cases, length}
use kamino.Cluster.Message.{SocketAddr, v4, v6, GossipEvent, alive}
use kamino.Cluster.Envelope.{Envelope, SwimMessage, ping_req, max_datagram, ok, encode, decode}

-- What a receiver gets of an address: the binary form that `serde` gives a `SocketAddrV6` is the
-- address and the port, and the flow information and the scope are 0 when it is read.
abbrev pub received_addr : SocketAddr → SocketAddr
received_addr (v4 ip port) = v4 ip port
received_addr (v6 ip port flowinfo scope_id) = v6 ip port 0 0

abbrev received_msg : SwimMessage → SwimMessage
received_msg (ping_req seq target target_addr) = ping_req seq target (received_addr target_addr)
received_msg msg = msg

abbrev received_event : GossipEvent → GossipEvent
received_event (alive id name addr discovery_addr birthdate incarnation) =
    alive id name (received_addr addr) (received_addr discovery_addr) birthdate incarnation
received_event event = event

abbrev received_gossip : List GossipEvent → List GossipEvent
received_gossip [] = []
received_gossip (event ∷ gossip) = received_event event ∷ received_gossip gossip

-- What a receiver gets of an envelope.
abbrev pub received : Envelope → Envelope
received e = record e { msg = received_msg e.msg; gossip = received_gossip e.gossip }

-- A datagram that `encode` gives fits the largest datagram and decodes to the envelope, but with
-- flow information and scope 0 in its IPv6 addresses, where the body codec decodes what it encodes
-- up to these.
pub decode-encode :
    (to_vec_named : Envelope → Option (List ℕ)) (from_slice : List ℕ → Option Envelope)
    → ((e : Envelope) (body : List ℕ)
        → to_vec_named e ≡ some body
        → from_slice body ≡ some (received e))
    → (e : Envelope) (bytes : List ℕ) → encode to_vec_named from_slice e ≡ ok bytes
    → (decode to_vec_named from_slice bytes ≡ ok (received e)) × (length bytes ≤ max_datagram)
unfolding encode decode
decode-encode to_vec_named from_slice h e bytes sent = elim (Option-cases (to_vec_named e)) [
  | inl none' ↦ absurd (ground arith)
  | inr (body, made) ↦ ground (arith, h e body made)
]
