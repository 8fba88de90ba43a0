-- ===== src/Interfaces.antt =====
-- interfaces/i_and.go, interfaces/i_and_peer.go, interfaces/i_host.go (ObjectInfo), and the
-- record of aurl/abyss_url.go. A `uuid.UUID` is the number that its 16 bytes spell (`uuid.Nil`
-- is 0), a `time.Time` a number of nanoseconds since the earliest instant, and a `float32` its bits.
use abyss_core.Prelude.{ℕ, String, List, Option}

abbrev pub Uuid : Type 0
Uuid = ℕ

abbrev pub uuid_nil : Uuid
uuid_nil = 0

abbrev pub Time : Type 0
Time = ℕ

-- `time.Time{}` is 1 January of the year 1; `time.UnixMilli` reaches back 2^63 ms before 1970.
abbrev pub zero_time : Time
zero_time = 9223309901257975808000000

-- A `net.UDPAddr`: the bytes of the address, and the port.
pub record UdpAddr : Type 0 where
  pub ip : List ℕ
  pub port : ℕ

pub record Aurl : Type 0 where
  pub scheme : String
  pub hash : String
  pub addresses : List UdpAddr
  pub path : String

-- A peer object. `object` tells two objects with one hash apart; the other fields are what the
-- accessors of `IANDPeer` return.
pub record Peer : Type 0 where
  pub object : ℕ
  pub id_hash : String
  pub root_certificate_der : List ℕ
  pub handshake_key_certificate_der : List ℕ
  pub aurl : Aurl

-- The peer may be nil.
pub record AndPeerSession : Type 0 where
  pub peer : Option Peer
  pub peer_session_id : Uuid

pub record AndPeerSessionWithTimeStamp : Type 0 where
  pub session : AndPeerSession
  pub time_stamp : Time

pub record AndPeerSessionIdentity : Type 0 where
  pub peer_hash : String
  pub session_id : Uuid

pub record AndFullPeerSessionIdentity : Type 0 where
  pub aurl : Aurl
  pub session_id : Uuid
  pub time_stamp : Time
  pub root_certificate_der : List ℕ
  pub handshake_key_certificate_der : List ℕ

pub record ObjectInfo : Type 0 where
  pub id : Uuid
  pub addr : String
  pub transform : List ℕ

pub record PeerCertificates : Type 0 where
  pub root_cert_der : List ℕ
  pub handshake_key_cert_der : List ℕ

-- A `NeighborEvent` with the fields that its `Type` uses.
pub data NeighborEvent : Type 0 where
  session_request session_ready session_close : Uuid → AndPeerSession → NeighborEvent
  join_success : Uuid → String → NeighborEvent
  join_fail : Uuid → String → ℕ → NeighborEvent
  world_leave : Uuid → NeighborEvent
  connect_request : Aurl → NeighborEvent
  timer_request : Uuid → ℕ → NeighborEvent
  peer_register : PeerCertificates → NeighborEvent
  object_append : Uuid → AndPeerSession → List ObjectInfo → NeighborEvent
  object_delete : Uuid → AndPeerSession → List Uuid → NeighborEvent

-- What the `TrySend` methods of a peer are called with, in their order of arguments.
pub data Message : Type 0 where
  jn : Uuid → String → Time → Message
  jok : Uuid → Uuid → Time → String → List AndPeerSessionWithTimeStamp → Message
  jdn : Uuid → ℕ → String → Message
  jni : Uuid → Uuid → AndPeerSessionWithTimeStamp → Message
  mem : Uuid → Uuid → Time → Message
  sjn : Uuid → Uuid → List AndPeerSessionIdentity → Message
  crr : Uuid → Uuid → List AndPeerSessionIdentity → Message
  rst : Uuid → Uuid → String → Message
  soa : Uuid → Uuid → List ObjectInfo → Message
  sod : Uuid → Uuid → List Uuid → Message
