-- ===== src/Ahmp.antt =====
-- ahmp/raw_message.go and ahmp/message.go: the messages between hosts, as they stand in the CBOR
-- stream and after parsing. An `error` is its text; an int64 of milliseconds is given by its
-- distance from -2^63, so that it lines up with `Time`.
pub mod Parse
pub mod Build
pub mod RoundTrips
pub mod Introductions
pub mod Listen
pub mod Examples
use Prim.Native.Nat.{◌/◌, ◌%◌, ◌^◌}
use abyss_core.Prelude.{ℕ, String, List, ◌*◌}
use abyss_core.Interfaces.{
  Uuid, Time, AndFullPeerSessionIdentity, AndPeerSessionIdentity, ObjectInfo,
}

-- time.UnixMilli and Time.UnixMilli.
unfoldable pub unix_milli : ℕ → Time
unix_milli n = n * 1000000

unfoldable pub milli_of : Time → ℕ
milli_of t = t / 1000000 % 2 ^ 64

pub record RawSessionInfoForDiscovery : Type 0 where
  pub aurl : String
  pub session_id : String
  pub time_stamp : ℕ
  pub root_certificate_der : List ℕ
  pub handshake_key_certificate_der : List ℕ

pub record RawSessionInfoForSjn : Type 0 where
  pub peer_hash : String
  pub session_id : String

pub record RawObjectInfo : Type 0 where
  pub id : String
  pub address : String
  pub transform : List ℕ

pub record RawJn : Type 0 where
  pub sender_session_id : String
  pub text : String
  pub time_stamp : ℕ

pub record RawJok : Type 0 where
  pub sender_session_id : String
  pub recver_session_id : String
  pub time_stamp : ℕ
  pub text : String
  pub neighbors : List RawSessionInfoForDiscovery

pub record RawJdn : Type 0 where
  pub recver_session_id : String
  pub code : ℕ
  pub text : String

pub record RawJni : Type 0 where
  pub sender_session_id : String
  pub recver_session_id : String
  pub neighbor : RawSessionInfoForDiscovery

pub record RawMem : Type 0 where
  pub sender_session_id : String
  pub recver_session_id : String
  pub time_stamp : ℕ

-- RawSJN and RawCRR have the same fields.
pub record RawSjn : Type 0 where
  pub sender_session_id : String
  pub recver_session_id : String
  pub member_infos : List RawSessionInfoForSjn

pub record RawCrr : Type 0 where
  pub sender_session_id : String
  pub recver_session_id : String
  pub member_infos : List RawSessionInfoForSjn

pub record RawRst : Type 0 where
  pub sender_session_id : String
  pub recver_session_id : String
  pub message : String

pub record RawSoa : Type 0 where
  pub sender_session_id : String
  pub recver_session_id : String
  pub objects : List RawObjectInfo

pub record RawSod : Type 0 where
  pub sender_session_id : String
  pub recver_session_id : String
  pub object_ids : List String

pub record Jn : Type 0 where
  pub sender_session_id : Uuid
  pub text : String
  pub time_stamp : Time

pub record Jok : Type 0 where
  pub sender_session_id : Uuid
  pub recver_session_id : Uuid
  pub time_stamp : Time
  pub neighbors : List AndFullPeerSessionIdentity
  pub text : String

pub record Jdn : Type 0 where
  pub recver_session_id : Uuid
  pub text : String
  pub code : ℕ

pub record Jni : Type 0 where
  pub sender_session_id : Uuid
  pub recver_session_id : Uuid
  pub neighbor : AndFullPeerSessionIdentity

pub record Mem : Type 0 where
  pub sender_session_id : Uuid
  pub recver_session_id : Uuid
  pub time_stamp : Time

pub record Sjn : Type 0 where
  pub sender_session_id : Uuid
  pub recver_session_id : Uuid
  pub member_infos : List AndPeerSessionIdentity

pub record Crr : Type 0 where
  pub sender_session_id : Uuid
  pub recver_session_id : Uuid
  pub member_infos : List AndPeerSessionIdentity

pub record Rst : Type 0 where
  pub sender_session_id : Uuid
  pub recver_session_id : Uuid
  pub message : String

pub record Soa : Type 0 where
  pub sender_session_id : Uuid
  pub recver_session_id : Uuid
  pub objects : List ObjectInfo

pub record Sod : Type 0 where
  pub sender_session_id : Uuid
  pub recver_session_id : Uuid
  pub object_ids : List Uuid

-- What the AHMP channel of a peer carries. `inval` has the texts that errors.Join joins.
pub data AhmpMessage : Type 0 where
  jn : Jn → AhmpMessage
  jok : Jok → AhmpMessage
  jdn : Jdn → AhmpMessage
  jni : Jni → AhmpMessage
  mem : Mem → AhmpMessage
  sjn : Sjn → AhmpMessage
  crr : Crr → AhmpMessage
  rst : Rst → AhmpMessage
  soa : Soa → AhmpMessage
  sod : Sod → AhmpMessage
  inval : List String → AhmpMessage
