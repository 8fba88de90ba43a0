-- ===== src/Ahmp/Build.antt =====
-- The messages that the `TrySend` methods of net_service/abyss_peer.go write. `uuid.UUID.String`
-- (github.com/google/uuid) and AURL.ToString are parameters.
use abyss_core.Prelude.{ℕ, String, List, [], ◌∷◌, Option, none, some}
use mathlib.Core.Option
use abyss_core.Functional.{filter}
use abyss_core.Interfaces.{
  Uuid, Time, Aurl, Peer, AndPeerSessionIdentity, AndPeerSessionWithTimeStamp, ObjectInfo,
}
use abyss_core.Ahmp.{
  milli_of, RawSessionInfoForDiscovery, RawSessionInfoForSjn, RawObjectInfo, RawJn, RawJok, RawJdn,
  RawJni, RawMem, RawSjn, RawCrr, RawRst, RawSoa, RawSod,
}

module _ (print : Uuid → String) where
  unfoldable pub build_jn : Uuid → String → Time → RawJn
  unfolding milli_of
  build_jn local_session_id path timestamp = record {
    sender_session_id = print local_session_id;
    text = path;
    time_stamp = milli_of timestamp;
  }

  unfoldable pub build_jdn : Uuid → ℕ → String → RawJdn
  build_jdn peer_session_id code message = record {
    recver_session_id = print peer_session_id;
    code = code;
    text = message;
  }

  unfoldable pub build_mem : Uuid → Uuid → Time → RawMem
  unfolding milli_of
  build_mem local_session_id peer_session_id timestamp = record {
    sender_session_id = print local_session_id;
    recver_session_id = print peer_session_id;
    time_stamp = milli_of timestamp;
  }

  unfoldable pub raw_member : AndPeerSessionIdentity → RawSessionInfoForSjn
  raw_member i = record { peer_hash = i.peer_hash; session_id = print i.session_id }

  unfoldable pub build_sjn : Uuid → Uuid → List AndPeerSessionIdentity → RawSjn
  unfolding filter raw_member
  build_sjn local_session_id peer_session_id member_sessions = record {
    sender_session_id = print local_session_id;
    recver_session_id = print peer_session_id;
    member_infos = filter member_sessions raw_member;
  }

  unfoldable pub build_crr : Uuid → Uuid → List AndPeerSessionIdentity → RawCrr
  unfolding filter raw_member
  build_crr local_session_id peer_session_id member_sessions = record {
    sender_session_id = print local_session_id;
    recver_session_id = print peer_session_id;
    member_infos = filter member_sessions raw_member;
  }

  unfoldable pub build_rst : Uuid → Uuid → String → RawRst
  build_rst local_session_id peer_session_id message = record {
    sender_session_id = print local_session_id;
    recver_session_id = print peer_session_id;
    message = message;
  }

  unfoldable pub raw_object : ObjectInfo → RawObjectInfo
  raw_object u = record { id = print u.id; address = u.addr; transform = u.transform }

  unfoldable pub build_soa : Uuid → Uuid → List ObjectInfo → RawSoa
  unfolding filter raw_object
  build_soa local_session_id peer_session_id objects = record {
    sender_session_id = print local_session_id;
    recver_session_id = print peer_session_id;
    objects = filter objects raw_object;
  }

  unfoldable pub build_sod : Uuid → Uuid → List Uuid → RawSod
  unfolding filter
  build_sod local_session_id peer_session_id object_ids = record {
    sender_session_id = print local_session_id;
    recver_session_id = print peer_session_id;
    object_ids = filter object_ids print;
  }

-- TrySendJOK and TrySendJNI read the peer of every session that they carry: `none` is the panic on a
-- nil peer.
module _ (print : Uuid → String) (to_string : Aurl → String) where
  unfoldable pub raw_session : AndPeerSessionWithTimeStamp → Peer → RawSessionInfoForDiscovery
  unfolding milli_of
  raw_session s q = record {
    aurl = to_string q.aurl;
    session_id = print s.session.peer_session_id;
    time_stamp = milli_of s.time_stamp;
    root_certificate_der = q.root_certificate_der;
    handshake_key_certificate_der = q.handshake_key_certificate_der;
  }

  unfoldable pub raw_neighbor : AndPeerSessionWithTimeStamp → Option RawSessionInfoForDiscovery
  unfolding raw_session
  raw_neighbor s = Option.map (raw_session s) s.session.peer

  unfoldable pub raw_neighbors :
      List AndPeerSessionWithTimeStamp → Option (List RawSessionInfoForDiscovery)
  unfolding raw_neighbor
  raw_neighbors [] = some []
  raw_neighbors (s ∷ ss) =
      let rest = raw_neighbors ss in
      elim (raw_neighbor s) [ none ↦ none | some r ↦ Option.map (λ rs. r ∷ rs) rest ]

  unfoldable pub build_jok :
      Uuid → Uuid → Time → String → List AndPeerSessionWithTimeStamp → Option RawJok
  unfolding raw_neighbors milli_of
  build_jok local_session_id peer_session_id timestamp world_url member_sessions =
      Option.map
        (λ neighbors. record {
          sender_session_id = print local_session_id;
          recver_session_id = print peer_session_id;
          time_stamp = milli_of timestamp;
          text = world_url;
          neighbors = neighbors;
        })
        (raw_neighbors member_sessions)

  unfoldable pub build_jni : Uuid → Uuid → AndPeerSessionWithTimeStamp → Option RawJni
  unfolding raw_neighbor
  build_jni local_session_id peer_session_id member_session =
      Option.map
        (λ neighbor. record {
          sender_session_id = print local_session_id;
          recver_session_id = print peer_session_id;
          neighbor = neighbor;
        })
        (raw_neighbor member_session)
