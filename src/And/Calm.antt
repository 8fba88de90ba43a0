-- ===== src/And/Calm.antt =====
-- A world that waits for no join: what its calls tell the application.
pub mod Accepting
pub mod Loops
pub mod Calls
use abyss_core.Prelude.{String, none, some, ◌≡◌, ◌≢◌, List, [], ◌∷◌, ◌++◌, ℕ, arith, Option, refl}
use abyss_core.Interfaces.{
  Uuid, Time, Peer, ObjectInfo, AndFullPeerSessionIdentity, AndPeerSessionIdentity,
  AndPeerSessionWithTimeStamp, NeighborEvent, Message,
}
use abyss_core.Interfaces.NeighborEvent.{
  session_request, session_ready, session_close, join_success, join_fail, world_leave,
  connect_request, timer_request, peer_register, object_append, object_delete,
}
use abyss_core.And.Effect.{
  Outcome, panicked, ret, prepend, Action, raised, sent, tx, rx, w_branch, M, after, map_result,
  act, send, Kind, ◌>>◌,
}
use abyss_core.And.State.{AndWorld, Slot, AndPeerSessionState, ws_tmem}
use abyss_core.And.Clear.{
  set_state, clear, clear_states, try_update_session_id, is_proper_member_or_reset,
}
use abyss_core.And.Info.{
  known_peer_connected, jn_info, jok_info, jdn_info, jni_mems_info, mem_info, soa_info, sod_info,
  rst_info, invite, invite_one, accept_jn, accept_session_info, decline_session_info,
  remove_peer_info,
}
use abyss_core.And.World.{jni_mems_slot, peer_connected_info}
use abyss_core.And.Members.{sjn_mems_slot, announce}
use abyss_core.And.Monitor.{IsPlaced, All, All-append}
use abyss_core.And.Ends.{IsFree}

abbrev pub HasPeer : Option Peer → Type 0
HasPeer none = ⊥
HasPeer (some p) = Unit {0}

-- An event of the world `lsid` that names a peer where it should, and ends no join and no world.
abbrev pub IsTame : Uuid → NeighborEvent → Type 0
IsTame lsid (session_request l s) = (l ≡ lsid) × HasPeer s.peer
IsTame lsid (session_ready l s) = (l ≡ lsid) × HasPeer s.peer
IsTame lsid (session_close l s) = (l ≡ lsid) × HasPeer s.peer
IsTame lsid (object_append l s objects) = (l ≡ lsid) × HasPeer s.peer
IsTame lsid (object_delete l s ids) = (l ≡ lsid) × HasPeer s.peer
IsTame lsid (join_success l url) = ⊥
IsTame lsid (join_fail l message code) = ⊥
IsTame lsid (world_leave l) = ⊥
IsTame lsid (timer_request l n) = l ≡ lsid
IsTame lsid _ = Unit {0}

abbrev pub IsTameAct : Uuid → Action → Type 0
IsTameAct lsid (raised e) = IsTame lsid e
IsTameAct lsid _ = Unit {0}

-- A call on the entry at `k` leaves it placed and no target of a join, and tells only tame events.
abbrev pub Calms : {A : Type 0} → String → Uuid → Outcome Slot A → Type 0
Calms k lsid panicked = Unit {0}
Calms k lsid (ret a t acts) = IsPlaced k t × IsFree t × All (IsTameAct lsid) acts

module _ (k : String) (w : AndWorld) where
  pub proper-Calms :
      (sid : Uuid) (s : Slot)
      → IsPlaced k s
      → IsFree s
      → Calms k w.lsid (is_proper_member_or_reset w sid s)
  unfolding is_proper_member_or_reset clear_states
  proper-Calms sid none h f = tt
  proper-Calms sid (some i) h f = ground arith

  pub jni_mems_slot-Calms :
      (m : AndFullPeerSessionIdentity) (s : Slot)
      → IsPlaced k s
      → IsFree s
      → Calms k w.lsid (jni_mems_slot m w s)
  unfolding jni_mems_slot jni_mems_info try_update_session_id
  jni_mems_slot-Calms m none h f = ground arith
  jni_mems_slot-Calms m (some i) h f = ground arith

  pub sjn_mems_slot-Calms :
      (p : Peer) (sid : Uuid) (m : AndPeerSessionIdentity) (s : Slot)
      → IsPlaced k s
      → IsFree s
      → Calms k w.lsid (sjn_mems_slot p sid m w s)
  unfolding sjn_mems_slot
  sjn_mems_slot-Calms p sid m none h f = ground arith
  sjn_mems_slot-Calms p sid m (some i) h f = ground arith

  pub announce-Calms :
      (now : Time) (s : Slot) → IsPlaced k s → IsFree s → Calms k w.lsid (announce now w s)
  unfolding announce
  announce-Calms now none h f = ground arith
  announce-Calms now (some i) h f = ground arith

  pub rst_info-Calms : (s : Slot) → IsPlaced k s → IsFree s → Calms k w.lsid (rst_info w s)
  unfolding rst_info clear_states
  rst_info-Calms none h f = tt
  rst_info-Calms (some i) h f = ground arith

  pub decline-Calms :
      (sid : Uuid) (s : Slot)
      → IsPlaced k s
      → IsFree s
      → Calms k w.lsid (decline_session_info w sid s)
  unfolding decline_session_info clear_states
  decline-Calms sid none h f = ground arith
  decline-Calms sid (some i) h f = ground arith

  pub remove-Calms : (s : Slot) → IsPlaced k s → IsFree s → Calms k w.lsid (remove_peer_info w s)
  unfolding remove_peer_info clear_states
  remove-Calms none h f = tt
  remove-Calms (some i) h f = ground arith

-- The handlers of a message from the peer whose entry it is.
module _ (k : String) (w : AndWorld) (p : Peer) (e : p.id_hash ≡ k) where
  pub connected-Calms :
      (s : Slot) → IsPlaced k s → IsFree s → Calms k w.lsid (peer_connected_info p w s)
  unfolding peer_connected_info known_peer_connected
  connected-Calms none h f = ground arith
  connected-Calms (some i) h f = ground arith

  pub jn_info-Calms :
      (sid : Uuid) (t : Time) (s : Slot)
      → IsPlaced k s
      → IsFree s
      → Calms k w.lsid (jn_info w p sid t s)
  unfolding jn_info try_update_session_id
  jn_info-Calms sid t none h f = tt
  jn_info-Calms sid t (some i) h f = ground arith

  pub mem_info-Calms :
      (sid : Uuid) (t : Time) (s : Slot)
      → IsPlaced k s
      → IsFree s
      → Calms k w.lsid (mem_info w p sid t s)
  unfolding mem_info try_update_session_id clear_states
  mem_info-Calms sid t none h f = tt
  mem_info-Calms sid t (some i) h f = ground arith

  pub jok_info-Calms :
      (sid : Uuid) (t : Time) (url : String) (s : Slot)
      → IsPlaced k s
      → IsFree s
      → Calms k w.lsid (jok_info w p sid t url s)
  unfolding jok_info
  jok_info-Calms sid t url none h f = ground arith
  jok_info-Calms sid t url (some i) h f = ground arith

  pub jdn_info-Calms :
      (code : ℕ) (message : String) (s : Slot)
      → IsPlaced k s
      → IsFree s
      → Calms k w.lsid (jdn_info w p code message s)
  unfolding jdn_info clear
  jdn_info-Calms code message none h f = ground arith
  jdn_info-Calms code message (some i) h f = ground arith

  pub soa_info-Calms :
      (sid : Uuid) (os : List ObjectInfo) (s : Slot)
      → IsPlaced k s
      → IsFree s
      → Calms k w.lsid (soa_info w p sid os s)
  unfolding soa_info
  soa_info-Calms sid os none h f = tt
  soa_info-Calms sid os (some i) h f = ground arith

  pub sod_info-Calms :
      (sid : Uuid) (ids : List Uuid) (s : Slot)
      → IsPlaced k s
      → IsFree s
      → Calms k w.lsid (sod_info w p sid ids s)
  unfolding sod_info
  sod_info-Calms sid ids none h f = tt
  sod_info-Calms sid ids (some i) h f = ground arith
