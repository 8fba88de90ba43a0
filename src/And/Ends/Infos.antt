-- ===== src/And/Ends/Infos.antt =====
-- The handlers of one entry end.
use abyss_core.Prelude.{String, none, some, ◌≢◌, refl, arith, List, ℕ}
use abyss_core.Interfaces.{
  Uuid, Time, Peer, ObjectInfo, AndFullPeerSessionIdentity, AndPeerSessionIdentity,
}
use abyss_core.And.Effect.{Outcome, panicked, ret}
use abyss_core.And.State.{AndWorld, Slot}
use abyss_core.And.Monitor.{IsPlaced}
use abyss_core.And.Clear.{clear, clear_states, try_update_session_id, is_proper_member_or_reset}
use abyss_core.And.Info.{
  jn_info, jok_info, jdn_info, jni_mems_info, mem_info, soa_info, sod_info, rst_info,
  decline_session_info, remove_peer_info,
}
use abyss_core.And.World.{jni_mems_slot}
use abyss_core.And.Members.{sjn_mems_slot, announce, is_passed_over}
use abyss_core.And.Ends.{Ends, IsLive, IsFree}

pub jni_mems_slot-Ends :
    (k : String) (w : AndWorld) (m : AndFullPeerSessionIdentity) (s : Slot)
    → IsPlaced k s
    → IsFree s
    → Ends (jni_mems_slot m w s)
unfolding jni_mems_slot jni_mems_info try_update_session_id
jni_mems_slot-Ends k w m none h free = tt
jni_mems_slot-Ends k w m (some i) h free = ground arith

-- The entry is still no target.
abbrev pub StaysFree : {A : Type 0} → Outcome Slot A → Type 0
StaysFree panicked = Unit {0}
StaysFree (ret a s acts) = IsFree s

pub jni_mems_slot-StaysFree :
    (w : AndWorld) (m : AndFullPeerSessionIdentity) (s : Slot)
    → IsFree s
    → StaysFree (jni_mems_slot m w s)
unfolding jni_mems_slot jni_mems_info try_update_session_id
jni_mems_slot-StaysFree w m none free = refl
jni_mems_slot-StaysFree w m (some i) free = ground arith

pub proper-Ends :
    (k : String) (w : AndWorld) (sid : Uuid) (s : Slot)
    → IsPlaced k s
    → IsLive s
    → Ends (is_proper_member_or_reset w sid s)
unfolding is_proper_member_or_reset clear_states
proper-Ends k w sid none h live = absurd live
proper-Ends k w sid (some i) h live = ground arith

pub jn_info-Ends :
    (k : String) (w : AndWorld) (p : Peer) (sid : Uuid) (t : Time) (s : Slot)
    → IsPlaced k s
    → IsLive s
    → Ends (jn_info w p sid t s)
unfolding jn_info try_update_session_id
jn_info-Ends k w p sid t none h live = absurd live
jn_info-Ends k w p sid t (some i) h live = ground arith

pub mem_info-Ends :
    (k : String) (w : AndWorld) (p : Peer) (sid : Uuid) (t : Time) (s : Slot)
    → IsPlaced k s
    → IsLive s
    → Ends (mem_info w p sid t s)
unfolding mem_info try_update_session_id
mem_info-Ends k w p sid t none h live = absurd live
mem_info-Ends k w p sid t (some i) h live = ground arith

pub jok_info-Ends :
    (k : String) (w : AndWorld) (p : Peer) (sid : Uuid) (t : Time) (url : String) (s : Slot)
    → IsLive s
    → Ends (jok_info w p sid t url s)
unfolding jok_info
jok_info-Ends k w p sid t url none live = absurd live
jok_info-Ends k w p sid t url (some i) live = ground arith

pub jdn_info-Ends :
    (k : String) (w : AndWorld) (p : Peer) (code : ℕ) (message : String) (s : Slot)
    → IsPlaced k s
    → IsLive s
    → Ends (jdn_info w p code message s)
unfolding jdn_info clear
jdn_info-Ends k w p code message none h live = absurd live
jdn_info-Ends k w p code message (some i) h live = ground arith

pub soa_info-Ends :
    (w : AndWorld) (p : Peer) (sid : Uuid) (objects : List ObjectInfo) (s : Slot)
    → IsLive s
    → Ends (soa_info w p sid objects s)
unfolding soa_info
soa_info-Ends w p sid objects none live = absurd live
soa_info-Ends w p sid objects (some i) live = ground arith

pub sod_info-Ends :
    (w : AndWorld) (p : Peer) (sid : Uuid) (object_ids : List Uuid) (s : Slot)
    → IsLive s
    → Ends (sod_info w p sid object_ids s)
unfolding sod_info
sod_info-Ends w p sid object_ids none live = absurd live
sod_info-Ends w p sid object_ids (some i) live = ground arith

pub rst_info-Ends :
    (k : String) (w : AndWorld) (s : Slot) → IsPlaced k s → IsLive s → Ends (rst_info w s)
unfolding rst_info clear_states
rst_info-Ends k w none h live = absurd live
rst_info-Ends k w (some i) h live = ground arith

pub decline-Ends :
    (k : String) (w : AndWorld) (sid : Uuid) (s : Slot)
    → IsPlaced k s
    → Ends (decline_session_info w sid s)
unfolding decline_session_info clear_states
decline-Ends k w sid none h = tt
decline-Ends k w sid (some i) h = ground arith

pub remove_peer_info-Ends :
    (k : String) (w : AndWorld) (s : Slot) → IsPlaced k s → s ≢ none → Ends (remove_peer_info w s)
unfolding remove_peer_info clear_states
remove_peer_info-Ends k w none h known = absurd (known refl)
remove_peer_info-Ends k w (some i) h known = ground arith

pub announce-Ends :
    (k : String) (w : AndWorld) (now : Time) (s : Slot) → IsPlaced k s → Ends (announce now w s)
unfolding announce is_passed_over
announce-Ends k w now none h = tt
announce-Ends k w now (some i) h = ground arith

pub sjn_mems_slot-Ends :
    (w : AndWorld) (p : Peer) (sid : Uuid) (m : AndPeerSessionIdentity) (s : Slot)
    → Ends (sjn_mems_slot p sid m w s)
unfolding sjn_mems_slot
sjn_mems_slot-Ends w p sid m none = tt
sjn_mems_slot-Ends w p sid m (some i) = ground arith
