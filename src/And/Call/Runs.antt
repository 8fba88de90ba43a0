-- ===== src/And/Call/Runs.antt =====
-- Every call keeps what And/Run says, and ends where its sender is connected.
use abyss_core.Prelude.{String, none, ◌≡◌, ◌≢◌, some, arith, false}
use abyss_core.Interfaces.{Peer}
use abyss_core.And.State.{AndWorld, Slot}
use abyss_core.And.World.{at_peer, put_back, peer_connected_info}
use abyss_core.And.World
use abyss_core.And.Members
use abyss_core.And.Info.{known_peer_connected}
use abyss_core.And.Call.{
  Call, peer_connected, remove_peer, rst, jn, mem, jok, jdn, jni, sjn, crr, soa, sod,
  accept_session, decline_session, timer_expire, call,
}
use abyss_core.And.Run.{IsWorld, Runs}
use abyss_core.And.Run.Handlers
use abyss_core.And.Run.FromMembers
use abyss_core.And.Run.Timer
use abyss_core.And.Ends.{Ends, IsLive, IsFree, AllFree, put_back-Ends, is_connected}
use abyss_core.And.Ends.Infos
use abyss_core.And.Ends.Loops
use abyss_core.And.Ends.Requests
use abyss_core.And.Ends.Requests.{AllMet, OnlyTarget}

-- A peer that connects is not the host itself.
abbrev pub IsAllowed : String → Call → Type 0
IsAllowed local (peer_connected p) = p.id_hash ≢ local
IsAllowed local _ = Unit {0}

pub call-Runs : (c : Call) (w : AndWorld) → IsWorld w → IsAllowed w.local c → Runs w (call c w)
unfolding call
call-Runs (peer_connected p) w h n = Handlers.peer_connected-Runs p 0 w h n
call-Runs (remove_peer p) w h n = Handlers.remove_peer-Runs p 0 w h
call-Runs (rst p) w h n = Handlers.rst-Runs p 0 w h
call-Runs (jn p sid t) w h n = Handlers.jn-Runs p sid w h t
call-Runs (mem p sid t) w h n = Handlers.mem-Runs p sid w h t
call-Runs (jok p sid t url ms) w h n = Handlers.jok-Runs p sid w h t url ms
call-Runs (jdn p code message) w h n = Handlers.jdn-Runs p 0 w h code message
call-Runs (jni p sid m) w h n = FromMembers.jni-Runs p sid w h m
call-Runs (sjn p sid ms) w h n = FromMembers.sjn-Runs p sid w h ms
call-Runs (crr p sid ms) w h n = FromMembers.crr-Runs p sid w h ms
call-Runs (soa p sid objects) w h n = Handlers.soa-Runs p sid w h objects
call-Runs (sod p sid object_ids) w h n = Handlers.sod-Runs p sid w h object_ids
call-Runs (accept_session order p sid) w h n = Handlers.accept-Runs p sid w h order
call-Runs (decline_session p sid) w h n = Handlers.decline-Runs p sid w h
call-Runs (timer_expire draw now first second_order) w h n =
    Timer.timer_expire-Runs draw now first second_order w h

-- The entry of a peer that has no connection: none, or one that waits for it.
abbrev pub IsAway : Slot → Type 0
IsAway none = Unit {0}
IsAway (some i) = is_connected i.state ≡ false

-- What a call needs of the world. A message comes from a peer that is connected; a JNI comes while no
-- join waits for its answer, and a JOK while the sender's is the only one; a CRR asks for connected
-- peers, or for peers without an entry; AcceptSession does not name a join that waits for its answer. The
-- host serves messages of connected peers only, but tests nothing else of this.
abbrev pub IsReady : AndWorld → Call → Type 0
IsReady w (peer_connected p) = (p.id_hash ≢ w.local) × IsAway (w.peers p.id_hash)
IsReady w (remove_peer p) = w.peers p.id_hash ≢ none
IsReady w (jok p sid t url ms) = IsLive (w.peers p.id_hash) × OnlyTarget w p.id_hash
IsReady w (jni p sid m) = IsLive (w.peers p.id_hash) × AllFree w
IsReady w (crr p sid ms) = IsLive (w.peers p.id_hash) × AllMet w ms
IsReady w (accept_session order p sid) = IsFree (w.peers p.id_hash)
IsReady w (decline_session p sid) = Unit {0}
IsReady w (timer_expire draw now first second_order) = Unit {0}
IsReady w (rst p) = IsLive (w.peers p.id_hash)
IsReady w (jn p sid t) = IsLive (w.peers p.id_hash)
IsReady w (mem p sid t) = IsLive (w.peers p.id_hash)
IsReady w (jdn p code message) = IsLive (w.peers p.id_hash)
IsReady w (sjn p sid ms) = IsLive (w.peers p.id_hash)
IsReady w (soa p sid objects) = IsLive (w.peers p.id_hash)
IsReady w (sod p sid object_ids) = IsLive (w.peers p.id_hash)

peer_connected_info-Ends :
    (p : Peer) (w : AndWorld) (s : Slot) → IsAway s → Ends (peer_connected_info p w s)
unfolding peer_connected_info known_peer_connected
peer_connected_info-Ends p w none away = tt
peer_connected_info-Ends p w (some i) away = ground arith

pub call-Ends : (c : Call) (w : AndWorld) → IsWorld w → IsReady w c → Ends (call c w)
unfolding call at_peer World.peer_connected World.jn World.mem World.jdn Members.remove_peer
    Members.rst Members.soa Members.sod Members.accept_session Members.decline_session
call-Ends (peer_connected p) w h r =
    put_back-Ends w p.id_hash (peer_connected_info p w (w.peers p.id_hash))
      (peer_connected_info-Ends p w (w.peers p.id_hash) r.1)
call-Ends (remove_peer p) w h r =
    put_back-Ends w p.id_hash _
      (Infos.remove_peer_info-Ends p.id_hash w (w.peers p.id_hash) (h.placed p.id_hash) r)
call-Ends (rst p) w h r =
    put_back-Ends w p.id_hash _
      (Infos.rst_info-Ends p.id_hash w (w.peers p.id_hash) (h.placed p.id_hash) r)
call-Ends (jn p sid t) w h r =
    put_back-Ends w p.id_hash _
      (Infos.jn_info-Ends p.id_hash w p sid t (w.peers p.id_hash) (h.placed p.id_hash) r)
call-Ends (mem p sid t) w h r =
    put_back-Ends w p.id_hash _
      (Infos.mem_info-Ends p.id_hash w p sid t (w.peers p.id_hash) (h.placed p.id_hash) r)
call-Ends (jok p sid t url ms) w h r = Requests.jok-Ends p sid t url ms w h r.0 r.1
call-Ends (jdn p code message) w h r =
    put_back-Ends w p.id_hash _
      (Infos.jdn_info-Ends p.id_hash w p code message (w.peers p.id_hash) (h.placed p.id_hash) r)
call-Ends (jni p sid m) w h r = Requests.jni-Ends p sid m w h r.0 r.1
call-Ends (sjn p sid ms) w h r = Requests.sjn-Ends p sid ms w h r
call-Ends (crr p sid ms) w h r = Requests.crr-Ends p sid ms w h r.0 r.1
call-Ends (soa p sid objects) w h r =
    put_back-Ends w p.id_hash _ (Infos.soa_info-Ends w p sid objects (w.peers p.id_hash) r)
call-Ends (sod p sid object_ids) w h r =
    put_back-Ends w p.id_hash _ (Infos.sod_info-Ends w p sid object_ids (w.peers p.id_hash) r)
call-Ends (accept_session order p sid) w h r = put_back-Ends w p.id_hash _ (
    Loops.accept-Ends p.id_hash w (World.visit w.peers order) sid (w.peers p.id_hash)
      (h.placed p.id_hash) r (Loops.visit-AllHeld w.peers order h.placed))
call-Ends (decline_session p sid) w h r =
    put_back-Ends w p.id_hash _
      (Infos.decline-Ends p.id_hash w sid (w.peers p.id_hash) (h.placed p.id_hash))
call-Ends (timer_expire draw now first second_order) w h r =
    Loops.timer_expire-Ends draw now first second_order w h
