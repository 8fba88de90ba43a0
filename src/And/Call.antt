-- ===== src/And/Call.antt =====
-- The calls that package and makes on one world (and/and.go), as data, and histories of them.
pub mod Runs
pub mod History
use abyss_core.Prelude.{String, List, [], ◌∷◌, ℕ}
use abyss_core.Interfaces.{
  Uuid, Time, Peer, ObjectInfo, AndFullPeerSessionIdentity, AndPeerSessionIdentity,
}
use abyss_core.And.Effect.{M, ◌>>◌, skip}
use abyss_core.And.State.{AndWorld}
use abyss_core.And.World
use abyss_core.And.Members

-- `timer_expire` carries the draws of `rand.Intn`, the clock and the orders of its two loops;
-- `accept_session` the order of its loop.
pub data Call : Type 0 where
  peer_connected remove_peer rst : Peer → Call
  jn mem : Peer → Uuid → Time → Call
  jok : Peer → Uuid → Time → String → List AndFullPeerSessionIdentity → Call
  jdn : Peer → ℕ → String → Call
  jni : Peer → Uuid → AndFullPeerSessionIdentity → Call
  sjn crr : Peer → Uuid → List AndPeerSessionIdentity → Call
  soa : Peer → Uuid → List ObjectInfo → Call
  sod : Peer → Uuid → List Uuid → Call
  accept_session : List String → Peer → Uuid → Call
  decline_session : Peer → Uuid → Call
  timer_expire : (ℕ → ℕ) → Time → List String → List String → Call

unfoldable pub call : Call → M AndWorld (Unit {0})
call (peer_connected p) = World.peer_connected p
call (remove_peer p) = Members.remove_peer p
call (rst p) = Members.rst p
call (jn p sid t) = World.jn p sid t
call (mem p sid t) = World.mem p sid t
call (jok p sid t url ms) = World.jok p sid t url ms
call (jdn p code message) = World.jdn p code message
call (jni p sid m) = World.jni p sid m
call (sjn p sid ms) = Members.sjn p sid ms
call (crr p sid ms) = Members.crr p sid ms
call (soa p sid objects) = Members.soa p sid objects
call (sod p sid object_ids) = Members.sod p sid object_ids
call (accept_session order p sid) = Members.accept_session order p sid
call (decline_session p sid) = Members.decline_session p sid
call (timer_expire draw now first second_order) = Members.timer_expire draw now first second_order

unfoldable pub run : List Call → M AndWorld (Unit {0})
run [] = skip
run (c ∷ calls) = do call c; run calls
