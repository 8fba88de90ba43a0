-- ===== src/And/Keeping/Calls.antt =====
-- The calls on a world keep its connected entries.
use abyss_core.Prelude.{
  String, string_eq, none, some, List, [], ◌∷◌, arith, true, false, Bool, Bool-cases, inl, inr,
  ◌==◌, if◌then◌else◌, nat_eq, suc, ◌≢◌, put-ne,
}
use abyss_core.Interfaces.{Uuid, Time, Peer, AndFullPeerSessionIdentity, AndPeerSessionIdentity}
use abyss_core.And.Effect.{Outcome, panicked, ret, M, after, Kind, rx, skip, stat_w}
use abyss_core.And.State.{AndWorld, Slot, AndPeerSessionState}
use abyss_core.And.World
use abyss_core.And.World.{
  at_peer, put_back, jni_mems, jni_mems_slot, jni_mems_all, proper, visit, peer_connected_info,
}
use abyss_core.And.Members
use abyss_core.And.Members.{
  sjn_mems, sjn_mems_slot, sjn_mems_all, introduce_slot, crr_mems, crr_mems_all, origin_of,
  announce, announce_all, tell, tell_all, is_mem,
}
use abyss_core.And.Ends.{IsLive}
use abyss_core.And.Call.{
  Call, peer_connected, remove_peer, rst, jn, mem, jok, jdn, jni, sjn, crr, soa, sod,
  accept_session, decline_session, timer_expire, call,
}
use abyss_core.And.Keeping
use abyss_core.And.Keeping.{
  prepend-Stays, Stays, Keeps, put_back-Keeps, after-Keeps, map_result-Keeps,
}

at_peer-Keeps :
    {A : Type 0} (k : String) (f : AndWorld → M Slot A) (w : AndWorld)
    → Stays (w.peers k) (f w (w.peers k))
    → Keeps w (at_peer k f w)
unfolding at_peer
at_peer-Keeps k f w h = put_back-Keeps w k (f w (w.peers k)) h

jni_mems-Keeps : (m : AndFullPeerSessionIdentity) (w : AndWorld) → Keeps w (jni_mems m w)
unfolding jni_mems
jni_mems-Keeps m w = elim (Bool-cases (m.aurl.hash == w.local)) [
  | inl e ↦ rw e (λ k live. live)
  | inr e ↦ rw e (
      at_peer-Keeps m.aurl.hash (jni_mems_slot m) w
        (Keeping.jni_mems_slot-Stays m w (w.peers m.aurl.hash)))
]

jni_mems_all-Keeps :
    (ms : List AndFullPeerSessionIdentity) (w : AndWorld) → Keeps w (jni_mems_all ms w)
unfolding jni_mems_all
jni_mems_all-Keeps [] w = λ k live. live
jni_mems_all-Keeps (m ∷ ms) w =
    after-Keeps w (ret tt w (_ ∷ [])) _ (λ k live. live)
      (λ a v. after-Keeps v (jni_mems m v) _ (jni_mems-Keeps m v) (λ b u. jni_mems_all-Keeps ms u))

sjn_mems-Keeps :
    (p : Peer) (sid : Uuid) (m : AndPeerSessionIdentity) (w : AndWorld)
    → Keeps w (sjn_mems p sid m w)
unfolding sjn_mems
sjn_mems-Keeps p sid m w = elim (Bool-cases (m.peer_hash == w.local)) [
  | inl e ↦ rw e (λ k live. live)
  | inr e ↦ rw e (
      at_peer-Keeps m.peer_hash (sjn_mems_slot p sid m) w
        (Keeping.sjn_mems_slot-Stays p sid m w (w.peers m.peer_hash)))
]

sjn_mems_all-Keeps :
    (p : Peer) (sid : Uuid) (ms : List AndPeerSessionIdentity) (w : AndWorld)
    → Keeps w (sjn_mems_all p sid ms w)
unfolding sjn_mems_all
sjn_mems_all-Keeps p sid [] w = λ k live. live
sjn_mems_all-Keeps p sid (m ∷ ms) w =
    after-Keeps w (ret tt w (_ ∷ [])) _ (λ k live. live)
      (λ a v.
        after-Keeps v (sjn_mems p sid m v) _ (sjn_mems-Keeps p sid m v)
          (λ b u. sjn_mems_all-Keeps p sid ms u))

introduce_slot-Keeps :
    (o : AndPeerSessionState) (m : AndPeerSessionIdentity) (s : Slot) (w : AndWorld)
    → Keeps w (introduce_slot o m s w)
unfolding introduce_slot
introduce_slot-Keeps o m none w = λ k live. live
introduce_slot-Keeps o m (some i) w = ground arith

crr_mems-Keeps :
    (o : AndPeerSessionState) (m : AndPeerSessionIdentity) (w : AndWorld) → Keeps w (crr_mems o m w)
unfolding crr_mems
crr_mems-Keeps o m w = elim (Bool-cases (m.peer_hash == w.local)) [
  | inl e ↦ rw e (λ k live. live)
  | inr e ↦ rw e (introduce_slot-Keeps o m (w.peers m.peer_hash) w)
]

crr_mems_all-Keeps :
    (o : AndPeerSessionState) (ms : List AndPeerSessionIdentity) (w : AndWorld)
    → Keeps w (crr_mems_all o ms w)
unfolding crr_mems_all
crr_mems_all-Keeps o [] w = λ k live. live
crr_mems_all-Keeps o (m ∷ ms) w =
    after-Keeps w (ret tt w (_ ∷ [])) _ (λ k live. live)
      (λ a v.
        after-Keeps v (crr_mems o m v) _ (crr_mems-Keeps o m v) (λ b u. crr_mems_all-Keeps o ms u))

announce_all-Keeps :
    (now : Time) (order : List String) (w : AndWorld) → Keeps w (announce_all now order w)
unfolding announce_all
announce_all-Keeps now [] w = λ k live. live
announce_all-Keeps now (j ∷ order) w =
    after-Keeps w (at_peer j (announce now) w) _
      (at_peer-Keeps j (announce now) w (Keeping.announce-Stays now w (w.peers j)))
      (λ found v. map_result-Keeps v _ (announce_all now order v) (announce_all-Keeps now order v))

tell-Keeps :
    (ids : List AndPeerSessionIdentity) (i : AndPeerSessionState) (w : AndWorld)
    → Keeps w (tell ids i w)
unfolding tell
tell-Keeps [] i w = λ k live. live
tell-Keeps (m ∷ ms) i w = ground arith

tell_all-Keeps :
    (ids : List AndPeerSessionIdentity) (infos : List AndPeerSessionState) (w : AndWorld)
    → Keeps w (tell_all ids infos w)
unfolding tell_all
tell_all-Keeps ids [] w = λ k live. live
tell_all-Keeps ids (i ∷ infos) w = elim (Bool-cases (is_mem i.state)) [
  | inl e ↦ rw e (
      after-Keeps w (tell ids i w) _ (tell-Keeps ids i w)
        (λ a v. map_result-Keeps v suc (tell_all ids infos v) (tell_all-Keeps ids infos v)))
  | inr e ↦
      rw e
        (after-Keeps w (ret tt w (_ ∷ [])) _ (λ k live. live) (λ a v. tell_all-Keeps ids infos v))
]

proper-Stays : (kind : Kind) (sid : Uuid) (w : AndWorld) (s : Slot) → Stays s (proper kind sid w s)
proper-Stays kind sid w s =
    prepend-Stays s s (rx kind ∷ []) _ (λ live. live) (Keeping.proper-Stays w sid s)

branch-Keeps :
    (b : Bool) (f g : M AndWorld (Unit {0})) (w : AndWorld)
    → Keeps w (f w)
    → Keeps w (g w)
    → Keeps w ((if b then f else g) w)
branch-Keeps true f g w p q = p
branch-Keeps false f g w p q = q

from_member-Keeps :
    (p : Peer) (kind : Kind) (sid : Uuid) (f g : M AndWorld (Unit {0})) (w : AndWorld)
    → ((v : AndWorld) → Keeps v (f v))
    → ((v : AndWorld) → Keeps v (g v))
    → Keeps w (after (at_peer p.id_hash (proper kind sid) w) (λ b. if b then f else g))
from_member-Keeps p kind sid f g w h h' =
    after-Keeps w (at_peer p.id_hash (proper kind sid) w) _
      (at_peer-Keeps p.id_hash (proper kind sid) w (proper-Stays kind sid w (w.peers p.id_hash)))
      (λ b v. branch-Keeps b f g v (h v) (h' v))

crr-Keeps :
    (p : Peer) (sid : Uuid) (ms : List AndPeerSessionIdentity) (w : AndWorld)
    → Keeps w (Members.crr p sid ms w)
unfolding Members.crr
crr-Keeps p sid ms w =
    after-Keeps w (at_peer p.id_hash (proper Kind.crr_t sid) w) _
      (at_peer-Keeps p.id_hash (proper Kind.crr_t sid) w
        (proper-Stays Kind.crr_t sid w (w.peers p.id_hash)))
      (λ b v.
        after-Keeps v (at_peer p.id_hash origin_of v) _
          (at_peer-Keeps p.id_hash origin_of v (origin-Stays v (v.peers p.id_hash)))
          (λ o u.
            branch-Keeps b (crr_mems_all o ms) (stat_w 44) u (crr_mems_all-Keeps o ms u)
              (λ k live. live)))
  where
    origin-Stays : (v : AndWorld) (s : Slot) → Stays s (origin_of v s)
    origin-Stays v none = tt
    origin-Stays v (some i) = λ live. live

-- A call that does not remove the peer with hash `k`.
abbrev pub IsSparing : String → Call → Type 0
IsSparing k (remove_peer p) = p.id_hash ≢ k
IsSparing k _ = Unit {0}

abbrev pub KeepsAt : String → AndWorld → Outcome AndWorld (Unit {0}) → Type 0
KeepsAt k w panicked = Unit {0}
KeepsAt k w (ret a v acts) = IsLive (w.peers k) → IsLive (v.peers k)

keeps_at : (k : String) (w : AndWorld) (o : Outcome AndWorld (Unit {0})) → Keeps w o → KeepsAt k w o
keeps_at k w panicked h = tt
keeps_at k w (ret a v acts) h = h k

put_back-KeepsAt :
    (k j : String) (w : AndWorld) (o : Outcome Slot (Unit {0}))
    → j ≢ k
    → KeepsAt k w (put_back w j o)
put_back-KeepsAt k j w panicked n = tt
put_back-KeepsAt k j w (ret a t acts) n = λ live. rw (put-ne j k t w.peers n) live

pub call-KeepsAt : (k : String) (c : Call) (w : AndWorld) → IsSparing k c → KeepsAt k w (call c w)
unfolding call World.peer_connected World.jn World.mem World.jok World.jdn World.jni Members.sjn
    Members.remove_peer Members.rst Members.soa Members.sod Members.accept_session
    Members.decline_session Members.timer_expire at_peer
call-KeepsAt k (peer_connected p) w h = keeps_at k w _ (
    at_peer-Keeps p.id_hash (peer_connected_info p) w
      (Keeping.peer_connected_info-Stays p w (w.peers p.id_hash)))
call-KeepsAt k (remove_peer p) w h = put_back-KeepsAt k p.id_hash w _ h
call-KeepsAt k (rst p) w h =
    keeps_at k w _ (put_back-Keeps w p.id_hash _ (Keeping.rst_info-Stays w (w.peers p.id_hash)))
call-KeepsAt k (jn p sid t) w h =
    keeps_at k w _
      (put_back-Keeps w p.id_hash _ (Keeping.jn_info-Stays w p sid t (w.peers p.id_hash)))
call-KeepsAt k (mem p sid t) w h =
    keeps_at k w _
      (put_back-Keeps w p.id_hash _ (Keeping.mem_info-Stays w p sid t (w.peers p.id_hash)))
call-KeepsAt k (jok p sid t url ms) w h = keeps_at k w _ (
    after-Keeps w _ _
      (put_back-Keeps w p.id_hash _ (Keeping.jok_info-Stays w p sid t url (w.peers p.id_hash)))
      (λ b v. branch-Keeps b (jni_mems_all ms) skip v (jni_mems_all-Keeps ms v) (λ k live. live)))
call-KeepsAt k (jdn p code message) w h =
    keeps_at k w _
      (put_back-Keeps w p.id_hash _ (Keeping.jdn_info-Stays w p code message (w.peers p.id_hash)))
call-KeepsAt k (jni p sid m) w h = keeps_at k w _ (
    from_member-Keeps p Kind.jni_t sid _ _ w
      (λ v. after-Keeps v (ret tt v (_ ∷ [])) _ (λ k live. live) (λ a u. jni_mems-Keeps m u))
      (λ v k live. live))
call-KeepsAt k (sjn p sid ms) w h =
    keeps_at k w _
      (from_member-Keeps p Kind.sjn_t sid _ _ w (sjn_mems_all-Keeps p sid ms) (λ v k live. live))
call-KeepsAt k (crr p sid ms) w h = keeps_at k w _ (crr-Keeps p sid ms w)
call-KeepsAt k (soa p sid objects) w h =
    keeps_at k w _
      (put_back-Keeps w p.id_hash _ (Keeping.soa_info-Stays w p sid objects (w.peers p.id_hash)))
call-KeepsAt k (sod p sid object_ids) w h =
    keeps_at k w _
      (put_back-Keeps w p.id_hash _ (Keeping.sod_info-Stays w p sid object_ids (w.peers p.id_hash)))
call-KeepsAt k (accept_session order p sid) w h = keeps_at k w _ (
    put_back-Keeps w p.id_hash _
      (Keeping.accept-Stays w (visit w.peers order) sid (w.peers p.id_hash)))
call-KeepsAt k (decline_session p sid) w h =
    keeps_at k w _ (put_back-Keeps w p.id_hash _ (Keeping.decline-Stays w sid (w.peers p.id_hash)))
call-KeepsAt k (timer_expire draw now first then_order) w h = keeps_at k w _ (
    after-Keeps w (announce_all now first w) _ (announce_all-Keeps now first w) (λ ids v.
      after-Keeps v (tell_all ids (visit v.peers then_order) v) _
        (tell_all-Keeps ids (visit v.peers then_order) v) (λ n u k live. live)))
