-- ===== src/And/Sessions.antt =====
-- Which session an entry holds, and what its messages change.
use abyss_core.Prelude.{
  String, List, [], ◌∷◌, none, some, ◌≡◌, ◌≢◌, ◌∙◌, arith, true, false, Bool, ◌⊎◌, ◌==◌, string_eq,
  nat_eq, ◌≤◌, ◌<◌, put_self, put, put-ne,
}
use abyss_core.Interfaces.{Uuid, Time, Peer, AndPeerSessionIdentity}
use abyss_core.And.Effect.{Outcome, panicked, ret, after, rx, Kind}
use abyss_core.And.State.{
  AndWorld, Slot, AndPeerSessionState, WorldState, ws_dc_jt, ws_dc_jni, ws_cc, ws_jt, ws_jn,
  ws_rmem_njni, ws_jni, ws_mem,
}
use abyss_core.And.Monitor.{IsPlaced}
use abyss_core.And.Clear.{try_update_session_id, is_proper_member_or_reset}
use abyss_core.And.Info.{jn_info, mem_info, jni_mems_info}
use abyss_core.And.World.{at_peer, proper}
use abyss_core.And.Members.{crr, crr_mems, crr_mems_all, introduce_slot, origin_of}

-- The states in which an entry of a connected peer holds a session of that peer.
abbrev pub has_session : WorldState → Bool
has_session ws_dc_jt = false
has_session ws_dc_jni = false
has_session ws_cc = false
has_session ws_jt = false
has_session _ = true

-- An entry keeps its session and its time, or a later time brings another session in state `s`.
abbrev pub Renews :
    {A : Type 0} → WorldState → AndPeerSessionState → Uuid → Time → Outcome Slot A → Type 0
Renews s i sid t panicked = ⊥
Renews s i sid t (ret a none acts) = ⊥
Renews s i sid t (ret a (some j) acts) =
    ((t ≤ i.time_stamp)
      × (j.peer_session_id ≡ i.peer_session_id)
      × (j.time_stamp ≡ i.time_stamp)
      × (j.peer ≡ i.peer))
    ⊎ ((i.time_stamp < t)
        × (j.peer_session_id ≡ sid)
        × (j.time_stamp ≡ t)
        × (j.peer ≡ i.peer)
        × (j.state ≡ s)
        × (j.sjnp ≡ false)
        × (j.sjnc ≡ 0))

module _ (k : String) (w : AndWorld) (p : Peer) (sid : Uuid) (t : Time) (i : AndPeerSessionState)
    (h : IsPlaced k (some i)) (held : has_session i.state ≡ true) where
  -- A MEM for an entry that holds a session ends. If its time is later than the entry's, the entry
  -- takes over its session and its time, in WS_RMEM_NJNI with no SJN counted; otherwise the session,
  -- the time and the peer stay.
  pub mem_info-Renews : Renews ws_rmem_njni i sid t (mem_info w p sid t (some i))
  unfolding mem_info try_update_session_id
  mem_info-Renews = ground arith

  -- A JN for an entry that holds a session ends. If its time is later than the entry's, the entry
  -- takes over its session and its time, in WS_JN with no SJN counted; otherwise the session, the
  -- time and the peer stay.
  pub jn_info-Renews : Renews ws_jn i sid t (jn_info w p sid t (some i))
  unfolding jn_info try_update_session_id
  jn_info-Renews = ground arith

  -- JNI_MEMS for a member whose entry holds a session ends. If the time it names is later than the
  -- entry's, the entry takes over the session and the time it names, in WS_JNI with no SJN counted;
  -- otherwise the session, the time and the peer stay.
  pub jni_mems_info-Renews : Renews ws_jni i sid t (jni_mems_info w sid t (some i))
  unfolding jni_mems_info try_update_session_id
  jni_mems_info-Renews = ground arith

-- The first step of a CRR from a member.
proper_member :
    (k : Kind) (w : AndWorld) (sid : Uuid) (i : AndPeerSessionState)
    → i.state ≡ ws_mem
    → i.peer_session_id ≡ sid
    → proper k sid w (some i) ≡ ret true (some i) (rx k ∷ [])
unfolding is_proper_member_or_reset
proper_member k w sid i e e' = ground arith

at_member :
    (p : Peer) (sid : Uuid) (w : AndWorld) (i : AndPeerSessionState)
    → w.peers p.id_hash ≡ some i
    → i.state ≡ ws_mem
    → i.peer_session_id ≡ sid
    → at_peer p.id_hash (proper Kind.crr_t sid) w
      ≡ ret true (record w { peers = put p.id_hash (some i) w.peers }) (rx Kind.crr_t ∷ [])
unfolding at_peer
at_member p sid w i e member same = rw e (rw (proper_member Kind.crr_t w sid i member same))

introduce_panics :
    (o j : AndPeerSessionState) (m : AndPeerSessionIdentity) (w : AndWorld)
    → j.state ≡ ws_dc_jni
    → IsPlaced m.peer_hash (some j)
    → j.peer_session_id ≡ m.session_id
    → introduce_slot o m (some j) w ≡ panicked
unfolding introduce_slot
introduce_panics o j m w waits placed asked = ground arith

module _ (p : Peer) (m : AndPeerSessionIdentity) (ms : List AndPeerSessionIdentity)
    (i j : AndPeerSessionState) (other : p.id_hash ≢ m.peer_hash) (waits : j.state ≡ ws_dc_jni)
    (asked : j.peer_session_id ≡ m.session_id) (placed : IsPlaced m.peer_hash (some j)) where
  crr_mems_panics :
      (u : AndWorld)
      → (m.peer_hash == u.local) ≡ false
      → u.peers m.peer_hash ≡ some j
      → crr_mems i m u ≡ panicked
  unfolding crr_mems
  crr_mems_panics u foreign e' = rw foreign (rw e' (introduce_panics i j m u waits placed asked))

  crr_tail :
      (v : AndWorld)
      → (m.peer_hash == v.local) ≡ false
      → v.peers p.id_hash ≡ some i
      → v.peers m.peer_hash ≡ some j
      → after (at_peer p.id_hash origin_of v) (λ o. crr_mems_all o (m ∷ ms)) ≡ panicked
  unfolding at_peer crr_mems_all
  crr_tail v foreign e e' = rw e (
      rw (
        crr_mems_panics (record v { peers = put p.id_hash (some i) v.peers }) foreign
          (put-ne p.id_hash m.peer_hash (some i) v.peers other ∙ e')))

-- A CRR from a member that asks for a peer which waits for its connection (WS_DC_JNI), under the
-- session that the entry holds, panics: the entry has no peer to introduce.
pub crr_panics :
    (p : Peer) (sid : Uuid) (m : AndPeerSessionIdentity) (ms : List AndPeerSessionIdentity)
    (w : AndWorld) (i j : AndPeerSessionState)
    → w.peers p.id_hash ≡ some i
    → i.state ≡ ws_mem
    → i.peer_session_id ≡ sid
    → p.id_hash ≢ m.peer_hash
    → (m.peer_hash == w.local) ≡ false
    → w.peers m.peer_hash ≡ some j
    → j.state ≡ ws_dc_jni
    → j.peer_session_id ≡ m.session_id
    → IsPlaced m.peer_hash (some j)
    → crr p sid (m ∷ ms) w ≡ panicked
unfolding crr
crr_panics p sid m ms w i j e member same other foreign e' waits asked placed =
    rw (at_member p sid w i e member same) (
      rw (
        crr_tail p m ms i j other waits asked placed
          (record w { peers = put p.id_hash (some i) w.peers }) foreign
          (put_self p.id_hash (some i) w.peers)
          (put-ne p.id_hash m.peer_hash (some i) w.peers other ∙ e')))
