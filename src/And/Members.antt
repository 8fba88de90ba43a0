-- ===== src/And/Members.antt =====
-- and/world.go, from SJN on: what members tell one another, the application's answers, the timer
-- and the end of a world. The order of a `range w.peers` is an argument, as in And/World.
use abyss_core.Prelude.{
  ℕ, String, Bool, true, false, List, [], ◌∷◌, ◌++◌, none, some, ltb, ◌==◌, nat_eq, string_eq, ◌+◌,
  suc, if◌then◌else◌, ◌&&◌, ◌||◌, not, ◌*◌,
}
use abyss_core.Interfaces.{Uuid, Time, Peer, AndPeerSessionIdentity, ObjectInfo, Message}
use abyss_core.Interfaces.NeighborEvent.{timer_request, join_fail, session_close, world_leave}
use abyss_core.And.Effect.{
  M, fmap, ret, ◌>>=◌, ◌>>◌, pure, skip, when, act, raise, send, stat_w, deref, Kind, tx,
}
use abyss_core.And.State.{
  WorldState, ws_dc_jt, ws_dc_jni, ws_cc, ws_jt, ws_mem, AndPeerSessionState, AndWorld, Slot,
  jnc_canceled, jnm_canceled,
}
use abyss_core.And.Clear.{session_of, stamped_session_of, modify, load}
use abyss_core.And.Info.{
  soa_info, sod_info, rst_info, accept_session_info, decline_session_info, remove_peer_info,
}
use abyss_core.And.World.{at_peer, visit, proper}

abbrev pub is_mem : WorldState → Bool
is_mem ws_mem = true
is_mem _ = false

-- SJN_MEMS
ask : AndWorld → Peer → Uuid → AndPeerSessionIdentity → M Slot (Unit {0})
ask w p sid m = do act (tx Kind.crr_t); send (some p) (Message.crr w.lsid sid (m ∷ []))

unfoldable pub sjn_mems_slot : Peer → Uuid → AndPeerSessionIdentity → AndWorld → M Slot (Unit {0})
unfolding ask
sjn_mems_slot p sid m w none = ask w p sid m none
sjn_mems_slot p sid m w (some i) =
    (if is_mem i.state && i.peer_session_id == m.session_id
        then (do stat_w 43; modify (λ j. record j { sjnc = j.sjnc + 1 }))
        else ask w p sid m)
      (some i)

unfoldable pub sjn_mems : Peer → Uuid → AndPeerSessionIdentity → M AndWorld (Unit {0})
unfolding at_peer sjn_mems_slot
sjn_mems p sid m w =
    (if m.peer_hash == w.local then stat_w 42 else at_peer m.peer_hash (sjn_mems_slot p sid m)) w

unfoldable pub sjn_mems_all : Peer → Uuid → List AndPeerSessionIdentity → M AndWorld (Unit {0})
sjn_mems_all p sid [] = skip
sjn_mems_all p sid (m ∷ ms) = do stat_w 41; sjn_mems p sid m; sjn_mems_all p sid ms

unfoldable pub sjn : Peer → Uuid → List AndPeerSessionIdentity → M AndWorld (Unit {0})
unfolding at_peer sjn_mems_all
sjn p sid member_infos = do
  member ← at_peer p.id_hash (proper Kind.sjn_t sid)
  if member then sjn_mems_all p sid member_infos else stat_w 40

-- CRR_MEMS: `origin` is the asking member's entry. A JNI reads the peer of the session it carries,
-- here the peer that gets the other one.
introduce : AndPeerSessionState → AndPeerSessionState → M AndWorld (Unit {0})
introduce origin info w =
    (do
      stat_w 47
      act (tx Kind.jni_t)
      send origin.peer (Message.jni w.lsid origin.peer_session_id (stamped_session_of info))
      act (tx Kind.jni_t)
      send info.peer (Message.jni w.lsid info.peer_session_id (stamped_session_of origin)))
      w

unfoldable pub introduce_slot :
    AndPeerSessionState → AndPeerSessionIdentity → Slot → M AndWorld (Unit {0})
unfolding introduce
introduce_slot origin m none = skip
introduce_slot origin m (some info) =
    when (info.peer_session_id == m.session_id) (introduce origin info)

unfoldable pub crr_mems : AndPeerSessionState → AndPeerSessionIdentity → M AndWorld (Unit {0})
unfolding introduce_slot
crr_mems origin m w =
    (if m.peer_hash == w.local then stat_w 46 else introduce_slot origin m (w.peers m.peer_hash)) w

unfoldable pub crr_mems_all :
    AndPeerSessionState → List AndPeerSessionIdentity → M AndWorld (Unit {0})
crr_mems_all origin [] = skip
crr_mems_all origin (m ∷ ms) = do stat_w 45; crr_mems origin m; crr_mems_all origin ms

abbrev pub origin_of : AndWorld → M Slot AndPeerSessionState
origin_of w = load

unfoldable pub crr : Peer → Uuid → List AndPeerSessionIdentity → M AndWorld (Unit {0})
unfolding at_peer crr_mems_all
crr p sid member_infos = do
  member ← at_peer p.id_hash (proper Kind.crr_t sid)
  origin ← at_peer p.id_hash origin_of
  if member then crr_mems_all origin member_infos else stat_w 44

unfoldable pub soa : Peer → Uuid → List ObjectInfo → M AndWorld (Unit {0})
unfolding at_peer
soa p sid objects = at_peer p.id_hash (λ w. soa_info w p sid objects)

unfoldable pub sod : Peer → Uuid → List Uuid → M AndWorld (Unit {0})
unfolding at_peer
sod p sid object_ids = at_peer p.id_hash (λ w. sod_info w p sid object_ids)

unfoldable pub rst : Peer → M AndWorld (Unit {0})
unfolding at_peer
rst p = at_peer p.id_hash rst_info

unfoldable pub accept_session : List String → Peer → Uuid → M AndWorld (Unit {0})
unfolding at_peer
accept_session order p sid =
    at_peer p.id_hash (λ w. accept_session_info w (visit w.peers order) sid)

unfoldable pub decline_session : Peer → Uuid → M AndWorld (Unit {0})
unfolding at_peer
decline_session p sid = at_peer p.id_hash (λ w. decline_session_info w sid)

unfoldable pub remove_peer : Peer → M AndWorld (Unit {0})
unfolding at_peer
remove_peer p = at_peer p.id_hash remove_peer_info

-- TimerExpire. A second is 10^9 nanoseconds.
abbrev pub second : ℕ
second = 1000000000

-- The members that are left out of this round.
unfoldable pub is_passed_over : Time → AndPeerSessionState → Bool
is_passed_over now i =
    not (is_mem i.state) || ltb now (i.time_stamp + second) || i.sjnp || ltb 3 i.sjnc

-- The first loop: true and a name for each member that is announced.
unfoldable pub announce : Time → AndWorld → M Slot (List AndPeerSessionIdentity)
announce now w none = ret [] none []
announce now w (some i) =
    (if is_passed_over now i then (do stat_w 74; pure []) else (do
      stat_w 75
      p ← deref i.peer
      modify (λ j. record j { sjnc = j.sjnc + 1 })
      pure (record { peer_hash = p.id_hash; session_id = i.peer_session_id } ∷ [])))
      (some i)

unfoldable pub announce_all : Time → List String → M AndWorld (List AndPeerSessionIdentity)
unfolding announce
announce_all now [] = pure []
announce_all now (k ∷ order) = do
  found ← at_peer k (announce now)
  fmap (λ rest. found ++ rest) (announce_all now order)

-- The second loop: the number of members, each of which is told of `sjn_mem` unless it is empty.
unfoldable pub tell : List AndPeerSessionIdentity → AndPeerSessionState → M AndWorld (Unit {0})
tell [] i w = skip w
tell (m ∷ ms) i w =
    (do stat_w 77; act (tx Kind.sjn_t); send i.peer (Message.sjn w.lsid i.peer_session_id (m ∷ ms)))
      w

unfoldable pub tell_all : List AndPeerSessionIdentity → List AndPeerSessionState → M AndWorld ℕ
unfolding tell
tell_all sjn_mem [] = pure 0
tell_all sjn_mem (i ∷ infos) =
    let rest = tell_all sjn_mem infos in
    if is_mem i.state then (do tell sjn_mem i; fmap suc rest) else (do stat_w 76; rest)

-- `draw n` is `rand.Intn(n)`; the two loops visit the map in orders of their own.
unfoldable pub timer_expire : (ℕ → ℕ) → Time → List String → List String → M AndWorld (Unit {0})
unfolding announce_all tell_all
timer_expire draw now first then_order w =
    (do
      sjn_mem ← announce_all now first
      member_count ← (λ v. tell_all sjn_mem (visit v.peers then_order) v)
      raise (timer_request w.lsid (300 + draw (300 * (member_count + 1)))))
      w

-- Close
unfoldable pub send_close : AndWorld → AndPeerSessionState → M AndWorld (Unit {0})
send_close w i = do act (tx Kind.rst_t); send i.peer (Message.rst w.lsid i.peer_session_id "Close")

unfoldable pub close_at : WorldState → AndWorld → AndPeerSessionState → M AndWorld (Unit {0})
unfolding send_close
close_at ws_cc w i = skip
close_at ws_dc_jt w i = skip
close_at ws_dc_jni w i = skip
close_at ws_jt w i = do
  stat_w 78
  send_close w i
  raise (join_fail w.lsid jnm_canceled jnc_canceled)
close_at ws_mem w i = do stat_w 80; send_close w i; raise (session_close w.lsid (session_of i))
close_at _ w i = do stat_w 79; send_close w i

unfoldable pub close_all : AndWorld → List AndPeerSessionState → M AndWorld (Unit {0})
unfolding close_at
close_all w [] = skip
close_all w (i ∷ infos) = do close_at i.state w i; close_all w infos

unfoldable pub close : List String → M AndWorld (Unit {0})
unfolding close_all
close order w = (do close_all w (visit w.peers order); stat_w 81; raise (world_leave w.lsid)) w
