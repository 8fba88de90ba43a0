-- ===== src/And/Info.antt =====
-- and/world.go: the handlers as far as they touch the sender's entry `info` alone. The peer session
-- of a message is its sender `p`, which is never nil, with the session `sid` that it names.
use abyss_core.Prelude.{
  ℕ, String, string_eq, Bool, true, false, List, [], ◌∷◌, ◌++◌, none, some, ltb, ◌==◌, nat_eq,
  if◌then◌else◌,
}
use abyss_core.Interfaces.{
  Uuid, Time, Peer, AndPeerSession, AndPeerSessionWithTimeStamp, ObjectInfo, NeighborEvent, Message,
}
use abyss_core.Interfaces.NeighborEvent.{
  session_request, session_ready, join_success, join_fail, object_append, object_delete,
}
use abyss_core.And.Effect.{
  M, fmap, ret, w_branch, deref, ◌>>=◌, ◌>>◌, pure, fault, skip, when, act, raise, send, stat_w,
  Kind, tx, rx,
}
use abyss_core.And.State.{
  WorldState, ws_dc_jt, ws_dc_jni, ws_cc, ws_jt, ws_jn, ws_rmem_njni, ws_jni, ws_rmem, ws_tmem,
  ws_mem, AndPeerSessionState, AndWorld, Slot, jnc_invalid_states, jnm_invalid_states,
  jnc_duplicate, jnm_duplicate,
}
use abyss_core.And.Clear.{
  load, modify, remove, set_state, session_of, stamped_session_of, clear, clear_states,
  try_update_session_id,
}

abbrev pub session : Peer → Uuid → AndPeerSession
session p sid = record { peer = some p; peer_session_id = sid }

-- `info.AndPeerSession = peer_session; info.TimeStamp = timestamp; info.state = s`
abbrev adopt : Peer → Uuid → Time → WorldState → M Slot (Unit {0})
adopt p sid t s =
    modify (λ i. record i { peer = some p; peer_session_id = sid; time_stamp = t; state = s })

-- `w.ech <- NeighborEvent{ANDSessionRequest, w.lsid, info.AndPeerSession}`
abbrev pub request_info : AndWorld → M Slot (Unit {0})
request_info w = do i ← load; raise (session_request w.lsid (session_of i))

-- PeerConnected, for a known peer.
connected_at : WorldState → AndWorld → Peer → M Slot (Unit {0})
connected_at ws_dc_jt w p = do
  stat_w 5
  modify (λ i. record i { peer = some p })
  act (tx Kind.jn_t)
  send (some p) (Message.jn w.lsid w.join_path w.timestamp)
  set_state ws_jt
connected_at ws_dc_jni w p = do
  stat_w 6
  modify (λ i. record i { peer = some p; state = ws_jni })
  request_info w
connected_at _ w p = fault

unfoldable pub known_peer_connected : AndWorld → Peer → M Slot (Unit {0})
unfolding connected_at
known_peer_connected w p = do stat_w 4; info ← load; connected_at info.state w p

jn_again : AndWorld → Peer → Uuid → Time → M Slot (Unit {0})
jn_again w p sid t = do
  stat_w 9
  updated ← try_update_session_id w sid t
  if updated
      then (do stat_w 10; set_state ws_jn; raise (session_request w.lsid (session p sid)))
      else (do
        stat_w 11
        act (tx Kind.jdn_t)
        send (some p) (Message.jdn sid jnc_duplicate jnm_duplicate))

jn_at : WorldState → AndWorld → Peer → Uuid → Time → M Slot (Unit {0})
unfolding jn_again
jn_at ws_cc w p sid t = do
  stat_w 7
  adopt p sid t ws_jn
  raise (session_request w.lsid (session p sid))
jn_at ws_jt w p sid t = do
  stat_w 8
  act (tx Kind.jdn_t)
  send (some p) (Message.jdn sid jnc_invalid_states jnm_invalid_states)
jn_at ws_dc_jt w p sid t = fault
jn_at ws_dc_jni w p sid t = fault
jn_at _ w p sid t = jn_again w p sid t

unfoldable pub jn_info : AndWorld → Peer → Uuid → Time → M Slot (Unit {0})
unfolding jn_at
jn_info w p sid t = do act (rx Kind.jn_t); info ← load; jn_at info.state w p sid t

-- The head of JOK; true if the answer is taken.
jok_refused : AndWorld → Peer → Uuid → M Slot Bool
jok_refused w p sid = do
  stat_w 12
  act (tx Kind.rst_t)
  send (some p) (Message.rst w.lsid sid "JOK::not WS_JT")
  pure false

jok_at : WorldState → AndWorld → Peer → Uuid → Time → String → M Slot Bool
unfolding jok_refused
jok_at ws_jt w p sid t world_url = do
  stat_w 13
  modify (λ i. record i { peer = some p; peer_session_id = sid; time_stamp = t })
  raise (join_success w.lsid world_url)
  raise (session_request w.lsid (session p sid))
  set_state ws_rmem
  modify (λ i. record i { sjnp = true })
  pure true
jok_at _ w p sid t world_url = jok_refused w p sid

unfoldable pub jok_info : AndWorld → Peer → Uuid → Time → String → M Slot Bool
unfolding jok_at
jok_info w p sid t world_url = do
  act (rx Kind.jok_t)
  if w.join_hash == p.id_hash
      then (do info ← load; jok_at info.state w p sid t world_url)
      else jok_refused w p sid

jdn_at : WorldState → AndWorld → ℕ → String → M Slot (Unit {0})
jdn_at ws_jt w code message = do stat_w 16; raise (join_fail w.lsid message code); clear
jdn_at _ w code message = stat_w 15

unfoldable pub jdn_info : AndWorld → Peer → ℕ → String → M Slot (Unit {0})
unfolding jdn_at
jdn_info w p code message = do
  act (rx Kind.jdn_t)
  if w.join_hash == p.id_hash then (do info ← load; jdn_at info.state w code message) else stat_w 15

-- JNI_MEMS, for a peer that has an entry. `m` is the session of the member, `t` its time.
jni_renew : AndWorld → Uuid → Time → M Slot Bool
jni_renew w m t = do
  updated ← try_update_session_id w m t
  when updated (do set_state ws_jni; request_info w)
  pure updated

jni_at : WorldState → AndWorld → Uuid → Time → AndPeerSessionState → M Slot (Unit {0})
unfolding jni_renew
jni_at ws_dc_jt w m t i = fault
jni_at ws_jt w m t i = fault
jni_at ws_dc_jni w m t i = do
  stat_w 21
  when (ltb i.time_stamp t)
      (modify (λ j. record j { peer_session_id = m; time_stamp = t; state = ws_dc_jni }))
jni_at ws_cc w m t i = do
  stat_w 22
  modify (λ j. record j { peer_session_id = m; time_stamp = t; state = ws_jni })
  request_info w
jni_at ws_jn w m t i = do stat_w 23; updated ← jni_renew w m t; skip
jni_at ws_rmem_njni w m t i = do
  stat_w 24
  updated ← try_update_session_id w m t
  if updated then (do stat_w 25; set_state ws_jni; request_info w) else (do
    info ← load
    when (info.peer_session_id == m) (do stat_w 26; set_state ws_rmem; request_info w))
jni_at _ w m t i = do
  updated ← try_update_session_id w m t
  if updated then (do stat_w 27; set_state ws_jni; request_info w) else stat_w 28

unfoldable pub jni_mems_info : AndWorld → Uuid → Time → M Slot (Unit {0})
unfolding jni_at
jni_mems_info w m t = do info ← load; jni_at info.state w m t info

-- MEM
mem_renew : AndWorld → Uuid → Time → ℕ → M Slot (Unit {0}) → M Slot (Unit {0})
mem_renew w sid t branch otherwise = do
  updated ← try_update_session_id w sid t
  if updated then (do stat_w branch; set_state ws_rmem_njni) else otherwise

mem_at : WorldState → AndWorld → Peer → Uuid → Time → M Slot (Unit {0})
unfolding mem_renew
mem_at ws_dc_jt w p sid t = fault
mem_at ws_dc_jni w p sid t = fault
mem_at ws_cc w p sid t = do stat_w 29; adopt p sid t ws_rmem_njni
mem_at ws_jt w p sid t = do stat_w 30; clear_states w "received MEM from WS_JT"
mem_at ws_jni w p sid t = mem_renew w sid t 33 (do
  info ← load
  when (info.peer_session_id == sid) (do stat_w 34; set_state ws_rmem)
  stat_w 35)
mem_at ws_tmem w p sid t = do
  stat_w 36
  mem_renew w sid t 37 (do
    info ← load
    when (info.peer_session_id == sid)
        (do stat_w 38; set_state ws_mem; raise (session_ready w.lsid (session_of info)))
    stat_w 39)
mem_at _ w p sid t = mem_renew w sid t 31 (stat_w 32)

unfoldable pub mem_info : AndWorld → Peer → Uuid → Time → M Slot (Unit {0})
unfolding mem_at
mem_info w p sid t = do act (rx Kind.mem_t); info ← load; mem_at info.state w p sid t

-- SOA and SOD differ in the event and in three branch counters. Both name SOA in the reset.
object_at : WorldState → NeighborEvent → ℕ → ℕ → M Slot (Unit {0})
object_at ws_mem e member other = do stat_w member; raise e
object_at _ e member other = stat_w other

object_mismatch : AndWorld → Peer → Uuid → ℕ → M Slot (Unit {0})
object_mismatch w p sid branch = do
  stat_w branch
  act (tx Kind.rst_t)
  send (some p) (Message.rst w.lsid sid "SOA::sessionID mismatch")

unfoldable pub soa_info : AndWorld → Peer → Uuid → List ObjectInfo → M Slot (Unit {0})
unfolding object_at object_mismatch
soa_info w p sid objects = do
  act (rx Kind.soa_t)
  info ← load
  if info.peer_session_id == sid
      then object_at info.state (object_append w.lsid (session p sid) objects) 49 50
      else object_mismatch w p sid 48

unfoldable pub sod_info : AndWorld → Peer → Uuid → List Uuid → M Slot (Unit {0})
unfolding object_at object_mismatch
sod_info w p sid object_ids = do
  act (rx Kind.sod_t)
  info ← load
  if info.peer_session_id == sid
      then object_at info.state (object_delete w.lsid (session p sid) object_ids) 52 53
      else object_mismatch w p sid 51

unfoldable pub rst_info : AndWorld → M Slot (Unit {0})
rst_info w = do act (rx Kind.rst_t); info ← load; p ← deref info.peer; clear_states w "RST received"

-- AcceptSession. `visited` is what `range w.peers` yields, in the order of the visit.
unfoldable pub invite_one :
    WorldState
    → AndWorld
    → AndPeerSessionState
    → AndPeerSessionState
    → M Slot (List AndPeerSessionWithTimeStamp)
invite_one ws_mem w info q = do
  stat_w 60
  act (tx Kind.jni_t)
  send q.peer (Message.jni w.lsid q.peer_session_id (stamped_session_of info))
  pure (stamped_session_of q ∷ [])
invite_one _ w info q = do stat_w 59; pure []

unfoldable pub invite :
    AndWorld
    → AndPeerSessionState
    → List AndPeerSessionState
    → M Slot (List AndPeerSessionWithTimeStamp)
unfolding invite_one
invite w info [] = pure []
invite w info (q ∷ visited) = do
  found ← invite_one q.state w info q
  fmap (λ rest. found ++ rest) (invite w info visited)

unfoldable pub accept_jn :
    AndWorld → List AndPeerSessionState → AndPeerSessionState → M Slot (Unit {0})
unfolding invite
accept_jn w visited info = do
  members ← invite w info visited
  act (tx Kind.jok_t)
  send info.peer (Message.jok w.lsid info.peer_session_id w.timestamp w.wurl members)
  set_state ws_tmem

send_mem : AndWorld → AndPeerSessionState → M Slot (Unit {0})
send_mem w info = do
  act (tx Kind.mem_t)
  send info.peer (Message.mem w.lsid info.peer_session_id w.timestamp)

accept_at :
    WorldState
    → AndWorld
    → List AndPeerSessionState
    → Uuid
    → AndPeerSessionState
    → M Slot (Unit {0})
unfolding send_mem
accept_at ws_dc_jt w visited sid info = fault
accept_at ws_dc_jni w visited sid info = stat_w 55
accept_at ws_cc w visited sid info = stat_w 56
accept_at ws_jt w visited sid info = fault
accept_at ws_jn w visited sid info = do
  stat_w 57
  if info.peer_session_id == sid then accept_jn w visited info else stat_w 58
accept_at ws_rmem_njni w visited sid info = stat_w 61
accept_at ws_jni w visited sid info = do
  stat_w 62
  if info.peer_session_id == sid
      then (do stat_w 64; send_mem w info; set_state ws_tmem)
      else stat_w 63
accept_at ws_rmem w visited sid info = do
  stat_w 65
  if info.peer_session_id == sid
      then (do
        stat_w 67
        send_mem w info
        raise (session_ready w.lsid (session_of info))
        set_state ws_mem)
      else stat_w 66
accept_at ws_tmem w visited sid info = stat_w 68
accept_at ws_mem w visited sid info = stat_w 69

unfoldable pub accept_session_info : AndWorld → List AndPeerSessionState → Uuid → M Slot (Unit {0})
unfolding accept_at
accept_session_info w visited sid none = ret tt none (w_branch 54 ∷ [])
accept_session_info w visited sid (some i) = accept_at i.state w visited sid i (some i)

unfoldable pub decline_session_info : AndWorld → Uuid → M Slot (Unit {0})
decline_session_info w sid none = ret tt none (w_branch 71 ∷ [])
decline_session_info w sid (some i) =
    (do
      when (i.peer_session_id == sid)
          (do stat_w 72; clear_states w "application-DeclineSession called")
      stat_w 73)
      (some i)

-- RemovePeer
unfoldable pub remove_peer_info : AndWorld → M Slot (Unit {0})
remove_peer_info w = do clear_states w ""; remove
