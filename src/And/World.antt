-- ===== src/And/World.antt =====
-- and/world.go: `AndWorld` and its handlers. A handler that works on one entry of `w.peers` is its
-- part of And/Info at the sender's key. `range w.peers` visits the keys in an order that Go leaves
-- open: `order` is that order, an argument of the handler.
use abyss_core.Prelude.{
  ℕ, String, Bool, List, [], ◌∷◌, none, some, ◌==◌, nat_eq, string_eq, if◌then◌else◌, Mapping, put,
}
use abyss_core.Interfaces.{
  Uuid, uuid_nil, Time, zero_time, Peer, Aurl, AndFullPeerSessionIdentity, Message,
}
use abyss_core.Interfaces.NeighborEvent.{
  join_success, timer_request, connect_request, peer_register,
}
use abyss_core.And.Effect.{
  M, ret, panicked, Outcome, ◌>>=◌, ◌>>◌, skip, act, raise, send, stat_w, Kind, tx, rx,
}
use abyss_core.And.State.{
  ws_dc_jt, ws_dc_jni, ws_cc, ws_jt, AndPeerSessionState, new_and_peer_session_state, AndWorld,
  Slot,
}
use abyss_core.And.Clear.{is_proper_member_or_reset}
use abyss_core.And.Info.{known_peer_connected, jn_info, jok_info, jdn_info, jni_mems_info, mem_info}

-- The rest of a call on one entry, in the world that holds it.
abbrev pub put_back : {A : Type 0} → AndWorld → String → Outcome Slot A → Outcome AndWorld A
put_back w k panicked = panicked
put_back w k (ret a slot acts) = ret a (record w { peers = put k slot w.peers }) acts

unfoldable pub at_peer : {A : Type 0} → String → (AndWorld → M Slot A) → M AndWorld A
at_peer k f w = put_back w k (f w (w.peers k))

-- The entries that a `range` over the keys `order` yields.
unfoldable pub visit : Mapping String AndPeerSessionState → List String → List AndPeerSessionState
visit m [] = []
visit m (k ∷ order) = let rest = visit m order in elim (m k) [ none ↦ rest | some i ↦ i ∷ rest ]

-- NewWorldOpen and NewWorldJoin: the entries of the peers that are connected.
unfoldable pub enter : Peer → AndWorld → M Slot (Unit {0})
unfolding new_and_peer_session_state
enter p w s = ret tt (some (new_and_peer_session_state (some p) uuid_nil zero_time ws_cc)) []

unfoldable pub connect_members : ℕ → List Peer → M AndWorld (Unit {0})
unfolding at_peer enter
connect_members branch [] = skip
connect_members branch (p ∷ members) = do
  stat_w branch
  at_peer p.id_hash (enter p)
  connect_members branch members

unfoldable pub empty_world : String → Uuid → Time → String → String → String → AndWorld
empty_world local lsid now join_hash join_path wurl = record {
  local = local;
  lsid = lsid;
  timestamp = now;
  join_hash = join_hash;
  join_path = join_path;
  wurl = wurl;
  peers = λ k. none;
}

unfoldable pub new_world_open :
    String → Uuid → String → List Peer → Time → Outcome AndWorld (Unit {0})
unfolding empty_world connect_members
new_world_open local lsid wurl members now =
    (do connect_members 0 members; raise (join_success lsid wurl); raise (timer_request lsid 500))
      (empty_world local lsid now "" "" wurl)

unfoldable pub join_target : Uuid → Aurl → Time → M Slot (Unit {0})
unfolding new_and_peer_session_state
join_target lsid target now none =
    (do stat_w 3; raise (connect_request target))
      (some (new_and_peer_session_state none uuid_nil zero_time ws_dc_jt))
join_target lsid target now (some i) =
    (do stat_w 2; act (tx Kind.jn_t); send i.peer (Message.jn lsid target.path now))
      (some (record i { state = ws_jt }))

unfoldable pub new_world_join :
    String → Uuid → Aurl → List Peer → Time → Outcome AndWorld (Unit {0})
unfolding empty_world connect_members at_peer join_target
new_world_join local lsid target members now =
    (do connect_members 1 members; at_peer target.hash (λ w. join_target lsid target now))
      (empty_world local lsid now target.hash target.path "")

unfoldable pub peer_connected_info : Peer → AndWorld → M Slot (Unit {0})
unfolding new_and_peer_session_state
peer_connected_info p w none =
    ret tt (some (new_and_peer_session_state (some p) uuid_nil zero_time ws_cc)) []
peer_connected_info p w (some i) = known_peer_connected w p (some i)

unfoldable pub peer_connected : Peer → M AndWorld (Unit {0})
unfolding at_peer peer_connected_info
peer_connected p = at_peer p.id_hash (peer_connected_info p)

unfoldable pub jn : Peer → Uuid → Time → M AndWorld (Unit {0})
unfolding at_peer
jn p sid t = at_peer p.id_hash (λ w. jn_info w p sid t)

-- JNI_MEMS
unfoldable pub jni_mems_slot : AndFullPeerSessionIdentity → AndWorld → M Slot (Unit {0})
unfolding new_and_peer_session_state
jni_mems_slot m w none =
    (do
      stat_w 20
      raise (
          peer_register (record {
            root_cert_der = m.root_certificate_der;
            handshake_key_cert_der = m.handshake_key_certificate_der;
          }))
      raise (connect_request m.aurl))
      (some (new_and_peer_session_state none m.session_id m.time_stamp ws_dc_jni))
jni_mems_slot m w (some i) = jni_mems_info w m.session_id m.time_stamp (some i)

unfoldable pub jni_mems : AndFullPeerSessionIdentity → M AndWorld (Unit {0})
unfolding at_peer jni_mems_slot
jni_mems m w =
    (if m.aurl.hash == w.local then stat_w 19 else at_peer m.aurl.hash (jni_mems_slot m)) w

unfoldable pub jni_mems_all : List AndFullPeerSessionIdentity → M AndWorld (Unit {0})
jni_mems_all [] = skip
jni_mems_all (m ∷ ms) = do stat_w 14; jni_mems m; jni_mems_all ms

unfoldable pub jok :
    Peer → Uuid → Time → String → List AndFullPeerSessionIdentity → M AndWorld (Unit {0})
unfolding at_peer jni_mems_all
jok p sid t world_url member_infos = do
  joined ← at_peer p.id_hash (λ w. jok_info w p sid t world_url)
  if joined then jni_mems_all member_infos else skip

unfoldable pub jdn : Peer → ℕ → String → M AndWorld (Unit {0})
unfolding at_peer
jdn p code message = at_peer p.id_hash (λ w. jdn_info w p code message)

abbrev pub proper : Kind → Uuid → AndWorld → M Slot Bool
proper k sid w = do act (rx k); is_proper_member_or_reset w sid

unfoldable pub jni : Peer → Uuid → AndFullPeerSessionIdentity → M AndWorld (Unit {0})
unfolding at_peer
jni p sid member_info = do
  member ← at_peer p.id_hash (proper Kind.jni_t sid)
  if member then (do stat_w 18; jni_mems member_info) else stat_w 17

unfoldable pub mem : Peer → Uuid → Time → M AndWorld (Unit {0})
unfolding at_peer
mem p sid t = at_peer p.id_hash (λ w. mem_info w p sid t)
