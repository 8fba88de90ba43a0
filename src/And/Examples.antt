-- ===== src/And/Examples.antt =====
-- A world in which a peer joins, and the theorems at it.
mod Calls
use abyss_core.Prelude.{
  String, ℕ, List, [], ◌∷◌, ◌++◌, Option, none, some, ◌≡◌, refl, ◌<◌, ◌≤◌, ◌+◌, ◌*◌, put, put_cases,
  string_eq, nat_eq, ne_of_test, map, false, suc, ◌≢◌,
}
use abyss_core.Interfaces.{Uuid, uuid_nil, Time, zero_time, Peer, Aurl, AndPeerSessionIdentity}
use abyss_core.Interfaces.NeighborEvent.{timer_request, world_leave}
use abyss_core.And.Effect.{Outcome, panicked, ret, Action, raised, b_branch, w_branch, Kind}
use abyss_core.And.State.{
  AndWorld, AndPeerSessionState, WorldState, ws_dc_jni, ws_dc_jt, ws_cc, ws_jn, ws_rmem_njni,
  ws_jni, ws_tmem, ws_mem, new_and_peer_session_state,
}
use abyss_core.And.Clear.{try_update_session_id}
use abyss_core.And.Info.{
  jn_info, mem_info, jni_mems_info, accept_session_info, invite, invite_one, accept_jn,
}
use abyss_core.And.Monitor.{replay, member_of, IsPlaced}
use abyss_core.And.World.{new_world_open, at_peer, visit, jn, mem}
use abyss_core.And.Members.{accept_session, timer_expire, close, crr}
use abyss_core.And.Run.{IsWorld, member_at}
use abyss_core.And.Ends.Loops.{member_count}
use abyss_core.And.Call.{Call, call}
use abyss_core.And.Call.History.{
  Reached, opened, called, Reached-told, Reached-call, Reached-IsWorld,
}
use abyss_core.And.Counters.{tx_count, sent_count, Reached-tx_count}
use abyss_core.And.Closing.{occurs, close-told, close_quiet, IsQuiet}
use abyss_core.And.Sessions.{
  Renews, mem_info-Renews, jn_info-Renews, jni_mems_info-Renews, crr_panics,
}
use abyss_core.And.Rounds.{
  sends, members, introduction, answer_of, accept_session-sends, timer_expire-bounds,
}
use abyss_core.And.Service.{And, new_and, request, Request, close_world}
use abyss_core.And.Service.Isolation.{request_absent, request-call, close_world-told}

abbrev pub bob_aurl : Aurl
bob_aurl = record { scheme = "abyss"; hash = "bob"; addresses = []; path = "/" }

abbrev pub bob : Peer
bob = record {
  object = 1;
  id_hash = "bob";
  root_certificate_der = [];
  handshake_key_certificate_der = [];
  aurl = bob_aurl;
}

abbrev pub no_entries : AndWorld
no_entries = record {
  local = "alice";
  lsid = 1;
  timestamp = 1000;
  join_hash = "";
  join_path = "";
  wurl = "home";
  peers = λ k. none;
}

abbrev pub with_entry : String → AndPeerSessionState → AndWorld → AndWorld
with_entry k i w = record w { peers = put k (some i) w.peers }

abbrev pub state_of : {S A : Type 0} → Outcome S A → S → S
state_of panicked s = s
state_of (ret a t acts) s = t

abbrev pub acts_of : {S A : Type 0} → Outcome S A → List Action
acts_of panicked = []
acts_of (ret a t acts) = acts

abbrev pub home : Outcome AndWorld (Unit {0})
home = new_world_open "alice" 1 "home" (bob ∷ []) 1000

abbrev pub world_0 : AndWorld
world_0 = state_of home no_entries

abbrev pub acts_0 : List Action
acts_0 = acts_of home

home-Reached : Reached world_0 acts_0
unfolding new_world_open
home-Reached = opened "alice" 1 "home" (bob ∷ []) 1000 (ne_of_test "bob" "alice" refl, tt) refl

abbrev pub bob_jn : Call
bob_jn = Call.jn bob 7 (zero_time + 5)

abbrev pub world_1 : AndWorld
world_1 = state_of (call bob_jn world_0) world_0

abbrev pub acts_1 : List Action
acts_1 = acts_0 ++ acts_of (call bob_jn world_0)

pub bob_jn-Reached : Reached world_1 acts_1
unfolding new_world_open call jn at_peer put jn_info try_update_session_id
    new_and_peer_session_state
bob_jn-Reached = called world_0 acts_0 _ bob_jn home-Reached refl refl refl

abbrev pub accept_bob : Call
accept_bob = Call.accept_session ("bob" ∷ []) bob 7

abbrev pub world_2 : AndWorld
world_2 = state_of (call accept_bob world_1) world_1

abbrev pub acts_2 : List Action
acts_2 = acts_1 ++ acts_of (call accept_bob world_1)

accept_bob-Reached : Reached world_2 acts_2
unfolding new_world_open call jn at_peer put jn_info try_update_session_id
    new_and_peer_session_state accept_session accept_session_info invite invite_one accept_jn visit
accept_bob-Reached = called world_1 acts_1 _ accept_bob bob_jn-Reached refl refl refl

abbrev pub bob_mem : Call
bob_mem = Call.mem bob 7 (zero_time + 5)

abbrev pub world_3 : AndWorld
world_3 = state_of (call bob_mem world_2) world_2

abbrev pub acts_3 : List Action
acts_3 = acts_2 ++ acts_of (call bob_mem world_2)

pub bob_mem-Reached : Reached world_3 acts_3
unfolding new_world_open call jn mem at_peer put jn_info mem_info try_update_session_id
    new_and_peer_session_state accept_session accept_session_info invite invite_one accept_jn visit
bob_mem-Reached = called world_2 acts_2 _ bob_mem accept_bob-Reached refl refl refl

-- Bob has joined with session 7.
bob_joined : member_of (world_3.peers "bob") ≡ some 7
unfolding new_world_open call jn mem at_peer put jn_info mem_info try_update_session_id
    new_and_peer_session_state accept_session accept_session_info invite invite_one accept_jn visit
bob_joined = refl

Reached-told_example : replay (member_at "bob") none acts_3 ≡ some (member_of (world_3.peers "bob"))
Reached-told_example = Reached-told world_3 acts_3 "bob" bob_mem-Reached

Reached-IsWorld_example : IsWorld world_3
Reached-IsWorld_example = Reached-IsWorld world_3 acts_3 bob_mem-Reached

Reached-tx_count_example : tx_count Kind.jok_t acts_3 ≡ sent_count Kind.jok_t acts_3
Reached-tx_count_example = Reached-tx_count world_3 acts_3 Kind.jok_t bob_mem-Reached

Reached-call_example :
    (v : AndWorld) × (now : List Action) × (call bob_jn world_0 ≡ ret tt v now)
    × Reached v (acts_0 ++ now)
unfolding new_world_open at_peer put new_and_peer_session_state
Reached-call_example = Reached-call world_0 acts_0 bob_jn home-Reached refl
