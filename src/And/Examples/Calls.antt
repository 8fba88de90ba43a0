-- ===== src/And/Examples/Calls.antt =====
-- The theorems on single calls, at the world of And/Examples and at entries of it.
use abyss_core.Prelude.{
  ℕ, List, [], ◌∷◌, ◌++◌, none, some, ◌≡◌, refl, ◌<◌, ◌≤◌, ◌+◌, ◌*◌, put, put_cases, string_eq,
  nat_eq, ne_of_test, map, true, false, ◌≢◌,
}
use abyss_core.Interfaces.{Uuid, zero_time, AndPeerSessionIdentity}
use abyss_core.Interfaces.NeighborEvent.{timer_request, world_leave}
use abyss_core.And.Effect.{panicked, ret, Action, raised, b_branch, w_branch}
use abyss_core.And.State.{
  AndWorld, AndPeerSessionState, WorldState, ws_dc_jni, ws_dc_jt, ws_jn, ws_rmem_njni, ws_tmem,
  ws_mem, new_and_peer_session_state,
}
use abyss_core.And.Clear.{try_update_session_id}
use abyss_core.And.Info.{jn_info, mem_info}
use abyss_core.And.Monitor.{replay, member_of}
use abyss_core.And.World.{peer_connected, peer_connected_info, new_world_open, at_peer, visit, jn}
use abyss_core.And.Members.{accept_session, timer_expire, close, crr}
use abyss_core.And.Run.{IsWorld, member_at}
use abyss_core.And.Ends.Loops.{member_count}
use abyss_core.And.Call.{run, Call, call}
use abyss_core.And.Call.History.{Reached-IsWorld}
use abyss_core.And.Closing.{occurs, close-told, close_quiet, IsQuiet}
use abyss_core.And.Sessions.{Renews, mem_info-Renews, crr_panics}
use abyss_core.And.Rounds.{
  sends, members, introduction, answer_of, accept_session-sends, timer_expire-bounds,
}
use abyss_core.And.Announcing.{announced, round, timer_expire-sends}
use abyss_core.And.Keeping.Connected.{run-IsLive}
use abyss_core.And.Ends.{IsLive}
use abyss_core.And.Service.{And, new_and, request, Request, close_world}
use abyss_core.And.Service.Isolation.{request-call, close_world-told}
use abyss_core.And.Examples.{
  state_of, bob_jn, bob, no_entries, with_entry, world_1, acts_1, bob_jn-Reached, world_3, acts_3,
  bob_mem-Reached,
}

joined : IsWorld world_3
joined = Reached-IsWorld world_3 acts_3 bob_mem-Reached

close-told_example :
    (acts : List Action) × (close ("bob" ∷ []) world_3
      ≡ ret tt world_3 (acts ++ w_branch 81 ∷ raised (world_leave world_3.lsid) ∷ []))
    × (replay (member_at "bob") (member_of (world_3.peers "bob")) acts ≡ some none)
unfolding occurs
close-told_example = close-told world_3 "bob" ("bob" ∷ []) joined refl

-- An entry of bob in a state.
abbrev bob_in : WorldState → AndPeerSessionState
bob_in s = record {
  peer = some bob;
  peer_session_id = 7;
  time_stamp = 50;
  state = s;
  sjnp = true;
  sjnc = 2;
}

mem_info-Renews_example :
    Renews ws_rmem_njni (bob_in ws_mem) 8 60 (mem_info no_entries bob 8 60 (some (bob_in ws_mem)))
mem_info-Renews_example = mem_info-Renews "bob" no_entries bob 8 60 (bob_in ws_mem) refl refl

-- Carol waits for a connection, under session 9.
abbrev carol_in : WorldState → AndPeerSessionState
carol_in s = record {
  peer = none;
  peer_session_id = 9;
  time_stamp = 50;
  state = s;
  sjnp = false;
  sjnc = 0;
}

abbrev crowded : AndWorld
crowded = with_entry "carol" (carol_in ws_dc_jni) (with_entry "bob" (bob_in ws_mem) no_entries)

abbrev carol_asked : AndPeerSessionIdentity
carol_asked = record { peer_hash = "carol"; session_id = 9 }

crr_panics_example : crr bob 7 (carol_asked ∷ []) crowded ≡ panicked
unfolding put
crr_panics_example =
    crr_panics bob 7 carol_asked [] crowded (bob_in ws_mem) (carol_in ws_dc_jni) refl refl refl
      (ne_of_test "bob" "carol" refl) refl refl refl refl refl

abbrev joining : AndWorld
joining = with_entry "carol" (carol_in ws_dc_jt) no_entries

close_quiet_example :
    close ("carol" ∷ []) joining ≡ ret tt joining (w_branch 81 ∷ raised (world_leave 1) ∷ [])
close_quiet_example =
    close_quiet joining ("carol" ∷ [])
      (λ k. put_cases IsQuiet "carol" k (some (carol_in ws_dc_jt)) no_entries.peers refl tt)

abbrev bob_waits : AndPeerSessionState
bob_waits = record {
  peer = some bob;
  peer_session_id = 7;
  time_stamp = zero_time + 5;
  state = ws_jn;
  sjnp = false;
  sjnc = 0;
}

accept_session-sends_example :
    (v : AndWorld) × (acts : List Action) × (accept_session ("bob" ∷ []) bob 7 world_1
      ≡ ret tt v acts)
    × (sends acts
        ≡ map (introduction world_1 bob_waits) (members (visit world_1.peers ("bob" ∷ [])))
          ++ answer_of world_1 bob_waits (members (visit world_1.peers ("bob" ∷ []))) ∷ [])
    × (v.peers "bob" ≡ some (record bob_waits { state = ws_tmem }))
unfolding new_world_open call jn at_peer put jn_info try_update_session_id
    new_and_peer_session_state
accept_session-sends_example =
    accept_session-sends ("bob" ∷ []) bob 7 world_1 bob_waits
      (Reached-IsWorld world_1 acts_1 bob_jn-Reached) refl refl refl

timer_expire-bounds_example :
    (v : AndWorld) × (acts : List Action) × (n : ℕ) × (timer_expire
        (λ m. 0)
        2000
        ("bob" ∷ [])
        ("bob" ∷ [])
        world_3
      ≡ ret tt v (acts ++ raised (timer_request world_3.lsid n) ∷ []))
    × (300 ≤ n)
    × (n < 300 + 300 * (member_count (visit v.peers ("bob" ∷ [])) + 1))
timer_expire-bounds_example =
    timer_expire-bounds (λ m. 0) 2000 ("bob" ∷ []) ("bob" ∷ []) world_3 joined (λ m below. below)

timer_expire-sends_example :
    (v : AndWorld) × (acts : List Action) × (timer_expire
        (λ m. 0)
        (zero_time + 2000000000)
        ("bob" ∷ [])
        ("bob" ∷ [])
        world_3
      ≡ ret tt v acts)
    × (sends acts
        ≡ round world_3.lsid
            (announced (zero_time + 2000000000) (visit world_3.peers ("bob" ∷ [])))
            (visit v.peers ("bob" ∷ [])))
unfolding occurs
timer_expire-sends_example =
    timer_expire-sends (λ m. 0) (zero_time + 2000000000) ("bob" ∷ []) ("bob" ∷ []) world_3 joined
      (refl, tt)

run-IsLive_example :
    IsLive
      ((state_of (run (Call.peer_connected bob ∷ bob_jn ∷ []) no_entries) no_entries).peers "bob")
unfolding run call peer_connected peer_connected_info new_and_peer_session_state jn at_peer put
    jn_info try_update_session_id
run-IsLive_example = run-IsLive bob (bob_jn ∷ []) no_entries _ _ (tt, tt) refl

abbrev alice : And
alice = record (new_and "alice") { worlds = put 1 (some world_3) (λ k. none) }

request-call_example :
    (b : And) × (v : AndWorld) × (acts : List Action) × (call (Call.decline_session bob 7) world_3
      ≡ ret tt v acts)
    × (request 1 (Request.decline_session bob 7) alice ≡ ret tt b (b_branch 9 ∷ acts))
    × (b.worlds 1 ≡ some v)
    × (b.peers ≡ alice.peers)
    × ((other : Uuid) → 1 ≢ other → b.worlds other ≡ alice.worlds other)
unfolding put
request-call_example = request-call 1 (Request.decline_session bob 7) alice world_3 refl joined tt

close_world-told_example :
    (b : And) × (acts : List Action) × (close_world ("bob" ∷ []) 1 alice
      ≡ ret tt b (b_branch 11 ∷ acts ++ w_branch 81 ∷ raised (world_leave world_3.lsid) ∷ []))
    × (replay (member_at "bob") (member_of (world_3.peers "bob")) acts ≡ some none)
    × (b.worlds 1 ≡ none)
    × ((other : Uuid) → 1 ≢ other → b.worlds other ≡ alice.worlds other)
unfolding put occurs
close_world-told_example = close_world-told ("bob" ∷ []) 1 alice world_3 "bob" refl joined refl
