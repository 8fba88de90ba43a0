-- ===== src/Host/Examples.antt =====
-- The theorems on the host, at concrete worlds and messages.
use abyss_core.Prelude.{
  nat_eq, ◌≢◌, List, [], ◌∷◌, none, some, ◌≡◌, refl, ne_of_test, put, string_eq,
}
use abyss_core.Interfaces.{Uuid, Message}
use abyss_core.And.Effect.{ret, Action, b_branch}
use abyss_core.And.Monitor.{member_of}
use abyss_core.And.World.{new_world_open, at_peer, jn, mem, visit}
use abyss_core.And.Info.{jn_info, mem_info, accept_session_info, invite, invite_one, accept_jn}
use abyss_core.And.Members.{accept_session}
use abyss_core.And.State.{AndWorld, new_and_peer_session_state}
use abyss_core.And.Clear.{try_update_session_id}
use abyss_core.And.Call.{Call, call}
use abyss_core.And.Call.History.{opened, called, Reached-IsWorld}
use abyss_core.And.Calm.Calls.{events}
use abyss_core.And.Examples.{
  bob, world_0, acts_0, world_1, acts_1, world_2, acts_2, world_3, acts_3, bob_jn, accept_bob,
  bob_mem, bob_mem-Reached,
}
use abyss_core.Ahmp.{AhmpMessage, unix_milli, milli_of}
use abyss_core.Ahmp.Build.{build_jn}
use abyss_core.Ahmp.Listen.{raw_jn, listen_ahmp, frames}
use abyss_core.Ahmp.Examples.{cbor, cbor-IsLossless, parse, try_parse, print}
use abyss_core.And.Service.{And, new_and}
use abyss_core.Host.Paths.{
  SimplePathResolver, path_to_session_id, path_calls, path_calls-keep, try_set, delete,
}
use abyss_core.Host.Serving.{serve_message, serve_messages}
use abyss_core.Host.Arriving.{
  RefusesWith, addressee, refusal, refusal_at, serve_message-Refuses, sent_jn-call,
}
use abyss_core.Host.{AbyssHost, event_loop, enqueue}
use abyss_core.Host.Opened.{Follows}
use abyss_core.Host.Histories.{event_loop-Follows}

abbrev waiting_host : AbyssHost
waiting_host = record { worlds = λ k. none; join_queue = λ k. none; active_cnt = λ k. 2 }

event_loop-Follows_example :
    Follows 1 waiting_host.active_cnt
      (λ k. member_of (world_3.peers k))
      (event_loop (events acts_3) (enqueue 1 9 waiting_host))
unfolding new_world_open call jn mem at_peer put jn_info mem_info try_update_session_id
    new_and_peer_session_state accept_session accept_session_info invite invite_one accept_jn visit
event_loop-Follows_example =
    event_loop-Follows 1 world_3 acts_3
      (called world_2 acts_2 _ bob_mem
        (called world_1 acts_1 _ accept_bob
          (called world_0 acts_0 _ bob_jn
            (opened "alice" 1 "home" (bob ∷ []) 1000 (ne_of_test "bob" "alice" refl, tt) refl) refl
            refl refl)
          refl refl refl)
        refl refl refl)
      waiting_host 9 refl

-- A host without worlds, and one whose paths lead to world 1.
abbrev no_paths : SimplePathResolver
no_paths = record { path_map = λ k. none }

abbrev paths : SimplePathResolver
paths = record { path_map = put "/room" (some 1) (λ k. none) }

abbrev asks : AhmpMessage
asks = AhmpMessage.jn (record { sender_session_id = 2; text = "/attic"; time_stamp = 5 })

serve_message-Refuses_example :
    RefusesWith
      (new_and "alice")
      ((some bob, Message.jdn 2 404 "Not Found") ∷ [])
      (serve_message [] no_paths bob asks (new_and "alice"))
unfolding refusal refusal_at addressee
serve_message-Refuses_example = serve_message-Refuses [] no_paths bob (new_and "alice") asks tt tt

abbrev alice : And
alice = record (new_and "alice") { worlds = put 1 (some world_3) (λ k. none) }

sent_jn-call_example :
    (b : And) × (v : AndWorld) × (acts : List Action) × (call
        (Call.jn bob 2 (unix_milli (milli_of 7000000)))
        world_3
      ≡ ret tt v acts)
    × (serve_messages [] paths bob
          (listen_ahmp cbor parse try_parse
            (frames cbor (raw_jn (build_jn print 2 "/room" 7000000) ∷ [])))
          alice
        ≡ ret tt b (b_branch 15 ∷ acts))
    × (b.worlds 1 ≡ some v)
    × (b.peers ≡ alice.peers)
    × ((other : Uuid) → 1 ≢ other → b.worlds other ≡ alice.worlds other)
unfolding put path_to_session_id new_world_open call jn mem at_peer jn_info mem_info
    try_update_session_id new_and_peer_session_state accept_session accept_session_info invite
    invite_one accept_jn visit
sent_jn-call_example =
    sent_jn-call cbor cbor-IsLossless parse try_parse print [] paths bob alice world_3 1 2 "/room"
      7000000 refl refl refl (Reached-IsWorld world_3 acts_3 bob_mem-Reached) refl

path_calls-keep_example :
    path_to_session_id "/room" "bob" (path_calls (try_set "/room" 4 ∷ delete "/attic" ∷ []) paths)
    ≡ some 1
unfolding put path_to_session_id
path_calls-keep_example =
    path_calls-keep "/room" "bob" 1 (try_set "/room" 4 ∷ delete "/attic" ∷ []) paths
      (ne_of_test "/attic" "/room" refl, tt) refl
