-- ===== src/And/Service/Isolation.antt =====
-- What an API call leaves alone.
use abyss_core.Prelude.{
  ℕ, suc, String, List, [], ◌∷◌, ◌++◌, none, some, ◌≡◌, ◌≢◌, refl, ◌∙◌, put, put-ne, put_self,
  nat_eq,
}
use mathlib.Core.List.{append-nil}
use abyss_core.Interfaces.{Uuid}
use abyss_core.Interfaces.NeighborEvent.{world_leave}
use abyss_core.And.Effect.{ret, Action, b_branch, w_branch, raised}
use abyss_core.And.State.{AndWorld}
use abyss_core.And.Monitor.{replay, member_of}
use abyss_core.And.Run.{IsWorld, member_at}
use abyss_core.And.Call.{Call, call}
use abyss_core.And.Call.Runs.{IsReady, call-Ends}
use abyss_core.And.Call.History.{returns}
use abyss_core.And.Closing.{occurs, close-told}
use abyss_core.And.Service.{
  And, world_at, at_world, closed_at, request, Request, accept_session, decline_session,
  timer_expire, jn, mem, jok, jdn, jni, sjn, crr, soa, sod, close_world,
}

-- The call that a request makes on its world.
abbrev pub call_of : Request → Call
call_of (accept_session order p sid) = Call.accept_session order p sid
call_of (decline_session p sid) = Call.decline_session p sid
call_of (timer_expire draw now first second_order) = Call.timer_expire draw now first second_order
call_of (jn p sid t) = Call.jn p sid t
call_of (mem p sid t) = Call.mem p sid t
call_of (jok p sid t url ms) = Call.jok p sid t url ms
call_of (jdn p code message) = Call.jdn p code message
call_of (jni p sid m) = Call.jni p sid m
call_of (sjn p sid ms) = Call.sjn p sid ms
call_of (crr p sid ms) = Call.crr p sid ms
call_of (soa p sid objects) = Call.soa p sid objects
call_of (sod p sid object_ids) = Call.sod p sid object_ids

-- The branch counters of a request without and with its world.
abbrev pub absent_branch : Request → ℕ
absent_branch (accept_session order p sid) = 6
absent_branch (decline_session p sid) = 8
absent_branch (timer_expire draw now first second_order) = 12
absent_branch (jn p sid t) = 14
absent_branch (jok p sid t url ms) = 16
absent_branch (jdn p code message) = 18
absent_branch (jni p sid m) = 20
absent_branch (mem p sid t) = 22
absent_branch (sjn p sid ms) = 24
absent_branch (crr p sid ms) = 26
absent_branch (soa p sid objects) = 32
absent_branch (sod p sid object_ids) = 34

request-at_world :
    (lsid : Uuid) (r : Request)
    → request lsid r ≡ at_world lsid (absent_branch r) (suc (absent_branch r)) (call (call_of r))
unfolding request call
request-at_world lsid (accept_session order p sid) = refl
request-at_world lsid (decline_session p sid) = refl
request-at_world lsid (timer_expire draw now first second_order) = refl
request-at_world lsid (jn p sid t) = refl
request-at_world lsid (mem p sid t) = refl
request-at_world lsid (jok p sid t url ms) = refl
request-at_world lsid (jdn p code message) = refl
request-at_world lsid (jni p sid m) = refl
request-at_world lsid (sjn p sid ms) = refl
request-at_world lsid (crr p sid ms) = refl
request-at_world lsid (soa p sid objects) = refl
request-at_world lsid (sod p sid object_ids) = refl

-- A request for a session that has no world changes nothing but one branch counter.
pub request_absent :
    (lsid : Uuid) (r : Request) (a : And)
    → a.worlds lsid ≡ none
    → request lsid r a ≡ ret tt a (b_branch (absent_branch r) ∷ [])
unfolding at_world world_at
request_absent lsid r a e = rw (request-at_world lsid r) (rw e refl)

-- A request for a world that is there, well-formed and ready for it, ends. It makes the world's call
-- once, puts the world back under its session, and changes no other world and not the peers.
pub request-call :
    (lsid : Uuid) (r : Request) (a : And) (w : AndWorld)
    → a.worlds lsid ≡ some w
    → IsWorld w
    → IsReady w (call_of r)
    → (b : And) × (v : AndWorld) × (acts : List Action) × (call (call_of r) w ≡ ret tt v acts)
      × (request lsid r a ≡ ret tt b (b_branch (suc (absent_branch r)) ∷ acts))
      × (b.worlds lsid ≡ some v)
      × (b.peers ≡ a.peers)
      × ((other : Uuid) → lsid ≢ other → b.worlds other ≡ a.worlds other)
unfolding at_world world_at
request-call lsid r a w e h ready =
    let (v, acts, f) = returns (call (call_of r) w) (call-Ends (call_of r) w h ready) in
    (
      record a { worlds = put lsid (some v) a.worlds },
      v,
      acts,
      f,
      rw (request-at_world lsid r) (rw e (rw f refl)),
      put_self lsid (some v) a.worlds,
      refl,
      λ other ne. put-ne lsid other (some v) a.worlds ne,
    )

-- CloseWorld of a well-formed world that is there, where the range over its entries visits some hash
-- once, ends with the event WorldLeave, takes the world out of the map and keeps all others; that hash is
-- no member afterwards.
pub close_world-told :
    (order : List String) (lsid : Uuid) (a : And) (w : AndWorld) (k : String)
    → a.worlds lsid ≡ some w
    → IsWorld w
    → occurs k order ≡ 1
    → (b : And) × (acts : List Action) × (close_world order lsid a
        ≡ ret tt b (b_branch 11 ∷ acts ++ w_branch 81 ∷ raised (world_leave w.lsid) ∷ []))
      × (replay (member_at k) (member_of (w.peers k)) acts ≡ some none)
      × (b.worlds lsid ≡ none)
      × ((other : Uuid) → lsid ≢ other → b.worlds other ≡ a.worlds other)
unfolding close_world closed_at
close_world-told order lsid a w k e h n =
    let (acts, f, g) = close-told w k order h n in
    let left = record a { worlds = put lsid none (put lsid (some w) a.worlds) } in
    (
      left,
      acts,
      rw e (rw f (simp append-nil)),
      g,
      put_self lsid none (put lsid (some w) a.worlds),
      λ other ne.
          put-ne lsid other none (put lsid (some w) a.worlds) ne
          ∙ put-ne lsid other (some w) a.worlds ne,
    )
