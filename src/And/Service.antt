-- ===== src/And/Service.antt =====
-- and/and.go: `And`, the worlds of a host behind one API. Every method takes the lock first and
-- releases it last, so calls run one after another; each is a function of the state here. All return
-- 0. `range a.worlds` and `range a.peers` visit the keys in an order that is an argument.
pub mod Isolation
use abyss_core.Prelude.{
  ℕ, String, List, [], ◌∷◌, Option, none, some, ◌==◌, nat_eq, string_eq, if◌then◌else◌, Mapping,
  put,
}
use abyss_core.Interfaces.{
  Uuid, uuid_nil, Time, Peer, Aurl, ObjectInfo, AndPeerSessionIdentity, AndFullPeerSessionIdentity,
}
use abyss_core.And.Effect.{M, Outcome, ret, panicked, ◌>>=◌, ◌>>◌, skip, act, b_branch, prepend}
use abyss_core.And.State.{AndWorld}
use abyss_core.And.World
use abyss_core.And.Members

pub record And : Type 0 where
  pub local_hash : String
  pub peers : Mapping String Peer
  pub worlds : Mapping Uuid AndWorld

unfoldable pub new_and : String → And
new_and local_hash = record { local_hash = local_hash; peers = λ k. none; worlds = λ k. none }

-- The rest of a call on one world, in the state that holds it.
abbrev pub put_world : {A : Type 0} → And → Uuid → Outcome AndWorld A → Outcome And A
put_world a lsid panicked = panicked
put_world a lsid (ret x w acts) = ret x (record a { worlds = put lsid (some w) a.worlds }) acts

unfoldable pub world_at : Option AndWorld → Uuid → ℕ → ℕ → M AndWorld (Unit {0}) → M And (Unit {0})
world_at none lsid absent present f = act (b_branch absent)
world_at (some w) lsid absent present f = do act (b_branch present); (λ a. put_world a lsid (f w))

-- `world, ok := a.worlds[local_session_id]`, and the call of the world's method.
unfoldable pub at_world : Uuid → ℕ → ℕ → M AndWorld (Unit {0}) → M And (Unit {0})
unfolding world_at
at_world lsid absent present f a = world_at (a.worlds lsid) lsid absent present f a

-- `for _, world := range a.worlds`
each : Option AndWorld → Uuid → ℕ → M AndWorld (Unit {0}) → M And (Unit {0})
each none lsid branch f = skip
each (some w) lsid branch f = do act (b_branch branch); (λ a. put_world a lsid (f w))

unfoldable pub range_worlds : List Uuid → ℕ → M AndWorld (Unit {0}) → M And (Unit {0})
unfolding each
range_worlds [] branch f = skip
range_worlds (lsid ∷ order) branch f = do
  (λ a. each (a.worlds lsid) lsid branch f a)
  range_worlds order branch f

-- The peers that `range a.peers` yields.
unfoldable pub visit_peers : Mapping String Peer → List String → List Peer
visit_peers m [] = []
visit_peers m (k ∷ order) =
    let rest = visit_peers m order in elim (m k) [ none ↦ rest | some p ↦ p ∷ rest ]

set_peer : String → Option Peer → M And (Unit {0})
set_peer k p a = ret tt (record a { peers = put k p a.peers }) []

unfoldable pub api_peer_connected : List Uuid → Peer → M And (Unit {0})
unfolding set_peer range_worlds
api_peer_connected order p = do
  act (b_branch 0)
  set_peer p.id_hash (some p)
  range_worlds order 1 (World.peer_connected p)

unfoldable pub api_peer_close : List Uuid → Peer → M And (Unit {0})
unfolding set_peer range_worlds
api_peer_close order p = do
  act (b_branch 2)
  range_worlds order 3 (Members.remove_peer p)
  set_peer p.id_hash none

unfoldable pub open_world : List String → Uuid → String → Time → M And (Unit {0})
unfolding visit_peers
open_world order lsid world_url now = do
  act (b_branch 4)
  (λ a.
      put_world a lsid
        (World.new_world_open a.local_hash lsid world_url (visit_peers a.peers order) now))

unfoldable pub join_world : List String → Uuid → Aurl → Time → M And (Unit {0})
unfolding visit_peers
join_world order lsid abyss_url now = do
  act (b_branch 5)
  (λ a.
      put_world a lsid
        (World.new_world_join a.local_hash lsid abyss_url (visit_peers a.peers order) now))

-- CloseWorld: the world is closed and leaves the map.
unfoldable pub closed_at : Option AndWorld → List String → Uuid → M And (Unit {0})
closed_at none order lsid = act (b_branch 10)
closed_at (some w) order lsid = do
  act (b_branch 11)
  (λ a. put_world a lsid (Members.close order w))
  (λ a. ret tt (record a { worlds = put lsid none a.worlds }) [])

unfoldable pub close_world : List String → Uuid → M And (Unit {0})
unfolding closed_at
close_world order lsid a = closed_at (a.worlds lsid) order lsid a

-- The methods that look up one world and call its method.
pub data Request : Type 0 where
  accept_session : List String → Peer → Uuid → Request
  decline_session : Peer → Uuid → Request
  timer_expire : (ℕ → ℕ) → Time → List String → List String → Request
  jn mem : Peer → Uuid → Time → Request
  jok : Peer → Uuid → Time → String → List AndFullPeerSessionIdentity → Request
  jdn : Peer → ℕ → String → Request
  jni : Peer → Uuid → AndFullPeerSessionIdentity → Request
  sjn crr : Peer → Uuid → List AndPeerSessionIdentity → Request
  soa : Peer → Uuid → List ObjectInfo → Request
  sod : Peer → Uuid → List Uuid → Request

unfoldable pub request : Uuid → Request → M And (Unit {0})
unfolding at_world
request lsid (accept_session order p sid) = at_world lsid 6 7 (Members.accept_session order p sid)
request lsid (decline_session p sid) = at_world lsid 8 9 (Members.decline_session p sid)
request lsid (timer_expire draw now first second_order) =
    at_world lsid 12 13 (Members.timer_expire draw now first second_order)
request lsid (jn p sid t) = at_world lsid 14 15 (World.jn p sid t)
request lsid (jok p sid t url ms) = at_world lsid 16 17 (World.jok p sid t url ms)
request lsid (jdn p code message) = at_world lsid 18 19 (World.jdn p code message)
request lsid (jni p sid m) = at_world lsid 20 21 (World.jni p sid m)
request lsid (mem p sid t) = at_world lsid 22 23 (World.mem p sid t)
request lsid (sjn p sid ms) = at_world lsid 24 25 (Members.sjn p sid ms)
request lsid (crr p sid ms) = at_world lsid 26 27 (Members.crr p sid ms)
request lsid (soa p sid objects) = at_world lsid 32 33 (Members.soa p sid objects)
request lsid (sod p sid object_ids) = at_world lsid 34 35 (Members.sod p sid object_ids)

-- RST: the nil session id addresses every world.
unfoldable pub api_rst : List Uuid → Uuid → Peer → M And (Unit {0})
unfolding at_world range_worlds
api_rst order lsid p =
    if lsid == uuid_nil
    then (do act (b_branch 30); range_worlds order 31 (Members.rst p))
    else at_world lsid 28 29 (Members.rst p)
