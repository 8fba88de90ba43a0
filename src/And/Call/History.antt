-- ===== src/And/Call/History.antt =====
-- Histories of a world: calls that follow one another, with all that they did.
use abyss_core.Prelude.{String, List, ◌++◌, ◌≡◌, ◌≢◌, refl, some, none, ap}
use abyss_core.Interfaces.{Uuid, Time, Peer, Aurl}
use abyss_core.And.Effect.{Outcome, panicked, ret, Action}
use abyss_core.And.State.{AndWorld}
use abyss_core.And.Monitor.{replay, count_step, member_of}
use abyss_core.And.World.{empty_world, new_world_open, new_world_join}
use abyss_core.And.Run.{IsWorld, IsRun, IsRun-trans, member_at}
use abyss_core.And.Run.Birth.{AllOther, new_world_open-Begins, new_world_join-Begins}
use abyss_core.And.Ends.{Ends}
use abyss_core.And.Call.{Call, peer_connected, call}
use abyss_core.And.Call.Runs.{IsReady, IsAllowed, call-Runs, call-Ends}

-- A world made by NewWorldOpen or NewWorldJoin, the calls that it was ready for, and all actions. The
-- peers that it begins with and the target of the join are others than the host, which the code does not
-- test.
pub data Reached : AndWorld → List Action → Type 0 where
  opened :
      {w : AndWorld} {acts : List Action} (local : String) (lsid : Uuid) (wurl : String)
      (members : List Peer) (now : Time)
      → AllOther local members
      → new_world_open local lsid wurl members now ≡ ret tt w acts
      → Reached w acts
  joined :
      {w : AndWorld} {acts : List Action} (local : String) (lsid : Uuid) (target : Aurl)
      (members : List Peer) (now : Time)
      → target.hash ≢ local
      → AllOther local members
      → new_world_join local lsid target members now ≡ ret tt w acts
      → Reached w acts
  called :
      {w : AndWorld} {acts : List Action} (v : AndWorld) (before now : List Action) (c : Call)
      → Reached v before
      → IsReady v c
      → call c v ≡ ret tt w now
      → acts ≡ before ++ now
      → Reached w acts

ready-IsAllowed : (w : AndWorld) (c : Call) → IsReady w c → IsAllowed w.local c
ready-IsAllowed w (peer_connected p) r = r.0
ready-IsAllowed w _ r = tt

pub call-IsRun :
    (c : Call) (v w : AndWorld) (acts : List Action)
    → IsWorld v
    → IsReady v c
    → call c v ≡ ret tt w acts
    → IsRun v w acts
call-IsRun c v w acts h r e = rw e at (call-Runs c v h (ready-IsAllowed v c r))

pub new_world_open-IsRun :
    (local : String) (lsid : Uuid) (wurl : String) (members : List Peer) (now : Time) (w : AndWorld)
    (acts : List Action)
    → AllOther local members
    → new_world_open local lsid wurl members now ≡ ret tt w acts
    → IsRun (empty_world local lsid now "" "" wurl) w acts
new_world_open-IsRun local lsid wurl members now w acts o e =
    rw e at (new_world_open-Begins local lsid wurl members now o)

pub new_world_join-IsRun :
    (local : String) (lsid : Uuid) (target : Aurl) (members : List Peer) (now : Time) (w : AndWorld)
    (acts : List Action)
    → target.hash ≢ local
    → AllOther local members
    → new_world_join local lsid target members now ≡ ret tt w acts
    → IsRun (empty_world local lsid now target.hash target.path "") w acts
new_world_join-IsRun local lsid target members now w acts n o e =
    rw e at (new_world_join-Begins local lsid target members now n o)

-- The world that a history began with, empty, and the run from there.
Reached-IsRun :
    (w : AndWorld) (acts : List Action)
    → Reached w acts
    → (u : AndWorld) × ((k : String) → u.peers k ≡ none) × IsRun u w acts
unfolding empty_world
Reached-IsRun w acts (opened local lsid wurl members now o e) =
    (_, λ k. refl, new_world_open-IsRun local lsid wurl members now w acts o e)
Reached-IsRun w acts (joined local lsid target members now n o e) =
    (_, λ k. refl, new_world_join-IsRun local lsid target members now w acts n o e)
Reached-IsRun w acts (called v before now c reached r e split) =
    let (u, empty, p) = Reached-IsRun v before reached in
    (u, empty, rw split (IsRun-trans before now p (call-IsRun c v w now p.world r e)))

-- In every history of a world that begins with others than the host, joins none but another, and gets
-- calls that it is ready for, in particular no PeerConnected of the host itself, each entry has the peer
-- of its own hash, or no peer while it waits for the connection, and no message makes an entry for the
-- host.
pub Reached-IsWorld : (w : AndWorld) (acts : List Action) → Reached w acts → IsWorld w
Reached-IsWorld w acts reached = (Reached-IsRun w acts reached).2.world

-- In every history of calls for which the host is ready, from an opened or a joined world on, the
-- events that a peer's hash has had so far are in order: a peer is announced as ready only while it
-- is not a member, and only the announced session is closed. What the last of them says is the
-- entry's state: the peer is a member with session `sid` exactly when its entry is in WS_MEM with `sid`.
pub Reached-told :
    (w : AndWorld) (acts : List Action) (k : String)
    → Reached w acts
    → replay (member_at k) none acts ≡ some (member_of (w.peers k))
Reached-told w acts k reached =
    let (u, empty, p) = Reached-IsRun w acts reached in rw (← ap member_of (empty k)) (p.told k)

pub returns :
    {S : Type 0} (o : Outcome S (Unit {0}))
    → Ends o
    → (s : S) × (acts : List Action) × (o ≡ ret tt s acts)
returns panicked p = absurd p
returns (ret a s acts) p = (s, acts, refl)

-- A world reached by calls for which the host is ready makes the next such call without a panic, and is
-- then reached again.
pub Reached-call :
    (w : AndWorld) (acts : List Action) (c : Call)
    → Reached w acts
    → IsReady w c
    → (v : AndWorld) × (now : List Action) × (call c w ≡ ret tt v now) × Reached v (acts ++ now)
Reached-call w acts c reached r =
    let (v, now, e) = returns (call c w) (call-Ends c w (Reached-IsWorld w acts reached) r) in
    (v, now, e, called w acts now c reached r e refl)

pub Reached-counted :
    (w : AndWorld) (acts : List Action) → Reached w acts → replay count_step none acts ≡ some none
Reached-counted w acts reached = (Reached-IsRun w acts reached).2.counted
