-- ===== src/And/Keeping/Connected.antt =====
-- Once a peer is connected, its entry is that of a connected peer until the peer is removed.
use abyss_core.Prelude.{String, string_eq, List, [], ◌∷◌, none, some, ◌≡◌, arith, put_self}
use abyss_core.Interfaces.{Peer}
use abyss_core.And.Effect.{Outcome, panicked, ret, prepend, after, Action, M}
use abyss_core.And.State.{AndWorld, Slot}
use abyss_core.And.World
use abyss_core.And.World.{at_peer, put_back, peer_connected_info}
use abyss_core.And.Info.{known_peer_connected}
use abyss_core.And.Ends.{IsLive}
use abyss_core.And.Call.{Call, peer_connected, call, run}
use abyss_core.And.Keeping.Calls.{IsSparing, KeepsAt, call-KeepsAt}

abbrev LiveAt : String → Outcome AndWorld (Unit {0}) → Type 0
LiveAt k panicked = Unit {0}
LiveAt k (ret a v acts) = IsLive (v.peers k)

-- No call of these removes the peer with hash `k`.
abbrev pub AllSparing : String → List Call → Type 0
AllSparing k [] = Unit {0}
AllSparing k (c ∷ calls) = IsSparing k c × AllSparing k calls

prepend-LiveAt :
    (k : String) (xs : List Action) (o : Outcome AndWorld (Unit {0}))
    → LiveAt k o
    → LiveAt k (prepend xs o)
prepend-LiveAt k xs panicked p = tt
prepend-LiveAt k xs (ret a v ys) p = p

after-LiveAt :
    (k : String) (o : Outcome AndWorld (Unit {0})) (f : M AndWorld (Unit {0}))
    → LiveAt k o
    → ((v : AndWorld) → IsLive (v.peers k) → LiveAt k (f v))
    → LiveAt k (after o (λ a. f))
after-LiveAt k panicked f p h = tt
after-LiveAt k (ret a v xs) f p h = prepend-LiveAt k xs (f v) (h v p)

still_live :
    (k : String) (w : AndWorld) (o : Outcome AndWorld (Unit {0}))
    → KeepsAt k w o
    → IsLive (w.peers k)
    → LiveAt k o
still_live k w panicked h live = tt
still_live k w (ret a v acts) h live = h live

run-LiveAt :
    (k : String) (calls : List Call) (w : AndWorld)
    → AllSparing k calls
    → IsLive (w.peers k)
    → LiveAt k (run calls w)
unfolding run
run-LiveAt k [] w h live = live
run-LiveAt k (c ∷ calls) w h live =
    after-LiveAt k (call c w) (run calls) (still_live k w (call c w) (call-KeepsAt k c w h.0) live)
      (λ v live. run-LiveAt k calls v h.1 live)

abbrev BecomesLive : Outcome Slot (Unit {0}) → Type 0
BecomesLive panicked = Unit {0}
BecomesLive (ret a s acts) = IsLive s

info-BecomesLive : (p : Peer) (w : AndWorld) (s : Slot) → BecomesLive (peer_connected_info p w s)
unfolding peer_connected_info known_peer_connected
info-BecomesLive p w none = ground arith
info-BecomesLive p w (some i) = ground arith

put_back-LiveAt :
    (k : String) (w : AndWorld) (o : Outcome Slot (Unit {0}))
    → BecomesLive o
    → LiveAt k (put_back w k o)
put_back-LiveAt k w panicked h = tt
put_back-LiveAt k w (ret a s acts) h = rw (put_self k s w.peers) h

connected-LiveAt : (p : Peer) (w : AndWorld) → LiveAt p.id_hash (call (peer_connected p) w)
unfolding call World.peer_connected at_peer
connected-LiveAt p w =
    put_back-LiveAt p.id_hash w (peer_connected_info p w (w.peers p.id_hash))
      (info-BecomesLive p w (w.peers p.id_hash))

-- After PeerConnected of a peer and any calls that do not remove this peer, if none of them panicked,
-- the world has an entry for the peer, in a state of a connected peer.
pub run-IsLive :
    (p : Peer) (calls : List Call) (w v : AndWorld) (acts : List Action)
    → AllSparing p.id_hash calls
    → run (peer_connected p ∷ calls) w ≡ ret tt v acts
    → IsLive (v.peers p.id_hash)
unfolding run
run-IsLive p calls w v acts h e = rw e at (
    after-LiveAt p.id_hash (call (peer_connected p) w) (run calls) (connected-LiveAt p w)
      (λ u live. run-LiveAt p.id_hash calls u h live))
