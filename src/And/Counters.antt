-- ===== src/And/Counters.antt =====
-- and/and_diag.go: the counters of an ANDStatistics, as numbers of actions.
use abyss_core.Prelude.{
  ℕ, List, [], ◌∷◌, Option, none, some, ◌≡◌, ◌+◌, arith, ◌==◌, nat_eq, if◌then◌else◌, suc,
}
use abyss_core.And.Effect.{Action, raised, sent, tx, rx, w_branch, b_branch, Kind}
use abyss_core.And.State.{AndWorld}
use abyss_core.And.Monitor.{replay, count_step, kind_of, kind_code}
use abyss_core.And.Call.History.{Reached, Reached-counted}

-- The TX counter of a message type.
unfoldable pub tx_count : Kind → List Action → ℕ
tx_count k [] = 0
tx_count k (tx j ∷ acts) =
    if kind_code j == kind_code k then suc (tx_count k acts) else tx_count k acts
tx_count k (_ ∷ acts) = tx_count k acts

-- The messages of that type that were handed to a peer.
unfoldable pub sent_count : Kind → List Action → ℕ
sent_count k [] = 0
sent_count k (sent p m ∷ acts) =
    if kind_code (kind_of m) == kind_code k then suc (sent_count k acts) else sent_count k acts
sent_count k (_ ∷ acts) = sent_count k acts

-- A type that was counted and is not sent yet.
abbrev pending : Option ℕ → Kind → ℕ
pending none k = 0
pending (some c) k = if c == kind_code k then 1 else 0

balance :
    (k : Kind) (q : Option ℕ) (acts : List Action)
    → replay count_step q acts ≡ some none
    → pending q k + tx_count k acts ≡ sent_count k acts
unfolding tx_count sent_count
balance k none [] h = ground arith
balance k (some c) [] h = ground arith
balance k none (raised e ∷ acts) h = ground (arith, balance k none acts)
balance k none (sent p m ∷ acts) h = ground arith
balance k none (tx j ∷ acts) h = ground (arith, balance k (some (kind_code j)) acts h)
balance k none (rx j ∷ acts) h = ground (arith, balance k none acts)
balance k none (w_branch i ∷ acts) h = ground (arith, balance k none acts)
balance k none (b_branch i ∷ acts) h = ground (arith, balance k none acts)
balance k (some c) (raised e ∷ acts) h = ground arith
balance k (some c) (sent p m ∷ acts) h = ground (arith, balance k none acts)
balance k (some c) (tx j ∷ acts) h = ground arith
balance k (some c) (rx j ∷ acts) h = ground arith
balance k (some c) (w_branch i ∷ acts) h = ground arith
balance k (some c) (b_branch i ∷ acts) h = ground arith

-- In every history of calls for which the host is ready, each TX counter is the number of
-- messages of its type that were handed to a peer's TrySend.
pub Reached-tx_count :
    (w : AndWorld) (acts : List Action) (k : Kind)
    → Reached w acts
    → tx_count k acts ≡ sent_count k acts
Reached-tx_count w acts k reached =
    ground (arith, balance k none acts (Reached-counted w acts reached))
