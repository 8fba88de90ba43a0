-- ===== src/And/Run/Birth.antt =====
-- The worlds that NewWorldOpen and NewWorldJoin make.
use abyss_core.Prelude.{
  ltb, true, String, List, [], ◌∷◌, none, some, ◌≡◌, refl, ◌≢◌, arith, ℕ, subst, inl, inr, put,
  put_self, put-ne, key_cases, string_eq, ◌∙◌,
}
use abyss_core.Interfaces.{Uuid, uuid_nil, Time, zero_time, Peer, Aurl}
use abyss_core.And.Effect.{Outcome, panicked, ret, prepend, M, after, w_branch, Action}
use abyss_core.And.State.{AndWorld, AndPeerSessionState, Slot, ws_cc, new_and_peer_session_state}
use abyss_core.And.Monitor.{IsPlaced}
use abyss_core.And.Steps.{Steps}
use abyss_core.And.World.{
  put_back, enter, connect_members, empty_world, join_target, new_world_open, new_world_join,
}
use abyss_core.And.Run.Entries.{plain-IsRun, skip-IsRun}
use abyss_core.And.Run.{IsWorld, IsRun, Runs, put_back-Runs, IsRun-trans}

-- A new world has only connected peers without a session.
abbrev pub IsIdle : Slot → Type 0
IsIdle none = Unit {0}
IsIdle (some i) = i.state ≡ ws_cc

abbrev pub IsNew : AndWorld → Type 0
IsNew w = (k : String) → IsIdle (w.peers k)

-- None of the peers is the host itself.
abbrev pub AllOther : String → List Peer → Type 0
AllOther local [] = Unit {0}
AllOther local (p ∷ members) = (p.id_hash ≢ local) × AllOther local members

put-IsNew :
    (w : AndWorld) (k : String) (s : Slot) (j : String)
    → IsNew w
    → IsIdle s
    → IsIdle (put k s w.peers j)
put-IsNew w k s j h p = elim (key_cases k j) [
  | inl e ↦ subst (λ i. IsIdle (put k s w.peers i)) e (rw (put_self k s w.peers) p)
  | inr n ↦ rw (put-ne k j s w.peers n) (h j)
]

abbrev fresh_entry : Peer → AndPeerSessionState
fresh_entry p =
    unfold new_and_peer_session_state in
    new_and_peer_session_state (some p) uuid_nil zero_time ws_cc

enter-Steps : (p : Peer) (w : AndWorld) (s : Slot) → IsIdle s → Steps p.id_hash s (enter p w s)
unfolding enter
enter-Steps p w none h = ground arith
enter-Steps p w (some i) h = ground arith

-- All peers are entered, and the world is as new as before.
abbrev Enters : AndWorld → Outcome AndWorld (Unit {0}) → Type 0
Enters w panicked = ⊥
Enters w (ret a v acts) = IsRun w v acts × IsNew v

prepend-Enters :
    {w v : AndWorld} (xs : List Action) (o : Outcome AndWorld (Unit {0}))
    → IsRun w v xs
    → Enters v o
    → Enters w (prepend xs o)
prepend-Enters xs panicked p q = q
prepend-Enters xs (ret a u ys) p q = (IsRun-trans xs ys p q.0, q.1)

connect-Enters :
    (branch : ℕ) (b : ltb branch 85 ≡ true) (members : List Peer) (w : AndWorld)
    → IsWorld w
    → IsNew w
    → AllOther w.local members
    → Enters w (connect_members branch members w)
unfolding connect_members
connect-Enters branch b [] w h n o = (skip-IsRun w h, n)
connect-Enters branch b (p ∷ members) w h n o =
    prepend-Enters (w_branch branch ∷ []) _ (plain-IsRun w (w_branch branch) h b) (
      prepend-Enters [] (connect_members branch members v) entered
        (connect-Enters branch b members v entered.world v-IsNew o.1))
  where
    v : AndWorld
    v = record w { peers = put p.id_hash (some (fresh_entry p)) w.peers }

    entered : IsRun w v []
    entered =
        put_back-Runs w p.id_hash (enter p w (w.peers p.id_hash)) h (λ e. absurd (o.0 e))
          (enter-Steps p w (w.peers p.id_hash) (n p.id_hash))

    v-IsNew : IsNew v
    v-IsNew j = put-IsNew w p.id_hash (some (fresh_entry p)) j n refl

empty-IsWorld :
    (local : String) (lsid : Uuid) (now : Time) (join_hash join_path wurl : String)
    → IsWorld (empty_world local lsid now join_hash join_path wurl)
unfolding empty_world
empty-IsWorld local lsid now join_hash join_path wurl = record { placed = λ k. tt; no_self = refl }

-- The call ends, and runs as And/Run says.
abbrev pub Begins : AndWorld → Outcome AndWorld (Unit {0}) → Type 0
Begins w panicked = ⊥
Begins w (ret a v acts) = IsRun w v acts

prepend-Begins :
    {w v : AndWorld} (xs : List Action) (o : Outcome AndWorld (Unit {0}))
    → IsRun w v xs
    → Begins v o
    → Begins w (prepend xs o)
prepend-Begins xs panicked p q = q
prepend-Begins xs (ret a u ys) p q = IsRun-trans xs ys p q

after-Begins :
    (w : AndWorld) (o : Outcome AndWorld (Unit {0})) (f : Unit {0} → M AndWorld (Unit {0}))
    → Enters w o
    → ((a : Unit {0}) (v : AndWorld) → IsWorld v → IsNew v → v.local ≡ w.local → Begins v (f a v))
    → Begins w (after o f)
after-Begins w panicked f p h = p
after-Begins w (ret a v xs) f p h =
    prepend-Begins xs (f a v) p.0 (h a v p.0.world p.1 p.0.same_local)

pub new_world_open-Begins :
    (local : String) (lsid : Uuid) (wurl : String) (members : List Peer) (now : Time)
    → AllOther local members
    → Begins (empty_world local lsid now "" "" wurl) (new_world_open local lsid wurl members now)
unfolding new_world_open
new_world_open-Begins local lsid wurl members now o =
    after-Begins _ (connect_members 0 members (empty_world local lsid now "" "" wurl)) _
      (connect-Enters 0 refl members _ (empty-IsWorld local lsid now "" "" wurl) (λ k. tt) o)
      (λ a v h n e. record {
        world = h;
        same_local = refl;
        same_lsid = refl;
        told = λ k. refl;
        counted = refl;
      })

join_target-Steps :
    (k : String) (lsid : Uuid) (target : Aurl) (now : Time) (s : Slot)
    → IsPlaced k s
    → IsIdle s
    → Steps k s (join_target lsid target now s) × (join_target lsid target now s ≢ panicked)
unfolding join_target
join_target-Steps k lsid target now none h n = ground arith
join_target-Steps k lsid target now (some i) h n = ground arith

ended :
    (w : AndWorld) (k : String) (o : Outcome Slot (Unit {0}))
    → Runs w (put_back w k o)
    → o ≢ panicked
    → Begins w (put_back w k o)
ended w k panicked p n = n refl
ended w k (ret a s acts) p n = p

pub new_world_join-Begins :
    (local : String) (lsid : Uuid) (target : Aurl) (members : List Peer) (now : Time)
    → target.hash ≢ local
    → AllOther local members
    → Begins
        (empty_world local lsid now target.hash target.path "")
        (new_world_join local lsid target members now)
unfolding new_world_join
new_world_join-Begins local lsid target members now other o =
    after-Begins _
      (connect_members 1 members (empty_world local lsid now target.hash target.path "")) _
      (connect-Enters 1 refl members _ (empty-IsWorld local lsid now target.hash target.path "")
        (λ k. tt) o)
      joined
  where
    joined :
        (a : Unit {0}) (v : AndWorld)
        → IsWorld v
        → IsNew v
        → v.local ≡ local
        → Begins v (put_back v target.hash (join_target lsid target now (v.peers target.hash)))
    joined a v h n e =
        let done =
          join_target-Steps target.hash lsid target now (v.peers target.hash) (h.placed target.hash)
            (n target.hash) in
        ended v target.hash (join_target lsid target now (v.peers target.hash))
          (put_back-Runs v target.hash (join_target lsid target now (v.peers target.hash)) h
            (λ q. absurd (other (q ∙ e))) done.0)
          done.1
