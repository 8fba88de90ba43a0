-- ===== src/And/Run.antt =====
-- What every call on a world keeps: its constants, the entries under the hashes of their peers, no
-- entry of its own, the counters, and, for each hash, what the application was told.
pub mod Entries
pub mod Loops
pub mod Handlers
pub mod FromMembers
pub mod Timer
pub mod Birth
use abyss_core.Prelude.{
  String, List, [], ◌∷◌, ◌++◌, Option, none, some, ◌≡◌, refl, sym, ◌≢◌, arith, Bool, true, false,
  ◌∙◌, ◌==◌, string_eq, if◌then◌else◌, put, put_self, put-ne, key_cases, inl, inr, Bool-cases, ap,
  subst,
}
use abyss_core.Interfaces.{Uuid, Peer}
use abyss_core.Interfaces.NeighborEvent.{session_ready, session_close}
use abyss_core.And.Effect.{Outcome, panicked, ret, prepend, Action, raised, M, after, map_result}
use abyss_core.And.State.{AndWorld, Slot, AndPeerSessionState}
use abyss_core.And.Monitor.{
  Monitor, replay, replay-append, count_step, member_step, member_of, IsAbout, All, IsPlaced,
  hash_of, and_then,
}
use abyss_core.And.Steps.{IsStep, Steps}
use abyss_core.And.World.{put_back}
use mathlib.Core.Path.{fun_ext}
use text.Mathlib.TextEquality.{eq_iff}

pub record IsWorld (w : AndWorld) : Type 0 where
  pub placed : (k : String) → IsPlaced k (w.peers k)
  pub no_self : w.peers w.local ≡ none

abbrev pub names : Option Peer → String → Bool
names none k = false
names (some p) k = p.id_hash == k

-- `member_step` for the events that name the hash `k`; the others leave it alone.
abbrev pub member_at : String → Monitor (Option Uuid)
member_at k v (raised (session_ready l s)) =
    if names s.peer k then member_step v (raised (session_ready l s)) else some v
member_at k v (raised (session_close l s)) =
    if names s.peer k then member_step v (raised (session_close l s)) else some v
member_at k v _ = some v

pub record IsRun (w w' : AndWorld) (acts : List Action) : Type 0 where
  pub world : IsWorld w'
  pub same_local : w'.local ≡ w.local
  pub same_lsid : w'.lsid ≡ w.lsid
  pub told :
      (k : String)
      → replay (member_at k) (member_of (w.peers k)) acts ≡ some (member_of (w'.peers k))
  pub counted : replay count_step none acts ≡ some none

abbrev pub Runs : {A : Type 0} → AndWorld → Outcome AndWorld A → Type 0
Runs w panicked = Unit {0}
Runs w (ret a w' acts) = IsRun w w' acts

pub IsRun-trans :
    {u v w : AndWorld} (xs ys : List Action) → IsRun u v xs → IsRun v w ys → IsRun u w (xs ++ ys)
IsRun-trans {u} {v} {w} xs ys p q = record {
  world = q.world;
  same_local = q.same_local ∙ p.same_local;
  same_lsid = q.same_lsid ∙ p.same_lsid;
  told = λ k. replay-append (member_at k) (member_of (u.peers k)) xs ys ∙ rw (p.told k) (q.told k);
  counted = replay-append count_step none xs ys ∙ rw p.counted q.counted;
}

pub prepend-Runs :
    {A : Type 0} {u v : AndWorld} (xs : List Action) (o : Outcome AndWorld A)
    → IsRun u v xs
    → Runs v o
    → Runs u (prepend xs o)
prepend-Runs xs panicked p q = tt
prepend-Runs xs (ret a w ys) p q = IsRun-trans xs ys p q

-- A call and what follows it.
pub after-Runs :
    {A B : Type 0} (u : AndWorld) (o : Outcome AndWorld A) (f : A → M AndWorld B)
    → Runs u o
    → ((a : A) (v : AndWorld) → IsWorld v → v.local ≡ u.local → Runs v (f a v))
    → Runs u (after o f)
after-Runs u panicked f p h = tt
after-Runs u (ret a v xs) f p h = prepend-Runs xs (f a v) p (h a v p.world p.same_local)

pub map_result-Runs :
    {A B : Type 0} (u : AndWorld) (f : A → B) (o : Outcome AndWorld A)
    → Runs u o
    → Runs u (map_result f o)
map_result-Runs u f panicked p = tt
map_result-Runs u f (ret a v xs) p = p

-- Actions that are no event of membership, on a world that stays.
abbrev IsSilent : Action → Type 0
IsSilent (raised (session_ready l s)) = ⊥
IsSilent (raised (session_close l s)) = ⊥
IsSilent _ = Unit {0}

module _ (k : String) where
  named_self : (q : Option Peer) → hash_of q ≡ some k → names q k ≡ true
  named_self none h = cc
  named_self (some p) h = (eq_iff p.id_hash k).1 (ground arith)

  named_other : (q : Option Peer) (j : String) → hash_of q ≡ some k → k ≢ j → names q j ≡ false
  named_other none j h n = cc
  named_other (some p) j h n = elim (Bool-cases (names (some p) j)) [
    | inl e ↦ absurd (n (ground (arith, (eq_iff p.id_hash j).0 e)))
    | inr e ↦ e
  ]

  self_step : (a : Action) (v : Option Uuid) → IsAbout k a → member_at k v a ≡ member_step v a
  self_step (raised (session_ready l s)) v h = rw (named_self s.peer h)
  self_step (raised (session_close l s)) v h = rw (named_self s.peer h)
  self_step _ none h = refl
  self_step _ (some c) h = refl

  other_step :
      (j : String) (a : Action) (v : Option Uuid) → k ≢ j → IsAbout k a → member_at j v a ≡ some v
  other_step j (raised (session_ready l s)) v n h = rw (named_other s.peer j h n)
  other_step j (raised (session_close l s)) v n h = rw (named_other s.peer j h n)
  other_step j _ v n h = refl

  pub replay_about :
      (acts : List Action) (v : Option Uuid)
      → All (IsAbout k) acts
      → replay (member_at k) v acts ≡ replay member_step v acts
  replay_about [] v h = refl
  replay_about (a ∷ acts) v h =
      rw (self_step a v h.0)
        (ap (and_then (member_step v a)) (fun_ext (λ r. replay_about acts r h.1)))

  pub replay_other :
      (j : String) (acts : List Action) (v : Option Uuid)
      → k ≢ j
      → All (IsAbout k) acts
      → replay (member_at j) v acts ≡ some v
  replay_other j [] v n h = refl
  replay_other j (a ∷ acts) v n h = rw (other_step j a v n h.0) (replay_other j acts v n h.1)

-- A call on one entry, put back into its world. Where the key is the world's own hash the slot is
-- empty, and must stay so.
abbrev pub IsVoid : {A : Type 0} → Outcome Slot A → Type 0
IsVoid panicked = Unit {0}
IsVoid (ret a s acts) = s ≡ none

IsPlaced-put :
    (w : AndWorld) (k : String) (s : Slot) (j : String)
    → IsWorld w
    → IsPlaced k s
    → IsPlaced j (put k s w.peers j)
IsPlaced-put w k s j h p = elim (key_cases k j) [
  | inl e ↦ subst (λ i. IsPlaced i (put k s w.peers i)) e (rw (put_self k s w.peers) p)
  | inr n ↦ rw (put-ne k j s w.peers n) (h.placed j)
]

no_self_put :
    (w : AndWorld) (k : String) (s : Slot)
    → IsWorld w
    → (k ≡ w.local → s ≡ none)
    → put k s w.peers w.local ≡ none
no_self_put w k s h void = elim (key_cases k w.local) [
  | inl e ↦ subst (λ i. put k s w.peers i ≡ none) e (put_self k s w.peers ∙ void e)
  | inr n ↦ put-ne k w.local s w.peers n ∙ h.no_self
]

told_put :
    (w : AndWorld) (k : String) (s : Slot) (acts : List Action) (j : String)
    → IsStep k (w.peers k) s acts
    → replay (member_at j) (member_of (w.peers j)) acts ≡ some (member_of (put k s w.peers j))
told_put w k s acts j p = elim (key_cases k j) [
  | inl e ↦
      subst
        (λ i.
          replay (member_at i) (member_of (w.peers i)) acts ≡ some (member_of (put k s w.peers i)))
        e (rw (put_self k s w.peers) (replay_about k acts (member_of (w.peers k)) p.about ∙ p.told))
  | inr n ↦ rw (put-ne k j s w.peers n) (replay_other k j acts (member_of (w.peers j)) n p.about)
]

pub put_back-Runs :
    {A : Type 0} (w : AndWorld) (k : String) (o : Outcome Slot A)
    → IsWorld w
    → (k ≡ w.local → IsVoid o)
    → Steps k (w.peers k) o
    → Runs w (put_back w k o)
put_back-Runs w k panicked h void p = tt
put_back-Runs w k (ret a s acts) h void p = record {
  world = record {
    placed = λ j. IsPlaced-put w k s j h p.placed;
    no_self = no_self_put w k s h void;
  };
  same_local = refl;
  same_lsid = refl;
  told = λ j. told_put w k s acts j p;
  counted = p.counted;
}
