-- ===== src/And/Closing.antt =====
-- Close: what the end of a world tells the application.
use abyss_core.Prelude.{
  String, ℕ, List, [], ◌∷◌, ◌++◌, Option, none, some, ◌≡◌, refl, ◌∙◌, arith, true, false, Bool,
  Bool-cases, inl, inr, ◌==◌, string_eq, if◌then◌else◌, Option-cases, subst, suc, ne_of_test,
  eq_of_test,
}
use abyss_core.Interfaces.{Uuid}
use abyss_core.Interfaces.NeighborEvent.{world_leave}
use abyss_core.And.Effect.{
  Outcome, panicked, ret, prepend, after, Action, raised, w_branch, ◌>>◌, stat_w, raise,
}
use abyss_core.And.State.{
  AndWorld, Slot, AndPeerSessionState, WorldState, ws_cc, ws_dc_jt, ws_dc_jni,
}
use abyss_core.And.Monitor.{replay, replay-append, member_step, member_of, IsAbout, All, IsPlaced}
use abyss_core.And.World.{visit}
use abyss_core.And.Members.{close_at, close_all, close}
use abyss_core.And.Run.{IsWorld, member_at, replay_about, replay_other}

-- How often a range visits a key.
unfoldable pub occurs : String → List String → ℕ
occurs k [] = 0
occurs k (j ∷ order) = let rest = occurs k order in if j == k then suc rest else rest

abbrev Leaves : String → AndPeerSessionState → AndWorld → Outcome AndWorld (Unit {0}) → Type 0
Leaves j i v panicked = ⊥
Leaves j i v (ret a u acts) =
    (u ≡ v) × All (IsAbout j) acts × (replay member_step (member_of (some i)) acts ≡ some none)

close_at-Leaves :
    (j : String) (w : AndWorld) (i : AndPeerSessionState) (v : AndWorld)
    → IsPlaced j (some i)
    → Leaves j i v (close_at i.state w i v)
unfolding close_at
close_at-Leaves j w i v h = ground arith

module _ (k : String) (w : AndWorld) (h : IsWorld w) where
  -- The actions of the loop over `order`, seen from the hash `k`.
  record IsClosing (order : List String) (acts : List Action) : Type 0 where
    unvisited : occurs k order ≡ 0 → (x : Option Uuid) → replay (member_at k) x acts ≡ some x
    visited : occurs k order ≡ 1 → replay (member_at k) (member_of (w.peers k)) acts ≡ some none

  abbrev ClosesAll : List String → Outcome AndWorld (Unit {0}) → Type 0
  ClosesAll order panicked = ⊥
  ClosesAll order (ret a v acts) = (v ≡ w) × IsClosing order acts

  skip_key :
      (j : String) (order : List String) (acts : List Action)
      → w.peers j ≡ none
      → IsClosing order acts
      → IsClosing (j ∷ order) acts
  unfolding occurs
  skip_key j order acts e c = elim (Bool-cases (j == k)) [
    | inl p ↦
        let at_k : w.peers k ≡ none = subst (λ x. w.peers x ≡ none) (eq_of_test j k p) e in
        record {
          unvisited = λ n. absurd (ground arith);
          visited = λ n. rw at_k (c.unvisited (ground arith) none);
        }
    | inr p ↦ record {
      unvisited = λ n. c.unvisited (ground arith);
      visited = λ n. c.visited (ground arith);
    }
  ]

  close_key :
      (j : String) (i : AndPeerSessionState) (order : List String) (xs ys : List Action)
      → w.peers j ≡ some i
      → All (IsAbout j) xs
      → replay member_step (member_of (some i)) xs ≡ some none
      → IsClosing order ys
      → IsClosing (j ∷ order) (xs ++ ys)
  unfolding occurs
  close_key j i order xs ys e about told c = elim (Bool-cases (j == k)) [
    | inl p ↦
        let q : j ≡ k = eq_of_test j k p in
        record {
          unvisited = λ n. absurd (ground arith);
          visited = λ n. rw (at_k q) (
              replay-append (member_at k) (member_of (some i)) xs ys
              ∙ rw (seen q) (c.unvisited (ground arith) none));
        }
    | inr p ↦
        let other = λ (x : Option Uuid). replay_other j k xs x (ne_of_test j k p) about in
        record {
          unvisited = λ n x.
              replay-append (member_at k) x xs ys ∙ rw (other x) (c.unvisited (ground arith) x);
          visited = λ n.
              replay-append (member_at k) (member_of (w.peers k)) xs ys
              ∙ rw (other (member_of (w.peers k))) (c.visited (ground arith));
        }
  ]
    where
      at_k : j ≡ k → w.peers k ≡ some i
      at_k q = subst (λ x. w.peers x ≡ some i) q e

      seen : j ≡ k → replay (member_at k) (member_of (some i)) xs ≡ some none
      seen q =
          replay_about k xs (member_of (some i)) (subst (λ x. All (IsAbout x) xs) q about) ∙ told

  close_all-ClosesAll :
      (order : List String) → ClosesAll order (close_all w (visit w.peers order) w)
  unfolding close_all visit occurs
  close_all-ClosesAll [] =
      (refl, record { unvisited = λ n x. refl; visited = λ n. absurd (ground arith) })
  close_all-ClosesAll (j ∷ order) = elim (Option-cases (w.peers j)) [
    | inl e ↦
        rw (e, visit) (skipped (close_all w (visit w.peers order) w) e (close_all-ClosesAll order))
    | inr (i, e) ↦
        rw (e, visit)
          (closed i (close_at i.state w i w) e
            (close_at-Leaves j w i w (subst (IsPlaced j) e (h.placed j)))
            (close_all-ClosesAll order))
  ]
    where
      skipped :
          (o : Outcome AndWorld (Unit {0}))
          → w.peers j ≡ none
          → ClosesAll order o
          → ClosesAll (j ∷ order) o
      skipped panicked e c = c
      skipped (ret a v acts) e c = (c.0, skip_key j order acts e c.1)

      joined :
          (i : AndPeerSessionState) (xs : List Action) (o : Outcome AndWorld (Unit {0}))
          → w.peers j ≡ some i
          → All (IsAbout j) xs
          → replay member_step (member_of (some i)) xs ≡ some none
          → ClosesAll order o
          → ClosesAll (j ∷ order) (prepend xs o)
      joined i xs panicked e about told c = c
      joined i xs (ret a v ys) e about told c = (c.0, close_key j i order xs ys e about told c.1)

      closed :
          (i : AndPeerSessionState) (o : Outcome AndWorld (Unit {0}))
          → w.peers j ≡ some i
          → Leaves j i w o
          → ClosesAll order (close_all w (visit w.peers order) w)
          → ClosesAll (j ∷ order) (after o (λ _. close_all w (visit w.peers order)))
      closed i panicked e l c = l
      closed i (ret a v xs) e l c =
          rw (l.0) (joined i xs (close_all w (visit w.peers order) w) e l.1 l.2 c)

-- The end of Close, after its loop.
finished :
    (w : AndWorld) (k : String) (order : List String) (o : Outcome AndWorld (Unit {0}))
    → (h : IsWorld w) → occurs k order ≡ 1
    → ClosesAll k w h order o
    → (acts : List Action) × (after o (λ _. do stat_w 81; raise (world_leave w.lsid))
        ≡ ret tt w (acts ++ w_branch 81 ∷ raised (world_leave w.lsid) ∷ []))
      × (replay (member_at k) (member_of (w.peers k)) acts ≡ some none)
finished w k order panicked h n c = absurd c
finished w k order (ret a v acts) h n c = (acts, rw (c.0), c.1.visited n)

-- Where its range visits some hash once, Close does not panic: whatever the order of the range, it ends
-- with the one event WorldLeave, as the last action. That hash is no member any more after the events
-- before that: if its entry was a member, the session was closed, once.
pub close-told :
    (w : AndWorld) (k : String) (order : List String)
    → IsWorld w
    → occurs k order ≡ 1
    → (acts : List Action) × (close order w
        ≡ ret tt w (acts ++ w_branch 81 ∷ raised (world_leave w.lsid) ∷ []))
      × (replay (member_at k) (member_of (w.peers k)) acts ≡ some none)
unfolding close
close-told w k order h n =
    finished w k order (close_all w (visit w.peers order) w) h n (close_all-ClosesAll k w h order)

-- A state in which Close says nothing about the entry.
abbrev pub is_quiet : WorldState → Bool
is_quiet ws_cc = true
is_quiet ws_dc_jt = true
is_quiet ws_dc_jni = true
is_quiet _ = false

abbrev pub IsQuiet : Slot → Type 0
IsQuiet none = Unit {0}
IsQuiet (some i) = is_quiet i.state ≡ true

close_at_quiet :
    (s : WorldState) (w : AndWorld) (i : AndPeerSessionState) (v : AndWorld)
    → is_quiet s ≡ true
    → close_at s w i v ≡ ret tt v []
unfolding close_at
close_at_quiet s w i v h = ground arith

close_all_quiet :
    (w : AndWorld) (order : List String)
    → ((k : String) → IsQuiet (w.peers k))
    → close_all w (visit w.peers order) w ≡ ret tt w []
unfolding close_all visit
close_all_quiet w [] h = refl
close_all_quiet w (j ∷ order) h = elim (Option-cases (w.peers j)) [
  | inl e ↦ rw (e, visit) (close_all_quiet w order h)
  | inr (i, e) ↦
      rw (e, visit)
        (rw (close_at_quiet i.state w i w (subst IsQuiet e (h j))) (rw (close_all_quiet w order h)))
]

-- Close of a world whose entries are all without a session or waiting for a connection raises
-- WorldLeave and no other event. In particular a join whose target is not connected yet ends with
-- no JoinFail.
pub close_quiet :
    (w : AndWorld) (order : List String)
    → ((k : String) → IsQuiet (w.peers k))
    → close order w ≡ ret tt w (w_branch 81 ∷ raised (world_leave w.lsid) ∷ [])
unfolding close
close_quiet w order h = rw (close_all_quiet w order h)
