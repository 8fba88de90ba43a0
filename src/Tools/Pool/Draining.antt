-- ===== src/Tools/Pool/Draining.antt =====
-- The actions that come out of a pool (tools/dacp/descrete_action_pool.go) when one ready action
-- after the other is popped.
use abyss_core.Prelude.{
  ℕ, zero, suc, ◌+◌, ◌≤◌, ◌<◌, Bool, true, List, [], ◌∷◌, none, some, nat_eq, ◌≡◌, refl, inl, inr,
  Option-cases, arith,
}
use abyss_core.Tools.Pool.{
  DiscreteAction, DiscreteActionPool, make_pool, has_id, add_action, pop_action, length,
  get_action_n,
}
use abyss_core.Tools.Pool.Rooted.{IsRooted, add_action-IsRooted}
use abyss_core.Tools.Pool.Pops.{
  tally, pool_tally, size, pop_action-IsRooted, pop_action-tally, pop_action-none,
}

module _ {A : Type 0} where
  -- The pools that calls of AddAction and PopAction make.
  pub data Reached : DiscreteActionPool A → Type 0 where
    made : Reached make_pool
    added :
        (a : DiscreteAction A) (p : DiscreteActionPool A) → Reached p → Reached (add_action a p).1
    popped_at :
        (index : ℕ) (p q : DiscreteActionPool A) (a : DiscreteAction A)
        → Reached p
        → pop_action index p ≡ some (a, q)
        → Reached q

  -- As long as an action is ready, pop the one that `choose` picks: at most `n` times.
  unfoldable pub drain :
      ℕ
      → (DiscreteActionPool A → ℕ)
      → DiscreteActionPool A
      → List (DiscreteAction A) × DiscreteActionPool A
  drain zero choose p = ([], p)
  drain (suc n) choose p = elim (pop_action (choose p) p) [
    | none ↦ ([], p)
    | some r ↦ (r.0 ∷ (drain n choose r.1).0, (drain n choose r.1).1)
  ]

  -- `choose` picks a ready action where there is one.
  abbrev pub Picks : (DiscreteActionPool A → ℕ) → Type 0
  Picks choose = (p : DiscreteActionPool A) → 0 < get_action_n p → choose p < get_action_n p

  Reached-IsRooted : (p : DiscreteActionPool A) → Reached p → IsRooted p
  unfolding make_pool
  Reached-IsRooted p made = tt
  Reached-IsRooted p (added a q r) = add_action-IsRooted a q (Reached-IsRooted q r)
  Reached-IsRooted p (popped_at index q u a r e) =
      pop_action-IsRooted index q u a (Reached-IsRooted q r) e

  -- A pool without a ready action has no pending one.
  idle :
      (ready pending : List (DiscreteAction A))
      → length ready ≡ 0
      → IsRooted (record { actions_ready = ready; actions_pending = pending })
      → (ready ≡ []) × (pending ≡ [])
  unfolding length has_id
  idle [] [] e r = (refl, refl)
  idle [] (a ∷ s) e r = absurd (cc (r.0))
  idle (a ∷ s) pending e r = absurd (impossible e)
    where
      impossible : suc (length s) ≡ 0 → ⊥
      impossible h = omega arith

  -- Nothing is left in the pool, and every action of it came out.
  abbrev Drained : DiscreteActionPool A → List (DiscreteAction A) × DiscreteActionPool A → Type 0
  Drained p o =
      (o.1.actions_ready ≡ [])
      × (o.1.actions_pending ≡ [])
      × ((t : DiscreteAction A → Bool) → tally t o.0 ≡ pool_tally t p)

  none_left : (s : List (DiscreteAction A)) → tally (λ a. true) s ≤ 0 → s ≡ []
  none_left [] h = refl
  none_left (a ∷ s) h = absurd (impossible h)
    where
      impossible : 1 + tally (λ b. true) s ≤ 0 → ⊥
      impossible g = omega arith

  at_once :
      (p : DiscreteActionPool A)
      → (p.actions_ready ≡ []) × (p.actions_pending ≡ [])
      → Drained p ([], p)
  at_once p e = (e.0, e.1, λ t. rw (e.0, e.1) refl)

  picked :
      (choose : DiscreteActionPool A → ℕ) (p : DiscreteActionPool A)
      → Picks choose
      → get_action_n p ≤ choose p
      → get_action_n p ≡ 0
  picked choose p picks h = stuck (get_action_n p) (choose p) (picks p) h
    where
      stuck : (n i : ℕ) → (0 < n → i < n) → n ≤ i → n ≡ 0
      stuck n i f g = ground arith

  Drained-pop :
      (choose : DiscreteActionPool A → ℕ) (p : DiscreteActionPool A)
      (o : DiscreteAction A × DiscreteActionPool A)
      (rest : List (DiscreteAction A) × DiscreteActionPool A)
      → pop_action (choose p) p ≡ some o
      → Drained o.1 rest
      → Drained p (o.0 ∷ rest.0, rest.1)
  Drained-pop choose p o rest e whole =
      (whole.0, whole.1, λ t. rw (whole.2 t, pop_action-tally t (choose p) p o.1 o.0 e) refl)

  drain-IsRooted :
      (n : ℕ) (choose : DiscreteActionPool A → ℕ) (p : DiscreteActionPool A)
      → Picks choose
      → IsRooted p
      → size p ≤ n
      → Drained p (drain n choose p)
  unfolding drain get_action_n
  drain-IsRooted zero choose p picks r h =
      at_once p (none_left p.actions_ready (omega arith), none_left p.actions_pending (omega arith))
  drain-IsRooted (suc n) choose p picks r h = elim (Option-cases (pop_action (choose p) p)) [
    | inl e ↦
        rw (e, drain)
          (at_once p (
            idle p.actions_ready p.actions_pending
              (picked choose p picks (pop_action-none (choose p) p e)) r))
    | inr g ↦
        rw (g.1, drain)
          (Drained-pop choose p g.0 (drain n choose g.0.1) g.1 (
            drain-IsRooted n choose g.0.1 picks (pop_action-IsRooted (choose p) p g.0.1 g.0.0 r g.1)
              (less g.0.0 g.0.1 (pop_action-tally (λ a. true) (choose p) p g.0.1 g.0.0 g.1))))
  ]
    where
      less : (a : DiscreteAction A) (q : DiscreteActionPool A) → size p ≡ 1 + size q → size q ≤ n
      less a q k = omega arith

  -- Take any pool that calls of AddAction and PopAction made, and pop ready actions, in any order,
  -- as long as there are any. After at most as many calls as the pool has actions, no action is ready
  -- and none is pending any more, and of the actions of the pool that pass a test, whichever test, as
  -- many came out as were in it.
  pub Reached-drain :
      (t : DiscreteAction A → Bool) (n : ℕ) (choose : DiscreteActionPool A → ℕ)
      (p : DiscreteActionPool A)
      → Picks choose
      → Reached p
      → size p ≤ n
      → ((drain n choose p).1.actions_ready ≡ [])
        × ((drain n choose p).1.actions_pending ≡ [])
        × (tally t (drain n choose p).0 ≡ pool_tally t p)
  Reached-drain t n choose p picks r h = (all.0, all.1, all.2 t)
    where
      all : Drained p (drain n choose p)
      all = drain-IsRooted n choose p picks (Reached-IsRooted p r) h
