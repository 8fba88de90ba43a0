-- ===== src/Tools/Pool/Examples.antt =====
-- The pool of tools/dacp/descrete_action_pool_test.go, with the numbers that the actions append in
-- place of the actions.
use abyss_core.Prelude.{ℕ, ◌-◌, ◌≤◌, ◌<◌, true, [], ◌∷◌, map, ◌≡◌, refl, arith}
use abyss_core.Tools.Pool.{
  DiscreteAction, DiscreteActionPool, make_pool, new_discrete_action, add_action, pop_action,
  get_action_n, has_id, take_out, release, popped, length, with_first, add_ready, add_pending,
}
use abyss_core.Tools.Pool.Pops.{tally, pool_tally}
use abyss_core.Tools.Pool.Draining.{made, added, drain, Reached-drain}

abbrev numbered : ℕ → ℕ → ℕ → DiscreteAction ℕ
numbered n counter precursor_id = (new_discrete_action n precursor_id counter).0

abbrev one_added : DiscreteActionPool ℕ
one_added = (add_action (numbered 1 0 0) make_pool).1

abbrev two_added : DiscreteActionPool ℕ
two_added = (add_action (numbered 2 1 1) one_added).1

abbrev three_added : DiscreteActionPool ℕ
three_added = (add_action (numbered 3 2 2) two_added).1

abbrev four_added : DiscreteActionPool ℕ
four_added = (add_action (numbered 4 3 0) three_added).1

abbrev test_pool : DiscreteActionPool ℕ
test_pool = (add_action (numbered 5 4 4) four_added).1

abbrev last_ready : DiscreteActionPool ℕ → ℕ
last_ready p = get_action_n p - 1

-- The order that the test expects.
test_order : map (λ a. a.action) (drain 5 last_ready test_pool).0 ≡ 4 ∷ 5 ∷ 1 ∷ 2 ∷ 3 ∷ []
unfolding new_discrete_action add_action make_pool has_id add_ready add_pending drain pop_action
    popped take_out with_first release get_action_n length
test_order = refl

five : pool_tally (λ a. true) test_pool ≤ 5
unfolding new_discrete_action add_action make_pool has_id add_ready add_pending
five = omega arith

Reached-drain_example :
    ((drain 5 last_ready test_pool).1.actions_ready ≡ [])
    × ((drain 5 last_ready test_pool).1.actions_pending ≡ [])
    × (tally (λ a. true) (drain 5 last_ready test_pool).0 ≡ pool_tally (λ a. true) test_pool)
Reached-drain_example =
    Reached-drain (λ a. true) 5 last_ready test_pool picks
      (added _ four_added
        (added _ three_added (added _ two_added (added _ one_added (added _ make_pool made)))))
      five
  where
    picks : (p : DiscreteActionPool ℕ) → 0 < get_action_n p → last_ready p < get_action_n p
    picks p h = omega arith
