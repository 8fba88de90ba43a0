-- ===== src/Tools/Pool.antt =====
-- tools/dacp/descrete_action_pool.go: actions that wait until the action before them is popped. An
-- `int` is its 64-bit word, `A` the type of the closures, and `none` the panic on an index out of range.
use abyss_core.Prelude.{
  ℕ, zero, suc, ◌+◌, Bool, true, false, List, [], ◌∷◌, ◌++◌, Option, none, some, if◌then◌else◌,
  nat_eq,
}
use abyss_core.Prelude.Store.{◌==◌}
use Prim.Native.Nat.{◌%◌, ◌^◌}
pub mod Rooted
pub mod Pops
pub mod Draining
mod Examples

pub record DiscreteAction (A : Type 0) : Type 0 where
  pub id : ℕ
  pub action : A
  pub precursor_id : ℕ

pub record DiscreteActionPool (A : Type 0) : Type 0 where
  pub actions_ready : List (DiscreteAction A)
  pub actions_pending : List (DiscreteAction A)

module _ {A : Type 0} where
  -- NewDiscreteAction, on the action_counter, which it also gives back.
  unfoldable pub new_discrete_action : A → ℕ → ℕ → DiscreteAction A × ℕ
  new_discrete_action action precursor_id action_counter =
      let id = (action_counter + 1) % 2 ^ 64 in
      (record { id = id; action = action; precursor_id = precursor_id }, id)

  unfoldable pub make_pool : DiscreteActionPool A
  make_pool = record { actions_ready = []; actions_pending = [] }

  -- The loops of AddAction: an action of the slice has the id.
  unfoldable pub has_id : ℕ → List (DiscreteAction A) → Bool
  has_id i [] = false
  has_id i (a ∷ s) = if a.id == i then true else has_id i s

  add_ready : DiscreteAction A → DiscreteActionPool A → DiscreteActionPool A
  add_ready a p = record {
    actions_ready = p.actions_ready ++ a ∷ [];
    actions_pending = p.actions_pending;
  }

  add_pending : DiscreteAction A → DiscreteActionPool A → DiscreteActionPool A
  add_pending a p = record {
    actions_ready = p.actions_ready;
    actions_pending = p.actions_pending ++ a ∷ [];
  }

  -- AddAction, which also gives the id of the action.
  unfoldable pub add_action : DiscreteAction A → DiscreteActionPool A → ℕ × DiscreteActionPool A
  unfolding add_ready add_pending
  add_action a p =
      if has_id a.precursor_id p.actions_ready
      then (a.id, add_pending a p)
      else if has_id a.precursor_id p.actions_pending
      then (a.id, add_pending a p)
      else (a.id, add_ready a p)

  with_first :
      DiscreteAction A
      → Option (DiscreteAction A × List (DiscreteAction A))
      → Option (DiscreteAction A × List (DiscreteAction A))
  with_first a none = none
  with_first a (some (r, s)) = some (r, a ∷ s)

  -- The element at the index, and the slice without it.
  unfoldable pub take_out :
      ℕ → List (DiscreteAction A) → Option (DiscreteAction A × List (DiscreteAction A))
  unfolding with_first
  take_out index [] = none
  take_out zero (a ∷ s) = some (a, s)
  take_out (suc index) (a ∷ s) = with_first a (take_out index s)

  -- The loop of PopAction: the actions that waited for the id, and those that are still pending.
  unfoldable pub release :
      ℕ → List (DiscreteAction A) → List (DiscreteAction A) × List (DiscreteAction A)
  release i [] = ([], [])
  release i (a ∷ s) =
      let rest = release i s in
      if a.precursor_id == i then (a ∷ rest.0, rest.1) else (rest.0, a ∷ rest.1)

  -- PopAction, with what is taken out of the ready slice.
  unfoldable pub popped :
      List (DiscreteAction A)
      → Option (DiscreteAction A × List (DiscreteAction A))
      → Option (DiscreteAction A × DiscreteActionPool A)
  popped pending none = none
  popped pending (some (result, ready)) = some (
    result,
    record {
      actions_ready = ready ++ (release result.id pending).0;
      actions_pending = (release result.id pending).1;
    },
  )

  unfoldable pub pop_action :
      ℕ → DiscreteActionPool A → Option (DiscreteAction A × DiscreteActionPool A)
  pop_action index p = popped p.actions_pending (take_out index p.actions_ready)

  unfoldable pub length : List (DiscreteAction A) → ℕ
  length [] = 0
  length (a ∷ s) = suc (length s)

  unfoldable pub get_action_n : DiscreteActionPool A → ℕ
  unfolding length
  get_action_n p = length p.actions_ready
