-- ===== src/Net/Timeouts.antt =====
-- The TimeoutContextGroup of net_service/peer_context.go. A context has a number, and `done` says
-- whether its Err is not nil.
use abyss_core.Prelude.{
  ℕ, ◌+◌, ◌≤◌, ◌<◌, Bool, false, List, [], ◌∷◌, ◌++◌, ltb, ltb→lt, if◌then◌else◌, ◌≡◌, refl,
  Bool-cases, inl, inr, arith,
}
use abyss_core.Interfaces.{Time}

pub record ContextPack : Type 0 where
  pub context : ℕ
  pub timestamp : Time

unfoldable pub instanciate : ℕ → Time → List ContextPack → List ContextPack
instanciate context now elem = elem ++ (record { context = context; timestamp = now } ∷ [])

module _ (done : ℕ → Bool) (now : Time) (timeout : ℕ) where
  -- One round of the cleaner: the contexts that it cancels, and the elements that stay.
  -- `e.timestamp.Sub(t_now) > timeout`, without the subtraction, for a timeout of at least 0.
  unfoldable pub clean : List ContextPack → List ℕ × List ContextPack
  clean [] = ([], [])
  clean (e ∷ elem) =
      let rest = clean elem in
      if done e.context
      then rest
      else if ltb (now + timeout) e.timestamp
      then (e.context ∷ rest.0, rest.1)
      else (rest.0, e ∷ rest.1)

  -- The elements whose context is not done.
  unfoldable pub undone : List ContextPack → List ContextPack
  undone [] = []
  undone (e ∷ elem) = let rest = undone elem in if done e.context then rest else e ∷ rest

  abbrev pub AllPast : List ContextPack → Type 0
  AllPast [] = Unit {0}
  AllPast (e ∷ elem) = (e.timestamp ≤ now) × AllPast elem

  not_ahead : (t : Time) → t ≤ now → ltb (now + timeout) t ≡ false
  not_ahead t h = elim (Bool-cases (ltb (now + timeout) t)) [
    | inl e ↦ absurd (ahead (ltb→lt (now + timeout) t e))
    | inr e ↦ e
  ]
    where
      ahead : now + timeout < t → ⊥
      ahead l = omega arith

  -- A round of the cleaner, which runs after all elements were made, cancels no context, however long
  -- ago they were made and whatever the timeout of at least 0; it only drops the contexts that are done.
  pub clean-cancels_none : (elem : List ContextPack) → AllPast elem → clean elem ≡ ([], undone elem)
  unfolding clean undone
  clean-cancels_none [] h = refl
  clean-cancels_none (e ∷ elem) h = elim (Bool-cases (done e.context)) [
    | inl d ↦ rw d (clean-cancels_none elem h.1)
    | inr d ↦ rw d (rw (not_ahead e.timestamp h.0) (rw (clean-cancels_none elem h.1) refl))
  ]
