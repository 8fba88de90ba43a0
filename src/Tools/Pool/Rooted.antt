-- ===== src/Tools/Pool/Rooted.antt =====
-- Why the pending actions of a pool (tools/dacp/descrete_action_pool.go) can all become ready.
use abyss_core.Prelude.{
  ℕ, Bool, true, false, List, [], ◌∷◌, ◌++◌, if◌then◌else◌, nat_eq, ◌≡◌, ◌≢◌, refl, sym, subst, inl,
  inr, Bool-cases, ◌⊎◌,
}
use abyss_core.Prelude.Store.{◌==◌, ne_of_test}
use abyss_core.Tools.Pool.{
  DiscreteAction, DiscreteActionPool, has_id, add_action, release, add_ready, add_pending,
}

module _ {A : Type 0} where
  -- Each pending action waits for an id that `seen` has or that an earlier pending action has.
  abbrev pub Rooted : (ℕ → Bool) → List (DiscreteAction A) → Type 0
  Rooted seen [] = Unit {0}
  Rooted seen (a ∷ s) =
      (seen a.precursor_id ≡ true) × Rooted (λ i. if a.id == i then true else seen i) s

  abbrev pub IsRooted : DiscreteActionPool A → Type 0
  IsRooted p = Rooted (λ i. has_id i p.actions_ready) p.actions_pending

module _ where
  pub both :
      (c b d : Bool)
      → (b ≡ true → d ≡ true)
      → (if c then true else b) ≡ true
      → (if c then true else d) ≡ true
  both true b d h e = refl
  both false b d h e = h e

module _ {A : Type 0} where
  wider :
      (s : List (DiscreteAction A)) (seen more : ℕ → Bool)
      → ((i : ℕ) → seen i ≡ true → more i ≡ true)
      → Rooted seen s
      → Rooted more s
  wider [] seen more h r = r
  wider (a ∷ s) seen more h r =
      (h a.precursor_id r.0, wider s _ _ (λ i. both (a.id == i) (seen i) (more i) (h i)) r.1)

  -- An action that waits for an id of `seen` or of the slice may stand behind the slice.
  Rooted-snoc :
      (s : List (DiscreteAction A)) (b : DiscreteAction A) (seen : ℕ → Bool)
      → Rooted seen s
      → (seen b.precursor_id ≡ true) ⊎ (has_id b.precursor_id s ≡ true)
      → Rooted seen (s ++ b ∷ [])
  unfolding has_id
  Rooted-snoc [] b seen r (inl h) = (h, tt)
  Rooted-snoc [] b seen r (inr h) = absurd (true≢ h)
    where
      true≢ : false ≡ true → ⊥
      true≢ e = cc e
  Rooted-snoc (a ∷ s) b seen r h = (r.0, Rooted-snoc s b _ r.1 (found (a.id == b.precursor_id) h))
    where
      found :
          (c : Bool)
          → (seen b.precursor_id ≡ true) ⊎ ((if c then true else has_id b.precursor_id s) ≡ true)
          → ((if c then true else seen b.precursor_id) ≡ true) ⊎ (has_id b.precursor_id s ≡ true)
      found true h = inl refl
      found false h = h

  pub has_id-left :
      (i : ℕ) (s t : List (DiscreteAction A)) → has_id i s ≡ true → has_id i (s ++ t) ≡ true
  unfolding has_id
  has_id-left i [] t h = absurd (cc h)
  has_id-left i (a ∷ s) t h = both (a.id == i) _ _ (has_id-left i s t) h

  pub has_id-right :
      (i : ℕ) (s t : List (DiscreteAction A)) → has_id i t ≡ true → has_id i (s ++ t) ≡ true
  unfolding has_id
  has_id-right i [] t h = h
  has_id-right i (a ∷ s) t h = either (a.id == i) _ (has_id-right i s t h)
    where
      either : (c b : Bool) → b ≡ true → (if c then true else b) ≡ true
      either true b e = refl
      either false b e = e

  pub add_action-IsRooted :
      (a : DiscreteAction A) (p : DiscreteActionPool A) → IsRooted p → IsRooted (add_action a p).1
  unfolding add_action add_ready add_pending
  add_action-IsRooted a p r = elim (Bool-cases (has_id a.precursor_id p.actions_ready)) [
    | inl e ↦ rw e (Rooted-snoc p.actions_pending a _ r (inl e))
    | inr e ↦ elim (Bool-cases (has_id a.precursor_id p.actions_pending)) [
      | inl f ↦ rw (e, f) (Rooted-snoc p.actions_pending a _ r (inr f))
      | inr f ↦
          rw (e, f) (wider p.actions_pending _ _ (λ i. has_id-left i p.actions_ready (a ∷ [])) r)
    ]
  ]

  pub release-Rooted :
      (s : List (DiscreteAction A)) (i : ℕ) (seen more : ℕ → Bool)
      → Rooted seen s
      → ((j : ℕ) → seen j ≡ true → i ≢ j → more j ≡ true)
      → ((j : ℕ) → has_id j (release i s).0 ≡ true → more j ≡ true)
      → Rooted more (release i s).1
  unfolding release has_id
  release-Rooted [] i seen more r h k = tt
  release-Rooted (a ∷ s) i seen more r h k = elim (Bool-cases (a.precursor_id == i)) [
    | inl e ↦ rw e (release-Rooted s i _ more r.1 (kept e) (freed e))
    | inr e ↦ rw e (
      h a.precursor_id r.0 (λ p. ne_of_test a.precursor_id i e (sym p)),
      release-Rooted s i _ _ r.1 (λ j m ne. both (a.id == j) (seen j) (more j) (λ q. h j q ne) m)
          (λ j m. held (a.id == j) (more j) (stays e j m)),
    )
  ]
    where
      held : (c b : Bool) → b ≡ true → (if c then true else b) ≡ true
      held true b e = refl
      held false b e = e

      stays :
          (a.precursor_id == i) ≡ false → (j : ℕ) → has_id j (release i s).0 ≡ true → more j ≡ true
      stays e j m = k j (rw e m)

      first :
          (a.precursor_id == i) ≡ true
          → (j : ℕ) → (if a.id == j then true else has_id j (release i s).0) ≡ true
          → more j ≡ true
      first e j m = k j (rw e m)

      freed :
          (a.precursor_id == i) ≡ true → (j : ℕ) → has_id j (release i s).0 ≡ true → more j ≡ true
      freed e j m = first e j (held (a.id == j) _ m)

      kept :
          (a.precursor_id == i) ≡ true
          → (j : ℕ) → (if a.id == j then true else seen j) ≡ true
          → i ≢ j
          → more j ≡ true
      kept e j m ne = elim (Bool-cases (a.id == j)) [
        | inl f ↦ first e j (rw f)
        | inr f ↦ h j (subst (λ c. (if c then true else seen j) ≡ true) f m) ne
      ]
