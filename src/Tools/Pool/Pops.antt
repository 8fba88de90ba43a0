-- ===== src/Tools/Pool/Pops.antt =====
-- What PopAction takes out of a pool (tools/dacp/descrete_action_pool.go).
use abyss_core.Prelude.{
  ℕ, zero, suc, ◌+◌, ◌≤◌, Bool, true, false, List, [], ◌∷◌, ◌++◌, Option, none, some, if◌then◌else◌,
  nat_eq, ◌≡◌, ◌≢◌, refl, subst, inl, inr, Bool-cases, Option-cases, arith,
}
use abyss_core.Prelude.Store.{◌==◌, eq_of_test}
use abyss_core.Tools.Pool.{
  DiscreteAction, DiscreteActionPool, has_id, take_out, release, popped, pop_action, with_first,
  length, get_action_n,
}
use abyss_core.Tools.Pool.Rooted.{IsRooted, both, has_id-left, has_id-right, release-Rooted}

abbrev pub one : Bool → ℕ
one true = 1
one false = 0

module _ {A : Type 0} where
  -- How many actions of the slice pass a test.
  abbrev pub tally : (DiscreteAction A → Bool) → List (DiscreteAction A) → ℕ
  tally t [] = 0
  tally t (a ∷ s) = one (t a) + tally t s

  abbrev pub pool_tally : (DiscreteAction A → Bool) → DiscreteActionPool A → ℕ
  pool_tally t p = tally t p.actions_ready + tally t p.actions_pending

  abbrev pub size : DiscreteActionPool A → ℕ
  size p = pool_tally (λ a. true) p

  -- What a slice and the outcome of taking an action out of it have to do with each other.
  abbrev Kept : (ℕ → Bool) → Option (DiscreteAction A × List (DiscreteAction A)) → Type 0
  Kept had none = Unit {0}
  Kept had (some r) = (j : ℕ) → had j ≡ true → r.0.id ≢ j → has_id j r.1 ≡ true

  with_first-Kept :
      (a : DiscreteAction A) (had : ℕ → Bool)
      (o : Option (DiscreteAction A × List (DiscreteAction A)))
      → Kept had o
      → Kept (λ j. if a.id == j then true else had j) (with_first a o)
  unfolding with_first has_id
  with_first-Kept a had none k = tt
  with_first-Kept a had (some r) k =
      λ j m ne. both (a.id == j) (had j) (has_id j r.1) (λ q. k j q ne) m

  take_out-Kept :
      (s : List (DiscreteAction A)) (index : ℕ) → Kept (λ j. has_id j s) (take_out index s)
  unfolding take_out has_id
  take_out-Kept [] index = tt
  take_out-Kept (a ∷ s) zero = λ j m ne. elim (Bool-cases (a.id == j)) [
    | inl e ↦ absurd (ne (eq_of_test a.id j e))
    | inr e ↦ subst (λ c. (if c then true else has_id j s) ≡ true) e m
  ]
  take_out-Kept (a ∷ s) (suc index) =
      with_first-Kept a (λ j. has_id j s) (take_out index s) (take_out-Kept s index)

  abbrev Counted :
      (DiscreteAction A → Bool) → ℕ → Option (DiscreteAction A × List (DiscreteAction A)) → Type 0
  Counted t n none = Unit {0}
  Counted t n (some r) = n ≡ one (t r.0) + tally t r.1

  with_first-Counted :
      (t : DiscreteAction A → Bool) (a : DiscreteAction A) (n : ℕ)
      (o : Option (DiscreteAction A × List (DiscreteAction A)))
      → Counted t n o
      → Counted t (one (t a) + n) (with_first a o)
  unfolding with_first
  with_first-Counted t a n none k = tt
  with_first-Counted t a n (some r) k = omega arith

  take_out-Counted :
      (t : DiscreteAction A → Bool) (s : List (DiscreteAction A)) (index : ℕ)
      → Counted t (tally t s) (take_out index s)
  unfolding take_out
  take_out-Counted t [] index = tt
  take_out-Counted t (a ∷ s) zero = refl
  take_out-Counted t (a ∷ s) (suc index) =
      with_first-Counted t a (tally t s) (take_out index s) (take_out-Counted t s index)

  tally_append :
      (t : DiscreteAction A → Bool) (s u : List (DiscreteAction A))
      → tally t (s ++ u) ≡ tally t s + tally t u
  tally_append t [] u = omega arith
  tally_append t (a ∷ s) u = rw (tally_append t s u) (omega arith)

  tally-release :
      (t : DiscreteAction A → Bool) (i : ℕ) (s : List (DiscreteAction A))
      → tally t s ≡ tally t (release i s).0 + tally t (release i s).1
  unfolding release
  tally-release t i [] = refl
  tally-release t i (a ∷ s) = elim (Bool-cases (a.precursor_id == i)) [
    | inl e ↦ rw e (front _ _ _ (tally-release t i s))
    | inr e ↦ rw e (back _ _ _ (tally-release t i s))
  ]
    where
      front : (m k l : ℕ) → m ≡ k + l → one (t a) + m ≡ one (t a) + k + l
      front m k l h = omega arith

      back : (m k l : ℕ) → m ≡ k + l → one (t a) + m ≡ k + (one (t a) + l)
      back m k l h = omega arith

  -- What holds of what PopAction gives, if it gives something.
  abbrev After :
      (DiscreteAction A → DiscreteActionPool A → Type 0)
      → Option (DiscreteAction A × DiscreteActionPool A)
      → Type 0
  After P none = Unit {0}
  After P (some r) = P r.0 r.1

  popped-IsRooted :
      (p : DiscreteActionPool A) (o : Option (DiscreteAction A × List (DiscreteAction A)))
      → IsRooted p
      → Kept (λ j. has_id j p.actions_ready) o
      → After (λ a q. IsRooted q) (popped p.actions_pending o)
  unfolding popped
  popped-IsRooted p none r k = tt
  popped-IsRooted p (some x) r k =
      release-Rooted p.actions_pending x.0.id (λ j. has_id j p.actions_ready) _ r
        (λ j m ne. has_id-left j x.1 _ (k j m ne)) (λ j m. has_id-right j x.1 _ m)

  popped-tally :
      (t : DiscreteAction A → Bool) (p : DiscreteActionPool A)
      (o : Option (DiscreteAction A × List (DiscreteAction A)))
      → Counted t (tally t p.actions_ready) o
      → After (λ a q. pool_tally t p ≡ one (t a) + pool_tally t q) (popped p.actions_pending o)
  unfolding popped
  popped-tally t p none k = tt
  popped-tally t p (some x) k =
      rw (tally_append t x.1 (release x.0.id p.actions_pending).0)
        (sum _ _ _ _ _ _ (tally-release t x.0.id p.actions_pending) k)
    where
      sum : (m k l r n o : ℕ) → m ≡ k + l → r ≡ o + n → r + m ≡ o + (n + k + l)
      sum m k l r n o h g = omega arith

  pub pop_action-IsRooted :
      (index : ℕ) (p q : DiscreteActionPool A) (a : DiscreteAction A)
      → IsRooted p
      → pop_action index p ≡ some (a, q)
      → IsRooted q
  unfolding pop_action
  pop_action-IsRooted index p q a r e =
      subst (After (λ b u. IsRooted u)) e
        (popped-IsRooted p _ r (take_out-Kept p.actions_ready index))

  pub pop_action-tally :
      (t : DiscreteAction A → Bool) (index : ℕ) (p q : DiscreteActionPool A) (a : DiscreteAction A)
      → pop_action index p ≡ some (a, q)
      → pool_tally t p ≡ one (t a) + pool_tally t q
  unfolding pop_action
  pop_action-tally t index p q a e =
      subst (After (λ b u. pool_tally t p ≡ one (t b) + pool_tally t u)) e
        (popped-tally t p _ (take_out-Counted t p.actions_ready index))

  taken : (s : List (DiscreteAction A)) (index : ℕ) → take_out index s ≡ none → length s ≤ index
  unfolding take_out length with_first
  taken [] index e = omega arith
  taken (a ∷ s) zero e = absurd (cc e)
  taken (a ∷ s) (suc index) e = elim (Option-cases (take_out index s)) [
    | inl f ↦ further (taken s index f)
    | inr g ↦ absurd (cc (e, g.1))
  ]
    where
      further : length s ≤ index → suc (length s) ≤ suc index
      further h = omega arith

  pub pop_action-none :
      (index : ℕ) (p : DiscreteActionPool A) → pop_action index p ≡ none → get_action_n p ≤ index
  unfolding pop_action popped get_action_n
  pop_action-none index p e = elim (Option-cases (take_out index p.actions_ready)) [
    | inl f ↦ taken p.actions_ready index f
    | inr g ↦ absurd (cc (e, g.1))
  ]
