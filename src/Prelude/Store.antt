-- ===== src/Prelude/Store.antt =====
-- Maps by key, as functions into `Option`: Go's `map[K]V`, where a missing key reads as `none`.
use Prim.Native.Nat.{ℕ}
use Prim.Native.String.{String}
use mathlib.Core.Path.{◌≡◌, refl}
use mathlib.Core.Logic.{◌↔◌, ◌≢◌, ◌⊎◌, inl, inr}
use mathlib.Core.Bool.{Bool, true, false}
use mathlib.Core.Option.{Option}
use text.Mathlib.Text.{◌==◌ as str_eq}
use text.Mathlib.TextEquality.{eq_iff}
use abyss_core.Prelude.Tests.{if◌then◌else◌, ◌==◌ as nat_beq, ==_iff, Bool-cases}

abbrev pub Mapping {ℓ κ} : Type ℓ → Type κ → Type (ℓ ⊔ κ)
Mapping K V = K → Option V

-- A type of keys: the test of two keys and what a passed test says.
pub record Key {ℓ} (K : Type ℓ) : Type ℓ where
  pub same : K → K → Bool
  pub same_iff : (k j : K) → (same k j ≡ true) ↔ (k ≡ j)

instance abbrev pub string_eq : Key String
string_eq = record { same = str_eq; same_iff = eq_iff }

instance abbrev pub nat_eq : Key ℕ
nat_eq = record { same = nat_beq; same_iff = ==_iff }

infix 50 ◌==◌
abbrev pub ◌==◌ {ℓ} : {K : Type ℓ} ⦃keys : Key K⦄ → K → K → Bool
◌==◌ ⦃keys⦄ k j = keys.same k j

module _ {ℓ κ} {K : Type ℓ} {V : Type κ} ⦃keys : Key K⦄ where
  -- The map with the slot of `k` replaced: `m[k] = v` for `some v`, `delete(m, k)` for `none`.
  unfoldable pub put : K → Option V → Mapping K V → Mapping K V
  put k v m j = if k == j then v else m j

  pub put_self : (k : K) (v : Option V) (m : Mapping K V) → put k v m k ≡ v
  unfolding put
  put_self k v m = rw ((keys.same_iff k k).1 refl)

  pub put-ne : (k j : K) (v : Option V) (m : Mapping K V) → k ≢ j → put k v m j ≡ m j
  unfolding put
  put-ne k j v m h = elim (Bool-cases (k == j)) [
    | inl p ↦ absurd (h ((keys.same_iff k j).0 p))
    | inr p ↦ rw p
  ]

module _ {ℓ} {K : Type ℓ} ⦃keys : Key K⦄ where
  pub key_cases : (k j : K) → (k ≡ j) ⊎ (k ≢ j)
  key_cases k j = elim (Bool-cases (k == j)) [
    | inl p ↦ inl ((keys.same_iff k j).0 p)
    | inr p ↦ inr (λ q. cc ((keys.same_iff k j).1 q))
  ]

  pub ne_of_test : (k j : K) → (k == j) ≡ false → k ≢ j
  ne_of_test k j p q = cc ((keys.same_iff k j).1 q)

module _ {ℓ κ μ} {K : Type ℓ} {V : Type κ} ⦃keys : Key K⦄ where
  -- What holds of the old slot and of the new one.
  pub put_cases :
      (P : Option V → Type μ) (k j : K) (v : Option V) (m : Mapping K V)
      → P v
      → P (m j)
      → P (put k v m j)
  unfolding put
  put_cases P k j v m new old = elim (Bool-cases (k == j)) [ inl p ↦ rw p new | inr p ↦ rw p old ]

module _ {ℓ} {K : Type ℓ} ⦃keys : Key K⦄ where
  pub eq_of_test : (k j : K) → (k == j) ≡ true → k ≡ j
  eq_of_test k j p = (keys.same_iff k j).0 p
