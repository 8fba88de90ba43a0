-- ===== src/And/Effect.antt =====
-- How a call of package and runs: on a state, with the actions that it makes in order. An action
-- is a write to the event channel, a call of a peer's `TrySend`, or a counter of and/and_diag.go.
-- The channel holds 4096 events in the program; here a write never waits.
use abyss_core.Prelude.{ℕ, Bool, true, false, List, [], ◌∷◌, ◌++◌, Option, none, some}
use abyss_core.Interfaces.{Peer, NeighborEvent, Message}

-- The message types of ahmp/raw_message.go.
pub data Kind : Type 0 where
  jn_t jok_t jdn_t jni_t mem_t sjn_t crr_t rst_t soa_t sod_t : Kind

pub data Action : Type 0 where
  raised : NeighborEvent → Action
  sent : Peer → Message → Action
  tx rx : Kind → Action
  w_branch b_branch : ℕ → Action

-- `panicked` is a panic or a nil dereference.
pub data Outcome (S A : Type 0) : Type 0 where
  panicked : Outcome S A
  ret : A → S → List Action → Outcome S A

abbrev pub M : Type 0 → Type 0 → Type 0
M S A = S → Outcome S A

module _ {S A : Type 0} where
  abbrev pub prepend : List Action → Outcome S A → Outcome S A
  prepend acts panicked = panicked
  prepend acts (ret a s more) = ret a s (acts ++ more)

-- What follows a call that has ended.
abbrev pub after : {S A B : Type 0} → Outcome S A → (A → M S B) → Outcome S B
after panicked f = panicked
after (ret a t acts) f = prepend acts (f a t)

abbrev pub map_result : {S A B : Type 0} → (A → B) → Outcome S A → Outcome S B
map_result f panicked = panicked
map_result f (ret a t acts) = ret (f a) t acts

infixl 5 ◌>>=◌ ◌>>◌
abbrev pub ◌>>=◌ : {S A B : Type 0} → M S A → (A → M S B) → M S B
◌>>=◌ m f s = after (m s) f

abbrev pub ◌>>◌ : {S B : Type 0} → M S (Unit {0}) → M S B → M S B
◌>>◌ m k s = after (m s) (λ _. k)

-- The same call with its result mapped.
abbrev pub fmap : {S A B : Type 0} → (A → B) → M S A → M S B
fmap f m s = map_result f (m s)

module _ {S : Type 0} where
  abbrev pub pure : {A : Type 0} → A → M S A
  pure a s = ret a s []

  abbrev pub fault : {A : Type 0} → M S A
  fault s = panicked

  abbrev pub act : Action → M S (Unit {0})
  act a s = ret tt s (a ∷ [])

  abbrev pub skip : M S (Unit {0})
  skip s = ret tt s []

  -- `if cond { ... }`
  abbrev pub when : Bool → M S (Unit {0}) → M S (Unit {0})
  when b m s = elim b [ true ↦ m s | false ↦ skip s ]

  -- `w.ech <- e`
  abbrev pub raise : NeighborEvent → M S (Unit {0})
  raise e = act (raised e)

  -- A call of `TrySend` on a peer that may be nil. The result is not read by the callers.
  abbrev pub send : Option Peer → Message → M S (Unit {0})
  send none m = fault
  send (some p) m = act (sent p m)

  abbrev pub stat_w : ℕ → M S (Unit {0})
  stat_w i = act (w_branch i)

  -- A method call on an interface value that may be nil.
  abbrev pub deref : {A : Type 0} → Option A → M S A
  deref none = fault
  deref (some a) = pure a
