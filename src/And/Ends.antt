-- ===== src/And/Ends.antt =====
-- Which calls end without a panic.
pub mod Infos
pub mod Loops
pub mod Requests
use abyss_core.Prelude.{
  String, none, some, ◌≡◌, refl, true, false, Bool, [], List, subst, put, put_self, put-ne,
  key_cases, inl, inr, string_eq, ◌≢◌,
}
use abyss_core.And.Effect.{Outcome, panicked, ret, prepend, Action, M, after, map_result}
use abyss_core.And.State.{AndWorld, Slot, WorldState, ws_dc_jt, ws_dc_jni, ws_jt}
use abyss_core.And.World.{at_peer, put_back}
use abyss_core.And.Run.{IsWorld, IsRun, Runs}

abbrev pub Ends : {S A : Type 0} → Outcome S A → Type 0
Ends panicked = ⊥
Ends (ret a s acts) = Unit {0}

abbrev pub is_connected : WorldState → Bool
is_connected ws_dc_jt = false
is_connected ws_dc_jni = false
is_connected _ = true

-- The entry of a peer that is connected.
abbrev pub IsLive : Slot → Type 0
IsLive none = ⊥
IsLive (some i) = is_connected i.state ≡ true

-- The target of a join that has no answer yet.
abbrev pub is_target : WorldState → Bool
is_target ws_dc_jt = true
is_target ws_jt = true
is_target _ = false

abbrev pub IsFree : Slot → Type 0
IsFree none = Unit {0}
IsFree (some i) = is_target i.state ≡ false

abbrev pub AllFree : AndWorld → Type 0
AllFree w = (k : String) → IsFree (w.peers k)

pub prepend-Ends :
    {S A : Type 0} (xs : List Action) (o : Outcome S A) → Ends o → Ends (prepend xs o)
prepend-Ends xs panicked p = p
prepend-Ends xs (ret a s acts) p = tt

pub after-Ends :
    {A B : Type 0} (u : AndWorld) (o : Outcome AndWorld A) (f : A → M AndWorld B)
    → Runs u o
    → Ends o
    → ((a : A) (v : AndWorld) → IsWorld v → Ends (f a v))
    → Ends (after o f)
after-Ends u panicked f r p h = p
after-Ends u (ret a v xs) f r p h = prepend-Ends xs (f a v) (h a v r.world)

pub map_result-Ends :
    {S A B : Type 0} (f : A → B) (o : Outcome S A) → Ends o → Ends (map_result f o)
map_result-Ends f panicked p = p
map_result-Ends f (ret a s acts) p = tt

pub put_back-Ends :
    {A : Type 0} (w : AndWorld) (k : String) (o : Outcome Slot A) → Ends o → Ends (put_back w k o)
put_back-Ends w k panicked p = p
put_back-Ends w k (ret a s acts) p = tt
