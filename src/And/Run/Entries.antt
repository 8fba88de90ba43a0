-- ===== src/And/Run/Entries.antt =====
-- Calls on one entry, and single actions, as runs of the world.
use abyss_core.Prelude.{
  ltb, String, [], ◌∷◌, none, ◌≡◌, refl, ◌≢◌, true, subst, sym, ◌∙◌, ap, string_eq, nat_eq,
}
use abyss_core.And.Effect.{Action, M, raised, w_branch}
use abyss_core.Interfaces.NeighborEvent.{session_ready, session_close}
use abyss_core.And.State.{AndWorld, Slot}
use abyss_core.And.Monitor.{IsPlaced}
use abyss_core.And.Steps.{Steps}
use abyss_core.And.World.{at_peer}
use abyss_core.And.Run.{IsWorld, IsRun, Runs, IsVoid, put_back-Runs}

-- A call on the entry of `k`, which leaves an empty slot empty.
pub at_known-Runs :
    {A : Type 0} (w : AndWorld) (k : String) (f : AndWorld → M Slot A)
    → IsWorld w
    → IsVoid (f w none)
    → ((s : Slot) → IsPlaced k s → Steps k s (f w s))
    → Runs w (at_peer k f w)
unfolding at_peer
at_known-Runs w k f h void steps =
    put_back-Runs w k (f w (w.peers k)) h
      (λ e. subst (λ s. IsVoid (f w s)) (sym (ap w.peers e ∙ h.no_self)) void)
      (steps (w.peers k) (h.placed k))

-- A call that may make the entry of another hash.
pub at_new-Runs :
    {A : Type 0} (w : AndWorld) (k : String) (f : AndWorld → M Slot A)
    → IsWorld w
    → k ≢ w.local
    → ((s : Slot) → IsPlaced k s → Steps k s (f w s))
    → Runs w (at_peer k f w)
unfolding at_peer
at_new-Runs w k f h other steps =
    put_back-Runs w k (f w (w.peers k)) h (λ e. absurd (other e)) (steps (w.peers k) (h.placed k))

-- An action that is neither sent nor counted, and no event of membership.
abbrev pub IsPlain : Action → Type 0
IsPlain (raised (session_ready l s)) = ⊥
IsPlain (raised (session_close l s)) = ⊥
IsPlain (raised e) = Unit {0}
IsPlain (w_branch i) = ltb i 85 ≡ true
IsPlain _ = ⊥

pub plain-IsRun : (w : AndWorld) (a : Action) → IsWorld w → IsPlain a → IsRun w w (a ∷ [])
plain-IsRun w (w_branch i) h p = record {
  world = h;
  same_local = refl;
  same_lsid = refl;
  told = λ k. refl;
  counted = rw p;
}
plain-IsRun w (raised (session_ready l s)) h p = absurd p
plain-IsRun w (raised (session_close l s)) h p = absurd p
plain-IsRun w (raised e) h p = record {
  world = h;
  same_local = refl;
  same_lsid = refl;
  told = λ k. refl;
  counted = refl;
}
plain-IsRun w _ h p = absurd p

pub skip-IsRun : (w : AndWorld) → IsWorld w → IsRun w w []
skip-IsRun w h = record {
  world = h;
  same_local = refl;
  same_lsid = refl;
  told = λ k. refl;
  counted = refl;
}
