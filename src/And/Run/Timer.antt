-- ===== src/And/Run/Timer.antt =====
-- TimerExpire as a run of the world.
use abyss_core.Prelude.{
  String, List, [], ◌∷◌, Option, none, some, refl, arith, ℕ, suc, string_eq, nat_eq, inl, inr,
  Bool-cases, ◌++◌, ◌+◌, ◌*◌,
}
use abyss_core.Interfaces.{Time, Peer, AndPeerSessionIdentity, Message}
use abyss_core.And.Effect.{act, send, stat_w, ◌>>◌, Kind, raised, w_branch, tx, tx}
use abyss_core.Interfaces.NeighborEvent.{timer_request}
use abyss_core.And.State.{AndWorld, Slot, AndPeerSessionState}
use abyss_core.And.Monitor.{IsPlaced}
use abyss_core.And.Steps.{Steps}
use abyss_core.And.World.{at_peer, visit}
use abyss_core.And.Members.{announce, announce_all, tell, tell_all, timer_expire, is_mem}
use abyss_core.And.Run.Entries.{at_known-Runs, plain-IsRun, skip-IsRun}
use abyss_core.And.Run.{IsWorld, Runs, after-Runs, prepend-Runs, map_result-Runs}

pub announce-Steps :
    (k : String) (now : Time) (w : AndWorld) (s : Slot)
    → IsPlaced k s
    → Steps k s (announce now w s)
unfolding announce
announce-Steps k now w none h = ground arith
announce-Steps k now w (some i) h = ground arith

pub announce_all-Runs :
    (now : Time) (order : List String) (w : AndWorld)
    → IsWorld w
    → Runs w (announce_all now order w)
unfolding announce_all announce
announce_all-Runs now [] w h = skip-IsRun w h
announce_all-Runs now (k ∷ order) w h =
    after-Runs w (at_peer k (announce now) w) _
      (at_known-Runs w k (announce now) h refl (λ s. announce-Steps k now w s))
      (λ found v hv e.
        map_result-Runs v (λ rest. found ++ rest) (announce_all now order v)
          (announce_all-Runs now order v hv))

pub tell-Runs :
    (ids : List AndPeerSessionIdentity) (i : AndPeerSessionState) (w : AndWorld)
    → IsWorld w
    → Runs w (tell ids i w)
unfolding tell
tell-Runs [] i w h = skip-IsRun w h
tell-Runs (m ∷ ms) i w h = go i.peer
  where
    go :
        (q : Option Peer)
        → Runs w (
            (do
              stat_w 77
              act (tx Kind.sjn_t)
              send q (Message.sjn w.lsid i.peer_session_id (m ∷ ms)))
              w)
    go none = tt
    go (some p) = record {
      world = h;
      same_local = refl;
      same_lsid = refl;
      told = λ k. refl;
      counted = refl;
    }

pub tell_all-Runs :
    (ids : List AndPeerSessionIdentity) (infos : List AndPeerSessionState) (w : AndWorld)
    → IsWorld w
    → Runs w (tell_all ids infos w)
unfolding tell_all
tell_all-Runs ids [] w h = skip-IsRun w h
tell_all-Runs ids (i ∷ infos) w h = elim (Bool-cases (is_mem i.state)) [
  | inl e ↦ rw e (
      after-Runs w (tell ids i w) _ (tell-Runs ids i w h)
        (λ a v hv l. map_result-Runs v suc (tell_all ids infos v) (tell_all-Runs ids infos v hv)))
  | inr e ↦ rw e (
      prepend-Runs (w_branch 76 ∷ []) _ (plain-IsRun w (w_branch 76) h refl)
        (tell_all-Runs ids infos w h))
]

pub timer_expire-Runs :
    (draw : ℕ → ℕ) (now : Time) (first second_order : List String) (w : AndWorld)
    → IsWorld w
    → Runs w (timer_expire draw now first second_order w)
unfolding timer_expire
timer_expire-Runs draw now first second_order w h =
    after-Runs w (announce_all now first w) _ (announce_all-Runs now first w h) (λ ids v hv e.
      after-Runs v (tell_all ids (visit v.peers second_order) v) _
        (tell_all-Runs ids (visit v.peers second_order) v hv)
        (λ n u hu e'.
          plain-IsRun u (raised (timer_request w.lsid (300 + draw (300 * (n + 1))))) hu tt))
