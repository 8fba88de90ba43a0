-- ===== src/Host/Histories.antt =====
-- The event loop of host/host.go on all that the discovery of neighbours tells of an opened world.
use abyss_core.Prelude.{
  ℕ, String, List, [], ◌∷◌, ◌++◌, Option, none, some, ◌≡◌, refl, ◌∙◌, sym, map, put_self, nat_eq,
  subst, arith, ◌+◌,
}
use abyss_core.Interfaces.{Uuid, NeighborEvent}
use abyss_core.Interfaces.NeighborEvent.{join_success, timer_request}
use abyss_core.And.Effect.{Action, raised, sent, tx, rx, w_branch, b_branch}
use abyss_core.And.State.{AndWorld}
use abyss_core.And.Monitor
use abyss_core.And.Monitor.{replay, All, member_of}
use abyss_core.And.Run.{member_at}
use abyss_core.And.Call.History.{
  Reached, opened, joined, called, call-IsRun, Reached-IsWorld, Reached-told,
}
use abyss_core.And.Calm.{IsTameAct}
use abyss_core.And.Calm.Loops.{IsCalm}
use abyss_core.And.Calm.Calls.{events, events-append, call-StaysCalm, new_world_open-OpensCalm}
use abyss_core.Host.{
  World, AbyssHost, Handled, handled, panicked as died, blocked, event_loop, more, and_then,
  enqueue, answer, new_world,
}
use abyss_core.Host
use abyss_core.Host.Opened.{IsFollowing, Follows, tame-Follows, same-IsFollowing, count_of}

-- The history is that of a world which OpenWorld made under `lsid`.
abbrev pub IsOpened : Uuid → {w : AndWorld} → {acts : List Action} → Reached w acts → Type 0
IsOpened lsid (opened local l wurl members now other e) = l ≡ lsid
IsOpened lsid (joined local l target members now n other e) = ⊥
IsOpened lsid (called v before now c reached r e split) = IsOpened lsid reached

more-Follows :
    (lsid : Uuid) (base : String → ℕ) (m : String → Option Uuid) (acts : List Host.HostAction)
    (o : Handled)
    → Follows lsid base m o
    → Follows lsid base m (more acts o)
more-Follows lsid base m acts died p = p
more-Follows lsid base m acts blocked p = p
more-Follows lsid base m acts (handled h xs) p = p

and_then-Follows :
    (lsid : Uuid) (base : String → ℕ) (m n : String → Option Uuid) (o : Handled)
    (f : AbyssHost → Handled)
    → Follows lsid base m o
    → ((h : AbyssHost) → IsFollowing lsid base m h → Follows lsid base n (f h))
    → Follows lsid base n (and_then o f)
and_then-Follows lsid base m n died f p q = p
and_then-Follows lsid base m n blocked f p q = p
and_then-Follows lsid base m n (handled h acts) f p q = more-Follows lsid base n acts (f h) (q h p)

-- The first action of a run that a monitor takes, and the rest.
taken :
    (k : String) (v y : Option Uuid) (a : Action) (acts : List Action)
    → replay (member_at k) v (a ∷ acts) ≡ some y
    → (u : Option Uuid) × (member_at k v a ≡ some u) × (replay (member_at k) u acts ≡ some y)
taken k v y a acts = go (member_at k v a)
  where
    go :
        (x : Option (Option Uuid))
        → Monitor.and_then x (λ u. replay (member_at k) u acts) ≡ some y
        → (u : Option Uuid) × (x ≡ some u) × (replay (member_at k) u acts ≡ some y)
    go none e = ground arith
    go (some u) e = (u, refl, e)

module _ (lsid : Uuid) (base : String → ℕ) where
  replayed-Follows :
      (acts : List Action) (m n : String → Option Uuid) (h : AbyssHost)
      → All (IsTameAct lsid) acts
      → ((k : String) → replay (member_at k) (m k) acts ≡ some (n k))
      → IsFollowing lsid base m h
      → Follows lsid base n (event_loop (events acts) h)
  unfolding event_loop events
  replayed-Follows [] m n h c t f = same-IsFollowing lsid base m n h t f
  replayed-Follows (raised e ∷ acts) m n h c t f =
      and_then-Follows lsid base (λ k. (taken k (m k) (n k) (raised e) acts (t k)).0) n _
        (event_loop (events acts))
        (tame-Follows lsid base m (λ k. (taken k (m k) (n k) (raised e) acts (t k)).0) e h c.0
          (λ k. (taken k (m k) (n k) (raised e) acts (t k)).1) f)
        (λ g f'.
          replayed-Follows acts (λ k. (taken k (m k) (n k) (raised e) acts (t k)).0) n g c.1
            (λ k. (taken k (m k) (n k) (raised e) acts (t k)).2) f')
  replayed-Follows (sent p a ∷ acts) m n h c t f = replayed-Follows acts m n h c.1 t f
  replayed-Follows (tx k ∷ acts) m n h c t f = replayed-Follows acts m n h c.1 t f
  replayed-Follows (rx k ∷ acts) m n h c t f = replayed-Follows acts m n h c.1 t f
  replayed-Follows (w_branch i ∷ acts) m n h c t f = replayed-Follows acts m n h c.1 t f
  replayed-Follows (b_branch i ∷ acts) m n h c t f = replayed-Follows acts m n h c.1 t f

  more_back :
      (m : String → Option Uuid) (acts : List Host.HostAction) (o : Handled)
      → Follows lsid base m (more acts o)
      → Follows lsid base m o
  more_back m acts died p = p
  more_back m acts blocked p = p
  more_back m acts (handled h xs) p = p

  loop-append-Follows :
      (xs ys : List NeighborEvent) (m n : String → Option Uuid) (h : AbyssHost)
      → Follows lsid base m (event_loop xs h)
      → ((g : AbyssHost) → IsFollowing lsid base m g → Follows lsid base n (event_loop ys g))
      → Follows lsid base n (event_loop (xs ++ ys) h)
  unfolding event_loop
  loop-append-Follows [] ys m n h p q = q h p
  loop-append-Follows (e ∷ xs) ys m n h p q =
      go (Host.handle_event e h) p (λ g. loop-append-Follows xs ys m n g)
    where
      go :
          (o : Handled)
          → Follows lsid base m (and_then o (event_loop xs))
          → ((g : AbyssHost)
              → Follows lsid base m (event_loop xs g)
              → ((g' : AbyssHost)
                  → IsFollowing lsid base m g'
                  → Follows lsid base n (event_loop ys g'))
              → Follows lsid base n (event_loop (xs ++ ys) g))
          → Follows lsid base n (and_then o (event_loop (xs ++ ys)))
      go died p rest = p
      go blocked p rest = p
      go (handled g acts) p rest =
          more-Follows lsid base n acts (event_loop (xs ++ ys) g)
            (rest g (more_back m acts (event_loop xs g) p) q)

and_then-same :
    {A B : Type 0} (o : Option A) {f g : A → Option B}
    → ((a : A) → f a ≡ g a)
    → Monitor.and_then o f ≡ Monitor.and_then o g
and_then-same none same = refl
and_then-same (some a) same = same a

-- What the monitor of a hash reads of a run are its events.
replay-events :
    (k : String) (v : Option Uuid) (acts : List Action)
    → replay (member_at k) v acts ≡ replay (member_at k) v (map raised (events acts))
unfolding events
replay-events k v [] = refl
replay-events k v (raised e ∷ acts) =
    and_then-same (member_at k v (raised e)) (λ u. replay-events k u acts)
replay-events k v (sent p a ∷ acts) = replay-events k v acts
replay-events k v (tx c ∷ acts) = replay-events k v acts
replay-events k v (rx c ∷ acts) = replay-events k v acts
replay-events k v (w_branch i ∷ acts) = replay-events k v acts
replay-events k v (b_branch i ∷ acts) = replay-events k v acts

module _ (lsid : Uuid) where
  Reached-IsCalm :
      (w : AndWorld) (acts : List Action) (reached : Reached w acts)
      → IsOpened lsid reached
      → IsCalm lsid w
  Reached-IsCalm w acts (opened local l wurl members now other e) o =
      subst (λ i. IsCalm i w) o (rw e at (new_world_open-OpensCalm local l wurl members now)).0
  Reached-IsCalm w acts (joined local l target members now n other e) o = absurd o
  Reached-IsCalm w acts (called v before now c reached r e split) o =
      (rw e at (call-StaysCalm lsid c v (Reached-IsCalm v before reached o))).0

  opened_told :
      (w : AndWorld) (acts : List Action) (wurl : String) (k : String)
      → Reached w acts
      → events acts ≡ join_success lsid wurl ∷ timer_request lsid 500 ∷ []
      → some none ≡ some (member_of (w.peers k))
  opened_told w acts wurl k reached e =
      sym (replay-events k none acts ∙ rw e refl) ∙ Reached-told w acts k reached

  opening-Follows :
      (wurl : String) (m : String → Option Uuid) (h : AbyssHost) (ch : ℕ)
      → ((k : String) → some none ≡ some (m k))
      → Follows lsid h.active_cnt m
          (event_loop (join_success lsid wurl ∷ timer_request lsid 500 ∷ []) (enqueue lsid ch h))
  unfolding event_loop Host.handle_event enqueue
  opening-Follows wurl m h ch none_yet = rw (put_self lsid (some ch) h.join_queue) (record {
    world = _;
    there = put_self lsid _ h.worlds;
    counted = λ k. uncounted k (m k) (none_yet k);
  })
    where
      uncounted :
          (k : String) (v : Option Uuid)
          → some none ≡ some v
          → h.active_cnt k ≡ h.active_cnt k + count_of v
      uncounted k none e = ground arith
      uncounted k (some sid) e = ground arith

  -- Once the host waits for the world, its event loop goes through all events of a history of the
  -- opened world to the end: it knows the world at each of them, every event that should name a
  -- peer does, and no peer is deactivated more often than activated. In the end it has the world, and it
  -- counts each peer as active once more than before if the peer is a member, and as often as before if not.
  pub event_loop-Follows :
      (w : AndWorld) (acts : List Action) (reached : Reached w acts) (h : AbyssHost) (ch : ℕ)
      → IsOpened lsid reached
      → Follows lsid h.active_cnt
          (λ k. member_of (w.peers k))
          (event_loop (events acts) (enqueue lsid ch h))
  event_loop-Follows w acts (opened local l wurl members now other e) h ch o =
      let told =
        subst (λ i. events acts ≡ join_success i wurl ∷ timer_request i 500 ∷ []) o
          (rw e at (new_world_open-OpensCalm local l wurl members now)).1 in
      rw told (
        opening-Follows wurl (λ k. member_of (w.peers k)) h ch
          (λ k. opened_told w acts wurl k (opened local l wurl members now other e) told))
  event_loop-Follows w acts (joined local l target members now n other e) h ch o = absurd o
  event_loop-Follows w acts (called v before now c reached r e split) h ch o = rw split (
      rw (events-append before now) (
        loop-append-Follows lsid h.active_cnt (events before) (events now)
          (λ k. member_of (v.peers k)) (λ k. member_of (w.peers k)) _
          (event_loop-Follows v before reached h ch o)
          (λ g f.
            replayed-Follows lsid h.active_cnt now _ _ g
              (rw e at (call-StaysCalm lsid c v (Reached-IsCalm v before reached o))).1
              (call-IsRun c v w now (Reached-IsWorld v before reached) r e).told f)))
