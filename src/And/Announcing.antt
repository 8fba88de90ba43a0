-- ===== src/And/Announcing.antt =====
-- TimerExpire: whom a round announces, and to whom.
use abyss_core.Prelude.{
  String, string_eq, ℕ, nat_eq, suc, List, [], ◌∷◌, ◌++◌, Option, none, some, ◌≡◌, refl, sym, ◌∙◌,
  ap, arith, true, false, Bool, Bool-cases, Option-cases, inl, inr, ◌==◌, if◌then◌else◌, put,
  put-ne, put_self, key_cases, map, ◌+◌, ◌*◌, leb, ◌&&◌, not, subst, ne_of_test,
}
use mathlib.Core.List.{append_assoc, append-nil}
use abyss_core.Interfaces.{Uuid, Time, Peer, Message, AndPeerSessionIdentity}
use abyss_core.Interfaces.NeighborEvent.{timer_request}
use abyss_core.And.Effect.{ret, Action, raised, sent, tx, w_branch, Kind}
use abyss_core.And.State.{AndWorld, Slot, AndPeerSessionState, WorldState}
use abyss_core.And.Monitor.{IsPlaced, hash_of, expected}
use abyss_core.And.World.{at_peer, visit}
use abyss_core.And.Members.{
  is_mem, is_passed_over, announce, announce_all, tell, tell_all, timer_expire, second,
}
use abyss_core.And.Run.{IsWorld}
use abyss_core.And.Ends.Loops.{IsHeld, AllHeld, visit-AllHeld}
use abyss_core.And.Closing.{occurs}
use abyss_core.And.Rounds.{sends, sends-append, members}

-- The name of an entry: its peer's hash, with its session.
abbrev pub named : Option Peer → Uuid → List AndPeerSessionIdentity
named none sid = []
named (some p) sid = record { peer_hash = p.id_hash; session_id = sid } ∷ []

-- A member whose session is a second old, is not suppressed and has an SJN count of at most 3.
unfoldable pub is_due : Time → AndPeerSessionState → Bool
is_due now i = is_mem i.state && leb (i.time_stamp + second) now && not i.sjnp && leb i.sjnc 3

due_or_passed_over :
    (now : Time) (i : AndPeerSessionState) → is_passed_over now i ≡ not (is_due now i)
unfolding is_passed_over is_due
due_or_passed_over now i = ground arith

-- The names of the entries that are due.
unfoldable pub announced : Time → List AndPeerSessionState → List AndPeerSessionIdentity
announced now [] = []
announced now (i ∷ infos) =
    let rest = announced now infos in
    if is_due now i then named i.peer i.peer_session_id ++ rest else rest

-- A range visits no key twice.
abbrev pub IsRange : List String → Type 0
IsRange [] = Unit {0}
IsRange (k ∷ order) = (occurs k order ≡ 0) × IsRange order

abbrev entries : Slot → List AndPeerSessionState
entries none = []
entries (some i) = i ∷ []

visit-cons :
    (w : AndWorld) (k : String) (order : List String)
    → visit w.peers (k ∷ order) ≡ entries (w.peers k) ++ visit w.peers order
unfolding visit
visit-cons w k order = elim (Option-cases (w.peers k)) [
  | inl e ↦ rw (e, visit) refl
  | inr (i, e) ↦ rw (e, visit) refl
]

visit-put :
    (w : AndWorld) (k : String) (s : Slot) (order : List String)
    → occurs k order ≡ 0
    → visit (put k s w.peers) order ≡ visit w.peers order
unfolding visit occurs
visit-put w k s [] h = refl
visit-put w k s (j ∷ order) h = elim (Bool-cases (j == k)) [
  | inl e ↦ absurd (ground arith)
  | inr e ↦
      let same = put-ne k j s w.peers (λ q. ne_of_test j k e (sym q)) in
      let rest = visit-put w k s order (ground arith) in
      elim (Option-cases (w.peers j)) [
        | inl f ↦ rw (same ∙ f, f, visit) rest
        | inr (i, f) ↦ rw (same ∙ f, f, visit) (ap (λ l. i ∷ l) rest)
      ]
]

announced-append :
    (now : Time) (xs ys : List AndPeerSessionState)
    → announced now (xs ++ ys) ≡ announced now xs ++ announced now ys
unfolding announced
announced-append now [] ys = refl
announced-append now (i ∷ xs) ys = elim (Bool-cases (is_due now i)) [
  | inl e ↦ rw e (
      ap (λ l. named i.peer i.peer_session_id ++ l) (announced-append now xs ys)
      ∙ sym (append_assoc (named i.peer i.peer_session_id) (announced now xs) (announced now ys)))
  | inr e ↦ rw e (announced-append now xs ys)
]

due_mem : (now : Time) (i : AndPeerSessionState) → is_due now i ≡ true → is_mem i.state ≡ true
unfolding is_due
due_mem now i e = ground arith

member_peer :
    (k : String) (i : AndPeerSessionState)
    → IsPlaced k (some i)
    → is_mem i.state ≡ true
    → (p : Peer) × (i.peer ≡ some p)
member_peer k i h e = go i.peer i.state e h
  where
    go :
        (q : Option Peer) (s : WorldState)
        → is_mem s ≡ true
        → hash_of q ≡ expected s k
        → (p : Peer) × (q ≡ some p)
    go none s e h = absurd (ground arith)
    go (some p) s e h = (p, refl)

announce-ret :
    (now : Time) (k : String) (w : AndWorld) (s : Slot)
    → IsPlaced k s
    → (t : Slot) × (acts : List Action) × (announce now w s
        ≡ ret (announced now (entries s)) t acts)
      × (sends acts ≡ [])
      × IsPlaced k t
unfolding announce announced sends
announce-ret now k w none h = (none, [], refl, refl, tt)
announce-ret now k w (some i) h = elim (Bool-cases (is_due now i)) [
  | inl e ↦
      let (p, f) = member_peer k i h (due_mem now i e) in
      (
        some (record i { sjnc = i.sjnc + 1 }),
        w_branch 75 ∷ [],
        rw (due_or_passed_over now i) (rw e (rw f refl)),
        refl,
        h,
      )
  | inr e ↦ (some i, w_branch 74 ∷ [], rw (due_or_passed_over now i) (rw e refl), refl, h)
]

put-IsPlaced :
    (w : AndWorld) (k : String) (t : Slot)
    → ((j : String) → IsPlaced j (w.peers j))
    → IsPlaced k t
    → (j : String) → IsPlaced j (put k t w.peers j)
put-IsPlaced w k t h g j = elim (key_cases k j) [
  | inl e ↦ subst (λ i. IsPlaced i (put k t w.peers i)) e (rw (put_self k t w.peers) g)
  | inr n ↦ rw (put-ne k j t w.peers n) (h j)
]

announce_all-ret :
    (now : Time) (order : List String) (w : AndWorld)
    → IsRange order
    → ((k : String) → IsPlaced k (w.peers k))
    → (v : AndWorld) × (acts : List Action) × (announce_all now order w
        ≡ ret (announced now (visit w.peers order)) v acts)
      × (sends acts ≡ [])
      × (v.lsid ≡ w.lsid)
      × ((k : String) → IsPlaced k (v.peers k))
unfolding announce_all announced at_peer visit sends
announce_all-ret now [] w r h = (w, [], refl, refl, refl, h)
announce_all-ret now (k ∷ order) w r h =
    let (t, xs, e, f, g) = announce-ret now k w (w.peers k) (h k) in
    let u = record w { peers = put k t w.peers } in
    let (v, ys, e', f', l, g') = announce_all-ret now order u r.1 (λ j. put-IsPlaced w k t h g j) in
    (
      v,
      xs ++ ys,
      rw e (
          rw e' (
            ap (λ ids. ret ids v (xs ++ ys))
              (ap (λ infos. announced now (entries (w.peers k)) ++ announced now infos)
                  (visit-put w k t order r.0)
                ∙ sym (announced-append now (entries (w.peers k)) (visit w.peers order))
                ∙ ap (announced now) (sym (visit-cons w k order))))),
      sends-append xs ys ∙ rw (f, f') refl,
      l,
      g',
    )

-- A round: an SJN with the names to every member, unless there are no names.
unfoldable pub round :
    Uuid → List AndPeerSessionIdentity → List AndPeerSessionState → List (Option Peer × Message)
round lsid [] infos = []
round lsid (m ∷ ms) infos =
    map (λ q. (q.peer, Message.sjn lsid q.peer_session_id (m ∷ ms))) (members infos)

round-cons :
    (lsid : Uuid) (ids : List AndPeerSessionIdentity) (i : AndPeerSessionState)
    (infos : List AndPeerSessionState)
    → is_mem i.state ≡ false
    → round lsid ids (i ∷ infos) ≡ round lsid ids infos
unfolding round members
round-cons lsid [] i infos e = refl
round-cons lsid (m ∷ ms) i infos e = rw e refl

tell-sends :
    (ids : List AndPeerSessionIdentity) (i : AndPeerSessionState) (infos : List AndPeerSessionState)
    (w : AndWorld)
    → IsHeld i
    → is_mem i.state ≡ true
    → (acts : List Action) × (tell ids i w ≡ ret tt w acts)
      × (sends acts ++ round w.lsid ids infos ≡ round w.lsid ids (i ∷ infos))
unfolding tell round members sends
tell-sends [] i infos w h e = ([], refl, refl)
tell-sends (m ∷ ms) i infos w (k, h) e =
    let (p, f) = member_peer k i h e in
    (
      w_branch 77 ∷ tx Kind.sjn_t ∷ sent p (Message.sjn w.lsid i.peer_session_id (m ∷ ms)) ∷ [],
      rw f refl,
      rw e (rw f refl),
    )

tell_all-sends :
    (ids : List AndPeerSessionIdentity) (infos : List AndPeerSessionState) (w : AndWorld)
    → AllHeld infos
    → (acts : List Action) × (n : ℕ) × (tell_all ids infos w ≡ ret n w acts)
      × (sends acts ≡ round w.lsid ids infos)
unfolding tell_all sends
tell_all-sends [] [] w h = unfold round in ([], 0, refl, refl)
tell_all-sends (m ∷ ms) [] w h = unfold round members in ([], 0, refl, refl)
tell_all-sends ids (i ∷ infos) w h =
    let (ys, n, e, f) = tell_all-sends ids infos w h.1 in
    elim (Bool-cases (is_mem i.state)) [
      | inl m ↦
          let (xs, e', f') = tell-sends ids i infos w h.0 m in
          (
            xs ++ ys,
            suc n,
            rw m (rw e' (rw e refl)),
            sends-append xs ys ∙ ap (λ l. sends xs ++ l) f ∙ f',
          )
      | inr m ↦ (w_branch 76 ∷ ys, n, rw m (rw e refl), f ∙ sym (round-cons w.lsid ids i infos m))
    ]

-- TimerExpire, where the first range visits no key twice: it ends, and what it sends is one SJN for
-- each member that the second range visits, all with the same names, and nothing if there are no
-- names. The names are those of the visited members whose session is a second old, is not
-- suppressed and whose SJN count is at most 3, in the order of the first range.
pub timer_expire-sends :
    (draw : ℕ → ℕ) (now : Time) (first then_order : List String) (w : AndWorld)
    → IsWorld w
    → IsRange first
    → (v : AndWorld) × (acts : List Action) × (timer_expire draw now first then_order w
        ≡ ret tt v acts)
      × (sends acts ≡ round w.lsid (announced now (visit w.peers first)) (visit v.peers then_order))
unfolding timer_expire sends
timer_expire-sends draw now first then_order w h r =
    let (v, xs, e, f, l, g) = announce_all-ret now first w r h.placed in
    let ids = announced now (visit w.peers first) in
    let (ys, n, e', f') =
      tell_all-sends ids (visit v.peers then_order) v (visit-AllHeld v.peers then_order g) in
    let last : List Action = raised (timer_request w.lsid (300 + draw (300 * (n + 1)))) ∷ [] in
    (
      v,
      xs ++ (ys ++ last),
      rw e (rw e' refl),
      sends-append xs (ys ++ last)
          ∙ rw f (
              sends-append ys last
              ∙ append-nil (sends ys)
              ∙ f'
              ∙ ap (λ s. round s ids (visit v.peers then_order)) l),
    )
