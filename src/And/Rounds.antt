-- ===== src/And/Rounds.antt =====
-- What AcceptSession and TimerExpire send.
use abyss_core.Prelude.{
  String, ℕ, List, [], ◌∷◌, ◌++◌, Option, none, some, ◌≡◌, refl, arith, Bool-cases, inl, inr,
  nat_eq, string_eq, if◌then◌else◌, ◌≤◌, ◌<◌, ◌+◌, ◌*◌, put_self, put, subst, sym, map, ap, ◌∙◌,
}
use mathlib.Core.List.{append_assoc}
use abyss_core.Interfaces.{Uuid, Time, Peer, Message, AndPeerSessionIdentity}
use abyss_core.Interfaces.NeighborEvent.{timer_request}
use abyss_core.And.Effect.{
  Outcome, panicked, ret, prepend, after, Action, raised, sent, tx, rx, w_branch, b_branch, Kind,
  raise,
}
use abyss_core.And.State.{AndWorld, Slot, AndPeerSessionState, WorldState, ws_jn, ws_tmem, ws_mem}
use abyss_core.And.Monitor.{IsPlaced, hash_of, expected}
use abyss_core.And.Clear.{stamped_session_of}
use abyss_core.And.Info.{invite_one, invite, accept_jn, accept_session_info}
use abyss_core.And.World.{at_peer, visit}
use abyss_core.And.Members.{accept_session, is_mem, announce_all, tell_all, timer_expire}
use abyss_core.And.Run.{IsWorld, Runs}
use abyss_core.And.Run.Timer.{announce_all-Runs}
use abyss_core.And.Ends.{Ends}
use abyss_core.And.Ends.Loops.{
  IsHeld, AllHeld, visit-AllHeld, member_count, tell_all-ret, announce_all-Ends,
}

-- The messages of a run, each with the peer that it was handed to.
unfoldable pub sends : List Action → List (Option Peer × Message)
sends [] = []
sends (sent p m ∷ acts) = (some p, m) ∷ sends acts
sends (_ ∷ acts) = sends acts

pub sends-append : (xs ys : List Action) → sends (xs ++ ys) ≡ sends xs ++ sends ys
unfolding sends
sends-append [] ys = refl
sends-append (sent p m ∷ xs) ys = ap (λ l. (some p, m) ∷ l) (sends-append xs ys)
sends-append (raised e ∷ xs) ys = sends-append xs ys
sends-append (tx k ∷ xs) ys = sends-append xs ys
sends-append (rx k ∷ xs) ys = sends-append xs ys
sends-append (w_branch i ∷ xs) ys = sends-append xs ys
sends-append (b_branch i ∷ xs) ys = sends-append xs ys

-- The entries in WS_MEM.
unfoldable pub members : List AndPeerSessionState → List AndPeerSessionState
members [] = []
members (i ∷ infos) = if is_mem i.state then i ∷ members infos else members infos

-- The JNI that introduces the joiner `i` to the member `q`.
abbrev pub introduction :
    AndWorld → AndPeerSessionState → AndPeerSessionState → Option Peer × Message
introduction w i q = (q.peer, Message.jni w.lsid q.peer_session_id (stamped_session_of i))

invite_one-ret :
    (w : AndWorld) (i q : AndPeerSessionState) (s : Slot)
    → IsHeld q
    → (acts : List Action) × (invite_one q.state w i q s
        ≡ ret (if is_mem q.state then stamped_session_of q ∷ [] else []) s acts)
      × (sends acts ≡ (if is_mem q.state then introduction w i q ∷ [] else []))
unfolding invite_one sends
invite_one-ret w i q s (k, h) = go q.state q.peer h
  where
    go :
        (t : WorldState) (r : Option Peer)
        → hash_of r ≡ expected t k
        → (acts : List Action) × (invite_one t w i (record q { peer = r }) s
            ≡ ret (if is_mem t then stamped_session_of (record q { peer = r }) ∷ [] else []) s acts)
          × (sends acts ≡ (if is_mem t then introduction w i (record q { peer = r }) ∷ [] else []))
    go ws_mem none e = absurd (ground arith)
    go ws_mem (some p) e = (_, refl, refl)
    go _ r e = (w_branch 59 ∷ [], refl, refl)

invite-ret :
    (w : AndWorld) (i : AndPeerSessionState) (visited : List AndPeerSessionState) (s : Slot)
    → AllHeld visited
    → (acts : List Action) × (invite w i visited s
        ≡ ret (map stamped_session_of (members visited)) s acts)
      × (sends acts ≡ map (introduction w i) (members visited))
unfolding invite members sends
invite-ret w i [] s h = ([], refl, refl)
invite-ret w i (q ∷ visited) s h =
    let (xs, e, f) = invite_one-ret w i q s h.0 in
    let (ys, e', f') = invite-ret w i visited s h.1 in
    elim (Bool-cases (is_mem q.state)) [
      | inl m ↦ (xs ++ ys, rw e (rw e' (rw m refl)), sends-append xs ys ∙ rw (f, f', m))
      | inr m ↦ (xs ++ ys, rw e (rw e' (rw m refl)), sends-append xs ys ∙ rw (f, f', m))
    ]

-- The JOK that ends the round.
abbrev pub answer_of :
    AndWorld → AndPeerSessionState → List AndPeerSessionState → Option Peer × Message
answer_of w i ms =
    (i.peer, Message.jok w.lsid i.peer_session_id w.timestamp w.wurl (map stamped_session_of ms))

accept_jn-ret :
    (w : AndWorld) (i : AndPeerSessionState) (visited : List AndPeerSessionState) {p : Peer}
    → AllHeld visited
    → i.peer ≡ some p
    → (acts : List Action) × (accept_jn w visited i (some i)
        ≡ ret tt (some (record i { state = ws_tmem })) acts)
      × (sends acts
          ≡ map (introduction w i) (members visited) ++ answer_of w i (members visited) ∷ [])
unfolding accept_jn sends
accept_jn-ret w i visited {p} h e =
    let (xs, f, g) = invite-ret w i visited (some i) h in
    let m =
      Message.jok w.lsid i.peer_session_id w.timestamp w.wurl
        (map stamped_session_of (members visited)) in
    let ys = tx Kind.jok_t ∷ sent p m ∷ [] in
    (xs ++ ys, rw f (rw e refl), sends-append xs ys ∙ rw (g, e))

accept_waiting :
    (w : AndWorld) (visited : List AndPeerSessionState) (sid : Uuid) (i : AndPeerSessionState)
    → i.state ≡ ws_jn
    → i.peer_session_id ≡ sid
    → accept_session_info w visited sid (some i)
      ≡ prepend (w_branch 57 ∷ []) (accept_jn w visited i (some i))
unfolding accept_session_info
accept_waiting w visited sid i e same = ground arith

joiner_peer :
    (k : String) (i : AndPeerSessionState)
    → i.state ≡ ws_jn
    → IsPlaced k (some i)
    → (p : Peer) × (i.peer ≡ some p)
joiner_peer k i e h = go i.peer i.state e h
  where
    go :
        (q : Option Peer) (s : WorldState)
        → s ≡ ws_jn
        → hash_of q ≡ expected s k
        → (p : Peer) × (q ≡ some p)
    go none s e h = absurd (ground arith)
    go (some p) s e h = (p, refl)

-- AcceptSession for a peer whose JN waits: every member that the range visits is told of the joiner
-- by a JNI, in the order of the visit; then the joiner gets a JOK with the world's URL and the
-- sessions of the same members, and its entry becomes WS_TMEM. Nothing else is sent.
pub accept_session-sends :
    (order : List String) (p : Peer) (sid : Uuid) (w : AndWorld) (i : AndPeerSessionState)
    → IsWorld w
    → w.peers p.id_hash ≡ some i
    → i.state ≡ ws_jn
    → i.peer_session_id ≡ sid
    → let ms = members (visit w.peers order) in
      (v : AndWorld) × (acts : List Action) × (accept_session order p sid w ≡ ret tt v acts)
      × (sends acts ≡ map (introduction w i) ms ++ answer_of w i ms ∷ [])
      × (v.peers p.id_hash ≡ some (record i { state = ws_tmem }))
unfolding accept_session at_peer sends
accept_session-sends order p sid w i h e state same =
    let (q, f) =
      joiner_peer p.id_hash i state (subst (IsPlaced p.id_hash) e (h.placed p.id_hash)) in
    let (acts, g, s) =
      accept_jn-ret w i (visit w.peers order) (visit-AllHeld w.peers order h.placed) f in
    let slot = some (record i { state = ws_tmem }) in
    (
      record w { peers = put p.id_hash slot w.peers },
      w_branch 57 ∷ acts,
      rw e (rw (accept_waiting w (visit w.peers order) sid i state same) (rw g refl)),
      s,
      put_self p.id_hash slot w.peers,
    )

-- TimerExpire never panics, and its last action asks for the next timer: after 300 ms at least, and
-- less than 300 ms more for the host itself and for each member that the second range visits.
pub timer_expire-bounds :
    (draw : ℕ → ℕ) (now : Time) (first second_order : List String) (w : AndWorld)
    → IsWorld w
    → ((n : ℕ) → 0 < n → draw n < n)
    → (v : AndWorld) × (acts : List Action) × (n : ℕ) × (timer_expire draw now first second_order w
        ≡ ret tt v (acts ++ raised (timer_request w.lsid n) ∷ []))
      × (300 ≤ n)
      × (n < 300 + 300 * (member_count (visit v.peers second_order) + 1))
unfolding timer_expire
timer_expire-bounds draw now first second_order w h drawn =
    go (announce_all now first w) (announce_all-Runs now first w h)
      (announce_all-Ends now first w h)
  where
    go :
        (o : Outcome AndWorld (List AndPeerSessionIdentity))
        → Runs w o
        → Ends o
        → (v : AndWorld) × (acts : List Action) × (n : ℕ) × (after o (λ ids u.
              after
                (tell_all ids (visit u.peers second_order) u)
                (λ c. raise (timer_request w.lsid (300 + draw (300 * (c + 1))))))
            ≡ ret tt v (acts ++ raised (timer_request w.lsid n) ∷ []))
          × (300 ≤ n)
          × (n < 300 + 300 * (member_count (visit v.peers second_order) + 1))
    go panicked r p = absurd p
    go (ret ids v xs) r p =
        let c = member_count (visit v.peers second_order) in
        let (ys, e) =
          tell_all-ret ids (visit v.peers second_order) v
            (visit-AllHeld v.peers second_order r.world.placed) in
        let last : List Action = raised (timer_request w.lsid (300 + draw (300 * (c + 1)))) ∷ [] in
        (
          v,
          xs ++ ys,
          300 + draw (300 * (c + 1)),
          rw e (ap (ret tt v) (sym (append_assoc xs ys last))),
          omega arith,
          omega (arith, drawn (300 * (c + 1)) (omega arith)),
        )
