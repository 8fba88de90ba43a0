-- ===== src/And/Ends/Requests.antt =====
-- CRR ends where the peers that it asks for are connected; JNI and JOK where no join waits.
use abyss_core.Prelude.{
  String, none, some, ◌≡◌, ◌≢◌, refl, arith, Bool, true, false, List, [], ◌∷◌, Option, Bool-cases,
  inl, inr, ◌==◌, string_eq, nat_eq, if◌then◌else◌, put, put_self, put_cases, key_cases, subst,
}
use abyss_core.Interfaces.{
  Uuid, Time, Peer, AndFullPeerSessionIdentity, AndPeerSessionIdentity, AndPeerSessionWithTimeStamp,
  Message,
}
use abyss_core.And.Effect.{
  Outcome, panicked, ret, after, M, Action, w_branch, ◌>>◌, act, send, stat_w, tx, Kind, skip,
}
use abyss_core.And.State.{AndWorld, Slot, AndPeerSessionState, WorldState}
use abyss_core.And.Monitor.{IsPlaced, hash_of, expected}
use abyss_core.And.Clear.{stamped_session_of, is_proper_member_or_reset, clear_states, load}
use abyss_core.And.Info.{jok_info}
use abyss_core.And.World.{at_peer, put_back, jni_mems, jni_mems_all, jok, jni, proper}
use abyss_core.And.Members.{
  introduce_slot, crr_mems, crr_mems_all, crr, sjn, sjn_mems_all, origin_of,
}
use abyss_core.And.Steps.{jok_info-Steps}
use abyss_core.And.Run.Entries.{at_known-Runs}
use abyss_core.And.Run.FromMembers.{proper_call-Steps, load-Steps}
use abyss_core.And.Run.{IsWorld, Runs}
use abyss_core.And.Ends.{Ends, IsFree, AllFree, IsLive, is_connected, prepend-Ends}
use abyss_core.And.Ends.Loops.{jni_mems_all-Ends, jni_mems-Ends, sjn_mems_all-Ends}

-- No entry, or that of a connected peer.
abbrev pub IsMet : Slot → Type 0
IsMet none = Unit {0}
IsMet (some i) = is_connected i.state ≡ true

abbrev pub AllMet : AndWorld → List AndPeerSessionIdentity → Type 0
AllMet w [] = Unit {0}
AllMet w (m ∷ ms) = IsMet (w.peers m.peer_hash) × AllMet w ms

connected_peer :
    (k : String) (s : WorldState) (q : Option Peer)
    → hash_of q ≡ expected s k
    → is_connected s ≡ true
    → (p : Peer) × (q ≡ some p)
connected_peer k s none h c = absurd (ground arith)
connected_peer k s (some p) h c = (p, refl)

-- What `proper` leaves in the slot of a connected peer.
abbrev AfterProper : Slot → Outcome Slot Bool → Type 0
AfterProper s panicked = ⊥
AfterProper s (ret b t acts) = IsLive t × (IsFree s → IsFree t)

proper-AfterProper :
    (k : String) (c : Kind) (w : AndWorld) (sid : Uuid) (s : Slot)
    → IsPlaced k s
    → IsLive s
    → AfterProper s (proper c sid w s)
unfolding is_proper_member_or_reset clear_states
proper-AfterProper k c w sid none h live = absurd live
proper-AfterProper k c w sid (some i) h live = ground arith

-- A message that only a member may send ends if the rest of it does, in a world where the sender
-- is still connected, every other entry is as before, and the sender's is free if it was.
if_member-Ends :
    (p : Peer) (c : Kind) (sid : Uuid) (f : Bool → M AndWorld (Unit {0})) (w : AndWorld)
    → IsWorld w
    → IsLive (w.peers p.id_hash)
    → ((b : Bool) (t : Slot)
        → IsLive t
        → (IsFree (w.peers p.id_hash) → IsFree t)
        → let v = record w { peers = put p.id_hash t w.peers } in IsWorld v → Ends (f b v))
    → Ends (after (at_peer p.id_hash (proper c sid) w) f)
unfolding at_peer is_proper_member_or_reset
if_member-Ends p c sid f w h live next =
    go (proper c sid w (w.peers p.id_hash))
      (proper-AfterProper p.id_hash c w sid (w.peers p.id_hash) (h.placed p.id_hash) live)
      (at_known-Runs w p.id_hash (proper c sid) h tt (proper_call-Steps p.id_hash c sid w))
  where
    go :
        (o : Outcome Slot Bool)
        → AfterProper (w.peers p.id_hash) o
        → Runs w (put_back w p.id_hash o)
        → Ends (after (put_back w p.id_hash o) f)
    go panicked q r = q
    go (ret b t acts) q r = prepend-Ends acts _ (next b t q.0 q.1 r.world)

pub jni-Ends :
    (p : Peer) (sid : Uuid) (m : AndFullPeerSessionIdentity) (w : AndWorld)
    → IsWorld w
    → IsLive (w.peers p.id_hash)
    → AllFree w
    → Ends (jni p sid m w)
unfolding jni
jni-Ends p sid m w h live free = if_member-Ends p Kind.jni_t sid _ w h live next
  where
    next :
        (b : Bool) (t : Slot)
        → IsLive t
        → (IsFree (w.peers p.id_hash) → IsFree t)
        → let v = record w { peers = put p.id_hash t w.peers } in
          IsWorld v → Ends ((if b then (do stat_w 18; jni_mems m) else stat_w 17) v)
    next true t l f hv = prepend-Ends (w_branch 18 ∷ []) _ (
        jni_mems-Ends m (record w { peers = put p.id_hash t w.peers }) hv
          (λ j. put_cases IsFree p.id_hash j t w.peers (f (free p.id_hash)) (free j)))
    next false t l f hv = tt

pub sjn-Ends :
    (p : Peer) (sid : Uuid) (ms : List AndPeerSessionIdentity) (w : AndWorld)
    → IsWorld w
    → IsLive (w.peers p.id_hash)
    → Ends (sjn p sid ms w)
unfolding sjn
sjn-Ends p sid ms w h live = if_member-Ends p Kind.sjn_t sid _ w h live next
  where
    next :
        (b : Bool) (t : Slot)
        → IsLive t
        → (IsFree (w.peers p.id_hash) → IsFree t)
        → let v = record w { peers = put p.id_hash t w.peers } in
          IsWorld v → Ends ((if b then sjn_mems_all p sid ms else stat_w 40) v)
    next true t l f hv =
        sjn_mems_all-Ends p sid ms (record w { peers = put p.id_hash t w.peers }) hv
    next false t l f hv = tt

both_sent-ret :
    (q r : Option Peer) (l a b : Uuid) (m n : AndPeerSessionWithTimeStamp) (w : AndWorld)
    {p p' : Peer}
    → q ≡ some p
    → r ≡ some p'
    → (acts : List Action) × ((do
      stat_w 47
      act (tx Kind.jni_t)
      send q (Message.jni l a m)
      act (tx Kind.jni_t)
      send r (Message.jni l b n))
          w
        ≡ ret tt w acts)
both_sent-ret none r l a b m n w e e' = cc
both_sent-ret (some p) none l a b m n w e e' = cc
both_sent-ret (some p) (some r) l a b m n w e e' = (_, refl)

crr_mems-ret :
    (o : AndPeerSessionState) (m : AndPeerSessionIdentity) (w : AndWorld) {p : Peer}
    → IsWorld w
    → o.peer ≡ some p
    → IsMet (w.peers m.peer_hash)
    → (acts : List Action) × (crr_mems o m w ≡ ret tt w acts)
unfolding crr_mems introduce_slot
crr_mems-ret o m w {p} h e met = elim (Bool-cases (m.peer_hash == w.local)) [
  | inl l ↦ (w_branch 46 ∷ [], rw l)
  | inr l ↦ rw l (go (w.peers m.peer_hash) (h.placed m.peer_hash) met)
]
  where
    go :
        (s : Slot)
        → IsPlaced m.peer_hash s
        → IsMet s
        → (acts : List Action) × (introduce_slot o m s w ≡ ret tt w acts)
    go none q c = ([], refl)
    go (some i) q c = elim (Bool-cases (i.peer_session_id == m.session_id)) [
      | inl d ↦
          let (p', e') = connected_peer m.peer_hash i.state i.peer q c in
          rw d (
            both_sent-ret o.peer i.peer w.lsid o.peer_session_id i.peer_session_id
              (stamped_session_of i) (stamped_session_of o) w e e')
      | inr d ↦ ([], rw d)
    ]

crr_mems_all-Ends :
    (o : AndPeerSessionState) (ms : List AndPeerSessionIdentity) (w : AndWorld) {p : Peer}
    → IsWorld w
    → o.peer ≡ some p
    → AllMet w ms
    → Ends (crr_mems_all o ms w)
unfolding crr_mems_all
crr_mems_all-Ends o [] w h e met = tt
crr_mems_all-Ends o (m ∷ ms) w h e met =
    let (acts, q) = crr_mems-ret o m w h e met.0 in
    rw q
      (prepend-Ends (w_branch 45 ∷ []) _ (prepend-Ends acts _ (crr_mems_all-Ends o ms w h e met.1)))

put-AllMet :
    (w : AndWorld) (k : String) (t : Slot) (ms : List AndPeerSessionIdentity)
    → IsMet t
    → AllMet w ms
    → AllMet (record w { peers = put k t w.peers }) ms
put-AllMet w k t [] l met = tt
put-AllMet w k t (m ∷ ms) l met =
    (put_cases IsMet k m.peer_hash t w.peers l met.0, put-AllMet w k t ms l met.1)

pub crr-Ends :
    (p : Peer) (sid : Uuid) (ms : List AndPeerSessionIdentity) (w : AndWorld)
    → IsWorld w
    → IsLive (w.peers p.id_hash)
    → AllMet w ms
    → Ends (crr p sid ms w)
unfolding crr
crr-Ends p sid ms w h live met = if_member-Ends p Kind.crr_t sid _ w h live next
  where
    k : String
    k = p.id_hash

    answer : Bool → AndPeerSessionState → M AndWorld (Unit {0})
    answer b o = if b then crr_mems_all o ms else stat_w 44

    go :
        (b : Bool) (v : AndWorld) (s : Slot)
        → IsLive s
        → IsPlaced k s
        → AllMet v ms
        → Runs v (put_back v k (load s))
        → Ends (after (put_back v k (load s)) (answer b))
    go b v none l q met r = absurd l
    go true v (some i) l q met r =
        let (p', e) = connected_peer k i.state i.peer q l in
        prepend-Ends [] _ (
          crr_mems_all-Ends i ms (record v { peers = put k (some i) v.peers }) r.world e
            (put-AllMet v k (some i) ms l met))
    go false v (some i) l q met r = tt

    met_of_live : (s : Slot) → IsLive s → IsMet s
    met_of_live none l = absurd l
    met_of_live (some i) l = l

    next :
        (b : Bool) (t : Slot)
        → IsLive t
        → (IsFree (w.peers p.id_hash) → IsFree t)
        → let v = record w { peers = put p.id_hash t w.peers } in
          IsWorld v → Ends (after (at_peer p.id_hash origin_of v) (answer b))
    next b t l f hv =
        let v = record w { peers = put p.id_hash t w.peers } in
        go b v (v.peers k) (rw (put_self k t w.peers) l) (hv.placed k)
          (put-AllMet w k t ms (met_of_live t l) met)
          (at_known-Runs v k origin_of hv tt (load-Steps k))

-- JOK: the sender's entry is the only target of a join, and none is left when its answer is taken.
abbrev pub OnlyTarget : AndWorld → String → Type 0
OnlyTarget w k = (j : String) → k ≢ j → IsFree (w.peers j)

abbrev AfterAnswer : Outcome Slot Bool → Type 0
AfterAnswer panicked = ⊥
AfterAnswer (ret b t acts) = b ≡ true → IsFree t

jok_info-AfterAnswer :
    (w : AndWorld) (p : Peer) (sid : Uuid) (t : Time) (url : String) (s : Slot)
    → IsLive s
    → AfterAnswer (jok_info w p sid t url s)
unfolding jok_info
jok_info-AfterAnswer w p sid t url none live = absurd live
jok_info-AfterAnswer w p sid t url (some i) live = ground arith

pub jok-Ends :
    (p : Peer) (sid : Uuid) (t : Time) (url : String) (ms : List AndFullPeerSessionIdentity)
    (w : AndWorld)
    → IsWorld w
    → IsLive (w.peers p.id_hash)
    → OnlyTarget w p.id_hash
    → Ends (jok p sid t url ms w)
unfolding jok jok_info
jok-Ends p sid t url ms w h live only =
    go (jok_info w p sid t url (w.peers k)) (jok_info-AfterAnswer w p sid t url (w.peers k) live) (
      at_known-Runs w k (λ v. jok_info v p sid t url) h (ground arith)
        (jok_info-Steps k w p refl sid t url))
  where
    k : String
    k = p.id_hash

    free : (s : Slot) (j : String) → IsFree s → IsFree (put k s w.peers j)
    free s j f = elim (key_cases k j) [
      | inl e ↦ subst (λ i. IsFree (put k s w.peers i)) e (rw (put_self k s w.peers) f)
      | inr n ↦ put_cases IsFree k j s w.peers f (only j n)
    ]

    go :
        (o : Outcome Slot Bool)
        → AfterAnswer o
        → Runs w (put_back w k o)
        → Ends (after (put_back w k o) (λ b. if b then jni_mems_all ms else skip))
    go panicked q r = q
    go (ret true s acts) q r = prepend-Ends acts _ (
        jni_mems_all-Ends ms (record w { peers = put k s w.peers }) r.world
          (λ j. free s j (q refl)))
    go (ret false s acts) q r = tt
