-- ===== src/And/Ends/Loops.antt =====
-- The loops end: over the members that a message names, and over the entries of a world.
use abyss_core.Prelude.{
  String, none, some, ◌≡◌, refl, arith, true, List, ℕ, [], ◌∷◌, ◌++◌, Option, suc, Bool-cases, inl,
  inr, ◌==◌, string_eq, if◌then◌else◌, put, put_self, put-ne, key_cases, subst, Mapping,
  Option-cases,
}
use abyss_core.Interfaces.{
  Uuid, Time, Peer, AndFullPeerSessionIdentity, AndPeerSessionIdentity, AndPeerSessionWithTimeStamp,
  Message,
}
use abyss_core.And.Effect.{
  Outcome, panicked, ret, after, fmap, M, Action, w_branch, ◌>>◌, act, send, stat_w, tx, Kind,
}
use abyss_core.And.State.{AndWorld, Slot, AndPeerSessionState, WorldState, ws_jn, ws_tmem}
use abyss_core.And.Monitor.{IsPlaced, hash_of, expected}
use abyss_core.And.Clear.{set_state}
use abyss_core.And.Info.{invite_one, invite, accept_jn, accept_session_info}
use abyss_core.And.World.{at_peer, put_back, visit, jni_mems, jni_mems_slot, jni_mems_all}
use abyss_core.And.Members.{
  sjn_mems, sjn_mems_slot, sjn_mems_all, announce, announce_all, tell, tell_all, timer_expire,
  is_mem,
}
use abyss_core.And.Run.Loops.{jni_mems-Runs, sjn_mems-Runs}
use abyss_core.And.Run.Entries.{at_known-Runs}
use abyss_core.And.Run.Timer.{announce-Steps, announce_all-Runs}
use abyss_core.And.Run.{IsWorld, Runs}
use abyss_core.And.Ends.{
  Ends, IsFree, AllFree, prepend-Ends, after-Ends, map_result-Ends, put_back-Ends,
}
use abyss_core.And.Ends.Infos.{
  jni_mems_slot-Ends, jni_mems_slot-StaysFree, StaysFree, sjn_mems_slot-Ends, announce-Ends,
}

-- JNI_MEMS, where no join waits for its answer.
KeepsFree : {A : Type 0} → Outcome AndWorld A → Type 0
KeepsFree panicked = ⊥
KeepsFree (ret a v acts) = AllFree v

put-AllFree :
    (w : AndWorld) (k : String) (s : Slot) (j : String)
    → AllFree w
    → IsFree s
    → IsFree (put k s w.peers j)
put-AllFree w k s j h p = elim (key_cases k j) [
  | inl e ↦ subst (λ i. IsFree (put k s w.peers i)) e (rw (put_self k s w.peers) p)
  | inr n ↦ rw (put-ne k j s w.peers n) (h j)
]

put_back-KeepsFree :
    {A : Type 0} (w : AndWorld) (k : String) (o : Outcome Slot A)
    → AllFree w
    → Ends o
    → StaysFree o
    → KeepsFree (put_back w k o)
unfolding KeepsFree
put_back-KeepsFree w k panicked h p f = p
put_back-KeepsFree w k (ret a s acts) h p f = λ j. put-AllFree w k s j h f

jni_mems-KeepsFree :
    (m : AndFullPeerSessionIdentity) (w : AndWorld)
    → IsWorld w
    → AllFree w
    → KeepsFree (jni_mems m w)
unfolding jni_mems KeepsFree
jni_mems-KeepsFree m w h free = elim (Bool-cases (m.aurl.hash == w.local)) [
  | inl e ↦ rw e free
  | inr e ↦ rw e (
      put_back-KeepsFree w m.aurl.hash (jni_mems_slot m w (w.peers m.aurl.hash)) free
        (jni_mems_slot-Ends m.aurl.hash w m (w.peers m.aurl.hash) (h.placed m.aurl.hash)
          (free m.aurl.hash))
        (jni_mems_slot-StaysFree w m (w.peers m.aurl.hash) (free m.aurl.hash)))
]

pub jni_mems-Ends :
    (m : AndFullPeerSessionIdentity) (w : AndWorld) → IsWorld w → AllFree w → Ends (jni_mems m w)
jni_mems-Ends m w h free = go (jni_mems m w) (jni_mems-KeepsFree m w h free)
  where
    go : (o : Outcome AndWorld (Unit {0})) → KeepsFree o → Ends o
    go panicked p = unfold KeepsFree in p
    go (ret a v acts) p = tt

pub jni_mems_all-Ends :
    (ms : List AndFullPeerSessionIdentity) (w : AndWorld)
    → IsWorld w
    → AllFree w
    → Ends (jni_mems_all ms w)
unfolding jni_mems_all
jni_mems_all-Ends [] w h free = tt
jni_mems_all-Ends (m ∷ ms) w h free =
    prepend-Ends (w_branch 14 ∷ []) (after (jni_mems m w) (λ _. jni_mems_all ms)) (
      go (jni_mems m w) (jni_mems-Runs m w h) (jni_mems-KeepsFree m w h free)
        (jni_mems_all-Ends ms))
  where
    go :
        (o : Outcome AndWorld (Unit {0}))
        → Runs w o
        → KeepsFree o
        → ((v : AndWorld) → IsWorld v → AllFree v → Ends (jni_mems_all ms v))
        → Ends (after o (λ _. jni_mems_all ms))
    go panicked r p ih = unfold KeepsFree in p
    go (ret a v acts) r p ih =
        prepend-Ends acts (jni_mems_all ms v) (ih v r.world (unfold KeepsFree in p))

-- SJN_MEMS.
sjn_mems-Ends :
    (p : Peer) (sid : Uuid) (m : AndPeerSessionIdentity) (w : AndWorld) → Ends (sjn_mems p sid m w)
unfolding sjn_mems
sjn_mems-Ends p sid m w = elim (Bool-cases (m.peer_hash == w.local)) [
  | inl e ↦ rw e tt
  | inr e ↦ rw e (
      put_back-Ends w m.peer_hash (sjn_mems_slot p sid m w (w.peers m.peer_hash))
        (sjn_mems_slot-Ends w p sid m (w.peers m.peer_hash)))
]

pub sjn_mems_all-Ends :
    (p : Peer) (sid : Uuid) (ms : List AndPeerSessionIdentity) (w : AndWorld)
    → IsWorld w
    → Ends (sjn_mems_all p sid ms w)
unfolding sjn_mems_all
sjn_mems_all-Ends p sid [] w h = tt
sjn_mems_all-Ends p sid (m ∷ ms) w h =
    prepend-Ends (w_branch 41 ∷ []) (after (sjn_mems p sid m w) (λ _. sjn_mems_all p sid ms)) (
      after-Ends w (sjn_mems p sid m w) (λ _. sjn_mems_all p sid ms) (sjn_mems-Runs p sid m w h)
        (sjn_mems-Ends p sid m w) (λ a v hv. sjn_mems_all-Ends p sid ms v hv))

-- An entry that stands under some key of a world.
abbrev pub IsHeld : AndPeerSessionState → Type 0
IsHeld i = (k : String) × IsPlaced k (some i)

abbrev pub AllHeld : List AndPeerSessionState → Type 0
AllHeld [] = Unit {0}
AllHeld (i ∷ infos) = IsHeld i × AllHeld infos

pub visit-AllHeld :
    (m : Mapping String AndPeerSessionState) (order : List String)
    → ((k : String) → IsPlaced k (m k))
    → AllHeld (visit m order)
unfolding visit
visit-AllHeld m [] h = tt
visit-AllHeld m (k ∷ order) h = elim (Option-cases (m k)) [
  | inl e ↦ rw (e, visit) (visit-AllHeld m order h)
  | inr (i, e) ↦ rw (e, visit) ((k, subst (IsPlaced k) e (h k)), visit-AllHeld m order h)
]

invite_one-Ends :
    (w : AndWorld) (i q : AndPeerSessionState) (s : Slot)
    → IsHeld q
    → Ends (invite_one q.state w i q s)
unfolding invite_one
invite_one-Ends w i q s (k, h) = ground arith

invite-Ends :
    (w : AndWorld) (i : AndPeerSessionState) (visited : List AndPeerSessionState) (s : Slot)
    → AllHeld visited
    → Ends (invite w i visited s)
unfolding invite
invite-Ends w i [] s h = tt
invite-Ends w i (q ∷ visited) s h =
    go (invite_one q.state w i q s) (invite_one-Ends w i q s h.0)
      (λ t. invite-Ends w i visited t h.1)
  where
    go :
        (o : Outcome Slot (List AndPeerSessionWithTimeStamp))
        → Ends o
        → ((t : Slot) → Ends (invite w i visited t))
        → Ends (after o (λ found. fmap (λ rest. found ++ rest) (invite w i visited)))
    go panicked p ih = p
    go (ret found t xs) p ih =
        prepend-Ends xs _ (map_result-Ends (λ rest. found ++ rest) (invite w i visited t) (ih t))

accept_jn-Ends :
    (k : String) (w : AndWorld) (visited : List AndPeerSessionState) (i : AndPeerSessionState)
    → i.state ≡ ws_jn
    → IsPlaced k (some i)
    → AllHeld visited
    → Ends (accept_jn w visited i (some i))
unfolding accept_jn
accept_jn-Ends k w visited i e h all =
    go (invite w i visited (some i)) (invite-Ends w i visited (some i) all)
  where
    answer : List AndPeerSessionWithTimeStamp → M Slot (Unit {0})
    answer members = do
      act (tx Kind.jok_t)
      send i.peer (Message.jok w.lsid i.peer_session_id w.timestamp w.wurl members)
      set_state ws_tmem

    answered : (members : List AndPeerSessionWithTimeStamp) (t : Slot) → Ends (answer members t)
    answered members none = ground arith
    answered members (some j) = ground arith

    go : (o : Outcome Slot (List AndPeerSessionWithTimeStamp)) → Ends o → Ends (after o answer)
    go panicked p = p
    go (ret members t xs) p = prepend-Ends xs (answer members t) (answered members t)

pub accept-Ends :
    (k : String) (w : AndWorld) (visited : List AndPeerSessionState) (sid : Uuid) (s : Slot)
    → IsPlaced k s
    → IsFree s
    → AllHeld visited
    → Ends (accept_session_info w visited sid s)
unfolding accept_session_info
accept-Ends k w visited sid none h free all = tt
accept-Ends k w visited sid (some i) h free all =
    let jn = λ (e : i.state ≡ ws_jn). accept_jn-Ends k w visited i e h all in ground (arith, jn)

-- TimerExpire.
pub announce_all-Ends :
    (now : Time) (order : List String) (w : AndWorld) → IsWorld w → Ends (announce_all now order w)
unfolding announce_all announce at_peer
announce_all-Ends now [] w h = tt
announce_all-Ends now (k ∷ order) w h =
    after-Ends w (at_peer k (announce now) w) _
      (at_known-Runs w k (announce now) h refl (λ s. announce-Steps k now w s))
      (put_back-Ends w k (announce now w (w.peers k))
        (announce-Ends k w now (w.peers k) (h.placed k)))
      (λ found v hv.
        map_result-Ends (λ rest. found ++ rest) (announce_all now order v)
          (announce_all-Ends now order v hv))

tell-ret :
    (ids : List AndPeerSessionIdentity) (i : AndPeerSessionState) (w : AndWorld)
    → IsHeld i
    → is_mem i.state ≡ true
    → (acts : List Action) × (tell ids i w ≡ ret tt w acts)
unfolding tell
tell-ret [] i w h e = ([], refl)
tell-ret (m ∷ ms) i w (k, h) e = go i.peer (held i.state h e)
  where
    held :
        (s : WorldState) → hash_of i.peer ≡ expected s k → is_mem s ≡ true → hash_of i.peer ≡ some k
    held s p q = ground arith

    go :
        (q : Option Peer)
        → hash_of q ≡ some k
        → (acts : List Action) × ((do
          stat_w 77
          act (tx Kind.sjn_t)
          send q (Message.sjn w.lsid i.peer_session_id (m ∷ ms)))
              w
            ≡ ret tt w acts)
    go none p = cc
    go (some p) q = (_, refl)

-- The members among the entries.
pub member_count : List AndPeerSessionState → ℕ
member_count [] = 0
member_count (i ∷ infos) = if is_mem i.state then suc (member_count infos) else member_count infos

-- The second loop counts the members and leaves the world alone.
pub tell_all-ret :
    (ids : List AndPeerSessionIdentity) (infos : List AndPeerSessionState) (w : AndWorld)
    → AllHeld infos
    → (acts : List Action) × (tell_all ids infos w ≡ ret (member_count infos) w acts)
unfolding tell_all member_count
tell_all-ret ids [] w h = ([], refl)
tell_all-ret ids (i ∷ infos) w h =
    let (ys, q) = tell_all-ret ids infos w h.1 in
    elim (Bool-cases (is_mem i.state)) [
      | inl e ↦ let (xs, p) = tell-ret ids i w h.0 e in (xs ++ ys, rw e (rw p (rw q)))
      | inr e ↦ (w_branch 76 ∷ ys, rw e (rw q))
    ]

pub timer_expire-Ends :
    (draw : ℕ → ℕ) (now : Time) (first second_order : List String) (w : AndWorld)
    → IsWorld w
    → Ends (timer_expire draw now first second_order w)
unfolding timer_expire
timer_expire-Ends draw now first second_order w h =
    after-Ends w (announce_all now first w) _ (announce_all-Runs now first w h)
      (announce_all-Ends now first w h)
      (λ ids v hv.
        let (acts, e) =
          tell_all-ret ids (visit v.peers second_order) v
            (visit-AllHeld v.peers second_order hv.placed) in
        rw e tt)
