-- ===== src/And/Calm/Loops.antt =====
-- The loops of and/world.go, in a world that waits for no join.
use abyss_core.Prelude.{
  String, string_eq, none, some, List, [], ◌∷◌, arith, Bool-cases, inl, inr, ◌==◌, nat_eq, suc, ◌≡◌,
  put, put_cases, put_self, put-ne, key_cases, subst,
}
use abyss_core.Interfaces.{Uuid, Time, Peer, AndFullPeerSessionIdentity, AndPeerSessionIdentity}
use abyss_core.And.Effect.{Outcome, panicked, ret, M, after, prepend, map_result, Action}
use abyss_core.And.State.{AndWorld, Slot, AndPeerSessionState}
use abyss_core.And.World.{at_peer, put_back, jni_mems, jni_mems_slot, jni_mems_all}
use abyss_core.And.Members.{
  sjn_mems, sjn_mems_slot, sjn_mems_all, introduce_slot, crr_mems, crr_mems_all, announce,
  announce_all, tell, tell_all, is_mem,
}
use abyss_core.And.Monitor.{IsPlaced, All, All-append}
use abyss_core.And.Ends.{IsFree}
use abyss_core.And.Calm
use abyss_core.And.Calm.{IsTameAct, Calms}

-- No entry is the target of a join, and each stands under the hash of its peer.
pub record IsCalm (lsid : Uuid) (w : AndWorld) : Type 0 where
  pub named : w.lsid ≡ lsid
  pub placed : (k : String) → IsPlaced k (w.peers k)
  pub free : (k : String) → IsFree (w.peers k)

abbrev pub StaysCalm : {A : Type 0} → Uuid → Outcome AndWorld A → Type 0
StaysCalm lsid panicked = Unit {0}
StaysCalm lsid (ret a v acts) = IsCalm lsid v × All (IsTameAct lsid) acts

module _ (lsid : Uuid) where
  pub put_back-StaysCalm :
      {A : Type 0} (k : String) (w : AndWorld) (o : Outcome Slot A)
      → IsCalm lsid w
      → Calms k w.lsid o
      → StaysCalm lsid (put_back w k o)
  put_back-StaysCalm k w panicked h c = tt
  put_back-StaysCalm k w (ret a t acts) h c = (
    record {
      named = h.named;
      placed = λ j. at j (λ i. IsPlaced j i) (λ e. subst (λ i. IsPlaced i t) e c.0) (h.placed j);
      free = λ j. put_cases IsFree k j t w.peers c.1 (h.free j);
    },
    subst (λ l. All (IsTameAct l) acts) h.named c.2,
  )
    where
      at : (j : String) (P : Slot → Type 0) → (k ≡ j → P t) → P (w.peers j) → P (put k t w.peers j)
      at j P new old = elim (key_cases k j) [
        | inl e ↦ subst (λ i. P (put k t w.peers i)) e (rw (put_self k t w.peers) (new e))
        | inr n ↦ rw (put-ne k j t w.peers n) old
      ]

  pub prepend-StaysCalm :
      {A : Type 0} (xs : List Action) (o : Outcome AndWorld A)
      → All (IsTameAct lsid) xs
      → StaysCalm lsid o
      → StaysCalm lsid (prepend xs o)
  prepend-StaysCalm xs panicked h p = tt
  prepend-StaysCalm xs (ret a v ys) h p = (p.0, All-append (IsTameAct lsid) xs ys h p.1)

  pub after-StaysCalm :
      {A B : Type 0} (o : Outcome AndWorld A) (f : A → M AndWorld B)
      → StaysCalm lsid o
      → ((a : A) (v : AndWorld) → IsCalm lsid v → StaysCalm lsid (f a v))
      → StaysCalm lsid (after o f)
  after-StaysCalm panicked f p h = tt
  after-StaysCalm (ret a v xs) f p h = prepend-StaysCalm xs (f a v) p.1 (h a v p.0)

  pub map_result-StaysCalm :
      {A B : Type 0} (f : A → B) (o : Outcome AndWorld A)
      → StaysCalm lsid o
      → StaysCalm lsid (map_result f o)
  map_result-StaysCalm f panicked p = tt
  map_result-StaysCalm f (ret a v xs) p = p

  pub at_peer-StaysCalm :
      {A : Type 0} (k : String) (f : AndWorld → M Slot A) (w : AndWorld)
      → IsCalm lsid w
      → Calms k w.lsid (f w (w.peers k))
      → StaysCalm lsid (at_peer k f w)
  unfolding at_peer
  at_peer-StaysCalm k f w h c = put_back-StaysCalm k w (f w (w.peers k)) h c

  jni_mems-StaysCalm :
      (m : AndFullPeerSessionIdentity) (w : AndWorld)
      → IsCalm lsid w
      → StaysCalm lsid (jni_mems m w)
  unfolding jni_mems
  jni_mems-StaysCalm m w h = elim (Bool-cases (m.aurl.hash == w.local)) [
    | inl e ↦ rw e (h, (tt, tt))
    | inr e ↦ rw e (
        at_peer-StaysCalm m.aurl.hash (jni_mems_slot m) w h (
          Calm.jni_mems_slot-Calms m.aurl.hash w m (w.peers m.aurl.hash) (h.placed m.aurl.hash)
            (h.free m.aurl.hash)))
  ]

  pub jni_mems_all-StaysCalm :
      (ms : List AndFullPeerSessionIdentity) (w : AndWorld)
      → IsCalm lsid w
      → StaysCalm lsid (jni_mems_all ms w)
  unfolding jni_mems_all
  jni_mems_all-StaysCalm [] w h = (h, tt)
  jni_mems_all-StaysCalm (m ∷ ms) w h =
      prepend-StaysCalm (_ ∷ []) _ (tt, tt)
        (after-StaysCalm (jni_mems m w) _ (jni_mems-StaysCalm m w h)
          (λ b u h'. jni_mems_all-StaysCalm ms u h'))

  pub jni-StaysCalm :
      (m : AndFullPeerSessionIdentity) (w : AndWorld)
      → IsCalm lsid w
      → StaysCalm lsid (prepend (Action.w_branch 18 ∷ []) (jni_mems m w))
  jni-StaysCalm m w h = prepend-StaysCalm (_ ∷ []) _ (tt, tt) (jni_mems-StaysCalm m w h)

  sjn_mems-StaysCalm :
      (p : Peer) (sid : Uuid) (m : AndPeerSessionIdentity) (w : AndWorld)
      → IsCalm lsid w
      → StaysCalm lsid (sjn_mems p sid m w)
  unfolding sjn_mems
  sjn_mems-StaysCalm p sid m w h = elim (Bool-cases (m.peer_hash == w.local)) [
    | inl e ↦ rw e (h, (tt, tt))
    | inr e ↦ rw e (
        at_peer-StaysCalm m.peer_hash (sjn_mems_slot p sid m) w h (
          Calm.sjn_mems_slot-Calms m.peer_hash w p sid m (w.peers m.peer_hash)
            (h.placed m.peer_hash) (h.free m.peer_hash)))
  ]

  pub sjn_mems_all-StaysCalm :
      (p : Peer) (sid : Uuid) (ms : List AndPeerSessionIdentity) (w : AndWorld)
      → IsCalm lsid w
      → StaysCalm lsid (sjn_mems_all p sid ms w)
  unfolding sjn_mems_all
  sjn_mems_all-StaysCalm p sid [] w h = (h, tt)
  sjn_mems_all-StaysCalm p sid (m ∷ ms) w h =
      prepend-StaysCalm (_ ∷ []) _ (tt, tt)
        (after-StaysCalm (sjn_mems p sid m w) _ (sjn_mems-StaysCalm p sid m w h)
          (λ b u h'. sjn_mems_all-StaysCalm p sid ms u h'))

  introduce_slot-StaysCalm :
      (o : AndPeerSessionState) (m : AndPeerSessionIdentity) (s : Slot) (w : AndWorld)
      → IsCalm lsid w
      → StaysCalm lsid (introduce_slot o m s w)
  unfolding introduce_slot
  introduce_slot-StaysCalm o m none w h = (h, tt)
  introduce_slot-StaysCalm o m (some i) w h = ground arith

  crr_mems-StaysCalm :
      (o : AndPeerSessionState) (m : AndPeerSessionIdentity) (w : AndWorld)
      → IsCalm lsid w
      → StaysCalm lsid (crr_mems o m w)
  unfolding crr_mems
  crr_mems-StaysCalm o m w h = elim (Bool-cases (m.peer_hash == w.local)) [
    | inl e ↦ rw e (h, (tt, tt))
    | inr e ↦ rw e (introduce_slot-StaysCalm o m (w.peers m.peer_hash) w h)
  ]

  pub crr_mems_all-StaysCalm :
      (o : AndPeerSessionState) (ms : List AndPeerSessionIdentity) (w : AndWorld)
      → IsCalm lsid w
      → StaysCalm lsid (crr_mems_all o ms w)
  unfolding crr_mems_all
  crr_mems_all-StaysCalm o [] w h = (h, tt)
  crr_mems_all-StaysCalm o (m ∷ ms) w h =
      prepend-StaysCalm (_ ∷ []) _ (tt, tt)
        (after-StaysCalm (crr_mems o m w) _ (crr_mems-StaysCalm o m w h)
          (λ b u h'. crr_mems_all-StaysCalm o ms u h'))

  pub announce_all-StaysCalm :
      (now : Time) (order : List String) (w : AndWorld)
      → IsCalm lsid w
      → StaysCalm lsid (announce_all now order w)
  unfolding announce_all
  announce_all-StaysCalm now [] w h = (h, tt)
  announce_all-StaysCalm now (j ∷ order) w h =
      after-StaysCalm (at_peer j (announce now) w) _
        (at_peer-StaysCalm j (announce now) w h
          (Calm.announce-Calms j w now (w.peers j) (h.placed j) (h.free j)))
        (λ found v h'.
          map_result-StaysCalm _ (announce_all now order v) (announce_all-StaysCalm now order v h'))

  tell-StaysCalm :
      (ids : List AndPeerSessionIdentity) (i : AndPeerSessionState) (w : AndWorld)
      → IsCalm lsid w
      → StaysCalm lsid (tell ids i w)
  unfolding tell
  tell-StaysCalm [] i w h = (h, tt)
  tell-StaysCalm (m ∷ ms) i w h = ground arith

  pub tell_all-StaysCalm :
      (ids : List AndPeerSessionIdentity) (infos : List AndPeerSessionState) (w : AndWorld)
      → IsCalm lsid w
      → StaysCalm lsid (tell_all ids infos w)
  unfolding tell_all
  tell_all-StaysCalm ids [] w h = (h, tt)
  tell_all-StaysCalm ids (i ∷ infos) w h = elim (Bool-cases (is_mem i.state)) [
    | inl e ↦ rw e (
        after-StaysCalm (tell ids i w) _ (tell-StaysCalm ids i w h) (λ a v h'.
          map_result-StaysCalm suc (tell_all ids infos v) (tell_all-StaysCalm ids infos v h')))
    | inr e ↦ rw e (prepend-StaysCalm (_ ∷ []) _ (tt, tt) (tell_all-StaysCalm ids infos w h))
  ]
