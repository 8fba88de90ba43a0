-- ===== src/And/Run/Loops.antt =====
-- JNI_MEMS, SJN_MEMS and CRR_MEMS, and the loops over the members that a message names.
use abyss_core.Prelude.{
  String, List, [], ◌∷◌, Option, none, some, refl, arith, ne_of_test, string_eq, nat_eq, inl, inr,
  Bool-cases, ◌==◌,
}
use abyss_core.Interfaces.{
  Uuid, Peer, AndPeerSessionIdentity, AndFullPeerSessionIdentity, Message,
  AndPeerSessionWithTimeStamp,
}
use abyss_core.And.Effect.{act, send, stat_w, ◌>>◌, Kind, w_branch, tx, tx}
use abyss_core.And.State.{AndWorld, Slot, AndPeerSessionState}
use abyss_core.And.Monitor.{IsPlaced}
use abyss_core.And.Clear.{stamped_session_of}
use abyss_core.And.Steps.{Steps, jni_mems_info-Steps}
use abyss_core.And.World.{jni_mems, jni_mems_slot, jni_mems_all}
use abyss_core.And.Members.{
  sjn_mems, sjn_mems_slot, sjn_mems_all, crr_mems, crr_mems_all, introduce_slot,
}
use abyss_core.And.Run.Entries.{at_known-Runs, at_new-Runs, plain-IsRun, skip-IsRun}
use abyss_core.And.Run.{IsWorld, Runs, after-Runs, prepend-Runs}

jni_mems_slot-Steps :
    (k : String) (m : AndFullPeerSessionIdentity) (w : AndWorld) (s : Slot)
    → IsPlaced k s
    → Steps k s (jni_mems_slot m w s)
unfolding jni_mems_slot
jni_mems_slot-Steps k m w none h = ground arith
jni_mems_slot-Steps k m w (some i) h = jni_mems_info-Steps k w m.session_id m.time_stamp (some i) h

pub jni_mems-Runs :
    (m : AndFullPeerSessionIdentity) (w : AndWorld) → IsWorld w → Runs w (jni_mems m w)
unfolding jni_mems
jni_mems-Runs m w h = elim (Bool-cases (m.aurl.hash == w.local)) [
  | inl e ↦ rw e (plain-IsRun w (w_branch 19) h refl)
  | inr e ↦ rw e (
      at_new-Runs w m.aurl.hash (jni_mems_slot m) h (ne_of_test m.aurl.hash w.local e)
        (jni_mems_slot-Steps m.aurl.hash m w))
]

pub jni_mems_all-Runs :
    (ms : List AndFullPeerSessionIdentity) (w : AndWorld) → IsWorld w → Runs w (jni_mems_all ms w)
unfolding jni_mems_all
jni_mems_all-Runs [] w h = skip-IsRun w h
jni_mems_all-Runs (m ∷ ms) w h =
    prepend-Runs (w_branch 14 ∷ []) _ (plain-IsRun w (w_branch 14) h refl) (
      after-Runs w (jni_mems m w) (λ _. jni_mems_all ms) (jni_mems-Runs m w h)
        (λ a v hv e. jni_mems_all-Runs ms v hv))

sjn_mems_slot-Steps :
    (k : String) (p : Peer) (sid : Uuid) (m : AndPeerSessionIdentity) (w : AndWorld) (s : Slot)
    → IsPlaced k s
    → Steps k s (sjn_mems_slot p sid m w s)
unfolding sjn_mems_slot
sjn_mems_slot-Steps k p sid m w none h = ground arith
sjn_mems_slot-Steps k p sid m w (some i) h = ground arith

pub sjn_mems-Runs :
    (p : Peer) (sid : Uuid) (m : AndPeerSessionIdentity) (w : AndWorld)
    → IsWorld w
    → Runs w (sjn_mems p sid m w)
unfolding sjn_mems sjn_mems_slot
sjn_mems-Runs p sid m w h = elim (Bool-cases (m.peer_hash == w.local)) [
  | inl e ↦ rw e (plain-IsRun w (w_branch 42) h refl)
  | inr e ↦ rw e (
      at_known-Runs w m.peer_hash (sjn_mems_slot p sid m) h refl
        (sjn_mems_slot-Steps m.peer_hash p sid m w))
]

pub sjn_mems_all-Runs :
    (p : Peer) (sid : Uuid) (ms : List AndPeerSessionIdentity) (w : AndWorld)
    → IsWorld w
    → Runs w (sjn_mems_all p sid ms w)
unfolding sjn_mems_all
sjn_mems_all-Runs p sid [] w h = skip-IsRun w h
sjn_mems_all-Runs p sid (m ∷ ms) w h =
    prepend-Runs (w_branch 41 ∷ []) _ (plain-IsRun w (w_branch 41) h refl) (
      after-Runs w (sjn_mems p sid m w) (λ _. sjn_mems_all p sid ms) (sjn_mems-Runs p sid m w h)
        (λ a v hv e. sjn_mems_all-Runs p sid ms v hv))

both_sent :
    (q r : Option Peer) (l : Uuid) (a b : Uuid) (m n : AndPeerSessionWithTimeStamp) (w : AndWorld)
    → IsWorld w
    → Runs w (
        (do
          stat_w 47
          act (tx Kind.jni_t)
          send q (Message.jni l a m)
          act (tx Kind.jni_t)
          send r (Message.jni l b n))
          w)
both_sent none r l a b m n w h = tt
both_sent (some p) none l a b m n w h = tt
both_sent (some p) (some r) l a b m n w h = record {
  world = h;
  same_local = refl;
  same_lsid = refl;
  told = λ k. refl;
  counted = refl;
}

introduce_slot-Runs :
    (origin : AndPeerSessionState) (m : AndPeerSessionIdentity) (s : Slot) (w : AndWorld)
    → IsWorld w
    → Runs w (introduce_slot origin m s w)
unfolding introduce_slot
introduce_slot-Runs origin m none w h = skip-IsRun w h
introduce_slot-Runs origin m (some i) w h = elim (Bool-cases (i.peer_session_id == m.session_id)) [
  | inl e ↦ rw e (
      both_sent origin.peer i.peer w.lsid origin.peer_session_id i.peer_session_id
        (stamped_session_of i) (stamped_session_of origin) w h)
  | inr e ↦ rw e (skip-IsRun w h)
]

crr_mems-Runs :
    (origin : AndPeerSessionState) (m : AndPeerSessionIdentity) (w : AndWorld)
    → IsWorld w
    → Runs w (crr_mems origin m w)
unfolding crr_mems
crr_mems-Runs origin m w h = elim (Bool-cases (m.peer_hash == w.local)) [
  | inl e ↦ rw e (plain-IsRun w (w_branch 46) h refl)
  | inr e ↦ rw e (introduce_slot-Runs origin m (w.peers m.peer_hash) w h)
]

pub crr_mems_all-Runs :
    (origin : AndPeerSessionState) (ms : List AndPeerSessionIdentity) (w : AndWorld)
    → IsWorld w
    → Runs w (crr_mems_all origin ms w)
unfolding crr_mems_all
crr_mems_all-Runs origin [] w h = skip-IsRun w h
crr_mems_all-Runs origin (m ∷ ms) w h =
    prepend-Runs (w_branch 45 ∷ []) _ (plain-IsRun w (w_branch 45) h refl) (
      after-Runs w (crr_mems origin m w) (λ _. crr_mems_all origin ms) (crr_mems-Runs origin m w h)
        (λ a v hv e. crr_mems_all-Runs origin ms v hv))
