-- ===== src/And/Run/FromMembers.antt =====
-- JNI, SJN and CRR, which only a member may send, as runs of the world.
use abyss_core.Prelude.{
  String, List, [], ◌∷◌, Option, none, some, ◌≡◌, refl, Bool, true, false, string_eq, nat_eq,
  if◌then◌else◌,
}
use abyss_core.Interfaces.{Uuid, Peer, AndPeerSessionIdentity, AndFullPeerSessionIdentity}
use abyss_core.And.Effect.{M, after, stat_w, ◌>>◌, Kind, w_branch, rx}
use abyss_core.And.State.{AndWorld, Slot, AndPeerSessionState}
use abyss_core.And.Monitor.{IsPlaced, replay, member_step, member_of}
use abyss_core.And.Clear.{is_proper_member_or_reset, load}
use abyss_core.And.Steps.{prepend-Steps, Steps, proper-Steps}
use abyss_core.And.World.{at_peer, jni, jni_mems, proper}
use abyss_core.And.Members.{sjn, sjn_mems_all, crr, crr_mems_all, origin_of}
use abyss_core.And.Run.Entries.{at_known-Runs, plain-IsRun}
use abyss_core.And.Run.Loops.{jni_mems-Runs, sjn_mems_all-Runs, crr_mems_all-Runs}
use abyss_core.And.Run.{IsWorld, Runs, after-Runs, prepend-Runs}

pub rx_told : (c : Kind) (v : Option Uuid) → replay member_step v (rx c ∷ []) ≡ some v
rx_told c none = refl
rx_told c (some sid) = refl

pub proper_call-Steps :
    (k : String) (c : Kind) (sid : Uuid) (w : AndWorld) (s : Slot)
    → IsPlaced k s
    → Steps k s (proper c sid w s)
proper_call-Steps k c sid w s h =
    prepend-Steps k {s = s} {t = s} (rx c ∷ []) (is_proper_member_or_reset w sid s)
      (record { placed = h; told = rx_told c (member_of s); about = (tt, tt); counted = refl })
      (proper-Steps k w sid s h)

pub load-Steps : (k : String) (s : Slot) → IsPlaced k s → Steps k s (load s)
load-Steps k none h = tt
load-Steps k (some i) h = record { placed = h; told = refl; about = tt; counted = refl }

-- A message that only a member may send.
pub if_member-Runs :
    (p : Peer) (c : Kind) (sid : Uuid) (f : Bool → M AndWorld (Unit {0})) (w : AndWorld)
    → IsWorld w
    → ((b : Bool) (v : AndWorld) → IsWorld v → Runs v (f b v))
    → Runs w (after (at_peer p.id_hash (proper c sid) w) f)
unfolding is_proper_member_or_reset
if_member-Runs p c sid f w h next =
    after-Runs w (at_peer p.id_hash (proper c sid) w) f
      (at_known-Runs w p.id_hash (proper c sid) h tt (proper_call-Steps p.id_hash c sid w))
      (λ b v hv e. next b v hv)

module _ (p : Peer) (sid : Uuid) (w : AndWorld) (h : IsWorld w) where
  pub jni-Runs : (m : AndFullPeerSessionIdentity) → Runs w (jni p sid m w)
  unfolding jni
  jni-Runs m = if_member-Runs p Kind.jni_t sid _ w h next
    where
      next :
          (b : Bool) (v : AndWorld)
          → IsWorld v
          → Runs v ((if b then (do stat_w 18; jni_mems m) else stat_w 17) v)
      next true v hv =
          prepend-Runs (w_branch 18 ∷ []) _ (plain-IsRun v (w_branch 18) hv refl)
            (jni_mems-Runs m v hv)
      next false v hv = plain-IsRun v (w_branch 17) hv refl

  pub sjn-Runs : (ms : List AndPeerSessionIdentity) → Runs w (sjn p sid ms w)
  unfolding sjn
  sjn-Runs ms = if_member-Runs p Kind.sjn_t sid _ w h next
    where
      next :
          (b : Bool) (v : AndWorld)
          → IsWorld v
          → Runs v ((if b then sjn_mems_all p sid ms else stat_w 40) v)
      next true v hv = sjn_mems_all-Runs p sid ms v hv
      next false v hv = plain-IsRun v (w_branch 40) hv refl

  pub crr-Runs : (ms : List AndPeerSessionIdentity) → Runs w (crr p sid ms w)
  unfolding crr
  crr-Runs ms = if_member-Runs p Kind.crr_t sid _ w h next
    where
      end :
          (b : Bool) (origin : AndPeerSessionState) (v : AndWorld)
          → IsWorld v
          → Runs v ((if b then crr_mems_all origin ms else stat_w 44) v)
      end true origin v hv = crr_mems_all-Runs origin ms v hv
      end false origin v hv = plain-IsRun v (w_branch 44) hv refl

      next :
          (b : Bool) (v : AndWorld)
          → IsWorld v
          → Runs v (
              after
                (at_peer p.id_hash origin_of v)
                (λ origin. if b then crr_mems_all origin ms else stat_w 44))
      next b v hv =
          after-Runs v (at_peer p.id_hash origin_of v) _
            (at_known-Runs v p.id_hash origin_of hv tt (load-Steps p.id_hash))
            (λ origin u hu e. end b origin u hu)
