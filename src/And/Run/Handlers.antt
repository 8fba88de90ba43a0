-- ===== src/And/Run/Handlers.antt =====
-- The handlers of one entry, and JOK, as runs of the world.
use abyss_core.Prelude.{
  String, List, none, some, ◌≡◌, refl, ◌≢◌, arith, Bool, true, false, ℕ, string_eq, nat_eq,
  if◌then◌else◌,
}
use abyss_core.Interfaces.{Uuid, Time, Peer, ObjectInfo, AndFullPeerSessionIdentity}
use abyss_core.And.Effect.{skip}
use abyss_core.And.State.{AndWorld, Slot}
use abyss_core.And.Monitor.{IsPlaced}
use abyss_core.And.Clear.{clear_states}
use abyss_core.And.Steps.{
  Steps, known_peer-Steps, jn_info-Steps, jok_info-Steps, jdn_info-Steps, mem_info-Steps,
  soa_info-Steps, sod_info-Steps, rst_info-Steps, accept-Steps, decline-Steps,
  remove_peer_info-Steps,
}
use abyss_core.And.Info.{
  jn_info, jok_info, jdn_info, mem_info, soa_info, sod_info, rst_info, accept_session_info,
  decline_session_info, remove_peer_info,
}
use abyss_core.And.World.{
  at_peer, visit, peer_connected, peer_connected_info, jn, jok, jdn, jni_mems_all, mem,
}
use abyss_core.And.Members.{soa, sod, rst, accept_session, decline_session, remove_peer}
use abyss_core.And.Run.Entries.{at_known-Runs, at_new-Runs, skip-IsRun}
use abyss_core.And.Run.Loops.{jni_mems_all-Runs}
use abyss_core.And.Run.{IsWorld, Runs, after-Runs}

module _ (p : Peer) (sid : Uuid) (w : AndWorld) (h : IsWorld w) where
  pub peer_connected-Runs : p.id_hash ≢ w.local → Runs w (peer_connected p w)
  unfolding peer_connected peer_connected_info
  peer_connected-Runs n = at_new-Runs w p.id_hash (peer_connected_info p) h n step
    where
      step : (s : Slot) → IsPlaced p.id_hash s → Steps p.id_hash s (peer_connected_info p w s)
      step none q = ground arith
      step (some i) q = known_peer-Steps p.id_hash w p refl (some i) q

  pub jn-Runs : (t : Time) → Runs w (jn p sid t w)
  unfolding jn jn_info
  jn-Runs t =
      at_known-Runs w p.id_hash (λ v. jn_info v p sid t) h tt
        (jn_info-Steps p.id_hash w p refl sid t)

  pub jok-Runs :
      (t : Time) (url : String) (ms : List AndFullPeerSessionIdentity)
      → Runs w (jok p sid t url ms w)
  unfolding jok jok_info
  jok-Runs t url ms =
      after-Runs w (at_peer p.id_hash (λ v. jok_info v p sid t url) w) _
        (at_known-Runs w p.id_hash (λ v. jok_info v p sid t url) h (ground arith)
          (jok_info-Steps p.id_hash w p refl sid t url))
        joined
    where
      joined :
          (b : Bool) (v : AndWorld)
          → IsWorld v
          → v.local ≡ w.local
          → Runs v ((if b then jni_mems_all ms else skip) v)
      joined true v hv e = jni_mems_all-Runs ms v hv
      joined false v hv e = skip-IsRun v hv

  pub jdn-Runs : (code : ℕ) (message : String) → Runs w (jdn p code message w)
  unfolding jdn jdn_info
  jdn-Runs code message =
      at_known-Runs w p.id_hash (λ v. jdn_info v p code message) h (ground arith)
        (jdn_info-Steps p.id_hash w p refl code message)

  pub mem-Runs : (t : Time) → Runs w (mem p sid t w)
  unfolding mem mem_info
  mem-Runs t =
      at_known-Runs w p.id_hash (λ v. mem_info v p sid t) h tt
        (mem_info-Steps p.id_hash w p refl sid t)

  pub soa-Runs : (objects : List ObjectInfo) → Runs w (soa p sid objects w)
  unfolding soa soa_info
  soa-Runs objects =
      at_known-Runs w p.id_hash (λ v. soa_info v p sid objects) h tt
        (soa_info-Steps p.id_hash w p refl sid objects)

  pub sod-Runs : (object_ids : List Uuid) → Runs w (sod p sid object_ids w)
  unfolding sod sod_info
  sod-Runs object_ids =
      at_known-Runs w p.id_hash (λ v. sod_info v p sid object_ids) h tt
        (sod_info-Steps p.id_hash w p refl sid object_ids)

  pub rst-Runs : Runs w (rst p w)
  unfolding rst rst_info
  rst-Runs = at_known-Runs w p.id_hash rst_info h tt (rst_info-Steps p.id_hash w)

  pub accept-Runs : (order : List String) → Runs w (accept_session order p sid w)
  unfolding accept_session accept_session_info
  accept-Runs order =
      at_known-Runs w p.id_hash (λ v. accept_session_info v (visit v.peers order) sid) h refl
        (accept-Steps p.id_hash w (visit w.peers order) sid)

  pub decline-Runs : Runs w (decline_session p sid w)
  unfolding decline_session decline_session_info
  decline-Runs =
      at_known-Runs w p.id_hash (λ v. decline_session_info v sid) h refl
        (decline-Steps p.id_hash w sid)

  pub remove_peer-Runs : Runs w (remove_peer p w)
  unfolding remove_peer remove_peer_info clear_states
  remove_peer-Runs =
      at_known-Runs w p.id_hash remove_peer_info h tt (remove_peer_info-Steps p.id_hash w)
