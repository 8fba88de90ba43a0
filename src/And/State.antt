-- ===== src/And/State.antt =====
-- The state of and/world.go and the constants of and/consts.go.
use abyss_core.Prelude.{ℕ, String, Bool, false, Option, Mapping}
use abyss_core.Interfaces.{Uuid, Time, Peer}

abbrev pub jnc_duplicate : ℕ
jnc_duplicate = 480

abbrev pub jnc_canceled : ℕ
jnc_canceled = 498

abbrev pub jnc_invalid_states : ℕ
jnc_invalid_states = 521

abbrev pub jnm_duplicate : String
jnm_duplicate = "Duplicate Join"

abbrev pub jnm_canceled : String
jnm_canceled = "Join Canceled"

abbrev pub jnm_invalid_states : String
jnm_invalid_states = "Invalid States"

pub data WorldState : Type 0 where
  ws_dc_jt ws_dc_jni ws_cc ws_jt ws_jn ws_rmem_njni ws_jni ws_rmem ws_tmem ws_mem : WorldState

pub record AndPeerSessionState : Type 0 where
  pub peer : Option Peer
  pub peer_session_id : Uuid
  pub time_stamp : Time
  pub state : WorldState
  pub sjnp : Bool
  pub sjnc : ℕ

unfoldable pub new_and_peer_session_state :
    Option Peer → Uuid → Time → WorldState → AndPeerSessionState
new_and_peer_session_state p sid t s = record {
  peer = p;
  peer_session_id = sid;
  time_stamp = t;
  state = s;
  sjnp = false;
  sjnc = 0;
}

pub record AndWorld : Type 0 where
  pub local : String
  pub lsid : Uuid
  pub timestamp : Time
  pub join_hash : String
  pub join_path : String
  pub wurl : String
  pub peers : Mapping String AndPeerSessionState

-- What the pointer `info` leads to: an entry of `w.peers`, or none once it is deleted.
abbrev pub Slot : Type 0
Slot = Option AndPeerSessionState
