-- ===== src/And/Clear.antt =====
-- and/world.go: what one entry `info` of `w.peers` goes through in `Clear`, `ClearStates`,
-- `TryUpdateSessionID` and `IsProperMemberOrReset`. Every call passes the key under which `info`
-- stands, so `delete(w.peers, peer_id)` empties the slot.
use Prim.Native.String.{◌++◌ as append}
use abyss_core.Prelude.{String, Bool, true, false, [], none, some, ltb, ◌==◌, nat_eq, if◌then◌else◌}
use abyss_core.Interfaces.{
  Uuid, uuid_nil, Time, zero_time, AndPeerSession, AndPeerSessionWithTimeStamp, Message,
}
use abyss_core.Interfaces.NeighborEvent.{join_fail, session_close}
use abyss_core.And.Effect.{
  M, ret, panicked, ◌>>=◌, ◌>>◌, pure, fault, act, raise, send, deref, Kind, tx,
}
use abyss_core.And.State.{
  WorldState, ws_dc_jt, ws_dc_jni, ws_cc, ws_jt, ws_jn, ws_mem, AndPeerSessionState, AndWorld, Slot,
  jnc_invalid_states, jnm_invalid_states,
}

-- Reading through `info`.
abbrev pub load : M Slot AndPeerSessionState
load none = panicked
load (some info) = ret info (some info) []

-- Writing through `info`; an entry that was deleted is no longer in the map.
abbrev pub modify : (AndPeerSessionState → AndPeerSessionState) → M Slot (Unit {0})
modify f none = ret tt none []
modify f (some info) = ret tt (some (f info)) []

abbrev pub set_state : WorldState → M Slot (Unit {0})
set_state s = modify (λ i. record i { state = s })

abbrev pub remove : M Slot (Unit {0})
remove s = ret tt none []

abbrev pub session_of : AndPeerSessionState → AndPeerSession
session_of i = record { peer = i.peer; peer_session_id = i.peer_session_id }

abbrev pub stamped_session_of : AndPeerSessionState → AndPeerSessionWithTimeStamp
stamped_session_of i = record { session = session_of i; time_stamp = i.time_stamp }

cleared : AndPeerSessionState → AndPeerSessionState
cleared i = record i {
  peer_session_id = uuid_nil;
  time_stamp = zero_time;
  state = ws_cc;
  sjnp = false;
  sjnc = 0;
}

unfoldable pub clear : M Slot (Unit {0})
unfolding cleared
clear = do info ← load; p ← deref info.peer; modify cleared

send_rst : AndWorld → String → AndPeerSessionState → M Slot (Unit {0})
send_rst w message i = do
  act (tx Kind.rst_t)
  send i.peer (Message.rst w.lsid i.peer_session_id message)

clear_at : WorldState → AndWorld → String → AndPeerSessionState → M Slot (Unit {0})
unfolding clear send_rst
clear_at ws_dc_jt w message i = remove
clear_at ws_dc_jni w message i = remove
clear_at ws_cc w message i = clear
clear_at ws_jt w message i = do
  send_rst w (append "ClearStates::WS_JT " message) i
  raise (join_fail w.lsid jnm_invalid_states jnc_invalid_states)
  clear
clear_at ws_jn w message i = do
  act (tx Kind.jdn_t)
  send i.peer (Message.jdn i.peer_session_id jnc_invalid_states jnm_invalid_states)
  clear
clear_at ws_mem w message i = do
  raise (session_close w.lsid (session_of i))
  send_rst w (append "ClearStates::else " message) i
  clear
clear_at _ w message i = do send_rst w (append "ClearStates::else " message) i; clear

unfoldable pub clear_states : AndWorld → String → M Slot (Unit {0})
unfolding clear_at
clear_states w message = do info ← load; clear_at info.state w message info

unfoldable pub try_update_session_id : AndWorld → Uuid → Time → M Slot Bool
unfolding clear_states
try_update_session_id w session_id timestamp = do
  info ← load
  if ltb info.time_stamp timestamp
      then (do
        p ← deref info.peer
        clear_states w "session id update failure"
        modify (λ i. record i { peer_session_id = session_id; time_stamp = timestamp })
        pure true)
      else pure false

reset_non_member : AndWorld → AndPeerSessionState → M Slot Bool
unfolding clear_states
reset_non_member w i = do p ← deref i.peer; clear_states w "non-member reset"; pure false

proper_at : WorldState → AndWorld → Uuid → AndPeerSessionState → M Slot Bool
unfolding reset_non_member
proper_at ws_dc_jt w session_id i = fault
proper_at ws_dc_jni w session_id i = fault
proper_at ws_mem w session_id i =
    if i.peer_session_id == session_id then pure true else reset_non_member w i
proper_at _ w session_id i = reset_non_member w i

unfoldable pub is_proper_member_or_reset : AndWorld → Uuid → M Slot Bool
unfolding proper_at
is_proper_member_or_reset w session_id = do info ← load; proper_at info.state w session_id info
