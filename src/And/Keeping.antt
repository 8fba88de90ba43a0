-- ===== src/And/Keeping.antt =====
-- A connected peer keeps its entry: every call but RemovePeer leaves connected entries connected.
pub mod Calls
pub mod Connected
use abyss_core.Prelude.{
  String, string_eq, none, some, ◌≡◌, List, ℕ, arith, put, put_self, put-ne, key_cases, inl, inr,
  subst, sym, [], ◌∷◌, ◌++◌,
}
use abyss_core.Interfaces.{
  Uuid, Time, Peer, ObjectInfo, AndFullPeerSessionIdentity, AndPeerSessionIdentity,
  AndPeerSessionWithTimeStamp, Message,
}
use abyss_core.And.Effect.{
  Outcome, panicked, ret, prepend, Action, M, after, map_result, act, send, tx, Kind, ◌>>◌,
}
use abyss_core.And.State.{AndWorld, Slot, AndPeerSessionState, ws_tmem}
use abyss_core.And.Clear.{
  set_state, clear, clear_states, try_update_session_id, is_proper_member_or_reset,
}
use abyss_core.And.Info.{
  known_peer_connected, jn_info, jok_info, jdn_info, jni_mems_info, mem_info, soa_info, sod_info,
  rst_info, invite, invite_one, accept_jn, accept_session_info, decline_session_info,
}
use abyss_core.And.World.{at_peer, put_back, jni_mems_slot, peer_connected_info, proper}
use abyss_core.And.Members.{sjn_mems_slot, announce, is_passed_over, origin_of}
use abyss_core.And.Ends.{IsLive, is_connected}

-- The entry stays connected if it was.
abbrev pub Stays : {A : Type 0} → Slot → Outcome Slot A → Type 0
Stays s panicked = Unit {0}
Stays s (ret a t acts) = IsLive s → IsLive t

abbrev pub Keeps : {A : Type 0} → AndWorld → Outcome AndWorld A → Type 0
Keeps w panicked = Unit {0}
Keeps w (ret a v acts) = (k : String) → IsLive (w.peers k) → IsLive (v.peers k)

pub put_back-Keeps :
    {A : Type 0} (w : AndWorld) (k : String) (o : Outcome Slot A)
    → Stays (w.peers k) o
    → Keeps w (put_back w k o)
put_back-Keeps w k panicked h = tt
put_back-Keeps w k (ret a t acts) h = λ j live. elim (key_cases k j) [
  | inl e ↦
      subst (λ i. IsLive (put k t w.peers i)) e
        (rw (put_self k t w.peers) (h (subst (λ i. IsLive (w.peers i)) (sym e) live)))
  | inr n ↦ rw (put-ne k j t w.peers n) live
]

pub prepend-Keeps :
    {A : Type 0} (u v : AndWorld) (xs : List Action) (o : Outcome AndWorld A)
    → ((k : String) → IsLive (u.peers k) → IsLive (v.peers k))
    → Keeps v o
    → Keeps u (prepend xs o)
prepend-Keeps u v xs panicked h p = tt
prepend-Keeps u v xs (ret a w ys) h p = λ k live. p k (h k live)

pub after-Keeps :
    {A B : Type 0} (u : AndWorld) (o : Outcome AndWorld A) (f : A → M AndWorld B)
    → Keeps u o
    → ((a : A) (v : AndWorld) → Keeps v (f a v))
    → Keeps u (after o f)
after-Keeps u panicked f p h = tt
after-Keeps u (ret a v xs) f p h = prepend-Keeps u v xs (f a v) p (h a v)

pub map_result-Keeps :
    {A B : Type 0} (u : AndWorld) (f : A → B) (o : Outcome AndWorld A)
    → Keeps u o
    → Keeps u (map_result f o)
map_result-Keeps u f panicked p = tt
map_result-Keeps u f (ret a v xs) p = p

pub peer_connected_info-Stays :
    (p : Peer) (w : AndWorld) (s : Slot) → Stays s (peer_connected_info p w s)
unfolding peer_connected_info known_peer_connected
peer_connected_info-Stays p w none = ground arith
peer_connected_info-Stays p w (some i) = ground arith

pub proper-Stays :
    (w : AndWorld) (sid : Uuid) (s : Slot) → Stays s (is_proper_member_or_reset w sid s)
unfolding is_proper_member_or_reset clear_states
proper-Stays w sid none = tt
proper-Stays w sid (some i) = ground arith

pub jn_info-Stays :
    (w : AndWorld) (p : Peer) (sid : Uuid) (t : Time) (s : Slot) → Stays s (jn_info w p sid t s)
unfolding jn_info try_update_session_id
jn_info-Stays w p sid t none = tt
jn_info-Stays w p sid t (some i) = ground arith

pub mem_info-Stays :
    (w : AndWorld) (p : Peer) (sid : Uuid) (t : Time) (s : Slot) → Stays s (mem_info w p sid t s)
unfolding mem_info try_update_session_id clear_states
mem_info-Stays w p sid t none = tt
mem_info-Stays w p sid t (some i) = ground arith

pub jok_info-Stays :
    (w : AndWorld) (p : Peer) (sid : Uuid) (t : Time) (url : String) (s : Slot)
    → Stays s (jok_info w p sid t url s)
unfolding jok_info
jok_info-Stays w p sid t url none = ground arith
jok_info-Stays w p sid t url (some i) = ground arith

pub jdn_info-Stays :
    (w : AndWorld) (p : Peer) (code : ℕ) (message : String) (s : Slot)
    → Stays s (jdn_info w p code message s)
unfolding jdn_info clear
jdn_info-Stays w p code message none = ground arith
jdn_info-Stays w p code message (some i) = ground arith

pub jni_mems_slot-Stays :
    (m : AndFullPeerSessionIdentity) (w : AndWorld) (s : Slot) → Stays s (jni_mems_slot m w s)
unfolding jni_mems_slot jni_mems_info try_update_session_id
jni_mems_slot-Stays m w none = ground arith
jni_mems_slot-Stays m w (some i) = ground arith

pub sjn_mems_slot-Stays :
    (p : Peer) (sid : Uuid) (m : AndPeerSessionIdentity) (w : AndWorld) (s : Slot)
    → Stays s (sjn_mems_slot p sid m w s)
unfolding sjn_mems_slot
sjn_mems_slot-Stays p sid m w none = ground arith
sjn_mems_slot-Stays p sid m w (some i) = ground arith

pub soa_info-Stays :
    (w : AndWorld) (p : Peer) (sid : Uuid) (os : List ObjectInfo) (s : Slot)
    → Stays s (soa_info w p sid os s)
unfolding soa_info
soa_info-Stays w p sid os none = tt
soa_info-Stays w p sid os (some i) = ground arith

pub sod_info-Stays :
    (w : AndWorld) (p : Peer) (sid : Uuid) (ids : List Uuid) (s : Slot)
    → Stays s (sod_info w p sid ids s)
unfolding sod_info
sod_info-Stays w p sid ids none = tt
sod_info-Stays w p sid ids (some i) = ground arith

pub rst_info-Stays : (w : AndWorld) (s : Slot) → Stays s (rst_info w s)
unfolding rst_info clear_states
rst_info-Stays w none = tt
rst_info-Stays w (some i) = ground arith

pub decline-Stays : (w : AndWorld) (sid : Uuid) (s : Slot) → Stays s (decline_session_info w sid s)
unfolding decline_session_info clear_states
decline-Stays w sid none = ground arith
decline-Stays w sid (some i) = ground arith

pub announce-Stays : (now : Time) (w : AndWorld) (s : Slot) → Stays s (announce now w s)
unfolding announce
announce-Stays now w none = ground arith
announce-Stays now w (some i) = ground arith

pub prepend-Stays :
    {A : Type 0} (s t : Slot) (xs : List Action) (o : Outcome Slot A)
    → (IsLive s → IsLive t)
    → Stays t o
    → Stays s (prepend xs o)
prepend-Stays s t xs panicked h p = tt
prepend-Stays s t xs (ret a u ys) h p = λ live. p (h live)

after-Stays :
    {A B : Type 0} (s : Slot) (o : Outcome Slot A) (f : A → M Slot B)
    → Stays s o
    → ((a : A) (t : Slot) → Stays t (f a t))
    → Stays s (after o f)
after-Stays s panicked f p h = tt
after-Stays s (ret a t xs) f p h = prepend-Stays s t xs (f a t) p (h a t)

map_result-Stays :
    {A B : Type 0} (s : Slot) (f : A → B) (o : Outcome Slot A)
    → Stays s o
    → Stays s (map_result f o)
map_result-Stays s f panicked p = tt
map_result-Stays s f (ret a v xs) p = p

invite_one-Stays :
    (w : AndWorld) (i q : AndPeerSessionState) (s : Slot) → Stays s (invite_one q.state w i q s)
unfolding invite_one
invite_one-Stays w i q s = ground arith

invite-Stays :
    (w : AndWorld) (i : AndPeerSessionState) (visited : List AndPeerSessionState) (s : Slot)
    → Stays s (invite w i visited s)
unfolding invite
invite-Stays w i [] s = λ live. live
invite-Stays w i (q ∷ visited) s =
    after-Stays s (invite_one q.state w i q s) _ (invite_one-Stays w i q s) (λ found t.
      map_result-Stays t (λ rest. found ++ rest) (invite w i visited t)
        (invite-Stays w i visited t))

accept_jn-Stays :
    (w : AndWorld) (visited : List AndPeerSessionState) (i : AndPeerSessionState) (s : Slot)
    → Stays s (accept_jn w visited i s)
unfolding accept_jn
accept_jn-Stays w visited i s =
    after-Stays s (invite w i visited s) answer (invite-Stays w i visited s) answered
  where
    answer : List AndPeerSessionWithTimeStamp → M Slot (Unit {0})
    answer members = do
      act (tx Kind.jok_t)
      send i.peer (Message.jok w.lsid i.peer_session_id w.timestamp w.wurl members)
      set_state ws_tmem

    answered : (members : List AndPeerSessionWithTimeStamp) (t : Slot) → Stays t (answer members t)
    answered members none = ground arith
    answered members (some j) = ground arith

pub accept-Stays :
    (w : AndWorld) (visited : List AndPeerSessionState) (sid : Uuid) (s : Slot)
    → Stays s (accept_session_info w visited sid s)
unfolding accept_session_info
accept-Stays w visited sid none = ground arith
accept-Stays w visited sid (some i) = ground (arith, accept_jn-Stays w visited i (some i))
