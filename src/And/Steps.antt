-- ===== src/And/Steps.antt =====
-- Every call on an entry keeps it placed, counts what it sends, and tells the application of
-- every change of membership.
use abyss_core.Prelude.{String, List, [], ◌∷◌, ◌++◌, none, some, ◌≡◌, arith, ℕ, ◌∙◌, subst}
use abyss_core.Interfaces.{Uuid, Time, Peer, ObjectInfo, AndPeerSessionWithTimeStamp, Message}
use abyss_core.And.Effect.{
  Outcome, panicked, ret, prepend, Action, M, after, map_result, fmap, act, send, tx, Kind, ◌>>◌,
}
use abyss_core.And.State.{AndWorld, Slot, AndPeerSessionState, ws_jn, ws_tmem}
use abyss_core.And.Monitor.{
  replay, replay-append, count_step, member_step, member_of, IsAbout, All, IsPlaced, All-append,
}
use abyss_core.And.Clear.{
  set_state, clear, clear_states, try_update_session_id, is_proper_member_or_reset,
}
use abyss_core.And.Info.{
  known_peer_connected, jn_info, jok_info, jdn_info, jni_mems_info, mem_info, soa_info, sod_info,
  rst_info, invite_one, invite, accept_jn, accept_session_info, decline_session_info,
  remove_peer_info,
}

pub record IsStep (k : String) (s s' : Slot) (acts : List Action) : Type 0 where
  pub placed : IsPlaced k s'
  pub told : replay member_step (member_of s) acts ≡ some (member_of s')
  pub about : All (IsAbout k) acts
  pub counted : replay count_step none acts ≡ some none

abbrev pub Steps : {A : Type 0} → String → Slot → Outcome Slot A → Type 0
Steps k s panicked = Unit {0}
Steps k s (ret a s' acts) = IsStep k s s' acts

module _ (k : String) where
  pub IsStep-trans :
      {s t u : Slot} (xs ys : List Action)
      → IsStep k s t xs
      → IsStep k t u ys
      → IsStep k s u (xs ++ ys)
  IsStep-trans {s} {t} {u} xs ys p q = record {
    placed = q.placed;
    told = replay-append member_step (member_of s) xs ys ∙ rw p.told q.told;
    about = All-append (IsAbout k) xs ys p.about q.about;
    counted = replay-append count_step none xs ys ∙ rw p.counted q.counted;
  }

  pub prepend-Steps :
      {A : Type 0} {s t : Slot} (xs : List Action) (o : Outcome Slot A)
      → IsStep k s t xs
      → Steps k t o
      → Steps k s (prepend xs o)
  prepend-Steps xs panicked p q = tt
  prepend-Steps xs (ret a u ys) p q = IsStep-trans xs ys p q

  pub clear_states-Steps :
      (w : AndWorld) (message : String) (s : Slot)
      → IsPlaced k s
      → Steps k s (clear_states w message s)
  unfolding clear_states
  clear_states-Steps w message none h = tt
  clear_states-Steps w message (some i) h = ground arith

  pub proper-Steps :
      (w : AndWorld) (sid : Uuid) (s : Slot)
      → IsPlaced k s
      → Steps k s (is_proper_member_or_reset w sid s)
  unfolding is_proper_member_or_reset clear_states
  proper-Steps w sid none h = tt
  proper-Steps w sid (some i) h = ground arith

  pub jni_mems_info-Steps :
      (w : AndWorld) (sid : Uuid) (t : Time) (s : Slot)
      → IsPlaced k s
      → Steps k s (jni_mems_info w sid t s)
  unfolding jni_mems_info try_update_session_id
  jni_mems_info-Steps w sid t none h = tt
  jni_mems_info-Steps w sid t (some i) h = ground arith

  pub rst_info-Steps : (w : AndWorld) (s : Slot) → IsPlaced k s → Steps k s (rst_info w s)
  unfolding rst_info clear_states
  rst_info-Steps w none h = tt
  rst_info-Steps w (some i) h = ground arith

  pub decline-Steps :
      (w : AndWorld) (sid : Uuid) (s : Slot)
      → IsPlaced k s
      → Steps k s (decline_session_info w sid s)
  unfolding decline_session_info clear_states
  decline-Steps w sid none h = ground arith
  decline-Steps w sid (some i) h = ground arith

  pub remove_peer_info-Steps :
      (w : AndWorld) (s : Slot) → IsPlaced k s → Steps k s (remove_peer_info w s)
  unfolding remove_peer_info clear_states
  remove_peer_info-Steps w none h = tt
  remove_peer_info-Steps w (some i) h = ground arith

  abbrev Keeps : {A : Type 0} → Slot → Outcome Slot A → Type 0
  Keeps s panicked = Unit {0}
  Keeps s (ret a t acts) = (t ≡ s) × IsStep k s t acts

  invite_one-Keeps :
      (w : AndWorld) (i q : AndPeerSessionState) (s : Slot)
      → IsPlaced k s
      → Keeps s (invite_one q.state w i q s)
  unfolding invite_one
  invite_one-Keeps w i q s h = ground arith

  extend-Keeps :
      {A B : Type 0} {s t : Slot} (f : A → B) (xs : List Action) (o : Outcome Slot A)
      → t ≡ s
      → IsStep k s t xs
      → Keeps s o
      → Keeps s (prepend xs (map_result f o))
  extend-Keeps f xs panicked e p q = tt
  extend-Keeps {s = s} f xs (ret a u ys) e p q =
      (q.0, IsStep-trans xs ys (subst (λ v. IsStep k s v xs) e p) q.1)

  invite-Keeps :
      (w : AndWorld) (i : AndPeerSessionState) (visited : List AndPeerSessionState) (s : Slot)
      → IsPlaced k s
      → Keeps s (invite w i visited s)
  unfolding invite
  invite-Keeps w i [] s h = ground arith
  invite-Keeps w i (q ∷ visited) s h =
      go (invite_one q.state w i q s) (invite-Keeps w i visited s h) (invite_one-Keeps w i q s h)
    where
      go :
          (o : Outcome Slot (List AndPeerSessionWithTimeStamp))
          → Keeps s (invite w i visited s)
          → Keeps s o
          → Keeps s (after o (λ found. fmap (λ rest. found ++ rest) (invite w i visited)))
      go panicked ih p = tt
      go (ret a t xs) ih p =
          rw (p.0) (extend-Keeps (λ rest. a ++ rest) xs (invite w i visited s) p.0 p.1 ih)

  accept_jn-Steps :
      (w : AndWorld) (visited : List AndPeerSessionState) (i : AndPeerSessionState)
      → i.state ≡ ws_jn
      → IsPlaced k (some i)
      → Steps k (some i) (accept_jn w visited i (some i))
  unfolding accept_jn
  accept_jn-Steps w visited i e h =
      go (invite w i visited (some i)) (invite-Keeps w i visited (some i) h)
    where
      answer : List AndPeerSessionWithTimeStamp → M Slot (Unit {0})
      answer members = do
        act (tx Kind.jok_t)
        send i.peer (Message.jok w.lsid i.peer_session_id w.timestamp w.wurl members)
        set_state ws_tmem

      go :
          (o : Outcome Slot (List AndPeerSessionWithTimeStamp))
          → Keeps (some i) o
          → Steps k (some i) (after o answer)
      go panicked p = tt
      go (ret members t xs) p =
          prepend-Steps xs (answer members t) p.1 (rw (p.0) (answered members))
        where
          answered :
              (members : List AndPeerSessionWithTimeStamp)
              → Steps k (some i) (answer members (some i))
          answered members = ground arith

  pub accept-Steps :
      (w : AndWorld) (visited : List AndPeerSessionState) (sid : Uuid) (s : Slot)
      → IsPlaced k s
      → Steps k s (accept_session_info w visited sid s)
  unfolding accept_session_info
  accept-Steps w visited sid none h = ground arith
  accept-Steps w visited sid (some i) h = ground (arith, accept_jn-Steps w visited i)

-- The handlers of a message from the peer whose entry it is.
module _ (k : String) (w : AndWorld) (p : Peer) (e : p.id_hash ≡ k) where
  pub known_peer-Steps : (s : Slot) → IsPlaced k s → Steps k s (known_peer_connected w p s)
  unfolding known_peer_connected
  known_peer-Steps none h = tt
  known_peer-Steps (some i) h = ground arith

  pub jn_info-Steps :
      (sid : Uuid) (t : Time) (s : Slot) → IsPlaced k s → Steps k s (jn_info w p sid t s)
  unfolding jn_info try_update_session_id
  jn_info-Steps sid t none h = tt
  jn_info-Steps sid t (some i) h = ground arith

  pub jok_info-Steps :
      (sid : Uuid) (t : Time) (world_url : String) (s : Slot)
      → IsPlaced k s
      → Steps k s (jok_info w p sid t world_url s)
  unfolding jok_info
  jok_info-Steps sid t world_url none h = ground arith
  jok_info-Steps sid t world_url (some i) h = ground arith

  pub jdn_info-Steps :
      (code : ℕ) (message : String) (s : Slot)
      → IsPlaced k s
      → Steps k s (jdn_info w p code message s)
  unfolding jdn_info clear
  jdn_info-Steps code message none h = ground arith
  jdn_info-Steps code message (some i) h = ground arith

  pub mem_info-Steps :
      (sid : Uuid) (t : Time) (s : Slot) → IsPlaced k s → Steps k s (mem_info w p sid t s)
  unfolding mem_info try_update_session_id
  mem_info-Steps sid t none h = tt
  mem_info-Steps sid t (some i) h = ground arith

  pub soa_info-Steps :
      (sid : Uuid) (objects : List ObjectInfo) (s : Slot)
      → IsPlaced k s
      → Steps k s (soa_info w p sid objects s)
  unfolding soa_info
  soa_info-Steps sid objects none h = tt
  soa_info-Steps sid objects (some i) h = ground arith

  pub sod_info-Steps :
      (sid : Uuid) (object_ids : List Uuid) (s : Slot)
      → IsPlaced k s
      → Steps k s (sod_info w p sid object_ids s)
  unfolding sod_info
  sod_info-Steps sid object_ids none h = tt
  sod_info-Steps sid object_ids (some i) h = ground arith
