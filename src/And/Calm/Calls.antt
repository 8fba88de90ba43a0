-- ===== src/And/Calm/Calls.antt =====
-- The calls on a world that waits for no join, and the world that NewWorldOpen makes.
use abyss_core.Prelude.{
  String, none, some, List, [], ◌∷◌, ◌++◌, true, false, Bool, if◌then◌else◌, ◌≡◌, refl, ◌∙◌, ap,
}
use abyss_core.Interfaces.{Uuid, Time, Peer, AndPeerSessionIdentity, NeighborEvent}
use abyss_core.Interfaces.NeighborEvent.{join_success, timer_request}
use abyss_core.And.Effect.{
  Outcome, panicked, ret, M, after, prepend, Kind, rx, tx, skip, stat_w, Action, raised, sent,
  w_branch, b_branch,
}
use abyss_core.And.State.{AndWorld, Slot, new_and_peer_session_state}
use abyss_core.And.World
use abyss_core.And.World.{
  at_peer, put_back, jni_mems, jni_mems_all, proper, visit, peer_connected_info, enter,
  connect_members, empty_world, new_world_open,
}
use abyss_core.And.Members
use abyss_core.And.Members.{sjn_mems_all, crr_mems_all, origin_of, announce_all, tell_all}
use abyss_core.And.Monitor.{IsPlaced}
use abyss_core.And.Clear.{is_proper_member_or_reset}
use abyss_core.And.Ends.{IsFree}
use abyss_core.And.Call.{
  Call, peer_connected, remove_peer, rst, jn, mem, jok, jdn, jni, sjn, crr, soa, sod,
  accept_session, decline_session, timer_expire, call,
}
use abyss_core.And.Calm
use abyss_core.And.Calm.{IsTameAct, Calms}
use abyss_core.And.Calm.Accepting.{accept-Calms}
use abyss_core.And.Calm.Loops.{
  IsCalm, StaysCalm, put_back-StaysCalm, after-StaysCalm, at_peer-StaysCalm, jni_mems_all-StaysCalm,
  jni-StaysCalm, sjn_mems_all-StaysCalm, crr_mems_all-StaysCalm, announce_all-StaysCalm,
  tell_all-StaysCalm,
}

proper-Calms :
    (k : String) (kind : Kind) (sid : Uuid) (w : AndWorld) (s : Slot)
    → IsPlaced k s
    → IsFree s
    → Calms k w.lsid (proper kind sid w s)
proper-Calms k kind sid w s h f =
    go (is_proper_member_or_reset w sid s) (Calm.proper-Calms k w sid s h f)
  where
    go : (o : Outcome Slot Bool) → Calms k w.lsid o → Calms k w.lsid (prepend (rx kind ∷ []) o)
    go panicked p = tt
    go (ret a t xs) p = (p.0, p.1, (tt, p.2))

module _ (lsid : Uuid) where
  branch-StaysCalm :
      (b : Bool) (f g : M AndWorld (Unit {0})) (w : AndWorld)
      → StaysCalm lsid (f w)
      → StaysCalm lsid (g w)
      → StaysCalm lsid ((if b then f else g) w)
  branch-StaysCalm true f g w p q = p
  branch-StaysCalm false f g w p q = q

  asked-StaysCalm :
      (p : Peer) (kind : Kind) (sid : Uuid) (w : AndWorld)
      → IsCalm lsid w
      → StaysCalm lsid (at_peer p.id_hash (proper kind sid) w)
  asked-StaysCalm p kind sid w h = at_peer-StaysCalm lsid p.id_hash (proper kind sid) w h (
      proper-Calms p.id_hash kind sid w (w.peers p.id_hash) (h.placed p.id_hash) (h.free p.id_hash))

  crr-StaysCalm :
      (p : Peer) (sid : Uuid) (ms : List AndPeerSessionIdentity) (w : AndWorld)
      → IsCalm lsid w
      → StaysCalm lsid (Members.crr p sid ms w)
  unfolding Members.crr
  crr-StaysCalm p sid ms w h =
      after-StaysCalm lsid (at_peer p.id_hash (proper Kind.crr_t sid) w) _
        (asked-StaysCalm p Kind.crr_t sid w h)
        (λ b v h'.
          after-StaysCalm lsid (at_peer p.id_hash origin_of v) _
            (at_peer-StaysCalm lsid p.id_hash origin_of v h'
              (origin-Calms v (v.peers p.id_hash) (h'.placed p.id_hash) (h'.free p.id_hash)))
            (λ o u h''.
              branch-StaysCalm b (crr_mems_all o ms) (stat_w 44) u
                (crr_mems_all-StaysCalm lsid o ms u h'') (h'', (tt, tt))))
    where
      origin-Calms :
          (v : AndWorld) (s : Slot)
          → IsPlaced p.id_hash s
          → IsFree s
          → Calms p.id_hash v.lsid (origin_of v s)
      origin-Calms v none h f = tt
      origin-Calms v (some i) h f = (h, f, tt)

  -- What a call on the sender's entry does, in the world.
  own :
      (p : Peer) (w : AndWorld) (o : Outcome Slot (Unit {0}))
      → IsCalm lsid w
      → (IsPlaced p.id_hash (w.peers p.id_hash)
          → IsFree (w.peers p.id_hash)
          → Calms p.id_hash w.lsid o)
      → StaysCalm lsid (put_back w p.id_hash o)
  own p w o h c =
      put_back-StaysCalm lsid p.id_hash w o h (c (h.placed p.id_hash) (h.free p.id_hash))

  pub call-StaysCalm : (c : Call) (w : AndWorld) → IsCalm lsid w → StaysCalm lsid (call c w)
  unfolding call World.peer_connected World.jn World.mem World.jok World.jdn World.jni Members.sjn
      Members.remove_peer Members.rst Members.soa Members.sod Members.accept_session
      Members.decline_session Members.timer_expire at_peer
  call-StaysCalm (peer_connected p) w h =
      own p w _ h (Calm.connected-Calms p.id_hash w p refl (w.peers p.id_hash))
  call-StaysCalm (remove_peer p) w h =
      own p w _ h (Calm.remove-Calms p.id_hash w (w.peers p.id_hash))
  call-StaysCalm (rst p) w h = own p w _ h (Calm.rst_info-Calms p.id_hash w (w.peers p.id_hash))
  call-StaysCalm (jn p sid t) w h =
      own p w _ h (Calm.jn_info-Calms p.id_hash w p refl sid t (w.peers p.id_hash))
  call-StaysCalm (mem p sid t) w h =
      own p w _ h (Calm.mem_info-Calms p.id_hash w p refl sid t (w.peers p.id_hash))
  call-StaysCalm (jok p sid t url ms) w h =
      after-StaysCalm lsid _ _
        (put_back-StaysCalm lsid p.id_hash w _ h (
          Calm.jok_info-Calms p.id_hash w p refl sid t url (w.peers p.id_hash) (h.placed p.id_hash)
            (h.free p.id_hash)))
        (λ b v h'.
          branch-StaysCalm b (jni_mems_all ms) skip v (jni_mems_all-StaysCalm lsid ms v h')
            (h', tt))
  call-StaysCalm (jdn p code message) w h =
      own p w _ h (Calm.jdn_info-Calms p.id_hash w p refl code message (w.peers p.id_hash))
  call-StaysCalm (jni p sid m) w h =
      after-StaysCalm lsid (at_peer p.id_hash (proper Kind.jni_t sid) w) _
        (asked-StaysCalm p Kind.jni_t sid w h)
        (λ b v h'. branch-StaysCalm b _ (stat_w 17) v (jni-StaysCalm lsid m v h') (h', (tt, tt)))
  call-StaysCalm (sjn p sid ms) w h =
      after-StaysCalm lsid (at_peer p.id_hash (proper Kind.sjn_t sid) w) _
        (asked-StaysCalm p Kind.sjn_t sid w h)
        (λ b v h'.
          branch-StaysCalm b _ (stat_w 40) v (sjn_mems_all-StaysCalm lsid p sid ms v h')
            (h', (tt, tt)))
  call-StaysCalm (crr p sid ms) w h = crr-StaysCalm p sid ms w h
  call-StaysCalm (soa p sid objects) w h =
      own p w _ h (Calm.soa_info-Calms p.id_hash w p refl sid objects (w.peers p.id_hash))
  call-StaysCalm (sod p sid object_ids) w h =
      own p w _ h (Calm.sod_info-Calms p.id_hash w p refl sid object_ids (w.peers p.id_hash))
  call-StaysCalm (accept_session order p sid) w h =
      own p w _ h (accept-Calms p.id_hash w (visit w.peers order) sid (w.peers p.id_hash))
  call-StaysCalm (decline_session p sid) w h =
      own p w _ h (Calm.decline-Calms p.id_hash w sid (w.peers p.id_hash))
  call-StaysCalm (timer_expire draw now first then_order) w h =
      after-StaysCalm lsid (announce_all now first w) _ (announce_all-StaysCalm lsid now first w h)
        (λ ids v h'.
          after-StaysCalm lsid (tell_all ids (visit v.peers then_order) v) _
            (tell_all-StaysCalm lsid ids (visit v.peers then_order) v h')
            (λ n u h''. (h'', (h.named, tt))))

-- The events that a run writes to the channel, in order.
unfoldable pub events : List Action → List NeighborEvent
events [] = []
events (raised e ∷ acts) = e ∷ events acts
events (sent p m ∷ acts) = events acts
events (tx k ∷ acts) = events acts
events (rx k ∷ acts) = events acts
events (w_branch i ∷ acts) = events acts
events (b_branch i ∷ acts) = events acts

pub events-append : (xs ys : List Action) → events (xs ++ ys) ≡ events xs ++ events ys
unfolding events
events-append [] ys = refl
events-append (raised e ∷ xs) ys = ap (λ l. e ∷ l) (events-append xs ys)
events-append (sent p m ∷ xs) ys = events-append xs ys
events-append (tx k ∷ xs) ys = events-append xs ys
events-append (rx k ∷ xs) ys = events-append xs ys
events-append (w_branch i ∷ xs) ys = events-append xs ys
events-append (b_branch i ∷ xs) ys = events-append xs ys

-- The world is calm, and nothing but `es` has been told.
abbrev pub OpensCalm : Uuid → List NeighborEvent → Outcome AndWorld (Unit {0}) → Type 0
OpensCalm lsid es panicked = ⊥
OpensCalm lsid es (ret a v acts) = IsCalm lsid v × (events acts ≡ es)

prepend-OpensCalm :
    (lsid : Uuid) (es : List NeighborEvent) (xs : List Action) (o : Outcome AndWorld (Unit {0}))
    → events xs ≡ []
    → OpensCalm lsid es o
    → OpensCalm lsid es (prepend xs o)
prepend-OpensCalm lsid es xs panicked h p = p
prepend-OpensCalm lsid es xs (ret a v ys) h p = (p.0, events-append xs ys ∙ rw h p.1)

enter-Calms : (p : Peer) (w : AndWorld) (s : Slot) → Calms p.id_hash w.lsid (enter p w s)
unfolding enter new_and_peer_session_state
enter-Calms p w s = (refl, refl, tt)

connect-OpensCalm :
    (lsid : Uuid) (members : List Peer) (w : AndWorld)
    → IsCalm lsid w
    → OpensCalm lsid [] (connect_members 0 members w)
unfolding connect_members at_peer enter events
connect-OpensCalm lsid [] w h = (h, refl)
connect-OpensCalm lsid (p ∷ members) w h = prepend-OpensCalm lsid [] (w_branch 0 ∷ []) _ refl (
    prepend-OpensCalm lsid [] [] _ refl (
      connect-OpensCalm lsid members _
        (put_back-StaysCalm lsid p.id_hash w (enter p w (w.peers p.id_hash)) h
          (enter-Calms p w (w.peers p.id_hash))).0))

pub new_world_open-OpensCalm :
    (local : String) (lsid : Uuid) (wurl : String) (members : List Peer) (now : Time)
    → OpensCalm lsid
        (join_success lsid wurl ∷ timer_request lsid 500 ∷ [])
        (new_world_open local lsid wurl members now)
unfolding new_world_open empty_world events
new_world_open-OpensCalm local lsid wurl members now =
    go (connect_members 0 members (empty_world local lsid now "" "" wurl))
      (connect-OpensCalm lsid members _ (record { named = refl; placed = λ k. tt; free = λ k. tt }))
  where
    go :
        (o : Outcome AndWorld (Unit {0}))
        → OpensCalm lsid [] o
        → OpensCalm lsid (join_success lsid wurl ∷ timer_request lsid 500 ∷ []) (
            after o (λ a v.
              ret tt v (raised (join_success lsid wurl) ∷ raised (timer_request lsid 500) ∷ [])))
    go panicked p = p
    go (ret a v xs) p = (p.0, events-append xs _ ∙ rw (p.1) refl)
