-- ===== src/And/Calm/Accepting.antt =====
-- AcceptSession, in a world that waits for no join.
use abyss_core.Prelude.{String, none, some, ◌≡◌, refl, List, [], ◌∷◌, ◌++◌, arith}
use abyss_core.Interfaces.{Uuid, AndPeerSessionWithTimeStamp, Message}
use abyss_core.And.Effect.{
  Outcome, panicked, ret, prepend, Action, M, after, map_result, fmap, act, send, tx, Kind, ◌>>◌,
}
use abyss_core.And.State.{AndWorld, Slot, AndPeerSessionState, ws_jn, ws_tmem}
use abyss_core.And.Clear.{set_state}
use abyss_core.And.Info.{invite, invite_one, accept_jn, accept_session_info}
use abyss_core.And.Monitor.{IsPlaced, All, All-append}
use abyss_core.And.Ends.{IsFree}
use abyss_core.And.Calm.{IsTameAct, Calms}

-- The entry is left as it is.
abbrev Watches : {A : Type 0} → Slot → Uuid → Outcome Slot A → Type 0
Watches s lsid panicked = Unit {0}
Watches s lsid (ret a t acts) = (t ≡ s) × All (IsTameAct lsid) acts

module _ (w : AndWorld) (i : AndPeerSessionState) where
  invite_one-Watches :
      (q : AndPeerSessionState) (s : Slot) → Watches s w.lsid (invite_one q.state w i q s)
  unfolding invite_one
  invite_one-Watches q s = ground arith

  more-Watches :
      {A B : Type 0} (s : Slot) (f : A → B) (xs : List Action) (o : Outcome Slot A)
      → All (IsTameAct w.lsid) xs
      → Watches s w.lsid o
      → Watches s w.lsid (prepend xs (map_result f o))
  more-Watches s f xs panicked h p = tt
  more-Watches s f xs (ret a t ys) h p = (p.0, All-append (IsTameAct w.lsid) xs ys h p.1)

  invite-Watches :
      (visited : List AndPeerSessionState) (s : Slot) → Watches s w.lsid (invite w i visited s)
  unfolding invite
  invite-Watches [] s = (refl, tt)
  invite-Watches (q ∷ visited) s =
      go (invite_one q.state w i q s) (invite_one-Watches q s) (invite-Watches visited s)
    where
      go :
          (o : Outcome Slot (List AndPeerSessionWithTimeStamp))
          → Watches s w.lsid o
          → Watches s w.lsid (invite w i visited s)
          → Watches s w.lsid (after o (λ found. fmap (λ rest. found ++ rest) (invite w i visited)))
      go panicked p r = tt
      go (ret found t xs) p r =
          rw (p.0) (more-Watches s (λ rest. found ++ rest) xs (invite w i visited s) p.1 r)

accept_jn-Calms :
    (k : String) (w : AndWorld) (visited : List AndPeerSessionState) (i : AndPeerSessionState)
    → i.state ≡ ws_jn
    → IsPlaced k (some i)
    → Calms k w.lsid (accept_jn w visited i (some i))
unfolding accept_jn
accept_jn-Calms k w visited i e h =
    go (invite w i visited (some i)) (invite-Watches w i visited (some i))
  where
    answer : List AndPeerSessionWithTimeStamp → M Slot (Unit {0})
    answer members = do
      act (tx Kind.jok_t)
      send i.peer (Message.jok w.lsid i.peer_session_id w.timestamp w.wurl members)
      set_state ws_tmem

    answered :
        (members : List AndPeerSessionWithTimeStamp) → Calms k w.lsid (answer members (some i))
    answered members = ground arith

    more :
        (xs : List Action) (o : Outcome Slot (Unit {0}))
        → All (IsTameAct w.lsid) xs
        → Calms k w.lsid o
        → Calms k w.lsid (prepend xs o)
    more xs panicked p q = tt
    more xs (ret a t ys) p q = (q.0, q.1, All-append (IsTameAct w.lsid) xs ys p q.2)

    go :
        (o : Outcome Slot (List AndPeerSessionWithTimeStamp))
        → Watches (some i) w.lsid o
        → Calms k w.lsid (after o answer)
    go panicked p = tt
    go (ret members t xs) p = more xs (answer members t) p.1 (rw (p.0) (answered members))

pub accept-Calms :
    (k : String) (w : AndWorld) (visited : List AndPeerSessionState) (sid : Uuid) (s : Slot)
    → IsPlaced k s
    → IsFree s
    → Calms k w.lsid (accept_session_info w visited sid s)
unfolding accept_session_info
accept-Calms k w visited sid none h f = ground arith
accept-Calms k w visited sid (some i) h f = ground (arith, accept_jn-Calms k w visited i)
