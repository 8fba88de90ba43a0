-- ===== src/Host/Arriving.antt =====
-- What a message from the stream of a peer comes to, in serveLoop.
use abyss_core.Prelude.{
  false, String, List, [], ◌∷◌, Option, none, some, Bool-cases, eq_of_test, inl, inr, ◌≡◌, ◌≢◌,
  refl, ◌∙◌, nat_eq, ◌==◌,
}
use mathlib.Core.List.{append-nil}
use abyss_core.Functional.{Tried}
use abyss_core.Interfaces.{Uuid, uuid_nil, Time, Aurl, Peer, Message}
use abyss_core.Ahmp
use abyss_core.Ahmp.{
  unix_milli, milli_of, AhmpMessage, jn, jok, jdn, jni, mem, sjn, crr, rst, soa, sod, inval,
}
use abyss_core.Ahmp.Parse.{parse_jn}
use abyss_core.Ahmp.Build.{build_jn}
use abyss_core.Ahmp.Listen.{Cbor, IsLossless, raw_jn, listen_ahmp, frames, listen_ahmp-frames}
use abyss_core.Ahmp.RoundTrips.{IsPrinted}
use abyss_core.And.Effect.{ret, panicked, Outcome, Action, b_branch}
use abyss_core.And.State.{AndWorld}
use abyss_core.And.Run.{IsWorld}
use abyss_core.And.Call.{Call, call}
use abyss_core.And.Call.Runs.{IsReady}
use abyss_core.And.Rounds.{sends}
use abyss_core.And.Service.{And, Request, api_rst, at_world, world_at}
use abyss_core.And.Service.Isolation.{request_absent, request-call}
use abyss_core.Host.Paths.{SimplePathResolver, path_to_session_id}
use abyss_core.Host.Serving.{serve_jn, serve_message, serve_messages}

-- The session that a message is for; an INVAL is for none, and the nil session of an RST is for all.
unfoldable pub addressee : SimplePathResolver → String → AhmpMessage → Option Uuid
unfolding path_to_session_id
addressee r hash (jn m) = path_to_session_id m.text hash r
addressee r hash (jok m) = some m.recver_session_id
addressee r hash (jdn m) = some m.recver_session_id
addressee r hash (jni m) = some m.recver_session_id
addressee r hash (mem m) = some m.recver_session_id
addressee r hash (sjn m) = some m.recver_session_id
addressee r hash (crr m) = some m.recver_session_id
addressee r hash (rst m) = some m.recver_session_id
addressee r hash (soa m) = some m.recver_session_id
addressee r hash (sod m) = some m.recver_session_id
addressee r hash (inval errs) = none

-- There is no world for the session.
abbrev pub IsUnknown : And → Option Uuid → Type 0
IsUnknown a none = Unit {0}
IsUnknown a (some lsid) = a.worlds lsid ≡ none

-- The message is not an RST with the nil session, which is for all worlds.
abbrev pub IsForOne : AhmpMessage → Type 0
IsForOne (rst m) = m.recver_session_id ≢ uuid_nil
IsForOne _ = Unit {0}

-- What the sender gets to hear of a message that no world takes: a JN whose path resolves to no session is
-- answered, a JN whose path resolves to a session without a world is not.
unfoldable pub refusal_at : Peer → Ahmp.Jn → Option Uuid → List (Option Peer × Message)
refusal_at p m none = (some p, Message.jdn m.sender_session_id 404 "Not Found") ∷ []
refusal_at p m (some lsid) = []

unfoldable pub refusal : SimplePathResolver → Peer → AhmpMessage → List (Option Peer × Message)
unfolding path_to_session_id refusal_at
refusal r p (jn m) = refusal_at p m (path_to_session_id m.text p.id_hash r)
refusal r p _ = []

-- The call ends with the state that it began with, and sends these messages.
abbrev pub RefusesWith : And → List (Option Peer × Message) → Outcome And (Unit {0}) → Type 0
RefusesWith a ms panicked = ⊥
RefusesWith a ms (ret x b acts) = (b ≡ a) × (sends acts ≡ ms)

test_of_ne : (k j : Uuid) → k ≢ j → (k == j) ≡ false
test_of_ne k j n = elim (Bool-cases (k == j)) [ inl e ↦ absurd (n (eq_of_test k j e)) | inr e ↦ e ]

module _ (order : List Uuid) (r : SimplePathResolver) (p : Peer) (a : And) where
  join-Refuses :
      (m : Ahmp.Jn) (o : Option Uuid)
      → IsUnknown a o
      → RefusesWith a (refusal_at p m o) (serve_jn order r p m o a)
  unfolding serve_jn refusal_at sends
  join-Refuses m none h = (refl, refl)
  join-Refuses m (some lsid) h = rw (request_absent lsid _ a h) (refl, refl)

  rst-Refuses :
      (lsid : Uuid)
      → lsid ≢ uuid_nil
      → a.worlds lsid ≡ none
      → RefusesWith a [] (api_rst order lsid p a)
  unfolding api_rst at_world world_at sends
  rst-Refuses lsid one h = rw (test_of_ne lsid uuid_nil one) (rw h (refl, refl))

  -- A message for a session without a world changes nothing, of all worlds and peers, and so does a JN
  -- whose path resolves to no session and an INVAL; an RST has a session that is not nil. That JN is
  -- answered by a JDN with code 404, and nothing else is sent: not for a JN whose path resolves to a
  -- session without a world either.
  pub serve_message-Refuses :
      (m : AhmpMessage)
      → IsForOne m
      → IsUnknown a (addressee r p.id_hash m)
      → RefusesWith a (refusal r p m) (serve_message order r p m a)
  unfolding serve_message addressee refusal sends path_to_session_id api_rst
  serve_message-Refuses (jn m) one h = join-Refuses m (r.path_map m.text) h
  serve_message-Refuses (jok m) one h = rw (request_absent m.recver_session_id _ a h) (refl, refl)
  serve_message-Refuses (jdn m) one h = rw (request_absent m.recver_session_id _ a h) (refl, refl)
  serve_message-Refuses (jni m) one h = rw (request_absent m.recver_session_id _ a h) (refl, refl)
  serve_message-Refuses (mem m) one h = rw (request_absent m.recver_session_id _ a h) (refl, refl)
  serve_message-Refuses (sjn m) one h = rw (request_absent m.recver_session_id _ a h) (refl, refl)
  serve_message-Refuses (crr m) one h = rw (request_absent m.recver_session_id _ a h) (refl, refl)
  serve_message-Refuses (rst m) one h = rst-Refuses m.recver_session_id one h
  serve_message-Refuses (soa m) one h = rw (request_absent m.recver_session_id _ a h) (refl, refl)
  serve_message-Refuses (sod m) one h = rw (request_absent m.recver_session_id _ a h) (refl, refl)
  serve_message-Refuses (inval errs) one h = (refl, refl)

module _ {I : Type 0} (c : Cbor I) (lossless : IsLossless c) (parse : String → Tried String Uuid)
    (try_parse : String → Tried String Aurl) (print : Uuid → String) where
  jn-arrives :
      (psid : Uuid) (path : String) (t : Time)
      → IsPrinted parse print psid
      → listen_ahmp c parse try_parse (frames c (raw_jn (build_jn print psid path t) ∷ []))
        ≡ jn
            (record { sender_session_id = psid; text = path; time_stamp = unix_milli (milli_of t) })
          ∷ []
  unfolding parse_jn build_jn frames listen_ahmp
  jn-arrives psid path t h =
      listen_ahmp-frames c parse try_parse lossless (raw_jn (build_jn print psid path t) ∷ []) []
      ∙ rw h refl

  -- A JN that a host writes to a connection, where the other host has the world `w` at the path, which is
  -- ready for it, becomes one call of JN on this world, with the session that the sender gave and its
  -- time in milliseconds. The call ends, its result is stored under the session of the path, and
  -- the other worlds and the peers stay.
  pub sent_jn-call :
      (order : List Uuid) (r : SimplePathResolver) (p : Peer) (a : And) (w : AndWorld)
      (lsid psid : Uuid) (path : String) (t : Time)
      → IsPrinted parse print psid
      → path_to_session_id path p.id_hash r ≡ some lsid
      → a.worlds lsid ≡ some w
      → IsWorld w
      → IsReady w (Call.jn p psid (unix_milli (milli_of t)))
      → (b : And) × (v : AndWorld) × (acts : List Action) × (call
            (Call.jn p psid (unix_milli (milli_of t)))
            w
          ≡ ret tt v acts)
        × (serve_messages order r p
              (listen_ahmp c parse try_parse (frames c (raw_jn (build_jn print psid path t) ∷ [])))
              a
            ≡ ret tt b (b_branch 15 ∷ acts))
        × (b.worlds lsid ≡ some v)
        × (b.peers ≡ a.peers)
        × ((other : Uuid) → lsid ≢ other → b.worlds other ≡ a.worlds other)
  unfolding serve_messages serve_message serve_jn
  sent_jn-call order r p a w lsid psid path t h found there world ready =
      let (b, v, acts, ran, served, stored, peers, others) =
        request-call lsid (Request.jn p psid (unix_milli (milli_of t))) a w there world ready in
      (
        b,
        v,
        acts,
        ran,
        rw (jn-arrives psid path t h) (rw found (rw served (simp append-nil))),
        stored,
        peers,
        others,
      )
