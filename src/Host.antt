-- ===== src/Host.antt =====
-- host/host.go and host/world.go: the host behind the discovery of neighbours. Its loops run over
-- channels; here the event loop is a function of one event after the other. A world's channel and
-- the channel of an open or join are ends to which actions write; they hold 4096 events and one.
pub mod Paths
pub mod Serving
pub mod Arriving
pub mod Opened
pub mod Histories
mod Examples
use abyss_core.Prelude.{
  ℕ, zero, suc, String, Bool, true, false, List, [], ◌∷◌, ◌++◌, Option, none, some, nat_eq,
  string_eq, Mapping, put, ◌==◌, if◌then◌else◌,
}
use abyss_core.Interfaces.{
  Uuid, Peer, Aurl, ObjectInfo, AndPeerSession, PeerCertificates, NeighborEvent,
}
use abyss_core.Interfaces.NeighborEvent.{
  session_request, session_ready, session_close, join_success, join_fail, world_leave,
  connect_request, timer_request, peer_register, object_append, object_delete,
}
use abyss_core.And.Service.{Request}

pub record World : Type 0 where
  pub session_id : Uuid
  pub url : String

-- host/peer.go: AppendObjects and DeleteObjects send on `peer_session`.
pub record WorldMember : Type 0 where
  pub world : World
  pub hash : String
  pub peer_session_id : Uuid

-- The events of a world's channel. `accept` and `decline` are what the closures ask of `origin`;
-- the order is that of the range which AcceptSession makes.
pub data WorldEvent : Type 0 where
  member_request : String → (List String → Request) → (ℕ → String → Request) → WorldEvent
  member_ready : WorldMember → WorldEvent
  member_object_append : String → List ObjectInfo → WorldEvent
  member_object_delete : String → List Uuid → WorldEvent
  member_leave : String → WorldEvent
  world_terminate : WorldEvent

pub record WorldCreationEvent : Type 0 where
  pub ok : Bool
  pub code : ℕ
  pub message : String
  pub world : Option World

-- Writes to the channel of a world, to that of an open or join, and calls of the peer and of the
-- network service.
pub data HostAction : Type 0 where
  told : World → WorldEvent → HostAction
  created : ℕ → WorldCreationEvent → HostAction
  activated deactivated renewed : Peer → HostAction
  connect : Aurl → HostAction
  timer : Uuid → ℕ → HostAction
  register : PeerCertificates → HostAction

-- A world that could not be joined stands as nil in `worlds`. `join_queue` holds channels, by
-- number. `active_cnt` is that of the peer with a hash (net_service/peer_context.go).
pub record AbyssHost : Type 0 where
  pub worlds : Mapping Uuid (Option World)
  pub join_queue : Mapping Uuid ℕ
  pub active_cnt : String → ℕ

-- `blocked` is a write to a nil channel, which never ends.
pub data Handled : Type 0 where
  panicked blocked : Handled
  handled : AbyssHost → List HostAction → Handled

abbrev pub set_active : String → ℕ → (String → ℕ) → String → ℕ
set_active k n f = λ j. if k == j then n else f j

new_world : Uuid → String → World
new_world lsid url = record { session_id = lsid; url = url }

-- OpenWorld and JoinWorld, before they call the discovery of neighbours.
unfoldable pub enqueue : Uuid → ℕ → AbyssHost → AbyssHost
enqueue lsid ch h = record h { join_queue = put lsid (some ch) h.join_queue }

-- The body of a case that looks up the world of the event, which must be there and not nil, and
-- reads the peer of the event.
unfoldable pub at_world : Option (Option World) → Option Peer → (World → Peer → Handled) → Handled
at_world none q f = panicked
at_world (some none) q f = panicked
at_world (some (some w)) none f = panicked
at_world (some (some w)) (some p) f = f w p

raise_peer_request : World → Peer → Uuid → WorldEvent
raise_peer_request w p sid =
    member_request p.id_hash (λ order. Request.accept_session order p sid)
      (λ code message. Request.decline_session p sid)

raise_peer_ready : World → Peer → Uuid → WorldEvent
raise_peer_ready w p sid =
    member_ready (record { world = w; hash = p.id_hash; peer_session_id = sid })

-- ContextedPeer.Activate and Deactivate, as far as they count.
activate : Peer → AbyssHost → AbyssHost
activate p h = record h {
  active_cnt = set_active p.id_hash (suc (h.active_cnt p.id_hash)) h.active_cnt;
}

deactivate : ℕ → Peer → AbyssHost → (AbyssHost → Handled) → Handled
deactivate zero p h f = panicked
deactivate (suc n) p h f = f (record h { active_cnt = set_active p.id_hash n h.active_cnt })

-- Answering the open or join, with the world that it gets.
answer : Option ℕ → Uuid → WorldCreationEvent → AbyssHost → Handled
answer none lsid e h = blocked
answer (some ch) lsid e h =
    handled
      (record h {
        worlds = put lsid (some e.world) h.worlds;
        join_queue = put lsid none h.join_queue;
      })
      (created ch e ∷ [])

leave : Option (Option World) → Uuid → AbyssHost → Handled
leave none lsid h = panicked
leave (some none) lsid h = handled (record h { worlds = put lsid none h.worlds }) []
leave (some (some w)) lsid h =
    handled (record h { worlds = put lsid none h.worlds }) (told w world_terminate ∷ [])

unfoldable pub handle_event : NeighborEvent → AbyssHost → Handled
unfolding at_world raise_peer_request raise_peer_ready activate deactivate answer leave new_world
handle_event (session_request lsid s) h =
    at_world (h.worlds lsid) s.peer
      (λ w p. handled h (told w (raise_peer_request w p s.peer_session_id) ∷ []))
handle_event (session_ready lsid s) h = at_world (h.worlds lsid) s.peer (λ w p.
    handled (activate p h) (activated p ∷ told w (raise_peer_ready w p s.peer_session_id) ∷ []))
handle_event (session_close lsid s) h = at_world (h.worlds lsid) s.peer (λ w p.
    deactivate (h.active_cnt p.id_hash) p h
      (λ g. handled g (deactivated p ∷ told w (member_leave p.id_hash) ∷ [])))
handle_event (join_success lsid url) h =
    answer (h.join_queue lsid) lsid
      (record { ok = true; code = 0; message = url; world = some (new_world lsid url) }) h
handle_event (join_fail lsid message code) h =
    answer (h.join_queue lsid) lsid
      (record { ok = false; code = code; message = message; world = none }) h
handle_event (world_leave lsid) h = leave (h.worlds lsid) lsid h
handle_event (connect_request url) h = handled h (connect url ∷ [])
handle_event (timer_request lsid duration) h = handled h (timer lsid duration ∷ [])
handle_event (peer_register certificates) h = handled h (register certificates ∷ [])
handle_event (object_append lsid s objects) h =
    at_world (h.worlds lsid) s.peer
      (λ w p. handled h (renewed p ∷ told w (member_object_append p.id_hash objects) ∷ []))
handle_event (object_delete lsid s object_ids) h =
    at_world (h.worlds lsid) s.peer
      (λ w p. handled h (renewed p ∷ told w (member_object_delete p.id_hash object_ids) ∷ []))

abbrev pub more : List HostAction → Handled → Handled
more acts panicked = panicked
more acts blocked = blocked
more acts (handled h rest) = handled h (acts ++ rest)

abbrev pub and_then : Handled → (AbyssHost → Handled) → Handled
and_then panicked f = panicked
and_then blocked f = blocked
and_then (handled h acts) f = more acts (f h)

-- The event loop, on the events that it receives.
unfoldable pub event_loop : List NeighborEvent → AbyssHost → Handled
event_loop [] h = handled h []
event_loop (e ∷ es) h = and_then (handle_event e h) (event_loop es)
