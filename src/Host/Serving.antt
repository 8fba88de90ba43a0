-- ===== src/Host/Serving.antt =====
-- serveLoop of host/host.go: what a peer's messages ask of the neighbour discovery (and/and.go). The
-- model of package and never returns EPANIC or EINVAL, so the loop never acts on its results.
use abyss_core.Prelude.{Bool, true, false, String, ℕ, List, [], ◌∷◌, Option, none, some, nat_eq}
use abyss_core.Interfaces.{Uuid, Peer, Message}
use abyss_core.Ahmp.{Jn, AhmpMessage, jn, jok, jdn, jni, mem, sjn, crr, rst, soa, sod, inval}
use abyss_core.And.Effect.{M, sent, act, skip, ◌>>◌}
use abyss_core.And.Service.{And, Request, request, api_rst, api_peer_connected}
use abyss_core.Host.Paths.{SimplePathResolver, path_to_session_id}

-- JNC_NOT_FOUND and JNM_NOT_FOUND.
abbrev pub jnc_not_found : ℕ
jnc_not_found = 404

abbrev pub jnm_not_found : String
jnm_not_found = "Not Found"

-- `order` is that of the range which RST makes over all worlds.
module _ (order : List Uuid) (r : SimplePathResolver) (p : Peer) where
  -- With the session that the path resolves to.
  unfoldable pub serve_jn : Jn → Option Uuid → M And (Unit {0})
  unfolding request
  serve_jn m none = act (sent p (Message.jdn m.sender_session_id jnc_not_found jnm_not_found))
  serve_jn m (some lsid) = request lsid (Request.jn p m.sender_session_id m.time_stamp)

  unfoldable pub serve_message : AhmpMessage → M And (Unit {0})
  unfolding path_to_session_id serve_jn request api_rst
  serve_message (jn m) = serve_jn m (path_to_session_id m.text p.id_hash r)
  serve_message (jok m) =
      request m.recver_session_id
        (Request.jok p m.sender_session_id m.time_stamp m.text m.neighbors)
  serve_message (jdn m) = request m.recver_session_id (Request.jdn p m.code m.text)
  serve_message (jni m) = request m.recver_session_id (Request.jni p m.sender_session_id m.neighbor)
  serve_message (mem m) =
      request m.recver_session_id (Request.mem p m.sender_session_id m.time_stamp)
  serve_message (sjn m) =
      request m.recver_session_id (Request.sjn p m.sender_session_id m.member_infos)
  serve_message (crr m) =
      request m.recver_session_id (Request.crr p m.sender_session_id m.member_infos)
  serve_message (rst m) = api_rst order m.recver_session_id p
  serve_message (soa m) = request m.recver_session_id (Request.soa p m.sender_session_id m.objects)
  serve_message (sod m) =
      request m.recver_session_id (Request.sod p m.sender_session_id m.object_ids)
  serve_message (inval errs) = skip

  unfoldable pub serve_messages : List AhmpMessage → M And (Unit {0})
  unfolding serve_message
  serve_messages [] = skip
  serve_messages (m ∷ ms) = do serve_message m; serve_messages ms

  -- `connected` is the peer's IsConnected. The loop ends with the channel or the contexts.
  unfoldable pub serve_loop : List Uuid → Bool → List AhmpMessage → M And (Unit {0})
  unfolding serve_messages api_peer_connected
  serve_loop connect_order false ms = skip
  serve_loop connect_order true ms = do api_peer_connected connect_order p; serve_messages ms
