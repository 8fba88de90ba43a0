-- ===== src/Net/Service.antt =====
-- net_service/net_service.go: peers become known, and connections to them are asked for. What the
-- certificate functions of cert_helper.go need is the parameter of Net.Identity.
pub mod Known
use abyss_core.Prelude.{
  ℕ, String, string_eq, Bool, true, false, not, List, [], ◌∷◌, ◌++◌, Option, none, some, ◌==◌,
  if◌then◌else◌, ◌≡◌, ◌≢◌, refl, ◌∙◌, Bool-cases, inl, inr, arith, Option-cases,
}
use abyss_core.Interfaces.{Aurl, UdpAddr, Time}
use abyss_core.Functional.{Tried, value, failed}
use abyss_core.Net.Addresses.{BetaAddressSelector, filter_address_candidates}
use abyss_core.Net.Addresses.Choosing.{filter_address_candidates-idempotent}
use abyss_core.Net.Contexts.{
  ContextedPeerMap, ContextedPeer, find, append, find_at, append_at, fresh_peer,
}
use abyss_core.Net.Identity.{PublicKey, X509, PeerIdentity, new_peer_identity}
use abyss_core.Net.Peer.{
  PncState, pncs_disconnected, pncs_inbound, pncs_outbound, pncs_connected, pncs_closed, AbyssPeer,
  NetAction, OutboundCalls, prepare_abyss_outbound, outbound_selected, outbound_dialed,
  outbound_opened, outbound_body, outbound_end, authenticated, verified_at, OutboundEnd, died,
  ended, NetError, unless_err,
}

-- The errors of ConnectAbyssAsync, a panic in the choice of addresses, and the start of
-- PrepareAbyssOutbound with the addresses that it is given.
pub data Connecting : Type 0 where
  refused : String → Connecting
  crashed : Connecting
  started : List UdpAddr → Connecting

unfoldable pub known_at :
    ContextedPeerMap × Option ContextedPeer → List UdpAddr → ContextedPeerMap × Connecting
known_at (m, none) candidates = (m, refused "unknown peer")
known_at (m, some c) candidates = (m, started candidates)

unfoldable pub connect_to :
    Option (List UdpAddr) → Time → String → ContextedPeerMap → ContextedPeerMap × Connecting
unfolding known_at find
connect_to none now hash m = (m, crashed)
connect_to (some []) now hash m = (m, refused "no valid IP address")
connect_to (some (a ∷ rest)) now hash m = known_at (find now hash m) (a ∷ rest)

unfoldable pub connect_abyss_async :
    BetaAddressSelector → Time → Aurl → ContextedPeerMap → ContextedPeerMap × Connecting
unfolding filter_address_candidates connect_to
connect_abyss_async s now url m =
    if not (url.scheme == "abyss")
    then (m, refused "url scheme mismatch")
    else connect_to (filter_address_candidates s url.addresses) now url.hash m

module _ {Der Pem : Type 0} (x : X509 Der Pem)
    (abyss_id_from_key : PublicKey → Tried String String) where
  unfoldable pub append_identity :
      Tried String (PeerIdentity Der)
      → Time
      → ℕ
      → ContextedPeerMap
      → Tried String (ContextedPeerMap)
  unfolding append
  append_identity (failed err) now object m = failed err
  append_identity (value p) now object m = value (append now p.root_id_hash object m).0

  -- `object` is the AbyssPeer that NewAbyssPeer makes. Whether Append took it is not looked at.
  unfoldable pub append_known_peer_der :
      Time → ℕ → Der → Der → ContextedPeerMap → Tried String (ContextedPeerMap)
  unfolding append_identity new_peer_identity
  append_known_peer_der now object root handshake m =
      append_identity (new_peer_identity x abyss_id_from_key root handshake) now object m

  unfoldable pub append_decoded :
      Option Der → Option Der → Time → ℕ → ContextedPeerMap → Tried String (ContextedPeerMap)
  unfolding append_known_peer_der
  append_decoded none handshake now object m = failed "failed to parse peer certificates"
  append_decoded (some root) none now object m = failed "failed to parse peer certificates"
  append_decoded (some root) (some handshake) now object m =
      append_known_peer_der now object root handshake m

  unfoldable pub append_known_peer :
      Time → ℕ → Pem → Pem → ContextedPeerMap → Tried String (ContextedPeerMap)
  unfolding append_decoded
  append_known_peer now object root handshake m =
      append_decoded (x.pem_decode root) (x.pem_decode handshake) now object m
