-- ===== src/Net/Peer/Handshakes.antt =====
-- Whole handshakes: what PrepareAbyssInbound and PrepareAbyssOutbound come to.
use abyss_core.Prelude.{ℕ, String, true, List, [], ◌∷◌, Option, none, some, ◌≡◌, refl, arith}
use abyss_core.Interfaces.{UdpAddr}
use abyss_core.Functional.{value}
use abyss_core.Net.Addresses.{BetaAddressSelector, filter_address_candidates}
use abyss_core.Net.Peer.{
  PncState, pncs_disconnected, pncs_inbound, pncs_outbound, pncs_connected, pncs_closed, AbyssPeer,
  new_abyss_peer, announced, listening, fail, inbound_at, finish_inbound, outbound_at,
  finish_outbound, listen_end, try_send, send_at, send_encoded, InboundCalls, OutboundCalls,
  prepare_abyss_inbound, prepare_abyss_outbound, inbound_body, inbound_end, inbound_stream,
  inbound_named, inbound_verified, outbound_selected, outbound_dialed, outbound_opened,
  outbound_body, outbound_end, authenticated, verified_at,
}
use abyss_core.Net.Peer.Steps.{
  PeerCall, inbound_done, outbound_done, listen_done, sent_with, peer_call, peer_calls,
  announcements, listeners, announcements-append, listeners-append,
}

-- Every call of the handshake succeeds, and the peer is known.
pub record InboundSucceeds (c : InboundCalls) (stream : ℕ) : Type 0 where
  pub accepted : c.accept_stream ≡ value stream
  pub decoded : c.decode ≡ none
  pub decrypted : c.decrypt ≡ some none
  pub unmarshalled : c.unmarshal ≡ none
  pub hash : String
  pub named : c.parse_certificate ≡ value hash
  pub known : c.wait hash ≡ true
  pub verified : c.verify ≡ some none
  pub encoded : c.encode ≡ none

pub record OutboundSucceeds (c : OutboundCalls) (first : UdpAddr) (conn stream : ℕ) : Type 0 where
  pub dialed : c.dial first ≡ value conn
  pub opened : c.open_stream ≡ value stream
  pub marshalled : c.marshal ≡ none
  pub encrypted : c.encrypt ≡ none
  pub encoded : c.encode ≡ none
  pub decoded : c.decode ≡ none
  pub named : c.parse_certificate ≡ none
  pub verified : c.verify ≡ some none

inbound-succeeds :
    (c : InboundCalls) (stream : ℕ) (p : AbyssPeer)
    → InboundSucceeds c stream
    → prepare_abyss_inbound c p ≡ some (finish_inbound none c.connection stream p)
unfolding prepare_abyss_inbound inbound_body inbound_end inbound_stream inbound_named
    inbound_verified
inbound-succeeds c stream p h = rw (h.accepted) (
    rw (h.decoded) (
      rw (h.decrypted) (
        rw (h.unmarshalled) (rw (h.named) (rw (h.known) (rw (h.verified) (rw (h.encoded) refl)))))))

outbound-succeeds :
    (s : BetaAddressSelector) (c : OutboundCalls) (addresses : List UdpAddr) (first : UdpAddr)
    (rest : List UdpAddr) (conn stream : ℕ) (p : AbyssPeer)
    → filter_address_candidates s addresses ≡ some (first ∷ rest)
    → OutboundSucceeds c first conn stream
    → prepare_abyss_outbound s c addresses p ≡ some (finish_outbound none conn stream addresses p)
unfolding prepare_abyss_outbound outbound_selected outbound_dialed outbound_opened outbound_body
    outbound_end authenticated verified_at
outbound-succeeds s c addresses first rest conn stream p e h = rw e (
    rw (h.dialed) (
      rw (h.opened) (
        rw (h.marshalled) (
          rw (h.encrypted)
            (rw (h.encoded) (rw (h.decoded) (rw (h.named) (rw (h.verified) refl))))))))

-- A peer that is connected over these connections and streams.
pub record IsConnected (p : AbyssPeer) (inbound outbound decoder encoder : ℕ) : Type 0 where
  pub state : p.state ≡ pncs_connected
  pub inbound_conn : p.inbound_conn ≡ some inbound
  pub outbound_conn : p.outbound_conn ≡ some outbound
  pub ahmp_decoder : p.ahmp_decoder ≡ some decoder
  pub ahmp_encoder : p.ahmp_encoder ≡ some encoder

module _ (identity : String) (s : BetaAddressSelector) (c : InboundCalls) (d : OutboundCalls)
    (addresses : List UdpAddr) (first : UdpAddr) (rest : List UdpAddr)
    (decoder outbound encoder : ℕ) where
  -- Where an inbound and an outbound handshake with a new peer both succeed, the peer is connected over
  -- both connections, whichever ends first, and the later one announces it to the host.
  pub handshakes-connect :
      filter_address_candidates s addresses ≡ some (first ∷ rest)
      → InboundSucceeds c decoder
      → OutboundSucceeds d first outbound encoder
      → ((p q : AbyssPeer) × (prepare_abyss_inbound c (new_abyss_peer identity)
            ≡ some (p, listening ∷ []))
          × (prepare_abyss_outbound s d addresses p ≡ some (q, announced ∷ []))
          × IsConnected q c.connection outbound decoder encoder)
        × ((p q : AbyssPeer) × (prepare_abyss_outbound s d addresses (new_abyss_peer identity)
              ≡ some (p, []))
            × (prepare_abyss_inbound c p ≡ some (q, listening ∷ announced ∷ []))
            × IsConnected q c.connection outbound decoder encoder)
  unfolding new_abyss_peer finish_inbound inbound_at finish_outbound outbound_at
  handshakes-connect e i o = (
    (
      _,
      _,
      inbound-succeeds c decoder (new_abyss_peer identity) i,
      outbound-succeeds s d addresses first rest outbound encoder _ e o,
      record {
        state = refl;
        inbound_conn = refl;
        outbound_conn = refl;
        ahmp_decoder = refl;
        ahmp_encoder = refl;
      },
    ),
    (
      _,
      _,
      outbound-succeeds s d addresses first rest outbound encoder _ e o,
      inbound-succeeds c decoder _ i,
      record {
        state = refl;
        inbound_conn = refl;
        outbound_conn = refl;
        ahmp_decoder = refl;
        ahmp_encoder = refl;
      },
    ),
  )

module _ (s : BetaAddressSelector) (c : OutboundCalls) (addresses : List UdpAddr)
    (p : AbyssPeer) where
  -- PrepareAbyssOutbound ends the same way whatever Decode and VerifyTLSBinding return, if
  -- ParseCertificate succeeds: a peer that fails to authenticate itself is connected like any other.
  pub outbound-unverified :
      (decoded verified : Option String)
      → c.parse_certificate ≡ none
      → prepare_abyss_outbound s (record c { decode = decoded; verify = some verified }) addresses p
        ≡ prepare_abyss_outbound s (record c { decode = none; verify = some none }) addresses p
  unfolding prepare_abyss_outbound outbound_selected outbound_dialed outbound_opened outbound_body
      outbound_end authenticated verified_at
  outbound-unverified none none e = refl
  outbound-unverified (some x) none e = rw e refl
  outbound-unverified none (some x) e = rw e refl
  outbound-unverified (some x) (some y) e = rw e refl

closed_in :
    (s : PncState) (conn decoder : ℕ) (p : AbyssPeer)
    → s ≡ pncs_closed
    → p.state ≡ pncs_closed
    → ((inbound_at s conn decoder p).0.state ≡ pncs_closed)
      × (announcements (inbound_at s conn decoder p).1 ≡ 0)
      × (listeners (inbound_at s conn decoder p).1 ≡ 0)
unfolding inbound_at
closed_in pncs_disconnected conn decoder p e h = ground arith
closed_in pncs_inbound conn decoder p e h = ground arith
closed_in pncs_outbound conn decoder p e h = ground arith
closed_in pncs_connected conn decoder p e h = ground arith
closed_in pncs_closed conn decoder p e h = (h, refl, refl)

closed_out :
    (s : PncState) (conn encoder : ℕ) (addresses : List UdpAddr) (p : AbyssPeer)
    → s ≡ pncs_closed
    → p.state ≡ pncs_closed
    → ((outbound_at s conn encoder addresses p).0.state ≡ pncs_closed)
      × (announcements (outbound_at s conn encoder addresses p).1 ≡ 0)
      × (listeners (outbound_at s conn encoder addresses p).1 ≡ 0)
unfolding outbound_at
closed_out pncs_disconnected conn encoder addresses p e h = ground arith
closed_out pncs_inbound conn encoder addresses p e h = ground arith
closed_out pncs_outbound conn encoder addresses p e h = ground arith
closed_out pncs_connected conn encoder addresses p e h = ground arith
closed_out pncs_closed conn encoder addresses p e h = (h, refl, refl)

closed_send :
    (s : PncState) (encoded : Option String) (p : AbyssPeer)
    → p.state ≡ pncs_closed
    → (send_at s encoded p).0.state ≡ pncs_closed
unfolding send_at send_encoded
closed_send pncs_disconnected encoded p h = h
closed_send pncs_inbound encoded p h = h
closed_send pncs_outbound encoded p h = h
closed_send pncs_connected none p h = h
closed_send pncs_connected (some err) p h = refl
closed_send pncs_closed encoded p h = h

closed_call :
    (c : PeerCall) (p : AbyssPeer)
    → p.state ≡ pncs_closed
    → ((peer_call c p).0.state ≡ pncs_closed)
      × (announcements (peer_call c p).1 ≡ 0)
      × (listeners (peer_call c p).1 ≡ 0)
unfolding peer_call finish_inbound finish_outbound fail listen_end try_send
closed_call (inbound_done none conn decoder) p e = closed_in p.state conn decoder p e e
closed_call (inbound_done (some err) conn decoder) p e = (refl, refl, refl)
closed_call (outbound_done none conn encoder addresses) p e =
    closed_out p.state conn encoder addresses p e e
closed_call (outbound_done (some err) conn encoder addresses) p e = (refl, refl, refl)
closed_call listen_done p e = (refl, refl, refl)
closed_call (sent_with encoded) p e = (closed_send p.state encoded p e, refl, refl)

-- A peer that was closed stays closed, through all that may come: it is not announced again and
-- no listener is started.
pub closed-stays :
    (cs : List PeerCall) (p : AbyssPeer)
    → p.state ≡ pncs_closed
    → ((peer_calls cs p).0.state ≡ pncs_closed)
      × (announcements (peer_calls cs p).1 ≡ 0)
      × (listeners (peer_calls cs p).1 ≡ 0)
unfolding peer_calls
closed-stays [] p e = (e, refl, refl)
closed-stays (c ∷ cs) p e =
    let (now, told, started) = closed_call c p e in
    let (later, told_later, started_later) = closed-stays cs (peer_call c p).0 now in
    (
      later,
      rw (announcements-append (peer_call c p).1 (peer_calls cs (peer_call c p).0).1)
          (rw told (rw told_later refl)),
      rw (listeners-append (peer_call c p).1 (peer_calls cs (peer_call c p).0).1)
          (rw started (rw started_later refl)),
    )
