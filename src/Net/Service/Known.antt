-- ===== src/Net/Service/Known.antt =====
-- What becomes of the peers that the network service is told of.
use abyss_core.Prelude.{
  ℕ, String, string_eq, List, [], ◌∷◌, Option, none, some, ◌==◌, ◌≡◌, ◌≢◌, refl, ap, sym, subst,
  Bool-cases, inl, inr, arith, put_self, put,
}
use abyss_core.Interfaces.{Aurl, UdpAddr, Time}
use abyss_core.Functional.{Tried, value, failed}
use abyss_core.Net.Addresses.{BetaAddressSelector, filter_address_candidates}
use abyss_core.Net.Addresses.Choosing.{filter_address_candidates-idempotent}
use abyss_core.Net.Contexts.{ContextedPeerMap, ContextedPeer, find, append, append_at, fresh_peer}
use abyss_core.Net.Addresses.{same_bytes}
use abyss_core.Net.Identity.Handshake.{length}
use abyss_core.Net.Identity.{
  PublicKey, ed25519, rsa, other_key, no_key, Certificate, PeerIdentity, X509, RootSecrets,
  new_root_identity, verify_tls_binding, verified_key,
}
use abyss_core.Net.Identity.Binding.{
  IsX509, secrets, root_der, handshake_der, root-made, peer-known,
}
use abyss_core.Net.Peer.{
  AbyssPeer, OutboundCalls, prepare_abyss_outbound, outbound_selected, outbound_dialed,
  outbound_opened, outbound_body, outbound_end, authenticated, verified_at, OutboundEnd, died,
  ended, unless_err,
}
use abyss_core.Net.Service.{
  refused, started, known_at, connect_to, connect_abyss_async, append_identity,
  append_known_peer_der, append_decoded, append_known_peer,
}

-- The routine ends without a panic.
abbrev pub Returns : {A : Type 0} → Option A → Type 0
Returns none = ⊥
Returns (some a) = Unit {0}

abbrev EndsWell : OutboundEnd → Type 0
EndsWell died = ⊥
EndsWell (ended err) = Unit {0}

unless-EndsWell : (o : Option String) (e : OutboundEnd) → EndsWell e → EndsWell (unless_err o e)
unless-EndsWell none e h = h
unless-EndsWell (some err) e h = tt

-- What VerifyTLSBinding is given: the certificate was parsed, and VerifyTLSBinding does not panic on it.
abbrev IsVerifiable : OutboundCalls → Type 0
IsVerifiable c = (c.parse_certificate ≡ none) × (c.verify ≢ none)

verified-EndsWell :
    (o : Option String) (v : Option (Option String))
    → (o ≡ none) × (v ≢ none)
    → EndsWell (verified_at o v)
unfolding verified_at
verified-EndsWell none none e = e.1 refl
verified-EndsWell none (some none) e = tt
verified-EndsWell none (some (some err)) e = tt
verified-EndsWell (some err) v e = absurd (cc (e.0))

authenticated-EndsWell :
    (c : OutboundCalls) (o : Option String) → IsVerifiable c → EndsWell (authenticated c o)
unfolding authenticated
authenticated-EndsWell c none e = verified-EndsWell c.parse_certificate c.verify e
authenticated-EndsWell c (some err) e = tt

body-EndsWell : (c : OutboundCalls) → IsVerifiable c → EndsWell (outbound_body c)
unfolding outbound_body
body-EndsWell c e =
    unless-EndsWell c.marshal _ (
      unless-EndsWell c.encrypt _
        (unless-EndsWell c.encode _ (authenticated-EndsWell c c.decode e)))

end-Returns :
    (e : OutboundEnd) (conn stream : ℕ) (addresses : List UdpAddr) (p : AbyssPeer)
    → EndsWell e
    → Returns (outbound_end e conn stream addresses p)
unfolding outbound_end
end-Returns died conn stream addresses p h = absurd h
end-Returns (ended err) conn stream addresses p h = tt

opened-Returns :
    (c : OutboundCalls) (conn : ℕ) (o : Tried String ℕ) (addresses : List UdpAddr) (p : AbyssPeer)
    → IsVerifiable c
    → Returns (outbound_opened c conn o addresses p)
unfolding outbound_opened outbound_end
opened-Returns c conn (failed err) addresses p e = tt
opened-Returns c conn (value stream) addresses p e =
    end-Returns (outbound_body c) conn stream addresses p (body-EndsWell c e)

dialed-Returns :
    (c : OutboundCalls) (o : Tried String ℕ) (addresses : List UdpAddr) (p : AbyssPeer)
    → IsVerifiable c
    → Returns (outbound_dialed c o addresses p)
unfolding outbound_dialed outbound_end
dialed-Returns c (failed err) addresses p e = tt
dialed-Returns c (value conn) addresses p e = opened-Returns c conn c.open_stream addresses p e

-- The addresses that were chosen, where a connection was started with `ys`.
abbrev Chosen : Option (List UdpAddr) → List UdpAddr → Type 0
Chosen o ys = (first : UdpAddr) × (rest : List UdpAddr) × (o ≡ some ys) × (ys ≡ first ∷ rest)

started_inj : {xs ys : List UdpAddr} → started xs ≡ started ys → xs ≡ ys
started_inj e = cc

known_at-Chosen :
    (pair : ContextedPeerMap × Option ContextedPeer) (a : UdpAddr) (rest ys : List UdpAddr)
    → (known_at pair (a ∷ rest)).1 ≡ started ys
    → Chosen (some (a ∷ rest)) ys
unfolding known_at
known_at-Chosen (m, none) a rest ys e = ground arith
known_at-Chosen (m, some c) a rest ys e = (a, rest, ap some (started_inj e), sym (started_inj e))

connect_to-Chosen :
    (o : Option (List UdpAddr)) (now : Time) (hash : String) (m : ContextedPeerMap)
    (ys : List UdpAddr)
    → (connect_to o now hash m).1 ≡ started ys
    → Chosen o ys
unfolding connect_to
connect_to-Chosen none now hash m ys e = ground arith
connect_to-Chosen (some []) now hash m ys e = ground arith
connect_to-Chosen (some (a ∷ rest)) now hash m ys e = known_at-Chosen (find now hash m) a rest ys e

connect-Chosen :
    (s : BetaAddressSelector) (now : Time) (url : Aurl) (m : ContextedPeerMap) (ys : List UdpAddr)
    → (connect_abyss_async s now url m).1 ≡ started ys
    → Chosen (filter_address_candidates s url.addresses) ys
unfolding connect_abyss_async
connect-Chosen s now url m ys e = elim (Bool-cases (url.scheme == "abyss")) [
  | inl q ↦ connect_to-Chosen _ now url.hash m ys (rw q at e)
  | inr q ↦ absurd (mismatch (rw q at e))
]
  where
    mismatch : {err : String} → refused err ≡ started ys → ⊥
    mismatch p = ground arith

keyed :
    {Der Pem : Type 0} (x : X509 Der Pem) (key : List ℕ) (k : PublicKey) (bind root : Certificate)
    → verified_key x (ed25519 key) k bind root ≢ none
unfolding verified_key
keyed x key (ed25519 l) bind root = elim (Bool-cases (same_bytes key l)) [
  | inl q ↦ rw q (λ e. cc e)
  | inr q ↦ rw q (λ e. cc e)
]
keyed x key (rsa n) bind root = λ e. cc e
keyed x key (other_key l) bind root = λ e. cc e
keyed x key no_key bind root = λ e. cc e

verify-returns :
    {Der Pem : Type 0} (x : X509 Der Pem) (identity : PeerIdentity Der) (bind tls : Certificate)
    (key : List ℕ)
    → bind.public_key ≡ ed25519 key
    → verify_tls_binding x identity bind tls ≢ none
unfolding verify_tls_binding
verify-returns x identity bind tls key e =
    subst (λ k. verified_key x k tls.public_key bind identity.root_self_cert_x509 ≢ none) (sym e)
      (keyed x key tls.public_key bind identity.root_self_cert_x509)

-- The PrepareAbyssOutbound that ConnectAbyssAsync starts ends without a panic, whatever the state of the
-- peer and what its other calls return, if the accepter's certificate can be parsed and has an
-- Ed25519 key, and if the selector that filters the addresses again is still the one that chose them: no
-- SetPublicIP ran in between.
pub connect-prepares :
    {Der Pem : Type 0} (x : X509 Der Pem) (identity : PeerIdentity Der) (bind tls : Certificate)
    (key : List ℕ) (s : BetaAddressSelector) (now : Time) (url : Aurl) (m : ContextedPeerMap)
    (ys : List UdpAddr) (c : OutboundCalls) (p : AbyssPeer)
    → (connect_abyss_async s now url m).1 ≡ started ys
    → c.parse_certificate ≡ none
    → c.verify ≡ verify_tls_binding x identity bind tls
    → bind.public_key ≡ ed25519 key
    → Returns (prepare_abyss_outbound s c ys p)
unfolding prepare_abyss_outbound outbound_selected
connect-prepares x identity bind tls key s now url m ys c p e parsed verified keyed =
    let (first, rest, chosen, same) = connect-Chosen s now url m ys e in
    let returns = verify-returns x identity bind tls key keyed in
    rw (filter_address_candidates-idempotent s url.addresses ys chosen)
      (rw same (dialed-Returns c (c.dial first) (first ∷ rest) p (parsed, rw verified returns)))

module _ {Der Pem : Type 0} (x : X509 Der Pem) (is : IsX509 x)
    (abyss_id_from_key : PublicKey → Tried String String) (root_key : List ℕ) (handshake_key : ℕ)
    (id : String) where
  -- The PEM certificates of a root identity with an Ed25519 key of 32 bytes make the host known where AppendKnownPeer is called with
  -- them: the map, which had no such peer, has it under the hash of the root key.
  pub append_known_peer-known :
      (now : Time) (object : ℕ) (m : ContextedPeerMap)
      → length root_key ≡ 32
      → abyss_id_from_key (ed25519 root_key) ≡ value id
      → m.peers id ≡ none
      → (r : RootSecrets Pem) × (n : ContextedPeerMap) × (new_root_identity x abyss_id_from_key
            (ed25519 root_key)
            handshake_key
          ≡ value r)
        × (append_known_peer x abyss_id_from_key now object r.root_self_cert r.handshake_key_cert m
            ≡ value n)
        × (r.root_id_hash ≡ id)
        × (n.peers id ≡ some (fresh_peer object now))
  unfolding append_known_peer append_decoded append_known_peer_der append_identity append append_at
  append_known_peer-known now object m long e absent = (
    secrets x is abyss_id_from_key root_key handshake_key [] id,
    record {
      peers = put id (some (fresh_peer object now)) m.peers;
      waiters = put id none m.waiters;
    },
    root-made x is abyss_id_from_key root_key handshake_key [] id long e,
    rw (is.decodes (root_der x is abyss_id_from_key root_key handshake_key [] id)) (
        rw (is.decodes (handshake_der x is abyss_id_from_key root_key handshake_key [] id)) (
          rw (peer-known x is abyss_id_from_key root_key handshake_key [] id long e)
            (rw absent refl))),
    refl,
    put_self id (some (fresh_peer object now)) m.peers,
  )
