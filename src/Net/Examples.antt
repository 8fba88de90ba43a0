-- ===== src/Net/Examples.antt =====
-- The theorems on peers and their connections, at concrete keys, addresses and calls.
use abyss_core.Prelude.{
  ℕ, zero, suc, ◌≤◌, String, string_eq, nat_eq, Bool, true, false, inl, inr, List, [], ◌∷◌, none,
  some, ◌==◌, if◌then◌else◌, ◌≡◌, refl, arith, put,
}
use abyss_core.Interfaces.{Aurl, UdpAddr}
use abyss_core.Functional.{Tried, value, failed}
use abyss_core.Net.Addresses.{
  BetaAddressSelector, filter_address_candidates, mapped, collect, classify, choice, choose,
  same_bytes, is_private, after_private, public_one,
}
use abyss_core.Net.Addresses.Choosing.{
  filter_address_candidates-idempotent, mapped_private-is_public,
}
use abyss_core.Net.Timeouts.{clean, clean-cancels_none, undone}
use abyss_core.Net.Contexts.{
  ContextedPeerMap, new_contexted_peer_map, append, wait, fresh_peer, find,
}
use abyss_core.Net.Contexts.Waiting.{wait-served, map_calls, cleaned, IsIn}
use abyss_core.Net.Identity.{
  PublicKey, ed25519, rsa, other_key, no_key, Certificate, X509, RootSecrets, TlsIdentity,
  PeerIdentity, new_root_identity, new_tls_identity, new_peer_identity, verify_tls_binding,
  bind_subject, verified_key, binding_names,
}
use abyss_core.Net.Identity.Binding.{
  IsX509, IsIssued, made, same_bytes_self, own_binding-verifies, verify_tls_binding_sound,
}
use abyss_core.Net.Identity.Handshake.{
  Crypto, IsCrypto, Bytes, encrypt_handshake, decrypt_handshake, decrypt-encrypt,
}
use abyss_core.Net.Peer.{
  pncs_closed, AbyssPeer, new_abyss_peer, announced, listening, InboundCalls, OutboundCalls,
  prepare_abyss_inbound, prepare_abyss_outbound,
}
use abyss_core.Net.Peer.Steps.{
  peer_calls, peer_calls-Fits, announcements, listeners, IsFit, inbound_done, outbound_done,
  listen_done,
}
use abyss_core.Net.Peer.Handshakes.{
  IsConnected, handshakes-connect, outbound-unverified, closed-stays,
}
use abyss_core.Net.Service.{connect_abyss_async, connect_to, known_at, append_known_peer}
use abyss_core.Net.Service.Known.{Returns, connect-prepares, append_known_peer-known}

abbrev selector : BetaAddressSelector
selector = record { local_private_addr = 192 ∷ 168 ∷ 0 ∷ 5 ∷ []; local_public_addr = [] }

abbrev loop_addr : UdpAddr
loop_addr = record { ip = mapped (127 ∷ 0 ∷ 0 ∷ 1 ∷ []); port = 80 }

abbrev far : UdpAddr
far = record { ip = mapped (8 ∷ 8 ∷ 8 ∷ 8 ∷ []); port = 443 }

abbrev private_16 : UdpAddr
private_16 = record { ip = mapped (192 ∷ 168 ∷ 0 ∷ 5 ∷ []); port = 443 }

filter_address_candidates-idempotent_example :
    filter_address_candidates selector (far ∷ []) ≡ some (far ∷ [])
unfolding filter_address_candidates collect classify is_private after_private choice choose
filter_address_candidates-idempotent_example =
    filter_address_candidates-idempotent selector (loop_addr ∷ far ∷ []) (far ∷ []) refl

mapped_private-is_public_example : classify selector private_16 ≡ public_one
mapped_private-is_public_example = mapped_private-is_public selector private_16 0 5 refl refl

clean-cancels_none_example :
    clean
      (λ n. n == 2)
      1000000
      5
      (record { context = 1; timestamp = 0 } ∷ record { context = 2; timestamp = 0 } ∷ [])
    ≡ ([], record { context = 1; timestamp = 0 } ∷ [])
unfolding undone
clean-cancels_none_example =
    clean-cancels_none (λ n. n == 2) 1000000 5
      (record { context = 1; timestamp = 0 } ∷ record { context = 2; timestamp = 0 } ∷ [])
      (omega arith, (omega arith, tt))

wait-served_example :
    ((wait 3 "bob" new_contexted_peer_map).1 ≡ false)
    × ((append 9 "bob" 1
          (map_calls (cleaned 5 (λ w. w == 3) ∷ []) (wait 3 "bob" new_contexted_peer_map).0)).2
        ≡ true)
    × IsIn 3
        (append 9 "bob" 1
          (map_calls (cleaned 5 (λ w. w == 3) ∷ []) (wait 3 "bob" new_contexted_peer_map).0)).1
    × ((append 9 "bob" 1 (
            map_calls
              (cleaned 5 (λ w. w == 3) ∷ [])
              (wait 3 "bob" new_contexted_peer_map).0)).0.peers
          "bob"
        ≡ some (fresh_peer 1 9))
unfolding new_contexted_peer_map
wait-served_example =
    wait-served 3 "bob" new_contexted_peer_map (cleaned 5 (λ w. w == 3) ∷ []) 9 1 refl (refl, tt)

-- Certificates that are signed by writing down the signer's key.
abbrev key_bytes : PublicKey → List ℕ
key_bytes (ed25519 k) = k
key_bytes (rsa n) = n ∷ []
key_bytes (other_key k) = k
key_bytes no_key = []

abbrev same_key : PublicKey → PublicKey → Bool
same_key (ed25519 k) (ed25519 l) = same_bytes k l
same_key no_key signer = true
same_key _ _ = false

abbrev x : X509 Certificate Certificate
x = record {
  create_certificate = λ t parent key signer.
      if same_key parent.public_key signer
      then value (made t parent key (key_bytes signer))
      else failed "provided PrivateKey doesn't match parent's PublicKey";
  parse_certificate = λ c. value c;
  check_signature_from = λ c by.
      if same_bytes c.signature (key_bytes by.public_key) then none else some "bad signature";
  pem_encode = λ c. value c;
  pem_decode = λ c. some c;
}

created :
    (t parent : Certificate) (key : PublicKey) (signer : List ℕ)
    → IsIssued parent key signer
    → x.create_certificate t parent key (ed25519 signer) ≡ value (made t parent key signer)
created t parent key signer h = elim (h.2) [
  | inl e ↦ rw e refl
  | inr e ↦ rw e (rw (same_bytes_self signer) refl)
]

confirmed :
    (t parent : Certificate) (key : PublicKey) (signer : List ℕ) (by : Certificate)
    → by.public_key ≡ ed25519 signer
    → x.check_signature_from (made t parent key signer) by ≡ none
confirmed t parent key signer by e = rw e (rw (same_bytes_self signer) refl)

x-IsX509 : IsX509 x
x-IsX509 = record {
  sign = λ t parent key signer. signer;
  der_of = λ t parent key signer. made t parent key signer;
  pem_of = λ d. d;
  creates = created;
  parses = λ t parent key signer h. refl;
  confirms = λ t parent key signer by h e ca signs. confirmed t parent key signer by e;
  encodes = λ d. refl;
  decodes = λ d. refl;
}

abbrev alice_id : PublicKey → Tried String String
alice_id key = value "I4alice"

abbrev copies : ℕ → ℕ → List ℕ
copies zero b = []
copies (suc n) b = b ∷ copies n b

abbrev alice_bytes : List ℕ
alice_bytes = copies 32 7

abbrev alice_tls : List ℕ
alice_tls = copies 32 9

abbrev alice_key : PublicKey
alice_key = ed25519 alice_bytes

own_binding-verifies_example :
    (r : RootSecrets Certificate) × (t : TlsIdentity Certificate) × (root_der
      handshake_der : Certificate)
    × (p : PeerIdentity Certificate) × (bind tls : Certificate) × (new_root_identity x alice_id
          alice_key 17
        ≡ value r)
    × (new_tls_identity x alice_id r (ed25519 alice_tls) ≡ value t)
    × (x.pem_decode r.root_self_cert ≡ some root_der)
    × (x.pem_decode r.handshake_key_cert ≡ some handshake_der)
    × (new_peer_identity x alice_id root_der handshake_der ≡ value p)
    × (p.root_id_hash ≡ r.root_id_hash)
    × (p.handshake_pub_key ≡ 17)
    × (x.parse_certificate t.abyss_bind_cert ≡ value bind)
    × (x.parse_certificate t.tls_self_cert ≡ value tls)
    × (verify_tls_binding x p bind tls ≡ some none)
own_binding-verifies_example =
    own_binding-verifies x x-IsX509 alice_id alice_bytes 17 alice_tls "I4alice" refl refl refl

abbrev certificate : String → PublicKey → Certificate
certificate subject key = record {
  issuer = "I4alice";
  subject = subject;
  public_key = key;
  is_ca = true;
  cert_sign = true;
  signature = alice_bytes;
}

abbrev alice : PeerIdentity Certificate
alice = record {
  root_id_hash = "I4alice";
  root_self_cert_x509 = certificate "I4alice" alice_key;
  handshake_pub_key = 17;
  root_self_cert_der = certificate "I4alice" alice_key;
  handshake_key_cert_der = certificate "I4alice" (rsa 17);
}

abbrev alice_bind : Certificate
alice_bind = certificate "T-I4alice" (ed25519 alice_tls)

verify_tls_binding_sound_example :
    (alice_bind.public_key ≡ ed25519 alice_tls)
    × (alice_bind.issuer ≡ "I4alice")
    × (alice_bind.subject ≡ bind_subject "I4alice")
    × (x.check_signature_from alice_bind (certificate "I4alice" alice_key) ≡ none)
unfolding verify_tls_binding verified_key binding_names bind_subject
verify_tls_binding_sound_example =
    verify_tls_binding_sound x alice alice_bind (certificate "" (ed25519 alice_tls)) refl

-- A cipher that changes nothing, and RSA with blocks of the message's own size.
abbrev plain_crypto : Crypto
plain_crypto = record {
  encrypt_oaep = λ key m. value m;
  decrypt_oaep = λ key m. value (record { bytes = m; spare = [] });
  size = λ key. 44;
  new_cipher = λ k. none;
  new_gcm = λ k. none;
  seal = λ k n m. m;
  open_sealed = λ k n m. value m;
}

plain_crypto-IsCrypto : IsCrypto plain_crypto
plain_crypto-IsCrypto = record {
  encrypted = λ key m. m;
  behind = λ key m. [];
  encrypts = λ key m e. refl;
  decrypts = λ key m e. refl;
  fits = λ key m e. e;
  ciphers = λ k e. (refl, refl);
  opens = λ k n m e f. refl;
}

decrypt-encrypt_example :
    (body : Bytes) × (encrypt_handshake plain_crypto 5
        (value (copies 32 0))
        (value (copies 12 0))
        (1 ∷ 2 ∷ [])
      ≡ value body)
    × (decrypt_handshake plain_crypto 5 (record { bytes = body; spare = 6 ∷ [] })
        ≡ some (value (1 ∷ 2 ∷ [])))
decrypt-encrypt_example =
    decrypt-encrypt plain_crypto 5 (copies 32 0) (copies 12 0) (1 ∷ 2 ∷ []) (6 ∷ [])
      plain_crypto-IsCrypto refl refl

abbrev inbound : InboundCalls
inbound = record {
  connection = 1;
  accept_stream = value 2;
  decode = none;
  decrypt = some none;
  unmarshal = none;
  parse_certificate = value "bob";
  wait = λ hash. hash == "bob";
  verify = some none;
  encode = none;
}

abbrev outbound : OutboundCalls
outbound = record {
  dial = λ a. value 3;
  open_stream = value 4;
  marshal = none;
  encrypt = none;
  encode = none;
  decode = none;
  parse_certificate = none;
  verify = some none;
}

handshakes-connect_example :
    ((p q : AbyssPeer) × (prepare_abyss_inbound inbound (new_abyss_peer "bob")
        ≡ some (p, listening ∷ []))
      × (prepare_abyss_outbound selector outbound (far ∷ []) p ≡ some (q, announced ∷ []))
      × IsConnected q 1 3 2 4)
    × ((p q : AbyssPeer) × (prepare_abyss_outbound selector outbound
            (far ∷ [])
            (new_abyss_peer "bob")
          ≡ some (p, []))
        × (prepare_abyss_inbound inbound p ≡ some (q, listening ∷ announced ∷ []))
        × IsConnected q 1 3 2 4)
unfolding filter_address_candidates collect classify is_private after_private choice choose
handshakes-connect_example =
    handshakes-connect "bob" selector inbound outbound (far ∷ []) far [] 2 3 4 refl
      (record {
        accepted = refl;
        decoded = refl;
        decrypted = refl;
        unmarshalled = refl;
        hash = "bob";
        named = refl;
        known = refl;
        verified = refl;
        encoded = refl;
      })
      (record {
        dialed = refl;
        opened = refl;
        marshalled = refl;
        encrypted = refl;
        encoded = refl;
        decoded = refl;
        named = refl;
        verified = refl;
      })

outbound-unverified_example :
    prepare_abyss_outbound selector
      (record outbound { decode = none; verify = some (some "tls public key mismatch") })
      (far ∷ [])
      (new_abyss_peer "bob")
    ≡ prepare_abyss_outbound selector outbound (far ∷ []) (new_abyss_peer "bob")
outbound-unverified_example =
    outbound-unverified selector outbound (far ∷ []) (new_abyss_peer "bob") none
      (some "tls public key mismatch") refl

abbrev gone : AbyssPeer
gone = record {
  state = pncs_closed;
  identity = "bob";
  addresses = [];
  inbound_conn = some 1;
  outbound_conn = some 3;
  ahmp_encoder = some 4;
  ahmp_decoder = some 2;
  err = none;
}

closed-stays_example :
    ((peer_calls (inbound_done none 5 6 ∷ outbound_done none 7 8 [] ∷ []) gone).0.state
      ≡ pncs_closed)
    × (announcements (peer_calls (inbound_done none 5 6 ∷ outbound_done none 7 8 [] ∷ []) gone).1
        ≡ 0)
    × (listeners (peer_calls (inbound_done none 5 6 ∷ outbound_done none 7 8 [] ∷ []) gone).1 ≡ 0)
closed-stays_example =
    closed-stays (inbound_done none 5 6 ∷ outbound_done none 7 8 [] ∷ []) gone refl

peer_calls-Fits_example :
    (announcements (peer_calls (inbound_done none 5 6 ∷ listen_done ∷ []) (new_abyss_peer "bob")).1
      ≤ 1)
    × (listeners (peer_calls (inbound_done none 5 6 ∷ listen_done ∷ []) (new_abyss_peer "bob")).1
        ≤ 1)
    × IsFit
        (peer_calls (inbound_done none 5 6 ∷ listen_done ∷ []) (new_abyss_peer "bob")).0
        (announcements
          (peer_calls (inbound_done none 5 6 ∷ listen_done ∷ []) (new_abyss_peer "bob")).1)
        (listeners (peer_calls (inbound_done none 5 6 ∷ listen_done ∷ []) (new_abyss_peer "bob")).1)
peer_calls-Fits_example = peer_calls-Fits "bob" (inbound_done none 5 6 ∷ listen_done ∷ [])

abbrev bob_url : Aurl
bob_url = record { scheme = "abyss"; hash = "bob"; addresses = far ∷ []; path = "/" }

abbrev knowing_bob : ContextedPeerMap
knowing_bob = (append 1 "bob" 1 new_contexted_peer_map).0

-- The outbound handshake, where the accepter presents the binding certificate of alice.
abbrev outbound_alice : OutboundCalls
outbound_alice = record outbound {
  verify = verify_tls_binding x alice alice_bind (certificate "" (ed25519 alice_tls));
}

connect-prepares_example :
    Returns (prepare_abyss_outbound selector outbound_alice (far ∷ []) (new_abyss_peer "bob"))
unfolding connect_abyss_async connect_to known_at filter_address_candidates collect classify
    is_private after_private choice choose append new_contexted_peer_map find put
connect-prepares_example =
    connect-prepares x alice alice_bind (certificate "" (ed25519 alice_tls)) alice_tls selector 2
      bob_url knowing_bob (far ∷ []) outbound_alice (new_abyss_peer "bob") refl refl refl refl

append_known_peer-known_example :
    (r : RootSecrets Certificate) × (n : ContextedPeerMap) × (new_root_identity x alice_id alice_key
        17
      ≡ value r)
    × (append_known_peer x alice_id 5 1 r.root_self_cert r.handshake_key_cert knowing_bob ≡ value n)
    × (r.root_id_hash ≡ "I4alice")
    × (n.peers "I4alice" ≡ some (fresh_peer 1 5))
unfolding append new_contexted_peer_map put
append_known_peer-known_example =
    append_known_peer-known x x-IsX509 alice_id alice_bytes 17 "I4alice" 5 1 knowing_bob refl refl
      refl
