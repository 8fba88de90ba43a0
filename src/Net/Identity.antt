-- ===== src/Net/Identity.antt =====
-- net_service/cert_helper.go: the keys and certificates of a host, and how it encrypts a handshake.
-- Go's crypto packages, sha3 and base58 are parameters: x509 and pem as a record of their functions,
-- with certificates of the fields that are read here, RSA and AES-GCM as another. What a call draws
-- at random is an argument.
pub mod Handshake
pub mod Binding
use abyss_core.Prelude.{
  ℕ, zero, suc, String, Bool, true, false, not, List, [], ◌∷◌, ◌++◌, Option, none, some, ◌==◌,
  string_eq, nat_eq, if◌then◌else◌,
}
use Prim.Native.String.{◌++◌ as concat}
use abyss_core.Functional.{Tried, value, failed}
use abyss_core.Net.Addresses.{same_bytes}

-- The keys of other types by their bytes; `no_key` is nil.
pub data PublicKey : Type 0 where
  ed25519 : List ℕ → PublicKey
  rsa : ℕ → PublicKey
  other_key : List ℕ → PublicKey
  no_key : PublicKey

-- An x509.Certificate, also as a template. `is_ca` is IsCA with BasicConstraintsValid. The serial number
-- and the times, which are drawn for one certificate and which nothing here reads, are left out.
pub record Certificate : Type 0 where
  pub issuer : String
  pub subject : String
  pub public_key : PublicKey
  pub is_ca : Bool
  pub cert_sign : Bool
  pub signature : List ℕ

-- x509.CreateCertificate (the template, the parent, the key of the new certificate and the signer's
-- public key, in place of its private one), x509.ParseCertificate, Certificate.CheckSignatureFrom,
-- pem.Encode to a buffer and its text, and pem.Decode.
pub record X509 (Der Pem : Type 0) : Type 0 where
  pub create_certificate : Certificate → Certificate → PublicKey → PublicKey → Tried String Der
  pub parse_certificate : Der → Tried String Certificate
  pub check_signature_from : Certificate → Certificate → Option String
  pub pem_encode : Der → Tried String Pem
  pub pem_decode : Pem → Option Der

infixl 5 ◌>>=◌ ◌>>◌
abbrev pub ◌>>=◌ : {A B : Type 0} → Tried String A → (A → Tried String B) → Tried String B
◌>>=◌ (failed err) f = failed err
◌>>=◌ (value a) f = f a

abbrev pub ◌>>◌ : {B : Type 0} → Tried String (Unit {0}) → Tried String B → Tried String B
◌>>◌ (failed err) k = failed err
◌>>◌ (value u) k = k

-- `if a != b { return nil, errors.New(err) }`
abbrev pub must_be : String → String → String → Tried String (Unit {0})
must_be a b err = if a == b then value tt else failed err

abbrev pub no_error : Option String → Tried String (Unit {0})
no_error none = value tt
no_error (some err) = failed err

pub record RootSecrets (Pem : Type 0) : Type 0 where
  pub root_key : PublicKey
  pub root_self_cert_x509 : Certificate
  pub root_self_cert : Pem
  pub root_id_hash : String
  pub handshake_key : ℕ
  pub handshake_key_cert : Pem

pub record TlsIdentity (Der : Type 0) : Type 0 where
  pub key : PublicKey
  pub tls_self_cert : Der
  pub abyss_bind_cert : Der

pub record PeerIdentity (Der : Type 0) : Type 0 where
  pub root_id_hash : String
  pub root_self_cert_x509 : Certificate
  pub handshake_pub_key : ℕ
  pub root_self_cert_der : Der
  pub handshake_key_cert_der : Der

-- A template, which has no key and no signature.
abbrev pub template : String → Bool → Certificate
template name ca = record {
  issuer = name;
  subject = name;
  public_key = no_key;
  is_ca = ca;
  cert_sign = ca;
  signature = [];
}

unfoldable pub handshake_subject : String → String
handshake_subject id = concat (concat "H-" id) "-OAEP-SHA3-256-AES-256-GCM"

unfoldable pub bind_subject : String → String
bind_subject id = concat "T-" id

unfoldable pub rsa_key : PublicKey → Tried String ℕ
rsa_key (rsa n) = value n
rsa_key (ed25519 k) = failed "unsupported public key"
rsa_key (other_key k) = failed "unsupported public key"
rsa_key no_key = failed "unsupported public key"

module _ {Der Pem : Type 0} (x : X509 Der Pem)
    (abyss_id_from_key : PublicKey → Tried String String) where
  -- With the root key and the handshake key that were drawn.
  unfoldable pub new_root_identity : PublicKey → ℕ → Tried String (RootSecrets Pem)
  unfolding handshake_subject
  new_root_identity root_key handshake_key = do
    peer_hash ← abyss_id_from_key root_key
    r_der ←
        x.create_certificate (template peer_hash true) (template peer_hash true) root_key root_key
    r_x509 ← x.parse_certificate r_der
    h_der ←
        x.create_certificate
          (record (template peer_hash false) { subject = handshake_subject peer_hash })
          (template peer_hash true) (rsa handshake_key) root_key
    root_cert ← x.pem_encode r_der
    handshake_cert ← x.pem_encode h_der
    value (record {
      root_key = root_key;
      root_self_cert_x509 = r_x509;
      root_self_cert = root_cert;
      root_id_hash = peer_hash;
      handshake_key = handshake_key;
      handshake_key_cert = handshake_cert;
    })

  -- With the Ed25519 key that was drawn.
  unfoldable pub new_tls_identity : RootSecrets Pem → PublicKey → Tried String (TlsIdentity Der)
  unfolding bind_subject
  new_tls_identity r key = do
    self_der ← x.create_certificate (template "" true) (template "" true) key key
    auth_der ←
        x.create_certificate
          (record (template r.root_id_hash false) { subject = bind_subject r.root_id_hash })
          r.root_self_cert_x509 key r.root_key
    value (record { key = key; tls_self_cert = self_der; abyss_bind_cert = auth_der })

  unfoldable pub new_peer_identity : Der → Der → Tried String (PeerIdentity Der)
  unfolding handshake_subject rsa_key
  new_peer_identity root_self_cert handshake_key_cert = do
    root ← x.parse_certificate root_self_cert
    handshake ← x.parse_certificate handshake_key_cert
    must_be root.issuer root.subject "invalid root certificate"
    peer_hash ← abyss_id_from_key root.public_key
    must_be peer_hash root.issuer "invalid root certificate"
    must_be handshake.issuer root.issuer "issuer mismatch"
    must_be handshake.subject (handshake_subject root.issuer)
        (concat "unsupported public key encryption scheme: " handshake.subject)
    no_error (x.check_signature_from handshake root)
    pkey ← rsa_key handshake.public_key
    value (record {
      root_id_hash = peer_hash;
      root_self_cert_x509 = root;
      handshake_pub_key = pkey;
      root_self_cert_der = root_self_cert;
      handshake_key_cert_der = handshake_key_cert;
    })

module _ {Der Pem : Type 0} (x : X509 Der Pem) where
  unfoldable pub binding_names : Certificate → Certificate → Option String
  unfolding bind_subject
  binding_names bind root =
      if not (bind.issuer == root.issuer)
      then some "issuer mismatch"
      else if not (bind.subject == bind_subject root.issuer)
      then some "subject mismatch"
      else x.check_signature_from bind root

  -- The type assertion on the key of the binding certificate panics where it is no Ed25519 key (`none`).
  -- The error of the signature stands for itself joined to "VerifyTLSBinding".
  unfoldable pub verified_key :
      PublicKey → PublicKey → Certificate → Certificate → Option (Option String)
  unfolding binding_names
  verified_key (ed25519 k) (ed25519 tls_k) bind root =
      if same_bytes k tls_k
      then some (binding_names bind root)
      else some (some "tls public key mismatch")
  verified_key (ed25519 k) (rsa n) bind root = some (some "tls public key mismatch")
  verified_key (ed25519 k) (other_key l) bind root = some (some "tls public key mismatch")
  verified_key (ed25519 k) no_key bind root = some (some "tls public key mismatch")
  verified_key (rsa n) tls_key bind root = none
  verified_key (other_key k) tls_key bind root = none
  verified_key no_key tls_key bind root = none

  unfoldable pub verify_tls_binding :
      PeerIdentity Der → Certificate → Certificate → Option (Option String)
  unfolding verified_key
  verify_tls_binding p bind tls =
      verified_key bind.public_key tls.public_key bind p.root_self_cert_x509
