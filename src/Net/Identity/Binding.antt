-- ===== src/Net/Identity/Binding.antt =====
-- Certificates of a host, before a peer that reads them (net_service/cert_helper.go).
use abyss_core.Prelude.{
  ℕ, String, true, false, List, [], ◌∷◌, Option, none, some, ◌==◌, string_eq, nat_eq, ◌≡◌, refl,
  arith, ap, Bool-cases, ◌⊎◌, inl, inr, eq_of_test,
}
use text.Mathlib.TextEquality.{eq_iff}
use abyss_core.Functional.{Tried, value}
use abyss_core.Net.Addresses.{same_bytes}
use abyss_core.Net.Identity.Handshake.{length}
use abyss_core.Net.Identity.{
  PublicKey, ed25519, rsa, other_key, no_key, Certificate, X509, RootSecrets, TlsIdentity,
  PeerIdentity, template, handshake_subject, bind_subject, new_root_identity, new_tls_identity,
  new_peer_identity, verify_tls_binding, verified_key, binding_names, rsa_key,
}

-- What CreateCertificate puts into a certificate: the issuer is the parent's subject.
abbrev pub made : Certificate → Certificate → PublicKey → List ℕ → Certificate
made t parent key signature = record t {
  issuer = parent.subject;
  public_key = key;
  signature = signature;
}

-- The keys that CreateCertificate takes here: an Ed25519 key has 32 bytes, and an RSA key is one that
-- rsa.GenerateKey drew.
abbrev pub IsKey : PublicKey → Type 0
IsKey (ed25519 k) = length k ≡ 32
IsKey (rsa n) = Unit {0}
IsKey (other_key k) = ⊥
IsKey no_key = ⊥

-- CreateCertificate with the private key of `signer`, an Ed25519 key: the parent is a template without a
-- key, or has the signer's.
abbrev pub IsIssued : Certificate → PublicKey → List ℕ → Type 0
IsIssued parent key signer =
    IsKey key
    × (length signer ≡ 32)
    × ((parent.public_key ≡ no_key) ⊎ (parent.public_key ≡ ed25519 signer))

-- Documented behaviour of x509 and pem: where the parent's key is not another one than the signer's,
-- CreateCertificate succeeds; what it makes is parsed to what was asked for; and its signature is
-- confirmed by any certificate with the signer's key that may sign certificates. PEM is lossless.
pub record IsX509 {Der Pem : Type 0} (x : X509 Der Pem) : Type 0 where
  pub sign : Certificate → Certificate → PublicKey → List ℕ → List ℕ
  pub der_of : Certificate → Certificate → PublicKey → List ℕ → Der
  pub pem_of : Der → Pem
  pub creates :
      (t parent : Certificate) (key : PublicKey) (signer : List ℕ)
      → IsIssued parent key signer
      → x.create_certificate t parent key (ed25519 signer) ≡ value (der_of t parent key signer)
  pub parses :
      (t parent : Certificate) (key : PublicKey) (signer : List ℕ)
      → IsIssued parent key signer
      → x.parse_certificate (der_of t parent key signer)
        ≡ value (made t parent key (sign t parent key signer))
  pub confirms :
      (t parent : Certificate) (key : PublicKey) (signer : List ℕ) (by : Certificate)
      → IsIssued parent key signer
      → by.public_key ≡ ed25519 signer
      → by.is_ca ≡ true
      → by.cert_sign ≡ true
      → x.check_signature_from (made t parent key (sign t parent key signer)) by ≡ none
  pub encodes : (d : Der) → x.pem_encode d ≡ value (pem_of d)
  pub decodes : (d : Der) → x.pem_decode (pem_of d) ≡ some d

pub same_bytes_self : (xs : List ℕ) → same_bytes xs xs ≡ true
same_bytes_self [] = refl
same_bytes_self (a ∷ xs) = rw ((nat_eq.same_iff a a).1 refl) (same_bytes_self xs)

same_string : (s : String) → (s == s) ≡ true
same_string s = (eq_iff s s).1 refl

module _ {Der Pem : Type 0} (x : X509 Der Pem) (is : IsX509 x)
    (abyss_id_from_key : PublicKey → Tried String String) (root_key : List ℕ) (handshake_key : ℕ)
    (tls_key : List ℕ) (id : String) where
  abbrev pub root_of : Certificate
  root_of =
      made (template id true) (template id true) (ed25519 root_key)
        (is.sign (template id true) (template id true) (ed25519 root_key) root_key)

  abbrev pub root_der : Der
  root_der = is.der_of (template id true) (template id true) (ed25519 root_key) root_key

  abbrev pub handshake_template : Certificate
  handshake_template = record (template id false) { subject = handshake_subject id }

  abbrev pub handshake_der : Der
  handshake_der = is.der_of handshake_template (template id true) (rsa handshake_key) root_key

  abbrev pub secrets : RootSecrets Pem
  secrets = record {
    root_key = ed25519 root_key;
    root_self_cert_x509 = root_of;
    root_self_cert = is.pem_of root_der;
    root_id_hash = id;
    handshake_key = handshake_key;
    handshake_key_cert = is.pem_of handshake_der;
  }

  root-IsIssued : length root_key ≡ 32 → IsIssued (template id true) (ed25519 root_key) root_key
  root-IsIssued l = (l, l, inl refl)

  handshake-IsIssued :
      length root_key ≡ 32 → IsIssued (template id true) (rsa handshake_key) root_key
  handshake-IsIssued l = (tt, l, inl refl)

  pub root-made :
      length root_key ≡ 32
      → abyss_id_from_key (ed25519 root_key) ≡ value id
      → new_root_identity x abyss_id_from_key (ed25519 root_key) handshake_key ≡ value secrets
  unfolding new_root_identity
  root-made l e = rw e (
      rw
        (is.creates (template id true) (template id true) (ed25519 root_key) root_key
          (root-IsIssued l))
        (rw
          (is.parses (template id true) (template id true) (ed25519 root_key) root_key
            (root-IsIssued l))
          (rw
            (is.creates handshake_template (template id true) (rsa handshake_key) root_key
              (handshake-IsIssued l))
            (rw (is.encodes root_der) (rw (is.encodes handshake_der) refl)))))

  abbrev pub known : PeerIdentity Der
  known = record {
    root_id_hash = id;
    root_self_cert_x509 = root_of;
    handshake_pub_key = handshake_key;
    root_self_cert_der = root_der;
    handshake_key_cert_der = handshake_der;
  }

  pub peer-known :
      length root_key ≡ 32
      → abyss_id_from_key (ed25519 root_key) ≡ value id
      → new_peer_identity x abyss_id_from_key root_der handshake_der ≡ value known
  unfolding new_peer_identity rsa_key
  peer-known l e =
      rw
        (is.parses (template id true) (template id true) (ed25519 root_key) root_key
          (root-IsIssued l))
        (rw
          (is.parses handshake_template (template id true) (rsa handshake_key) root_key
            (handshake-IsIssued l))
          (rw e (
            rw (same_string id) (
              rw (same_string (handshake_subject id)) (
                rw
                  (is.confirms handshake_template (template id true) (rsa handshake_key) root_key
                    root_of (handshake-IsIssued l) refl refl refl)
                  refl)))))

  abbrev bind_template : Certificate
  bind_template = record (template id false) { subject = bind_subject id }

  abbrev tls_of : Certificate
  tls_of =
      made (template "" true) (template "" true) (ed25519 tls_key)
        (is.sign (template "" true) (template "" true) (ed25519 tls_key) tls_key)

  abbrev bind_of : Certificate
  bind_of =
      made bind_template root_of (ed25519 tls_key)
        (is.sign bind_template root_of (ed25519 tls_key) root_key)

  abbrev tls_identity : TlsIdentity Der
  tls_identity = record {
    key = ed25519 tls_key;
    tls_self_cert = is.der_of (template "" true) (template "" true) (ed25519 tls_key) tls_key;
    abyss_bind_cert = is.der_of bind_template root_of (ed25519 tls_key) root_key;
  }

  tls-IsIssued : length tls_key ≡ 32 → IsIssued (template "" true) (ed25519 tls_key) tls_key
  tls-IsIssued m = (m, m, inl refl)

  bind-IsIssued :
      length root_key ≡ 32 → length tls_key ≡ 32 → IsIssued root_of (ed25519 tls_key) root_key
  bind-IsIssued l m = (m, l, inr refl)

  tls-made :
      length root_key ≡ 32
      → length tls_key ≡ 32
      → new_tls_identity x abyss_id_from_key secrets (ed25519 tls_key) ≡ value tls_identity
  unfolding new_tls_identity
  tls-made l m =
      rw
        (is.creates (template "" true) (template "" true) (ed25519 tls_key) tls_key
          (tls-IsIssued m))
        (rw (is.creates bind_template root_of (ed25519 tls_key) root_key (bind-IsIssued l m)) refl)

  binding-verified :
      length root_key ≡ 32
      → length tls_key ≡ 32
      → verify_tls_binding x known bind_of tls_of ≡ some none
  unfolding verify_tls_binding verified_key binding_names
  binding-verified l m = rw (same_bytes_self tls_key) (
      rw (same_string id) (
        rw (same_string (bind_subject id)) (
          rw
            (is.confirms bind_template root_of (ed25519 tls_key) root_key root_of
              (bind-IsIssued l m) refl refl refl)
            refl)))

  -- A host makes its root identity from an Ed25519 key and its TLS identity, and a peer reads the root
  -- and handshake certificates from their PEM. Then all succeeds, the peer knows the host under the hash
  -- of its root key with its handshake key, and the binding certificate of the TLS identity proves the
  -- TLS key. Both Ed25519 keys have 32 bytes.
  pub own_binding-verifies :
      length root_key ≡ 32
      → length tls_key ≡ 32
      → abyss_id_from_key (ed25519 root_key) ≡ value id
      → (r : RootSecrets Pem) × (t : TlsIdentity Der) × (root_der handshake_der : Der)
        × (p : PeerIdentity Der) × (bind tls : Certificate) × (new_root_identity x abyss_id_from_key
              (ed25519 root_key)
              handshake_key
            ≡ value r)
        × (new_tls_identity x abyss_id_from_key r (ed25519 tls_key) ≡ value t)
        × (x.pem_decode r.root_self_cert ≡ some root_der)
        × (x.pem_decode r.handshake_key_cert ≡ some handshake_der)
        × (new_peer_identity x abyss_id_from_key root_der handshake_der ≡ value p)
        × (p.root_id_hash ≡ r.root_id_hash)
        × (p.handshake_pub_key ≡ handshake_key)
        × (x.parse_certificate t.abyss_bind_cert ≡ value bind)
        × (x.parse_certificate t.tls_self_cert ≡ value tls)
        × (verify_tls_binding x p bind tls ≡ some none)
  own_binding-verifies l m e = (
    secrets,
    tls_identity,
    root_der,
    handshake_der,
    known,
    bind_of,
    tls_of,
    root-made l e,
    tls-made l m,
    is.decodes root_der,
    is.decodes handshake_der,
    peer-known l e,
    refl,
    refl,
    is.parses bind_template root_of (ed25519 tls_key) root_key (bind-IsIssued l m),
    is.parses (template "" true) (template "" true) (ed25519 tls_key) tls_key (tls-IsIssued m),
    binding-verified l m,
  )

same_bytes-same : (xs ys : List ℕ) → same_bytes xs ys ≡ true → xs ≡ ys
same_bytes-same [] [] e = refl
same_bytes-same [] (b ∷ ys) e = ground arith
same_bytes-same (a ∷ xs) [] e = ground arith
same_bytes-same (a ∷ xs) (b ∷ ys) e = elim (Bool-cases (a == b)) [
  | inl q ↦ rw (eq_of_test a b q) (ap (λ l. b ∷ l) (same_bytes-same xs ys (rw q at e)))
  | inr q ↦ absurd (no_confusion (rw q at e))
]
  where
    no_confusion : false ≡ true → ⊥
    no_confusion p = ground arith

module _ {Der Pem : Type 0} (x : X509 Der Pem) where
  names_sound :
      (bind root : Certificate)
      → binding_names x bind root ≡ none
      → (bind.issuer ≡ root.issuer)
        × (bind.subject ≡ bind_subject root.issuer)
        × (x.check_signature_from bind root ≡ none)
  unfolding binding_names
  names_sound bind root e = elim (Bool-cases (bind.issuer == root.issuer)) [
    | inr q ↦ absurd (refused (rw q at e))
    | inl q ↦ elim (Bool-cases (bind.subject == bind_subject root.issuer)) [
      | inr r ↦ absurd (refused (rw r at (rw q at e)))
      | inl r ↦ (
        eq_of_test bind.issuer root.issuer q,
        eq_of_test bind.subject (bind_subject root.issuer) r,
        rw r at (rw q at e),
      )
    ]
  ]
    where
      refused : {err : String} → some err ≡ none → ⊥
      refused p = ground arith

  some_none : {u v : Option String} → some u ≡ some v → u ≡ v
  some_none e = cc

  key_sound :
      (k l : PublicKey) (bind root : Certificate)
      → verified_key x k l bind root ≡ some none
      → (k ≡ l) × (binding_names x bind root ≡ none)
  unfolding verified_key
  key_sound (ed25519 k) (ed25519 l) bind root e = elim (Bool-cases (same_bytes k l)) [
    | inl q ↦ (ap ed25519 (same_bytes-same k l q), some_none (rw q at e))
    | inr q ↦ absurd (mismatch (rw q at e))
  ]
    where
      mismatch : {err : String} → some (some err) ≡ some none → ⊥
      mismatch p = ground arith
  key_sound (ed25519 k) (rsa n) bind root e = ground arith
  key_sound (ed25519 k) (other_key l) bind root e = ground arith
  key_sound (ed25519 k) no_key bind root e = ground arith
  key_sound (rsa n) l bind root e = ground arith
  key_sound (other_key k) l bind root e = ground arith
  key_sound no_key l bind root e = ground arith

  -- VerifyTLSBinding accepts a binding certificate only if its key is the one of the TLS certificate, its
  -- names are those of the peer's root certificate, and the root certificate confirms its signature.
  pub verify_tls_binding_sound :
      (p : PeerIdentity Der) (bind tls : Certificate)
      → verify_tls_binding x p bind tls ≡ some none
      → (bind.public_key ≡ tls.public_key)
        × (bind.issuer ≡ p.root_self_cert_x509.issuer)
        × (bind.subject ≡ bind_subject p.root_self_cert_x509.issuer)
        × (x.check_signature_from bind p.root_self_cert_x509 ≡ none)
  unfolding verify_tls_binding
  verify_tls_binding_sound p bind tls e =
      let (same, names) = key_sound bind.public_key tls.public_key bind p.root_self_cert_x509 e in
      let (issuer, subject, signed) = names_sound bind p.root_self_cert_x509 names in
      (same, issuer, subject, signed)
