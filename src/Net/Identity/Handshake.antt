-- ===== src/Net/Identity/Handshake.antt =====
-- EncryptHandshake and DecryptHandshake of net_service/cert_helper.go. RSA-OAEP with SHA3-256, AES
-- and GCM are parameters; the key and the nonce that are drawn at random are arguments.
use abyss_core.Prelude.{
  ℕ, zero, suc, ◌+◌, String, List, [], ◌∷◌, ◌++◌, Option, none, some, ◌≡◌, refl, ◌∙◌, ◌==◌, nat_eq,
  if◌then◌else◌, arith,
}
use mathlib.Core.List.{append_assoc}
use abyss_core.Functional.{Tried, value, failed}

abbrev pub Bytes : Type 0
Bytes = List ℕ

abbrev pub length : {A : Type 0} → List A → ℕ
length [] = 0
length (x ∷ xs) = suc (length xs)

-- A slice, with the bytes behind it up to its capacity.
pub record Slice : Type 0 where
  pub bytes : Bytes
  pub spare : Bytes

abbrev pub take : ℕ → Bytes → Option Bytes
take zero b = some []
take (suc n) [] = none
take (suc n) (x ∷ b) = elim (take n b) [ none ↦ none | some head ↦ some (x ∷ head) ]

abbrev pub drop : ℕ → Bytes → Option Bytes
drop zero b = some b
drop (suc n) [] = none
drop (suc n) (x ∷ b) = drop n b

-- `b[:n]`, which panics (`none`) where `n` is over the capacity, and `b[n:]`, which panics where `n` is
-- over the length.
abbrev pub head_of : ℕ → Slice → Option Bytes
head_of n b = take n (b.bytes ++ b.spare)

abbrev pub tail_of : ℕ → Slice → Option Bytes
tail_of n b = drop n b.bytes

-- rsa.EncryptOAEP and DecryptOAEP, the size of a private key, aes.NewCipher, and cipher.NewGCM, Seal
-- and Open with a key and a nonce. An error is its text.
pub record Crypto : Type 0 where
  pub encrypt_oaep : ℕ → Bytes → Tried String Bytes
  pub decrypt_oaep : ℕ → Bytes → Tried String Slice
  pub size : ℕ → ℕ
  pub new_cipher : Bytes → Option String
  pub new_gcm : Bytes → Option String
  pub seal : Bytes → Bytes → Bytes → Bytes
  pub open_sealed : Bytes → Bytes → Bytes → Tried String Bytes

abbrev pub unless_error : {A : Type 0} → Option String → Tried String A → Tried String A
unless_error none r = r
unless_error (some err) r = failed err

abbrev pub with_value : {A B : Type 0} → Tried String A → (A → Tried String B) → Tried String B
with_value (failed err) f = failed err
with_value (value a) f = f a

module _ (c : Crypto) where
  -- `aes_key` and `nonce` are what rand.Read gives: 32 and 12 bytes, or an error.
  unfoldable pub encrypt_handshake :
      ℕ → Tried String Bytes → Tried String Bytes → Bytes → Tried String Bytes
  encrypt_handshake pub_key aes_key nonce payload = with_value aes_key (λ k. with_value nonce (λ n.
      unless_error (c.new_cipher k) (
        unless_error (c.new_gcm k) (
          with_value (c.encrypt_oaep pub_key (k ++ n))
            (λ head. value (head ++ c.seal k n payload))))))

  -- Open, with its arguments. It panics where the nonce has not the 12 bytes of GCM.
  opened : Bytes → Option Bytes → Option Bytes → Option (Tried String Bytes)
  opened k none sealed = none
  opened k (some n) none = none
  opened k (some n) (some sealed) = if length n == 12 then some (c.open_sealed k n sealed) else none

  -- With the results of NewCipher and NewGCM.
  ciphered :
      Option String
      → Option String
      → Bytes
      → Option Bytes
      → Option Bytes
      → Option (Tried String Bytes)
  unfolding opened
  ciphered (some err) gcm k n sealed = some (failed err)
  ciphered none (some err) k n sealed = some (failed err)
  ciphered none none k n sealed = opened k n sealed

  -- With the first 32 bytes of the decrypted head, the AES key.
  with_head : ℕ → Slice → Slice → Option Bytes → Option (Tried String Bytes)
  unfolding ciphered
  with_head key body aes_key_nonce none = none
  with_head key body aes_key_nonce (some k) =
      ciphered (c.new_cipher k) (c.new_gcm k) k (tail_of 32 aes_key_nonce)
        (tail_of (c.size key) body)

  with_keys : ℕ → Slice → Tried String Slice → Option (Tried String Bytes)
  unfolding with_head
  with_keys key body (failed err) = some (failed err)
  with_keys key body (value aes_key_nonce) =
      with_head key body aes_key_nonce (head_of 32 aes_key_nonce)

  with_body : ℕ → Slice → Option Bytes → Option (Tried String Bytes)
  unfolding with_keys
  with_body key body none = none
  with_body key body (some head) = with_keys key body (c.decrypt_oaep key head)

  -- `none` is a panic.
  unfoldable pub decrypt_handshake : ℕ → Slice → Option (Tried String Bytes)
  unfolding with_body
  decrypt_handshake key body = with_body key body (head_of (c.size key) body)

-- Documented behaviour: a message of 44 bytes, which is short enough for OAEP, is encrypted to as many
-- bytes as the key has, and the private key decrypts it; keys of 32 bytes fit AES-256; and Open
-- undoes Seal.
pub record IsCrypto (c : Crypto) : Type 0 where
  pub encrypted : ℕ → Bytes → Bytes
  pub behind : ℕ → Bytes → Bytes
  pub encrypts :
      (key : ℕ) (m : Bytes) → length m ≡ 44 → c.encrypt_oaep key m ≡ value (encrypted key m)
  pub decrypts :
      (key : ℕ) (m : Bytes)
      → length m ≡ 44
      → c.decrypt_oaep key (encrypted key m) ≡ value (record { bytes = m; spare = behind key m })
  pub fits : (key : ℕ) (m : Bytes) → length m ≡ 44 → length (encrypted key m) ≡ c.size key
  pub ciphers : (k : Bytes) → length k ≡ 32 → (c.new_cipher k ≡ none) × (c.new_gcm k ≡ none)
  pub opens :
      (k n m : Bytes) → length k ≡ 32 → length n ≡ 12 → c.open_sealed k n (c.seal k n m) ≡ value m

take-append : (xs ys : Bytes) → take (length xs) (xs ++ ys) ≡ some xs
take-append [] ys = refl
take-append (x ∷ xs) ys = rw (take-append xs ys) refl

drop-append : (xs ys : Bytes) → drop (length xs) (xs ++ ys) ≡ some ys
drop-append [] ys = refl
drop-append (x ∷ xs) ys = drop-append xs ys

take_len : (n : ℕ) (xs ys : Bytes) → length xs ≡ n → take n (xs ++ ys) ≡ some xs
take_len n xs ys e = rw (← e) (take-append xs ys)

drop_len : (n : ℕ) (xs ys : Bytes) → length xs ≡ n → drop n (xs ++ ys) ≡ some ys
drop_len n xs ys e = rw (← e) (drop-append xs ys)

length-append : (xs ys : Bytes) → length (xs ++ ys) ≡ length xs + length ys
length-append [] ys = omega arith
length-append (x ∷ xs) ys = rw (length-append xs ys) (omega arith)

head_length : (k n : Bytes) → length k ≡ 32 → length n ≡ 12 → length (k ++ n) ≡ 44
head_length k n long short = length-append k n ∙ rw long (rw short refl)

module _ (c : Crypto) (key : ℕ) (k n payload spare : Bytes) (is : IsCrypto c) (long : length k ≡ 32)
    (short : length n ≡ 12) where
  abbrev head : Bytes
  head = is.encrypted key (k ++ n)

  abbrev body_of : Bytes
  body_of = head ++ c.seal k n payload

  encrypts : encrypt_handshake c key (value k) (value n) payload ≡ value body_of
  unfolding encrypt_handshake
  encrypts =
      rw (is.ciphers k long).0
        (rw (is.ciphers k long).1 (rw (is.encrypts key (k ++ n) (head_length k n long short)) refl))

  head_found : head_of (c.size key) (record { bytes = body_of; spare = spare }) ≡ some head
  head_found =
      rw (append_assoc head (c.seal k n payload) spare)
        (take_len (c.size key) head _ (is.fits key (k ++ n) (head_length k n long short)))

  keys_found :
      (behind : Bytes)
      → (head_of 32 (record { bytes = k ++ n; spare = behind }) ≡ some k)
        × (tail_of 32 (record { bytes = k ++ n; spare = behind }) ≡ some n)
  keys_found behind =
      (rw (append_assoc k n behind) (take_len 32 k (n ++ behind) long), drop_len 32 k n long)

  decrypts :
      decrypt_handshake c key (record { bytes = body_of; spare = spare }) ≡ some (value payload)
  unfolding decrypt_handshake with_body with_keys with_head ciphered opened
  decrypts =
      let (key_found, nonce_found) = keys_found (is.behind key (k ++ n)) in
      rw head_found (
        rw (is.decrypts key (k ++ n) (head_length k n long short)) (
          rw key_found (
            rw (is.ciphers k long).0 (
              rw (is.ciphers k long).1 (
                rw nonce_found (
                  rw
                    (drop_len (c.size key) head (c.seal k n payload)
                      (is.fits key (k ++ n) (head_length k n long short)))
                    (rw short (rw (is.opens k n payload long short) refl))))))))

-- What is encrypted for the holder of a key, that holder decrypts, whatever key and nonce were drawn and
-- whatever lies behind the body in its memory.
-- (The private key of a pair has the number of its public key.)
pub decrypt-encrypt :
    (c : Crypto) (key : ℕ) (k n payload spare : Bytes)
    → IsCrypto c
    → length k ≡ 32
    → length n ≡ 12
    → (body : Bytes) × (encrypt_handshake c key (value k) (value n) payload ≡ value body)
      × (decrypt_handshake c key (record { bytes = body; spare = spare }) ≡ some (value payload))
decrypt-encrypt c key k n payload spare is long short = (
  body_of c key k n payload spare is long short,
  encrypts c key k n payload spare is long short,
  decrypts c key k n payload spare is long short,
)
