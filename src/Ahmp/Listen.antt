-- ===== src/Ahmp/Listen.antt =====
-- listenAhmp of net_service/abyss_inbound.go and _trySend2 of net_service/abyss_peer.go: messages on
-- the stream of a connection. A stream is a sequence of CBOR items (a negative number for a type is
-- one that no constant has); the encoder and the decoder
-- (github.com/fxamacker/cbor) of one item are parameters, as are uuid.Parse and aurl.TryParse.
use abyss_core.Prelude.{ℕ, String, List, [], ◌∷◌, ◌++◌, ◌≡◌, refl, ◌==◌, nat_eq, if◌then◌else◌}
use abyss_core.Functional.{Tried, value, failed}
use abyss_core.Interfaces.{Uuid, Aurl}
use abyss_core.Ahmp.{
  RawJn, RawJok, RawJdn, RawJni, RawMem, RawSjn, RawCrr, RawRst, RawSoa, RawSod, AhmpMessage, jn,
  jok, jdn, jni, mem, sjn, crr, rst, soa, sod, inval,
}
use abyss_core.Ahmp.Parse.{
  parse_jn, parse_jok, parse_jdn, parse_jni, parse_mem, parse_sjn, parse_crr, parse_rst, parse_soa,
  parse_sod,
}

-- `Encode` and `Decode` on an item, at the types that are sent and received.
pub record Cbor (I : Type 0) : Type 0 where
  pub encode_type : ℕ → I
  pub decode_type : I → Tried String ℕ
  pub encode_jn : RawJn → I
  pub decode_jn : I → Tried String RawJn
  pub encode_jok : RawJok → I
  pub decode_jok : I → Tried String RawJok
  pub encode_jdn : RawJdn → I
  pub decode_jdn : I → Tried String RawJdn
  pub encode_jni : RawJni → I
  pub decode_jni : I → Tried String RawJni
  pub encode_mem : RawMem → I
  pub decode_mem : I → Tried String RawMem
  pub encode_sjn : RawSjn → I
  pub decode_sjn : I → Tried String RawSjn
  pub encode_crr : RawCrr → I
  pub decode_crr : I → Tried String RawCrr
  pub encode_rst : RawRst → I
  pub decode_rst : I → Tried String RawRst
  pub encode_soa : RawSoa → I
  pub decode_soa : I → Tried String RawSoa
  pub encode_sod : RawSod → I
  pub decode_sod : I → Tried String RawSod

-- An item that was encoded is decoded to what it was made of.
pub record IsLossless {I : Type 0} (c : Cbor I) : Type 0 where
  pub type_trip : (n : ℕ) → c.decode_type (c.encode_type n) ≡ value n
  pub jn_trip : (r : RawJn) → c.decode_jn (c.encode_jn r) ≡ value r
  pub jok_trip : (r : RawJok) → c.decode_jok (c.encode_jok r) ≡ value r
  pub jdn_trip : (r : RawJdn) → c.decode_jdn (c.encode_jdn r) ≡ value r
  pub jni_trip : (r : RawJni) → c.decode_jni (c.encode_jni r) ≡ value r
  pub mem_trip : (r : RawMem) → c.decode_mem (c.encode_mem r) ≡ value r
  pub sjn_trip : (r : RawSjn) → c.decode_sjn (c.encode_sjn r) ≡ value r
  pub crr_trip : (r : RawCrr) → c.decode_crr (c.encode_crr r) ≡ value r
  pub rst_trip : (r : RawRst) → c.decode_rst (c.encode_rst r) ≡ value r
  pub soa_trip : (r : RawSoa) → c.decode_soa (c.encode_soa r) ≡ value r
  pub sod_trip : (r : RawSod) → c.decode_sod (c.encode_sod r) ≡ value r

pub data RawMessage : Type 0 where
  raw_jn : RawJn → RawMessage
  raw_jok : RawJok → RawMessage
  raw_jdn : RawJdn → RawMessage
  raw_jni : RawJni → RawMessage
  raw_mem : RawMem → RawMessage
  raw_sjn : RawSjn → RawMessage
  raw_crr : RawCrr → RawMessage
  raw_rst : RawRst → RawMessage
  raw_soa : RawSoa → RawMessage
  raw_sod : RawSod → RawMessage

-- The constants JN_T to SOD_T.
abbrev pub type_of : RawMessage → ℕ
type_of (raw_jn r) = 0
type_of (raw_jok r) = 1
type_of (raw_jdn r) = 2
type_of (raw_jni r) = 3
type_of (raw_mem r) = 4
type_of (raw_sjn r) = 5
type_of (raw_crr r) = 6
type_of (raw_rst r) = 7
type_of (raw_soa r) = 8
type_of (raw_sod r) = 9

-- A result after an error was joined to the text that says what was parsed.
abbrev pub join_error :
    {A : Type 0} → String → (A → AhmpMessage) → Tried String A → Tried (List String) AhmpMessage
join_error what f (failed err) = failed (what ∷ err ∷ [])
join_error what f (value a) = value (f a)

abbrev pub decode_then :
    {R A : Type 0}
    → String
    → (A → AhmpMessage)
    → (R → Tried String A)
    → Tried String R
    → Tried (List String) AhmpMessage
decode_then what f p (failed err) = failed (what ∷ err ∷ [])
decode_then what f p (value r) = join_error what f (p r)

-- Writing the result to the channel, and going on where there was no error.
abbrev pub deliver_then : Tried (List String) AhmpMessage → List AhmpMessage → List AhmpMessage
deliver_then (failed errs) rest = inval errs ∷ []
deliver_then (value m) rest = m ∷ rest

-- `Decode` on what is left of the stream.
abbrev pub next : {I R : Type 0} → (I → Tried String R) → List I → Tried String R
next decode [] = failed "EOF"
next decode (x ∷ xs) = decode x

module _ {I : Type 0} (c : Cbor I) where
  abbrev pub body_of : RawMessage → I
  body_of (raw_jn r) = c.encode_jn r
  body_of (raw_jok r) = c.encode_jok r
  body_of (raw_jdn r) = c.encode_jdn r
  body_of (raw_jni r) = c.encode_jni r
  body_of (raw_mem r) = c.encode_mem r
  body_of (raw_sjn r) = c.encode_sjn r
  body_of (raw_crr r) = c.encode_crr r
  body_of (raw_rst r) = c.encode_rst r
  body_of (raw_soa r) = c.encode_soa r
  body_of (raw_sod r) = c.encode_sod r

  -- The items that _trySend2 writes for each message: its type, then its body.
  unfoldable pub frames : List RawMessage → List I
  frames [] = []
  frames (r ∷ rs) = c.encode_type (type_of r) ∷ body_of r ∷ frames rs

module _ {I : Type 0} (c : Cbor I) (parse : String → Tried String Uuid)
    (try_parse : String → Tried String Aurl) where
  -- The switch on the type, with the body that follows it.
  unfoldable pub receive : ℕ → List I → Tried (List String) AhmpMessage
  receive n xs =
      if n == 0
      then decode_then "parsing JN" jn (parse_jn parse) (next c.decode_jn xs)
      else if n == 1
      then decode_then "parsing JOK" jok (parse_jok parse try_parse) (next c.decode_jok xs)
      else if n == 2
      then decode_then "parsing JDN" jdn (parse_jdn parse) (next c.decode_jdn xs)
      else if n == 3
      then decode_then "parsing JNI" jni (parse_jni parse try_parse) (next c.decode_jni xs)
      else if n == 4
      then decode_then "parsing MEM" mem (parse_mem parse) (next c.decode_mem xs)
      else if n == 5
      then decode_then "parsing SJN" sjn (parse_sjn parse) (next c.decode_sjn xs)
      else if n == 6
      then decode_then "parsing CRR" crr (parse_crr parse) (next c.decode_crr xs)
      else if n == 7
      then decode_then "parsing RST" rst (parse_rst parse) (next c.decode_rst xs)
      else if n == 8
      then decode_then "parsing SOA" soa (parse_soa parse) (next c.decode_soa xs)
      else if n == 9
      then decode_then "parsing SOD" sod (parse_sod parse) (next c.decode_sod xs)
      else failed ("unknown AHMP message type" ∷ [])

  abbrev on_type : Tried String ℕ → List I → List AhmpMessage → List AhmpMessage
  on_type (failed err) xs rest = []
  on_type (value n) xs rest = deliver_then (receive n xs) rest

  -- What the loop writes to the channel, until it returns; the peer is closed then.
  unfoldable pub listen_ahmp : List I → List AhmpMessage
  unfolding receive
  listen_ahmp [] = []
  listen_ahmp (t ∷ []) = on_type (c.decode_type t) [] []
  listen_ahmp (t ∷ x ∷ xs) = let rest = listen_ahmp xs in on_type (c.decode_type t) (x ∷ []) rest

  abbrev pub parsed : RawMessage → Tried (List String) AhmpMessage
  parsed (raw_jn r) = join_error "parsing JN" jn (parse_jn parse r)
  parsed (raw_jok r) = join_error "parsing JOK" jok (parse_jok parse try_parse r)
  parsed (raw_jdn r) = join_error "parsing JDN" jdn (parse_jdn parse r)
  parsed (raw_jni r) = join_error "parsing JNI" jni (parse_jni parse try_parse r)
  parsed (raw_mem r) = join_error "parsing MEM" mem (parse_mem parse r)
  parsed (raw_sjn r) = join_error "parsing SJN" sjn (parse_sjn parse r)
  parsed (raw_crr r) = join_error "parsing CRR" crr (parse_crr parse r)
  parsed (raw_rst r) = join_error "parsing RST" rst (parse_rst parse r)
  parsed (raw_soa r) = join_error "parsing SOA" soa (parse_soa parse r)
  parsed (raw_sod r) = join_error "parsing SOD" sod (parse_sod parse r)

  -- What arrives of a sequence of messages: each one parsed, in order, up to the first that does not
  -- parse, which arrives as INVAL; only if all parse, what follows.
  abbrev pub arriving : List RawMessage → List AhmpMessage → List AhmpMessage
  arriving [] rest = rest
  arriving (r ∷ rs) rest = deliver_then (parsed r) (arriving rs rest)

  receive-frame :
      (lossless : IsLossless c) (r : RawMessage) → receive (type_of r) (body_of c r ∷ []) ≡ parsed r
  unfolding receive
  receive-frame lossless (raw_jn r) = rw (lossless.jn_trip r)
  receive-frame lossless (raw_jok r) = rw (lossless.jok_trip r)
  receive-frame lossless (raw_jdn r) = rw (lossless.jdn_trip r)
  receive-frame lossless (raw_jni r) = rw (lossless.jni_trip r)
  receive-frame lossless (raw_mem r) = rw (lossless.mem_trip r)
  receive-frame lossless (raw_sjn r) = rw (lossless.sjn_trip r)
  receive-frame lossless (raw_crr r) = rw (lossless.crr_trip r)
  receive-frame lossless (raw_rst r) = rw (lossless.rst_trip r)
  receive-frame lossless (raw_soa r) = rw (lossless.soa_trip r)
  receive-frame lossless (raw_sod r) = rw (lossless.sod_trip r)

  -- The loop that reads the frames of any messages, and then any other items, writes to the channel
  -- the messages in the order in which they were sent, up to the first that does not parse, and goes
  -- on with the other items only if all parse.
  pub listen_ahmp-frames :
      (lossless : IsLossless c) (rs : List RawMessage) (xs : List I)
      → listen_ahmp (frames c rs ++ xs) ≡ arriving rs (listen_ahmp xs)
  unfolding listen_ahmp frames
  listen_ahmp-frames lossless [] xs = refl
  listen_ahmp-frames lossless (r ∷ rs) xs =
      rw (lossless.type_trip (type_of r))
        (rw (receive-frame lossless r) (rw (listen_ahmp-frames lossless rs xs) refl))
