-- ===== src/Ahmp/Examples.antt =====
-- Round trips and a stream, with a concrete text for two session ids, and a URL that is its peer's hash.
use abyss_core.Prelude.{
  ℕ, ◌++◌, String, List, [], ◌∷◌, ◌≡◌, refl, ◌≤◌, ◌<◌, ◌+◌, ◌==◌, string_eq, nat_eq, if◌then◌else◌,
  some, arith,
}
use abyss_core.Functional.{Tried, value, failed}
use abyss_core.Interfaces.{
  Uuid, Time, Aurl, Peer, AndPeerSessionIdentity, AndPeerSessionWithTimeStamp, ObjectInfo,
}
use abyss_core.Ahmp.{
  RawJn, RawJok, RawJdn, RawJni, RawMem, RawSjn, RawCrr, RawRst, RawSoa, RawSod, rst, inval,
  unix_milli, milli_of,
}
use abyss_core.Ahmp.Parse.{parse_sjn, parse_soa, parse_mem, parse_jok, parse_jni, parse_rst}
use abyss_core.Ahmp.Build.{build_sjn, build_soa, build_mem, build_jok, build_jni, build_rst}
use abyss_core.Ahmp.Listen.{
  Cbor, IsLossless, RawMessage, raw_rst, raw_sjn, listen_ahmp, frames, listen_ahmp-frames,
}
use abyss_core.Ahmp.RoundTrips.{sjn-build, soa-build, mem-build}
use abyss_core.Ahmp.Introductions.{identity_of, jok-build, jni-build}

abbrev pub print : Uuid → String
print u =
    if u == 1
    then "00000000-0000-0000-0000-000000000001"
    else "00000000-0000-0000-0000-000000000002"

abbrev pub parse : String → Tried String Uuid
parse s =
    if s == "00000000-0000-0000-0000-000000000001"
    then value 1
    else if s == "00000000-0000-0000-0000-000000000002"
    then value 2
    else failed "invalid UUID"

abbrev bob_session : AndPeerSessionIdentity
bob_session = record { peer_hash = "bob"; session_id = 2 }

abbrev cube : ObjectInfo
cube = record { id = 2; addr = "cube.obj"; transform = [] }

sjn-build_example :
    parse_sjn parse (build_sjn print 1 2 (bob_session ∷ []))
    ≡ value
        (record { sender_session_id = 1; recver_session_id = 2; member_infos = bob_session ∷ [] })
sjn-build_example = sjn-build parse print 1 2 refl refl (bob_session ∷ []) (refl, tt)

soa-build_example :
    parse_soa parse (build_soa print 1 2 (cube ∷ []))
    ≡ value (record { sender_session_id = 1; recver_session_id = 2; objects = cube ∷ [] })
soa-build_example = soa-build parse print 1 2 refl refl (cube ∷ []) (refl, tt)

mem-build_example :
    (u : Time) × (parse_mem parse (build_mem print 1 2 2500000)
      ≡ value (record { sender_session_id = 1; recver_session_id = 2; time_stamp = u }))
    × (u ≤ 2500000)
    × (2500000 < u + 1000000)
mem-build_example = mem-build parse print 1 2 refl refl 2500000 (omega arith)

abbrev bob_aurl : Aurl
bob_aurl = record { scheme = "abyss"; hash = "bob"; addresses = []; path = "/" }

abbrev bob : Peer
bob = record {
  object = 1;
  id_hash = "bob";
  root_certificate_der = 48 ∷ [];
  handshake_key_certificate_der = 49 ∷ [];
  aurl = bob_aurl;
}

abbrev to_string : Aurl → String
to_string url = url.hash

abbrev pub try_parse : String → Tried String Aurl
try_parse s = if s == "bob" then value bob_aurl else failed "invalid URL"

abbrev bob_stamped : AndPeerSessionWithTimeStamp
bob_stamped = record {
  session = record { peer = some bob; peer_session_id = 2 };
  time_stamp = 2500000;
}

jni-build_example :
    (raw : RawJni) × (build_jni print to_string 1 2 bob_stamped ≡ some raw)
    × (parse_jni parse try_parse raw
        ≡ value (record {
          sender_session_id = 1;
          recver_session_id = 2;
          neighbor = identity_of bob_stamped bob;
        }))
jni-build_example =
    jni-build parse print try_parse to_string 1 2 refl refl bob_stamped
      (identity_of bob_stamped bob) (bob, refl, refl, refl, refl)

jok-build_example :
    (raw : RawJok) × (build_jok print to_string 1 2 3000000 "home" (bob_stamped ∷ []) ≡ some raw)
    × (parse_jok parse try_parse raw
        ≡ value (record {
          sender_session_id = 1;
          recver_session_id = 2;
          time_stamp = unix_milli (milli_of 3000000);
          neighbors = identity_of bob_stamped bob ∷ [];
          text = "home";
        }))
jok-build_example =
    jok-build parse print try_parse to_string 1 2 refl refl 3000000 "home" (bob_stamped ∷ [])
      (identity_of bob_stamped bob ∷ []) ((bob, refl, refl, refl, refl), tt)

-- An item of a stream, as what it was made of.
pub data Item : Type 0 where
  type_item : ℕ → Item
  jn_item : RawJn → Item
  jok_item : RawJok → Item
  jdn_item : RawJdn → Item
  jni_item : RawJni → Item
  mem_item : RawMem → Item
  sjn_item : RawSjn → Item
  crr_item : RawCrr → Item
  rst_item : RawRst → Item
  soa_item : RawSoa → Item
  sod_item : RawSod → Item

abbrev item_type : Item → Tried String ℕ
item_type (type_item n) = value n
item_type _ = failed "not a number"

abbrev item_jn : Item → Tried String RawJn
item_jn (jn_item r) = value r
item_jn _ = failed "another type"

abbrev item_jok : Item → Tried String RawJok
item_jok (jok_item r) = value r
item_jok _ = failed "another type"

abbrev item_jdn : Item → Tried String RawJdn
item_jdn (jdn_item r) = value r
item_jdn _ = failed "another type"

abbrev item_jni : Item → Tried String RawJni
item_jni (jni_item r) = value r
item_jni _ = failed "another type"

abbrev item_mem : Item → Tried String RawMem
item_mem (mem_item r) = value r
item_mem _ = failed "another type"

abbrev item_sjn : Item → Tried String RawSjn
item_sjn (sjn_item r) = value r
item_sjn _ = failed "another type"

abbrev item_crr : Item → Tried String RawCrr
item_crr (crr_item r) = value r
item_crr _ = failed "another type"

abbrev item_rst : Item → Tried String RawRst
item_rst (rst_item r) = value r
item_rst _ = failed "another type"

abbrev item_soa : Item → Tried String RawSoa
item_soa (soa_item r) = value r
item_soa _ = failed "another type"

abbrev item_sod : Item → Tried String RawSod
item_sod (sod_item r) = value r
item_sod _ = failed "another type"

abbrev pub cbor : Cbor Item
cbor = record {
  encode_type = type_item;
  decode_type = item_type;
  encode_jn = jn_item;
  decode_jn = item_jn;
  encode_jok = jok_item;
  decode_jok = item_jok;
  encode_jdn = jdn_item;
  decode_jdn = item_jdn;
  encode_jni = jni_item;
  decode_jni = item_jni;
  encode_mem = mem_item;
  decode_mem = item_mem;
  encode_sjn = sjn_item;
  decode_sjn = item_sjn;
  encode_crr = crr_item;
  decode_crr = item_crr;
  encode_rst = rst_item;
  decode_rst = item_rst;
  encode_soa = soa_item;
  decode_soa = item_soa;
  encode_sod = sod_item;
  decode_sod = item_sod;
}

pub cbor-IsLossless : IsLossless cbor
cbor-IsLossless = record {
  type_trip = λ n. refl;
  jn_trip = λ r. refl;
  jok_trip = λ r. refl;
  jdn_trip = λ r. refl;
  jni_trip = λ r. refl;
  mem_trip = λ r. refl;
  sjn_trip = λ r. refl;
  crr_trip = λ r. refl;
  rst_trip = λ r. refl;
  soa_trip = λ r. refl;
  sod_trip = λ r. refl;
}

abbrev asked : List RawMessage
asked =
    raw_rst (build_rst print 1 2 "bye")
    ∷ raw_sjn (record { sender_session_id = "bad"; recver_session_id = "bad"; member_infos = [] })
    ∷ []

listen_ahmp-frames_example :
    listen_ahmp cbor parse try_parse (frames cbor asked ++ [])
    ≡ rst (record { sender_session_id = 1; recver_session_id = 2; message = "bye" })
      ∷ inval ("parsing SJN" ∷ "invalid UUID" ∷ [])
      ∷ []
unfolding parse_rst build_rst parse_sjn
listen_ahmp-frames_example = listen_ahmp-frames cbor parse try_parse cbor-IsLossless asked []
