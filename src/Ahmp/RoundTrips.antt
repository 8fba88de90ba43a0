-- ===== src/Ahmp/RoundTrips.antt =====
-- A message that a host builds is the message that its peer parses.
use Prim.Native.Nat.{◌^◌}
use abyss_core.Prelude.{String, List, [], ◌∷◌, ◌≡◌, refl, ◌≤◌, ◌<◌, ◌+◌, ◌*◌, arith, map}
use abyss_core.Functional.{Tried, value, filter, filter_until_err-Answers, Answers}
use abyss_core.Interfaces.{Uuid, Time, AndPeerSessionIdentity, ObjectInfo}
use abyss_core.Ahmp.{unix_milli, milli_of}
use abyss_core.Ahmp.Parse.{
  parse_mem, parse_sjn, parse_crr, parse_soa, parse_sod, member_info, object_info,
}
use abyss_core.Ahmp.Build.{
  build_mem, build_sjn, build_crr, build_soa, build_sod, raw_member, raw_object,
}

-- A time on the wire loses its part below a millisecond, while its milliseconds fit an int64.
pub milli_trip :
    (t : Time)
    → t < 2 ^ 64 * 1000000
    → (unix_milli (milli_of t) ≤ t) × (t < unix_milli (milli_of t) + 1000000)
unfolding unix_milli milli_of
milli_trip t h = (omega arith, omega arith)

-- The text of a session id is read back as that id.
abbrev pub IsPrinted : (String → Tried String Uuid) → (Uuid → String) → Uuid → Type 0
IsPrinted parse print u = parse (print u) ≡ value u

abbrev pub AllPrinted : (String → Tried String Uuid) → (Uuid → String) → List Uuid → Type 0
AllPrinted parse print [] = Unit {0}
AllPrinted parse print (u ∷ us) = IsPrinted parse print u × AllPrinted parse print us

module _ (parse : String → Tried String Uuid) (print : Uuid → String) where
  members-Answers :
      (ms : List AndPeerSessionIdentity)
      → AllPrinted parse print (map (λ m. m.session_id) ms)
      → Answers (member_info parse) (filter ms (raw_member print)) ms
  unfolding member_info filter raw_member
  members-Answers [] h = tt
  members-Answers (m ∷ ms) h = (rw (h.0), members-Answers ms h.1)

  objects-Answers :
      (os : List ObjectInfo)
      → AllPrinted parse print (map (λ o. o.id) os)
      → Answers (object_info parse) (filter os (raw_object print)) os
  unfolding object_info filter raw_object
  objects-Answers [] h = tt
  objects-Answers (o ∷ os) h = (rw (h.0), objects-Answers os h.1)

  ids-Answers : (us : List Uuid) → AllPrinted parse print us → Answers parse (filter us print) us
  unfolding filter
  ids-Answers [] h = tt
  ids-Answers (u ∷ us) h = (h.0, ids-Answers us h.1)

  module _ (lsid psid : Uuid) (h : IsPrinted parse print lsid)
      (h' : IsPrinted parse print psid) where
    -- An SJN whose session ids are all read back is parsed as the members that it was built from.
    pub sjn-build :
        (ms : List AndPeerSessionIdentity)
        → AllPrinted parse print (map (λ m. m.session_id) ms)
        → parse_sjn parse (build_sjn print lsid psid ms)
          ≡ value (record { sender_session_id = lsid; recver_session_id = psid; member_infos = ms })
    unfolding parse_sjn build_sjn
    sjn-build ms all = rw (h, h', filter_until_err-Answers _ _ ms (members-Answers ms all)) refl

    -- A CRR whose session ids are all read back is parsed as the members that it was built from.
    pub crr-build :
        (ms : List AndPeerSessionIdentity)
        → AllPrinted parse print (map (λ m. m.session_id) ms)
        → parse_crr parse (build_crr print lsid psid ms)
          ≡ value (record { sender_session_id = lsid; recver_session_id = psid; member_infos = ms })
    unfolding parse_crr build_crr
    crr-build ms all = rw (h, h', filter_until_err-Answers _ _ ms (members-Answers ms all)) refl

    -- An SOA is parsed as the objects that it was built from, where all ids are read back.
    pub soa-build :
        (os : List ObjectInfo)
        → AllPrinted parse print (map (λ o. o.id) os)
        → parse_soa parse (build_soa print lsid psid os)
          ≡ value (record { sender_session_id = lsid; recver_session_id = psid; objects = os })
    unfolding parse_soa build_soa
    soa-build os all = rw (h, h', filter_until_err-Answers _ _ os (objects-Answers os all)) refl

    -- An SOD is parsed as the object ids that it was built from, where all ids are read back.
    pub sod-build :
        (us : List Uuid)
        → AllPrinted parse print us
        → parse_sod parse (build_sod print lsid psid us)
          ≡ value (record { sender_session_id = lsid; recver_session_id = psid; object_ids = us })
    unfolding parse_sod build_sod
    sod-build us all = rw (h, h', filter_until_err-Answers _ _ us (ids-Answers us all)) refl

    -- A MEM keeps its session ids, and its time up to less than a millisecond, where the ids are
    -- read back and the time's milliseconds fit an int64.
    pub mem-build :
        (t : Time)
        → t < 2 ^ 64 * 1000000
        → (u : Time) × (parse_mem parse (build_mem print lsid psid t)
            ≡ value (record { sender_session_id = lsid; recver_session_id = psid; time_stamp = u }))
          × (u ≤ t)
          × (t < u + 1000000)
    unfolding parse_mem build_mem
    mem-build t small =
        let (below, above) = milli_trip t small in
        (unix_milli (milli_of t), rw (h, h') refl, below, above)
