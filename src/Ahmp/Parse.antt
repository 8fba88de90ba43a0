-- ===== src/Ahmp/Parse.antt =====
-- The `TryParse` methods of ahmp/raw_message.go. `uuid.Parse` (github.com/google/uuid) and
-- aurl.TryParse are parameters.
use abyss_core.Prelude.{String, List, Option, none, some}
use abyss_core.Functional.{Tried, value, failed, filter_strict_ok, filter_until_err}
use abyss_core.Interfaces.{
  Uuid, Aurl, AndFullPeerSessionIdentity, AndPeerSessionIdentity, ObjectInfo,
}
use abyss_core.Ahmp.{
  unix_milli, RawSessionInfoForDiscovery, RawSessionInfoForSjn, RawObjectInfo, RawJn, RawJok,
  RawJdn, RawJni, RawMem, RawSjn, RawCrr, RawRst, RawSoa, RawSod, Jn, Jok, Jdn, Jni, Mem, Sjn, Crr,
  Rst, Soa, Sod,
}

-- `if err != nil { return nil, err }`
infixl 5 ◌>>=◌
abbrev pub ◌>>=◌ : {A B : Type 0} → Tried String A → (A → Tried String B) → Tried String B
◌>>=◌ (failed err) f = failed err
◌>>=◌ (value a) f = f a

abbrev pub is_ok : {A : Type 0} → Tried String A → Option A
is_ok (failed err) = none
is_ok (value a) = some a

-- Filter_until_err where only its list and its error are used.
abbrev pub all_or_error : {A B : Type 0} → List A × List B × Option String → Tried String (List A)
all_or_error (result, rest, none) = value result
all_or_error (result, rest, some err) = failed err

module _ (parse : String → Tried String Uuid) where
  unfoldable pub parse_jn : RawJn → Tried String Jn
  unfolding unix_milli
  parse_jn r = do
    ssid ← parse r.sender_session_id
    value (record { sender_session_id = ssid; text = r.text; time_stamp = unix_milli r.time_stamp })

  unfoldable pub parse_jdn : RawJdn → Tried String Jdn
  parse_jdn r = do
    rsid ← parse r.recver_session_id
    value (record { recver_session_id = rsid; text = r.text; code = r.code })

  unfoldable pub parse_mem : RawMem → Tried String Mem
  unfolding unix_milli
  parse_mem r = do
    ssid ← parse r.sender_session_id
    rsid ← parse r.recver_session_id
    value (record {
      sender_session_id = ssid;
      recver_session_id = rsid;
      time_stamp = unix_milli r.time_stamp;
    })

  unfoldable pub member_info : RawSessionInfoForSjn → Tried String AndPeerSessionIdentity
  member_info i = do
    id ← parse i.session_id
    value (record { peer_hash = i.peer_hash; session_id = id })

  unfoldable pub parse_sjn : RawSjn → Tried String Sjn
  unfolding member_info filter_until_err
  parse_sjn r = do
    ssid ← parse r.sender_session_id
    rsid ← parse r.recver_session_id
    infos ← all_or_error (filter_until_err r.member_infos member_info)
    value (record { sender_session_id = ssid; recver_session_id = rsid; member_infos = infos })

  unfoldable pub parse_crr : RawCrr → Tried String Crr
  unfolding member_info filter_until_err
  parse_crr r = do
    ssid ← parse r.sender_session_id
    rsid ← parse r.recver_session_id
    infos ← all_or_error (filter_until_err r.member_infos member_info)
    value (record { sender_session_id = ssid; recver_session_id = rsid; member_infos = infos })

  unfoldable pub parse_rst : RawRst → Tried String Rst
  parse_rst r = do
    ssid ← parse r.sender_session_id
    rsid ← parse r.recver_session_id
    value (record { sender_session_id = ssid; recver_session_id = rsid; message = r.message })

  unfoldable pub object_info : RawObjectInfo → Tried String ObjectInfo
  object_info o = do
    oid ← parse o.id
    value (record { id = oid; addr = o.address; transform = o.transform })

  unfoldable pub parse_soa : RawSoa → Tried String Soa
  unfolding object_info filter_until_err
  parse_soa r = do
    ssid ← parse r.sender_session_id
    rsid ← parse r.recver_session_id
    objects ← all_or_error (filter_until_err r.objects object_info)
    value (record { sender_session_id = ssid; recver_session_id = rsid; objects = objects })

  unfoldable pub parse_sod : RawSod → Tried String Sod
  unfolding filter_until_err
  parse_sod r = do
    ssid ← parse r.sender_session_id
    rsid ← parse r.recver_session_id
    oids ← all_or_error (filter_until_err r.object_ids parse)
    value (record { sender_session_id = ssid; recver_session_id = rsid; object_ids = oids })

module _ (parse : String → Tried String Uuid) (try_parse : String → Tried String Aurl) where
  unfoldable pub neighbor : RawSessionInfoForDiscovery → Tried String AndFullPeerSessionIdentity
  unfolding unix_milli
  neighbor i = do
    abyss_url ← try_parse i.aurl
    psid ← parse i.session_id
    value (record {
      aurl = abyss_url;
      session_id = psid;
      time_stamp = unix_milli i.time_stamp;
      root_certificate_der = i.root_certificate_der;
      handshake_key_certificate_der = i.handshake_key_certificate_der;
    })

  -- The neighbors of a JOK, under `if !ok`.
  neighbors_of :
      Option (List AndFullPeerSessionIdentity) → Tried String (List AndFullPeerSessionIdentity)
  neighbors_of none = failed "failed to parse session information"
  neighbors_of (some neig) = value neig

  unfoldable pub parse_jok : RawJok → Tried String Jok
  unfolding neighbor neighbors_of filter_strict_ok unix_milli
  parse_jok r = do
    ssid ← parse r.sender_session_id
    rsid ← parse r.recver_session_id
    neig ← neighbors_of (filter_strict_ok r.neighbors (λ i. is_ok (neighbor i)))
    value (record {
      sender_session_id = ssid;
      recver_session_id = rsid;
      time_stamp = unix_milli r.time_stamp;
      neighbors = neig;
      text = r.text;
    })

  unfoldable pub parse_jni : RawJni → Tried String Jni
  unfolding neighbor
  parse_jni r = do
    ssid ← parse r.sender_session_id
    rsid ← parse r.recver_session_id
    info ← neighbor r.neighbor
    value (record { sender_session_id = ssid; recver_session_id = rsid; neighbor = info })
