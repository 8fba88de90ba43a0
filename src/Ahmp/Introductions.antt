-- ===== src/Ahmp/Introductions.antt =====
-- The messages that introduce peers, JOK and JNI, from the builder to the parser.
use abyss_core.Prelude.{String, List, [], ◌∷◌, some, ◌≡◌, refl, ap}
use abyss_core.Functional.{Tried, value, Yields, filter_strict_ok-Yields}
use abyss_core.Interfaces.{
  Uuid, Time, Aurl, Peer, AndPeerSessionWithTimeStamp, AndFullPeerSessionIdentity,
}
use abyss_core.Ahmp.{unix_milli, milli_of, RawJok, RawJni, RawSessionInfoForDiscovery}
use abyss_core.Ahmp.Parse.{parse_jok, parse_jni, neighbor, is_ok}
use abyss_core.Ahmp.Build.{build_jok, build_jni, raw_neighbor, raw_neighbors, raw_session}
use abyss_core.Ahmp.RoundTrips.{IsPrinted}

-- What a peer learns of the session `s` of the peer `q`.
unfoldable pub identity_of : AndPeerSessionWithTimeStamp → Peer → AndFullPeerSessionIdentity
unfolding unix_milli milli_of
identity_of s q = record {
  aurl = q.aurl;
  session_id = s.session.peer_session_id;
  time_stamp = unix_milli (milli_of s.time_stamp);
  root_certificate_der = q.root_certificate_der;
  handshake_key_certificate_der = q.handshake_key_certificate_der;
}

module _ (parse : String → Tried String Uuid) (print : Uuid → String)
    (try_parse : String → Tried String Aurl) (to_string : Aurl → String) where
  -- The session has a peer, whose URL is read back as its session id is.
  abbrev pub IsCarried : AndPeerSessionWithTimeStamp → AndFullPeerSessionIdentity → Type 0
  IsCarried s m =
      (q : Peer) × (s.session.peer ≡ some q)
      × (m ≡ identity_of s q)
      × IsPrinted parse print s.session.peer_session_id
      × (try_parse (to_string q.aurl) ≡ value q.aurl)

  abbrev pub AllCarried :
      List AndPeerSessionWithTimeStamp → List AndFullPeerSessionIdentity → Type 0
  AllCarried [] [] = Unit {0}
  AllCarried (s ∷ ss) (m ∷ ms) = IsCarried s m × AllCarried ss ms
  AllCarried _ _ = ⊥

  carried :
      (s : AndPeerSessionWithTimeStamp) (m : AndFullPeerSessionIdentity)
      → IsCarried s m
      → (r : RawSessionInfoForDiscovery) × (raw_neighbor print to_string s ≡ some r)
        × (neighbor parse try_parse r ≡ value m)
  unfolding raw_neighbor neighbor identity_of raw_session
  carried s m (q, e, e', h, h') = (raw_session print to_string s q, rw e refl, rw (h, h', e') refl)

  all_carried :
      (ss : List AndPeerSessionWithTimeStamp) (ms : List AndFullPeerSessionIdentity)
      → AllCarried ss ms
      → (rs : List RawSessionInfoForDiscovery) × (raw_neighbors print to_string ss ≡ some rs)
        × Yields (λ i. is_ok (neighbor parse try_parse i)) rs ms
  unfolding raw_neighbors
  all_carried [] [] h = ([], refl, tt)
  all_carried [] (m ∷ ms) h = absurd h
  all_carried (s ∷ ss) [] h = absurd h
  all_carried (s ∷ ss) (m ∷ ms) h =
      let (r, e, f) = carried s m h.0 in
      let (rs, e', f') = all_carried ss ms h.1 in
      (r ∷ rs, rw (e, raw_neighbors) (rw e' refl), (ap is_ok f, f'))

  module _ (lsid psid : Uuid) (h : IsPrinted parse print lsid)
      (h' : IsPrinted parse print psid) where
    -- A JNI is built for a session with a peer, and is parsed as the identity of that session, where
    -- the session ids and the peer's URL are read back. Of the time only the milliseconds are kept.
    pub jni-build :
        (s : AndPeerSessionWithTimeStamp) (m : AndFullPeerSessionIdentity)
        → IsCarried s m
        → (raw : RawJni) × (build_jni print to_string lsid psid s ≡ some raw)
          × (parse_jni parse try_parse raw
              ≡ value (record { sender_session_id = lsid; recver_session_id = psid; neighbor = m }))
    unfolding build_jni parse_jni
    jni-build s m c =
        let (r, e, f) = carried s m c in
        (
          record { sender_session_id = print lsid; recver_session_id = print psid; neighbor = r },
          rw e refl,
          rw (h, h', f) refl,
        )

    -- A JOK whose sessions all have a peer is built, and is parsed as the identities of those
    -- sessions in their order, where all session ids and URLs are read back. Of each time only the
    -- milliseconds are kept.
    pub jok-build :
        (t : Time) (url : String) (ss : List AndPeerSessionWithTimeStamp)
        (ms : List AndFullPeerSessionIdentity)
        → AllCarried ss ms
        → (raw : RawJok) × (build_jok print to_string lsid psid t url ss ≡ some raw)
          × (parse_jok parse try_parse raw
              ≡ value (record {
                sender_session_id = lsid;
                recver_session_id = psid;
                time_stamp = unix_milli (milli_of t);
                neighbors = ms;
                text = url;
              }))
    unfolding build_jok parse_jok
    jok-build t url ss ms c =
        let (rs, e, f) = all_carried ss ms c in
        (
          record {
            sender_session_id = print lsid;
            recver_session_id = print psid;
            time_stamp = milli_of t;
            text = url;
            neighbors = rs;
          },
          rw e refl,
          rw (h, h', (filter_strict_ok-Yields (λ i. is_ok (neighbor parse try_parse i)) rs ms f).0)
              refl,
        )
