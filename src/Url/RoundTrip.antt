-- ===== src/Url/RoundTrip.antt =====
-- TryParse of aurl/abyss_url.go on what ToString prints.
use mathlib.Core.List.{append_assoc}
use abyss_core.Prelude.{
  ℕ, nat_eq, true, false, List, [], ◌∷◌, ◌++◌, Option, none, some, ◌≡◌, refl, ap, arith, map,
}
use abyss_core.Interfaces.{UdpAddr}
use abyss_core.Functional.{value, failed}
use abyss_core.Url.{
  Text, AbyssUrl, colon, slash, bar, codes, cut, join, strip, trim_space, trim_start, trim_end,
  is_space, is_valid_peer_id, endpoint, endpoints, keep_addr, url_of, without_addresses,
  with_addresses, cut_body, try_parse_abyss, by_scheme, try_parse, print_from, to_string,
}
use abyss_core.Url.Pieces.{
  AllNot, AllNot-append, cut-none, cut_at, NoneHas, split-join, AllNot-join, valid-AllNot,
  trim_end-append, slash_invalid,
}

module _ (parse_ip : Text → Option (List ℕ)) (atoi : Text → Option ℕ)
    (print_addr : UdpAddr → Text) where
  -- The text of each address is read back, and has no bar and no slash.
  abbrev pub AllRead : List UdpAddr → Type 0
  AllRead [] = Unit {0}
  AllRead (a ∷ addresses) =
      (endpoint parse_ip atoi (print_addr a) ≡ some a)
      × AllNot bar (print_addr a)
      × AllNot slash (print_addr a)
      × AllRead addresses

  -- Without addresses, a colon in the path would be read rs the start of addresses.
  abbrev pub PathFits : List UdpAddr → Text → Type 0
  PathFits [] path = AllNot colon path
  PathFits (a ∷ addresses) path = Unit {0}

  pub record IsPrintable (a : AbyssUrl) : Type 0 where
    pub scheme : a.scheme ≡ codes "abyss"
    pub hash : is_valid_peer_id a.hash ≡ true
    pub addresses : AllRead a.addresses
    pub path : PathFits a.addresses a.path
    pub no_space : trim_end (slash ∷ a.path) ≡ slash ∷ a.path

  endpoints-AllRead :
      (rs : List UdpAddr) → AllRead rs → endpoints parse_ip atoi (map print_addr rs) ≡ rs
  unfolding endpoints keep_addr
  endpoints-AllRead [] h = refl
  endpoints-AllRead (a ∷ rs) h = rw (h.0) (ap (λ l. a ∷ l) (endpoints-AllRead rs h.3))

  bars : (rs : List UdpAddr) → AllRead rs → NoneHas bar (map print_addr rs)
  bars [] h = tt
  bars (a ∷ rs) h = (h.1, bars rs h.3)

  slashes : (rs : List UdpAddr) → AllRead rs → NoneHas slash (map print_addr rs)
  slashes [] h = tt
  slashes (a ∷ rs) h = (h.2, slashes rs h.3)

  -- What follows the scheme in a printed URL.
  abbrev body_of : Text → List UdpAddr → Text → Text
  body_of hash [] path = hash ++ (slash ∷ path)
  body_of hash (a ∷ rs) path =
      hash ++ (colon ∷ (join bar (map print_addr (a ∷ rs)) ++ (slash ∷ path)))

  url-valid :
      (hash : Text) (rs : List UdpAddr) (path : Text)
      → is_valid_peer_id hash ≡ true
      → url_of hash rs path
        ≡ value (record { scheme = codes "abyss"; hash = hash; addresses = rs; path = path })
  url-valid hash rs path h = rw h refl

  plain-read :
      (hash path : Text)
      → is_valid_peer_id hash ≡ true
      → AllNot colon path
      → cut_body parse_ip atoi (hash ++ (slash ∷ path)) (cut colon (hash ++ (slash ∷ path)))
        ≡ value (record { scheme = codes "abyss"; hash = hash; addresses = []; path = path })
  unfolding cut_body without_addresses
  plain-read hash path h n =
      rw
        (cut-none colon (hash ++ (slash ∷ path))
          (AllNot-append colon hash (slash ∷ path) (valid-AllNot colon hash refl refl h) (refl, n)))
        (rw (cut_at slash hash path (valid-AllNot slash hash refl refl h))
          (url-valid hash [] path h))

  addressed-read :
      (hash : Text) (a : UdpAddr) (rs : List UdpAddr) (path : Text)
      → is_valid_peer_id hash ≡ true
      → AllRead (a ∷ rs)
      → cut_body parse_ip atoi (body_of hash (a ∷ rs) path) (cut colon (body_of hash (a ∷ rs) path))
        ≡ value (record { scheme = codes "abyss"; hash = hash; addresses = a ∷ rs; path = path })
  unfolding cut_body with_addresses
  addressed-read hash a rs path h r =
      rw
        (cut_at colon hash (join bar (map print_addr (a ∷ rs)) ++ (slash ∷ path))
          (valid-AllNot colon hash refl refl h))
        (rw
          (cut_at slash (join bar (map print_addr (a ∷ rs))) path
            (AllNot-join slash bar (map print_addr (a ∷ rs)) refl (slashes (a ∷ rs) r)))
          (rw (split-join bar (print_addr a) (map print_addr rs) (bars (a ∷ rs) r))
            (rw (endpoints-AllRead (a ∷ rs) r) (url-valid hash (a ∷ rs) path h))))

  body-read :
      (hash : Text) (rs : List UdpAddr) (path : Text)
      → is_valid_peer_id hash ≡ true
      → AllRead rs
      → PathFits rs path
      → try_parse_abyss parse_ip atoi (body_of hash rs path)
        ≡ value (record { scheme = codes "abyss"; hash = hash; addresses = rs; path = path })
  unfolding try_parse_abyss is_valid_peer_id
  body-read [] rs path h r f = ground arith
  body-read (c ∷ cs) [] path h r f = plain-read (c ∷ cs) path h f
  body-read (c ∷ cs) (a ∷ rs) path h r f = addressed-read (c ∷ cs) a rs path h r

  -- The text ends in the path, after a slash.
  ends :
      (hash : Text) (rs : List UdpAddr) (path : Text)
      → (front : Text) × (print_from print_addr (codes "abyss") hash rs path
          ≡ front ++ (slash ∷ path))
  unfolding print_from
  ends hash [] path = (codes "abyss" ++ (colon ∷ hash), refl)
  ends hash (a ∷ rs) path = (
    codes "abyss" ++ (colon ∷ (hash ++ (colon ∷ join bar (map print_addr (a ∷ rs))))),
    simp append_assoc,
  )

  started :
      (hash : Text) (rs : List UdpAddr) (path : Text)
      → trim_start (print_from print_addr (codes "abyss") hash rs path)
        ≡ print_from print_addr (codes "abyss") hash rs path
  unfolding trim_start print_from is_space
  started hash [] path = refl
  started hash (a ∷ rs) path = refl

  trimmed :
      (hash : Text) (rs : List UdpAddr) (path : Text)
      → trim_end (slash ∷ path) ≡ slash ∷ path
      → trim_space (print_from print_addr (codes "abyss") hash rs path)
        ≡ print_from print_addr (codes "abyss") hash rs path
  unfolding trim_space
  trimmed hash rs path h =
      let (front, e) = ends hash rs path in
      rw (started hash rs path) (rw e (trim_end-append front slash path h))

  stripped :
      (hash : Text) (rs : List UdpAddr) (path : Text)
      → strip (codes "abyss:") (print_from print_addr (codes "abyss") hash rs path)
        ≡ some (body_of hash rs path)
  unfolding strip print_from
  stripped hash [] path = refl
  stripped hash (a ∷ rs) path = refl

  -- What ToString prints of an abyss URL, TryParse reads as that URL, where the hash is a valid peer id,
  -- each address is read back from its text, the path does not end in a space, and, if there are no
  -- addresses, the path has no colon.
  pub try_parse-to_string :
      (a : AbyssUrl) → IsPrintable a → try_parse parse_ip atoi (to_string print_addr a) ≡ value a
  unfolding try_parse by_scheme to_string
  try_parse-to_string a h = rw (h.scheme) (
      rw (trimmed a.hash a.addresses a.path h.no_space) (
        rw (stripped a.hash a.addresses a.path)
          (body-read a.hash a.addresses a.path h.hash h.addresses h.path)))

  refused_at :
      (hash rest : Text) (o : Option (Text × Text))
      → is_valid_peer_id hash ≡ false
      → with_addresses parse_ip atoi hash rest o ≡ failed "invalid peer hash"
  unfolding with_addresses
  refused_at hash rest none h = rw h refl
  refused_at hash rest (some pair) h = rw h refl

  colon-refused :
      (hash front back : Text)
      → is_valid_peer_id hash ≡ true
      → AllNot colon front
      → cut_body parse_ip atoi
          (hash ++ (slash ∷ (front ++ (colon ∷ back))))
          (cut colon (hash ++ (slash ∷ (front ++ (colon ∷ back)))))
        ≡ failed "invalid peer hash"
  unfolding cut_body
  colon-refused hash front back h n = rw (← append_assoc hash (slash ∷ front) (colon ∷ back)) (
      rw
        (cut_at colon (hash ++ (slash ∷ front)) back (
          AllNot-append colon hash (slash ∷ front) (valid-AllNot colon hash refl refl h) (refl, n)))
        (refused_at (hash ++ (slash ∷ front)) back (cut slash back) (slash_invalid hash front)))

  body-refused :
      (hash front back : Text)
      → is_valid_peer_id hash ≡ true
      → AllNot colon front
      → try_parse_abyss parse_ip atoi (body_of hash [] (front ++ (colon ∷ back)))
        ≡ failed "invalid peer hash"
  unfolding try_parse_abyss is_valid_peer_id
  body-refused [] front back h n = ground arith
  body-refused (c ∷ cs) front back h n = colon-refused (c ∷ cs) front back h n

  -- What ToString prints of an abyss URL with a valid hash, without addresses and with a colon in its path
  -- (which does not end in a space), TryParse refuses: it takes the text up to that colon for the hash.
  pub colon_path-refused :
      (hash front back : Text)
      → is_valid_peer_id hash ≡ true
      → AllNot colon front
      → trim_end (slash ∷ (front ++ (colon ∷ back))) ≡ slash ∷ (front ++ (colon ∷ back))
      → try_parse parse_ip atoi (
          to_string print_addr (record {
            scheme = codes "abyss";
            hash = hash;
            addresses = [];
            path = front ++ (colon ∷ back);
          }))
        ≡ failed "invalid peer hash"
  unfolding try_parse by_scheme to_string
  colon_path-refused hash front back h n t =
      rw (trimmed hash [] (front ++ (colon ∷ back)) t) (body-refused hash front back h n)
