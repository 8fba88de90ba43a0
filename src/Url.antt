-- ===== src/Url.antt =====
-- aurl/abyss_url.go: the texts of abyss URLs. A text is the list of its code points. net.ParseIP,
-- strconv.Atoi (for ports that are not negative) and UDPAddr.String of Go are parameters.
pub mod Pieces
pub mod RoundTrip
mod Examples
use Prim.Native.Char.{code}
use abyss_core.Prelude.{
  ℕ, suc, String, nat_eq, Bool, true, false, not, ◌&&◌, ◌||◌, List, [], ◌∷◌, ◌++◌, Option, none,
  some, ◌==◌, ltb, leb, if◌then◌else◌, map,
}
use abyss_core.Interfaces.{UdpAddr}
use abyss_core.Functional.{Tried, value, failed}

abbrev pub Text : Type 0
Text = List ℕ

abbrev pub codes : String → Text
codes String.[] = []
codes (String.◌∷◌ c s) = code c ∷ codes s

-- ':', '/', '|', '[' and ']'.
abbrev pub colon : ℕ
colon = 58

abbrev pub slash : ℕ
slash = 47

abbrev pub bar : ℕ
bar = 124

abbrev pub bracket : ℕ
bracket = 91

abbrev pub close_bracket : ℕ
close_bracket = 93

pub record AbyssUrl : Type 0 where
  pub scheme : Text
  pub hash : Text
  pub addresses : List UdpAddr
  pub path : Text

-- The text before and after the first `c`: strings.Index and the two slices.
unfoldable pub cut : ℕ → Text → Option (Text × Text)
cut c [] = none
cut c (x ∷ xs) =
    let rest = cut c xs in
    if x == c
    then some ([], xs)
    else elim rest [ none ↦ none | some pair ↦ some (x ∷ pair.0, pair.1) ]

abbrev pub push : ℕ → List Text → List Text
push x [] = (x ∷ []) ∷ []
push x (p ∷ ps) = (x ∷ p) ∷ ps

-- strings.Split and strings.Join.
unfoldable pub split : ℕ → Text → List Text
split c [] = [] ∷ []
split c (x ∷ xs) = let rest = split c xs in if x == c then [] ∷ rest else push x rest

unfoldable pub join : ℕ → List Text → Text
join c [] = []
join c (p ∷ []) = p
join c (p ∷ q ∷ ps) = p ++ (c ∷ join c (q ∷ ps))

-- The text after a prefix.
unfoldable pub strip : Text → Text → Option Text
strip [] t = some t
strip (p ∷ ps) [] = none
strip (p ∷ ps) (x ∷ xs) = let rest = strip ps xs in if x == p then rest else none

-- unicode.IsSpace.
unfoldable pub is_space : ℕ → Bool
is_space c =
    (leb 9 c && leb c 13)
    || (c == 32)
    || (c == 133)
    || (c == 160)
    || (c == 5760)
    || (leb 8192 c && leb c 8202)
    || (c == 8232)
    || (c == 8233)
    || (c == 8239)
    || (c == 8287)
    || (c == 12288)

unfoldable pub trim_start : Text → Text
unfolding is_space
trim_start [] = []
trim_start (x ∷ xs) = let rest = trim_start xs in if is_space x then rest else x ∷ xs

abbrev pub put_before : ℕ → Text → Text
put_before x [] = if is_space x then [] else x ∷ []
put_before x (y ∷ ys) = x ∷ y ∷ ys

-- A space stays only before something that stays.
unfoldable pub trim_end : Text → Text
unfolding is_space
trim_end [] = []
trim_end (x ∷ xs) = put_before x (trim_end xs)

-- strings.TrimSpace.
unfoldable pub trim_space : Text → Text
unfolding trim_start trim_end
trim_space t = trim_end (trim_start t)

-- The characters of base58Chars.
unfoldable pub is_base58 : ℕ → Bool
is_base58 c =
    (leb 49 c && leb c 57)
    || ((leb 65 c && leb c 90) && not (c == 73) && not (c == 79))
    || ((leb 97 c && leb c 122) && not (c == 108))

unfoldable pub all_base58 : Text → Bool
unfolding is_base58
all_base58 [] = true
all_base58 (c ∷ cs) = is_base58 c && all_base58 cs

abbrev pub length : Text → ℕ
length [] = 0
length (c ∷ cs) = suc (length cs)

-- A character beyond ASCII is none of base58, so bytes and characters need not be told apart.
unfoldable pub is_valid_peer_id : Text → Bool
unfolding all_base58
is_valid_peer_id [] = false
is_valid_peer_id (c ∷ cs) =
    not (ltb (length (c ∷ cs)) 32) && (leb 65 c && leb c 90) && all_base58 cs

abbrev pub abyss : Text
abyss = codes "abyss"

abbrev pub url_of : Text → List UdpAddr → Text → Tried String AbyssUrl
url_of hash addresses path =
    if is_valid_peer_id hash
    then value (record { scheme = abyss; hash = hash; addresses = addresses; path = path })
    else failed "invalid peer hash"

-- An endpoint that is not read is left out.
unfoldable pub keep_addr : Option UdpAddr → List UdpAddr → List UdpAddr
keep_addr none rest = rest
keep_addr (some a) rest = a ∷ rest

module _ (parse_ip : Text → Option (List ℕ)) (atoi : Text → Option ℕ) where
  -- The address of an IP and a port, if both are read.
  unfoldable pub addr_of : Option (List ℕ) → Option ℕ → Option UdpAddr
  addr_of none port = none
  addr_of (some ip) none = none
  addr_of (some ip) (some port) = some (record { ip = ip; port = port })

  -- `[ip]:port`, after the bracket: the rest must begin with a colon.
  unfoldable pub bracketed : Option (Text × Text) → Option UdpAddr
  unfolding addr_of
  bracketed none = none
  bracketed (some (ip, [])) = none
  bracketed (some (ip, c ∷ port)) = if c == colon then addr_of (parse_ip ip) (atoi port) else none

  -- `ip:port`, cut at each colon.
  unfoldable pub plain_pair : List Text → Option UdpAddr
  unfolding addr_of
  plain_pair (ip ∷ port ∷ []) = addr_of (parse_ip ip) (atoi port)
  plain_pair _ = none

  unfoldable pub endpoint : Text → Option UdpAddr
  unfolding bracketed plain_pair cut split
  endpoint [] = none
  endpoint (c ∷ ep) =
      if c == bracket then bracketed (cut close_bracket ep) else plain_pair (split colon (c ∷ ep))

  unfoldable pub endpoints : List Text → List UdpAddr
  unfolding endpoint keep_addr
  endpoints [] = []
  endpoints (ep ∷ eps) = keep_addr (endpoint ep) (endpoints eps)

  -- Without a colon: the hash, and the path after a slash.
  unfoldable pub without_addresses : Text → Option (Text × Text) → Tried String AbyssUrl
  unfolding is_valid_peer_id
  without_addresses body none = url_of body [] []
  without_addresses body (some (hash, path)) = url_of hash [] path

  -- After the colon: the addresses, up to the path. A valid hash has no slash, so the first slash of
  -- the body is the first one after the colon.
  unfoldable pub with_addresses : Text → Text → Option (Text × Text) → Tried String AbyssUrl
  unfolding is_valid_peer_id endpoints split
  with_addresses hash rest none = url_of hash (endpoints (split bar rest)) []
  with_addresses hash rest (some (addrs, path)) = url_of hash (endpoints (split bar addrs)) path

  unfoldable pub cut_body : Text → Option (Text × Text) → Tried String AbyssUrl
  unfolding without_addresses with_addresses cut
  cut_body body none = without_addresses body (cut slash body)
  cut_body body (some (hash, rest)) = with_addresses hash rest (cut slash rest)

  unfoldable pub try_parse_abyss : Text → Tried String AbyssUrl
  unfolding cut_body cut
  try_parse_abyss [] = failed "empty address"
  try_parse_abyss (c ∷ body) = cut_body (c ∷ body) (cut colon (c ∷ body))

  -- Only a hash without a path is validated.
  unfoldable pub abyst_body : Text → Option (Text × Text) → Tried String AbyssUrl
  unfolding is_valid_peer_id
  abyst_body body none =
      if is_valid_peer_id body
      then value (record { scheme = codes "abyst"; hash = body; addresses = []; path = [] })
      else failed "invalid peer hash"
  abyst_body body (some (hash, path)) =
      value (record { scheme = codes "abyst"; hash = hash; addresses = []; path = path })

  unfoldable pub try_parse_abyst : Text → Tried String AbyssUrl
  unfolding abyst_body cut
  try_parse_abyst body = abyst_body body (cut slash body)

  unfoldable pub by_scheme : Option Text → Option Text → Tried String AbyssUrl
  unfolding try_parse_abyss try_parse_abyst
  by_scheme (some body) b = try_parse_abyss body
  by_scheme none (some body) = try_parse_abyst body
  by_scheme none none = failed "invalid scheme"

  unfoldable pub try_parse : Text → Tried String AbyssUrl
  unfolding by_scheme strip trim_space
  try_parse input =
      by_scheme (strip (codes "abyss:") (trim_space input))
        (strip (codes "abyst:") (trim_space input))

module _ (print_addr : UdpAddr → Text) where
  unfoldable pub print_from : Text → Text → List UdpAddr → Text → Text
  unfolding join
  print_from scheme hash [] path = scheme ++ (colon ∷ (hash ++ (slash ∷ path)))
  print_from scheme hash (a ∷ addresses) path =
      scheme
      ++ (colon ∷ (hash ++ (colon ∷ (join bar (map print_addr (a ∷ addresses)) ++ (slash ∷ path)))))

  unfoldable pub to_string : AbyssUrl → Text
  unfolding print_from
  to_string a = print_from a.scheme a.hash a.addresses a.path
