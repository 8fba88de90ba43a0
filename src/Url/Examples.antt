-- ===== src/Url/Examples.antt =====
-- URLs with concrete texts: the one address that can be read is 8.8.8.8:443.
use abyss_core.Prelude.{ℕ, List, [], ◌∷◌, Option, none, some, nat_eq, if◌then◌else◌, ◌≡◌, refl}
use abyss_core.Interfaces.{UdpAddr}
use abyss_core.Functional.{value, failed}
use abyss_core.Net.Addresses.{same_bytes, mapped}
use abyss_core.Url.{
  Text, AbyssUrl, codes, bar, slash, try_parse, to_string, is_valid_peer_id, trim_end, is_space,
  all_base58, is_base58, endpoint, split, bracketed, plain_pair, addr_of, cut,
}
use abyss_core.Url.Pieces.{AllNot}
use abyss_core.Url.RoundTrip.{try_parse-to_string, colon_path-refused}

abbrev far : UdpAddr
far = record { ip = mapped (8 ∷ 8 ∷ 8 ∷ 8 ∷ []); port = 443 }

abbrev parse_ip : Text → Option (List ℕ)
parse_ip t = if same_bytes t (codes "8.8.8.8") then some far.ip else none

abbrev atoi : Text → Option ℕ
atoi t = if same_bytes t (codes "443") then some 443 else none

abbrev print_addr : UdpAddr → Text
print_addr a = codes "8.8.8.8:443"

abbrev hash : Text
hash = codes "Iabcdefghijkmnopqrstuvwxyz12345678"

abbrev url : AbyssUrl
url = record { scheme = codes "abyss"; hash = hash; addresses = far ∷ []; path = codes "room" }

without_bar : AllNot bar (print_addr far)
without_bar =
    (refl, (refl, (refl, (refl, (refl, (refl, (refl, (refl, (refl, (refl, (refl, tt)))))))))))

without_slash : AllNot slash (print_addr far)
without_slash =
    (refl, (refl, (refl, (refl, (refl, (refl, (refl, (refl, (refl, (refl, (refl, tt)))))))))))

try_parse-to_string_example : try_parse parse_ip atoi (to_string print_addr url) ≡ value url
unfolding is_valid_peer_id all_base58 is_base58 trim_end is_space endpoint split bracketed
    plain_pair addr_of cut
try_parse-to_string_example = try_parse-to_string parse_ip atoi print_addr url (record {
  scheme = refl;
  hash = refl;
  addresses = (refl, without_bar, without_slash, tt);
  path = tt;
  no_space = refl;
})

colon_path-refused_example :
    try_parse parse_ip atoi (
      to_string print_addr
        (record { scheme = codes "abyss"; hash = hash; addresses = []; path = codes "a:b" }))
    ≡ failed "invalid peer hash"
unfolding is_valid_peer_id all_base58 is_base58 trim_end is_space
colon_path-refused_example =
    colon_path-refused parse_ip atoi print_addr hash (codes "a") (codes "b") refl (refl, tt) refl
