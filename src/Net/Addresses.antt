-- ===== src/Net/Addresses.antt =====
-- net_service/address_selector.go: which of a peer's addresses to dial. The methods of `net.IP` are
-- those of Go's package net.
pub mod Choosing
use abyss_core.Prelude.{
  ℕ, Bool, true, false, not, ◌&&◌, ◌||◌, List, [], ◌∷◌, ◌++◌, Option, none, some, ◌==◌, nat_eq,
  if◌then◌else◌, ◌≡◌, refl, Bool-cases, inl, inr, ◌∙◌, sym, ap,
}
use abyss_core.Interfaces.{UdpAddr}

abbrev pub Ip : Type 0
Ip = List ℕ

abbrev pub same_bytes : List ℕ → List ℕ → Bool
same_bytes [] [] = true
same_bytes [] (y ∷ ys) = false
same_bytes (x ∷ xs) [] = false
same_bytes (x ∷ xs) (y ∷ ys) = (x == y) && same_bytes xs ys

-- The bytes of an IPv4 address in 16 bytes.
abbrev pub mapped : List ℕ → Ip
mapped bytes = 0 ∷ 0 ∷ 0 ∷ 0 ∷ 0 ∷ 0 ∷ 0 ∷ 0 ∷ 0 ∷ 0 ∷ 255 ∷ 255 ∷ bytes

-- An address of 4 bytes in 16 bytes; others as they are.
abbrev pub to_16 : Ip → Ip
to_16 (a ∷ b ∷ c ∷ d ∷ []) = mapped (a ∷ b ∷ c ∷ d ∷ [])
to_16 ip = ip

-- `IP.Equal`: an IPv4 address and the same address in 16 bytes are equal.
abbrev pub ip_equal : Ip → Ip → Bool
ip_equal ip x = same_bytes (to_16 ip) (to_16 x)

abbrev pub ipv4_zero : Ip
ipv4_zero = mapped (0 ∷ 0 ∷ 0 ∷ 0 ∷ [])

abbrev pub ipv4_bcast : Ip
ipv4_bcast = mapped (255 ∷ 255 ∷ 255 ∷ 255 ∷ [])

pub record BetaAddressSelector : Type 0 where
  pub local_private_addr : Ip
  pub local_public_addr : Ip

unfoldable pub set_public_ip : Ip → BetaAddressSelector → BetaAddressSelector
set_public_ip ip s = record s { local_public_addr = ip }

-- What the loop makes of one address. `bad` is an index out of range.
pub data Candidate : Type 0 where
  skipped loopback private_one public_one bad : Candidate

-- `address.IP[0] == 192 && address.IP[1] == 168`; none if an index is out of range.
unfoldable pub is_private : Ip → Option Bool
is_private [] = none
is_private (a ∷ []) = if a == 192 then none else some false
is_private (a ∷ b ∷ rest) = some ((a == 192) && (b == 168))

unfoldable pub after_private : Option Bool → Bool → Candidate
after_private none is_pub_eq = bad
after_private (some true) is_pub_eq = private_one
after_private (some false) is_pub_eq = if is_pub_eq then skipped else public_one

unfoldable pub classify : BetaAddressSelector → UdpAddr → Candidate
unfolding after_private is_private
classify s a =
    if ip_equal a.ip ipv4_zero || ip_equal a.ip ipv4_bcast
    then skipped
    else if ip_equal a.ip (127 ∷ 0 ∷ 0 ∷ 1 ∷ [])
    then loopback
    else after_private (is_private a.ip) (ip_equal a.ip s.local_public_addr)

pub record Found : Type 0 where
  pub public_addresses : List UdpAddr
  pub loopbackaddr : Option UdpAddr
  pub privateaddr : Option UdpAddr

abbrev pub note : Candidate → UdpAddr → Found → Option Found
note skipped a f = some f
note loopback a f = some (record f { loopbackaddr = some a })
note private_one a f = some (record f { privateaddr = some a })
note public_one a f = some (record f { public_addresses = f.public_addresses ++ (a ∷ []) })
note bad a f = none

module _ (s : BetaAddressSelector) where
  abbrev pub collect_next : Option Found → (Found → Option Found) → Option Found
  collect_next none k = none
  collect_next (some f) k = k f

  unfoldable pub collect : List UdpAddr → Found → Option Found
  unfolding classify
  collect [] f = some f
  collect (a ∷ addresses) f = collect_next (note (classify s a) a f) (collect addresses)

  -- The choice after the loop, where no public address was found.
  unfoldable pub local_choice : Option UdpAddr → Option UdpAddr → List UdpAddr
  local_choice none none = []
  local_choice (some lo) none = lo ∷ []
  local_choice none (some pr) = if ip_equal pr.ip s.local_private_addr then [] else pr ∷ []
  local_choice (some lo) (some pr) =
      if ip_equal pr.ip s.local_private_addr then lo ∷ [] else pr ∷ []

  unfoldable pub choose : List UdpAddr → Option UdpAddr → Option UdpAddr → List UdpAddr
  unfolding local_choice
  choose [] lo pr = local_choice lo pr
  choose (a ∷ rest) lo pr = a ∷ rest

  unfoldable pub choice : Option Found → Option (List UdpAddr)
  unfolding choose
  choice none = none
  choice (some f) = some (choose f.public_addresses f.loopbackaddr f.privateaddr)

  unfoldable pub filter_address_candidates : List UdpAddr → Option (List UdpAddr)
  unfolding collect choice
  filter_address_candidates addresses = choice (
      collect addresses (record { public_addresses = []; loopbackaddr = none; privateaddr = none }))
