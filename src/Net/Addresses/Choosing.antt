-- ===== src/Net/Addresses/Choosing.antt =====
-- What FilterAddressCandidates of net_service/address_selector.go leaves.
use mathlib.Core.List.{append-nil, append_assoc}
use abyss_core.Prelude.{
  ℕ, false, List, [], ◌∷◌, ◌++◌, Option, none, some, ◌≡◌, refl, Bool-cases, inl, inr, ◌∙◌, subst,
  nat_eq, arith,
}
use abyss_core.Interfaces.{UdpAddr}
use abyss_core.Net.Addresses.{
  BetaAddressSelector, Candidate, skipped, loopback, private_one, public_one, bad, classify, note,
  Found, collect_next, collect, local_choice, choose, choice, filter_address_candidates, ip_equal,
  mapped, is_private, after_private,
}

some_inj : {A : Type 0} {x y : A} → some x ≡ some y → x ≡ y
some_inj e = cc

module _ (s : BetaAddressSelector) where
  abbrev AllPublic : List UdpAddr → Type 0
  AllPublic [] = Unit {0}
  AllPublic (a ∷ rest) = (classify s a ≡ public_one) × AllPublic rest

  append-AllPublic :
      (xs : List UdpAddr) (a : UdpAddr)
      → AllPublic xs
      → classify s a ≡ public_one
      → AllPublic (xs ++ (a ∷ []))
  append-AllPublic [] a h e = (e, tt)
  append-AllPublic (x ∷ xs) a h e = (h.0, append-AllPublic xs a h.1 e)

  abbrev IsOf : Candidate → Option UdpAddr → Type 0
  IsOf c none = Unit {0}
  IsOf c (some a) = classify s a ≡ c

  -- What the loop has found so far, as it was classified.
  record IsFound (f : Found) : Type 0 where
    publics : AllPublic f.public_addresses
    lo : IsOf loopback f.loopbackaddr
    pr : IsOf private_one f.privateaddr

  abbrev Finds : Option Found → Type 0
  Finds none = Unit {0}
  Finds (some f) = IsFound f

  note-Finds :
      (c : Candidate) (a : UdpAddr) (f : Found) → classify s a ≡ c → IsFound f → Finds (note c a f)
  note-Finds skipped a f e h = h
  note-Finds loopback a f e h = record { publics = h.publics; lo = e; pr = h.pr }
  note-Finds private_one a f e h = record { publics = h.publics; lo = h.lo; pr = e }
  note-Finds public_one a f e h = record {
    publics = append-AllPublic f.public_addresses a h.publics e;
    lo = h.lo;
    pr = h.pr;
  }
  note-Finds bad a f e h = tt

  next-Finds :
      (o : Option Found) (k : Found → Option Found)
      → Finds o
      → ((f : Found) → IsFound f → Finds (k f))
      → Finds (collect_next s o k)
  next-Finds none k h g = tt
  next-Finds (some f) k h g = g f h

  collect-Finds : (addresses : List UdpAddr) (f : Found) → IsFound f → Finds (collect s addresses f)
  unfolding collect
  collect-Finds [] f h = h
  collect-Finds (a ∷ addresses) f h =
      next-Finds _ (collect s addresses) (note-Finds (classify s a) a f refl h)
        (collect-Finds addresses)

  collect-publics :
      (xs : List UdpAddr) (f : Found)
      → AllPublic xs
      → collect s xs f ≡ some (record f { public_addresses = f.public_addresses ++ xs })
  unfolding collect
  collect-publics [] f h = simp append-nil
  collect-publics (x ∷ xs) f h = rw (h.0) (collect-publics xs _ h.1 ∙ simp append_assoc)

  private_again :
      (lo : Option UdpAddr) (pr : UdpAddr)
      → classify s pr ≡ private_one
      → IsOf loopback lo
      → filter_address_candidates s (local_choice s lo (some pr))
        ≡ some (local_choice s lo (some pr))
  unfolding filter_address_candidates collect choice choose local_choice
  private_again none pr e h = elim (Bool-cases (ip_equal pr.ip s.local_private_addr)) [
    | inl q ↦ rw q refl
    | inr q ↦ rw q (rw e (rw q refl))
  ]
  private_again (some lo) pr e h = elim (Bool-cases (ip_equal pr.ip s.local_private_addr)) [
    | inl q ↦ rw q (rw h refl)
    | inr q ↦ rw q (rw e (rw q refl))
  ]

  choose_again :
      (pub_addrs : List UdpAddr) (lo pr : Option UdpAddr)
      → AllPublic pub_addrs
      → IsOf loopback lo
      → IsOf private_one pr
      → filter_address_candidates s (choose s pub_addrs lo pr) ≡ some (choose s pub_addrs lo pr)
  unfolding filter_address_candidates choice choose local_choice collect
  choose_again (a ∷ rest) lo pr h l q =
      rw
        (collect-publics (a ∷ rest)
          (record { public_addresses = []; loopbackaddr = none; privateaddr = none }) h)
        refl
  choose_again [] none none h l q = refl
  choose_again [] (some lo) none h l q = rw l refl
  choose_again [] lo (some pr) h l q = private_again lo pr q l

  again :
      (o : Option Found) (ys : List UdpAddr)
      → Finds o
      → choice s o ≡ some ys
      → filter_address_candidates s ys ≡ some ys
  unfolding choice
  again none ys h e = ground arith
  again (some f) ys h e =
      subst (λ zs. filter_address_candidates s zs ≡ some zs) (some_inj e)
        (choose_again f.public_addresses f.loopbackaddr f.privateaddr h.publics h.lo h.pr)

  -- The addresses that FilterAddressCandidates chooses, it chooses again, all of them and in the same
  -- order, as PrepareAbyssOutbound does with those of ConnectAbyssAsync.
  pub filter_address_candidates-idempotent :
      (addresses ys : List UdpAddr)
      → filter_address_candidates s addresses ≡ some ys
      → filter_address_candidates s ys ≡ some ys
  unfolding filter_address_candidates
  filter_address_candidates-idempotent addresses ys e =
      again _ ys (collect-Finds addresses _ (record { publics = tt; lo = tt; pr = tt })) e

-- A private address in 16 bytes, the form in which net.ParseIP gives it, is taken for a public one.
pub mapped_private-is_public :
    (s : BetaAddressSelector) (a : UdpAddr) (c d : ℕ)
    → a.ip ≡ mapped (192 ∷ 168 ∷ c ∷ d ∷ [])
    → ip_equal a.ip s.local_public_addr ≡ false
    → classify s a ≡ public_one
unfolding classify is_private after_private
mapped_private-is_public s a c d e n = rw n (rw e refl)
