-- ===== src/Url/Pieces.antt =====
-- Cutting, splitting and trimming texts (aurl/abyss_url.go, by Go's package strings).
use abyss_core.Prelude.{
  ℕ, nat_eq, Bool, true, false, not, ◌&&◌, List, [], ◌∷◌, ◌++◌, none, some, ◌==◌, ltb, leb, ◌≡◌,
  refl, ◌∙◌, ap, Bool-cases, inl, inr, eq_of_test, arith,
}
use abyss_core.Url.{
  Text, slash, cut, split, join, trim_end, put_before, is_base58, all_base58, is_valid_peer_id,
  length,
}

abbrev pub AllNot : ℕ → Text → Type 0
AllNot c [] = Unit {0}
AllNot c (x ∷ xs) = ((x == c) ≡ false) × AllNot c xs

pub cut-none : (c : ℕ) (xs : Text) → AllNot c xs → cut c xs ≡ none
unfolding cut
cut-none c [] h = refl
cut-none c (x ∷ xs) h = rw (h.0) (rw (cut-none c xs h.1) refl)

same_char : (c : ℕ) → (c == c) ≡ true
same_char c = (nat_eq.same_iff c c).1 refl

pub cut_at : (c : ℕ) (xs ys : Text) → AllNot c xs → cut c (xs ++ (c ∷ ys)) ≡ some (xs, ys)
unfolding cut
cut_at c [] ys h = rw (same_char c) refl
cut_at c (x ∷ xs) ys h = rw (h.0) (rw (cut_at c xs ys h.1) refl)

split-none : (c : ℕ) (xs : Text) → AllNot c xs → split c xs ≡ xs ∷ []
unfolding split
split-none c [] h = refl
split-none c (x ∷ xs) h = rw (h.0) (rw (split-none c xs h.1) refl)

split_at : (c : ℕ) (xs ys : Text) → AllNot c xs → split c (xs ++ (c ∷ ys)) ≡ xs ∷ split c ys
unfolding split
split_at c [] ys h = rw (same_char c) refl
split_at c (x ∷ xs) ys h = rw (h.0) (rw (split_at c xs ys h.1) refl)

abbrev pub NoneHas : ℕ → List Text → Type 0
NoneHas c [] = Unit {0}
NoneHas c (p ∷ ps) = AllNot c p × NoneHas c ps

pub split-join :
    (c : ℕ) (p : Text) (ps : List Text) → NoneHas c (p ∷ ps) → split c (join c (p ∷ ps)) ≡ p ∷ ps
unfolding join
split-join c p [] h = split-none c p h.0
split-join c p (q ∷ ps) h =
    split_at c p (join c (q ∷ ps)) h.0 ∙ ap (λ l. p ∷ l) (split-join c q ps h.1)

pub AllNot-append : (c : ℕ) (xs ys : Text) → AllNot c xs → AllNot c ys → AllNot c (xs ++ ys)
AllNot-append c [] ys h k = k
AllNot-append c (x ∷ xs) ys h k = (h.0, AllNot-append c xs ys h.1 k)

pub AllNot-join :
    (c d : ℕ) (ps : List Text) → (d == c) ≡ false → NoneHas c ps → AllNot c (join d ps)
unfolding join
AllNot-join c d [] n h = tt
AllNot-join c d (p ∷ []) n h = h.0
AllNot-join c d (p ∷ q ∷ ps) n h = AllNot-append c p _ h.0 (n, AllNot-join c d (q ∷ ps) n h.1)

-- A character that a range leaves out.
other_char : (P : ℕ → Bool) (c x : ℕ) → P c ≡ false → P x ≡ true → (x == c) ≡ false
other_char P c x out is_in = elim (Bool-cases (x == c)) [
  | inl e ↦ cc (ap P (eq_of_test x c e), out, is_in)
  | inr e ↦ e
]

both : (a b : Bool) → (a && b) ≡ true → (a ≡ true) × (b ≡ true)
both true true h = (refl, refl)
both true false h = ground arith
both false b h = ground arith

all_base58-AllNot : (c : ℕ) (xs : Text) → is_base58 c ≡ false → all_base58 xs ≡ true → AllNot c xs
unfolding all_base58
all_base58-AllNot c [] n h = tt
all_base58-AllNot c (x ∷ xs) n h =
    let (one, rest) = both (is_base58 x) (all_base58 xs) h in
    (other_char is_base58 c x n one, all_base58-AllNot c xs n rest)

-- What is no character of a hash, a valid hash does not have.
pub valid-AllNot :
    (c : ℕ) (xs : Text)
    → is_base58 c ≡ false
    → (leb 65 c && leb c 90) ≡ false
    → is_valid_peer_id xs ≡ true
    → AllNot c xs
unfolding is_valid_peer_id
valid-AllNot c [] n m h = tt
valid-AllNot c (x ∷ xs) n m h =
    let (named, rest) =
      both (not (ltb (length (x ∷ xs)) 32) && (leb 65 x && leb x 90)) (all_base58 xs) h in
    let (long, first) = both (not (ltb (length (x ∷ xs)) 32)) (leb 65 x && leb x 90) named in
    (other_char (λ y. leb 65 y && leb y 90) c x m first, all_base58-AllNot c xs n rest)

pub trim_end-append :
    (xs : Text) (y : ℕ) (ys : Text)
    → trim_end (y ∷ ys) ≡ y ∷ ys
    → trim_end (xs ++ (y ∷ ys)) ≡ xs ++ (y ∷ ys)
unfolding trim_end
trim_end-append [] y ys h = h
trim_end-append (x ∷ []) y ys h = ap (put_before x) h
trim_end-append (x ∷ z ∷ xs) y ys h = ap (put_before x) (trim_end-append (z ∷ xs) y ys h)

pub not_all : (c : ℕ) (xs ys : Text) → AllNot c (xs ++ (c ∷ ys)) → ⊥
not_all c [] ys h = cc (same_char c, h.0)
not_all c (x ∷ xs) ys h = not_all c xs ys h.1

pub slash_invalid : (xs ys : Text) → is_valid_peer_id (xs ++ (slash ∷ ys)) ≡ false
unfolding is_base58
slash_invalid xs ys = elim (Bool-cases (is_valid_peer_id (xs ++ (slash ∷ ys)))) [
  | inl e ↦ absurd (not_all slash xs ys (valid-AllNot slash (xs ++ (slash ∷ ys)) refl refl e))
  | inr e ↦ e
]
