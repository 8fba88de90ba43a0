-- ===== src/Functional.antt =====
-- tools/functional: the loops over slices. An `error` is `Option E`, `none` for nil.
use abyss_core.Prelude.{List, [], ◌∷◌, ◌++◌, Option, none, some, ◌≡◌, refl, ap, ◌∙◌}
use mathlib.Core.List.{append-nil, append_assoc}

keep {κ} : {Q : Type κ} → Option Q → List Q → List Q
keep none rest = rest
keep (some v) rest = v ∷ rest

module _ {ℓ κ} {T : Type ℓ} {Q : Type κ} where
  -- Accum_all
  unfoldable pub accum_all : List T → Q → (T → Q → Q) → Q
  accum_all [] init f = init
  accum_all (e ∷ s) init f = accum_all s (f e init) f

  -- Filter keeps every element; it is a map.
  unfoldable pub filter : List T → (T → Q) → List Q
  filter [] f = []
  filter (e ∷ s) f = f e ∷ filter s f

  -- Filter_ok: `f` answers `some v` for `(v, true)`.
  unfoldable pub filter_ok : List T → (T → Option Q) → List Q
  unfolding keep
  filter_ok [] f = []
  filter_ok (e ∷ s) f = keep (f e) (filter_ok s f)

  -- The loop of Filter_strict_ok, with the results so far; `none` is `(nil, false)`.
  strict_from : List T → (T → Option Q) → List Q → Option (List Q)
  strict_from [] f result = some result
  strict_from (e ∷ s) f result = elim (f e) [
    | none ↦ none
    | some v ↦ strict_from s f (result ++ v ∷ [])
  ]

  unfoldable pub filter_strict_ok : List T → (T → Option Q) → Option (List Q)
  unfolding strict_from
  filter_strict_ok s f = strict_from s f []

-- A call that returns a value or an error.
pub data Tried {ℓ κ} (E : Type ℓ) (Q : Type κ) : Type (ℓ ⊔ κ) where
  value : Q → Tried E Q
  failed : E → Tried E Q

module _ {ℓ κ μ} {T : Type ℓ} {Q : Type κ} {E : Type μ} where
  -- The loop of Filter_until_err: the results, the rest of the slice from the failing element on,
  -- and the error.
  until_from : List T → (T → Tried E Q) → List Q → List Q × List T × Option E
  until_from [] f result = (result, [], none)
  until_from (e ∷ s) f result = elim (f e) [
    | failed err ↦ (result, e ∷ s, some err)
    | value v ↦ until_from s f (result ++ v ∷ [])
  ]

  unfoldable pub filter_until_err : List T → (T → Tried E Q) → List Q × List T × Option E
  unfolding until_from
  filter_until_err s f = until_from s f []

module _ {T Q E : Type 0} where
  -- Every element of the slice answers a value.
  abbrev pub Answers : (T → Tried E Q) → List T → List Q → Type 0
  Answers f [] [] = Unit {0}
  Answers f (e ∷ s) (v ∷ vs) = (f e ≡ value v) × Answers f s vs
  Answers f _ _ = ⊥

  until_from-Answers :
      (f : T → Tried E Q) (s : List T) (vs result : List Q)
      → Answers f s vs
      → until_from s f result ≡ (result ++ vs, [], none)
  unfolding until_from
  until_from-Answers f [] [] result h = rw (append-nil result)
  until_from-Answers f [] (v ∷ vs) result h = absurd h
  until_from-Answers f (e ∷ s) [] result h = absurd h
  until_from-Answers f (e ∷ s) (v ∷ vs) result h =
      rw (h.0, until_from)
        (until_from-Answers f s vs (result ++ v ∷ []) h.1
          ∙ ap (λ l. (l, [], none)) (append_assoc result (v ∷ []) vs))

  -- A slice whose elements all answer is answered whole.
  pub filter_until_err-Answers :
      (f : T → Tried E Q) (s : List T) (vs : List Q)
      → Answers f s vs
      → filter_until_err s f ≡ (vs, [], none)
  unfolding filter_until_err
  filter_until_err-Answers f s vs h = until_from-Answers f s vs [] h

  -- Filter_until_err stops at the first element that fails: it gives the results before that element,
  -- the slice from it on, and its error.
  pub filter_until_err-fails :
      (f : T → Tried E Q) (s rest : List T) (vs : List Q) (e : T) (err : E)
      → Answers f s vs
      → f e ≡ failed err
      → filter_until_err (s ++ e ∷ rest) f ≡ (vs, e ∷ rest, some err)
  unfolding filter_until_err until_from
  filter_until_err-fails f s rest vs e err h fails = from s vs [] h
    where
      from :
          (s : List T) (vs result : List Q)
          → Answers f s vs
          → until_from (s ++ e ∷ rest) f result ≡ (result ++ vs, e ∷ rest, some err)
      from [] [] result h = rw (append-nil result) (rw (fails, until_from) refl)
      from [] (v ∷ vs) result h = absurd h
      from (d ∷ s) [] result h = absurd h
      from (d ∷ s) (v ∷ vs) result h =
          rw (h.0, until_from)
            (from s vs (result ++ v ∷ []) h.1
              ∙ ap (λ l. (l, e ∷ rest, some err)) (append_assoc result (v ∷ []) vs))

module _ {T Q : Type 0} where
  -- Every element of the slice yields a value.
  abbrev pub Yields : (T → Option Q) → List T → List Q → Type 0
  Yields f [] [] = Unit {0}
  Yields f (e ∷ s) (v ∷ vs) = (f e ≡ some v) × Yields f s vs
  Yields f _ _ = ⊥

  strict_from-Yields :
      (f : T → Option Q) (s : List T) (vs result : List Q)
      → Yields f s vs
      → strict_from s f result ≡ some (result ++ vs)
  unfolding strict_from
  strict_from-Yields f [] [] result h = rw (append-nil result) refl
  strict_from-Yields f [] (v ∷ vs) result h = absurd h
  strict_from-Yields f (e ∷ s) [] result h = absurd h
  strict_from-Yields f (e ∷ s) (v ∷ vs) result h =
      rw (h.0, strict_from)
        (strict_from-Yields f s vs (result ++ v ∷ []) h.1
          ∙ ap some (append_assoc result (v ∷ []) vs))

  strict_from-fails :
      (f : T → Option Q) (s rest : List T) (vs result : List Q) (e : T)
      → Yields f s vs
      → f e ≡ none
      → strict_from (s ++ e ∷ rest) f result ≡ none
  unfolding strict_from
  strict_from-fails f [] rest [] result e h fails = rw (fails, strict_from) refl
  strict_from-fails f [] rest (v ∷ vs) result e h fails = absurd h
  strict_from-fails f (d ∷ s) rest [] result e h fails = absurd h
  strict_from-fails f (d ∷ s) rest (v ∷ vs) result e h fails =
      rw (h.0, strict_from) (strict_from-fails f s rest vs (result ++ v ∷ []) e h.1 fails)

  -- Filter_strict_ok gives all results in order if every element yields one, and nothing at all if
  -- the elements before some element do and that element does not.
  pub filter_strict_ok-Yields :
      (f : T → Option Q) (s : List T) (vs : List Q)
      → Yields f s vs
      → (filter_strict_ok s f ≡ some vs)
        × ((e : T) (rest : List T) → f e ≡ none → filter_strict_ok (s ++ e ∷ rest) f ≡ none)
  unfolding filter_strict_ok
  filter_strict_ok-Yields f s vs h =
      (strict_from-Yields f s vs [] h, λ e rest fails. strict_from-fails f s rest vs [] e h fails)
