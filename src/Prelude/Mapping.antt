-- ===== src/Prelude/Mapping.antt =====
-- A Python dict keyed by text: an association list in insertion order.
use Prim.Native.String.{String}
use mathlib.Core.Path.{◌≡◌, refl}
use mathlib.Core.Logic.{◌≢◌, ◌⊎◌, inl, inr}
use mathlib.Core.Bool.{Bool, false}
use mathlib.Core.Option.{Option, none, some}
use mathlib.Core.List.{List, [], ◌∷◌, ◌++◌}
use native.Mathlib.Omega.{arith}
use text.Mathlib.Text.{◌==◌}
use text.Mathlib.TextEquality.{eq_iff}
use text.Mathlib.TextPositions.{eq_refl}
use analyst_watch.Prelude.Tests.{if◌then◌else◌, Bool-cases, is_some}
use analyst_watch.Prelude.Lists.{In, All}

abbrev pub Dict {ℓ} : Type ℓ → Type ℓ
Dict V = List (String × V)

module _ {ℓ} {V : Type ℓ} where
  -- `d.get(k)`
  unfoldable pub get : String → Dict V → Option V
  get k [] = none
  get k ((j, v) ∷ d) = if j == k then some v else get k d

  -- `d[k] = v`
  unfoldable pub put : String → V → Dict V → Dict V
  put k v [] = (k, v) ∷ []
  put k v ((j, w) ∷ d) = if j == k then (j, v) ∷ d else (j, w) ∷ put k v d

  -- `k in d`
  abbrev pub contains : String → Dict V → Bool
  contains k d = is_some (get k d)

  abbrev pub keys : Dict V → List String
  keys [] = []
  keys ((k, v) ∷ d) = k ∷ keys d

  abbrev pub values : Dict V → List V
  values [] = []
  values ((k, v) ∷ d) = v ∷ values d

module _ {ℓ} {V : Type ℓ} where
  pub get-put :
      (k j : String) (v : V) (d : Dict V) → get j (put k v d) ≡ (if k == j then some v else get j d)
  unfolding get put
  get-put k j v [] = refl
  get-put k j v ((i, w) ∷ d) = ground (arith, eq_iff k j, eq_iff i k, eq_iff i j, get-put k j v d)

  pub get-put_self : (k : String) (v : V) (d : Dict V) → get k (put k v d) ≡ some v
  get-put_self k v d = simp (get-put, eq_refl)

  pub get-put_ne : (k j : String) (v : V) (d : Dict V) → k ≢ j → get j (put k v d) ≡ get j d
  get-put_ne k j v d h = rw get-put (ground (arith, eq_iff k j))

  -- A new key goes to the end.
  pub put_new : (k : String) (v : V) (d : Dict V) → get k d ≡ none → put k v d ≡ d ++ (k, v) ∷ []
  unfolding get put
  put_new k v [] h = refl
  put_new k v ((j, w) ∷ d) h = ground (arith, put_new k v d)

  pub In-values-put :
      (k : String) (v a : V) (d : Dict V) → In a (values (put k v d)) → (a ≡ v) ⊎ In a (values d)
  unfolding put
  In-values-put k v a [] m = elim m [ inl e ↦ inl e | inr n ↦ elim n [ ] ]
  In-values-put k v a ((j, w) ∷ d) m = elim (Bool-cases (j == k)) [
    | inl t ↦ elim (rw t at m) as (λ _. (a ≡ v) ⊎ In a (values ((j, w) ∷ d))) [
      | inl e ↦ inl e
      | inr n ↦ inr (inr n)
    ]
    | inr f ↦ elim (rw f at m) as (λ _. (a ≡ v) ⊎ In a (values ((j, w) ∷ d))) [
      | inl e ↦ inr (inl e)
      | inr n ↦ elim (In-values-put k v a d n) [ inl e ↦ inl e | inr o ↦ inr (inr o) ]
    ]
  ]

  pub All-values-put {κ} :
      (P : V → Type κ) (k : String) (v : V) (d : Dict V)
      → P v
      → All P (values d)
      → All P (values (put k v d))
  unfolding put
  All-values-put P k v [] h hs = (h, tt)
  All-values-put P k v ((j, w) ∷ d) h hs = elim (Bool-cases (j == k)) [
    | inl t ↦ rw t (h, hs.1)
    | inr f ↦ rw f (hs.0, All-values-put P k v d h hs.1)
  ]

module _ {ℓ} {V : Type ℓ} where
  abbrev pub HasDistinctKeys : Dict V → Type ℓ
  HasDistinctKeys [] = Unit
  HasDistinctKeys ((k, v) ∷ d) = (get k d ≡ none) × HasDistinctKeys d

  get-put_apart :
      (k j : String) (v : V) (d : Dict V)
      → (j == k) ≡ false
      → get j d ≡ none
      → get j (put k v d) ≡ none
  get-put_apart k j v d f h = rw get-put (ground (arith, eq_iff j k, eq_iff k j))

  pub HasDistinctKeys-put :
      (k : String) (v : V) (d : Dict V) → HasDistinctKeys d → HasDistinctKeys (put k v d)
  unfolding get put
  HasDistinctKeys-put k v [] h = (refl, tt)
  HasDistinctKeys-put k v ((j, w) ∷ d) h = elim (Bool-cases (j == k)) [
    | inl t ↦ rw t (h.0, h.1)
    | inr f ↦ rw f (get-put_apart k j v d f h.0, HasDistinctKeys-put k v d h.1)
  ]

  pub get-In_values : (k : String) (v : V) (d : Dict V) → get k d ≡ some v → In v (values d)
  unfolding get
  get-In_values k v [] h = absurd (ground arith)
  get-In_values k v ((j, w) ∷ d) h = elim (Bool-cases (j == k)) [
    | inl t ↦ inl (ground arith)
    | inr f ↦ inr (get-In_values k v d (ground arith))
  ]

  pub In-values_get :
      (v : V) (d : Dict V) → HasDistinctKeys d → In v (values d) → (k : String) × (get k d ≡ some v)
  unfolding get
  In-values_get v [] h m = elim m [ ]
  In-values_get v ((j, w) ∷ d) h (inl e) = (j, rw (eq_refl j, e))
  In-values_get v ((j, w) ∷ d) h (inr m) =
      let (k, g) = In-values_get v d h.1 m in (k, ground (arith, eq_iff j k))
