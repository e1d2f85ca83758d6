-- ===== src/Dependencies/Adjacency.antt =====
-- The adjacency that `calculate_blast_radius` builds, as the edges with a given upstream asset,
-- and `_unique_assets`, analystwatch/dependencies.py.
use analyst_watch.Prelude.{
  String, Bool, true, false, List, [], ◌∷◌, ◌++◌, any, select, map, ◌==◌, ◌≡◌, ◌≢◌, refl, sym, Dict,
  put, Bool-cases, inl, inr, eq_iff, eq_refl, arith, if◌then◌else◌, In, ◌||◌, get-put,
}
use mathlib.Core.List.{append_assoc, append-nil}
use analyst_watch.Dependencies.Assets.{
  AssetRef, DependencyEdge, key, in_set, unique_from, neighbors, adjacency_from,
}

abbrev pub has_key : String → List AssetRef → Bool
has_key k assets = any (λ (a : AssetRef). key a == k) assets

-- No two assets have a key in common.
abbrev pub HasDistinctAssets : List AssetRef → Type 0
HasDistinctAssets [] = Unit
HasDistinctAssets (a ∷ rest) = (has_key (key a) rest ≡ false) × HasDistinctAssets rest

pub has_key-append :
    (k : String) (xs ys : List AssetRef) → has_key k (xs ++ ys) ≡ (has_key k xs || has_key k ys)
has_key-append k [] ys = refl
has_key-append k (x ∷ xs) ys = ground (arith, has_key-append k xs ys)

pub has_key-In : (a : AssetRef) (xs : List AssetRef) → In a xs → has_key (key a) xs ≡ true
has_key-In a [] m = elim m [ ]
has_key-In a (x ∷ xs) (inl e) = rw (← e, eq_refl (key a)) refl
has_key-In a (x ∷ xs) (inr m) = let k = has_key-In a xs m in ground arith

pub In-has_key :
    (k : String) (xs : List AssetRef) → has_key k xs ≡ true → (a : AssetRef) × In a xs × (key a ≡ k)
In-has_key k [] h = absurd (ground arith)
In-has_key k (x ∷ xs) h = elim (Bool-cases (key x == k)) [
  | inl t ↦ (x, inl refl, ground (arith, eq_iff (key x) k))
  | inr f ↦ let (a, m, e) = In-has_key k xs (ground arith) in (a, inr m, e)
]

pub in_set-ne :
    (j k : String) (seen : List String) → in_set j seen ≡ true → in_set k seen ≡ false → j ≢ k
in_set-ne j k seen t f e = absurd (let f' = rw (← e) at f in ground arith)

-- An asset of the list has its key among the assets kept, unless it was seen before.
pub unique_from-has_key :
    (a : AssetRef) (seen : List String) (xs : List AssetRef)
    → In a xs
    → (in_set (key a) seen || has_key (key a) (unique_from seen xs)) ≡ true
unfolding unique_from
unique_from-has_key a seen [] m = elim m [ ]
unique_from-has_key a seen (x ∷ xs) (inl e) = rw e (elim (Bool-cases (in_set (key x) seen)) [
  | inl t ↦ rw t refl
  | inr f ↦ rw (f, eq_refl (key x)) refl
])
unique_from-has_key a seen (x ∷ xs) (inr m) = elim (Bool-cases (in_set (key x) seen)) [
  | inl t ↦ rw t (unique_from-has_key a seen xs m)
  | inr f ↦ let k = unique_from-has_key a (key x ∷ seen) xs m in rw f (ground arith)
]

pub In-unique_from :
    (a : AssetRef) (seen : List String) (xs : List AssetRef) → In a (unique_from seen xs) → In a xs
unfolding unique_from
In-unique_from a seen [] m = m
In-unique_from a seen (x ∷ xs) m = elim (Bool-cases (in_set (key x) seen)) [
  | inl t ↦ inr (In-unique_from a seen xs (rw t at m))
  | inr f ↦ elim (rw f at m) as (λ _. In a (x ∷ xs)) [
    | inl e ↦ inl e
    | inr n ↦ inr (In-unique_from a (key x ∷ seen) xs n)
  ]
]

neighbors-put :
    (j k : String) (asset : AssetRef) (d : Dict (List AssetRef))
    → neighbors (put j (neighbors d j ++ asset ∷ []) d) k
      ≡ (if j == k then neighbors d k ++ asset ∷ [] else neighbors d k)
unfolding neighbors
neighbors-put j k asset d = ground (arith, get-put j k (neighbors d j ++ asset ∷ []) d, eq_iff j k)

-- The assets that the edges say a key feeds, in the edges' order.
abbrev pub fed_by : String → List DependencyEdge → List AssetRef
fed_by k edges =
    map (λ (e : DependencyEdge). e.downstream)
      (select (λ (e : DependencyEdge). key e.upstream == k) edges)

pub neighbors-adjacency_from :
    (k : String) (d : Dict (List AssetRef)) (edges : List DependencyEdge)
    → neighbors (adjacency_from d edges) k ≡ neighbors d k ++ fed_by k edges
unfolding adjacency_from
neighbors-adjacency_from k d [] = sym (append-nil (neighbors d k))
neighbors-adjacency_from k d (e ∷ edges) =
    let j = key e.upstream in
    let ih = neighbors-adjacency_from k (put j (neighbors d j ++ e.downstream ∷ []) d) edges in
    let p = neighbors-put j k e.downstream d in
    elim (Bool-cases (j == k)) [
      | inl t ↦ rw (ih, p, t) (append_assoc (neighbors d k) (e.downstream ∷ []) (fed_by k edges))
      | inr f ↦ rw (ih, p, f) refl
    ]
