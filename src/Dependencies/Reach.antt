-- ===== src/Dependencies/Reach.antt =====
-- What the search of analystwatch/dependencies.py finds: the assets that a path of edges leads to
-- from the root.
use analyst_watch.Prelude.{
  String, true, List, [], ◌∷◌, ◌==◌, ◌≡◌, ◌≢◌, refl, sym, Bool-cases, inl, inr, eq_iff, eq_refl,
  arith, In, All, All-of_In, ◌||◌, subst,
}
use analyst_watch.Dependencies.Assets.{AssetRef, DependencyEdge, key, in_set}
use analyst_watch.Dependencies.Search.{Search}
use analyst_watch.Dependencies.Adjacency.{has_key, HasDistinctAssets, fed_by}

-- A path of edges leads from the root to an asset.
pub data IsDownstream (edges : List DependencyEdge) (root : AssetRef) : AssetRef → Type 0 where
  from_root :
      (e : DependencyEdge)
      → In e edges
      → key e.upstream ≡ key root
      → IsDownstream edges root e.downstream
  onward :
      (a : AssetRef) (e : DependencyEdge)
      → IsDownstream edges root a
      → In e edges
      → key e.upstream ≡ key a
      → IsDownstream edges root e.downstream

-- The facts that hold between two rounds of the loop.
pub record IsSearching (edges : List DependencyEdge) (root : AssetRef) (s : Search) : Type 0 where
  pub queued : All (IsDownstream edges root) s.queue
  pub found : All (IsDownstream edges root) s.discovered
  pub apart : All (λ (a : AssetRef). key a ≢ key root) s.discovered
  pub root_visited : in_set (key root) s.visited ≡ true
  pub distinct : HasDistinctAssets s.discovered
  pub visited_found : (k : String) → in_set k s.visited ≡ (key root == k || has_key k s.discovered)
  pub closed :
      (k : String) (a : AssetRef)
      → in_set k s.visited ≡ true
      → In a (fed_by k edges)
      → (in_set (key a) s.visited || has_key (key a) s.queue) ≡ true

In-fed_by :
    (k : String) (a : AssetRef) (edges : List DependencyEdge)
    → In a (fed_by k edges)
    → (e : DependencyEdge) × In e edges × (key e.upstream ≡ k) × (e.downstream ≡ a)
In-fed_by k a [] m = elim m [ ]
In-fed_by k a (e ∷ edges) m = elim (Bool-cases (key e.upstream == k)) [
  | inl t ↦
      elim (rw t at m)
        as (λ _.
          (f : DependencyEdge) × In f (e ∷ edges) × (key f.upstream ≡ k) × (f.downstream ≡ a)) [
            | inl s ↦ (e, inl refl, ground (arith, eq_iff (key e.upstream) k), sym s)
            | inr n ↦ let (f, i, u, d) = In-fed_by k a edges n in (f, inr i, u, d)
          ]
  | inr g ↦ let (f, i, u, d) = In-fed_by k a edges (rw g at m) in (f, inr i, u, d)
]

pub fed_by-In :
    (e : DependencyEdge) (edges : List DependencyEdge)
    → In e edges
    → In e.downstream (fed_by (key e.upstream) edges)
fed_by-In e [] m = elim m [ ]
fed_by-In e (f ∷ edges) (inl p) = rw (← p, eq_refl (key e.upstream)) (inl refl)
fed_by-In e (f ∷ edges) (inr m) = elim (Bool-cases (key f.upstream == key e.upstream)) [
  | inl t ↦ rw t (inr (fed_by-In e edges m))
  | inr g ↦ rw g (fed_by-In e edges m)
]

-- What an asset downstream of the root feeds is downstream of it.
pub fed_by-IsDownstream :
    (edges : List DependencyEdge) (root a : AssetRef)
    → IsDownstream edges root a
    → All (IsDownstream edges root) (fed_by (key a) edges)
fed_by-IsDownstream edges root a h = All-of_In _ (fed_by (key a) edges) (λ b m.
    let (e, i, u, d) = In-fed_by (key a) b edges m in
    subst (IsDownstream edges root) d (onward a e h i u))

pub fed_by_root-IsDownstream :
    (edges : List DependencyEdge) (root : AssetRef)
    → All (IsDownstream edges root) (fed_by (key root) edges)
fed_by_root-IsDownstream edges root = All-of_In _ (fed_by (key root) edges) (λ b m.
    let (e, i, u, d) = In-fed_by (key root) b edges m in
    subst (IsDownstream edges root) d (from_root e i u))
