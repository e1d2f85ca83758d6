-- ===== src/Dependencies/Invariant.antt =====
-- Each round of the search of analystwatch/dependencies.py keeps what it has found and what it has
-- still to visit in step with the edges.
use analyst_watch.Prelude.{
  String, Bool, true, false, not, List, [], ◌∷◌, ◌++◌, select, ◌==◌, ◌≡◌, refl, Bool-cases, inl,
  inr, eq_iff, arith, In, All-append, All-of_In, In-select, select-In, ◌||◌, All-In,
}
use analyst_watch.Dependencies.Assets.{AssetRef, DependencyEdge, key, in_set}
use analyst_watch.Dependencies.Search.{Search}
use analyst_watch.Dependencies.Adjacency.{
  has_key, HasDistinctAssets, has_key-append, has_key-In, fed_by,
}
use analyst_watch.Dependencies.Reach.{IsDownstream, IsSearching, fed_by-IsDownstream}

HasDistinctAssets-append :
    (a : AssetRef) (xs : List AssetRef)
    → HasDistinctAssets xs
    → has_key (key a) xs ≡ false
    → HasDistinctAssets (xs ++ a ∷ [])
HasDistinctAssets-append a [] h f = (refl, tt)
HasDistinctAssets-append a (x ∷ xs) h f = (
  let p = has_key-append (key x) xs (a ∷ []) in
      let q = h.0 in rw p (ground (arith, eq_iff (key x) (key a), eq_iff (key a) (key x))),
  HasDistinctAssets-append a xs h.1 (ground arith),
)

abbrev is_new : String → List String → AssetRef → Bool
is_new k visited a = not (in_set (key a) (k ∷ visited))

-- A round for an asset that was not visited yet.
module _ (edges : List DependencyEdge) (root asset : AssetRef) (rest found : List AssetRef)
    (visited : List String) where
  abbrev popped : Search
  popped = record { queue = asset ∷ rest; visited = visited; discovered = found }

  abbrev pushed : Search
  pushed = record {
    queue = rest ++ select (is_new (key asset) visited) (fed_by (key asset) edges);
    visited = key asset ∷ visited;
    discovered = found ++ asset ∷ [];
  }

  closed-pushed :
      IsSearching edges root popped
      → (k : String) (a : AssetRef) → in_set k (key asset ∷ visited) ≡ true
      → In a (fed_by k edges)
      → (in_set (key a) pushed.visited || has_key (key a) pushed.queue) ≡ true
  closed-pushed s k a h m =
      let fresh = select (is_new (key asset) visited) (fed_by (key asset) edges) in
      elim (Bool-cases (key asset == k)) [
        | inl t ↦
            let same : key asset ≡ k = ground (arith, eq_iff (key asset) k) in
            elim (Bool-cases (in_set (key a) (key asset ∷ visited))) [
              | inl v ↦ ground arith
              | inr w ↦
                  let chosen = has_key-In a fresh (
                    select-In (is_new (key asset) visited) (fed_by (key asset) edges) a (rw same m)
                      (rw w refl)) in
                  ground (arith, has_key-append (key a) rest fresh)
            ]
        | inr f ↦
            let old = s.closed k a (ground arith) m in
            ground (arith, has_key-append (key a) rest fresh, eq_iff (key asset) (key a))
      ]

  pub pushed-IsSearching :
      in_set (key asset) visited ≡ false
      → IsSearching edges root popped
      → IsSearching edges root pushed
  pushed-IsSearching f s = record {
    queued = All-append (IsDownstream edges root) rest _ s.queued.1 (
        All-of_In _ _ (λ a m.
          All-In _ _ a (fed_by-IsDownstream edges root asset s.queued.0)
            (In-select _ (fed_by (key asset) edges) a m).0));
    found = All-append _ found (asset ∷ []) s.found (s.queued.0, tt);
    apart =
        All-append _ found (asset ∷ []) s.apart
          ((λ e. absurd (let r = s.root_visited in let g = rw e at f in ground arith)), tt);
    root_visited = let r = s.root_visited in ground arith;
    distinct =
        HasDistinctAssets-append asset found s.distinct
          (let v = s.visited_found (key asset) in ground arith);
    visited_found =
        λ k. let v = s.visited_found k in ground (arith, has_key-append k found (asset ∷ []));
    closed = closed-pushed s;
  }

  pub skipped-IsSearching :
      in_set (key asset) visited ≡ true
      → IsSearching edges root popped
      → IsSearching edges root (record { queue = rest; visited = visited; discovered = found })
  skipped-IsSearching t s = record {
    queued = s.queued.1;
    found = s.found;
    apart = s.apart;
    root_visited = s.root_visited;
    distinct = s.distinct;
    visited_found = s.visited_found;
    closed = λ k a h m. let old = s.closed k a h m in ground (arith, eq_iff (key asset) (key a));
  }
