-- ===== src/Dependencies/Found.antt =====
-- The blast radius of analystwatch/dependencies.py against the paths of edges.
use analyst_watch.Prelude.{
  none, length, ◌∙◌, ◌+◌, get-put, ◌↔◌, ◌||◌, ℕ, zero, suc, String, true, some, List, [], ◌∷◌, ◌==◌,
  ◌≡◌, ◌≢◌, refl, Dict, Bool-cases, inl, inr, eq_iff, eq_refl, arith, In, All-of_In, All-In, get,
  put, or_default, count_if, subst, Option,
}
use analyst_watch.Dependencies.Assets.{
  AssetRef, DependencyEdge, key, in_set, unique_from, neighbors, adjacency_from, kind_value,
  AssetKind,
}
use analyst_watch.Dependencies.Search.{
  visit, run, calculate_blast_radius, BlastRadius, start, report_radius, finish, count_kinds,
}
use analyst_watch.Dependencies.Adjacency.{
  has_key, HasDistinctAssets, In-has_key, unique_from-has_key, In-unique_from, fed_by,
  neighbors-adjacency_from,
}
use analyst_watch.Dependencies.Reach.{
  from_root, onward, IsDownstream, IsSearching, fed_by_root-IsDownstream, fed_by-In,
}
use analyst_watch.Dependencies.Invariant.{pushed-IsSearching, skipped-IsSearching}

-- The adjacency's lists are those of the edges.
neighbors-fed_by :
    (edges : List DependencyEdge) (k : String)
    → neighbors (adjacency_from [] edges) k ≡ fed_by k edges
unfolding neighbors get
neighbors-fed_by edges k = neighbors-adjacency_from k [] edges

visit-IsSearching :
    (edges : List DependencyEdge) (root asset : AssetRef) (rest found : List AssetRef)
    (visited : List String)
    → IsSearching edges root
        (record { queue = asset ∷ rest; visited = visited; discovered = found })
    → IsSearching edges root (
        visit
          (adjacency_from [] edges)
          asset
          (record { queue = rest; visited = visited; discovered = found }))
unfolding visit
visit-IsSearching edges root asset rest found visited s =
    elim (Bool-cases (in_set (key asset) visited)) [
      | inl t ↦ rw t (skipped-IsSearching edges root asset rest found visited t s)
      | inr f ↦
          rw (f, neighbors-fed_by edges (key asset))
            (pushed-IsSearching edges root asset rest found visited f s)
    ]

run-IsSearching :
    (fuel : ℕ) (edges : List DependencyEdge) (root : AssetRef) (queue found : List AssetRef)
    (visited : List String) (result : List AssetRef)
    → IsSearching edges root (record { queue = queue; visited = visited; discovered = found })
    → run fuel
        (adjacency_from [] edges)
        (record { queue = queue; visited = visited; discovered = found })
      ≡ some result
    → (seen : List String) × IsSearching edges root
        (record { queue = []; visited = seen; discovered = result })
unfolding run
run-IsSearching zero edges root [] found visited result s h =
    let e : found ≡ result = ground arith in rw (← e) (visited, s)
run-IsSearching zero edges root (a ∷ queue) found visited result s h = absurd (ground arith)
run-IsSearching (suc fuel) edges root [] found visited result s h =
    let e : found ≡ result = ground arith in rw (← e) (visited, s)
run-IsSearching (suc fuel) edges root (asset ∷ queue) found visited result s h =
    let next =
      visit (adjacency_from [] edges) asset
        (record { queue = queue; visited = visited; discovered = found }) in
    run-IsSearching fuel edges root next.queue next.discovered next.visited result
      (visit-IsSearching edges root asset queue found visited s) h

start-IsSearching :
    (edges : List DependencyEdge) (root : AssetRef)
    → IsSearching edges root (start root (unique_from [] (fed_by (key root) edges)))
start-IsSearching edges root = record {
  queued = All-of_In _ _ (λ a m.
      All-In _ _ a (fed_by_root-IsDownstream edges root)
        (In-unique_from a [] (fed_by (key root) edges) m));
  found = tt;
  apart = tt;
  root_visited = rw (eq_refl (key root)) refl;
  distinct = tt;
  visited_found = λ k. ground arith;
  closed = λ k a h m.
      let same : key root ≡ k = ground (arith, eq_iff (key root) k) in
      let u = unique_from-has_key a [] (fed_by (key root) edges) (rw same m) in ground arith;
}

-- When the queue is empty, every asset downstream of the root was visited.
IsDownstream-visited :
    (edges : List DependencyEdge) (root a : AssetRef) (seen : List String) (result : List AssetRef)
    → IsSearching edges root (record { queue = []; visited = seen; discovered = result })
    → IsDownstream edges root a
    → in_set (key a) seen ≡ true
IsDownstream-visited edges root _ seen result s (from_root e i u) =
    let m = subst (λ k. In e.downstream (fed_by k edges)) u (fed_by-In e edges i) in
    let c = s.closed (key root) e.downstream s.root_visited m in ground arith
IsDownstream-visited edges root _ seen result s (onward a e d i u) =
    let m = subst (λ k. In e.downstream (fed_by k edges)) u (fed_by-In e edges i) in
    let c = s.closed (key a) e.downstream (IsDownstream-visited edges root a seen result s d) m in
    ground arith

same_some : {A : Type 0} (a b : A) → some a ≡ some b → a ≡ b
same_some a b h = ground arith

finish-some :
    (root : AssetRef) (direct : List AssetRef) (found : Option (List AssetRef))
    (radius : BlastRadius)
    → finish root direct found ≡ some radius
    → (found ≡ some radius.downstream) × (radius.counts ≡ count_kinds [] radius.downstream)
finish-some root direct none radius h = absurd (ground arith)
finish-some root direct (some found) radius h =
    let same : report_radius root direct found ≡ radius =
      same_some (report_radius root direct found) radius h in
    rw (← same) (refl, refl)

-- The parts of the radius that come from the loops.
calculate_blast_radius-run :
    (root : AssetRef) (edges : List DependencyEdge) (radius : BlastRadius)
    → calculate_blast_radius root edges ≡ some radius
    → (run
          (length edges)
          (adjacency_from [] edges)
          (start root (unique_from [] (fed_by (key root) edges)))
        ≡ some radius.downstream)
      × (radius.counts ≡ count_kinds [] radius.downstream)
unfolding calculate_blast_radius
calculate_blast_radius-run root edges radius h =
    let direct = unique_from [] (neighbors (adjacency_from [] edges) (key root)) in
    let found = run (length edges) (adjacency_from [] edges) (start root direct) in
    let p = finish-some root direct found radius h in rw (neighbors-fed_by edges (key root)) at p

-- The end of the loop.
calculate_blast_radius-IsSearching :
    (root : AssetRef) (edges : List DependencyEdge) (radius : BlastRadius)
    → calculate_blast_radius root edges ≡ some radius
    → (seen : List String) × IsSearching edges root
        (record { queue = []; visited = seen; discovered = radius.downstream })
calculate_blast_radius-IsSearching root edges radius h =
    run-IsSearching (length edges) edges root (unique_from [] (fed_by (key root) edges)) []
      (key root ∷ []) radius.downstream (start-IsSearching edges root)
      (calculate_blast_radius-run root edges radius h).0

-- A key is the key of an asset in the blast radius of a root if and only if it is not the root's
-- key and is the key of an asset that a path of edges leads to from the root.
pub calculate_blast_radius-IsDownstream_iff :
    (root : AssetRef) (edges : List DependencyEdge) (radius : BlastRadius) (k : String)
    → calculate_blast_radius root edges ≡ some radius
    → (has_key k radius.downstream ≡ true)
      ↔ ((k ≢ key root) × ((a : AssetRef) × (key a ≡ k) × IsDownstream edges root a))
calculate_blast_radius-IsDownstream_iff root edges radius k h =
    let (seen, s) = calculate_blast_radius-IsSearching root edges radius h in
    (
      λ t.
          let (a, m, e) = In-has_key k radius.downstream t in
          (λ r. All-In _ _ a s.apart m (e ∙ r), (a, e, All-In _ _ a s.found m)),
      λ (apart, (a, e, d)).
          let v = IsDownstream-visited edges root a seen radius.downstream s d in
          let f = s.visited_found (key a) in
          let g : in_set k seen ≡ (key root == k || has_key k radius.downstream) =
            s.visited_found k in
          let w : in_set k seen ≡ true = rw e at v in ground (arith, eq_iff (key root) k),
    )

get-count_kinds :
    (kind : AssetKind) (counts : Dict ℕ) (assets : List AssetRef)
    → or_default (get (kind_value kind) (count_kinds counts assets)) 0
      ≡ or_default (get (kind_value kind) counts) 0
        + count_if (λ (a : AssetRef). kind_value a.kind == kind_value kind) assets
unfolding count_kinds
get-count_kinds kind counts [] = omega arith
get-count_kinds kind counts (a ∷ assets) =
    let value = kind_value a.kind in
    let n = or_default (get value counts) 0 + 1 in
    let p = get-put value (kind_value kind) n counts in
    let ih = get-count_kinds kind (put value n counts) assets in
    elim (Bool-cases (value == kind_value kind)) [
      | inl t ↦ ground (arith, eq_iff value (kind_value kind))
      | inr f ↦ ground (arith, eq_iff value (kind_value kind))
    ]

-- The assets of a blast radius have distinct keys, and its counts say for each kind of asset how
-- many of them have that kind, a missing count standing for zero.
pub calculate_blast_radius-counts :
    (root : AssetRef) (edges : List DependencyEdge) (radius : BlastRadius)
    → calculate_blast_radius root edges ≡ some radius
    → HasDistinctAssets radius.downstream
      × ((kind : AssetKind)
          → or_default (get (kind_value kind) radius.counts) 0
            ≡ count_if (λ (a : AssetRef). kind_value a.kind == kind_value kind) radius.downstream)
unfolding get
calculate_blast_radius-counts root edges radius h =
    let (seen, s) = calculate_blast_radius-IsSearching root edges radius h in
    (
      s.distinct,
      λ kind.
          rw (calculate_blast_radius-run root edges radius h).1
            (omega (arith, get-count_kinds kind [] radius.downstream)),
    )
