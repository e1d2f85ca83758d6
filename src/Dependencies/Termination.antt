-- ===== src/Dependencies/Termination.antt =====
-- The fuel of the search in analystwatch/dependencies.py: one round for each edge is enough, since
-- an asset enters the queue once for each edge at most.
use analyst_watch.Prelude.{
  ℕ, zero, suc, ◌+◌, ◌≤◌, String, false, some, List, [], ◌∷◌, ◌++◌, length, select, ◌==◌, ◌≡◌, refl,
  Dict, get, put, Bool-cases, inl, inr, eq_iff, arith, length-append, length-select-le,
  if◌then◌else◌, not,
}
use analyst_watch.Dependencies.Assets.{
  AssetRef, DependencyEdge, key, in_set, unique_from, neighbors, adjacency_from,
}
use analyst_watch.Dependencies.Search.{
  Search, visit, run, calculate_blast_radius, BlastRadius, report_radius,
}

-- The number of edges whose upstream asset is not visited yet.
pending : Dict (List AssetRef) → List String → ℕ
pending [] visited = 0
pending ((k, assets) ∷ adjacency) visited =
    let rest = pending adjacency visited in if in_set k visited then rest else length assets + rest

pending-cons-le :
    (k : String) (visited : List String) (d : Dict (List AssetRef))
    → pending d (k ∷ visited) ≤ pending d visited
unfolding pending
pending-cons-le k visited [] = omega arith
pending-cons-le k visited ((j, assets) ∷ d) = ground (arith, pending-cons-le k visited d)

pending-visit :
    (k : String) (visited : List String) (d : Dict (List AssetRef))
    → in_set k visited ≡ false
    → length (neighbors d k) + pending d (k ∷ visited) ≤ pending d visited
unfolding pending neighbors get
pending-visit k visited [] h = omega arith
pending-visit k visited ((j, assets) ∷ d) h = elim (Bool-cases (j == k)) [
  | inl t ↦ ground (arith, pending-cons-le k visited d, eq_iff j k)
  | inr f ↦ ground (arith, pending-visit k visited d h, eq_iff j k)
]

measure : Dict (List AssetRef) → Search → ℕ
measure adjacency s = length s.queue + pending adjacency s.visited

visit-measure :
    (adjacency : Dict (List AssetRef)) (asset : AssetRef) (s : Search)
    → measure adjacency (visit adjacency asset s) ≤ measure adjacency s
unfolding measure visit
visit-measure adjacency asset s = elim (Bool-cases (in_set (key asset) s.visited)) [
  | inl t ↦ rw t (omega arith)
  | inr f ↦
      let fresh = λ (a : AssetRef). not (in_set (key a) (key asset ∷ s.visited)) in
      let next = neighbors adjacency (key asset) in
      rw f (
        omega (
          arith,
          length-append s.queue (select fresh next),
          length-select-le fresh next,
          pending-visit (key asset) s.visited adjacency f,
        ))
]

run-returns :
    (fuel : ℕ) (adjacency : Dict (List AssetRef)) (queue : List AssetRef) (visited : List String)
    (discovered : List AssetRef)
    → length queue + pending adjacency visited ≤ fuel
    → let s : Search = record { queue = queue; visited = visited; discovered = discovered } in
      (found : List AssetRef) × (run fuel adjacency s ≡ some found)
unfolding run measure
run-returns zero adjacency [] visited discovered h = (discovered, refl)
run-returns zero adjacency (a ∷ queue) visited discovered h = absurd (omega arith)
run-returns (suc fuel) adjacency [] visited discovered h = (discovered, refl)
run-returns (suc fuel) adjacency (asset ∷ queue) visited discovered h =
    let s : Search = record { queue = queue; visited = visited; discovered = discovered } in
    let next = visit adjacency asset s in
    run-returns fuel adjacency next.queue next.visited next.discovered
      (omega (arith, visit-measure adjacency asset s))

length-unique_from-le :
    (seen : List String) (assets : List AssetRef) → length (unique_from seen assets) ≤ length assets
unfolding unique_from
length-unique_from-le seen [] = omega arith
length-unique_from-le seen (asset ∷ assets) = elim (Bool-cases (in_set (key asset) seen)) [
  | inl t ↦ rw t (omega (arith, length-unique_from-le seen assets))
  | inr f ↦ rw f (omega (arith, length-unique_from-le (key asset ∷ seen) assets))
]

pending-put :
    (k : String) (asset : AssetRef) (old : List AssetRef) (d : Dict (List AssetRef))
    → neighbors d k ≡ old
    → pending (put k (old ++ asset ∷ []) d) [] ≡ suc (pending d [])
unfolding pending put neighbors get
pending-put k asset old [] e = rw (← e) refl
pending-put k asset old ((j, assets) ∷ d) e = elim (Bool-cases (j == k)) [
  | inl t ↦
      let same : assets ≡ old = rw (neighbors, t) at e in
      rw (t, ← same) (omega (arith, length-append assets (asset ∷ [])))
  | inr f ↦ rw f (omega (arith, pending-put k asset old d (rw (neighbors, f) at e)))
]

pending-adjacency_from :
    (d : Dict (List AssetRef)) (edges : List DependencyEdge)
    → pending (adjacency_from d edges) [] ≡ pending d [] + length edges
unfolding adjacency_from
pending-adjacency_from d [] = omega arith
pending-adjacency_from d (e ∷ edges) =
    let k = key e.upstream in
    omega (
      arith,
      pending-adjacency_from (put k (neighbors d k ++ e.downstream ∷ []) d) edges,
      pending-put k e.downstream (neighbors d k) d refl,
    )

-- The search for the assets downstream of a root returns a blast radius, for every root and all
-- lists of edges, cyclic ones included.
pub calculate_blast_radius-returns :
    (root : AssetRef) (edges : List DependencyEdge)
    → (radius : BlastRadius) × (calculate_blast_radius root edges ≡ some radius)
unfolding calculate_blast_radius pending
calculate_blast_radius-returns root edges =
    let adjacency = adjacency_from [] edges in
    let next = neighbors adjacency (key root) in
    let direct = unique_from [] next in
    let (found, r) = run-returns (length edges) adjacency direct (key root ∷ []) [] (
      omega (
        arith,
        length-unique_from-le [] next,
        pending-visit (key root) [] adjacency refl,
        pending-adjacency_from [] edges,
      )) in
    (report_radius root direct found, rw (calculate_blast_radius, r) refl)
