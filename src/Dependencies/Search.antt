-- ===== src/Dependencies/Search.antt =====
-- `calculate_blast_radius` of analystwatch/dependencies.py. The loop over the queue runs on fuel;
-- the module Termination shows that one round for each edge is enough.
use analyst_watch.Prelude.{
  ℕ, zero, suc, ◌+◌, String, not, Option, none, some, List, [], ◌∷◌, ◌++◌, length, select,
  if◌then◌else◌, Dict, get, put, or_default,
}
use analyst_watch.Dependencies.Assets.{
  AssetRef, DependencyEdge, key, kind_value, in_set, unique_from, neighbors, adjacency_from,
}

pub record BlastRadius : Type 0 where
  pub root : AssetRef
  pub direct : List AssetRef
  pub downstream : List AssetRef
  pub counts : Dict ℕ

abbrev pub total : BlastRadius → ℕ
total radius = length radius.downstream

-- The variables of the loop.
pub record Search : Type 0 where
  pub queue : List AssetRef
  pub visited : List String
  pub discovered : List AssetRef

-- The body of the loop, for an asset that was taken off the queue.
unfoldable pub visit : Dict (List AssetRef) → AssetRef → Search → Search
visit adjacency asset s =
    let visited = key asset ∷ s.visited in
    if in_set (key asset) s.visited then s else record {
      queue =
          s.queue
          ++ select (λ (a : AssetRef). not (in_set (key a) visited))
              (neighbors adjacency (key asset));
      visited = visited;
      discovered = s.discovered ++ asset ∷ [];
    }

-- `while queue`; `none` when the fuel is used up first.
unfoldable pub run : ℕ → Dict (List AssetRef) → Search → Option (List AssetRef)
run zero adjacency s = elim s.queue [ [] ↦ some s.discovered | a ∷ rest ↦ none ]
run (suc fuel) adjacency s = elim s.queue [
  | [] ↦ some s.discovered
  | asset ∷ rest ↦ run fuel adjacency (visit adjacency asset (record s { queue = rest }))
]

-- The loop that counts the assets found by their kind.
unfoldable pub count_kinds : Dict ℕ → List AssetRef → Dict ℕ
count_kinds counts [] = counts
count_kinds counts (asset ∷ assets) =
    let value = kind_value asset.kind in
    count_kinds (put value (or_default (get value counts) 0 + 1) counts) assets

abbrev pub report_radius : AssetRef → List AssetRef → List AssetRef → BlastRadius
report_radius root direct found = record {
  root = root;
  direct = direct;
  downstream = found;
  counts = count_kinds [] found;
}

abbrev pub finish : AssetRef → List AssetRef → Option (List AssetRef) → Option BlastRadius
finish root direct none = none
finish root direct (some found) = some (report_radius root direct found)

abbrev pub start : AssetRef → List AssetRef → Search
start root direct = record { queue = direct; visited = key root ∷ []; discovered = [] }

unfoldable pub calculate_blast_radius : AssetRef → List DependencyEdge → Option BlastRadius
calculate_blast_radius root edges =
    let adjacency = adjacency_from [] edges in
    let direct = unique_from [] (neighbors adjacency (key root)) in
    finish root direct (run (length edges) adjacency (start root direct))
