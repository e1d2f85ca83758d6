-- ===== src/Dependencies/Assets.antt =====
-- `AssetRef`, `DependencyEdge`, `_unique_assets` and the adjacency of `calculate_blast_radius`,
-- analystwatch/dependencies.py.
use Prim.Native.String.{count}
use analyst_watch.Prelude.{
  ℕ, String, Bool, ◌&&◌, Option, none, some, List, [], ◌∷◌, ◌++◌, any, leb, concat, if◌then◌else◌,
  ◌==◌, Dict, get, put, not,
}
use analyst_watch.Result.{Result, ok, value_error, require, ◌>>=◌, ◌>>◌}
use analyst_watch.Workspaces.{validate_workspace_id}

pub data AssetKind : Type 0 where
  source : AssetKind
  workbook : AssetKind
  semantic_model : AssetKind
  report : AssetKind
  custom : AssetKind

-- The value of the enumeration's member.
abbrev pub kind_value : AssetKind → String
kind_value source = "source"
kind_value workbook = "workbook"
kind_value semantic_model = "semantic_model"
kind_value report = "report"
kind_value custom = "custom"

pub record AssetRef : Type 0 where
  pub kind : AssetKind
  pub id : String
  pub name : String
  pub href : Option String

unfoldable pub key : AssetRef → String
unfolding concat
key asset = concat (kind_value asset.kind ∷ ":" ∷ asset.id ∷ [])

pub record DependencyEdge : Type 0 where
  pub id : String
  pub workspace_id : String
  pub upstream : AssetRef
  pub downstream : AssetRef
  pub relationship : String
  pub discovered : Bool

-- `Field(min_length=lo, max_length=hi)`
abbrev pub has_length_within : ℕ → ℕ → String → Bool
has_length_within lo hi text = leb lo (count text) && leb (count text) hi

abbrev pub validate_asset_fields : AssetRef → Bool
validate_asset_fields asset = has_length_within 1 256 asset.id && has_length_within 1 256 asset.name

-- The bounds of the fields, then the model's validator.
unfoldable pub validate_edge : DependencyEdge → Result DependencyEdge
validate_edge edge = do
  require
      (has_length_within 1 256 edge.id
        && validate_asset_fields edge.upstream
        && validate_asset_fields edge.downstream
        && has_length_within 1 80 edge.relationship)
      (value_error "field length")
  workspace_id ← validate_workspace_id edge.workspace_id
  require (not (key edge.upstream == key edge.downstream))
      (value_error "dependency edge cannot point an asset to itself")
  ok (record edge { workspace_id = workspace_id })

-- `k in seen`, for a set of texts kept as a list.
abbrev pub in_set : String → List String → Bool
in_set k seen = any (λ j. j == k) seen

-- `_unique_assets`, with the keys seen before.
unfoldable pub unique_from : List String → List AssetRef → List AssetRef
unique_from seen [] = []
unique_from seen (asset ∷ assets) =
    let is_seen = in_set (key asset) seen in
    let rest = unique_from (if is_seen then seen else key asset ∷ seen) assets in
    if is_seen then rest else asset ∷ rest

-- `adjacency.get(k, [])`
unfoldable pub neighbors : Dict (List AssetRef) → String → List AssetRef
neighbors adjacency k = elim (get k adjacency) [ none ↦ [] | some assets ↦ assets ]

-- `for edge in edges: adjacency.setdefault(edge.upstream.key, []).append(edge.downstream)`
unfoldable pub adjacency_from : Dict (List AssetRef) → List DependencyEdge → Dict (List AssetRef)
adjacency_from adjacency [] = adjacency
adjacency_from adjacency (edge ∷ edges) =
    let k = key edge.upstream in
    adjacency_from (put k (neighbors adjacency k ++ edge.downstream ∷ []) adjacency) edges
