-- ===== src/Tests/Graphs.antt =====
-- The blast radius of a source in a graph of assets with a cycle.
use analyst_watch.Prelude.{put}
use analyst_watch.Dependencies.{adjacency_from, count_kinds, neighbors, run, unique_from, visit}
use analyst_watch.Workspaces.{validate_workspace_id}
use analyst_watch.Prelude.{
  none, some, true, false, ◌≡◌, ◌≢◌, ◌↔◌, refl, ◌∷◌, [], String, List, or_default, get, count_if,
  ◌==◌,
}
use analyst_watch.Result.{ok, err, value_error}
use analyst_watch.Dependencies.{
  AssetRef, DependencyEdge, key, validate_edge, calculate_blast_radius, BlastRadius, AssetKind,
  kind_value, has_key, HasDistinctAssets, IsDownstream,
}
use analyst_watch.Dependencies.Termination.{calculate_blast_radius-returns}
use analyst_watch.Dependencies.Found.{
  calculate_blast_radius-IsDownstream_iff, calculate_blast_radius-counts,
}

abbrev sales : AssetRef
sales = record { kind = AssetKind.source; id = "sales"; name = "Sales"; href = none }

abbrev finance_model : AssetRef
finance_model = record { kind = AssetKind.semantic_model; id = "m"; name = "Finance"; href = none }

abbrev board_report : AssetRef
board_report = record { kind = AssetKind.report; id = "r"; name = "Board"; href = none }

abbrev edge_of : String → AssetRef → AssetRef → DependencyEdge
edge_of id a b = record {
  id = id;
  workspace_id = "local";
  upstream = a;
  downstream = b;
  relationship = "feeds";
  discovered = false;
}

abbrev cycle : List DependencyEdge
cycle =
    edge_of "1" sales finance_model
    ∷ edge_of "2" finance_model board_report
    ∷ edge_of "3" board_report sales
    ∷ []

abbrev sales_radius : BlastRadius
sales_radius = record {
  root = sales;
  direct = finance_model ∷ [];
  downstream = finance_model ∷ board_report ∷ [];
  counts = ("semantic_model", 1) ∷ ("report", 1) ∷ [];
}

edge_accepted :
    validate_edge (edge_of "1" sales finance_model) ≡ ok (edge_of "1" sales finance_model)
unfolding validate_edge validate_workspace_id key
edge_accepted = refl

loop_rejected :
    validate_edge (edge_of "1" sales sales)
    ≡ err (value_error "dependency edge cannot point an asset to itself")
unfolding validate_edge validate_workspace_id key
loop_rejected = refl

radius_found : calculate_blast_radius sales cycle ≡ some sales_radius
unfolding calculate_blast_radius run unique_from neighbors get adjacency_from put key visit
    count_kinds
radius_found = refl

calculate_blast_radius-returns_example :
    (radius : BlastRadius) × (calculate_blast_radius sales cycle ≡ some radius)
calculate_blast_radius-returns_example = calculate_blast_radius-returns sales cycle

calculate_blast_radius-IsDownstream_iff_example :
    (has_key "report:r" sales_radius.downstream ≡ true) ↔ (
      ("report:r" ≢ key sales)
      × ((a : AssetRef) × (key a ≡ "report:r") × IsDownstream cycle sales a))
calculate_blast_radius-IsDownstream_iff_example =
    calculate_blast_radius-IsDownstream_iff sales cycle sales_radius "report:r" radius_found

calculate_blast_radius-counts_example :
    HasDistinctAssets sales_radius.downstream
    × ((kind : AssetKind)
        → or_default (get (kind_value kind) sales_radius.counts) 0
          ≡ count_if
              (λ (a : AssetRef). kind_value a.kind == kind_value kind)
              sales_radius.downstream)
calculate_blast_radius-counts_example =
    calculate_blast_radius-counts sales cycle sales_radius radius_found
