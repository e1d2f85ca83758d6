-- ===== src/Service/Sources.antt =====
-- Adding, onboarding and updating sources.
use analyst_watch.Prelude.{
  String, Bool, true, not, List, [], ◌∷◌, ◌==◌, concat, is_some, is_blank_or_padded, if◌then◌else◌,
}
use analyst_watch.Result.{Result, ok, err, Exec, value_error, key_error}
use analyst_watch.Exec.{pure, ◌>>=◌, ◌>>◌}
use analyst_watch.Models.{SourceDefinition}
use analyst_watch.Memory.{MemoryStore, upsert_source, get_source}

-- The part of `SourcePreflight` (analystwatch/preflight.py) that decides.
pub record SourcePreflight : Type 0 where
  pub ready : Bool
  pub accepted : Bool

unfoldable pub validate_execution_owner : String → Result String
unfolding is_blank_or_padded
validate_execution_owner owner =
    if is_blank_or_padded owner
    then err (value_error "execution owner must be non-empty and trimmed")
    else ok owner

unfoldable pub add_source : SourceDefinition → Exec MemoryStore SourceDefinition
unfolding upsert_source
add_source source = do upsert_source source; pure source

unfoldable pub add_sources : List SourceDefinition → Exec MemoryStore (List SourceDefinition)
add_sources [] = pure []
add_sources (s ∷ ss) = do t ← add_source s; ts ← add_sources ss; pure (t ∷ ts)

unfoldable pub onboard_source :
    (SourceDefinition → SourcePreflight) → SourceDefinition → Exec MemoryStore SourcePreflight
unfolding add_source get_source
onboard_source preflight source st =
    if is_some (get_source st source.id)
    then (
      err (
          value_error (
            concat (
              "Source ID already exists: " ∷ source.id
              ∷ ". Editing existing sources is a separate workflow." ∷ []))),
      st,
    )
    else if not (preflight source).ready
    then (ok (preflight source), st)
    else (ok (record (preflight source) { accepted = true }), (add_source source st).1)

unfoldable pub update_source :
    (SourceDefinition → SourcePreflight)
    → String
    → SourceDefinition
    → Exec MemoryStore SourcePreflight
unfolding add_source get_source
update_source preflight source_id replacement st =
    if not (is_some (get_source st source_id))
    then (err (key_error (concat ("Unknown source: " ∷ source_id ∷ []))), st)
    else if not (replacement.id == source_id)
    then (err (value_error "Source ID cannot change during an update"), st)
    else if not (preflight replacement).ready
    then (ok (preflight replacement), st)
    else (ok (record (preflight replacement) { accepted = true }), (add_source replacement st).1)
