-- ===== src/Tests/Tenants.antt =====
-- Two workspaces over one store.
use analyst_watch.Prelude.{String, true, none, ◌≡◌, ◌≢◌, refl, get, put, eq_iff, arith}
use analyst_watch.Result.{ok}
use analyst_watch.Models.{SourceDefinition, Observation}
use analyst_watch.Memory
use analyst_watch.Memory.{MemoryStore, empty_store}
use analyst_watch.Workspaces.Bound.{owns_source}
use analyst_watch.Workspaces.Calls.{
  upsert_source, save_observation, may_upsert, may_save, require_source, guarded,
}
use analyst_watch.Workspaces.Steps.{Calls, done, then_call, upserts, saves, IsFiled}
use analyst_watch.Workspaces.Isolation.{ReadsSame, workspace_isolation, Calls-IsFiled}
use analyst_watch.Samples.{source, o1, o2}

abbrev their_source : SourceDefinition
their_source = record source { id = "t"; workspace_id = "other" }

abbrev their_observation : Observation
their_observation = record o1 { id = "p1"; source_id = "t" }

abbrev with_source : MemoryStore
with_source = (upsert_source "other" their_source empty_store).1

abbrev theirs : MemoryStore
theirs = (save_observation "other" their_observation true none with_source).1

theirs_made : Calls "other" empty_store theirs
theirs_made =
    then_call empty_store with_source theirs
      (then_call empty_store empty_store with_source (done empty_store)
        (upserts their_source empty_store))
      (saves their_observation true none with_source)

empty-IsFiled : IsFiled empty_store
unfolding get
empty-IsFiled = record { listed = λ s i m. elim m [ ]; marked = λ s i g. absurd (ground arith) }

abbrev our_source_there : MemoryStore
our_source_there = (upsert_source "w" source theirs).1

abbrev both : MemoryStore
both = (save_observation "w" o2 true none our_source_there).1

both_saved : (save_observation "w" o2 true none our_source_there).0 ≡ ok tt
unfolding save_observation upsert_source guarded may_save may_upsert require_source owns_source
    Memory.save_observation Memory.upsert_source Memory.get_source get put
both_saved = refl

other_workspace : ◌≢◌ {A = String} "other" "w"
other_workspace e = absurd (ground (arith, eq_iff "other" "w"))

abbrev ours_made : Calls "w" theirs both
ours_made =
    then_call theirs our_source_there both
      (then_call theirs theirs our_source_there (done theirs) (upserts source theirs))
      (saves o2 true none our_source_there)

workspace_isolation_example : ReadsSame "other" theirs both
workspace_isolation_example =
    workspace_isolation "other" "w" theirs both other_workspace
      (Calls-IsFiled "other" empty_store theirs theirs_made empty-IsFiled) ours_made
