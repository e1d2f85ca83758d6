-- ===== src/Onboarding.antt =====
-- Adding a source through its preflight (`onboard_source` of analystwatch/service.py).
use analyst_watch.Prelude.{
  String, Bool, true, false, ◌≡◌, refl, none, some, arith, get, get-put, eq_iff, Bool-cases,
  is_some, inl, inr,
}
use analyst_watch.Models.{SourceDefinition}
use analyst_watch.Memory.{MemoryStore, get_source, upsert_source}
use analyst_watch.Service.{SourcePreflight, add_source, onboard_source}

-- What onboarding leaves of the store.
pub record IsOnboarded (source : SourceDefinition) (ready : Bool) (st st' : MemoryStore)
    : Type 0 where
  pub keeps :
      (i : String) (x : SourceDefinition) → get i st.sources ≡ some x → get i st'.sources ≡ some x
  pub adds :
      get source.id st.sources ≡ none → ready ≡ true → get source.id st'.sources ≡ some source
  pub refuses : ready ≡ false → st' ≡ st

-- Onboarding keeps every source that is there as it is, stores the new one if its id is free and
-- its preflight is ready, and leaves the store as it is if the preflight is not ready.
pub onboard_source-IsOnboarded :
    (preflight : SourceDefinition → SourcePreflight) (source : SourceDefinition) (st : MemoryStore)
    → IsOnboarded source (preflight source).ready st (onboard_source preflight source st).1
unfolding onboard_source add_source upsert_source get_source
onboard_source-IsOnboarded preflight source st =
    elim (Bool-cases (is_some (get source.id st.sources))) [
      | inl t ↦ rw t (record {
        keeps = λ i x h. h;
        adds = λ h r. absurd (let k = rw h at t in ground arith);
        refuses = λ r. refl;
      })
      | inr f ↦ elim (Bool-cases (preflight source).ready) [
        | inl y ↦
            rw (f, y)
              (record {
                keeps = λ i x h.
                    ground (arith, get-put source.id i source st.sources, eq_iff source.id i, f, h);
                adds = λ h r. ground (
                  arith,
                  get-put source.id source.id source st.sources,
                  eq_iff source.id source.id,
                );
                refuses = λ r. absurd (ground arith);
              })
        | inr n ↦
            rw (f, n)
              (record {
                keeps = λ i x h. h;
                adds = λ h r. absurd (ground arith);
                refuses = λ r. refl;
              })
      ]
    ]
