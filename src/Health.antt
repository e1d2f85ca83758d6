-- ===== src/Health.antt =====
-- The health of the observation that a check of a source makes (`_check_source` of
-- analystwatch/service.py).
use analyst_watch.Prelude.{String, ◌≡◌, ◌↔◌, Option, none, some, List, [], All}
use analyst_watch.Models.{
  healthy, DatasetProfile, MonitoringConfig, Observation, SourceDefinition, Instant,
}
use analyst_watch.Detectors.{detect_profile_changes}
use analyst_watch.Detectors.Severity.{
  AreAlarms, alarms-append, critical_alarm, freshness-AreAlarms, profile_changes-AreAlarms,
  health_from_alarms, no_alarm,
}
use analyst_watch.DataRules.Outcomes.{IsContract, rules-AreAlarms}
use analyst_watch.Service.{Dataset, Ingested, usable, drift, findings_of, observe}

of_profile :
    (history : List DatasetProfile) (config : MonitoringConfig) (p : DatasetProfile)
    (before : Option DatasetProfile)
    → AreAlarms (elim before [ none ↦ [] | some x ↦ detect_profile_changes x p config history ])
of_profile history config p none = no_alarm
of_profile history config p (some x) = profile_changes-AreAlarms x p config history

drift-AreAlarms :
    (b : Option Observation) (history : List DatasetProfile) (config : MonitoringConfig)
    (p : DatasetProfile)
    → AreAlarms (drift b history config p)
drift-AreAlarms none history config p = no_alarm
drift-AreAlarms (some b) history config p = of_profile history config p b.profile

findings-AreAlarms :
    (config : MonitoringConfig) (r : Ingested) (at : Instant) (b : Option Observation)
    (history : List DatasetProfile) (d : Option Dataset)
    → All IsContract config.data_rules
    → AreAlarms (findings_of config r at b history d)
findings-AreAlarms config r at b history none h = critical_alarm "availability"
findings-AreAlarms config r at b history (some d) h =
    alarms-append _ _ (rules-AreAlarms d.frame config.data_rules h) (
      alarms-append _ _ (freshness-AreAlarms config d.profile r.source_modified_at at)
        (drift-AreAlarms b history config d.profile))

-- The observation of a check is Healthy exactly if the check has no finding to report, provided
-- that the data rules of the source are valid.
pub observe-healthy_iff :
    (id : String) (source : SourceDefinition) (at : Instant) (b : Option Observation)
    (history : List DatasetProfile) (r : Ingested)
    → All IsContract source.config.data_rules
    → ((observe id source at b history r).health ≡ healthy)
      ↔ ((observe id source at b history r).findings ≡ [])
unfolding observe
observe-healthy_iff id source at b history r h =
    health_from_alarms _ (findings-AreAlarms source.config r at b history (usable r) h)
