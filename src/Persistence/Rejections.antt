-- ===== src/Persistence/Rejections.antt =====
-- A save whose candidate is rejected: the observation is stored before the candidate is tested.
use analyst_watch.Prelude.{
  Bool, true, false, ◌≡◌, refl, Option, some, [], ◌∷◌, ◌==◌, concat, get, get-put_self, contains,
}
use analyst_watch.Result.{err, value_error}
use analyst_watch.Models.{Observation, NotificationCandidate}
use analyst_watch.Memory.{MemoryStore, save_observation}

-- Saving a new observation of a known source with a candidate that belongs to another observation
-- raises and leaves the observation stored, so that a second save of it, with whatever candidate,
-- raises too, because the observation exists.
pub save_rejected-stores :
    (o : Observation) (b b' : Bool) (c : NotificationCandidate)
    (again : Option NotificationCandidate) (st : MemoryStore)
    → contains o.source_id st.sources ≡ true
    → contains o.id st.observations ≡ false
    → (c.observation_id == o.id) ≡ false
    → let (first, left) = save_observation o b (some c) st in
      (first ≡ err (value_error "Notification candidate must belong to the saved observation"))
      × (get o.id left.observations ≡ some o)
      × ((save_observation o b' again left).0
          ≡ err (value_error (concat ("Observation already exists: " ∷ o.id ∷ []))))
unfolding save_observation
save_rejected-stores o b b' c again st known new other =
    rw (known, new, other, get-put_self o.id o st.observations) (refl, refl, rw known refl)
