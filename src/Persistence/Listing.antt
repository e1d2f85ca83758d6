-- ===== src/Persistence/Listing.antt =====
-- The observations that a listing shows, and their order (analystwatch/memory_store.py).
use analyst_watch.Prelude.{
  ap, get, Option, none, some, ℕ, zero, suc, ◌≤◌, ◌<◌, ◌+◌, ◌∙◌, Dict, length-take_all,
  length-take_full, length-sort_by, String, true, ◌≡◌, refl, sym, subst, List, [], ◌∷◌, ◌++◌, arith,
  map, take, length, length-map, length-take-le, All, All-map, All-take, Perm, sort_by,
  sort_by-perm, IsSortedBy, IsOrder, sort_by-IsSortedBy, ltb, Bool-cases, inl, inr, ◌⊎◌,
}
use analyst_watch.Result.{Result, ok, err, key_error, ◌>>=◌}
use analyst_watch.Models.{Observation}
use analyst_watch.Memory.{
  MemoryStore, newest_first, observation_at, list_observations, index_all, number_from, ids_of,
}

newest_first-IsOrder : IsOrder newest_first
newest_first-IsOrder = record { total = λ a b h. ground arith; chain = λ a b c h k. ground arith }

-- The second of two numbered observations is older, or of the same time and saved no later.
abbrev pub IsOlder : ℕ × Observation → ℕ × Observation → Type 0
IsOlder p q =
    (q.1.observed_at < p.1.observed_at) ⊎ ((q.1.observed_at ≡ p.1.observed_at) × (q.0 ≤ p.0))

-- Each observation is newer than those after it.
abbrev pub IsNewestFirst : List (ℕ × Observation) → Type 0
IsNewestFirst [] = Unit
IsNewestFirst (p ∷ ps) = All (IsOlder p) ps × IsNewestFirst ps

newest_first-IsOlder : (p q : ℕ × Observation) → newest_first p q ≡ true → IsOlder p q
newest_first-IsOlder p q h = elim (Bool-cases (ltb q.1.observed_at p.1.observed_at)) [
  | inl t ↦ inl (ground arith)
  | inr f ↦ inr (ground arith, ground arith)
]

sorted-IsNewestFirst : (ps : List (ℕ × Observation)) → IsSortedBy newest_first ps → IsNewestFirst ps
sorted-IsNewestFirst [] h = tt
sorted-IsNewestFirst (p ∷ ps) h =
    (All-map _ _ ps (newest_first-IsOlder p) h.0, sorted-IsNewestFirst ps h.1)

-- What `take` leaves.
abbrev drop {ℓ} : {A : Type ℓ} → ℕ → List A → List A
drop zero xs = xs
drop (suc n) [] = []
drop (suc n) (x ∷ xs) = drop n xs

take-append-drop {ℓ} : {A : Type ℓ} (n : ℕ) (xs : List A) → take n xs ++ drop n xs ≡ xs
take-append-drop zero xs = refl
take-append-drop (suc n) [] = refl
take-append-drop (suc n) (x ∷ xs) = ap (λ ys. x ∷ ys) (take-append-drop n xs)

All-drop :
    (P : ℕ × Observation → Type 0) (n : ℕ) (ps : List (ℕ × Observation))
    → All P ps
    → All P (drop n ps)
All-drop P zero ps h = h
All-drop P (suc n) [] h = h
All-drop P (suc n) (p ∷ ps) h = All-drop P n ps h.1

take-IsNewestFirst :
    (n : ℕ) (ps : List (ℕ × Observation)) → IsNewestFirst ps → IsNewestFirst (take n ps)
take-IsNewestFirst zero ps h = tt
take-IsNewestFirst (suc n) [] h = tt
take-IsNewestFirst (suc n) (p ∷ ps) h = (All-take (IsOlder p) n ps h.0, take-IsNewestFirst n ps h.1)

-- What is left out is older than all that is taken.
drop-IsOlder :
    (n : ℕ) (ps : List (ℕ × Observation))
    → IsNewestFirst ps
    → All (λ p. All (IsOlder p) (drop n ps)) (take n ps)
drop-IsOlder zero ps h = tt
drop-IsOlder (suc n) [] h = tt
drop-IsOlder (suc n) (p ∷ ps) h = (All-drop (IsOlder p) n ps h.0, drop-IsOlder n ps h.1)

-- The observations that are stored under the ids, in their order.
abbrev pub AreStored : Dict Observation → List String → List Observation → Type 0
AreStored d [] [] = Unit
AreStored d (k ∷ ks) (o ∷ os) = (get k d ≡ some o) × AreStored d ks os
AreStored d _ _ = ⊥

module _ (st : MemoryStore) where
  length-number_from : (n : ℕ) (os : List Observation) → length (number_from n os) ≡ length os
  length-number_from n [] = refl
  length-number_from n (o ∷ os) = omega (arith, length-number_from (n + 1) os)

ok_list : (x y : List Observation) → ok x ≡ ok y → x ≡ y
ok_list x y h = ground arith

-- One step of the loop of `index_all`.
index_step-AreStored :
    (d : Dict Observation) (k : String) (ks : List String) (os : List Observation)
    (found : Option Observation) (rest : Result (List Observation))
    → get k d ≡ found
    → ((vs : List Observation) → rest ≡ ok vs → AreStored d ks vs)
    → (elim found [ none ↦ err (key_error k) | some v ↦ ok v ] >>= λ v. rest >>= λ vs. ok (v ∷ vs))
      ≡ ok os
    → AreStored d (k ∷ ks) os
index_step-AreStored d k ks os none rest g f h = absurd (ground arith)
index_step-AreStored d k ks os (some v) (err e) g f h = absurd (ground arith)
index_step-AreStored d k ks os (some v) (ok vs) g f h =
    subst (AreStored d (k ∷ ks)) (ok_list (v ∷ vs) os h) (g, f vs refl)

index_all-AreStored :
    (d : Dict Observation) (ks : List String) (os : List Observation)
    → index_all d ks ≡ ok os
    → AreStored d ks os
index_all-AreStored d [] os h = subst (AreStored d []) (ok_list [] os h) tt
index_all-AreStored d (k ∷ ks) os h =
    index_step-AreStored d k ks os (get k d) (index_all d ks) refl (index_all-AreStored d ks) h

length-AreStored :
    (d : Dict Observation) (ks : List String) (os : List Observation)
    → AreStored d ks os
    → length os ≡ length ks
length-AreStored d [] [] h = refl
length-AreStored d [] (o ∷ os) h = absurd h
length-AreStored d (k ∷ ks) [] h = absurd h
length-AreStored d (k ∷ ks) (o ∷ os) h = ap suc (length-AreStored d ks os h.1)

-- What a listing is, by the ids of its source: the stored observations of the ids, numbered, are
-- those that it shows and a rest that is older; it shows them newest first, with the marker of the
-- baseline.
pub record IsListing (st : MemoryStore) (ids : List String) (limit : ℕ) (os : List Observation)
    : Type 0 where
  pub items : List Observation
  pub stored : AreStored st.observations ids items
  pub listed : List (ℕ × Observation)
  pub rest : List (ℕ × Observation)
  pub divided : Perm (listed ++ rest) (number_from 0 items)
  pub shown : map (observation_at st) listed ≡ os
  pub newest : IsNewestFirst listed
  pub older : All (λ p. All (IsOlder p) rest) listed
  pub within : length os ≤ limit
  pub complete : length ids ≤ limit → length os ≡ length ids
  pub full : limit ≤ length ids → length os ≡ limit

listed-IsListing :
    (st : MemoryStore) (ids : List String) (limit : ℕ) (items os : List Observation)
    → AreStored st.observations ids items
    → map (observation_at st) (take limit (sort_by newest_first (number_from 0 items))) ≡ os
    → IsListing st ids limit os
listed-IsListing st ids limit items os n e =
    let sorted = sort_by newest_first (number_from 0 items) in
    let order =
      sorted-IsNewestFirst sorted
        (sort_by-IsSortedBy newest_first newest_first-IsOrder (number_from 0 items)) in
    let same : length sorted ≡ length ids =
      length-sort_by newest_first (number_from 0 items)
      ∙ (length-number_from st 0 items ∙ length-AreStored st.observations ids items n) in
    let shown : length os ≡ length (take limit sorted) =
      sym (ap length e) ∙ length-map (observation_at st) (take limit sorted) in
    record {
      items = items;
      stored = n;
      listed = take limit sorted;
      rest = drop limit sorted;
      divided =
          subst (λ xs. Perm xs (number_from 0 items)) (sym (take-append-drop limit sorted))
            (sort_by-perm newest_first (number_from 0 items));
      shown = e;
      newest = take-IsNewestFirst limit sorted order;
      older = drop-IsOlder limit sorted order;
      within = omega (arith, shown, length-take-le limit sorted);
      complete = λ h. shown ∙ (length-take_all limit sorted (omega (arith, same)) ∙ same);
      full = λ h. shown ∙ length-take_full limit sorted (omega (arith, same));
    }

indexed-IsListing :
    (st : MemoryStore) (ids : List String) (limit : ℕ) (os : List Observation)
    (r : Result (List Observation))
    → index_all st.observations ids ≡ r
    → (r >>= λ items.
        ok (map (observation_at st) (take limit (sort_by newest_first (number_from 0 items)))))
      ≡ ok os
    → IsListing st ids limit os
indexed-IsListing st ids limit os (err e) i h = absurd (ground arith)
indexed-IsListing st ids limit os (ok items) i h =
    listed-IsListing st ids limit items os (index_all-AreStored st.observations ids items i)
      (ok_list _ os h)

-- Listing a source's observations gives the newest of the observations that are stored under its
-- ids, each once for each place among the ids, with the marker of the baseline: as many as the
-- limit, or all of them if there are fewer. Each is newer than those after it and than those left
-- out, or of the same time and saved no earlier.
pub list_observations-IsListing :
    (st : MemoryStore) (source_id : String) (limit : ℕ) (os : List Observation)
    → list_observations st source_id limit ≡ ok os
    → IsListing st (ids_of st.observation_ids source_id) limit os
unfolding list_observations
list_observations-IsListing st source_id limit os h =
    indexed-IsListing st (ids_of st.observation_ids source_id) limit os _ refl h
