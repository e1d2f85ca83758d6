-- ===== src/Reconciliations/Queue.antt =====
-- What stands in the reconciliation queue of analystwatch/reconciliation.py.
use analyst_watch.Prelude.{
  ℕ, zero, suc, ◌+◌, ◌-◌, ◌≤◌, Bool, ◌&&◌, true, false, ◌≡◌, refl, sym, ◌∙◌, ap, none, List, [],
  ◌∷◌, In, In-select, In-sort_by, ◌++◌, length, length-append, length-map, select, sort_by,
  IsSortedBy, insert_by, IsOrder, sort_by-IsSortedBy, length-sort_by, take, take-IsSortedBy,
  length-take-le, length-take_all, All, count_if, map, leb, ◌⊎◌, inl, inr, Bool-cases, arith,
  if◌then◌else◌, not, eqb, subst,
}
use mathlib.Core.List.{append_assoc, append-nil}
use analyst_watch.Result.{ok, bind-ok, same_ok, require-ok}
use analyst_watch.Models.{DeliveryAttempt, Instant, now_or_clock}
use analyst_watch.Memory.{MemoryStore, list_delivery_attempts}
use analyst_watch.Reconciliations.{
  QueueItem, DeliveryReconciliationQueue, QueueRequest, is_stale, item_of, collect, is_prepared,
  older_first, prepared_of, queue_of, build_delivery_reconciliation_queue,
}

older_first-IsOrder : IsOrder older_first
older_first-IsOrder = record { total = λ a b h. ground arith; chain = λ a b c h k. ground arith }

length-select :
    (p : DeliveryAttempt → Bool) (xs : List DeliveryAttempt) → length (select p xs) ≡ count_if p xs
length-select p [] = refl
length-select p (x ∷ xs) = ground (arith, length-select p xs)

module _ (st : MemoryStore) (current : Instant) (stale_after limit : ℕ) where
  abbrev show : DeliveryAttempt → QueueItem
  show = item_of st current stale_after

  nothing_taken : (k : ℕ) (items : List QueueItem) → items ≡ items ++ map show (take k [])
  nothing_taken zero items = sym (append-nil items)
  nothing_taken (suc k) items = sym (append-nil items)

  -- One more attempt takes a place, if there is one.
  next_room :
      (items : List QueueItem) (a : DeliveryAttempt) (attempts : List DeliveryAttempt)
      → (let kept : List QueueItem =
            if leb limit (length items) then items else items ++ show a ∷ [] in
          kept ++ map show (take (limit - length kept) attempts))
        ≡ items ++ map show (take (limit - length items) (a ∷ attempts))
  next_room items a attempts = elim (Bool-cases (leb limit (length items))) [
    | inl t ↦ let none_left : limit - length items ≡ 0 = ground arith in rw (t, none_left) refl
    | inr f ↦
        let room : limit - length items ≡ suc (limit - length (items ++ show a ∷ [])) =
          ground (arith, length-append items (show a ∷ [])) in
        rw (f, room) (append_assoc items (show a ∷ []) _)
  ]

  -- What the loop adds: the first attempts as far as there is room, and the number of stale ones.
  collect-items :
      (items : List QueueItem) (n : ℕ) (attempts : List DeliveryAttempt)
      → (collect st current stale_after limit items n attempts).0
        ≡ items ++ map show (take (limit - length items) attempts)
  unfolding collect
  collect-items items n [] = nothing_taken (limit - length items) items
  collect-items items n (a ∷ attempts) =
      collect-items (if leb limit (length items) then items else items ++ show a ∷ [])
        (if is_stale current stale_after a then n + 1 else n) attempts
      ∙ next_room items a attempts

  collect-stale :
      (items : List QueueItem) (n : ℕ) (attempts : List DeliveryAttempt)
      → (collect st current stale_after limit items n attempts).1
        ≡ n + count_if (is_stale current stale_after) attempts
  unfolding collect
  collect-stale items n [] = omega arith
  collect-stale items n (a ∷ attempts) =
      collect-stale (if leb limit (length items) then items else items ++ show a ∷ [])
        (if is_stale current stale_after a then n + 1 else n) attempts
      ∙ ground arith

  none_stale :
      (a : DeliveryAttempt) (attempts : List DeliveryAttempt)
      → is_stale current stale_after a ≡ false
      → All (λ b. older_first a b ≡ true) attempts
      → count_if (is_stale current stale_after) attempts ≡ 0
  none_stale a [] f h = refl
  none_stale a (b ∷ attempts) f h = let first = h.0 in ground (arith, none_stale a attempts f h.1)

  -- Of attempts that come oldest first, the first are all stale, or they are all that are stale.
  stale_first :
      (k : ℕ) (attempts : List DeliveryAttempt)
      → IsSortedBy older_first attempts
      → All (λ (i : QueueItem). i.stale ≡ true) (map show (take k attempts))
        ⊎ (count_if (λ (i : QueueItem). i.stale) (map show (take k attempts))
            ≡ count_if (is_stale current stale_after) attempts)
  stale_first zero [] s = inl tt
  stale_first zero (a ∷ attempts) s = inl tt
  stale_first (suc k) [] s = inl tt
  stale_first (suc k) (a ∷ attempts) s = elim (Bool-cases (is_stale current stale_after a)) [
    | inl t ↦ elim (stale_first k attempts s.1) [
      | inl all ↦ inl (t, all)
      | inr e ↦ inr (ground arith)
    ]
    | inr f ↦ inr (ground (arith, none_stale a attempts f s.0, none_stale_shown k a attempts f s.0))
  ]
    where
      none_stale_shown :
          (k : ℕ) (a : DeliveryAttempt) (attempts : List DeliveryAttempt)
          → is_stale current stale_after a ≡ false
          → All (λ b. older_first a b ≡ true) attempts
          → count_if (λ (i : QueueItem). i.stale) (map show (take k attempts)) ≡ 0
      none_stale_shown zero a [] f h = refl
      none_stale_shown zero a (b ∷ attempts) f h = refl
      none_stale_shown (suc k) a [] f h = refl
      none_stale_shown (suc k) a (b ∷ attempts) f h =
          let first = h.0 in ground (arith, none_stale_shown k a attempts f h.1)

-- Each item is no younger than those after it.
abbrev pub IsOldestFirst : List QueueItem → Type 0
IsOldestFirst [] = Unit
IsOldestFirst (i ∷ is) = All (λ (j : QueueItem). i.created_at ≤ j.created_at) is × IsOldestFirst is

-- The queue that a scan of the attempts gives.
pub record IsQueue (queue : DeliveryReconciliationQueue) (scanned : List DeliveryAttempt)
    : Type 0 where
  pub within : length queue.items ≤ queue.item_limit
  pub listed :
      (i : QueueItem)
      → In i queue.items
      → (a : DeliveryAttempt) × In a scanned × (is_prepared a ≡ true) × (i.attempt_id ≡ a.id)
  pub prepared_count : queue.prepared_count ≡ count_if is_prepared scanned
  pub stale_count :
      queue.stale_count
      ≡ count_if
          (λ (a : DeliveryAttempt).
            is_prepared a && is_stale queue.generated_at queue.stale_after_minutes a)
          scanned
  pub complete : queue.item_limit_reached ≡ false → length queue.items ≡ queue.prepared_count
  pub ordered : IsOldestFirst queue.items
  pub stale_first :
      All (λ (i : QueueItem). i.stale ≡ true) queue.items
      ⊎ (count_if (λ (i : QueueItem). i.stale) queue.items ≡ queue.stale_count)

count_if-insert_by :
    (p : DeliveryAttempt → Bool) (a : DeliveryAttempt) (xs : List DeliveryAttempt)
    → count_if p (insert_by older_first a xs) ≡ count_if p (a ∷ xs)
count_if-insert_by p a [] = refl
count_if-insert_by p a (x ∷ xs) = ground (arith, count_if-insert_by p a xs)

count_if-sort_by :
    (p : DeliveryAttempt → Bool) (xs : List DeliveryAttempt)
    → count_if p (sort_by older_first xs) ≡ count_if p xs
count_if-sort_by p [] = refl
count_if-sort_by p (x ∷ xs) =
    count_if-insert_by p x (sort_by older_first xs) ∙ ground (arith, count_if-sort_by p xs)

count_if-select :
    (p q : DeliveryAttempt → Bool) (xs : List DeliveryAttempt)
    → count_if q (select p xs) ≡ count_if (λ a. p a && q a) xs
count_if-select p q [] = refl
count_if-select p q (x ∷ xs) = ground (arith, count_if-select p q xs)

module _ (st : MemoryStore) (current : Instant) (r : QueueRequest) where
  In-shown :
      (k : ℕ) (i : QueueItem) (xs : List DeliveryAttempt)
      → In i (map (item_of st current r.stale_after_minutes) (take k xs))
      → (a : DeliveryAttempt) × In a xs × (i.attempt_id ≡ a.id)
  In-shown zero i [] m = elim m [ ]
  In-shown zero i (x ∷ xs) m = elim m [ ]
  In-shown (suc k) i [] m = elim m [ ]
  In-shown (suc k) i (x ∷ xs) m = elim m [
    | inl e ↦ (x, inl refl, ap (λ (j : QueueItem). j.attempt_id) e)
    | inr n ↦ let (a, in_xs, e) = In-shown k i xs n in (a, inr in_xs, e)
  ]

  In-listed :
      (scanned : List DeliveryAttempt) (i : QueueItem)
      → In i (map (item_of st current r.stale_after_minutes) (take r.limit (prepared_of scanned)))
      → (a : DeliveryAttempt) × In a scanned × (is_prepared a ≡ true) × (i.attempt_id ≡ a.id)
  In-listed scanned i m =
      let (a, n, e) = In-shown r.limit i (prepared_of scanned) m in
      let (own, is) = In-select is_prepared scanned a (In-sort_by older_first a _ n) in
      (a, own, is, e)

  All-younger :
      (a : DeliveryAttempt) (xs : List DeliveryAttempt)
      → All (λ b. older_first a b ≡ true) xs
      → All
          (λ (i : QueueItem). a.created_at ≤ i.created_at)
          (map (item_of st current r.stale_after_minutes) xs)
  All-younger a [] h = tt
  All-younger a (x ∷ xs) h = (let first = h.0 in ground arith, All-younger a xs h.1)

  map-IsOldestFirst :
      (xs : List DeliveryAttempt)
      → IsSortedBy older_first xs
      → IsOldestFirst (map (item_of st current r.stale_after_minutes) xs)
  map-IsOldestFirst [] s = tt
  map-IsOldestFirst (x ∷ xs) s = (All-younger x xs s.0, map-IsOldestFirst xs s.1)

  queue_of-IsQueue :
      (scanned : List DeliveryAttempt) → IsQueue (queue_of st current r scanned) scanned
  queue_of-IsQueue scanned =
      let waiting = prepared_of scanned in
      let sorted =
        sort_by-IsSortedBy older_first older_first-IsOrder (select is_prepared scanned) in
      let items = collect-items st current r.stale_after_minutes r.limit [] 0 waiting in
      let stale : (collect st current r.stale_after_minutes r.limit [] 0 waiting).1
          ≡ count_if (is_stale current r.stale_after_minutes) waiting =
        omega (arith, collect-stale st current r.stale_after_minutes r.limit [] 0 waiting) in
      let taken : r.limit - 0 ≡ r.limit = omega arith in
      let place =
        items
        ∙ ap (λ (k : ℕ). map (item_of st current r.stale_after_minutes) (take k waiting)) taken in
      record {
        within =
            rw (place, length-map (item_of st current r.stale_after_minutes) (take r.limit waiting))
              (length-take-le r.limit waiting);
        listed = rw place (In-listed scanned);
        prepared_count =
            length-sort_by older_first (select is_prepared scanned)
            ∙ length-select is_prepared scanned;
        stale_count =
            stale
            ∙ (count_if-sort_by (is_stale current r.stale_after_minutes)
                  (select is_prepared scanned)
                ∙ count_if-select is_prepared (is_stale current r.stale_after_minutes) scanned);
        complete = λ h.
            rw (place, length-map (item_of st current r.stale_after_minutes) (take r.limit waiting))
              (length-take_all r.limit waiting (ground arith));
        ordered = rw place (
            map-IsOldestFirst (take r.limit waiting)
              (take-IsSortedBy older_first r.limit waiting sorted));
        stale_first =
            rw (place, stale)
              (stale_first st current r.stale_after_minutes r.limit r.limit waiting sorted);
      }

-- The queue that is built from the store lists, from the delivery attempts that the scan found,
-- prepared ones, oldest first, at most as many as the limit, and all if that limit is not exceeded;
-- it counts the prepared ones and the stale ones among them, and a stale attempt is left out only
-- if every listed one is stale.
pub build_delivery_reconciliation_queue-IsQueue :
    (st : MemoryStore) (r : QueueRequest) (clock : Instant) (queue : DeliveryReconciliationQueue)
    → build_delivery_reconciliation_queue st r clock ≡ ok queue
    → (scanned : List DeliveryAttempt) × (list_delivery_attempts st none none r.scan_limit
        ≡ ok scanned)
      × IsQueue queue scanned
unfolding build_delivery_reconciliation_queue
build_delivery_reconciliation_queue-IsQueue st r clock queue h =
    let (a, h1) = require-ok (not (eqb r.stale_after_minutes 0)) _ _ queue h in
    let (b, h2) = require-ok (not (eqb r.limit 0)) _ _ queue h1 in
    let (c, h3) = require-ok (not (eqb r.scan_limit 0)) _ _ queue h2 in
    let (scanned, s, h4) =
      bind-ok (list_delivery_attempts st none none r.scan_limit)
        (λ scanned. ok (queue_of st (now_or_clock r.now clock) r scanned)) queue h3 in
    let same = same_ok (queue_of st (now_or_clock r.now clock) r scanned) queue h4 in
    (
      scanned,
      s,
      subst (λ q. IsQueue q scanned) same
          (queue_of-IsQueue st (now_or_clock r.now clock) r scanned),
    )
