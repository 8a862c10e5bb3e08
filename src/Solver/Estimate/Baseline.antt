-- ===== src/Solver/Estimate/Baseline.antt =====
-- The group of a history that the model's baseline comes from.
use praktikum.Prelude.{
  ℤ, eq_ℤ, ltb_ℤ, ◌≤ℤ◌, ◌+ℤ◌, one_ℤ, Bool, true, false, List, [], ◌∷◌, ◌++◌, map, All, ◌≡◌, refl,
  arith, if◌then◌else◌,
}
use praktikum.Runtime.{Runtime}
use praktikum.Api.{HistorySpec}
use praktikum.Solver.Formulas.{ModelParams}
use praktikum.Solver.Estimate.{
  Groups, add_entry, add_all, group_by_n, insert_key, sort_keys, sorted_keys, average,
  estimate_from, estimate_model,
}
use praktikum.Solver.Estimate.Groups.{entries_at, has_entry, group_at-group_by_n}

abbrev keys : {Q : Type 0} → Groups Q → List ℤ
keys m = map (λ g. g.0) m

-- Properties of node counts, and the sorting of keys.
module _ (P : ℤ → Type 0) where
  insert_key-All : (k : ℤ) (ks : List ℤ) → P k → All P ks → All P (insert_key k ks)
  unfolding insert_key
  insert_key-All k [] p h = (p, tt)
  insert_key-All k (j ∷ ks) p h = choose (insert_key-All k ks p h.1) (ltb_ℤ k j)
    where
      choose :
          All P (insert_key k ks)
          → (b : Bool) → All P (if b then k ∷ j ∷ ks else j ∷ insert_key k ks)
      choose ih true = (p, h)
      choose ih false = (h.0, ih)

  insert_key-All_back : (k : ℤ) (ks : List ℤ) → All P (insert_key k ks) → P k × All P ks
  unfolding insert_key
  insert_key-All_back k [] h = h
  insert_key-All_back k (j ∷ ks) h = choose (insert_key-All_back k ks) (ltb_ℤ k j) h
    where
      choose :
          (All P (insert_key k ks) → P k × All P ks)
          → (b : Bool) → All P (if b then k ∷ j ∷ ks else j ∷ insert_key k ks)
          → P k × All P (j ∷ ks)
      choose ih true a = a
      choose ih false a = let rest = ih a.1 in (rest.0, (a.0, rest.1))

  sort_keys-All : (ks : List ℤ) → All P ks → All P (sort_keys ks)
  unfolding sort_keys
  sort_keys-All [] h = tt
  sort_keys-All (k ∷ ks) h = insert_key-All k (sort_keys ks) h.0 (sort_keys-All ks h.1)

  sort_keys-All_back : (ks : List ℤ) → All P (sort_keys ks) → All P ks
  unfolding sort_keys
  sort_keys-All_back [] h = tt
  sort_keys-All_back (k ∷ ks) h =
      let back = insert_key-All_back k (sort_keys ks) h in (back.0, sort_keys-All_back ks back.1)

  -- A property of every entry's node count is one of every key.
  add_entry-All :
      {Q : Type 0} (e : HistorySpec Q) (m : Groups Q)
      → P e.nodes
      → All P (keys m)
      → All P (keys (add_entry e m))
  unfolding add_entry
  add_entry-All e [] p h = (p, tt)
  add_entry-All e ((k, es) ∷ m) p h = choose (add_entry-All e m p h.1) (eq_ℤ k e.nodes)
    where
      choose :
          All P (keys (add_entry e m))
          → (b : Bool) → All P (keys (if b then (k, es ++ e ∷ []) ∷ m else (k, es) ∷ add_entry e m))
      choose ih true = h
      choose ih false = (h.0, ih)

  add_all-All :
      {Q : Type 0} (m : Groups Q) (es : List (HistorySpec Q))
      → All (λ e. P e.nodes) es
      → All P (keys m)
      → All P (keys (add_all m es))
  unfolding add_all
  add_all-All m [] p h = h
  add_all-All m (e ∷ es) p h = add_all-All (add_entry e m) es p.1 (add_entry-All e m p.0 h)

abbrev IsLow : ℤ → List ℤ → Type 0
IsLow k ks = All (λ j. k ≤ℤ j) ks

abbrev IsAscending : List ℤ → Type 0
IsAscending [] = Unit {0}
IsAscending (k ∷ ks) = IsLow k ks × IsAscending ks

IsLow-weaken : (k j : ℤ) (ks : List ℤ) → k ≤ℤ j → IsLow j ks → IsLow k ks
IsLow-weaken k j [] p h = tt
IsLow-weaken k j (i ∷ ks) p h = (omega (arith, p, h.0), IsLow-weaken k j ks p h.1)

insert_key-IsAscending : (k : ℤ) (ks : List ℤ) → IsAscending ks → IsAscending (insert_key k ks)
unfolding insert_key
insert_key-IsAscending k [] h = (tt, tt)
insert_key-IsAscending k (j ∷ ks) h = choose (insert_key-IsAscending k ks h.1) (ltb_ℤ k j) refl
  where
    choose :
        IsAscending (insert_key k ks)
        → (b : Bool) → ltb_ℤ k j ≡ b
        → IsAscending (if b then k ∷ j ∷ ks else j ∷ insert_key k ks)
    choose ih true e = let le : k ≤ℤ j = ground arith in ((le, IsLow-weaken k j ks le h.0), h)
    choose ih false e = (insert_key-All (λ i. j ≤ℤ i) k ks (ground arith) h.0, ih)

sort_keys-IsAscending : (ks : List ℤ) → IsAscending (sort_keys ks)
unfolding sort_keys
sort_keys-IsAscending [] = tt
sort_keys-IsAscending (k ∷ ks) = insert_key-IsAscending k (sort_keys ks) (sort_keys-IsAscending ks)

sorted_keys-IsAscending : {Q : Type 0} (m : Groups Q) → IsAscending (sorted_keys m)
unfolding sorted_keys
sorted_keys-IsAscending m = sort_keys-IsAscending (keys m)

not_above : (n : ℤ) → (n +ℤ one_ℤ) ≤ℤ n → ⊥
not_above n h = ground arith

-- A lower bound of the keys is one of the entries.
module _ {Q : Type 0} (n : ℤ) where
  add_entry-IsLow :
      (e : HistorySpec Q) (m : Groups Q)
      → IsLow n (keys (add_entry e m))
      → (n ≤ℤ e.nodes) × IsLow n (keys m)
  unfolding add_entry
  add_entry-IsLow e [] h = h
  add_entry-IsLow e ((k, es) ∷ m) h = choose (add_entry-IsLow e m) (eq_ℤ k e.nodes) refl h
    where
      choose :
          (IsLow n (keys (add_entry e m)) → (n ≤ℤ e.nodes) × IsLow n (keys m))
          → (b : Bool) → eq_ℤ k e.nodes ≡ b
          → IsLow n (keys (if b then (k, es ++ e ∷ []) ∷ m else (k, es) ∷ add_entry e m))
          → (n ≤ℤ e.nodes) × IsLow n (keys ((k, es) ∷ m))
      choose ih true q a = let low = a.0 in (ground arith, a)
      choose ih false q a = let rest = ih a.1 in (rest.0, (a.0, rest.1))

  add_all-IsLow :
      (m : Groups Q) (es : List (HistorySpec Q))
      → IsLow n (keys (add_all m es))
      → All (λ e. n ≤ℤ e.nodes) es × IsLow n (keys m)
  unfolding add_all
  add_all-IsLow m [] h = (tt, h)
  add_all-IsLow m (e ∷ es) h =
      let rest = add_all-IsLow (add_entry e m) es h in
      let first = add_entry-IsLow e m rest.1 in ((first.0, rest.0), first.1)

module _ {Q : Type 0} where
  used-more :
      (x : HistorySpec Q) (es all : List (HistorySpec Q))
      → All (λ e. has_entry e.nodes all ≡ true) es
      → All (λ e. has_entry e.nodes (x ∷ all) ≡ true) es
  used-more x [] all h = tt
  used-more x (e ∷ es) all h = (ground (arith, h.0), used-more x es all h.1)

  each_used : (es : List (HistorySpec Q)) → All (λ e. has_entry e.nodes es ≡ true) es
  each_used [] = tt
  each_used (e ∷ es) = (ground arith, used-more e es es (each_used es))

  -- A lower bound of the sorted keys is one of the entries.
  sorted_keys-IsLow :
      (n : ℤ) (es : List (HistorySpec Q))
      → IsLow n (sorted_keys (group_by_n es))
      → All (λ e. n ≤ℤ e.nodes) es
  unfolding sorted_keys group_by_n
  sorted_keys-IsLow n es h =
      (add_all-IsLow n [] es (sort_keys-All_back (λ j. n ≤ℤ j) (keys (group_by_n es)) h)).0

  sorted_keys-used :
      (es : List (HistorySpec Q)) → All (λ k. has_entry k es ≡ true) (sorted_keys (group_by_n es))
  unfolding sorted_keys group_by_n
  sorted_keys-used es =
      sort_keys-All (λ k. has_entry k es ≡ true) (keys (group_by_n es))
        (add_all-All (λ k. has_entry k es ≡ true) [] es (each_used es) tt)

-- What the model takes from the entries with the least node count, and from all of them.
pub record IsBaseline (rt : Runtime) (history : List (HistorySpec rt.Quantity))
    (mp : ModelParams rt) : Type 0 where
  pub n_min : ℤ
  pub least : All (λ e. n_min ≤ℤ e.nodes) history
  pub used : has_entry n_min history ≡ true
  pub throughput :
      mp.p_baseline
      ≡ rt.div
          (average rt (map (λ e. rt.quantity_value e.throughput) (entries_at n_min history)))
          (rt.of_int n_min)
  pub work :
      mp.w ≡ average rt (map (λ e. rt.quantity_value e.total_work) (entries_at n_min history))
  pub provisioning :
      mp.t_prov_avg ≡ average rt (map (λ e. rt.quantity_value e.provisioning_seconds) history)

module _ (rt : Runtime) where
  estimate_from-IsBaseline :
      (e : HistorySpec rt.Quantity) (es : List (HistorySpec rt.Quantity)) (ks : List ℤ)
      → ((n : ℤ) → IsLow n ks → All (λ x. n ≤ℤ x.nodes) (e ∷ es))
      → IsAscending ks
      → All (λ k. has_entry k (e ∷ es) ≡ true) ks
      → IsBaseline rt (e ∷ es) (estimate_from rt (group_by_n (e ∷ es)) ks (e ∷ es))
  unfolding estimate_from
  estimate_from-IsBaseline e es [] low up used =
      absurd (not_above e.nodes (low (e.nodes +ℤ one_ℤ) tt).0)
  estimate_from-IsBaseline e es (n ∷ ns) low up used = record {
    n_min = n;
    least = low n (omega arith, up.0);
    used = used.0;
    throughput = rw (group_at-group_by_n n (e ∷ es)) refl;
    work = rw (group_at-group_by_n n (e ∷ es)) refl;
    provisioning = refl;
  }

  -- The model of a history with at least one entry is the baseline of some node count that is the
  -- least of the entries' and is the node count of an entry: the throughput per node is the average
  -- throughput of just the entries with that count over the count, the work is their average total
  -- work, and the provisioning time is the average over all entries.
  pub estimate_model-IsBaseline :
      (e : HistorySpec rt.Quantity) (es : List (HistorySpec rt.Quantity))
      → IsBaseline rt (e ∷ es) (estimate_model rt (e ∷ es))
  unfolding estimate_model
  estimate_model-IsBaseline e es =
      estimate_from-IsBaseline e es (sorted_keys (group_by_n (e ∷ es)))
        (λ n. sorted_keys-IsLow n (e ∷ es)) (sorted_keys-IsAscending (group_by_n (e ∷ es)))
        (sorted_keys-used (e ∷ es))
