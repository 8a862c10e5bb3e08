-- ===== src/History/Prune/Oldest.antt =====
-- pruneHistory deletes the oldest entries, and enough of them.
use mathlib.Core.List.{Permᴰ}
use mathlib.Core.List.Permᴰ
use praktikum.Prelude.{
  ℕ, zero, suc, ◌+◌, ◌-◌, ◌≤◌, ◌<◌, ◌≡◌, refl, ap, Bool, true, false, List, [], ◌∷◌, ◌++◌, length,
  take, drop, All, length-drop, arith, ltb, if◌then◌else◌, ◌∙◌, Bool-cases, inl, inr, ◌⊎◌,
}
use praktikum.Api.{HistoryEntry}
use praktikum.History.Prune.{insert_by_age, sort_by_age, expired, history_retention_limit}

module _ {Q : Type 0} where
  abbrev NoYounger : HistoryEntry Q → HistoryEntry Q → Type 0
  NoYounger x y = x.created ≤ y.created

  abbrev IsSorted : List (HistoryEntry Q) → Type 0
  IsSorted [] = Unit {0}
  IsSorted (x ∷ xs) = All (NoYounger x) xs × IsSorted xs

  insert-Perm :
      (e : HistoryEntry Q) (xs : List (HistoryEntry Q)) → Permᴰ (insert_by_age e xs) (e ∷ xs)
  unfolding insert_by_age
  insert-Perm e [] = Permᴰ.refl _
  insert-Perm e (x ∷ xs) = choose (insert-Perm e xs) (ltb x.created e.created)
    where
      choose :
          Permᴰ (insert_by_age e xs) (e ∷ xs)
          → (b : Bool) → Permᴰ (if b then x ∷ insert_by_age e xs else e ∷ x ∷ xs) (e ∷ x ∷ xs)
      choose ih true = Permᴰ.trans (Permᴰ.cons refl ih) (Permᴰ.swap refl refl)
      choose ih false = Permᴰ.refl _

  sort-Perm : (xs : List (HistoryEntry Q)) → Permᴰ (sort_by_age xs) xs
  unfolding sort_by_age
  sort-Perm [] = Permᴰ.refl _
  sort-Perm (x ∷ xs) = Permᴰ.trans (insert-Perm x (sort_by_age xs)) (Permᴰ.cons refl (sort-Perm xs))

  insert-All :
      (P : HistoryEntry Q → Type 0) (e : HistoryEntry Q) (xs : List (HistoryEntry Q))
      → P e
      → All P xs
      → All P (insert_by_age e xs)
  unfolding insert_by_age
  insert-All P e [] p h = (p, tt)
  insert-All P e (x ∷ xs) p h = choose (insert-All P e xs p h.1) (ltb x.created e.created)
    where
      choose :
          All P (insert_by_age e xs)
          → (b : Bool) → All P (if b then x ∷ insert_by_age e xs else e ∷ x ∷ xs)
      choose ih true = (h.0, ih)
      choose ih false = (p, h)

  All-weaken :
      (x y : HistoryEntry Q) (xs : List (HistoryEntry Q))
      → x.created ≤ y.created
      → All (NoYounger y) xs
      → All (NoYounger x) xs
  All-weaken x y [] le h = tt
  All-weaken x y (z ∷ zs) le h = (omega (arith, le, h.0), All-weaken x y zs le h.1)

  insert-IsSorted :
      (e : HistoryEntry Q) (xs : List (HistoryEntry Q))
      → IsSorted xs
      → IsSorted (insert_by_age e xs)
  unfolding insert_by_age
  insert-IsSorted e [] h = (tt, tt)
  insert-IsSorted e (x ∷ xs) h = choose (insert-IsSorted e xs h.1) (ltb x.created e.created) refl
    where
      choose :
          IsSorted (insert_by_age e xs)
          → (b : Bool) → ltb x.created e.created ≡ b
          → IsSorted (if b then x ∷ insert_by_age e xs else e ∷ x ∷ xs)
      choose ih true q = (insert-All (NoYounger x) e xs (ground arith) h.0, ih)
      choose ih false q =
          let le : e.created ≤ x.created = ground arith in ((le, All-weaken e x xs le h.0), h)

  sort-IsSorted : (xs : List (HistoryEntry Q)) → IsSorted (sort_by_age xs)
  unfolding sort_by_age
  sort-IsSorted [] = tt
  sort-IsSorted (x ∷ xs) = insert-IsSorted x (sort_by_age xs) (sort-IsSorted xs)

  take-drop : (n : ℕ) (xs : List (HistoryEntry Q)) → take n xs ++ drop n xs ≡ xs
  take-drop zero xs = refl
  take-drop (suc n) [] = refl
  take-drop (suc n) (x ∷ xs) = ap (λ l. x ∷ l) (take-drop n xs)

  All-drop :
      (P : HistoryEntry Q → Type 0) (n : ℕ) (xs : List (HistoryEntry Q))
      → All P xs
      → All P (drop n xs)
  All-drop P zero xs h = h
  All-drop P (suc n) [] h = tt
  All-drop P (suc n) (x ∷ xs) h = All-drop P n xs h.1

  abbrev AllOlder : List (HistoryEntry Q) → List (HistoryEntry Q) → Type 0
  AllOlder gone kept = All (λ e. All (NoYounger e) kept) gone

  take-older : (n : ℕ) (xs : List (HistoryEntry Q)) → IsSorted xs → AllOlder (take n xs) (drop n xs)
  take-older zero xs h = tt
  take-older (suc n) [] h = tt
  take-older (suc n) (x ∷ xs) h = (All-drop (NoYounger x) n xs h.0, take-older n xs h.1)

  insert-length :
      (e : HistoryEntry Q) (xs : List (HistoryEntry Q))
      → length (insert_by_age e xs) ≡ suc (length xs)
  unfolding insert_by_age
  insert-length e [] = refl
  insert-length e (x ∷ xs) = choose (insert-length e xs) (ltb x.created e.created)
    where
      choose :
          length (insert_by_age e xs) ≡ suc (length xs)
          → (b : Bool)
          → length (if b then x ∷ insert_by_age e xs else e ∷ x ∷ xs) ≡ suc (suc (length xs))
      choose ih true = ap suc ih
      choose ih false = refl

  sort-length : (xs : List (HistoryEntry Q)) → length (sort_by_age xs) ≡ length xs
  unfolding sort_by_age
  sort-length [] = refl
  sort-length (x ∷ xs) = insert-length x (sort_by_age xs) ∙ ap suc (sort-length xs)

  -- How the entries divide into those that are deleted and those that are kept.
  pub record Division (items : List (HistoryEntry Q)) : Type 0 where
    pub kept : List (HistoryEntry Q)
    pub parts : Permᴰ (expired items ++ kept) items
    pub older : AllOlder (expired items) kept
    pub room : length kept < history_retention_limit
    pub enough : length items < history_retention_limit ⊎ length kept + 1 ≡ history_retention_limit

  -- The entries that pruneHistory picks for deletion leave a rest that is together with them all
  -- the entries: no picked entry is younger than one of the rest, fewer than ten are left, and if
  -- there were ten or more, exactly nine are left.
  pub expired-Division : (items : List (HistoryEntry Q)) → Division items
  unfolding expired
  expired-Division items = elim (Bool-cases (ltb (length items) history_retention_limit)) [
    | inl e ↦ record {
      kept = items;
      parts = rw e (Permᴰ.refl items);
      older = rw e tt;
      room = ground arith;
      enough = inl (ground arith);
    }
    | inr e ↦
        (let n = length items - history_retention_limit + 1 in
          record {
            kept = drop n (sort_by_age items);
            parts = rw (e, take-drop n (sort_by_age items)) (sort-Perm items);
            older = rw e (take-older n (sort_by_age items) (sort-IsSorted items));
            room = rw (length-drop n (sort_by_age items), sort-length items) (ground arith);
            enough = inr (rw (length-drop n (sort_by_age items), sort-length items) (ground arith));
          })
  ]
