-- ===== src/Solver/Estimate/Groups.antt =====
-- The groups of a history by node count, and the group that the model's baseline comes from.
use praktikum.Prelude.{
  ℤ, eq_ℤ, Bool, true, false, ◌||◌, List, [], ◌∷◌, ◌++◌, ◌≡◌, refl, sym, ap, ◌∙◌, arith,
  if◌then◌else◌,
}
use praktikum.Api.{HistorySpec}
use praktikum.Solver.Estimate.{Groups, add_entry, add_all, group_by_n, group_at}

same_test : (a b n : ℤ) → eq_ℤ a b ≡ true → eq_ℤ a n ≡ eq_ℤ b n
same_test a b n e = ground arith

other_test : (a b n : ℤ) → eq_ℤ a b ≡ false → eq_ℤ a n ≡ true → eq_ℤ b n ≡ false
other_test a b n e f = ground arith

module _ {Q : Type 0} where
  -- The entries of a history with `n` nodes, in the history's order.
  abbrev pub entries_at : ℤ → List (HistorySpec Q) → List (HistorySpec Q)
  entries_at n [] = []
  entries_at n (e ∷ es) = if eq_ℤ e.nodes n then e ∷ entries_at n es else entries_at n es

  abbrev pub has_entry : ℤ → List (HistorySpec Q) → Bool
  has_entry n [] = false
  has_entry n (e ∷ es) = eq_ℤ e.nodes n || has_entry n es

  abbrev with_entry : ℤ → HistorySpec Q → List (HistorySpec Q) → List (HistorySpec Q)
  with_entry n e es = if eq_ℤ e.nodes n then es ++ e ∷ [] else es

  group_at-add_entry :
      (n : ℤ) (e : HistorySpec Q) (m : Groups Q)
      → group_at n (add_entry e m) ≡ with_entry n e (group_at n m)
  unfolding add_entry group_at
  group_at-add_entry n e [] = refl
  group_at-add_entry n e ((k, es) ∷ m) =
      step (group_at-add_entry n e m) (eq_ℤ k e.nodes) refl (eq_ℤ k n) refl
    where
      step :
          group_at n (add_entry e m) ≡ with_entry n e (group_at n m)
          → (b : Bool) → eq_ℤ k e.nodes ≡ b
          → (c : Bool) → eq_ℤ k n ≡ c
          → group_at n (if b then (k, es ++ e ∷ []) ∷ m else (k, es) ∷ add_entry e m)
            ≡ with_entry n e (if c then es else group_at n m)
      step ih true p true q = rw (← (same_test k e.nodes n p), q) refl
      step ih true p false q = rw (← (same_test k e.nodes n p), q) refl
      step ih false p true q = rw (q, other_test k e.nodes n p q) refl
      step ih false p false q = rw q ih

  append_assoc : (xs ys zs : List (HistorySpec Q)) → (xs ++ ys) ++ zs ≡ xs ++ (ys ++ zs)
  append_assoc [] ys zs = refl
  append_assoc (x ∷ xs) ys zs = ap (λ l. x ∷ l) (append_assoc xs ys zs)

  append_nil : (xs : List (HistorySpec Q)) → xs ++ [] ≡ xs
  append_nil [] = refl
  append_nil (x ∷ xs) = ap (λ l. x ∷ l) (append_nil xs)

  with_entry-append :
      (n : ℤ) (e : HistorySpec Q) (xs es : List (HistorySpec Q))
      → with_entry n e xs ++ entries_at n es ≡ xs ++ entries_at n (e ∷ es)
  with_entry-append n e xs es = step (eq_ℤ e.nodes n)
    where
      step :
          (b : Bool)
          → (if b then xs ++ e ∷ [] else xs) ++ entries_at n es
            ≡ xs ++ (if b then e ∷ entries_at n es else entries_at n es)
      step true = append_assoc xs (e ∷ []) (entries_at n es)
      step false = refl

  group_at-add_all :
      (n : ℤ) (m : Groups Q) (es : List (HistorySpec Q))
      → group_at n (add_all m es) ≡ group_at n m ++ entries_at n es
  unfolding add_all
  group_at-add_all n m [] = sym (append_nil (group_at n m))
  group_at-add_all n m (e ∷ es) =
      group_at-add_all n (add_entry e m) es
      ∙ ap (λ l. l ++ entries_at n es) (group_at-add_entry n e m)
      ∙ with_entry-append n e (group_at n m) es

  -- Looked up at a node count, the groups of a history give exactly its entries with that node
  -- count, in order.
  pub group_at-group_by_n :
      (n : ℤ) (es : List (HistorySpec Q)) → group_at n (group_by_n es) ≡ entries_at n es
  unfolding group_by_n group_at
  group_at-group_by_n n es = group_at-add_all n [] es
