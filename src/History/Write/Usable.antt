-- ===== src/History/Write/Usable.antt =====
-- What the solver may rely on of a history entry that is written.
use mathlib.Core.Path.{subst}
use praktikum.Prelude.{
  ℤ, zero_ℤ, eq_ℤ, String, Bool, true, false, Option, none, some, ◌≡◌, refl, sym, ap, ◌∙◌,
  Bool-cases, get_or, if◌then◌else◌, inl, inr,
}
use praktikum.Runtime.{Runtime, Result, ok, err}
use praktikum.Api.{DistributedTraining, JobResults, HistorySpec}
use praktikum.System.{Reconciler}
use praktikum.Controller.Defaults.{effective_backend}
use praktikum.History.Throughput.{extract_throughput, node_count_for_history}
use praktikum.Solver.Formulas.{nought}
use praktikum.History.Write.{
  Entry, not_applicable, skipped, entry, usable_throughput, entry_spec, entry_with_throughput,
  entry_with_time, history_entry,
}

module _ {rt : Runtime} (r : Reconciler rt) (job : DistributedTraining) (results : JobResults) where
  -- The time of the entry is the training time as parsed, its throughput the one extracted from the
  -- results, which is not zero, and its total work their product; its node count is not zero.
  pub record IsUsable (spec : HistorySpec rt.Quantity) : Type 0 where
    pub duration : ℤ
    pub measured : rt.Float
    pub parsed : rt.parse_duration results.training_time ≡ ok duration
    pub extracted :
        extract_throughput rt (effective_backend job.spec.backend) results (rt.seconds duration)
        ≡ ok measured
    pub works : rt.eq measured (nought rt) ≡ false
    pub throughput : spec.throughput ≡ rt.quantity_of measured
    pub time : spec.training_seconds ≡ rt.quantity_of (rt.seconds duration)
    pub total : spec.total_work ≡ rt.quantity_of (rt.mul (rt.seconds duration) measured)
    pub counted : eq_ℤ spec.nodes zero_ℤ ≡ false

none_is_not-some : {A : Type 0} {a : A} → none ≡ some a → ⊥
none_is_not-some e = cc

false_is_not-true : false ≡ true → ⊥
false_is_not-true e = cc

module _ {rt : Runtime} (r : Reconciler rt) where
  abbrev spec_or : HistorySpec rt.Quantity → Entry r → HistorySpec rt.Quantity
  spec_or d (entry s) = s
  spec_or d not_applicable = d
  spec_or d (skipped m) = d

  abbrev is_entry : Entry r → Bool
  is_entry (entry s) = true
  is_entry not_applicable = false
  is_entry (skipped m) = false

  usable-ok :
      (x : Result rt.Float) (p : rt.Float)
      → usable_throughput r x ≡ some p
      → (x ≡ ok p) × (rt.eq p (nought rt) ≡ false)
  unfolding usable_throughput
  usable-ok (err e) p h = cc
  usable-ok (ok q) p h = elim (Bool-cases (rt.eq q (nought rt))) [
    | inl t ↦
        let e : usable_throughput r (ok q) ≡ none = rw (t, usable_throughput) refl in
        elim (none_is_not-some (sym e ∙ h)) [ ]
    | inr f ↦
        let e : usable_throughput r (ok q) ≡ some q = rw (f, usable_throughput) refl in
        let same : q ≡ p = ap (λ o. get_or o q) (sym e ∙ h) in
        (ap ok same, subst (λ x. rt.eq x (nought rt) ≡ false) same f)
  ]

  module _ (job : DistributedTraining) (results : JobResults) where
    counted-entry :
        (tk pk : rt.Float) (s : HistorySpec rt.Quantity)
        → entry_with_throughput r job results tk (some pk) ≡ entry s
        → (eq_ℤ (node_count_for_history job) zero_ℤ ≡ false) × (entry_spec r job results tk pk ≡ s)
    unfolding entry_with_throughput
    counted-entry tk pk s h = elim (Bool-cases (eq_ℤ (node_count_for_history job) zero_ℤ)) [
      | inl t ↦
          let e : is_entry (entry_with_throughput r job results tk (some pk)) ≡ false =
            rw (t, entry_with_throughput) refl in
          elim (false_is_not-true (sym e ∙ ap is_entry h)) [ ]
      | inr f ↦
          let e : entry_with_throughput r job results tk (some pk)
              ≡ entry (entry_spec r job results tk pk) =
            rw (f, entry_with_throughput) refl in
          (f, ap (spec_or s) (sym e ∙ h))
    ]

    timed-entry :
        (d : ℤ) (o : Option rt.Float) (s : HistorySpec rt.Quantity)
        → usable_throughput r
            (extract_throughput rt (effective_backend job.spec.backend) results (rt.seconds d))
          ≡ o
        → rt.parse_duration results.training_time ≡ ok d
        → entry_with_throughput r job results (rt.seconds d) o ≡ entry s
        → IsUsable r job results s
    unfolding entry_with_throughput entry_spec
    timed-entry d none s u p h = cc
    timed-entry d (some pk) s u p h =
        let (found, works) = usable-ok _ pk u in
        let (n, e) = counted-entry (rt.seconds d) pk s h in
        subst (IsUsable r job results) e (record {
          duration = d;
          measured = pk;
          parsed = p;
          extracted = found;
          works = works;
          throughput = refl;
          time = refl;
          total = refl;
          counted = n;
        })

    parsed-entry :
        (x : Result ℤ) (s : HistorySpec rt.Quantity)
        → rt.parse_duration results.training_time ≡ x
        → entry_with_time r job results x ≡ entry s
        → IsUsable r job results s
    unfolding entry_with_time
    parsed-entry (err e) s p h = elim (false_is_not-true (ap is_entry h)) [ ]
    parsed-entry (ok d) s p h = timed-entry d _ s refl p h

    gated-entry :
        (b c : Bool) (m : String) (s : HistorySpec rt.Quantity)
        → (if b
            then not_applicable
            else if c
            then skipped m
            else entry_with_time r job results (rt.parse_duration results.training_time))
          ≡ entry s
        → IsUsable r job results s
    gated-entry true c m s h = elim (false_is_not-true (ap is_entry h)) [ ]
    gated-entry false true m s h = elim (false_is_not-true (ap is_entry h)) [ ]
    gated-entry false false m s h = parsed-entry (rt.parse_duration results.training_time) s refl h

    -- If there is an entry to write, its time is the training time of the results as parsed, its
    -- throughput the one that is extracted from the results for this time, as a quantity, and this
    -- throughput is not zero; its total work is the product of the two, and its node count is not
    -- zero.
    pub history_entry-IsUsable :
        (s : HistorySpec rt.Quantity)
        → history_entry r job results ≡ entry s
        → IsUsable r job results s
    unfolding history_entry
    history_entry-IsUsable s h = gated-entry _ _ _ s h
