-- ===== src/Backend/Pytorch/Status/Phases.antt =====
-- The phases that the PyTorch backend reports.
use praktikum.Prelude.{
  ◌<>◌, ◌↔◌, String, true, false, Option, none, some, ◌≡◌, refl, ap, ◌⊎◌, inl, inr, Bool-cases, [],
  ◌∷◌,
}
use praktikum.Runtime.{Runtime, ok, with_context, bind-answer}
use praktikum.System.{Json, text, int, bool, array, object, Items, no_items, item, Fields, Trace}
use praktikum.Backend.Reads.{Reads, get_field}
use praktikum.Backend.Contract.{IsPhase}
use praktikum.Backend.Pytorch.Status.{
  decided, is_text, phase_of_conditions, parse_pytorch_job_phase, get_phase,
}

-- A condition that decides nothing: it is no object, or not true, or neither Succeeded nor Failed.
abbrev pub IsUndecided : Fields → Type 0
IsUndecided c =
    is_text "True" (get_field "status" c) ≡ true
    → (is_text "Succeeded" (get_field "type" c) ≡ false)
      × (is_text "Failed" (get_field "type" c) ≡ false)

abbrev pub AllUndecided : Items → Type 0
AllUndecided no_items = Unit {0}
AllUndecided (item (object c) cs) = IsUndecided c × AllUndecided cs
AllUndecided (item _ cs) = AllUndecided cs

abbrev pub IsFinal : String → Type 0
IsFinal s = (s ≡ "Succeeded") ⊎ (s ≡ "Failed")

abbrev Decides : Fields → Option (String × String) → Type 0
Decides c none = IsUndecided c
Decides c (some p) = IsFinal p.0

decided-Decides : (print : Json → String) (c : Fields) → Decides c (decided print c)
unfolding decided
decided-Decides print c = elim (Bool-cases (is_text "True" (get_field "status" c))) [
  | inl t ↦ elim (Bool-cases (is_text "Succeeded" (get_field "type" c))) [
    | inl s ↦ rw t (rw s (inl refl))
    | inr s ↦ elim (Bool-cases (is_text "Failed" (get_field "type" c))) [
      | inl f ↦ rw t (rw s (rw f (inr refl)))
      | inr f ↦ rw t (rw s (rw f (λ u. (s, f))))
    ]
  ]
  | inr t ↦ rw t (λ u. cc)
]

module _ (print : Json → String) where
  Undecided-decided :
      (c : Fields) (o : Option (String × String))
      → Decides c o
      → IsUndecided c
      → decided print c ≡ o
      → decided print c ≡ none
  unfolding decided
  Undecided-decided c none d u e = e
  Undecided-decided c (some p) d u e = elim (Bool-cases (is_text "True" (get_field "status" c))) [
    | inl t ↦ let (s, f) = u t in rw t (rw s (rw f refl))
    | inr t ↦ rw t refl
  ]

  running : (cs : Items) → AllUndecided cs → phase_of_conditions print cs ≡ ("Running", "")
  unfolding phase_of_conditions
  running no_items u = refl
  running (item (object c) cs) u =
      rw
        (
          Undecided-decided c (decided print c) (decided-Decides print c) u.0 refl,
          phase_of_conditions,
        )
        (running cs u.1)
  running (item (text s) cs) u = running cs u
  running (item (int n) cs) u = running cs u
  running (item (bool b) cs) u = running cs u
  running (item (array vs) cs) u = running cs u

  abbrev Settled : Items → Type 0
  Settled cs = AllUndecided cs ⊎ IsFinal (phase_of_conditions print cs).0

  Settled-item :
      (c : Fields) (cs : Items) (o : Option (String × String))
      → decided print c ≡ o
      → Decides c o
      → Settled cs
      → Settled (item (object c) cs)
  unfolding phase_of_conditions
  Settled-item c cs none e d (inl u) = inl (d, u)
  Settled-item c cs none e d (inr f) = rw (e, phase_of_conditions) (inr f)
  Settled-item c cs (some p) e d s = rw (e, phase_of_conditions) (inr d)

  settled : (cs : Items) → Settled cs
  unfolding phase_of_conditions
  settled no_items = inl tt
  settled (item (object c) cs) =
      Settled-item c cs (decided print c) refl (decided-Decides print c) (settled cs)
  settled (item (text s) cs) = settled cs
  settled (item (int n) cs) = settled cs
  settled (item (bool b) cs) = settled cs
  settled (item (array vs) cs) = settled cs

  -- `Running` is reported exactly if no condition that is an object is true and of the type
  -- Succeeded or Failed; otherwise Succeeded or Failed is reported.
  pub phase_of_conditions-exact :
      (cs : Items)
      → (((phase_of_conditions print cs).0 ≡ "Running") ↔ AllUndecided cs)
        × (AllUndecided cs ⊎ IsFinal (phase_of_conditions print cs).0)
  phase_of_conditions-exact cs = (
    (
      λ e. elim (settled cs) [ inl u ↦ u | inr f ↦ elim f [ inl s ↦ cc | inr s ↦ cc ] ],
      λ u. ap (λ p. p.0) (running cs u),
    ),
    settled cs,
  )

  phase_of_conditions-IsPhase : (cs : Items) → IsPhase (phase_of_conditions print cs).0
  phase_of_conditions-IsPhase cs = elim (settled cs) [
    | inl u ↦ inr (inr (ap (λ p. p.0) (running cs u)))
    | inr f ↦ elim f [ inl s ↦ inl s | inr s ↦ inr (inl s) ]
  ]

module _ {rt : Runtime} (reads : Reads rt) where
  parse-IsPhase : (pj : Json) → IsPhase (parse_pytorch_job_phase reads pj).0
  unfolding parse_pytorch_job_phase
  parse-IsPhase pj =
      phase_of_conditions-IsPhase reads.print_other
        (reads.nested_slice ("status" ∷ "conditions" ∷ []) pj)

  pub get_phase-IsPhase :
      (trace : Trace rt) (namespace name : String) (p : String × String)
      → get_phase reads trace namespace name ≡ ok p
      → IsPhase p.0
  unfolding get_phase
  get_phase-IsPhase trace namespace name p e =
      bind-answer (λ q. IsPhase q.0)
        (with_context ("fetching PyTorchJob " <> name)
          (reads.get_object trace "PyTorchJob" namespace name))
        (parse_pytorch_job_phase reads) p parse-IsPhase e
