-- ===== src/NodeClassController/Panics.antt =====
-- The steps end unless one panics, pkg/controllers/nodeclass/controller.go.
use karpenter_provider_exosc.NodeClass.{ExoscaleNodeClassStatus}
use karpenter_provider_exosc.NodeClassController.Selectors.{StepError, nil_dereference}
use karpenter_provider_exosc.NodeClassController.Steps.{
  ConditionSet, Outcomes, Step, reconcile_steps, set_false, run_step, run_steps, finish,
  reconcile_resources, is_panic,
}
use karpenter_provider_exosc.Prelude.{
  ◌≡◌, ◌≢◌, refl, ap, inl, inr, true, some, String, List, [], ◌∷◌, Result, ok, err, arith,
  Bool-cases,
}

-- No outcome is a panic.
abbrev pub Calm : List Step → Type 0
Calm [] = Unit
Calm (s ∷ ss) = (s.outcome ≢ err nil_dereference) × Calm ss

panic_is : (e : StepError) → is_panic e ≡ true → e ≡ nil_dereference
panic_is StepError.nil_dereference h = refl
panic_is StepError.template_unresolved h = absurd (ground arith)
panic_is StepError.template_not_found h = absurd (ground arith)
panic_is StepError.elastic_ip_selector_empty h = absurd (ground arith)
panic_is (StepError.get_failed i) h = absurd (ground arith)
panic_is (StepError.lookup_failed i) h = absurd (ground arith)
panic_is (StepError.name_not_found i) h = absurd (ground arith)
panic_is (StepError.secrets_failed e) h = absurd (ground arith)

module _ (cs : ConditionSet) (text : StepError → String) where
  calm_step :
      (out : Result StepError (ExoscaleNodeClassStatus → ExoscaleNodeClassStatus))
      (reason k : String) (st : ExoscaleNodeClassStatus)
      → out ≢ err nil_dereference
      → (st' : ExoscaleNodeClassStatus) × (run_step cs text out reason k st ≡ some st')
  unfolding run_step
  calm_step (ok f) reason k st calm = (_, refl)
  calm_step (err e) reason k st calm = elim (Bool-cases (is_panic e)) [
    | inl p ↦ absurd (calm (ap err (panic_is e p)))
    | inr p ↦ rw p (_, refl)
  ]

  run_steps-Calm :
      (ss : List Step) (st : ExoscaleNodeClassStatus)
      → Calm ss
      → (st' : ExoscaleNodeClassStatus) × (run_steps cs text ss st ≡ some st')
  unfolding run_steps
  run_steps-Calm [] st calm = (st, refl)
  run_steps-Calm (s ∷ ss) st (calm, rest) =
      let (mid, e) = calm_step s.outcome s.reason s.condition st calm in
      let (st', f) = run_steps-Calm ss mid rest in (st', rw e f)

  pub reconcile_resources-Calm :
      (o : Outcomes) (st : ExoscaleNodeClassStatus)
      → Calm (reconcile_steps o)
      → (st' : ExoscaleNodeClassStatus) × (reconcile_resources cs text o st ≡ some st')
  unfolding reconcile_resources
  reconcile_resources-Calm o st calm =
      let start = set_false cs text "Ready" "Reconciling" "Reconciling node class resources" st in
      let (mid, e) = run_steps-Calm (reconcile_steps o) start calm in
      (finish cs text (reconcile_steps o) mid, rw e refl)
