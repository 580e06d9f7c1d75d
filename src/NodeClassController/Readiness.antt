-- ===== src/NodeClassController/Readiness.antt =====
-- The condition `Ready` after the steps, pkg/controllers/nodeclass/controller.go.
use karpenter_provider_exosc.NodeClass.{ExoscaleNodeClassStatus}
use karpenter_provider_exosc.NodeClassController.Conditions.{is_ok, well_named, AllTame}
use karpenter_provider_exosc.NodeClassController.Selectors.{StepError}
use karpenter_provider_exosc.NodeClassController.Steps.{
  ConditionSet, Outcomes, Step, reconcile_steps, is_status_true, holds, set_false, run_steps,
  all_hold, finish, reconcile_resources, written,
}
use karpenter_provider_exosc.Prelude.{
  ◌≡◌, refl, ap, subst, inl, inr, true, false, some, String, List, [], ◌∷◌, Result, ok, err, arith,
  Option-cases, some_inj, ok_inj,
}

written_tame :
    {A : Type 0} (f : A → ExoscaleNodeClassStatus → ExoscaleNodeClassStatus)
    (r : Result StepError A) (g : ExoscaleNodeClassStatus → ExoscaleNodeClassStatus)
    (st : ExoscaleNodeClassStatus)
    → ((a : A) (x : ExoscaleNodeClassStatus) → (f a x).conditions ≡ x.conditions)
    → written f r ≡ ok g
    → (g st).conditions ≡ st.conditions
written_tame f (ok a) g st h e =
    let same : f a ≡ g = ok_inj e in subst (λ k. (k st).conditions ≡ st.conditions) same (h a st)
written_tame f (err e) g st h q = absurd (ground arith)

pub reconcile_steps-tame : (o : Outcomes) → AllTame (reconcile_steps o)
unfolding reconcile_steps
reconcile_steps-tame o = (
  λ g st. written_tame (λ id st. record st { image_id = id }) o.template g st (λ a x. refl),
  (
    λ g st.
        written_tame (λ ids st. record st { security_groups = ids }) o.security_groups g st
          (λ a x. refl),
    (
      λ g st.
          written_tame (λ ids st. record st { anti_affinity_groups = ids }) o.anti_affinity_groups g
            st (λ a x. refl),
      (
        λ g st.
            written_tame (λ ids st. record st { elastic_ips = ids }) o.elastic_ips g st
              (λ a x. refl),
        (
          λ g st.
              written_tame (λ ids st. record st { private_networks = ids }) o.private_networks g st
                (λ a x. refl),
          (
            λ g st.
                written_tame (λ h st. record st { configuration_hash = h }) o.configuration_hash g
                  st (λ a x. refl),
            tt,
          ),
        ),
      ),
    ),
  ),
)

pub reconcile_steps-well_named : (o : Outcomes) → well_named (reconcile_steps o) ≡ true
unfolding reconcile_steps
reconcile_steps-well_named o = refl

module _ (cs : ConditionSet) (text : StepError → String) where
  -- How a step that fails at the end leaves `Ready`.
  abbrev LastFails : List Step → Type 0
  LastFails [] = ⊥
  LastFails (s ∷ []) = is_ok s.outcome ≡ false
  LastFails (s ∷ t ∷ ss) = LastFails (t ∷ ss)

  -- The status before the last look at the conditions.
  pub reconcile_parts :
      (o : Outcomes) (st st' : ExoscaleNodeClassStatus)
      → reconcile_resources cs text o st ≡ some st'
      → (mid : ExoscaleNodeClassStatus) × (run_steps cs text
            (reconcile_steps o)
            (set_false cs text "Ready" "Reconciling" "Reconciling node class resources" st)
          ≡ some mid)
        × (finish cs text (reconcile_steps o) mid ≡ st')
  unfolding reconcile_resources
  reconcile_parts o st st' h =
      let start = set_false cs text "Ready" "Reconciling" "Reconciling node class resources" st in
      elim (Option-cases (run_steps cs text (reconcile_steps o) start)) [
        | inl e ↦ absurd (let h' = rw e at h in ground arith)
        | inr (mid, e) ↦ (mid, e, some_inj (rw e at h))
      ]

  pub finish_ready :
      (ss : List Step) (mid : ExoscaleNodeClassStatus)
      → all_hold ss mid.conditions ≡ true
      → holds "Ready" (finish cs text ss mid).conditions ≡ true
  finish_ready ss mid e = rw e (ap is_status_true (cs.set_here "Ready" _ mid.conditions))

  pub finish_not :
      (ss : List Step) (mid : ExoscaleNodeClassStatus)
      → all_hold ss mid.conditions ≡ false
      → finish cs text ss mid ≡ mid
  finish_not ss mid e = rw e refl
