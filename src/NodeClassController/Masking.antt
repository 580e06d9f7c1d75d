-- ===== src/NodeClassController/Masking.antt =====
-- A step that fails can be hidden by a later one, pkg/controllers/nodeclass/controller.go.
use karpenter_provider_exosc.NodeClass.{Condition, is_true, is_false, ExoscaleNodeClassStatus}
use karpenter_provider_exosc.NodeClassController.Conditions.{
  is_ok, apart, named, well_named, AllTame, run_cons, run_step-Sets,
}
use karpenter_provider_exosc.NodeClassController.Panics.{Calm, reconcile_resources-Calm}
use karpenter_provider_exosc.NodeClassController.Readiness.{
  reconcile_parts, finish_ready, finish_not, reconcile_steps-tame, reconcile_steps-well_named,
}
use karpenter_provider_exosc.NodeClassController.Selectors.{StepError}
use karpenter_provider_exosc.NodeClassController.Steps.{
  ConditionSet, Outcomes, Step, reconcile_steps, holds, set_false, run_step, run_steps, all_hold,
  reconcile_resources, condition_container_registry_resolved,
}
use karpenter_provider_exosc.Prelude.{
  ◌≡◌, ◌≢◌, refl, sym, ap, ◌∙◌, inl, inr, true, false, some, String, List, [], ◌∷◌, Map, lookup,
  Result, ok, err, arith, eq_iff, Bool-cases, some_inj, Result-cases,
}

-- The condition of a step that succeeded.
abbrev pub succeeded : String → Condition
succeeded k = record { status = is_true; reason = k; message = "" }

module _ (cs : ConditionSet) (text : StepError → String) where
  -- The library sets `Ready` to true when another condition changes, since the code gives it no
  -- conditions for `Ready` to depend on.
  abbrev pub Recomputes : Type 0
  Recomputes =
      (k : String) (c : Condition) (m : Map Condition)
      → k ≢ "Ready"
      → lookup k m ≢ some c
      → holds "Ready" (cs.set k c m) ≡ true

  -- The last step succeeds, with a condition that was another before.
  abbrev LastChanges : List Step → Map Condition → Type 0
  LastChanges [] m = ⊥
  LastChanges (s ∷ []) m =
      (is_ok s.outcome ≡ true) × (lookup s.condition m ≢ some (succeeded s.condition))
  LastChanges (s ∷ t ∷ ss) m = LastChanges (t ∷ ss) m

  ready_unnamed : (ss : List Step) → well_named ss ≡ true → named "Ready" ss ≡ false
  ready_unnamed [] w = refl
  ready_unnamed (s ∷ ss) w = ground (arith, ready_unnamed ss)

  still_changes :
      (ss : List Step) (before after : Map Condition)
      → ((k : String) → named k ss ≡ true → lookup k after ≡ lookup k before)
      → LastChanges ss before
      → LastChanges ss after
  still_changes [] before after same l = l
  still_changes (s ∷ []) before after same (good, l) =
      let e = same s.condition (ground (arith, eq_iff s.condition s.condition)) in
      (good, λ q. l (sym e ∙ q))
  still_changes (s ∷ t ∷ ss) before after same l =
      still_changes (t ∷ ss) before after (λ k h. same k (ground arith)) l

  last_step_ready :
      (out : Result StepError (ExoscaleNodeClassStatus → ExoscaleNodeClassStatus))
      (reason k : String) (st st' : ExoscaleNodeClassStatus)
      → Recomputes
      → ((f : ExoscaleNodeClassStatus → ExoscaleNodeClassStatus) (x : ExoscaleNodeClassStatus)
          → out ≡ ok f
          → (f x).conditions ≡ x.conditions)
      → k ≢ "Ready"
      → is_ok out ≡ true
      → lookup k st.conditions ≢ some (succeeded k)
      → run_step cs text out reason k st ≡ some st'
      → holds "Ready" st'.conditions ≡ true
  unfolding run_step
  last_step_ready (err e) reason k st st' r tame n good l h = absurd (ground arith)
  last_step_ready (ok f) reason k st st' r tame n good l h =
      let q = ap (λ x. x.conditions) (some_inj (sym h)) in
      let same = tame f st refl in
      ap (holds "Ready") q
      ∙ r k (succeeded k) (f st).conditions n (λ e. l (ap (lookup k) (sym same) ∙ e))

  last_ready :
      (ss : List Step) (st st' : ExoscaleNodeClassStatus)
      → Recomputes
      → well_named ss ≡ true
      → AllTame ss
      → LastChanges ss st.conditions
      → run_steps cs text ss st ≡ some st'
      → holds "Ready" st'.conditions ≡ true
  unfolding run_steps
  last_ready [] st st' r w t l h = absurd l
  last_ready (s ∷ []) st st' r w (tame, t) (good, l) h =
      let (mid, first, rest) = run_cons cs text s [] st st' h in
      let same : mid ≡ st' = some_inj rest in
      let n : s.condition ≢ "Ready" = ground (arith, eq_iff s.condition "Ready") in
      last_step_ready s.outcome s.reason s.condition st st' r tame n good l (first ∙ ap some same)
  last_ready (s ∷ t ∷ ss) st st' r w (tame, rest_tame) l h =
      let (mid, first, rest) = run_cons cs text s (t ∷ ss) st st' h in
      let n : s.condition ≢ "Ready" = ground (arith, eq_iff s.condition "Ready") in
      let (here, others) =
        run_step-Sets cs text s.outcome s.reason s.condition st mid tame n first in
      let free : (named s.condition (t ∷ ss)) ≡ false = ground arith in
      let wt : well_named (t ∷ ss) ≡ true = ground arith in
      last_ready (t ∷ ss) mid st' r wt rest_tame
        (still_changes (t ∷ ss) st.conditions mid.conditions
          (λ k in_rest.
            others k (λ e. let g = rw e at in_rest in ground arith)
              (λ e. let g = rw e at in_rest in let x = ready_unnamed (t ∷ ss) wt in ground arith))
          l)
        rest

  hash_changes :
      (o : Outcomes) (st : ExoscaleNodeClassStatus)
      → is_ok o.configuration_hash ≡ true
      → lookup condition_container_registry_resolved st.conditions
        ≢ some (succeeded condition_container_registry_resolved)
      → LastChanges
          (reconcile_steps o)
          (set_false cs text "Ready" "Reconciling" "Reconciling node class resources" st).conditions
  unfolding reconcile_steps
  hash_changes o st good l = elim (Result-cases o.configuration_hash) [
    | inr (e, p) ↦ absurd (let h = rw p at good in ground arith)
    | inl (h, p) ↦
        let k = condition_container_registry_resolved in
        let same =
          cs.set_elsewhere k "Ready"
            (record {
              status = is_false;
              reason = "Reconciling";
              message = "Reconciling node class resources";
            })
            st.conditions (apart k "Ready" refl) (apart k "Ready" refl) in
        rw p (refl, λ q. l (sym same ∙ q))
  ]

  -- Where the library recomputes `Ready`: if no step panics, the last step succeeds and its condition
  -- was not yet that of a success, the NodeClass is `Ready` at the end, whichever other steps failed.
  pub reconcile_resources-Recomputes :
      (o : Outcomes) (st : ExoscaleNodeClassStatus)
      → Recomputes
      → Calm (reconcile_steps o)
      → is_ok o.configuration_hash ≡ true
      → lookup condition_container_registry_resolved st.conditions
        ≢ some (succeeded condition_container_registry_resolved)
      → (st' : ExoscaleNodeClassStatus) × (reconcile_resources cs text o st ≡ some st')
        × (holds "Ready" st'.conditions ≡ true)
  reconcile_resources-Recomputes o st r calm good l =
      let steps = reconcile_steps o in
      let start = set_false cs text "Ready" "Reconciling" "Reconciling node class resources" st in
      let (st', e) = reconcile_resources-Calm cs text o st calm in
      let (mid, run, fin) = reconcile_parts cs text o st st' e in
      let names = reconcile_steps-well_named o in
      let ready =
        last_ready steps start mid r names (reconcile_steps-tame o) (hash_changes o st good l)
          run in
      (
        st',
        e,
        rw (← fin) (elim (Bool-cases (all_hold steps mid.conditions)) [
          | inl all ↦ finish_ready cs text steps mid all
          | inr some_not ↦ rw (finish_not cs text steps mid some_not) ready
        ]),
      )
