-- ===== src/NodeClassController/Values.antt =====
-- What the steps leave in the status beside the conditions, pkg/controllers/nodeclass/controller.go.
use karpenter_provider_exosc.NodeClass.{ExoscaleNodeClassStatus}
use karpenter_provider_exosc.NodeClassController.Selectors.{StepError}
use karpenter_provider_exosc.NodeClassController.Steps.{
  ConditionSet, Outcomes, Step, reconcile_steps, run_step, run_steps, all_hold, finish,
  reconcile_resources, written, set_image_id, set_security_groups, set_anti_affinity_groups,
  set_elastic_ips, set_private_networks, set_configuration_hash, is_panic, set_false,
}
use karpenter_provider_exosc.Prelude.{
  ◌≡◌, refl, sym, ap, ◌∙◌, inl, inr, some, String, List, [], ◌∷◌, Result, ok, err, arith,
  Bool-cases, Option-cases, some_inj, ok_inj, subst,
}

-- A status without its conditions.
abbrev pub bare : ExoscaleNodeClassStatus → ExoscaleNodeClassStatus
bare st = record st { conditions = [] }

abbrev applied :
    Result StepError (ExoscaleNodeClassStatus → ExoscaleNodeClassStatus)
    → ExoscaleNodeClassStatus
    → ExoscaleNodeClassStatus
applied (ok f) st = f st
applied (err e) st = st

abbrev all_applied : List Step → ExoscaleNodeClassStatus → ExoscaleNodeClassStatus
all_applied [] st = st
all_applied (s ∷ ss) st = all_applied ss (applied s.outcome st)

-- The function of a step neither reads nor writes the conditions.
abbrev Blind : List Step → Type 0
Blind [] = Unit
Blind (s ∷ ss) =
    ((f : ExoscaleNodeClassStatus → ExoscaleNodeClassStatus) (st : ExoscaleNodeClassStatus)
      → s.outcome ≡ ok f
      → bare (f st) ≡ f (bare st))
    × Blind ss

-- The value of a step that succeeded, or the value before.
abbrev pub value_or : {A : Type 0} → A → Result StepError A → A
value_or a (ok b) = b
value_or a (err e) = a

module _ (cs : ConditionSet) (text : StepError → String) where
  bare_step :
      (out : Result StepError (ExoscaleNodeClassStatus → ExoscaleNodeClassStatus))
      (reason k : String) (st st' : ExoscaleNodeClassStatus)
      → ((f : ExoscaleNodeClassStatus → ExoscaleNodeClassStatus) (x : ExoscaleNodeClassStatus)
          → out ≡ ok f
          → bare (f x) ≡ f (bare x))
      → run_step cs text out reason k st ≡ some st'
      → bare st' ≡ applied out (bare st)
  unfolding run_step
  bare_step (ok f) reason k st st' blind h = ap bare (some_inj (sym h)) ∙ blind f st refl
  bare_step (err e) reason k st st' blind h = elim (Bool-cases (is_panic e)) [
    | inl p ↦ absurd (let h' = rw p at h in ground arith)
    | inr p ↦ ap bare (some_inj (sym (rw p at h)))
  ]

  bare_run :
      (ss : List Step) (st st' : ExoscaleNodeClassStatus)
      → Blind ss
      → run_steps cs text ss st ≡ some st'
      → bare st' ≡ all_applied ss (bare st)
  unfolding run_steps
  bare_run [] st st' blind h = ap bare (some_inj (sym h))
  bare_run (s ∷ ss) st st' (first, rest) h =
      elim (Option-cases (run_step cs text s.outcome s.reason s.condition st)) [
        | inl e ↦ absurd (let h' = rw e at h in ground arith)
        | inr (mid, e) ↦
            bare_run ss mid st' rest (rw e at h)
            ∙ ap (all_applied ss) (bare_step s.outcome s.reason s.condition st mid first e)
      ]

applied-set_image_id :
    (r : Result StepError String) (st : ExoscaleNodeClassStatus)
    → applied (written set_image_id r) st ≡ record st { image_id = value_or st.image_id r }
applied-set_image_id (ok v) st = refl
applied-set_image_id (err e) st = refl

applied-set_security_groups :
    (r : Result StepError (List String)) (st : ExoscaleNodeClassStatus)
    → applied (written set_security_groups r) st
      ≡ record st { security_groups = value_or st.security_groups r }
applied-set_security_groups (ok v) st = refl
applied-set_security_groups (err e) st = refl

applied-set_anti_affinity_groups :
    (r : Result StepError (List String)) (st : ExoscaleNodeClassStatus)
    → applied (written set_anti_affinity_groups r) st
      ≡ record st { anti_affinity_groups = value_or st.anti_affinity_groups r }
applied-set_anti_affinity_groups (ok v) st = refl
applied-set_anti_affinity_groups (err e) st = refl

applied-set_elastic_ips :
    (r : Result StepError (List String)) (st : ExoscaleNodeClassStatus)
    → applied (written set_elastic_ips r) st ≡ record st { elastic_ips = value_or st.elastic_ips r }
applied-set_elastic_ips (ok v) st = refl
applied-set_elastic_ips (err e) st = refl

applied-set_private_networks :
    (r : Result StepError (List String)) (st : ExoscaleNodeClassStatus)
    → applied (written set_private_networks r) st
      ≡ record st { private_networks = value_or st.private_networks r }
applied-set_private_networks (ok v) st = refl
applied-set_private_networks (err e) st = refl

applied-set_configuration_hash :
    (r : Result StepError String) (st : ExoscaleNodeClassStatus)
    → applied (written set_configuration_hash r) st
      ≡ record st { configuration_hash = value_or st.configuration_hash r }
applied-set_configuration_hash (ok v) st = refl
applied-set_configuration_hash (err e) st = refl

written_blind :
    {A : Type 0} (f : A → ExoscaleNodeClassStatus → ExoscaleNodeClassStatus)
    (r : Result StepError A) (g : ExoscaleNodeClassStatus → ExoscaleNodeClassStatus)
    (st : ExoscaleNodeClassStatus)
    → ((a : A) (x : ExoscaleNodeClassStatus) → bare (f a x) ≡ f a (bare x))
    → written f r ≡ ok g
    → bare (g st) ≡ g (bare st)
written_blind f (ok a) g st h e =
    let same : f a ≡ g = ok_inj e in subst (λ k. bare (k st) ≡ k (bare st)) same (h a st)
written_blind f (err e) g st h q = absurd (ground arith)

reconcile_steps-Blind : (o : Outcomes) → Blind (reconcile_steps o)
unfolding reconcile_steps
reconcile_steps-Blind o = (
  λ g st. written_blind set_image_id o.template g st (λ a x. refl),
  (
    λ g st. written_blind set_security_groups o.security_groups g st (λ a x. refl),
    (
      λ g st. written_blind set_anti_affinity_groups o.anti_affinity_groups g st (λ a x. refl),
      (
        λ g st. written_blind set_elastic_ips o.elastic_ips g st (λ a x. refl),
        (
          λ g st. written_blind set_private_networks o.private_networks g st (λ a x. refl),
          (
            λ g st. written_blind set_configuration_hash o.configuration_hash g st (λ a x. refl),
            tt,
          ),
        ),
      ),
    ),
  ),
)

-- The status with the values of the steps that succeeded.
abbrev pub with_values : Outcomes → ExoscaleNodeClassStatus → ExoscaleNodeClassStatus
with_values o st = record st {
  image_id = value_or st.image_id o.template;
  security_groups = value_or st.security_groups o.security_groups;
  anti_affinity_groups = value_or st.anti_affinity_groups o.anti_affinity_groups;
  elastic_ips = value_or st.elastic_ips o.elastic_ips;
  private_networks = value_or st.private_networks o.private_networks;
  configuration_hash = value_or st.configuration_hash o.configuration_hash;
}

all_applied-with_values :
    (o : Outcomes) (st : ExoscaleNodeClassStatus)
    → all_applied (reconcile_steps o) st ≡ with_values o st
unfolding reconcile_steps
all_applied-with_values o st =
    let x0 : ExoscaleNodeClassStatus = record st { image_id = value_or st.image_id o.template } in
    let x1 : ExoscaleNodeClassStatus = record x0 {
      security_groups = value_or x0.security_groups o.security_groups;
    } in
    let x2 : ExoscaleNodeClassStatus = record x1 {
      anti_affinity_groups = value_or x1.anti_affinity_groups o.anti_affinity_groups;
    } in
    let x3 : ExoscaleNodeClassStatus = record x2 {
      elastic_ips = value_or x2.elastic_ips o.elastic_ips;
    } in
    let x4 : ExoscaleNodeClassStatus = record x3 {
      private_networks = value_or x3.private_networks o.private_networks;
    } in
    rw
      (
        applied-set_image_id o.template st,
        applied-set_security_groups o.security_groups x0,
        applied-set_anti_affinity_groups o.anti_affinity_groups x1,
        applied-set_elastic_ips o.elastic_ips x2,
        applied-set_private_networks o.private_networks x3,
        applied-set_configuration_hash o.configuration_hash x4,
      )
      refl

module _ (cs : ConditionSet) (text : StepError → String) where
  -- Besides the conditions, the steps leave in the status the value of each step that succeeded, and
  -- for a step that failed what was there before.
  pub reconcile_resources-values :
      (o : Outcomes) (st st' : ExoscaleNodeClassStatus)
      → reconcile_resources cs text o st ≡ some st'
      → bare st' ≡ with_values o (bare st)
  unfolding reconcile_resources
  reconcile_resources-values o st st' h =
      let start = set_false cs text "Ready" "Reconciling" "Reconciling node class resources" st in
      elim (Option-cases (run_steps cs text (reconcile_steps o) start)) [
        | inl e ↦ absurd (let h' = rw e at h in ground arith)
        | inr (mid, e) ↦
            finished mid st' (some_inj (rw e at h))
            ∙ bare_run cs text (reconcile_steps o) start mid (reconcile_steps-Blind o) e
            ∙ all_applied-with_values o (bare st)
      ]
    where
      finished :
          (mid st' : ExoscaleNodeClassStatus)
          → finish cs text (reconcile_steps o) mid ≡ st'
          → bare st' ≡ bare mid
      finished mid st' e = elim (Bool-cases (all_hold (reconcile_steps o) mid.conditions)) [
        | inl b ↦ ap bare (sym (rw b at e))
        | inr b ↦ ap bare (sym (rw b at e))
      ]
