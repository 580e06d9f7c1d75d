-- ===== src/NodeClassController/Conditions.antt =====
-- What the steps leave in the conditions, pkg/controllers/nodeclass/controller.go.
use karpenter_provider_exosc.NodeClass.{Condition, is_true, is_false, ExoscaleNodeClassStatus}
use karpenter_provider_exosc.NodeClassController.Selectors.{StepError}
use karpenter_provider_exosc.NodeClassController.Steps.{
  ConditionSet, Step, is_status_true, holds, run_step, run_steps, is_panic, condition_ready,
}
use karpenter_provider_exosc.Prelude.{
  ◌≡◌, ◌≢◌, refl, sym, ap, subst, ◌∙◌, inl, inr, Bool, true, false, not, ◌&&◌, ◌||◌, some, String,
  List, [], ◌∷◌, Map, lookup, In, Result, ok, err, arith, ◌==◌, eq_iff, Bool-cases, Option-cases,
  some_inj,
}

abbrev pub is_ok : {E A : Type 0} → Result E A → Bool
is_ok (ok a) = true
is_ok (err e) = false

abbrev pub all_ok : List Step → Bool
all_ok [] = true
all_ok (s ∷ ss) = is_ok s.outcome && all_ok ss

-- Some step has this condition; the conditions of the steps differ from each other and from `Ready`.
abbrev pub named : String → List Step → Bool
named k [] = false
named k (s ∷ ss) = s.condition == k || named k ss

abbrev pub well_named : List Step → Bool
well_named [] = true
well_named (s ∷ ss) =
    not (s.condition == condition_ready) && not (named s.condition ss) && well_named ss

-- The function of a step leaves the conditions alone.
abbrev pub Tame : Step → Type 0
Tame s =
    (f : ExoscaleNodeClassStatus → ExoscaleNodeClassStatus) (st : ExoscaleNodeClassStatus)
    → s.outcome ≡ ok f
    → (f st).conditions ≡ st.conditions

abbrev pub AllTame : List Step → Type 0
AllTame [] = Unit
AllTame (s ∷ ss) = Tame s × AllTame ss

pub apart : (s t : String) → (s == t) ≡ false → s ≢ t
apart s t h e = ground (arith, eq_iff s t)

module _ (cs : ConditionSet) (text : StepError → String) where
  -- Away from the root condition, a map of conditions is another with one condition set.
  abbrev pub Sets : String → Bool → Map Condition → Map Condition → Type 0
  Sets k value before after =
      (holds k after ≡ value)
      × ((j : String) → j ≢ k → j ≢ "Ready" → lookup j after ≡ lookup j before)

  set_true-Sets :
      (k reason message : String) (before after : Map Condition)
      → after ≡ cs.set k (record { status = is_true; reason = reason; message = message }) before
      → Sets k true before after
  set_true-Sets k reason message before after e =
      let c : Condition = record { status = is_true; reason = reason; message = message } in
      rw e (rw (cs.set_here k c before) refl, λ j n m. cs.set_elsewhere j k c before n m)

  set_false-Sets :
      (k reason message : String) (root : Condition) (before after : Map Condition)
      → k ≢ "Ready"
      → after
        ≡ cs.set "Ready" root
            (cs.set k (record { status = is_false; reason = reason; message = message }) before)
      → Sets k false before after
  set_false-Sets k reason message root before after n e =
      let c : Condition = record { status = is_false; reason = reason; message = message } in
      let between = cs.set k c before in
      rw e (
        rw (cs.set_elsewhere k "Ready" root between n n, cs.set_here k c before) refl,
        λ j a b. cs.set_elsewhere j "Ready" root between b b ∙ cs.set_elsewhere j k c before a b,
      )

  pub run_step-Sets :
      (out : Result StepError (ExoscaleNodeClassStatus → ExoscaleNodeClassStatus))
      (reason k : String) (st st' : ExoscaleNodeClassStatus)
      → ((f : ExoscaleNodeClassStatus → ExoscaleNodeClassStatus) (x : ExoscaleNodeClassStatus)
          → out ≡ ok f
          → (f x).conditions ≡ x.conditions)
      → k ≢ "Ready"
      → run_step cs text out reason k st ≡ some st'
      → Sets k (is_ok out) st.conditions st'.conditions
  unfolding run_step
  run_step-Sets (ok f) reason k st st' tame n h =
      let e = ap (λ x. x.conditions) (some_inj (sym h)) in
      subst (λ m. Sets k true m st'.conditions) (tame f st refl)
        (set_true-Sets k k "" (f st).conditions st'.conditions e)
  run_step-Sets (err e) reason k st st' tame n h = elim (Bool-cases (is_panic e)) [
    | inl p ↦ absurd (let h' = rw p at h in ground arith)
    | inr p ↦
        let q = ap (λ x. x.conditions) (some_inj (sym (rw p at h))) in
        set_false-Sets k reason (text e)
          (record {
            status = is_false;
            reason = "ReconcilingFailed";
            message = "Reconciling node class resources failed";
          })
          st.conditions st'.conditions n q
  ]

  pub run_cons :
      (s : Step) (ss : List Step) (st st' : ExoscaleNodeClassStatus)
      → run_steps cs text (s ∷ ss) st ≡ some st'
      → (mid : ExoscaleNodeClassStatus) × (run_step cs text s.outcome s.reason s.condition st
          ≡ some mid)
        × (run_steps cs text ss mid ≡ some st')
  unfolding run_steps
  run_cons s ss st st' h =
      elim (Option-cases (run_step cs text s.outcome s.reason s.condition st)) [
        | inl e ↦ absurd (let h' = rw e at h in ground arith)
        | inr (mid, e) ↦ (mid, e, rw e at h)
      ]

  -- After a run each step's condition tells its outcome, and the other conditions are as before.
  abbrev pub Told : List Step → Map Condition → Map Condition → Type 0
  Told ss before after =
      ((s : Step) → In s ss → holds s.condition after ≡ is_ok s.outcome)
      × ((j : String) → named j ss ≡ false → j ≢ "Ready" → lookup j after ≡ lookup j before)

  pub run_steps-Told :
      (ss : List Step) (st st' : ExoscaleNodeClassStatus)
      → well_named ss ≡ true
      → AllTame ss
      → run_steps cs text ss st ≡ some st'
      → Told ss st.conditions st'.conditions
  unfolding run_steps
  run_steps-Told [] st st' w t h =
      let e = ap (λ x. x.conditions) (some_inj (sym h)) in
      (λ s at. absurd at, λ j a b. ap (lookup j) e)
  run_steps-Told (s ∷ ss) st st' w (tame, t) h =
      let (mid, first, rest) = run_cons s ss st st' h in
      let n : s.condition ≢ "Ready" = ground (arith, eq_iff s.condition "Ready") in
      let (here, others) = run_step-Sets s.outcome s.reason s.condition st mid tame n first in
      let (told, kept) = run_steps-Told ss mid st' (ground arith) t rest in
      (
        λ x at. elim at [
          | inl same ↦ rw same (ap is_status_true (kept s.condition (ground arith) n) ∙ here)
          | inr later ↦ told x later
        ],
        λ j a b.
            let m : j ≢ s.condition = ground (arith, eq_iff s.condition j) in
            kept j (ground arith) b ∙ others j m b,
      )
