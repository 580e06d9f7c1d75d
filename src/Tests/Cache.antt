-- ===== src/Tests/Cache.antt =====
-- Two callers, of which the second finds what the first has fetched.
use karpenter_provider_exosc.Cache.{
  Step, look, refresh, is_fresh, after, store, run, returned, empty, Fetched, AsksAt,
  run_serves-Fetched,
}
use karpenter_provider_exosc.Prelude.{
  ℕ, ◌+◌, ◌<◌, ◌≡◌, ◌⊎◌, refl, arith, false, Result, Option, none, some, List, [], ◌∷◌, ok, Time,
}

program : Unit {0}
unfolding is_fresh after store run returned
program = tt

abbrev history : List (Step ℕ ℕ 10)
history = look 100 ∷ refresh 101 (ok (some (7 ∷ []))) 102 ∷ refresh 103 (ok none) 104 ∷ []

abbrev asked : Step ℕ ℕ 10
asked = look 105

abbrev cached : List ℕ
cached = 7 ∷ []

fresh : returned ℕ ℕ 10 (run ℕ ℕ 10 (empty ℕ ℕ 10) history) (look 105) ≡ some (ok (some cached))
unfolding program
fresh = refl

run_serves-Fetched_example :
    ((now : Time) × (stamp : Time) × (asked ≡ refresh now (ok (some cached)) stamp))
    ⊎ ((now : Time) × (stamp : Time) × AsksAt ℕ ℕ 10 asked now
        × Fetched ℕ ℕ 10 history cached stamp
        × (now < stamp + 10))
run_serves-Fetched_example = run_serves-Fetched ℕ ℕ 10 history asked cached fresh

abbrev answer : Result ℕ (Option (List ℕ))
answer = ok (some (8 ∷ []))

stale : (now : Time) → is_fresh ℕ ℕ 10 (empty ℕ ℕ 10) now ≡ false
unfolding program
stale now = ground arith
