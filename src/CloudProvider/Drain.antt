-- ===== src/CloudProvider/Drain.antt =====
-- `drainNode`: pods are evicted in rounds, until nothing is left to evict or the time is over.
use karpenter_provider_exosc.Kube.{ApiError, not_found}
use karpenter_provider_exosc.Prelude.{
  ℕ, zero, suc, ◌*◌, Bool, true, false, not, ◌&&◌, ◌||◌, Option, none, some, String, List, [], ◌∷◌,
  ◌++◌, map, contains, Time, ltb, minute, second, Result, ok, err, if◌then◌else◌,
}

pub record Pod : Type 0 where
  pub name : String
  pub namespace : String
  pub owner_kinds : List String
  pub deletion_timestamp : Option Time

pub data EvictAnswer : Type 0 where
  evicted gone failed : EvictAnswer

-- What the cluster answers; a round counts from 0, and `elapsed` is the time since the start.
pub record Cluster : Type 0 where
  pub get_node : Result ApiError Bool
  pub cordon : Result ApiError (Unit {0})
  pub elapsed : ℕ → ℕ
  pub pods : ℕ → Option (List Pod)
  pub evict : ℕ → Pod → EvictAnswer

pub record Flags : Type 0 where
  pub eviction_failed : Bool
  pub found_in_deletion_pods : Bool
  pub just_evicted_pod : Bool

abbrev pub no_flags : Flags
no_flags = record {
  eviction_failed = false;
  found_in_deletion_pods = false;
  just_evicted_pod = false;
}

abbrev pub eviction_limit : ℕ
eviction_limit = 15 * minute

abbrev pub eviction_pause : ℕ
eviction_pause = 5 * second

unfoldable pub is_daemon_set : Pod → Bool
is_daemon_set pod = contains pod.owner_kinds "DaemonSet"

abbrev pub is_set : Option Time → Bool
is_set none = false
is_set (some t) = true

abbrev pub record_answer : EvictAnswer → Flags → Flags
record_answer evicted f = record f { just_evicted_pod = true }
record_answer gone f = f
record_answer failed f = record f { eviction_failed = true }

-- The loop over the pods of one round: the pods that it asks to evict, and the flags.
unfoldable pub evict_pods : (Pod → EvictAnswer) → List Pod → List Pod × Flags
evict_pods evict [] = ([], no_flags)
evict_pods evict (pod ∷ pods) =
    let (asked, flags) = evict_pods evict pods in
    if is_daemon_set pod
    then (asked, flags)
    else if is_set pod.deletion_timestamp
    then (asked, record flags { found_in_deletion_pods = true })
    else (pod ∷ asked, record_answer (evict pod) flags)

abbrev pub is_quiet : Flags → Bool
is_quiet f = not f.eviction_failed && not f.found_in_deletion_pods && not f.just_evicted_pod

abbrev pub is_empty : List Pod → Bool
is_empty [] = true
is_empty (p ∷ ps) = false

pub data DrainEnd : Type 0 where
  drained timed_out : DrainEnd

abbrev pub after_round : List Pod → Option (List Pod × DrainEnd) → Option (List Pod × DrainEnd)
after_round asked none = none
after_round asked (some (later, end)) = some (asked ++ later, end)

-- A round in which the pods were listed, with what follows it.
unfoldable pub round :
    (Pod → EvictAnswer)
    → Option (List Pod)
    → Option (List Pod × DrainEnd)
    → Option (List Pod × DrainEnd)
round evict none rest = rest
round evict (some pods) rest =
    let (asked, flags) = evict_pods evict pods in
    if is_quiet flags || is_empty pods then some (asked, drained) else after_round asked rest

-- The rounds from one on, on fuel: the pods that they ask to evict and how they end.
unfoldable pub drain_loop : Cluster → ℕ → ℕ → Option (List Pod × DrainEnd)
unfolding round
drain_loop c zero k = none
drain_loop c (suc fuel) k =
    let rest = drain_loop c fuel (suc k) in
    if ltb eviction_limit (c.elapsed k)
    then some ([], timed_out)
    else round (c.evict k) (c.pods k) rest

-- As many rounds as the pauses leave time for.
abbrev pub drain_rounds : ℕ
drain_rounds = 182

-- What a call asks of the cluster and of the API.
pub data Action : Type 0 where
  cordon_node : Action
  evict_pod : Pod → Action
  delete_instance : String → Action

abbrev pub ended :
    List Action → Option (List Pod × DrainEnd) → Option (List Action × Result ApiError (Unit {0}))
ended before none = none
ended before (some (asked, end)) = some (before ++ map evict_pod asked, ok tt)

abbrev pub cordoned :
    Cluster → Result ApiError (Unit {0}) → Option (List Action × Result ApiError (Unit {0}))
cordoned c (err e) = some (cordon_node ∷ [], err e)
cordoned c (ok _) = ended (cordon_node ∷ []) (drain_loop c drain_rounds 0)

abbrev pub with_node :
    Cluster → Result ApiError Bool → Option (List Action × Result ApiError (Unit {0}))
with_node c (err not_found) = some ([], ok tt)
with_node c (err e) = some ([], err e)
with_node c (ok unschedulable) =
    if not unschedulable then cordoned c c.cordon else ended [] (drain_loop c drain_rounds 0)

-- `drainNode`, by whether its node is unschedulable; `none` is out of fuel.
unfoldable pub drain_node : Cluster → Option (List Action × Result ApiError (Unit {0}))
drain_node c = with_node c c.get_node
