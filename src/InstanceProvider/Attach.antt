-- ===== src/InstanceProvider/Attach.antt =====
-- `attachElasticIP` and `attachPrivateNetwork`, and the loops over the resources of a NodeClass.
use karpenter_provider_exosc.Kube.{ApiError, bad_request}
use native.Mathlib.Decide.{dec_lt}
use karpenter_provider_exosc.Prelude.{
  ℕ, zero, suc, ◌+◌, ◌-◌, ◌≤◌, ◌<◌, ◌≡◌, refl, ap, inl, inr, Bool, true, false, String, List, [],
  ◌∷◌, Result, ok, err, arith, ltb, if◌then◌else◌, Bool-cases,
}

-- The answer to an attach request: an error, no operation, or an operation whose wait ends well or not.
pub data AttachAnswer : Type 0 where
  refused : ApiError → AttachAnswer
  no_operation : AttachAnswer
  operation : Bool → AttachAnswer

pub data AttachError : Type 0 where
  attach_failed wait_failed attempts_exhausted : AttachError

abbrev pub max_attempts : ℕ
max_attempts = 30

abbrev pub is_bad_request : ApiError → Bool
is_bad_request bad_request = true
is_bad_request _ = false

-- One round, with the rest of the loop.
attempt_once :
    ℕ → AttachAnswer → ℕ × Result AttachError (Unit {0}) → ℕ × Result AttachError (Unit {0})
attempt_once attempt (refused e) rest =
    if is_bad_request e
    then (if ltb attempt max_attempts then rest else (attempt, err attach_failed))
    else (attempt, err attach_failed)
attempt_once attempt no_operation rest = (attempt, ok tt)
attempt_once attempt (operation true) rest = (attempt, ok tt)
attempt_once attempt (operation false) rest = (attempt, err wait_failed)

-- The loop from `attempt` on, with the rounds that are left; it returns the number of requests that
-- were sent and how it ended. The answer may depend on the number of the attempt.
unfoldable pub attach_loop : (ℕ → AttachAnswer) → ℕ → ℕ → ℕ × Result AttachError (Unit {0})
unfolding attempt_once
attach_loop answer zero attempt = (attempt - 1, err attempts_exhausted)
attach_loop answer (suc left) attempt =
    attempt_once attempt (answer attempt) (attach_loop answer left (suc attempt))

-- `attachElasticIP`
unfoldable pub attach_elastic_ip : (ℕ → AttachAnswer) → ℕ × Result AttachError (Unit {0})
attach_elastic_ip answer = attach_loop answer max_attempts 1

-- `attachElasticIPs` and `attachPrivateNetworks`: one after the other, up to the first failure.
unfoldable pub attach_all :
    (String → Result AttachError (Unit {0})) → List String → Result AttachError (Unit {0})
attach_all attach [] = ok tt
attach_all attach (id ∷ ids) =
    let rest = attach_all attach ids in elim (attach id) [ err e ↦ err e | ok _ ↦ rest ]

-- The request is attached, or the attempt ends the loop otherwise.
abbrev pub Transient : AttachAnswer → Type 0
Transient a = a ≡ refused bad_request

attach_loop-Transient :
    (answer : ℕ → AttachAnswer) (left attempt : ℕ)
    → attempt + left ≡ suc max_attempts
    → 0 < left
    → ((k : ℕ) → attempt ≤ k → k ≤ max_attempts → Transient (answer k))
    → attach_loop answer left attempt ≡ (max_attempts, err attach_failed)
unfolding attach_loop
attach_loop-Transient answer zero attempt e h all = absurd (omega arith)
attach_loop-Transient answer (suc zero) attempt e h all =
    let last = all attempt (omega arith) (omega arith) in rw last (ground arith)
attach_loop-Transient answer (suc (suc left)) attempt e h all =
    let now = all attempt (omega arith) (omega arith) in
    rw now (
      ground (
        arith,
        attach_loop-Transient answer (suc left) (suc attempt) (omega arith) (omega arith)
            (λ k lo hi. all k (omega arith) hi),
      ))

-- How an answer ends the loop.
abbrev pub settle : AttachAnswer → Result AttachError (Unit {0})
settle (refused e) = err attach_failed
settle no_operation = ok tt
settle (operation true) = ok tt
settle (operation false) = err wait_failed

attempt_once-settles :
    (attempt : ℕ) (a : AttachAnswer) (rest : ℕ × Result AttachError (Unit {0}))
    → ¬ Transient a
    → attempt_once attempt a rest ≡ (attempt, settle a)
unfolding attempt_once
attempt_once-settles attempt (refused e) rest h = elim (Bool-cases (is_bad_request e)) [
  | inl b ↦ absurd (h (ap refused (is_bad e b)))
  | inr b ↦ rw b
]
  where
    is_bad : (e : ApiError) → is_bad_request e ≡ true → e ≡ bad_request
    is_bad e b = ground arith
attempt_once-settles attempt no_operation rest h = refl
attempt_once-settles attempt (operation true) rest h = refl
attempt_once-settles attempt (operation false) rest h = refl

attach_loop-settles :
    (answer : ℕ → AttachAnswer) (k left attempt : ℕ)
    → attempt + left ≡ suc max_attempts
    → attempt ≤ k
    → k ≤ max_attempts
    → ((j : ℕ) → attempt ≤ j → j < k → Transient (answer j))
    → ¬ Transient (answer k)
    → attach_loop answer left attempt ≡ (k, settle (answer k))
unfolding attach_loop
attach_loop-settles answer k zero attempt e lo hi all h = absurd (omega arith)
attach_loop-settles answer k (suc left) attempt e lo hi all h = elim (dec_lt attempt k) [
  | yes before ↦ rw (all attempt (omega arith) before) (
      ground (
        arith,
        attach_loop-settles answer k left (suc attempt) (omega arith) before hi
            (λ j l r. all j (omega arith) r) h,
      ))
  | no now ↦ let same : attempt ≡ k = omega arith in rw same (attempt_once-settles k (answer k) _ h)
]

-- Attaching an elastic IP retries only while the API answers 400: the first other answer, at
-- attempt `k` of the 30, decides how it ends, with `k` requests sent.
pub attach_elastic_ip-settles :
    (answer : ℕ → AttachAnswer) (k : ℕ)
    → 1 ≤ k
    → k ≤ max_attempts
    → ((j : ℕ) → 1 ≤ j → j < k → Transient (answer j))
    → ¬ Transient (answer k)
    → attach_elastic_ip answer ≡ (k, settle (answer k))
unfolding attach_elastic_ip
attach_elastic_ip-settles answer k lo hi all h =
    attach_loop-settles answer k max_attempts 1 refl lo hi all h

-- If every attempt is answered 400, the call fails after 30 requests.
pub attach_elastic_ip-Transient :
    (answer : ℕ → AttachAnswer)
    → ((k : ℕ) → 1 ≤ k → k ≤ max_attempts → Transient (answer k))
    → attach_elastic_ip answer ≡ (max_attempts, err attach_failed)
unfolding attach_elastic_ip
attach_elastic_ip-Transient answer all =
    attach_loop-Transient answer max_attempts 1 refl (omega arith) all
