-- ===== src/Prelude/Instants.antt =====
-- Go's `time`: an instant is the number of nanoseconds since the zero time (1 January of year 1), a
-- duration a signed 64-bit number of nanoseconds.
use Prim.Native.Nat.{ℕ, suc, ◌+◌, ◌-◌, ◌≤◌, ◌<◌, min}
use mathlib.Core.Path.{◌≡◌}
use mathlib.Core.Logic.{◌↔◌}
use mathlib.Core.Bool.{Bool, true, false}
use native.Mathlib.Omega.{arith}
use karpenter_provider_exosc.Prelude.Tests.{ltb, leb, eqb, if◌then◌else◌}

-- `negsuc n` is -(n + 1).
pub data ℤ : Type 0 where
  pos : ℕ → ℤ
  negsuc : ℕ → ℤ

abbrev pub Time : Type 0
Time = ℕ

abbrev pub Duration : Type 0
Duration = ℤ

abbrev pub is_zero : Time → Bool
is_zero t = eqb t 0

-- math.MaxInt64
abbrev pub max_duration : ℕ
max_duration = 9223372036854775807

abbrev pub second : ℕ
second = 1000000000

abbrev pub minute : ℕ
minute = 60000000000

-- `t.Sub(u)`, which saturates at the ends of the type.
unfoldable pub time_sub : Time → Time → Duration
time_sub t u =
    if leb u t then pos (min (t - u) max_duration) else negsuc (min (u - t - 1) max_duration)

-- `x - d` for a duration `d` that is not negative: it wraps past the end of the type.
unfoldable pub sub_from : ℕ → Duration → Duration
sub_from x (pos d) = if leb d x then pos (x - d) else negsuc (d - x - 1)
sub_from x (negsuc n) =
    if leb (x + suc n) max_duration
    then pos (x + suc n)
    else negsuc (max_duration + max_duration + 1 - (x + suc n))

-- `d < x` and `x ≤ d` against a duration `x` that is not negative.
abbrev pub lt_dur : Duration → ℕ → Bool
lt_dur (pos d) x = ltb d x
lt_dur (negsuc d) x = true

abbrev pub gt_dur : Duration → ℕ → Bool
gt_dur (pos d) x = ltb x d
gt_dur (negsuc d) x = false

abbrev pub ge_dur : Duration → ℕ → Bool
ge_dur (pos d) x = leb x d
ge_dur (negsuc d) x = false

-- The saturation of `Sub` does not show in a comparison with a duration of the type.
pub time_sub-ge : (t u x : ℕ) → x ≤ max_duration → (ge_dur (time_sub t u) x ≡ true) ↔ (u + x ≤ t)
unfolding time_sub
time_sub-ge t u x h = ground arith

pub time_sub-gt : (t u x : ℕ) → x < max_duration → (gt_dur (time_sub t u) x ≡ true) ↔ (u + x < t)
unfolding time_sub
time_sub-gt t u x h = ground arith

pub time_sub-lt : (t u x : ℕ) → x ≤ max_duration → (lt_dur (time_sub t u) x ≡ false) ↔ (u + x ≤ t)
unfolding time_sub
time_sub-lt t u x h = ground arith
