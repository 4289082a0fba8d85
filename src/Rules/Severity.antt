-- ===== src/Rules/Severity.antt =====
-- The order laws of `IsMoreSevere` of pkg/rules/types.go.
use container_runtime_securi.Prelude.{◌≡◌, true, false, arith, nat_comparable}
use container_runtime_securi.Pipeline.Event.{RuleMatch}
use container_runtime_securi.Rules.{is_more_severe}

-- `IsMoreSevere` is a strict weak order: no match is more severe than itself; what is more severe than a
-- second match is so than every third that the second is more severe than; and of two matches, one more
-- severe than the other, any third is less severe than the one or more severe than the other.
pub is_more_severe_order :
    (m n o : RuleMatch)
    → (is_more_severe m m ≡ false)
      × ((is_more_severe m n ≡ true → is_more_severe n o ≡ true → is_more_severe m o ≡ true)
          × (is_more_severe m o ≡ true → is_more_severe m n ≡ false → is_more_severe n o ≡ true))
unfolding is_more_severe
is_more_severe_order m n o = (ground arith, (λ h k. ground arith, λ h k. ground arith))
