-- ===== src/Arch/Processor/Tests.antt =====
-- src/arch/processor.rs: two processors without extended leaves.
use neutrix.Base.{ℕ, ◌^◌, ◌≡◌, refl, true, false, ◌==◌, if◌then◌else◌}
use neutrix.Arch.Processor.{CpuidResult}
use neutrix.Arch.Processor.Detect.{detect_cpu_features, decode}

-- "GenuineIntel" at leaf 0, and one bit everywhere.
abbrev old : ℕ → ℕ → CpuidResult
old leaf sub =
    if leaf == 0
    then record { eax = 7; ebx = 0x756e6547; ecx = 0x6c65746e; edx = 0x49656e69 }
    else record { eax = 0; ebx = 1; ecx = 1; edx = 2 ^ 25 }

-- Its extended leaf, which it says not to have, answers otherwise.
abbrev other : ℕ → ℕ → CpuidResult
other leaf sub =
    if leaf == 0x80000001
    then record { eax = 0; ebx = 0; ecx = 0xFFFF; edx = 2 ^ 20 }
    else old leaf sub

sse_run : (detect_cpu_features old).sse ≡ true
unfolding detect_cpu_features decode
sse_run = refl

nx_run : (detect_cpu_features other).nx ≡ false
unfolding detect_cpu_features decode
nx_run = refl
