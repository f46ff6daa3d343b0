-- ===== src/Arch/Processor/Leaves.antt =====
-- src/arch/processor.rs: the vendor's text.
use neutrix.Base.{ℕ, ◌+◌, ◌*◌, ◌/◌, ◌%◌, ◌^◌, ◌≡◌, ◌<◌, refl, List, [], ◌∷◌, arith}
use neutrix.Arch.Processor.{CpuidResult}
use neutrix.Arch.Processor.Detect.{register_bytes, vendor_bytes, decode, detect_cpu_features}

-- Bytes of little-endian words.
abbrev pub words : List ℕ → List ℕ
words (a ∷ b ∷ c ∷ d ∷ rest) = (a + b * 2 ^ 8 + c * 2 ^ 16 + d * 2 ^ 24) ∷ words rest
words _ = []

word_back :
    (x : ℕ)
    → x < 2 ^ 32
    → x % 256 + x / 2 ^ 8 % 256 * 2 ^ 8 + x / 2 ^ 16 % 256 * 2 ^ 16 + x / 2 ^ 24 % 256 * 2 ^ 24 ≡ x
word_back x h = omega arith

-- The twelve bytes of the vendor, read as little-endian words, are the registers `ebx`, `edx` and
-- `ecx` of leaf 0, for 32-bit registers.
pub words-vendor :
    (cpuid : ℕ → ℕ → CpuidResult)
    → (cpuid 0 0).ebx < 2 ^ 32
    → (cpuid 0 0).edx < 2 ^ 32
    → (cpuid 0 0).ecx < 2 ^ 32
    → words (detect_cpu_features cpuid).vendor
      ≡ (cpuid 0 0).ebx ∷ (cpuid 0 0).edx ∷ (cpuid 0 0).ecx ∷ []
unfolding detect_cpu_features decode vendor_bytes register_bytes
words-vendor cpuid b d c =
    rw (word_back (cpuid 0 0).ebx b, word_back (cpuid 0 0).edx d, word_back (cpuid 0 0).ecx c) refl
