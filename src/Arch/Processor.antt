-- ===== src/Arch/Processor.antt =====
-- src/arch/processor.rs: the features of the processor.
pub mod Detect
pub mod Leaves
pub mod Enable
mod Tests
use neutrix.Base.{ℕ, Bool, List}

-- What `cpuid` answers.
pub record CpuidResult : Type 0 where
  pub eax : ℕ
  pub ebx : ℕ
  pub ecx : ℕ
  pub edx : ℕ

pub record CpuFeatures : Type 0 where
  pub vendor : List ℕ
  -- Basic features EDX
  pub fpu : Bool
  pub vme : Bool
  pub de : Bool
  pub pse : Bool
  pub tsc : Bool
  pub msr : Bool
  pub pae : Bool
  pub mce : Bool
  pub cx8 : Bool
  pub apic : Bool
  pub sep : Bool
  pub mtrr : Bool
  pub pge : Bool
  pub mca : Bool
  pub cmov : Bool
  pub pat : Bool
  pub pse36 : Bool
  pub psn : Bool
  pub clfsh : Bool
  pub ds : Bool
  pub acpi : Bool
  pub mmx : Bool
  pub fxsr : Bool
  pub sse : Bool
  pub sse2 : Bool
  pub ss : Bool
  pub htt : Bool
  pub tm : Bool
  pub ia64 : Bool
  pub pbe : Bool
  -- Basic ECX
  pub sse3 : Bool
  pub pclmulqdq : Bool
  pub dtes64 : Bool
  pub monitor : Bool
  pub ds_cpl : Bool
  pub vmx : Bool
  pub smx : Bool
  pub est : Bool
  pub tm2 : Bool
  pub ssse3 : Bool
  pub cnxt_id : Bool
  pub sdbg : Bool
  pub fma : Bool
  pub cx16 : Bool
  pub xtpr : Bool
  pub pdcm : Bool
  pub pcid : Bool
  pub dca : Bool
  pub sse4_1 : Bool
  pub sse4_2 : Bool
  pub x2apic : Bool
  pub movbe : Bool
  pub popcnt : Bool
  pub tsc_deadline : Bool
  pub aes : Bool
  pub xsave : Bool
  pub osxsave : Bool
  pub avx : Bool
  pub f16c : Bool
  pub rdrand : Bool
  pub hypervisor : Bool
  -- Extended EDX
  pub syscall : Bool
  pub mp : Bool
  pub nx : Bool
  pub mmxext : Bool
  pub fxsr_opt : Bool
  pub pdpe1gb : Bool
  pub rdtscp : Bool
  pub lm : Bool
  pub threednowext : Bool
  pub threednow : Bool
  -- Extended ECX
  pub lahf_lm : Bool
  pub cmp_legacy : Bool
  pub svm : Bool
  pub extapic : Bool
  pub cr8_legacy : Bool
  pub abm : Bool
  pub sse4a : Bool
  pub misalignsse : Bool
  pub threednowprefetch : Bool
  pub osvw : Bool
  pub ibs : Bool
  pub xop : Bool
  pub skinit : Bool
  pub wdt : Bool
  pub lwp : Bool
  pub fma4 : Bool
  pub tce : Bool
  pub nodeid_msr : Bool
  pub tbm : Bool
  pub topoext : Bool
  pub perfctr_core : Bool
  pub perfctr_nb : Bool
  pub bpext : Bool
  pub ptsc : Bool
  pub perfctr_llc : Bool
  pub mwaitx : Bool
  -- EAX=7, EBX
  pub fsgsbase : Bool
  pub tsc_adjust : Bool
  pub sgx : Bool
  pub bmi1 : Bool
  pub hle : Bool
  pub avx2 : Bool
  pub fdp_excptn_only : Bool
  pub smep : Bool
  pub bmi2 : Bool
  pub rep_movsb_stosb : Bool
  pub invpcid : Bool
  pub rtm : Bool
  pub rdt_m : Bool
  pub dep_fpu_cs_ds : Bool
  pub mpx : Bool
  pub rdt_a : Bool
  pub avx512f : Bool
  pub avx512dq : Bool
  pub rdseed : Bool
  pub adx : Bool
  pub smap : Bool
  pub avx512ifma : Bool
  pub pcommit : Bool
  pub clflushopt : Bool
  pub clwb : Bool
  pub intel_pt : Bool
  pub avx512pf : Bool
  pub avx512er : Bool
  pub avx512cd : Bool
  pub sha : Bool
  pub avx512bw : Bool
  pub avx512vl : Bool
  -- EAX=7, ECX
  pub prefetchwt1 : Bool
  pub avx512vbmi : Bool
  pub umip : Bool
  pub pku : Bool
  pub ospke : Bool
  pub waitpkg : Bool
  pub avx512vbmi2 : Bool
  pub cet_ss : Bool
  pub gfni : Bool
  pub vaes : Bool
  pub vpclmulqdq : Bool
  pub avx512vnni : Bool
  pub avx512bitalg : Bool
  pub tme : Bool
  pub avx512vpopcntdq : Bool
  pub la57 : Bool
  pub rdpid : Bool
  pub keylocker : Bool
  pub bus_lock_detect : Bool
  pub cldemote : Bool
  pub movdiri : Bool
  pub movdir64b : Bool
  pub enqcmd : Bool
  pub sgx_lc : Bool
  pub pks : Bool
