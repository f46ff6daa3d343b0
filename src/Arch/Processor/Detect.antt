-- ===== src/Arch/Processor/Detect.antt =====
-- src/arch/processor.rs: `detect_cpu_features`. The instruction `cpuid` is a parameter, a function
-- from the leaf and the subleaf.
use neutrix.Base.{ℕ, ◌/◌, ◌%◌, ◌^◌, Bool, ◌&&◌, List, [], ◌∷◌, leb, bit}
use neutrix.Arch.Processor.{CpuidResult, CpuFeatures}

-- `(x & 0xFF) as u8`, `((x >> 8) & 0xFF) as u8` and so on, in front of `rest`
unfoldable pub register_bytes : ℕ → List ℕ → List ℕ
register_bytes x rest = x % 256 ∷ x / 2 ^ 8 % 256 ∷ x / 2 ^ 16 % 256 ∷ x / 2 ^ 24 % 256 ∷ rest

unfoldable pub vendor_bytes : CpuidResult → List ℕ
vendor_bytes r = register_bytes r.ebx (register_bytes r.edx (register_bytes r.ecx []))

-- The features from the leaves' answers. `extended` is the test on the highest extended leaf: a
-- flag that is set only under it is `false` otherwise, by `default`.
unfoldable pub decode :
    (leaf0 leaf1 leaf7 : CpuidResult) (extended : Bool) (ext : CpuidResult) → CpuFeatures
unfolding vendor_bytes
decode leaf0 leaf1 leaf7 extended ext = record {
  vendor = vendor_bytes leaf0;
  fpu = bit leaf1.edx 0;
  vme = bit leaf1.edx 1;
  de = bit leaf1.edx 2;
  pse = bit leaf1.edx 3;
  tsc = bit leaf1.edx 4;
  msr = bit leaf1.edx 5;
  pae = bit leaf1.edx 6;
  mce = bit leaf1.edx 7;
  cx8 = bit leaf1.edx 8;
  apic = bit leaf1.edx 9;
  sep = bit leaf1.edx 11;
  mtrr = bit leaf1.edx 12;
  pge = bit leaf1.edx 13;
  mca = bit leaf1.edx 14;
  cmov = bit leaf1.edx 15;
  pat = bit leaf1.edx 16;
  pse36 = bit leaf1.edx 17;
  psn = bit leaf1.edx 18;
  clfsh = bit leaf1.edx 19;
  ds = bit leaf1.edx 21;
  acpi = bit leaf1.edx 22;
  mmx = bit leaf1.edx 23;
  fxsr = bit leaf1.edx 24;
  sse = bit leaf1.edx 25;
  sse2 = bit leaf1.edx 26;
  ss = bit leaf1.edx 27;
  htt = bit leaf1.edx 28;
  tm = bit leaf1.edx 29;
  ia64 = bit leaf1.edx 30;
  pbe = bit leaf1.edx 31;
  sse3 = bit leaf1.ecx 0;
  pclmulqdq = bit leaf1.ecx 1;
  dtes64 = bit leaf1.ecx 2;
  monitor = bit leaf1.ecx 3;
  ds_cpl = bit leaf1.ecx 4;
  vmx = bit leaf1.ecx 5;
  smx = bit leaf1.ecx 6;
  est = bit leaf1.ecx 7;
  tm2 = bit leaf1.ecx 8;
  ssse3 = bit leaf1.ecx 9;
  cnxt_id = bit leaf1.ecx 10;
  sdbg = bit leaf1.ecx 11;
  fma = bit leaf1.ecx 12;
  cx16 = bit leaf1.ecx 13;
  xtpr = bit leaf1.ecx 14;
  pdcm = bit leaf1.ecx 15;
  pcid = bit leaf1.ecx 17;
  dca = bit leaf1.ecx 18;
  sse4_1 = bit leaf1.ecx 19;
  sse4_2 = bit leaf1.ecx 20;
  x2apic = bit leaf1.ecx 21;
  movbe = bit leaf1.ecx 22;
  popcnt = bit leaf1.ecx 23;
  tsc_deadline = bit leaf1.ecx 24;
  aes = bit leaf1.ecx 25;
  xsave = bit leaf1.ecx 26;
  osxsave = bit leaf1.ecx 27;
  avx = bit leaf1.ecx 28;
  f16c = bit leaf1.ecx 29;
  rdrand = bit leaf1.ecx 30;
  hypervisor = bit leaf1.ecx 31;
  syscall = extended && bit ext.edx 11;
  mp = extended && bit ext.edx 19;
  nx = extended && bit ext.edx 20;
  mmxext = extended && bit ext.edx 22;
  fxsr_opt = extended && bit ext.edx 25;
  pdpe1gb = extended && bit ext.edx 26;
  rdtscp = extended && bit ext.edx 27;
  lm = extended && bit ext.edx 29;
  threednowext = extended && bit ext.edx 30;
  threednow = extended && bit ext.edx 31;
  lahf_lm = extended && bit ext.ecx 0;
  cmp_legacy = extended && bit ext.ecx 1;
  svm = extended && bit ext.ecx 2;
  extapic = extended && bit ext.ecx 3;
  cr8_legacy = extended && bit ext.ecx 4;
  abm = extended && bit ext.ecx 5;
  sse4a = extended && bit ext.ecx 6;
  misalignsse = extended && bit ext.ecx 7;
  threednowprefetch = extended && bit ext.ecx 8;
  osvw = extended && bit ext.ecx 9;
  ibs = extended && bit ext.ecx 10;
  xop = extended && bit ext.ecx 11;
  skinit = extended && bit ext.ecx 12;
  wdt = extended && bit ext.ecx 13;
  lwp = extended && bit ext.ecx 15;
  fma4 = extended && bit ext.ecx 16;
  tce = extended && bit ext.ecx 17;
  nodeid_msr = extended && bit ext.ecx 19;
  tbm = extended && bit ext.ecx 21;
  topoext = extended && bit ext.ecx 22;
  perfctr_core = extended && bit ext.ecx 23;
  perfctr_nb = extended && bit ext.ecx 24;
  bpext = extended && bit ext.ecx 26;
  ptsc = extended && bit ext.ecx 27;
  perfctr_llc = extended && bit ext.ecx 28;
  mwaitx = extended && bit ext.ecx 29;
  fsgsbase = bit leaf7.ebx 0;
  tsc_adjust = bit leaf7.ebx 1;
  sgx = bit leaf7.ebx 2;
  bmi1 = bit leaf7.ebx 3;
  hle = bit leaf7.ebx 4;
  avx2 = bit leaf7.ebx 5;
  fdp_excptn_only = bit leaf7.ebx 6;
  smep = bit leaf7.ebx 7;
  bmi2 = bit leaf7.ebx 8;
  rep_movsb_stosb = bit leaf7.ebx 9;
  invpcid = bit leaf7.ebx 10;
  rtm = bit leaf7.ebx 11;
  rdt_m = bit leaf7.ebx 12;
  dep_fpu_cs_ds = bit leaf7.ebx 13;
  mpx = bit leaf7.ebx 14;
  rdt_a = bit leaf7.ebx 15;
  avx512f = bit leaf7.ebx 16;
  avx512dq = bit leaf7.ebx 17;
  rdseed = bit leaf7.ebx 18;
  adx = bit leaf7.ebx 19;
  smap = bit leaf7.ebx 20;
  avx512ifma = bit leaf7.ebx 21;
  pcommit = bit leaf7.ebx 22;
  clflushopt = bit leaf7.ebx 23;
  clwb = bit leaf7.ebx 24;
  intel_pt = bit leaf7.ebx 25;
  avx512pf = bit leaf7.ebx 26;
  avx512er = bit leaf7.ebx 27;
  avx512cd = bit leaf7.ebx 28;
  sha = bit leaf7.ebx 29;
  avx512bw = bit leaf7.ebx 30;
  avx512vl = bit leaf7.ebx 31;
  prefetchwt1 = bit leaf7.ecx 0;
  avx512vbmi = bit leaf7.ecx 1;
  umip = bit leaf7.ecx 2;
  pku = bit leaf7.ecx 3;
  ospke = bit leaf7.ecx 4;
  waitpkg = bit leaf7.ecx 5;
  avx512vbmi2 = bit leaf7.ecx 6;
  cet_ss = bit leaf7.ecx 7;
  gfni = bit leaf7.ecx 8;
  vaes = bit leaf7.ecx 9;
  vpclmulqdq = bit leaf7.ecx 10;
  avx512vnni = bit leaf7.ecx 11;
  avx512bitalg = bit leaf7.ecx 12;
  tme = bit leaf7.ecx 13;
  avx512vpopcntdq = bit leaf7.ecx 14;
  la57 = bit leaf7.ecx 15;
  rdpid = bit leaf7.ecx 16;
  keylocker = bit leaf7.ecx 17;
  bus_lock_detect = bit leaf7.ecx 18;
  cldemote = bit leaf7.ecx 19;
  movdiri = bit leaf7.ecx 20;
  movdir64b = bit leaf7.ecx 21;
  enqcmd = bit leaf7.ecx 22;
  sgx_lc = bit leaf7.ecx 23;
  pks = bit leaf7.ecx 24;
}

unfoldable pub detect_cpu_features : (ℕ → ℕ → CpuidResult) → CpuFeatures
unfolding decode
detect_cpu_features cpuid =
    decode (cpuid 0 0) (cpuid 1 0) (cpuid 7 0) (leb 0x80000001 (cpuid 0x80000000 0).eax)
      (cpuid 0x80000001 0)
