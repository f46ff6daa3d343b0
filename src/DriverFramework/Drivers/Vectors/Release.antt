-- ===== src/DriverFramework/Drivers/Vectors/Release.antt =====
-- src/driver_framework/drivers/ps2mouse.rs and ps2kbd.rs: what start and release leave of the
-- interrupt table.
use mathlib.Core.Path.{subst}
use neutrix.Base.{
  ℕ, ◌≡◌, refl, ap, ◌∙◌, sym, Option, none, some, All, inl, inr, Bool, true, false, ◌||◌,
  Bool-cases, List, [], ◌∷◌, ◌++◌, ◌==◌, if◌then◌else◌, arith,
}
use neutrix.Arch.Idt.{IdtIndex, Handler, Table, default_irq_handler}
use neutrix.DriverFramework.Device.{Resource, ResourceKind, interrupt, memory_mapped, io, msi, msix}
use neutrix.DriverFramework.Drivers.Vectors.{
  Vectors, has_vector, register_resource, register_vectors, unregister, release,
}

or_false : (b : Bool) → (b || false) ≡ b
or_false true = refl
or_false false = refl

has_vector-append :
    (v w : ℕ) (vs : List ℕ) → has_vector v (vs ++ (w ∷ [])) ≡ has_vector v vs || w == v
has_vector-append v w [] = or_false (w == v)
has_vector-append v w (x ∷ vs) =
    or_append (x == v) (has_vector v vs) (w == v) _ (has_vector-append v w vs)
  where
    or_append : (a b c d : Bool) → d ≡ (b || c) → (a || d) ≡ ((a || b) || c)
    or_append true b c d e = refl
    or_append false b c d e = e

-- The resources name an interrupt of the vector.
abbrev pub is_interrupt : ℕ → ResourceKind → Bool
is_interrupt v (interrupt w) = w == v
is_interrupt v _ = false

abbrev pub names_vector : ℕ → List Resource → Bool
names_vector v [] = false
names_vector v (r ∷ rs) = is_interrupt v r.kind || names_vector v rs

-- The registered vectors are those of before and `named`; the table has changed at them only.
record Tracked (t : Table) (v : ℕ) (named : Bool) (s : Vectors) : Type 0 where
  member : has_vector v s.registered ≡ named
  other : named ≡ false → s.table v ≡ t v

-- A vector that is registered, again or for the first time.
has_vector-pushed :
    (v w : ℕ) (vs : List ℕ)
    → has_vector v (if has_vector w vs then vs else vs ++ (w ∷ [])) ≡ (has_vector v vs || w == v)
has_vector-pushed v w vs = elim (Bool-cases (has_vector w vs)) [
  | inr new ↦ rw new (has_vector-append v w vs)
  | inl old ↦ rw old (elim (Bool-cases (w == v)) [
    | inr e ↦ rw e (sym (or_false (has_vector v vs)))
    | inl e ↦
        let is : w ≡ v = ground arith in
        let found : has_vector v vs ≡ true = subst (λ u. has_vector u vs ≡ true) is old in
        rw (e, found) refl
  ])
]

module _ (idt : IdtIndex) where
  -- The interrupt table takes the vectors.
  abbrev Taken : List ℕ → Type 0
  Taken vs = All (λ w. idt.takes w ≡ true) vs

  -- What a run leads to: no panic, a state that is tracked, and vectors that can be unregistered.
  Ran : (t : Table) (v : ℕ) (named : Bool) → Option Vectors → Type 0
  Ran t v named r = (s : Vectors) × (r ≡ some s) × Tracked t v named s × Taken s.registered

  untouched :
      (b named : Bool) (handler old new : Handler)
      → (named || b) ≡ false
      → (named ≡ false → new ≡ old)
      → (if b then handler else new) ≡ old
  untouched false false handler old new e kept = kept refl
  untouched false true handler old new e kept = absurd (cc e)
  untouched true false handler old new e kept = absurd (cc e)
  untouched true true handler old new e kept = absurd (cc e)

  Taken-pushed :
      (w : ℕ) (vs : List ℕ)
      → idt.takes w ≡ true
      → Taken vs
      → Taken (if has_vector w vs then vs else vs ++ (w ∷ []))
  Taken-pushed w vs takes all =
      let pushed : (vs : List ℕ) → Taken vs → Taken (vs ++ (w ∷ [])) = Taken-append w takes in
      elim (Bool-cases (has_vector w vs)) [
        | inl old ↦ rw old all
        | inr new ↦ rw new (pushed vs all)
      ]
    where
      Taken-append :
          (w : ℕ) → idt.takes w ≡ true → (vs : List ℕ) → Taken vs → Taken (vs ++ (w ∷ []))
      Taken-append w takes [] all = (takes, tt)
      Taken-append w takes (x ∷ vs) all = (all.0, Taken-append w takes vs all.1)

  register_resource-Ran :
      (handler : Handler) (k : ResourceKind) (t : Table) (v : ℕ) (named : Bool) (s : Vectors)
      → ((w : ℕ) → is_interrupt w k ≡ true → idt.takes w ≡ true)
      → Tracked t v named s
      → Taken s.registered
      → Ran t v (named || is_interrupt v k) (register_resource idt handler k s)
  unfolding register_resource Ran
  register_resource-Ran handler (interrupt w) t v named s takes h all =
      let taken = takes w (ground arith) in
      let s' : Vectors = record {
        registered = if has_vector w s.registered then s.registered else s.registered ++ (w ∷ []);
        table = λ v. if w == v then handler else s.table v;
        last_vector = w;
      } in
      (
        s',
        ap
            (λ b. elim (if b then some s'.table else none) [
              | none ↦ none
              | some table ↦ some (record s' { table = table })
            ])
            taken,
        record {
          member = has_vector-pushed v w s.registered ∙ rw h.member refl;
          other = λ e. untouched (w == v) named handler (t v) (s.table v) e h.other;
        },
        Taken-pushed w s.registered taken all,
      )
  register_resource-Ran handler memory_mapped t v named s takes h all =
      (s, refl, rw (or_false named) h, all)
  register_resource-Ran handler io t v named s takes h all = (s, refl, rw (or_false named) h, all)
  register_resource-Ran handler (msi _ _ _ _ _) t v named s takes h all =
      (s, refl, rw (or_false named) h, all)
  register_resource-Ran handler (msix _ _ _ _ _) t v named s takes h all =
      (s, refl, rw (or_false named) h, all)

  or_assoc : (a b c : Bool) → (a || (b || c)) ≡ ((a || b) || c)
  or_assoc true b c = refl
  or_assoc false b c = refl

  register_vectors-Ran :
      (handler : Handler) (rs : List Resource) (t : Table) (v : ℕ) (named : Bool) (s : Vectors)
      → ((w : ℕ) → names_vector w rs ≡ true → idt.takes w ≡ true)
      → Tracked t v named s
      → Taken s.registered
      → Ran t v (named || names_vector v rs) (register_vectors idt handler rs s)
  unfolding register_vectors Ran
  register_vectors-Ran handler [] t v named s takes h all = (s, refl, rw (or_false named) h, all)
  register_vectors-Ran handler (r ∷ rs) t v named s takes h all =
      let (s1, is, h1, all1) =
        register_resource-Ran handler r.kind t v named s (λ w e. takes w (rw e refl)) h all in
      let (s2, is2, h2, all2) =
        register_vectors-Ran handler rs t v (named || is_interrupt v r.kind) s1
          (λ w e. takes w (ground (arith, e))) h1 all1 in
      (
        s2,
        ap (λ o. elim o [ none ↦ none | some s' ↦ register_vectors idt handler rs s' ]) is ∙ is2,
        rw (or_assoc named (is_interrupt v r.kind) (names_vector v rs)) h2,
        all2,
      )

  unregister-Taken :
      (vs : List ℕ) (t : Table) (v : ℕ)
      → Taken vs
      → (t' : Table) × (unregister idt vs t ≡ some t')
        × (t' v ≡ (if has_vector v vs then default_irq_handler else t v))
  unfolding unregister
  unregister-Taken [] t v all = (t, refl, refl)
  unregister-Taken (w ∷ vs) t v all =
      let t1 : Table = λ v. if w == v then default_irq_handler else t v in
      let (t', is, at) = unregister-Taken vs t1 v all.1 in
      (
        t',
        ap
              (λ b. elim (if b then some t1 else none) [
                | none ↦ none
                | some t2 ↦ unregister idt vs t2
              ])
              all.0
            ∙ is,
        at ∙ (elim (Bool-cases (w == v)) [
          | inl e ↦ rw e (same (has_vector v vs))
          | inr e ↦ rw e refl
        ]),
      )
    where
      same :
          (b : Bool)
          → (if b then default_irq_handler else default_irq_handler) ≡ default_irq_handler
      same true = refl
      same false = refl

  settled :
      (b : Bool) (new old : Handler)
      → (b ≡ false → new ≡ old)
      → (if b then default_irq_handler else new) ≡ (if b then default_irq_handler else old)
  settled true new old kept = refl
  settled false new old kept = kept refl

  -- A driver that has no vectors yet registers those of its device, and is released again, where the
  -- interrupt table takes each vector that the device's resources name: then neither call panics,
  -- every interrupt that they name has the placeholder as its handler, every other vector its handler
  -- of before, and the driver no vectors.
  pub release-register_vectors :
      (handler : Handler) (rs : List Resource) (s : Vectors) (v : ℕ)
      → s.registered ≡ []
      → ((w : ℕ) → names_vector w rs ≡ true → idt.takes w ≡ true)
      → (s1 : Vectors) × (s2 : Vectors) × (register_vectors idt handler rs s ≡ some s1)
        × (release idt s1 ≡ some s2)
        × (s2.registered ≡ [])
        × (s2.table v ≡ (if names_vector v rs then default_irq_handler else s.table v))
  unfolding Ran release
  release-register_vectors handler rs s v new takes =
      let first : Tracked s.table v false s = record { member = rw new refl; other = λ _. refl } in
      let (s1, is, h, all) =
        register_vectors-Ran handler rs s.table v false s takes first (rw new tt) in
      let (t2, is2, at) = unregister-Taken s1.registered s1.table v all in
      (
        s1,
        record s1 { registered = []; table = t2 },
        is,
        ap
            (λ o. elim o [
              | none ↦ none
              | some table ↦ some (record s1 { registered = []; table = table })
            ])
            is2,
        refl,
        at
            ∙ ap (λ b. if b then default_irq_handler else s1.table v) h.member
            ∙ settled (names_vector v rs) (s1.table v) (s.table v) h.other,
      )
