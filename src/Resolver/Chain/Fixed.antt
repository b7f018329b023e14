-- ===== src/Resolver/Chain/Fixed.antt =====
-- The pointers of a chain as the linker writes them, and the value that each is to have.
use machgate.Base.{
  ℕ, ◌+◌, ◌-◌, ◌*◌, ◌/◌, ◌^◌, ◌%◌, ◌<◌, ◌≡◌, refl, arith, ◌∙◌, if◌then◌else◌, bit_or, Bool, ℤ,
}
use machgate.Base.Bits.{and_mask}
use machgate.Resolver.Chain.{
  fixup_ptr_bind, fixup_ptr_next, fixup_bind_ordinal, fixup_bind_addend, fixup_rebase_target,
  fixup_rebase_high8, to_int8, fixed,
}

pub data Fixup : Type 0 where
  rebase : (target high8 : ℕ) → Fixup
  bind : (ordinal addend : ℕ) → Fixup

abbrev pub FixupFits : Fixup → Type 0
FixupFits (rebase target high8) = (target < 2 ^ 36) × (high8 < 2 ^ 8)
FixupFits (bind ordinal addend) = (ordinal < 2 ^ 24) × (addend < 2 ^ 8)

-- The pointer that is in the file, with the distance to the next one in words of four bytes.
abbrev pub raw_of : Fixup → (next : ℕ) → ℕ
raw_of (rebase target high8) next = target + high8 * 2 ^ 36 + next * 2 ^ 51
raw_of (bind ordinal addend) next = ordinal + addend * 2 ^ 24 + next * 2 ^ 51 + 2 ^ 63

abbrev pub rebases : Fixup → ℕ
rebases (rebase target high8) = 1
rebases (bind ordinal addend) = 0

module _ (mh_addr slide : ℕ) (resolve : (ordinal : ℕ) → (addend : ℤ) → (loc : ℕ) → ℕ)
    (is_offset : Bool) where
  abbrev pub value_of : Fixup → (loc : ℕ) → ℕ
  value_of (rebase target high8) loc =
      bit_or (((if is_offset then mh_addr else slide) + target) % 2 ^ 64) (high8 * 2 ^ 56)
  value_of (bind ordinal addend) loc = resolve ordinal (to_int8 addend) loc

  pub raw-next :
      (f : Fixup) (next : ℕ) → FixupFits f → next < 2 ^ 12 → fixup_ptr_next (raw_of f next) ≡ next
  raw-next (rebase target high8) next fits small =
      and_mask 12 ((target + high8 * 2 ^ 36 + next * 2 ^ 51) / 2 ^ 51) ∙ omega arith
  raw-next (bind ordinal addend) next fits small =
      and_mask 12 ((ordinal + addend * 2 ^ 24 + next * 2 ^ 51 + 2 ^ 63) / 2 ^ 51) ∙ omega arith

  pub raw-fixed :
      (f : Fixup) (next loc : ℕ)
      → FixupFits f
      → next < 2 ^ 12
      → (fixed mh_addr slide resolve is_offset (raw_of f next) loc ≡ value_of f loc)
        × (fixup_ptr_bind (raw_of f next) ≡ 1 - rebases f)
  raw-fixed (rebase target high8) next loc fits small =
      let raw = target + high8 * 2 ^ 36 + next * 2 ^ 51 in
      let is_rebase : fixup_ptr_bind raw ≡ 0 = and_mask 1 (raw / 2 ^ 63) ∙ omega arith in
      let at_target : fixup_rebase_target raw ≡ target = and_mask 36 raw ∙ omega arith in
      let at_high8 : fixup_rebase_high8 raw ≡ high8 = and_mask 8 (raw / 2 ^ 36) ∙ omega arith in
      (rw (is_rebase, at_target, at_high8) refl, is_rebase)
  raw-fixed (bind ordinal addend) next loc fits small =
      let raw = ordinal + addend * 2 ^ 24 + next * 2 ^ 51 + 2 ^ 63 in
      let is_bind : fixup_ptr_bind raw ≡ 1 = and_mask 1 (raw / 2 ^ 63) ∙ omega arith in
      let at_ordinal : fixup_bind_ordinal raw ≡ ordinal = and_mask 24 raw ∙ omega arith in
      let at_addend : fixup_bind_addend raw ≡ addend = and_mask 8 (raw / 2 ^ 24) ∙ omega arith in
      (rw (is_bind, at_ordinal, at_addend) refl, is_bind)
