-- ===== src/Boot/Rewrite/Words.antt =====
-- What the scan makes of one word.
use machgate.Base.{
  ℕ, ◌+◌, ◌*◌, ◌/◌, ◌%◌, ◌^◌, ◌<◌, ◌≡◌, refl, arith, ap, ◌∙◌, Bool, true, false, inl, inr,
  Bool-cases, bit_and, bit_or, ==_iff,
}
use machgate.Base.Bits.{and_skip, and_keep, and_mask, or_fields, or_joins, or-zero, bit}
use machgate.Base.Bits.Flags.{bit-or}
use machgate.Boot.Rewrite.{
  Rewrites, is_ldapr, to_ldar, is_tpidrro_read, to_tpidr_read, downgrade_rcpc, rewrite_tpidrro_read,
  scan_word, record_text_patch, patch_rcpc, patch_tpidrro,
}

-- 0x3FFFFC00: bits 29 to 10.
ldapr_mask : (w : ℕ) → bit_and w 0x3FFFFC00 ≡ w / 2 ^ 10 % 2 ^ 20 * 2 ^ 10
ldapr_mask w =
    let e1 : bit_and w 0x3FFFFC00 ≡ bit_and (w / 2 ^ 10) 0xFFFFF * 2 ^ 10 = and_skip 10 w 0xFFFFF in
    let e2 : bit_and (w / 2 ^ 10) 0xFFFFF ≡ w / 2 ^ 10 % 2 ^ 20 = and_mask 20 (w / 2 ^ 10) in
    omega arith

-- 0xFFFFFFE0: bits 31 to 5.
register_mask : (w : ℕ) → bit_and w 0xFFFFFFE0 ≡ w / 2 ^ 5 % 2 ^ 27 * 2 ^ 5
register_mask w =
    let e1 : bit_and w 0xFFFFFFE0 ≡ bit_and (w / 2 ^ 5) 0x7FFFFFF * 2 ^ 5 =
      and_skip 5 w 0x7FFFFFF in
    let e2 : bit_and (w / 2 ^ 5) 0x7FFFFFF ≡ w / 2 ^ 5 % 2 ^ 27 = and_mask 27 (w / 2 ^ 5) in
    omega arith

-- 0xC00003FF: bits 31 and 30, and 9 to 0.
kept_mask : (w : ℕ) → bit_and w 0xC00003FF ≡ w / 2 ^ 30 % 4 * 2 ^ 30 + w % 2 ^ 10
kept_mask w =
    let b : ℕ = w / 2 ^ 10 in
    let e1 : bit_and w 0xC00003FF ≡ bit_and b 0x300000 * 2 ^ 10 + w % 2 ^ 10 =
      and_keep 10 w 0x300000 in
    let e2 : bit_and b 0x300000 ≡ bit_and (b / 2 ^ 20) 3 * 2 ^ 20 = and_skip 20 b 3 in
    let e3 : bit_and (b / 2 ^ 20) 3 ≡ b / 2 ^ 20 % 2 ^ 2 = and_mask 2 (b / 2 ^ 20) in omega arith

-- `LDAPR` and `LDAR` of 2 ^ size bytes, from the address in `rn` to `rt`; the low ten bits are the two
-- registers.
abbrev pub ldapr_word : (size registers : ℕ) → ℕ
ldapr_word size registers = size * 2 ^ 30 + 0x38BFC000 + registers

abbrev pub ldar_word : (size registers : ℕ) → ℕ
ldar_word size registers = size * 2 ^ 30 + 0x08DFFC00 + registers

-- The reads of the two thread registers.
abbrev pub mrs_tpidrro : (rt : ℕ) → ℕ
mrs_tpidrro rt = 0xD53BD060 + rt

abbrev pub mrs_tpidr : (rt : ℕ) → ℕ
mrs_tpidr rt = 0xD53BD040 + rt

to_ldar-word :
    (size regs : ℕ) → regs < 2 ^ 10 → bit_or (size * 2 ^ 30 + regs) 0x08DFFC00 ≡ ldar_word size regs
to_ldar-word size regs h =
    let e1 : bit_or (size * 2 ^ 20 * 2 ^ 10 + regs) (0x237FF * 2 ^ 10 + 0)
        ≡ bit_or (size * 2 ^ 20) 0x237FF * 2 ^ 10 + bit_or regs 0 =
      or_fields 10 (size * 2 ^ 20) regs 0x237FF 0 h (omega arith) in
    let e2 : bit_or (size * 2 ^ 20) 0x237FF ≡ size * 2 ^ 20 + 0x237FF =
      or_joins 20 size 0x237FF (omega arith) in
    let e3 : size * 2 ^ 30 + regs ≡ size * 2 ^ 20 * 2 ^ 10 + regs = omega arith in
    rw e3 (omega (arith, e1, e2, or-zero regs))

-- Any word that is taken for an LDAPR, in its fields.
is_ldapr-fields :
    (w : ℕ) → is_ldapr w ≡ true → w < 2 ^ 32 → w ≡ ldapr_word (w / 2 ^ 30) (w % 2 ^ 10)
is_ldapr-fields w h lt =
    let e : bit_and w 0x3FFFFC00 ≡ 0x38BFC000 = (==_iff _ _).0 h in omega (arith, ldapr_mask w)

to_ldar-fields : (w : ℕ) → w < 2 ^ 32 → to_ldar w ≡ ldar_word (w / 2 ^ 30) (w % 2 ^ 10)
to_ldar-fields w lt =
    let top : w / 2 ^ 30 % 4 ≡ w / 2 ^ 30 = omega arith in
    ap (λ m. bit_or m 0x08DFFC00) (kept_mask w)
    ∙ ap (λ (t : ℕ). bit_or (t * 2 ^ 30 + w % 2 ^ 10) 0x08DFFC00) top
    ∙ to_ldar-word (w / 2 ^ 30) (w % 2 ^ 10) (omega arith)

pub is_ldapr-word :
    (size regs : ℕ) → size < 4 → regs < 2 ^ 10 → is_ldapr (ldapr_word size regs) ≡ true
is_ldapr-word size regs hs hr = (==_iff _ _).1 (omega (arith, ldapr_mask (ldapr_word size regs)))

is_tpidrro_read-fields : (w : ℕ) → is_tpidrro_read w ≡ true → w < 2 ^ 32 → w ≡ mrs_tpidrro (w % 32)
is_tpidrro_read-fields w h lt =
    let e : bit_and w 0xFFFFFFE0 ≡ 0xD53BD060 = (==_iff _ _).0 h in omega (arith, register_mask w)

is_tpidrro_read-word : (rt : ℕ) → rt < 32 → is_tpidrro_read (mrs_tpidrro rt) ≡ true
is_tpidrro_read-word rt h = (==_iff _ _).1 (omega (arith, register_mask (mrs_tpidrro rt)))

to_tpidr_read-fields : (w : ℕ) → to_tpidr_read w ≡ mrs_tpidr (w % 32)
to_tpidr_read-fields w =
    let e : bit_and w 0x1F ≡ w % 2 ^ 5 = and_mask 5 w in
    let joined : bit_or (0x6A9DE82 * 2 ^ 5) (w % 2 ^ 5) ≡ 0x6A9DE82 * 2 ^ 5 + w % 2 ^ 5 =
      or_joins 5 0x6A9DE82 (w % 2 ^ 5) (omega arith) in
    rw e joined

-- The new word of an LDAPR is not taken for a read of the thread register: bit 27 tells them apart.
pub ldar_stays : (w : ℕ) → is_tpidrro_read (to_ldar w) ≡ false
ldar_stays w = elim (Bool-cases (is_tpidrro_read (to_ldar w))) [
  | inr off ↦ off
  | inl on ↦
      let e : bit_and (to_ldar w) 0xFFFFFFE0 ≡ 0xD53BD060 = (==_iff _ _).0 on in
      let one : bit 0x08DFFC00 27 ≡ 1 = refl in
      absurd (omega (arith, register_mask (to_ldar w), bit-or 27 (bit_and w 0xC00003FF) 0x08DFFC00))
]

-- The word and the state after the scan of a word: one of the two forms is replaced, recorded and
-- counted, any other word is kept.
pub data Downgraded (offset w : ℕ) (r : Rewrites) : ℕ × Rewrites → Type 0 where
  from_ldapr :
      (size regs : ℕ)
      → size < 4
      → regs < 2 ^ 10
      → w ≡ ldapr_word size regs
      → Downgraded offset w r (
        ldar_word size regs,
        record r {
          recorded =
              record_text_patch
                (record {
                  text_offset = offset;
                  instruction = ldar_word size regs;
                  kind = patch_rcpc;
                })
                r.recorded;
          rcpc_fixed = r.rcpc_fixed + 1;
        },
      )
  from_tpidrro :
      (rt : ℕ)
      → rt < 32
      → w ≡ mrs_tpidrro rt
      → Downgraded offset w r (
        mrs_tpidr rt,
        record r {
          recorded =
              record_text_patch
                (record { text_offset = offset; instruction = mrs_tpidr rt; kind = patch_tpidrro })
                r.recorded;
          tpidr_fixed = r.tpidr_fixed + 1;
        },
      )
  unchanged :
      ((size regs : ℕ) → size < 4 → regs < 2 ^ 10 → w ≡ ldapr_word size regs → ⊥)
      → ((rt : ℕ) → rt < 32 → w ≡ mrs_tpidrro rt → ⊥)
      → Downgraded offset w r (w, r)

scan_ldapr :
    (offset w : ℕ) (r : Rewrites)
    → is_ldapr w ≡ true
    → w < 2 ^ 32
    → Downgraded offset w r (scan_word offset w r)
unfolding downgrade_rcpc rewrite_tpidrro_read
scan_ldapr offset w r h lt =
    rw (h, ldar_stays w, to_ldar-fields w lt)
      (from_ldapr (w / 2 ^ 30) (w % 2 ^ 10) (omega arith) (omega arith) (is_ldapr-fields w h lt))

clash : {b : Bool} → b ≡ true → b ≡ false → ⊥
clash h h' = cc

scan_other :
    (offset w : ℕ) (r : Rewrites)
    → is_ldapr w ≡ false
    → w < 2 ^ 32
    → Downgraded offset w r (scan_word offset w r)
unfolding downgrade_rcpc rewrite_tpidrro_read
scan_other offset w r off lt = elim (Bool-cases (is_tpidrro_read w)) [
  | inl on ↦
      rw (off, on, to_tpidr_read-fields w)
        (from_tpidrro (w % 32) (omega arith) (is_tpidrro_read-fields w on lt))
  | inr none ↦
      rw (off, none)
        (unchanged (λ size regs hs hr e. clash (ap is_ldapr e ∙ is_ldapr-word size regs hs hr) off)
          (λ rt h e. clash (ap is_tpidrro_read e ∙ is_tpidrro_read-word rt h) none))
]

-- For any word of 32 bits: an LDAPR becomes the LDAR of the same size and registers, a read of
-- TPIDRRO_EL0 the read of TPIDR_EL0 into the same register, each recorded with its offset and new word
-- and counted; and every other word is kept, with nothing recorded.
pub scan_word-Downgraded :
    (offset w : ℕ) (r : Rewrites) → w < 2 ^ 32 → Downgraded offset w r (scan_word offset w r)
scan_word-Downgraded offset w r lt = elim (Bool-cases (is_ldapr w)) [
  | inl on ↦ scan_ldapr offset w r on lt
  | inr off ↦ scan_other offset w r off lt
]
