-- ===== src/Gate/Pools/Laws.antt =====
-- No system call instruction is left behind, and no pool is overrun.
use machgate.Base.{ℕ, ◌+◌, ◌≡◌, ◌≢◌, refl, arith, List, [], ◌∷◌, length, true}
use machgate.Base.{
  none-some, some_inj, ℤ, get_elem?, if◌then◌else◌, sym, ap, ◌∙◌, some, none, Option-cases,
  Bool-cases, inl, inr, ◌==◌,
}
use machgate.Arm64.{enc_b}
use machgate.Arm64.Branch.{enc_b_sum}
use machgate.Gate.Pools.{
  Mmap, Pool, darwin_svc_0x80, place_gate, patch_instruction, choose_pool, PatchedInsn,
  PatchedSection, patch_section,
}

abbrev pub NoCalls : List ℕ → Type 0
NoCalls [] = Unit {0}
NoCalls (word ∷ code) = (word ≢ darwin_svc_0x80) × NoCalls code

-- How many words are system calls.
abbrev pub calls : List ℕ → ℕ
calls [] = 0
calls (word ∷ code) = (if word == darwin_svc_0x80 then 1 else 0) + calls code

-- What a section without a failure is.
abbrev Gated : List ℕ → PatchedSection → Type 0
Gated code r =
    r.ok ≡ true → NoCalls r.code × (r.patched ≡ calls code) × (length r.islands ≡ calls code)

enc_b_ne : (off : ℤ) → enc_b off ≢ darwin_svc_0x80
enc_b_ne off e = omega (arith, enc_b_sum off)

module _ (mmap : Mmap) (page dispatcher : ℕ) where
  -- The word that replaces a call is a B.
  patched_word :
      (pools : List Pool) (instr : ℕ) (p : PatchedInsn)
      → patch_instruction mmap page dispatcher pools instr ≡ some p
      → p.word ≢ darwin_svc_0x80
  unfolding patch_instruction place_gate
  patched_word pools instr p e h = elim (Option-cases (choose_pool mmap page pools instr)) [
    | inl fails ↦
        let same : patch_instruction mmap page dispatcher pools instr ≡ none =
          rw (fails, patch_instruction) refl in
        absurd (none-some (sym same ∙ e))
    | inr ((pools', i), chosen) ↦ elim (Option-cases (get_elem? pools' i)) [
      | inl fails ↦
          let same : patch_instruction mmap page dispatcher pools instr ≡ none =
            rw (chosen, fails, patch_instruction) refl in
          absurd (none-some (sym same ∙ e))
      | inr (pool, found) ↦
          let same : patch_instruction mmap page dispatcher pools instr
              ≡ some (place_gate dispatcher instr pools' i pool) =
            rw (chosen, found, patch_instruction) refl in
          enc_b_ne _ (ap (λ (q : PatchedInsn). q.word) (some_inj (sym same ∙ e)) ∙ h)
    ]
  ]

  sections :
      (pools : List Pool) (instr : ℕ) (code : List ℕ)
      → Gated code (patch_section mmap page dispatcher pools instr code)
  unfolding patch_section
  sections pools instr [] = λ e. (tt, refl, refl)
  sections pools instr (word ∷ code) = elim (Bool-cases (word == darwin_svc_0x80)) [
    | inl svc ↦ rw svc (elim (Option-cases (patch_instruction mmap page dispatcher pools instr)) [
      | inl fails ↦ rw fails (λ e. cc)
      | inr (p, placed) ↦ rw placed (λ e.
          let (none_left, count, islands) = sections p.pools (instr + 4) code e in
          ((patched_word pools instr p placed, none_left), omega arith, omega arith))
    ])
    | inr plain ↦ rw plain (λ e.
        let (none_left, count, islands) = sections pools (instr + 4) code e in
        ((ground arith, none_left), omega arith, omega arith))
  ]

  -- If no patch fails, no system call instruction is left in the section, the count is that of the
  -- instructions there were, and as many islands are written.
  pub patch_section-NoCalls :
      (pools : List Pool) (instr : ℕ) (code : List ℕ)
      → (patch_section mmap page dispatcher pools instr code).ok ≡ true
      → let r = patch_section mmap page dispatcher pools instr code in
        NoCalls r.code × (r.patched ≡ calls code) × (length r.islands ≡ calls code)
  patch_section-NoCalls pools instr code e = sections pools instr code e
