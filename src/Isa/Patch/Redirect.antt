-- ===== src/Isa/Patch/Redirect.antt =====
-- After `isa_emul_patch` every word is the old one, or a branch to an island of the old one that comes
-- back to the next word.
use machgate.Base.{ℕ, zero, suc, ◌+◌, ◌-◌, ◌≤◌, ◌≡◌, refl, ◌⊎◌, inl, inr, arith}
use machgate.Base.{List, [], ◌∷◌, ◌++◌, length, take, drop, take-append, map, length-map}
use machgate.Base.{sub_ℕ, ap, ◌∙◌}
use machgate.Arm64.{enc_b}
use machgate.Arm64.Branch.{opcode, branch_target, enc_b-target}
use machgate.Isa.Insn.{Insn, encode}
use machgate.Isa.Emit.Laws.{Returns}
use machgate.Isa.Patch.{action, patch}
use machgate.Isa.Patch.Laws.{
  Action-cases, IsIsland, Replaces, action-Replaces, patch-stop, patch-keep, patch-replace,
}

-- `word` at `at` enters an island of `instr` that stands in the words written from `base` on.
pub record Redirected (base : ℕ) (pool : List ℕ) (at instr word : ℕ) : Type 0 where
  pub entry : ℕ
  pub words : List Insn
  pub is_island : IsIsland instr entry at words
  pub above : base ≤ entry
  pub placed : take (length words) (drop (entry - base) pool) ≡ map encode words
  pub is_b : opcode word ≡ 5
  pub enters : branch_target at word ≡ entry
  pub returns : Returns words entry at

abbrev pub Handled : ℕ → List ℕ → ℕ → List ℕ → List ℕ → Type 0
Handled base pool at [] [] = Unit {0}
Handled base pool at (instr ∷ code) (word ∷ result) =
    ((word ≡ instr) ⊎ Redirected base pool at instr word) × Handled base pool (at + 1) code result
Handled base pool at _ _ = ⊥

drop_past :
    (pre pool : List ℕ) (k : ℕ) → length pre ≤ k → drop k (pre ++ pool) ≡ drop (k - length pre) pool
drop_past [] pool k h = ap (λ (n : ℕ). drop n pool) (omega arith)
drop_past (x ∷ pre) pool zero h = absurd (omega arith)
drop_past (x ∷ pre) pool (suc k) h =
    drop_past pre pool k (omega arith) ∙ ap (λ (n : ℕ). drop n pool) (omega arith)

module _ (base : ℕ) (pre pool : List ℕ) where
  Redirected-shift :
      (at instr word : ℕ)
      → Redirected (base + length pre) pool at instr word
      → Redirected base (pre ++ pool) at instr word
  Redirected-shift at instr word r =
      let moved : drop (r.entry - base) (pre ++ pool) ≡ drop (r.entry - (base + length pre)) pool =
        drop_past pre pool (r.entry - base) (let a = r.above in omega arith)
        ∙ ap (λ (n : ℕ). drop n pool) (omega arith) in
      record {
        entry = r.entry;
        words = r.words;
        is_island = r.is_island;
        above = let a = r.above in omega arith;
        placed = rw moved r.placed;
        is_b = r.is_b;
        enters = r.enters;
        returns = r.returns;
      }

  Handled-shift :
      (at : ℕ) (code result : List ℕ)
      → Handled (base + length pre) pool at code result
      → Handled base (pre ++ pool) at code result
  Handled-shift at [] [] h = tt
  Handled-shift at [] (w ∷ ws) h = absurd h
  Handled-shift at (i ∷ is) [] h = absurd h
  Handled-shift at (i ∷ is) (w ∷ ws) (inl same, rest) =
      (inl same, Handled-shift (at + 1) is ws rest)
  Handled-shift at (i ∷ is) (w ∷ ws) (inr moved, rest) =
      (inr (Redirected-shift at i w moved), Handled-shift (at + 1) is ws rest)

Handled-refl : (base : ℕ) (pool : List ℕ) (at : ℕ) (code : List ℕ) → Handled base pool at code code
Handled-refl base pool at [] = tt
Handled-refl base pool at (i ∷ code) = (inl refl, Handled-refl base pool (at + 1) code)

replaced-Redirected :
    (pool_end island at instr : ℕ) (words : List Insn) (rest : List ℕ)
    → Replaces pool_end island at instr words
    → Redirected island (map encode words ++ rest) at instr (enc_b (sub_ℕ island at))
replaced-Redirected pool_end island at instr words rest w =
    let there = enc_b-target at island w.in_reach in
    let e : island - island ≡ 0 = omega arith in
    record {
      entry = island;
      words = words;
      is_island = w.is_island;
      above = omega arith;
      placed = rw (e, ← length-map encode words) (take-append (map encode words) rest);
      is_b = there.0;
      enters = there.1;
      returns = w.returns;
    }

-- Every word of the code is left as it was, or is now a B to an island of the instruction that it
-- was. The island stands in the words that were written to the pool, and its last word is a B to the
-- instruction after the replaced one, if that is within the reach of a B.
pub patch-Handled :
    (pool_end at : ℕ) (code : List ℕ) (island : ℕ)
    → let r = patch pool_end at code island in Handled island r.pool at code r.code
patch-Handled pool_end at [] island = unfold patch in tt
patch-Handled pool_end at (instr ∷ code) island =
    elim (Action-cases (action pool_end island at instr)) [
      | inl e ↦
          rw (patch-stop pool_end at instr code island e) (Handled-refl island [] at (instr ∷ code))
      | inr (inl e) ↦
          rw (patch-keep pool_end at instr code island e)
            (inl refl, patch-Handled pool_end (at + 1) code island)
      | inr (inr (words, e)) ↦
          let w = action-Replaces pool_end island at instr words e in
          let rest = patch pool_end (at + 1) code (island + length words) in
          let ih = patch-Handled pool_end (at + 1) code (island + length words) in
          rw (patch-replace pool_end at instr code island words e) (
            inr (replaced-Redirected pool_end island at instr words rest.pool w),
            Handled-shift island (map encode words) rest.pool (at + 1) code rest.code
                (rw (length-map encode words) ih),
          )
    ]
