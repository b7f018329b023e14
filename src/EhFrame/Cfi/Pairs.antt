-- ===== src/EhFrame/Cfi/Pairs.antt =====
-- The instructions that save the pairs of a compact encoding add their slots to the row.
use mathlib.Core.List.{append-nil, append_assoc}
use machgate.Base.{
  ℕ, suc, ◌+◌, ◌*◌, ◌/◌, ◌%◌, ◌^◌, ◌<◌, ◌≡◌, refl, arith, sym, ap, subst, ◌∙◌, ◌==◌, if◌then◌else◌,
  Bool, true, false, Bool-cases, inl, inr, List, [], ◌∷◌, ◌++◌, replicate, bit_and, bit_or, ==_iff,
  ne→==_false,
}
use machgate.Base.Bits.{bit, and_mask, and-two_pow, two_pow_pos, or_joins}
use machgate.EhFrame.Leb.{ehf_uleb128}
use machgate.EhFrame.Leb.Laws.{eh_read_uleb128-ehf_uleb128}
use machgate.EhFrame.Emit.{save_x_pair, save_d_pair, has, save_d_pairs, save_pairs}
use machgate.EhFrame.Cfi.{
  Row, saving, run_instruction, Runs, padding, next, pair_in, registers_in, saved_registers,
  from_slot,
}

-- One instruction.

pub run_offset :
    (reg slot : ℕ) (rest : List ℕ) (row out : Row)
    → reg < 64
    → slot < 2 ^ 64
    → Runs rest (saving row ((reg, slot) ∷ [])) out
    → Runs (bit_or 0x80 reg % 256 ∷ (ehf_uleb128 slot ++ rest)) row out
unfolding run_instruction
run_offset reg slot rest row out hr hs r =
    let op : ℕ = bit_or 0x80 reg % 256 in
    let byte : op ≡ 128 + reg = omega (arith, or_joins 7 1 reg) in
    let not_one : (op / 64 == 1) ≡ false = ne→==_false _ _ (λ e. absurd (omega arith)) in
    let two : (op / 64 == 2) ≡ true = (==_iff _ _).1 (omega arith) in
    let low : op % 64 ≡ reg = omega arith in
    next (rw (not_one, two, low, eh_read_uleb128-ehf_uleb128 slot rest hs) refl) r

run_offset_extended :
    (reg slot : ℕ) (rest : List ℕ) (row out : Row)
    → reg < 2 ^ 64
    → slot < 2 ^ 64
    → Runs rest (saving row ((reg, slot) ∷ [])) out
    → Runs (0x05 ∷ (ehf_uleb128 reg ++ (ehf_uleb128 slot ++ rest))) row out
unfolding run_instruction
run_offset_extended reg slot rest row out hr hs r =
    let one = eh_read_uleb128-ehf_uleb128 reg (ehf_uleb128 slot ++ rest) hr in
    let two = eh_read_uleb128-ehf_uleb128 slot rest hs in next (rw (one, two) refl) r

pub run_def_cfa :
    (reg offset : ℕ) (rest : List ℕ) (row out : Row)
    → reg < 2 ^ 64
    → offset < 2 ^ 64
    → Runs rest (record row { cfa_reg = reg; cfa_offset = offset }) out
    → Runs (0x0c ∷ (ehf_uleb128 reg ++ (ehf_uleb128 offset ++ rest))) row out
unfolding run_instruction
run_def_cfa reg offset rest row out hr ho r =
    let one = eh_read_uleb128-ehf_uleb128 reg (ehf_uleb128 offset ++ rest) hr in
    let two = eh_read_uleb128-ehf_uleb128 offset rest ho in next (rw (one, two) refl) r

pub run_advance :
    (rest : List ℕ) (row out : Row)
    → Runs rest (record row { loc = row.loc + 1 }) out
    → Runs (0x41 ∷ rest) row out
unfolding run_instruction
run_advance rest row out r = next refl r

-- Pairs.

-- From every slot below `bound`, the instructions add a slot for each of the registers, in order, and
-- nothing else; `n` bytes of padding follow.
abbrev pub Saves : (bound n : ℕ) → (ℕ → List ℕ) → List ℕ → Type 0
Saves bound n behind regs =
    (slot : ℕ) (row : Row)
    → slot < bound
    → Runs (behind slot ++ replicate n 0) row (saving row (from_slot slot regs))

Saves-nothing : (bound n : ℕ) → Saves bound n (λ slot. []) []
Saves-nothing bound n slot row h =
    subst (λ slots. Runs (replicate n 0) row (record row { saved = slots }))
      (sym (append-nil row.saved)) (padding n refl)

two_more :
    (slot reg : ℕ) (regs : List ℕ) (row : Row)
    → saving
        (saving (saving row ((reg, slot) ∷ [])) ((reg + 1, slot + 1) ∷ []))
        (from_slot (slot + 2) regs)
      ≡ saving row (from_slot slot (reg ∷ suc reg ∷ regs))
two_more slot reg regs row =
    let one : reg + 1 ≡ suc reg = omega arith in
    let slot_one : slot + 1 ≡ suc slot = omega arith in
    let slot_two : slot + 2 ≡ suc (suc slot) = omega arith in
    rw (one, slot_one, slot_two)
      (ap (λ slots. record row { saved = slots })
        (append_assoc (row.saved ++ (reg, slot) ∷ []) ((suc reg, suc slot) ∷ [])
            (from_slot (suc (suc slot)) regs)
          ∙ append_assoc row.saved ((reg, slot) ∷ [])
              ((suc reg, suc slot) ∷ from_slot (suc (suc slot)) regs)))

padded : (op : ℕ) (u w v pad : List ℕ) → (u ++ op ∷ (w ++ v)) ++ pad ≡ u ++ op ∷ (w ++ (v ++ pad))
padded op u w v pad =
    append_assoc u (op ∷ (w ++ v)) pad ∙ ap (λ t. u ++ op ∷ t) (append_assoc w v pad)

-- A pair that is saved takes two slots, whatever instruction saves a register.
Saves-pair :
    (bound n reg : ℕ) (save : (reg : ℕ) → List ℕ → List ℕ) (behind : ℕ → List ℕ) (regs : List ℕ)
    → ((r slot : ℕ) (rest : List ℕ) (row out : Row)
        → r < reg + 2
        → slot < 2 ^ 64
        → Runs rest (saving row ((r, slot) ∷ [])) out
        → Runs (save r (ehf_uleb128 slot ++ rest)) row out)
    → bound + 2 < 2 ^ 64
    → Saves (bound + 2) n behind regs
    → (slot : ℕ) (row : Row) → slot < bound
    → Runs
        (save reg (
          ehf_uleb128 slot
          ++ save (reg + 1) (ehf_uleb128 (slot + 1) ++ (behind (slot + 2) ++ replicate n 0))))
        row
        (saving row (from_slot slot (reg ∷ suc reg ∷ regs)))
Saves-pair bound n reg save behind regs step hb rest slot row h =
    let one : Row = saving row ((reg, slot) ∷ []) in
    let two : Row = saving one ((reg + 1, slot + 1) ∷ []) in
    let tail : List ℕ = behind (slot + 2) ++ replicate n 0 in
    let runs =
      subst (Runs tail two) (two_more slot reg regs row) (rest (slot + 2) two (omega arith)) in
    step reg slot (save (reg + 1) (ehf_uleb128 (slot + 1) ++ tail)) row _ (omega arith)
      (omega arith) (step (reg + 1) (slot + 1) tail one _ (omega arith) (omega arith) runs)

Saves-x_pair :
    (bound n reg : ℕ) (saved : Bool) (behind : ℕ → List ℕ) (regs : List ℕ)
    → reg < 63
    → bound + 2 < 2 ^ 64
    → Saves (bound + 2) n behind regs
    → Saves bound n
        (λ slot. save_x_pair saved reg slot behind)
        ((if saved then reg ∷ suc reg ∷ [] else []) ++ regs)
Saves-x_pair bound n reg false behind regs hr hb rest slot row h = rest slot row (omega arith)
Saves-x_pair bound n reg true behind regs hr hb rest slot row h =
    subst
      (λ t.
        Runs (bit_or 0x80 reg % 256 ∷ t) row (saving row (from_slot slot (reg ∷ suc reg ∷ regs))))
      (sym (
        padded (bit_or 0x80 (reg + 1) % 256) (ehf_uleb128 slot) (ehf_uleb128 (slot + 1))
          (behind (slot + 2)) (replicate n 0)))
      (Saves-pair bound n reg (λ r t. bit_or 0x80 r % 256 ∷ t) behind regs
        (λ r slot rest row out within hs. run_offset r slot rest row out (omega arith) hs) hb rest
        slot row h)

Saves-d_pair :
    (bound n reg : ℕ) (saved : Bool) (behind : ℕ → List ℕ) (regs : List ℕ)
    → reg + 1 < 2 ^ 64
    → bound + 2 < 2 ^ 64
    → Saves (bound + 2) n behind regs
    → Saves bound n
        (λ slot. save_d_pair saved reg slot behind)
        ((if saved then reg ∷ suc reg ∷ [] else []) ++ regs)
Saves-d_pair bound n reg false behind regs hr hb rest slot row h = rest slot row (omega arith)
Saves-d_pair bound n reg true behind regs hr hb rest slot row h =
    subst (λ t. Runs (0x05 ∷ t) row (saving row (from_slot slot (reg ∷ suc reg ∷ regs))))
      (sym (
        append_assoc (ehf_uleb128 reg) _ (replicate n 0)
        ∙ ap (λ t. ehf_uleb128 reg ++ t)
            (padded 0x05 (ehf_uleb128 slot) (ehf_uleb128 (reg + 1))
                (ehf_uleb128 (slot + 1) ++ behind (slot + 2)) (replicate n 0)
              ∙ ap (λ t. ehf_uleb128 slot ++ 0x05 ∷ (ehf_uleb128 (reg + 1) ++ t))
                  (append_assoc (ehf_uleb128 (slot + 1)) (behind (slot + 2)) (replicate n 0)))))
      (Saves-pair bound n reg (λ r t. 0x05 ∷ (ehf_uleb128 r ++ t)) behind regs
        (λ r slot rest row out within hs. run_offset_extended r slot rest row out (omega arith) hs)
        hb rest slot row h)

-- The tests of the code on the two fields, and the bits of the encoding.

has-bit : (a k : ℕ) → has a (2 ^ k) ≡ (bit a k == 1)
has-bit a k = elim (Bool-cases (bit a k == 1)) [
  | inl set ↦
      let one : bit a k ≡ 1 = (==_iff _ _).0 set in
      let nonzero : (bit_and a (2 ^ k) == 0) ≡ false = ne→==_false _ _ (λ e.
        absurd (omega (arith, and-two_pow a k, two_pow_pos k, ap (λ (b : ℕ). b * 2 ^ k) one))) in
      rw (set, nonzero) refl
  | inr clear ↦
      let zero_bit : bit a k ≡ 0 = ground arith in
      let none_set : (bit_and a (2 ^ k) == 0) ≡ true =
        (==_iff _ _).1 (omega (arith, and-two_pow a k, ap (λ (b : ℕ). b * 2 ^ k) zero_bit)) in
      rw (clear, none_set) refl
]

module _ (n e : ℕ) where
  x_step :
      (bound k reg : ℕ) (behind : ℕ → List ℕ) (regs : List ℕ)
      → reg < 63
      → bound + 2 < 2 ^ 64
      → bit (bit_and e 0x1F) k ≡ bit e k
      → Saves (bound + 2) n behind regs
      → Saves bound n
          (λ slot. save_x_pair (has (bit_and e 0x1F) (2 ^ k)) reg slot behind)
          (pair_in e k reg ++ regs)
  x_step bound k reg behind regs hr hb same rest =
      let tested = has-bit (bit_and e 0x1F) k ∙ ap (λ (b : ℕ). b == 1) same in
      subst
        (λ saved.
          Saves bound n (λ slot. save_x_pair saved reg slot behind) (pair_in e k reg ++ regs))
        (sym tested) (Saves-x_pair bound n reg (bit e k == 1) behind regs hr hb rest)

  d_step :
      (bound k reg : ℕ) (behind : ℕ → List ℕ) (regs : List ℕ)
      → reg + 1 < 2 ^ 64
      → bound + 2 < 2 ^ 64
      → bit (bit_and (e / 2 ^ 8) 0x0F) k ≡ bit e (8 + k)
      → Saves (bound + 2) n behind regs
      → Saves bound n
          (λ slot. save_d_pair (has (bit_and (e / 2 ^ 8) 0x0F) (2 ^ k)) reg slot behind)
          (pair_in e (8 + k) reg ++ regs)
  d_step bound k reg behind regs hr hb same rest =
      let tested = has-bit (bit_and (e / 2 ^ 8) 0x0F) k ∙ ap (λ (b : ℕ). b == 1) same in
      subst
        (λ saved.
          Saves bound n (λ slot. save_d_pair saved reg slot behind) (pair_in e (8 + k) reg ++ regs))
        (sym tested) (Saves-d_pair bound n reg (bit e (8 + k) == 1) behind regs hr hb rest)

  Saves-d_pairs :
      Saves 30 n
        (save_d_pairs (bit_and (e / 2 ^ 8) 0x0F))
        (registers_in e ((8, 72) ∷ (9, 74) ∷ (10, 76) ∷ (11, 78) ∷ []))
  unfolding save_d_pairs
  Saves-d_pairs =
      let mask = and_mask 4 (e / 2 ^ 8) in
      d_step 30 0 72 _ _ (omega arith) (omega arith) (omega (arith, mask)) (
        d_step 32 1 74 _ _ (omega arith) (omega arith) (omega (arith, mask)) (
          d_step 34 2 76 _ _ (omega arith) (omega arith) (omega (arith, mask)) (
            d_step 36 3 78 (λ slot. []) [] (omega arith) (omega arith) (omega (arith, mask))
              (Saves-nothing 38 n))))

  pub Saves-pairs : Saves 20 n (save_pairs e) (saved_registers e)
  unfolding save_pairs
  Saves-pairs =
      let mask = and_mask 5 e in
      x_step 20 0 19 _ _ (omega arith) (omega arith) (omega (arith, mask)) (
        x_step 22 1 21 _ _ (omega arith) (omega arith) (omega (arith, mask)) (
          x_step 24 2 23 _ _ (omega arith) (omega arith) (omega (arith, mask)) (
            x_step 26 3 25 _ _ (omega arith) (omega arith) (omega (arith, mask)) (
              x_step 28 4 27 _ _ (omega arith) (omega arith) (omega (arith, mask)) Saves-d_pairs))))
