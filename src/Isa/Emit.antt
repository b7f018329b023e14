-- ===== src/Isa/Emit.antt =====
-- `emit_island` and `emit_bcax_island` of src/isa_emul.c: the instructions of an island, in order. The
-- code's `n` is the number of instructions before the one that is written.
pub mod Laws
use machgate.Base.{ℕ, zero, suc, ◌+◌, ◌<<<◌, bit_or, ◌==◌, ltb, if◌then◌else◌, false}
use machgate.Base.{List, [], ◌∷◌, ◌++◌, length, sub_ℕ}
use machgate.Isa.Insn.{
  Insn, cbnz_w, str_pre, ldr_post, mrs_nzcv, msr_nzcv, ldxr, stxr, add, bic, eor, orr, cmp, csel,
  mov, sxtb, sxth, b_cond, clrex, b, neon_bic, neon_eor, str_q_pre, ldr_q_post, cond_gt, cond_lt,
  cond_hi, cond_lo, cond_ne,
}
use machgate.Isa.Decode.{
  LseOp, ldadd, ldclr, ldeor, ldset, ldsmax, ldsmin, ldumax, ldumin, swp, cas, LseDecoded,
  BcaxDecoded,
}
use machgate.Isa.Scratch.{pick_scratch, is_free}

-- `1U << a | …`
abbrev pub flags : ℕ → List ℕ → ℕ
flags a [] = 1 <<< a
flags a (r ∷ rs) = bit_or (flags a rs) (1 <<< r)

-- The body of the `LSE_CAS` branch, without the branch back.
unfoldable pub cas_body : LseDecoded → ℕ → ℕ → List Insn
cas_body d s1 s2 =
    let is_x = d.size == 3 in
    let saves = str_pre s1 ∷ str_pre s2 ∷ mrs_nzcv s1 ∷ str_pre s1 ∷ [] in
    let loop =
      ldxr d.size d.acquire s2 d.rn
      ∷ cmp is_x s2 d.rs
      ∷ b_cond 3 cond_ne
      ∷ stxr d.size d.release s1 d.rt d.rn
      ∷ [] in
    let rs_result = if d.rs == 31 then [] else mov is_x d.rs s2 ∷ [] in
    let loop_start = length saves in
    saves
    ++ loop
    ++ (cbnz_w s1 (sub_ℕ loop_start (loop_start + length loop)) ∷ clrex ∷ [])
    ++ rs_result
    ++ (ldr_post s1 ∷ msr_nzcv s1 ∷ ldr_post s2 ∷ ldr_post s1 ∷ [])

-- The comparison of the signed minimum and maximum.
unfoldable pub signed_compare : LseDecoded → ℕ → ℕ → ℕ → List Insn
signed_compare d load_reg t1 t2 =
    if ltb d.size 2
    then ((if d.size == 0 then sxtb t1 load_reg else sxth t1 load_reg)
        ∷ (if d.size == 0 then sxtb t2 d.rs else sxth t2 d.rs)
        ∷ cmp false t1 t2
        ∷ [])
    else cmp (d.size == 3) load_reg d.rs ∷ []

-- The `switch (d->op)`.
unfoldable pub operation : LseOp → LseDecoded → ℕ → ℕ → ℕ → List Insn
operation ldadd d load_reg new_val_reg status_reg = add (d.size == 3) new_val_reg load_reg d.rs ∷ []
operation ldclr d load_reg new_val_reg status_reg = bic (d.size == 3) new_val_reg load_reg d.rs ∷ []
operation ldeor d load_reg new_val_reg status_reg = eor (d.size == 3) new_val_reg load_reg d.rs ∷ []
operation ldset d load_reg new_val_reg status_reg = orr (d.size == 3) new_val_reg load_reg d.rs ∷ []
operation ldsmax d load_reg new_val_reg status_reg =
    signed_compare d load_reg new_val_reg status_reg
    ++ (csel (d.size == 3) new_val_reg d.rs load_reg cond_lt ∷ [])
operation ldsmin d load_reg new_val_reg status_reg =
    signed_compare d load_reg new_val_reg status_reg
    ++ (csel (d.size == 3) new_val_reg d.rs load_reg cond_gt ∷ [])
operation ldumax d load_reg new_val_reg status_reg =
    cmp (d.size == 3) load_reg d.rs ∷ csel (d.size == 3) new_val_reg d.rs load_reg cond_lo ∷ []
operation ldumin d load_reg new_val_reg status_reg =
    cmp (d.size == 3) load_reg d.rs ∷ csel (d.size == 3) new_val_reg d.rs load_reg cond_hi ∷ []
operation swp d load_reg new_val_reg status_reg = mov (d.size == 3) new_val_reg d.rs ∷ []
operation cas d load_reg new_val_reg status_reg = []

-- The body of the other operations, without the branch back.
unfoldable pub atomic_body : LseDecoded → ℕ → ℕ → ℕ → List Insn
atomic_body d s1 s2 s3 =
    let saves = str_pre s1 ∷ str_pre s2 ∷ str_pre s3 ∷ mrs_nzcv s1 ∷ str_pre s1 ∷ [] in
    let loop =
      (ldxr d.size d.acquire s1 d.rn ∷ operation d.op d s1 s2 s3)
      ++ (stxr d.size d.release s3 s2 d.rn ∷ []) in
    let rt_result = if d.rt == 31 then [] else mov (d.size == 3) d.rt s1 ∷ [] in
    let loop_start = length saves in
    saves
    ++ loop
    ++ (cbnz_w s3 (sub_ℕ loop_start (loop_start + length loop)) ∷ [])
    ++ rt_result
    ++ (ldr_post s1 ∷ msr_nzcv s1 ∷ ldr_post s3 ∷ ldr_post s2 ∷ ldr_post s1 ∷ [])

-- The last word of each island: a branch to the instruction after the replaced one.
unfoldable pub with_return : ℕ → ℕ → List Insn → List Insn
with_return island orig_addr body = body ++ (b (sub_ℕ (orig_addr + 1) (island + length body)) ∷ [])

-- The scratch registers, each picked with the ones before it marked as used.
abbrev pub in_use : LseDecoded → ℕ
in_use d = elim d.op [
  | cas ↦ flags 31 (d.rn ∷ d.rt ∷ d.rs ∷ [])
  | _ ↦ if d.rt == 31 then flags 31 (d.rn ∷ d.rs ∷ []) else flags 31 (d.rt ∷ d.rn ∷ d.rs ∷ [])
]

abbrev pub scratch1 : LseDecoded → ℕ
scratch1 d = pick_scratch (in_use d)

abbrev pub scratch2 : LseDecoded → ℕ
scratch2 d = pick_scratch (bit_or (in_use d) (1 <<< scratch1 d))

abbrev pub scratch3 : LseDecoded → ℕ
scratch3 d = pick_scratch (bit_or (bit_or (in_use d) (1 <<< scratch1 d)) (1 <<< scratch2 d))

unfoldable pub island_body : LseOp → LseDecoded → List Insn
island_body cas d = cas_body d (scratch1 d) (scratch2 d)
island_body op d = atomic_body d (scratch1 d) (scratch2 d) (scratch3 d)

unfoldable pub emit_island : LseDecoded → ℕ → ℕ → List Insn
emit_island d island orig_addr = with_return island orig_addr (island_body d.op d)

-- The loop over `r` from 31 down to 0, by the rounds left.
unfoldable pub pick_vector : ℕ → ℕ → ℕ
pick_vector used zero = 31
pick_vector used (suc r) = let rest = pick_vector used r in if is_free used r then r else rest

unfoldable pub bcax_body : BcaxDecoded → List Insn
unfolding pick_vector
bcax_body r =
    let vtmp = pick_vector (flags r.vd (r.va ∷ r.vm ∷ r.vn ∷ [])) 32 in
    if r.va == r.vd
    then neon_bic r.vd r.vm r.vd ∷ neon_eor r.vd r.vn r.vd ∷ []
    else str_q_pre vtmp ∷ neon_bic vtmp r.vm r.va ∷ neon_eor r.vd r.vn vtmp ∷ ldr_q_post vtmp ∷ []

unfoldable pub emit_bcax_island : BcaxDecoded → ℕ → ℕ → List Insn
emit_bcax_island r island orig_addr = with_return island orig_addr (bcax_body r)
