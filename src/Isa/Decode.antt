-- ===== src/Isa/Decode.antt =====
-- `decode_lse` and `decode_bcax` of src/isa_emul.c.
pub mod Masks
pub mod Laws
use machgate.Base.{ℕ, ◌>>>◌, bit_and, ◌==◌, if◌then◌else◌, Option, none, some}

pub data LseOp : Type 0 where
  ldadd ldclr ldeor ldset ldsmax ldsmin ldumax ldumin swp cas : LseOp

-- `struct lse_decoded`. Where `decode_lse` returns 0 it sets `LSE_NONE`, which is `none` here.
pub record LseDecoded : Type 0 where
  pub op : LseOp
  pub size : ℕ
  pub acquire : ℕ
  pub release : ℕ
  pub rs : ℕ
  pub rt : ℕ
  pub rn : ℕ

-- The `switch (opc)`, for `opc` from 0 to 7.
unfoldable pub op_of_opc : ℕ → LseOp
op_of_opc opc =
    if opc == 0
    then ldadd
    else if opc == 1
    then ldclr
    else if opc == 2
    then ldeor
    else if opc == 3
    then ldset
    else if opc == 4
    then ldsmax
    else if opc == 5
    then ldsmin
    else if opc == 6
    then ldumax
    else ldumin

unfoldable pub decode_lse : ℕ → Option LseDecoded
decode_lse instr =
    if bit_and instr 0x3F200C00 == 0x38200000
    then some (record {
      op = (if bit_and (instr >>> 15) 1 == 1 then swp else op_of_opc (bit_and (instr >>> 12) 7));
      size = bit_and (instr >>> 30) 3;
      acquire = bit_and (instr >>> 23) 1;
      release = bit_and (instr >>> 22) 1;
      rs = bit_and (instr >>> 16) 0x1F;
      rt = bit_and instr 0x1F;
      rn = bit_and (instr >>> 5) 0x1F;
    })
    else if bit_and instr 0x3FA07C00 == 0x08A07C00
    then some (record {
      op = cas;
      size = bit_and (instr >>> 30) 3;
      acquire = bit_and (instr >>> 23) 1;
      release = bit_and (instr >>> 15) 1;
      rs = bit_and (instr >>> 16) 0x1F;
      rt = bit_and instr 0x1F;
      rn = bit_and (instr >>> 5) 0x1F;
    })
    else none

pub record BcaxDecoded : Type 0 where
  pub vd : ℕ
  pub vn : ℕ
  pub vm : ℕ
  pub va : ℕ

unfoldable pub decode_bcax : ℕ → Option BcaxDecoded
decode_bcax instr =
    if bit_and instr 0xFFE08000 == 0xCE200000
    then some (record {
      vd = bit_and instr 0x1F;
      vn = bit_and (instr >>> 5) 0x1F;
      va = bit_and (instr >>> 10) 0x1F;
      vm = bit_and (instr >>> 16) 0x1F;
    })
    else none
