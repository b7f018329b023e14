-- ===== src/Isa/Decode/Laws.antt =====
-- The instruction encodings that the decoders of src/isa_emul.c recognise.
use machgate.Base.{ℕ, ◌+◌, ◌*◌, ◌/◌, ◌%◌, ◌^◌, ◌<◌, ◌≡◌, refl, bit_and, arith, ◌≢◌, ◌==◌}
use machgate.Base.{◌⊎◌, ◌↔◌, inl, inr, some, if◌then◌else◌, ◌>>>◌}
use machgate.Isa.Decode.Masks.{masks, lse_mask, cas_mask, and_1, and_3, and_7, and_31}
use machgate.Isa.Decode.{
  LseOp, ldadd, ldclr, ldeor, ldset, ldsmax, ldsmin, ldumax, ldumin, swp, cas,
}
use machgate.Isa.Decode.{LseDecoded, decode_lse, op_of_opc, BcaxDecoded, decode_bcax}

-- The architecture's encodings: the atomic memory operations and compare and swap.
abbrev lse_opc : LseOp → ℕ
lse_opc ldadd = 0
lse_opc ldclr = 1
lse_opc ldeor = 2
lse_opc ldset = 3
lse_opc ldsmax = 4
lse_opc ldsmin = 5
lse_opc ldumax = 6
lse_opc ldumin = 7
lse_opc swp = 8
lse_opc cas = 0

abbrev register_fields : LseDecoded → ℕ
register_fields d = d.size * 2 ^ 30 + d.rs * 2 ^ 16 + d.rn * 2 ^ 5 + d.rt

abbrev pub lse_word : LseOp → LseDecoded → ℕ
lse_word cas d = 0x08A07C00 + register_fields d + d.acquire * 2 ^ 22 + d.release * 2 ^ 15
lse_word op d =
    0x38200000 + register_fields d + d.acquire * 2 ^ 23 + d.release * 2 ^ 22 + lse_opc op * 2 ^ 12

-- The fields fit their places.
pub record FieldsFit (d : LseDecoded) : Type 0 where
  pub size_fits : d.size < 4
  pub acquire_fits : d.acquire < 2
  pub release_fits : d.release < 2
  pub rs_fits : d.rs < 32
  pub rt_fits : d.rt < 32
  pub rn_fits : d.rn < 32

-- For CAS the code reads bit 23, which its own mask wants to be 1, as the acquire bit.
abbrev pub as_decoded : LseOp → LseDecoded → LseDecoded
as_decoded cas d = record d { op = cas; acquire = 1 }
as_decoded op d = record d { op = op }

-- Every encoding of an LSE instruction, of each operation, size and choice of registers, is
-- recognised by `decode_lse` with its fields, but that a CAS always counts as acquiring.
decode_lse-lse_word :
    (op : LseOp) (d : LseDecoded)
    → FieldsFit d
    → decode_lse (lse_word op d) ≡ some (as_decoded op d)
unfolding decode_lse op_of_opc
decode_lse-lse_word ldadd d h = simp masks (ground arith)
decode_lse-lse_word cas d h = simp masks (ground arith)
decode_lse-lse_word _ d h = simp masks (ground arith)

-- What a successful decoding says of the word, in the two families.
abbrev SameFields : ℕ → LseDecoded → Type 0
SameFields instr d =
    (d.size ≡ instr / 2 ^ 30 % 4)
    × (d.rs ≡ instr / 2 ^ 16 % 32)
    × (d.rn ≡ instr / 2 ^ 5 % 32)
    × (d.rt ≡ instr % 32)

abbrev AtomicFamily : ℕ → LseDecoded → Type 0
AtomicFamily instr d =
    (instr / 2 ^ 24 % 64 ≡ 0x38)
    × (instr / 2 ^ 21 % 2 ≡ 1)
    × (instr / 2 ^ 10 % 4 ≡ 0)
    × (d.acquire ≡ instr / 2 ^ 23 % 2)
    × (d.release ≡ instr / 2 ^ 22 % 2)
    × (d.op ≡ (if instr / 2 ^ 15 % 2 == 1 then swp else op_of_opc (instr / 2 ^ 12 % 8)))

abbrev CasFamily : ℕ → LseDecoded → Type 0
CasFamily instr d =
    (instr / 2 ^ 23 % 128 ≡ 0x11)
    × (instr / 2 ^ 21 % 2 ≡ 1)
    × (instr / 2 ^ 10 % 32 ≡ 31)
    × (d.acquire ≡ instr / 2 ^ 23 % 2)
    × (d.release ≡ instr / 2 ^ 15 % 2)
    × (d.op ≡ cas)

atomic_test :
    (a : ℕ)
    → bit_and a 0x3F200C00 ≡ 0x38200000
    → (a / 2 ^ 24 % 64 ≡ 0x38) × (a / 2 ^ 21 % 2 ≡ 1) × (a / 2 ^ 10 % 4 ≡ 0)
atomic_test a h = omega (arith, lse_mask a)

cas_test :
    (a : ℕ)
    → bit_and a 0x3FA07C00 ≡ 0x08A07C00
    → (a / 2 ^ 23 % 128 ≡ 0x11) × (a / 2 ^ 21 % 2 ≡ 1) × (a / 2 ^ 10 % 32 ≡ 31)
cas_test a h = omega (arith, cas_mask a)

families :
    (instr : ℕ) (d : LseDecoded)
    → decode_lse instr ≡ some d
    → SameFields instr d × (AtomicFamily instr d ⊎ CasFamily instr d)
unfolding decode_lse
families instr d e = ground (
  arith,
  atomic_test instr,
  cas_test instr,
  and_3 (instr >>> 30),
  and_31 (instr >>> 16),
  and_31 (instr >>> 5),
  and_31 instr,
  and_1 (instr >>> 23),
  and_1 (instr >>> 22),
  and_1 (instr >>> 15),
  and_7 (instr >>> 12),
)

opc-op_of_opc :
    (opc : ℕ)
    → opc < 8
    → (lse_opc (op_of_opc opc) ≡ opc) × (op_of_opc opc ≢ swp) × (op_of_opc opc ≢ cas)
unfolding op_of_opc
opc-op_of_opc opc h = ground arith

-- The operation of the first family is that of bits 15 to 12.
abbrev OpFields : ℕ → LseOp → Type 0
OpFields instr op = (op ≢ cas) × (instr / 2 ^ 12 % 16 ≡ lse_opc op)

atomic_op :
    (instr : ℕ) (d : LseDecoded)
    → AtomicFamily instr d
    → (d.op ≡ swp → instr / 2 ^ 12 % 8 ≡ 0)
    → OpFields instr d.op
atomic_op instr d f z = ground (arith, opc-op_of_opc (instr / 2 ^ 12 % 8))

atomic_word :
    (op : LseOp) (instr : ℕ) (d : LseDecoded)
    → instr < 2 ^ 32
    → SameFields instr d
    → AtomicFamily instr d
    → OpFields instr op
    → instr ≡ lse_word op d
atomic_word ldadd instr d h s f o = omega arith
atomic_word cas instr d h s f o = absurd (o.0 refl)
atomic_word _ instr d h s f o = omega arith

cas_word :
    (instr : ℕ) (d : LseDecoded)
    → instr < 2 ^ 32
    → SameFields instr d
    → CasFamily instr d
    → (instr ≡ lse_word d.op d) ⊎ (instr ≡ lse_word d.op (record d { acquire = 0 }))
cas_word instr d h s f = rw f.5 (omega arith)

-- What `decode_lse` recognises among 32-bit words is an encoding of what it returns, if a SWP has a
-- zero `opc` field; the acquire bit of a CAS may be either.
pub decode_lse-exact :
    (instr : ℕ) (d : LseDecoded)
    → instr < 2 ^ 32
    → decode_lse instr ≡ some d
    → (d.op ≡ swp → instr / 2 ^ 12 % 8 ≡ 0)
    → FieldsFit d × ((instr ≡ lse_word d.op d) ⊎ (instr ≡ lse_word d.op (record d { acquire = 0 })))
decode_lse-exact instr d h e z =
    let (s, either) = families instr d e in
    elim either [
      | inl f ↦ (omega arith, inl (atomic_word d.op instr d h s f (atomic_op instr d f z)))
      | inr f ↦ (omega arith, cas_word instr d h s f)
    ]

abbrev bcax_word : BcaxDecoded → ℕ
bcax_word r = 0xCE200000 + r.vm * 2 ^ 16 + r.va * 2 ^ 10 + r.vn * 2 ^ 5 + r.vd

abbrev VectorsFit : BcaxDecoded → Type 0
VectorsFit r = (r.vd < 32) × (r.vn < 32) × (r.vm < 32) × (r.va < 32)

-- Among 32-bit words `decode_bcax` recognises exactly the BCAX words, and returns their four registers.
decode_bcax_iff :
    (instr : ℕ) (r : BcaxDecoded)
    → instr < 2 ^ 32
    → (decode_bcax instr ≡ some r) ↔ (VectorsFit r × (instr ≡ bcax_word r))
unfolding decode_bcax
decode_bcax_iff instr r h =
    (λ e. let e' = simp masks at e in ground arith, λ e. simp masks (ground arith))
