-- ===== src/Isa/Emit/Laws.antt =====
-- The sizes of the islands, and their branches back.
use machgate.Base.{ℕ, ◌+◌, ◌≤◌, ◌≡◌, refl, arith, ◌==◌, Bool, true, false}
use machgate.Base.{
  List, [], ◌∷◌, ◌++◌, length, get_elem?, length-append, some, sub_ℕ, if◌then◌else◌,
}
use machgate.Arm64.Branch.{InReach, opcode, branch_target, enc_b-target}
use machgate.Isa.Insn.{Insn, encode, b, mov}
use machgate.Isa.Decode.{LseOp, ldadd, cas, LseDecoded, BcaxDecoded}
use machgate.Isa.Emit.{
  cas_body, signed_compare, operation, atomic_body, with_return, scratch1, scratch2, scratch3,
  island_body, emit_island, bcax_body, emit_bcax_island,
}

length-cas_body :
    (d : LseDecoded) (s1 s2 : ℕ)
    → (3 ≤ length (cas_body d s1 s2)) × (length (cas_body d s1 s2) ≤ 15)
unfolding cas_body
length-cas_body d s1 s2 = ground arith

length-optional {ℓ} : {A : Type ℓ} (c : Bool) (x : A) → length (if c then [] else x ∷ []) ≤ 1
length-optional true x = omega arith
length-optional false x = omega arith

length-operation :
    (op : LseOp) (d : LseDecoded) (s1 s2 s3 : ℕ) → length (operation op d s1 s2 s3) ≤ 4
unfolding operation signed_compare
length-operation ldadd d s1 s2 s3 = ground arith
length-operation _ d s1 s2 s3 = ground arith

length-atomic_body :
    (d : LseDecoded) (s1 s2 s3 : ℕ)
    → (3 ≤ length (atomic_body d s1 s2 s3)) × (length (atomic_body d s1 s2 s3) ≤ 18)
unfolding atomic_body
length-atomic_body d s1 s2 s3 = simp length-append (
    omega (
      arith,
      length-optional (d.rt == 31) (mov (d.size == 3) d.rt s1),
      length-operation d.op d s1 s2 s3,
    ))

pub length-island_body :
    (op : LseOp) (d : LseDecoded)
    → (3 ≤ length (island_body op d)) × (length (island_body op d) ≤ 18)
unfolding island_body
length-island_body cas d = omega (arith, length-cas_body d (scratch1 d) (scratch2 d))
length-island_body _ d = length-atomic_body d (scratch1 d) (scratch2 d) (scratch3 d)

length-bcax_body : (r : BcaxDecoded) → (2 ≤ length (bcax_body r)) × (length (bcax_body r) ≤ 4)
unfolding bcax_body
length-bcax_body r = ground arith

length-with_return :
    (island orig : ℕ) (body : List Insn) → length (with_return island orig body) ≡ length body + 1
unfolding with_return
length-with_return island orig body = length-append body _

-- At least a save, a restore and a branch back, and no more than the room that the patcher checks for.
abbrev pub SizeOk : ℕ → ℕ → Type 0
SizeOk room n = (3 ≤ n) × (n ≤ room)

-- An LSE island takes from 3 to 19 words, of any operation, size and registers.
pub length-emit_island :
    (d : LseDecoded) (island orig : ℕ) → SizeOk 19 (length (emit_island d island orig))
unfolding emit_island
length-emit_island d island orig =
    omega (arith, length-with_return island orig (island_body d.op d), length-island_body d.op d)

pub length-emit_bcax_island :
    (r : BcaxDecoded) (island orig : ℕ) → SizeOk 5 (length (emit_bcax_island r island orig))
unfolding emit_bcax_island
length-emit_bcax_island r island orig =
    omega (arith, length-with_return island orig (bcax_body r), length-bcax_body r)

get_elem?-append_last {ℓ} :
    {A : Type ℓ} (xs : List A) (y : A) → get_elem? (xs ++ (y ∷ [])) (length xs) ≡ some y
get_elem?-append_last [] y = refl
get_elem?-append_last (x ∷ xs) y = get_elem?-append_last xs y

-- The last word is the branch back from where it stands.
abbrev pub EndsInReturn : List Insn → ℕ → ℕ → ℕ → Type 0
EndsInReturn words island orig n =
    (length words ≡ n + 1) × (get_elem? words n ≡ some (b (sub_ℕ (orig + 1) (island + n))))

with_return-EndsInReturn :
    (island orig : ℕ) (body : List Insn)
    → EndsInReturn (with_return island orig body) island orig (length body)
unfolding with_return
with_return-EndsInReturn island orig body = (length-append body _, get_elem?-append_last body _)

pub emit_island-EndsInReturn :
    (d : LseDecoded) (island orig : ℕ)
    → EndsInReturn (emit_island d island orig) island orig (length (island_body d.op d))
unfolding emit_island
emit_island-EndsInReturn d island orig = with_return-EndsInReturn island orig (island_body d.op d)

-- Where the word at `at`, the last of an island, leads.
abbrev pub Returns : List Insn → ℕ → ℕ → Type 0
Returns words island orig =
    (n : ℕ) × (length words ≡ n + 1)
    × ((InReach (island + n) (orig + 1))
        → (last : Insn) × (get_elem? words n ≡ some last)
          × (opcode (encode last) ≡ 5)
          × (branch_target (island + n) (encode last) ≡ orig + 1))

with_return-Returns :
    (island orig : ℕ) (body : List Insn) → Returns (with_return island orig body) island orig
unfolding encode
with_return-Returns island orig body =
    let (size, last) = with_return-EndsInReturn island orig body in
    (
      length body,
      size,
      λ near.
          let there = enc_b-target (island + length body) (orig + 1) near in
          (b (sub_ℕ (orig + 1) (island + length body)), last, there.0, there.1),
    )

pub emit_island-Returns :
    (d : LseDecoded) (island orig : ℕ) → Returns (emit_island d island orig) island orig
unfolding emit_island
emit_island-Returns d island orig = with_return-Returns island orig (island_body d.op d)

pub emit_bcax_island-Returns :
    (r : BcaxDecoded) (island orig : ℕ) → Returns (emit_bcax_island r island orig) island orig
unfolding emit_bcax_island
emit_bcax_island-Returns r island orig = with_return-Returns island orig (bcax_body r)
