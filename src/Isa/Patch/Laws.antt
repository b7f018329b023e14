-- ===== src/Isa/Patch/Laws.antt =====
-- `isa_emul_patch` stays in its pool, and every word is kept or leads to its own island and back.
use machgate.Base.{ℕ, ◌+◌, ◌≤◌, ◌≡◌, refl, ◌⊎◌, inl, inr, arith}
use machgate.Base.{List, [], ◌∷◌, length, map, length-append, length-map}
use machgate.Base.{some, Option-cases, subst}
use machgate.Arm64.Branch.{InReach}
use machgate.Isa.Insn.{Insn, encode}
use machgate.Isa.Decode.{LseDecoded, BcaxDecoded, decode_lse, decode_bcax}
use machgate.Isa.Emit.{emit_island, emit_bcax_island}
use machgate.Isa.Emit.Laws.{
  SizeOk, Returns, length-emit_island, length-emit_bcax_island, emit_island-Returns,
  emit_bcax_island-Returns,
}
use machgate.Isa.Patch.{
  Action, stop, keep, replace, place_island, action, untouched, kept, replaced, patch,
}

pub Action-cases :
    (a : Action) → (a ≡ stop) ⊎ (a ≡ keep) ⊎ ((words : List Insn) × (a ≡ replace words))
Action-cases stop = inl refl
Action-cases keep = inr (inl refl)
Action-cases (replace words) = inr (inr (words, refl))

-- The islands of a word that lacks on the host.
pub data IsIsland (instr island at : ℕ) (words : List Insn) : Type 0 where
  lse :
      (d : LseDecoded)
      → decode_lse instr ≡ some d
      → words ≡ emit_island d island at
      → IsIsland instr island at words
  bcax :
      (r : BcaxDecoded)
      → decode_bcax instr ≡ some r
      → words ≡ emit_bcax_island r island at
      → IsIsland instr island at words

-- What a replacement means: an island of the word, inside the pool and within reach of a B.
pub record Replaces (pool_end island at instr : ℕ) (words : List Insn) : Type 0 where
  pub is_island : IsIsland instr island at words
  pub size : SizeOk 19 (length words)
  pub in_pool : island + length words ≤ pool_end
  pub in_reach : InReach at island
  pub returns : Returns words island at

place_replace :
    (room pool_end island at : ℕ) (words out : List Insn)
    → place_island room pool_end island at words ≡ replace out
    → (words ≡ out) × (island + room ≤ pool_end) × InReach at island
unfolding place_island
place_replace room pool_end island at words out e = ground arith

Replaces-of :
    (room pool_end island at instr : ℕ) (words out : List Insn)
    → place_island room pool_end island at words ≡ replace out
    → IsIsland instr island at words
    → SizeOk 19 (length words)
    → length words ≤ room
    → Returns words island at
    → Replaces pool_end island at instr out
Replaces-of room pool_end island at instr words out e is_island size fits returns =
    let (same, below, reach) = place_replace room pool_end island at words out e in
    subst (Replaces pool_end island at instr) same (record {
      is_island = is_island;
      size = size;
      in_pool = omega arith;
      in_reach = reach;
      returns = returns;
    })

pub action-Replaces :
    (pool_end island at instr : ℕ) (out : List Insn)
    → action pool_end island at instr ≡ replace out
    → Replaces pool_end island at instr out
unfolding action
action-Replaces pool_end island at instr out e = elim (Option-cases (decode_lse instr)) [
  | inr (d, is_lse) ↦
      let size = length-emit_island d island at in
      Replaces-of 24 pool_end island at instr _ out (rw (is_lse, action) at e) (lse d is_lse refl)
        size (omega arith) (emit_island-Returns d island at)
  | inl no_lse ↦ elim (Option-cases (decode_bcax instr)) [
    | inr (r, is_bcax) ↦
        let size = length-emit_bcax_island r island at in
        Replaces-of 5 pool_end island at instr _ out (rw (no_lse, is_bcax, action) at e)
          (bcax r is_bcax refl) (omega arith) size.1 (emit_bcax_island-Returns r island at)
    | inl no_bcax ↦ cc (rw (no_lse, no_bcax, action) at e)
  ]
]

-- One step of the loop, by what it does.
module _ (pool_end at instr : ℕ) (code : List ℕ) (island : ℕ) where
  pub patch-stop :
      action pool_end island at instr ≡ stop
      → patch pool_end at (instr ∷ code) island ≡ untouched (instr ∷ code) island
  unfolding patch
  patch-stop e = rw (e, patch)

  pub patch-keep :
      action pool_end island at instr ≡ keep
      → patch pool_end at (instr ∷ code) island ≡ kept instr (patch pool_end (at + 1) code island)
  unfolding patch
  patch-keep e = rw (e, patch)

  pub patch-replace :
      (words : List Insn)
      → action pool_end island at instr ≡ replace words
      → patch pool_end at (instr ∷ code) island
        ≡ replaced island at words (patch pool_end (at + 1) code (island + length words))
  unfolding patch
  patch-replace words e = rw (e, patch)

-- From a cursor within the pool, the cursor moves over exactly the words that are written, and they end
-- within the pool; no word of code is added or lost.
pub patch-InPool :
    (pool_end at : ℕ) (code : List ℕ) (island : ℕ)
    → island ≤ pool_end
    → let r = patch pool_end at code island in
      (r.island ≡ island + length r.pool) × (r.island ≤ pool_end) × (length r.code ≡ length code)
patch-InPool pool_end at [] island h = unfold patch in omega arith
patch-InPool pool_end at (instr ∷ code) island h =
    elim (Action-cases (action pool_end island at instr)) [
      | inl e ↦ rw (patch-stop pool_end at instr code island e) (omega arith)
      | inr (inl e) ↦
          let ih = patch-InPool pool_end (at + 1) code island h in
          rw (patch-keep pool_end at instr code island e) (omega arith)
      | inr (inr (words, e)) ↦
          let w = action-Replaces pool_end island at instr words e in
          let rest = patch pool_end (at + 1) code (island + length words) in
          let ih = patch-InPool pool_end (at + 1) code (island + length words) w.in_pool in
          rw (patch-replace pool_end at instr code island words e)
            (omega (arith, length-append (map encode words) rest.pool, length-map encode words))
    ]
