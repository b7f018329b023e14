-- ===== src/Patcher/Apply/Plan.antt =====
-- What the three passes before the writes promise of the words to be written.
use machgate.Base.{
  ==_iff, ℕ, ◌+◌, ◌^◌, ◌<◌, ◌≤◌, ◌≡◌, arith, sym, subst, ap, true, List, [], ◌∷◌, Option, none,
  some, ◌>>=◌, >>=-eq-some, guard->>-eq-some, ◌&&◌, ltb, some_inj, ◌∙◌, ℤ, sub_ℕ, shr_ℤ, u64, not,
  ◌==◌, if◌then◌else◌,
}
use machgate.Arm64.{enc_b, enc_bl, branch_in_range}
use machgate.Arm64.Branch.{opcode, byte_target, branch_in_range-reaches}
use machgate.Config.Text.{Bytes}
use machgate.Patcher.Parse.{
  LocExpr, loc_abs, loc_sym, loc_sym_find, loc_label, InsnExpr, ins_raw, ins_b, ins_bl, PatchLine,
  line_at, line_let,
}
use machgate.Patcher.Resolve.{
  Symbols, Memory, read_word, Labels, find_label, resolve_find, resolve_loc, pattern_find_unique,
}
use machgate.Patcher.Apply.{
  Target, Write, distance, register_labels, resolve_labels, resolve_targets, encode_branch,
  encode_insn, as_expected, encode_targets, plan,
}

-- Addresses from which every branch stays in the address space.
abbrev pub InMiddle : List Write → Type 0
InMiddle [] = Unit {0}
InMiddle (w ∷ writes) = (2 ^ 27 ≤ w.addr) × (w.addr + 2 ^ 27 ≤ 2 ^ 64) × InMiddle writes

distance-sub :
    (target from : ℕ)
    → target < 2 ^ 64
    → 2 ^ 27 ≤ from
    → from + 2 ^ 27 ≤ 2 ^ 64
    → branch_in_range (distance target from) ≡ true
    → distance target from ≡ sub_ℕ target from
unfolding branch_in_range
distance-sub target from ht lo hi h = ground arith

resolve_find-lt :
    (mem : Memory) (symbols : Symbols) (name : Bytes) (patterns : List (ℕ × ℕ)) (within a : ℕ)
    → resolve_find mem symbols name patterns within ≡ some a
    → a < 2 ^ 64
unfolding resolve_find
resolve_find-lt mem symbols name patterns within a e =
    let ((seg_start, seg_end), has, e') = >>=-eq-some (symbols.symbol_extent name) _ e in
    let cap = u64 (seg_start + within) in
    let end = if not (within == 0) && ltb cap seg_end then cap else seg_end in
    let found = pattern_find_unique mem seg_start end patterns in
    let (one, last) = guard->>-eq-some (found.0 == 1) (some (u64 found.1)) e' in
    omega (arith, some_inj last)

module _ (mem : Memory) (mh : Option Symbols) (slide : ℕ) where
  resolve_loc-lt :
      (labels : Labels) (loc : LocExpr) (a : ℕ)
      → resolve_loc mem mh slide labels loc ≡ some a
      → a < 2 ^ 64
  unfolding resolve_loc resolve_find
  resolve_loc-lt labels (loc_abs address) a e = omega (arith, some_inj e)
  resolve_loc-lt labels (loc_label name offset) a e =
      let (base, found, last) = >>=-eq-some (find_label name labels) _ e in
      omega (arith, some_inj last)
  resolve_loc-lt labels (loc_sym name offset) a e =
      let (symbols, there, e') = >>=-eq-some mh _ e in
      let (known, last) =
        guard->>-eq-some (not (symbols.lookup_symbol name == 0))
          (some (u64 (symbols.lookup_symbol name + offset))) e' in
      omega (arith, some_inj last)
  resolve_loc-lt labels (loc_sym_find name patterns within) a e =
      let (symbols, there, e') = >>=-eq-some mh _ e in
      let (known, e'') =
        guard->>-eq-some (not (symbols.lookup_symbol name == 0))
          (resolve_find mem symbols name patterns within) e' in
      resolve_find-lt mem symbols name patterns within a e''

  -- A branch of the given opcode to where a location is.
  abbrev pub Branches : ℕ → Labels → LocExpr → Write → Type 0
  Branches op labels loc w =
      (target : ℕ) × (resolve_loc mem mh slide labels loc ≡ some target)
      × (opcode w.word ≡ op)
      × (byte_target w.addr w.word ≡ target)

  abbrev pub Encodes : Labels → InsnExpr → Write → Type 0
  Encodes labels (ins_raw word) w = w.word ≡ word
  Encodes labels (ins_b loc) w = Branches 5 labels loc w
  Encodes labels (ins_bl loc) w = Branches 37 labels loc w

  abbrev pub Expects : ℕ → Option ℕ → Type 0
  Expects addr none = Unit {0}
  Expects addr (some word) = read_word mem addr ≡ word

  -- Each line of code has its write, in order.
  abbrev pub Carried : Labels → List PatchLine → List Write → Type 0
  Carried labels [] [] = Unit {0}
  Carried labels [] (w ∷ writes) = ⊥
  Carried labels (line_let label loc ∷ lines) writes = Carried labels lines writes
  Carried labels (line_at loc insn expected ∷ lines) [] = ⊥
  Carried labels (line_at loc insn expected ∷ lines) (w ∷ writes) =
      (resolve_loc mem mh slide labels loc ≡ some w.addr)
      × Encodes labels insn w
      × Expects w.addr expected
      × Carried labels lines writes

  branches :
      (op : ℕ) (enc : ℤ → ℕ) (labels : Labels) (loc : LocExpr) (w : Write)
      → ((pc target : ℕ)
          → branch_in_range (sub_ℕ target pc) ≡ true
          → (opcode (enc (shr_ℤ (sub_ℕ target pc) 2)) ≡ op)
            × (byte_target pc (enc (shr_ℤ (sub_ℕ target pc) 2)) ≡ target))
      → 2 ^ 27 ≤ w.addr
      → w.addr + 2 ^ 27 ≤ 2 ^ 64
      → encode_branch mem mh slide enc labels w.addr loc ≡ some w.word
      → Branches op labels loc w
  unfolding encode_branch
  branches op enc labels loc w reaches lo hi e =
      let (target, found, e') = >>=-eq-some (resolve_loc mem mh slide labels loc) _ e in
      let (in_range, last) =
        guard->>-eq-some (branch_in_range (distance target w.addr))
          (some (enc (shr_ℤ (distance target w.addr) 2))) e' in
      let same =
        distance-sub target w.addr (resolve_loc-lt labels loc target found) lo hi in_range in
      let word : enc (shr_ℤ (sub_ℕ target w.addr) 2) ≡ w.word =
        ap (λ d. enc (shr_ℤ d 2)) (sym same) ∙ some_inj last in
      let there = reaches w.addr target (subst (λ d. branch_in_range d ≡ true) same in_range) in
      (
        target,
        found,
        subst (λ v. opcode v ≡ op) word there.0,
        subst (λ v. byte_target w.addr v ≡ target) word there.1,
      )

  encoded :
      (labels : Labels) (insn : InsnExpr) (w : Write)
      → 2 ^ 27 ≤ w.addr
      → w.addr + 2 ^ 27 ≤ 2 ^ 64
      → encode_insn mem mh slide labels w.addr insn ≡ some w.word
      → Encodes labels insn w
  unfolding encode_insn
  encoded labels (ins_raw word) w lo hi e = sym (some_inj e)
  encoded labels (ins_b loc) w lo hi e =
      branches 5 enc_b labels loc w
        (λ pc target h. let r = branch_in_range-reaches pc target h in (r.0, r.1)) lo hi e
  encoded labels (ins_bl loc) w lo hi e =
      branches 37 enc_bl labels loc w
        (λ pc target h. let r = branch_in_range-reaches pc target h in (r.2, r.3)) lo hi e

  expected_word :
      (addr : ℕ) (expected : Option ℕ)
      → as_expected mem addr expected ≡ true
      → Expects addr expected
  unfolding as_expected
  expected_word addr none e = tt
  expected_word addr (some word) e = (==_iff (read_word mem addr) word).0 e

  nothing_left :
      (labels : Labels) (targets : List Target) (w : Write) (writes : List Write)
      → [] ≡ targets
      → encode_targets mem mh slide labels targets ≡ some (w ∷ writes)
      → ⊥
  unfolding encode_targets
  nothing_left labels [] w writes e ew = no_cons (some_inj ew)
    where
      no_cons : [] ≡ w ∷ writes → ⊥
      no_cons h = cc
  nothing_left labels (t ∷ targets) w writes e ew = absurd (no_target e)
    where
      no_target : [] ≡ t ∷ targets → ⊥
      no_target h = cc

  at_line :
      (labels : Labels) (loc : LocExpr) (insn : InsnExpr) (expected : Option ℕ)
      (lines : List PatchLine) (addr : ℕ) (rest : List Target) (writes : List Write)
      → resolve_loc mem mh slide labels loc ≡ some addr
      → encode_targets mem mh slide labels
          (record { addr = addr; insn = insn; expected = expected } ∷ rest)
        ≡ some writes
      → ((ws : List Write)
          → encode_targets mem mh slide labels rest ≡ some ws
          → InMiddle ws
          → Carried labels lines ws)
      → InMiddle writes
      → Carried labels (line_at loc insn expected ∷ lines) writes
  unfolding encode_targets
  at_line labels loc insn expected lines addr rest writes found e ih m =
      let (word, ew, e') = >>=-eq-some (encode_insn mem mh slide labels addr insn) _ e in
      let remaining : Option (List Write) =
        encode_targets mem mh slide labels rest
        >>= (λ ws. some (record { addr = addr; word = word } ∷ ws)) in
      let (met, e'') = guard->>-eq-some (as_expected mem addr expected) remaining e' in
      let (ws, ews, last) = >>=-eq-some (encode_targets mem mh slide labels rest) _ e'' in
      let w : Write = record { addr = addr; word = word } in
      subst (λ v. InMiddle v → Carried labels (line_at loc insn expected ∷ lines) v) (some_inj last)
        (λ n.
          (found, encoded labels insn w n.0 n.1 ew, expected_word addr expected met, ih ws ews n.2))
        m

  carried :
      (labels : Labels) (lines : List PatchLine) (targets : List Target) (writes : List Write)
      → resolve_targets mem mh slide labels lines ≡ some targets
      → encode_targets mem mh slide labels targets ≡ some writes
      → InMiddle writes
      → Carried labels lines writes
  unfolding resolve_targets
  carried labels [] targets [] et ew m = tt
  carried labels [] targets (w ∷ writes) et ew m =
      absurd (nothing_left labels targets w writes (some_inj et) ew)
  carried labels (line_let label loc ∷ lines) targets writes et ew m =
      carried labels lines targets writes et ew m
  carried labels (line_at loc insn expected ∷ lines) targets writes et ew m =
      let (addr, found, e') = >>=-eq-some (resolve_loc mem mh slide labels loc) _ et in
      let (rest, er, last) = >>=-eq-some (resolve_targets mem mh slide labels lines) _ e' in
      at_line labels loc insn expected lines addr rest writes found
        (subst (λ ts. encode_targets mem mh slide labels ts ≡ some writes) (sym (some_inj last)) ew)
        (λ ws ews n. carried labels lines rest ws er ews n) m

  -- If the passes before the writes succeed, for addresses at least 2 ^ 27 from the ends of the address
  -- space, then the labels are resolved, and the lines of code are in order those of the writes: each
  -- write is at the address of its line's location, where the memory holds the expected word if the line
  -- gives one; its word is the given one, or a B or BL from there to the line's target.
  pub plan-Carried :
      (lines : List PatchLine) (writes : List Write)
      → plan mem mh slide lines ≡ some writes
      → InMiddle writes
      → (labels : Labels) × (resolve_labels mem mh slide (register_labels lines) lines
          ≡ some labels)
        × Carried labels lines writes
  unfolding plan
  plan-Carried lines writes e m =
      let (labels, el, e') =
        >>=-eq-some (resolve_labels mem mh slide (register_labels lines) lines) _ e in
      let (targets, et, ew) = >>=-eq-some (resolve_targets mem mh slide labels lines) _ e' in
      (labels, el, carried labels lines targets writes et ew m)
