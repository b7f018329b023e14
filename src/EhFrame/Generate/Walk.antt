-- ===== src/EhFrame/Generate/Walk.antt =====
-- The walk over the synthetic frame finds the FDEs that were written to it.
use mathlib.Core.List.{append_assoc}
use machgate.Base.{
  ℕ, zero, suc, ◌+◌, ◌-◌, ◌^◌, ◌<◌, ◌≤◌, ◌≡◌, refl, arith, sym, ap, ◌∙◌, ◌==◌, ltb, lt→ltb,
  ne→==_false, if◌then◌else◌, true, false, ◌&&◌, not, List, [], ◌∷◌, ◌++◌, length, length-append,
  drop-append_add, Option, some, le, unle, unle-le, field,
}
use machgate.EhFrame.Read.{HdrEntry}
use machgate.EhFrame.Generate.{Covered, emit_fdes, noted, syn_entries_from}

-- A record: its length and its bytes.
abbrev pub sized : List ℕ → List ℕ
sized body = le 4 (length body) ++ body

-- The fields of an FDE that the walk reads.
abbrev pub fde_body : (back addr range : ℕ) → List ℕ → List ℕ
fde_body back addr range tail = le 4 back ++ (le 8 addr ++ (le 8 range ++ tail))

abbrev at : (ehf_buf addr range pos : ℕ) → HdrEntry
at ehf_buf addr range pos = record {
  initial_location = addr;
  address_range = range;
  fde_ptr = ehf_buf + pos;
  cfi_ptr = 0;
  cfi_size = 0;
}

module _ (pre body more : List ℕ) (small : length body < 2 ^ 32) where
  abbrev frame : List ℕ
  frame = pre ++ (sized body ++ more)

  field-len : field 4 (length pre) frame ≡ length body
  field-len =
      ap (λ (at : ℕ). field 4 at frame) (let e : length pre ≡ length pre + 0 = omega arith in e)
      ∙ ap (unle 4) (drop-append_add pre (sized body ++ more) 0)
      ∙ unle-le 4 (length body) (body ++ more) small

  field-body : (k j : ℕ) → field k (length pre + (4 + j)) frame ≡ field k j (body ++ more)
  field-body k j = ap (unle k) (
      drop-append_add pre (sized body ++ more) (4 + j)
      ∙ drop-append_add (le 4 (length body)) (body ++ more) j)

  length-frame : length frame ≡ length pre + (4 + length body + length more)
  length-frame = omega (
    arith,
    length-append pre (sized body ++ more),
    length-append (sized body) more,
    length-append (le 4 (length body)) body,
  )

  -- One round at a record that is not empty.
  walk-record :
      (ehf_buf rounds : ℕ)
      → 0 < length body
      → syn_entries_from ehf_buf frame (suc rounds) (length pre)
        ≡ noted
            (field 4 0 (body ++ more) == 0)
            (at ehf_buf (field 8 4 (body ++ more)) (field 8 12 (body ++ more)) (length pre))
            (syn_entries_from ehf_buf frame rounds (length pre + 4 + length body))
  unfolding syn_entries_from
  walk-record ehf_buf rounds filled =
      let within : ltb (length pre + 4) (length frame) ≡ true =
        lt→ltb _ _ (omega (arith, length-frame)) in
      let nonempty : (length body == 0) ≡ false = ne→==_false _ _ (λ e. absurd (omega arith)) in
      let round : ℕ → ℕ → HdrEntry → Option (List HdrEntry) = λ len id e.
        if ltb (length pre + 4) (length frame) && not (len == 0)
        then noted (id == 0) e (syn_entries_from ehf_buf frame rounds (length pre + 4 + len))
        else some [] in
      (λ i.
        round (field-len i) (field-body 4 0 i)
          (at ehf_buf (field-body 8 4 i) (field-body 8 12 i) (length pre)))
      ∙ rw (within, nonempty) refl

-- A record behind `pre` and the FDEs behind it.
regroup : (pre body more : List ℕ) → (pre ++ sized body) ++ more ≡ pre ++ (sized body ++ more)
regroup pre body more = append_assoc pre (sized body) more

next_pos : (pre body : List ℕ) → length pre + 4 + length body ≡ length (pre ++ sized body)
next_pos pre body =
    omega (arith, length-append pre (sized body), length-append (le 4 (length body)) body)

-- Every FDE starts with its length, the offset of its CIE, and the address and range of its function.
abbrev pub IsShaped : Covered → Type 0
IsShaped c =
    (c.func_addr < 2 ^ 64)
    × (c.range < 2 ^ 64)
    × ((pos cie : ℕ)
        → (tail : List ℕ) × (c.emit pos cie
            ≡ sized (fde_body (pos + 4 - cie) c.func_addr c.range tail)))

abbrev pub AreShaped : List Covered → Type 0
AreShaped [] = Unit {0}
AreShaped (c ∷ rest) = IsShaped c × AreShaped rest

module _ (ehf_buf : ℕ) where
  -- What the walk should find.
  pub located : (cie_with cie_without pos : ℕ) → List Covered → List HdrEntry
  located cie_with cie_without pos [] = []
  located cie_with cie_without pos (c ∷ rest) =
      let fde = c.emit pos (if c.with_personality then cie_with else cie_without) in
      at ehf_buf c.func_addr c.range pos ∷ located cie_with cie_without (pos + length fde) rest

  pub walk-cie :
      (pre tail more : List ℕ) (rounds : ℕ)
      → length (le 4 0 ++ tail) < 2 ^ 32
      → syn_entries_from ehf_buf (pre ++ (sized (le 4 0 ++ tail) ++ more)) (suc rounds) (length pre)
        ≡ syn_entries_from ehf_buf
            ((pre ++ sized (le 4 0 ++ tail)) ++ more)
            rounds
            (length (pre ++ sized (le 4 0 ++ tail)))
  walk-cie pre tail more rounds small =
      let body : List ℕ = le 4 0 ++ tail in
      walk-record pre body more small ehf_buf rounds (omega arith)
      ∙ (λ i. syn_entries_from ehf_buf (sym (regroup pre body more) i) rounds (next_pos pre body i))

  walk-fde :
      (pre : List ℕ) (back addr range : ℕ) (tail more : List ℕ) (rounds : ℕ)
      → length (fde_body back addr range tail) < 2 ^ 32
      → 0 < back
      → back < 2 ^ 32
      → addr < 2 ^ 64
      → range < 2 ^ 64
      → let body = fde_body back addr range tail in
        syn_entries_from ehf_buf (pre ++ (sized body ++ more)) (suc rounds) (length pre)
        ≡ noted false (at ehf_buf addr range (length pre)) (
            syn_entries_from ehf_buf
              ((pre ++ sized body) ++ more)
              rounds
              (length (pre ++ sized body)))
  walk-fde pre back addr range tail more rounds small pos hb ha hr =
      let body : List ℕ = fde_body back addr range tail in
      let id : field 4 0 (body ++ more) ≡ back = unle-le 4 back [] hb in
      let loc : field 8 4 (body ++ more) ≡ addr = unle-le 8 addr [] ha in
      let rng : field 8 12 (body ++ more) ≡ range = unle-le 8 range [] hr in
      let not_cie : (back == 0) ≡ false = ne→==_false _ _ (λ e. absurd (omega arith)) in
      walk-record pre body more small ehf_buf rounds (omega arith)
      ∙ (λ i.
          noted (id i == 0) (at ehf_buf (loc i) (rng i) (length pre))
            (syn_entries_from ehf_buf (sym (regroup pre body more) i) rounds (next_pos pre body i)))
      ∙ rw not_cie refl

  module _ (cie_with cie_without : ℕ) where
    abbrev from : List ℕ → (pos : ℕ) → List Covered → List ℕ
    from pre pos cs = pre ++ (emit_fdes cie_with cie_without pos cs ++ le 4 0)

    walk-end :
        (pre : List ℕ) (rounds : ℕ)
        → syn_entries_from ehf_buf (from pre (length pre) []) (suc rounds) (length pre) ≡ some []
    unfolding syn_entries_from emit_fdes
    walk-end pre rounds =
        let end : ltb (length pre + 4) (length (from pre (length pre) [])) ≡ false =
          ground (arith, length-append pre (le 4 0)) in
        rw end refl

    pub walk-fdes :
        (cs : List Covered) (pre : List ℕ) (rounds : ℕ)
        → AreShaped cs
        → cie_with ≤ length pre
        → cie_without ≤ length pre
        → length pre + length (emit_fdes cie_with cie_without (length pre) cs) + 4 < 2 ^ 32
        → length cs < rounds
        → syn_entries_from ehf_buf (from pre (length pre) cs) rounds (length pre)
          ≡ some (located cie_with cie_without (length pre) cs)
    unfolding emit_fdes located
    walk-fdes cs pre zero shaped hw ho small r = absurd (omega arith)
    walk-fdes [] pre (suc rounds) shaped hw ho small r = walk-end pre rounds
    walk-fdes (c ∷ rest) pre (suc rounds) shaped hw ho small r =
        let cie : ℕ = if c.with_personality then cie_with else cie_without in
        let before : cie ≤ length pre = ground arith in
        let (tail, e) = shaped.0.2 (length pre) cie in
        let body : List ℕ = fde_body (length pre + 4 - cie) c.func_addr c.range tail in
        let fde : List ℕ = sized body in
        let behind : ℕ → List ℕ = λ pos. emit_fdes cie_with cie_without pos rest in
        let here : length pre + length fde ≡ length (pre ++ fde) = sym (length-append pre fde) in
        let total : length
              (c.emit (length pre) cie ++ behind (length pre + length (c.emit (length pre) cie)))
            ≡ length fde + length (behind (length (pre ++ fde))) =
          ap (λ t. length (t ++ behind (length pre + length t))) e
          ∙ ap (λ n. length (fde ++ behind n)) here
          ∙ length-append fde (behind (length (pre ++ fde))) in
        let done : Option (List HdrEntry) → Option (List HdrEntry) =
          noted false (at ehf_buf c.func_addr c.range (length pre)) in
        ap
          (λ t.
            syn_entries_from ehf_buf (pre ++ ((t ++ behind (length pre + length t)) ++ le 4 0))
              (suc rounds) (length pre))
          e
        ∙ ap
            (λ n.
              syn_entries_from ehf_buf (pre ++ ((fde ++ behind n) ++ le 4 0)) (suc rounds)
                (length pre))
            here
        ∙ ap (λ t. syn_entries_from ehf_buf (pre ++ t) (suc rounds) (length pre))
            (append_assoc fde (behind (length (pre ++ fde))) (le 4 0))
        ∙ walk-fde pre (length pre + 4 - cie) c.func_addr c.range tail
            (behind (length (pre ++ fde)) ++ le 4 0) rounds
            (omega (arith, length-append (le 4 (length body)) body)) (omega arith) (omega arith)
            shaped.0.0 shaped.0.1
        ∙ ap done (
            walk-fdes rest (pre ++ fde) rounds shaped.1 (omega arith) (omega arith) (omega arith)
              (omega arith))
        ∙ ap (λ n. done (some (located cie_with cie_without n rest))) (sym here)
        ∙ ap (λ t. done (some (located cie_with cie_without (length pre + length t) rest))) (sym e)
