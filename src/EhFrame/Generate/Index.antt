-- ===== src/EhFrame/Generate/Index.antt =====
-- The synthetic frame as a whole, and the entries that its walk makes for the index.
use machgate.Base.{
  ℕ, suc, ◌+◌, ◌-◌, ◌^◌, ◌<◌, ◌≤◌, ◌≡◌, refl, arith, sym, ap, subst, ◌∙◌, if◌then◌else◌, List, [],
  ◌∷◌, ◌++◌, drop, length, length-append, some, le,
}
use machgate.EhFrame.Emit.{framed, cie_body, emit_cie, ehf_align}
use machgate.EhFrame.Collect.{CuEntry}
use machgate.EhFrame.Generate.{
  Image, Covered, all_covered, emit_fdes, synthetic_frame, syn_entries, syn_entries_from,
}
use machgate.EhFrame.Generate.Walk.{sized, located, AreShaped, walk-cie, walk-fdes}
use machgate.EhFrame.Generate.Shapes.{AreSized, all_covered-AreShaped}

-- Each FDE takes at least a byte.
length-emit_fdes :
    (cie_with cie_without pos : ℕ) (cs : List Covered)
    → AreShaped cs
    → length cs ≤ length (emit_fdes cie_with cie_without pos cs)
unfolding emit_fdes
length-emit_fdes cie_with cie_without pos [] shaped = omega arith
length-emit_fdes cie_with cie_without pos (c ∷ rest) shaped =
    let cie : ℕ = if c.with_personality then cie_with else cie_without in
    let fde : List ℕ = c.emit pos cie in
    let (tail, e) = shaped.0.2 pos cie in
    omega (
      arith,
      ap length e,
      length-append fde (emit_fdes cie_with cie_without (pos + length fde) rest),
      length-emit_fdes cie_with cie_without (pos + length fde) rest shaped.1,
    )

cie-Shape :
    (pos personality : ℕ) → (tail : List ℕ) × (emit_cie pos personality ≡ sized (le 4 0 ++ tail))
unfolding emit_cie framed cie_body
cie-Shape pos personality =
    (drop 4 (cie_body personality ++ ehf_align 8 (pos + 4 + length (cie_body personality))), refl)

module _ (ehf_buf : ℕ) (cs : List Covered) (shaped : AreShaped cs) (r : ℕ) where
  -- Behind two records the walk finds the FDEs.
  abbrev FindsAll : (cie_with cie_without : List ℕ) → Type 0
  FindsAll first second =
      let pos = length first + length second in
      syn_entries_from ehf_buf (first ++ (second ++ (emit_fdes 0 (length first) pos cs ++ le 4 0)))
        (suc (suc r)) 0
      ≡ some (located ehf_buf 0 (length first) pos cs)

  walk-all :
      (t1 t2 : List ℕ)
      → let first = sized (le 4 0 ++ t1) in
        let second = sized (le 4 0 ++ t2) in
        let pos = length first + length second in
        pos + length (emit_fdes 0 (length first) pos cs) + 4 < 2 ^ 32
        → length cs < r
        → FindsAll (sized (le 4 0 ++ t1)) (sized (le 4 0 ++ t2))
  walk-all t1 t2 small enough =
      let first : List ℕ = sized (le 4 0 ++ t1) in
      let second : List ℕ = sized (le 4 0 ++ t2) in
      let fdes : ℕ → List ℕ = λ n. emit_fdes 0 (length first) n cs ++ le 4 0 in
      let here : length first + length second ≡ length (first ++ second) =
        sym (length-append first second) in
      let small' =
        subst (λ n. n + length (emit_fdes 0 (length first) n cs) + 4 < 2 ^ 32) here small in
      walk-cie ehf_buf [] t1 (second ++ fdes (length first + length second)) (suc r) (omega arith)
      ∙ walk-cie ehf_buf first t2 (fdes (length first + length second)) r (omega arith)
      ∙ ap
          (λ n. syn_entries_from ehf_buf ((first ++ second) ++ fdes n) r (length (first ++ second)))
          here
      ∙ walk-fdes ehf_buf 0 (length first) cs (first ++ second) r shaped (omega arith) (omega arith)
          small' enough
      ∙ ap (λ n. some (located ehf_buf 0 (length first) n cs)) (sym here)

-- From the collected entries, whose sizes have 32 bits, a frame of less than 2 ^ 32 bytes is made whose walk
-- comes to an end and finds just the FDEs of the functions that the loop covers, in order: for each the
-- address, the range, and the place in the buffer where it was written.
pub syn_entries-located :
    (image : Image) (gxx_personality ehf_buf : ℕ) (entries : List CuEntry)
    → AreSized entries
    → length (synthetic_frame image gxx_personality entries) < 2 ^ 32
    → let cie_without = length (emit_cie 0 gxx_personality) in
      syn_entries ehf_buf (synthetic_frame image gxx_personality entries)
      ≡ some (
          located ehf_buf 0 cie_without
            (cie_without + length (emit_cie cie_without 0))
            (all_covered image entries))
unfolding synthetic_frame syn_entries
syn_entries-located image gxx_personality ehf_buf entries sized_all small =
    let cs : List Covered = all_covered image entries in
    let shaped : AreShaped cs = all_covered-AreShaped image entries sized_all in
    let first : List ℕ = emit_cie 0 gxx_personality in
    let second : List ℕ = emit_cie (length first) 0 in
    let pos : ℕ = length first + length second in
    let fdes : List ℕ = emit_fdes 0 (length first) pos cs in
    let (t1, e1) = cie-Shape 0 gxx_personality in
    let (t2, e2) = cie-Shape (length first) 0 in
    let r : ℕ = length (synthetic_frame image gxx_personality entries) - 1 in
    let total : length (synthetic_frame image gxx_personality entries) ≡ pos + length fdes + 4 =
      omega (
        arith,
        length-append first (second ++ (fdes ++ le 4 0)),
        length-append second (fdes ++ le 4 0),
        length-append fdes (le 4 0),
      ) in
    let enough : length cs < r = omega (arith, length-emit_fdes 0 (length first) pos cs shaped) in
    let rounds : suc (length (synthetic_frame image gxx_personality entries)) ≡ suc (suc r) =
      omega arith in
    let Small : List ℕ → List ℕ → Type 0 = λ a b.
      length a + length b + length (emit_fdes 0 (length a) (length a + length b) cs) + 4 < 2 ^ 32 in
    let small' : Small (sized (le 4 0 ++ t1)) (sized (le 4 0 ++ t2)) =
      subst (λ b. Small (sized (le 4 0 ++ t1)) b) e2
        (subst (λ a. Small a second) e1 (omega arith)) in
    ap (λ n. syn_entries_from ehf_buf (synthetic_frame image gxx_personality entries) n 0) rounds
    ∙ subst (λ a. FindsAll ehf_buf cs shaped r a second) (sym e1)
        (subst (λ b. FindsAll ehf_buf cs shaped r (sized (le 4 0 ++ t1)) b) (sym e2)
          (walk-all ehf_buf cs shaped r t1 t2 small' enough))
