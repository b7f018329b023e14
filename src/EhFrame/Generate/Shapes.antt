-- ===== src/EhFrame/Generate/Shapes.antt =====
-- The FDEs that the emitters write for the covered functions have the form that the walk reads.
use machgate.Base.{
  ℕ, ◌+◌, ◌-◌, ◌^◌, ◌<◌, ◌≡◌, refl, arith, subst, ◌==◌, if◌then◌else◌, Bool, true, false, ◌||◌,
  List, [], ◌∷◌, ◌++◌, length, Option, none, some, some_inj, none-some, le, bit_and,
}
use machgate.EhFrame.Emit.{
  framed, fde_header, emit_fde_frame, emit_fde_frameless, emit_fde_minimal,
  emit_fde_with_native_cfi, has, ehf_align,
}
use machgate.EhFrame.Leb.{ehf_uleb128}
use machgate.EhFrame.Read.{HdrEntry}
use machgate.EhFrame.Collect.{CuEntry}
use machgate.EhFrame.Generate.{
  Image, Covered, func_addr_of, lsda_addr_of, native_of, native_range, native_cfi, covered_as,
  covered_by_mode, covered_with, and_then, covered, all_covered,
}
use machgate.EhFrame.Generate.Walk.{sized, fde_body, IsShaped, AreShaped}

-- The shape of what the emitters write.
module _ (pos cie addr range lsda : ℕ) where
  abbrev Shape : List ℕ → Type 0
  Shape bytes = (tail : List ℕ) × (bytes ≡ sized (fde_body (pos + 4 - cie) addr range tail))

  frame-Shape : (encoding : ℕ) → Shape (emit_fde_frame pos cie addr range encoding lsda)
  unfolding emit_fde_frame framed fde_header
  frame-Shape encoding = (_, refl)

  frameless-Shape : (encoding : ℕ) → Shape (emit_fde_frameless pos cie addr range encoding lsda)
  unfolding emit_fde_frameless framed fde_header
  frameless-Shape encoding = (_, refl)

  minimal-Shape : Shape (emit_fde_minimal pos cie addr range lsda)
  unfolding emit_fde_minimal framed fde_header
  minimal-Shape = (_, refl)

  native-Shape : (cfi : List ℕ) → Shape (emit_fde_with_native_cfi pos cie addr range lsda cfi)
  unfolding emit_fde_with_native_cfi framed
  native-Shape cfi =
      let rest : List ℕ = ehf_uleb128 8 ++ (le 8 lsda ++ cfi) in
      let body : List ℕ = fde_body (pos + 4 - cie) addr range rest in
      (rest ++ ehf_align 8 (pos + 4 + length body), refl)

-- The functions that the loop covers.

abbrev pub AreSized : List CuEntry → Type 0
AreSized [] = Unit {0}
AreSized (e ∷ entries) = (e.func_size < 2 ^ 32) × AreSized entries

either :
    {c : Covered} {Q : Type 0} (test : Bool) (x y : Option Covered)
    → (x ≡ some c → Q)
    → (y ≡ some c → Q)
    → (if test then x else y) ≡ some c
    → Q
either true x y f g eq = f eq
either false x y f g eq = g eq

module _ (image : Image) where
  native_range-lt :
      (e : CuEntry) (n : HdrEntry) → e.func_size < 2 ^ 32 → native_range image e n < 2 ^ 64
  native_range-lt e n h = ground arith

  as-IsShaped :
      (e : CuEntry) (emit : ℕ → ℕ → List ℕ) (c : Covered)
      → e.func_size < 2 ^ 32
      → ((pos cie : ℕ)
          → Shape pos cie (func_addr_of image e) e.func_size (lsda_addr_of image e) (emit pos cie))
      → covered_as image e emit ≡ some c
      → IsShaped c
  as-IsShaped e emit c h shape eq = subst IsShaped (some_inj eq) (omega arith, omega arith, shape)

  by_mode-IsShaped :
      (e : CuEntry) (c : Covered)
      → e.func_size < 2 ^ 32
      → covered_by_mode image e ≡ some c
      → IsShaped c
  unfolding covered_by_mode
  by_mode-IsShaped e c h =
      let addr : ℕ = func_addr_of image e in
      let lsda : ℕ = lsda_addr_of image e in
      let mode : ℕ = bit_and e.encoding 0x0F000000 in
      either (mode == 0x03000000 || has e.encoding 0x80000000) none _ (λ q. absurd (none-some q))
        (either (mode == 0x04000000) _ _
          (as-IsShaped e _ c h (λ pos cie. frame-Shape pos cie addr e.func_size lsda e.encoding))
          (either (mode == 0x02000000) _ _
            (as-IsShaped e _ c h
              (λ pos cie. frameless-Shape pos cie addr e.func_size lsda e.encoding))
            (as-IsShaped e _ c h (λ pos cie. minimal-Shape pos cie addr e.func_size lsda))))

  covered_with-IsShaped :
      (e : CuEntry) (found : Option HdrEntry) (c : Covered)
      → e.func_size < 2 ^ 32
      → covered_with image e found ≡ some c
      → IsShaped c
  covered_with-IsShaped e none c h eq = by_mode-IsShaped e c h eq
  covered_with-IsShaped e (some n) c h eq = subst IsShaped (some_inj eq) (
    omega arith,
    native_range-lt e n h,
    λ pos cie.
        native-Shape pos cie (func_addr_of image e) (native_range image e n) (lsda_addr_of image e)
          (native_cfi image n),
  )

  and_then-AreShaped :
      (found : Option Covered) (rest : List Covered)
      → ((c : Covered) → found ≡ some c → IsShaped c)
      → AreShaped rest
      → AreShaped (and_then image found rest)
  and_then-AreShaped none rest h shaped = shaped
  and_then-AreShaped (some c) rest h shaped = (h c refl, shaped)

  pub all_covered-AreShaped :
      (entries : List CuEntry) → AreSized entries → AreShaped (all_covered image entries)
  unfolding all_covered covered
  all_covered-AreShaped [] sized_all = tt
  all_covered-AreShaped (e ∷ entries) sized_all =
      and_then-AreShaped (covered image e) (all_covered image entries)
        (λ c eq. covered_with-IsShaped e (native_of image e) c sized_all.0 eq)
        (all_covered-AreShaped entries sized_all.1)
