-- ===== src/EhFrame/Read/Laws.antt =====
-- The reader of `__eh_frame` ends, and what it finds lies in the section.
use machgate.Base.{
  ℕ, zero, suc, ◌+◌, ◌-◌, ◌^◌, ◌<◌, ◌≤◌, ◌≡◌, ◌≢◌, refl, arith, subst, ◌==◌, ◌||◌, ◌&&◌, ltb, leb,
  Bool-cases, if◌then◌else◌, Bool, true, false, Option-cases, inl, inr, List, [], ◌∷◌, length, take,
  drop, Option, none, some, some_inj, none-some, u64, field,
}
use machgate.EhFrame.Leb.{eh_read_uleb128}
use machgate.EhFrame.Leb.Laws.{length-read_uleb128_from}
use machgate.EhFrame.Read.{
  format_of, encoded_ptr_as, encoded_value_as, eh_read_encoded_ptr, eh_read_encoded_value,
  behind_augmentation, HdrEntry, record_bounds, fde_at, with_entry, parse_fdes_from,
  parse_native_eh_frame_fdes, parse_cie_has_z_augmentation, parse_cie_fde_encoding,
}

length-drop : (k : ℕ) (p : List ℕ) → length (drop k p) ≤ length p
length-drop zero p = omega arith
length-drop (suc k) [] = omega arith
length-drop (suc k) (c ∷ p) = omega (arith, length-drop k p)

length-take : (k : ℕ) (p : List ℕ) → length (take k p) ≤ k
length-take zero p = omega arith
length-take (suc k) [] = omega arith
length-take (suc k) (c ∷ p) = omega (arith, length-take k p)

-- A pointer that is not null was read before the end.
encoded_ptr_as-le :
    (deref : ℕ → ℕ) (bytes_addr : ℕ) (bytes : List ℕ) (format : Option (ℕ × Bool))
    (end encoding p : ℕ)
    → (encoded_ptr_as deref bytes_addr bytes format end encoding p).0 ≢ 0
    → (p ≤ (encoded_ptr_as deref bytes_addr bytes format end encoding p).1)
      × ((encoded_ptr_as deref bytes_addr bytes format end encoding p).1 ≤ end)
encoded_ptr_as-le deref bytes_addr bytes none end encoding p = λ there. absurd (there refl)
encoded_ptr_as-le deref bytes_addr bytes (some (k, signed)) end encoding p =
    elim (Bool-cases (ltb end (p + k))) [
      | inl over ↦ rw over (λ there. absurd (there refl))
      | inr fits ↦ rw fits (λ there. (omega arith, ground arith))
    ]

encoded_ptr-le :
    (deref : ℕ → ℕ) (bytes_addr : ℕ) (bytes : List ℕ) (end encoding p : ℕ)
    → (eh_read_encoded_ptr deref bytes_addr bytes end encoding p).0 ≢ 0
    → (p ≤ (eh_read_encoded_ptr deref bytes_addr bytes end encoding p).1)
      × ((eh_read_encoded_ptr deref bytes_addr bytes end encoding p).1 ≤ end)
unfolding eh_read_encoded_ptr
encoded_ptr-le deref bytes_addr bytes end encoding p = elim (Bool-cases (encoding == 0xff)) [
  | inl omitted ↦ rw omitted (λ there. absurd (there refl))
  | inr given ↦
      rw given (encoded_ptr_as-le deref bytes_addr bytes (format_of encoding) end encoding p)
]

encoded_value_as-le :
    (bytes : List ℕ) (format : Option (ℕ × Bool)) (end p : ℕ)
    → p ≤ end
    → (p ≤ (encoded_value_as bytes format end p).1)
      × ((encoded_value_as bytes format end p).1 ≤ end)
encoded_value_as-le bytes none end p h = (omega arith, h)
encoded_value_as-le bytes (some (k, signed)) end p h = elim (Bool-cases (ltb end (p + k))) [
  | inl over ↦ rw over (omega arith, h)
  | inr fits ↦ rw fits (omega arith, ground arith)
]

encoded_value-le :
    (bytes : List ℕ) (end encoding p : ℕ)
    → p ≤ end
    → (p ≤ (eh_read_encoded_value bytes end encoding p).1)
      × ((eh_read_encoded_value bytes end encoding p).1 ≤ end)
unfolding eh_read_encoded_value
encoded_value-le bytes end encoding p h = encoded_value_as-le bytes (format_of encoding) end p h

behind-le :
    (has_z : Bool) (section : List ℕ) (end p : ℕ)
    → p ≤ end
    → (p ≤ behind_augmentation has_z section end p)
      × (behind_augmentation has_z section end p ≤ end)
unfolding eh_read_uleb128
behind-le has_z section end p h =
    let bytes : List ℕ = take (end - p) (drop p section) in
    let read : ℕ × List ℕ = eh_read_uleb128 bytes in
    let left : length read.1 ≤ end - p =
      omega (arith, length-read_uleb128_from 0 0 bytes, length-take (end - p) (drop p section)) in
    elim (Bool-cases (has_z && ltb p end)) [
      | inr none_there ↦ rw none_there (omega arith, h)
      | inl there ↦ rw there (elim (Bool-cases (leb read.0 (end - (end - length read.1)))) [
        | inl fits ↦ rw fits (omega arith, ground arith)
        | inr long ↦ rw long (h, omega arith)
      ])
    ]

found_entry :
    {entry e : HdrEntry} (test : Bool)
    → (if test then none else some entry) ≡ some e
    → (entry ≡ e) × (test ≡ false)
found_entry true eq = absurd (none-some eq)
found_entry false eq = (some_inj eq, refl)

not_null : (a b : Bool) (init_loc : ℕ) → (a || (b || init_loc == 0)) ≡ false → init_loc ≢ 0
not_null a b init_loc h = ground arith

module _ (deref : ℕ → ℕ) (eh_frame : ℕ) (section : List ℕ) where
  -- The record of an entry starts in the section, and its instructions, of which there may be none, lie in it.
  abbrev pub IsInside : HdrEntry → Type 0
  IsInside e =
      (eh_frame ≤ e.fde_ptr)
      × (e.fde_ptr < eh_frame + length section)
      × (eh_frame ≤ e.cfi_ptr)
      × (e.cfi_ptr + e.cfi_size ≤ eh_frame + length section)

  abbrev pub AreInside : List HdrEntry → Type 0
  AreInside [] = Unit {0}
  AreInside (e ∷ entries) = IsInside e × AreInside entries

  -- No record has a 64-bit length that leads past the end of the address space.
  abbrev pub NoWrap : Type 0
  NoWrap =
      (pos : ℕ) → field 4 pos section ≡ 0xFFFFFFFF → pos + 12 + field 8 (pos + 4) section < 2 ^ 64

  record_bounds-advances :
      (pos : ℕ) {start end : ℕ}
      → NoWrap
      → record_bounds section pos ≡ some (start, end)
      → (pos + 4 ≤ start) × (start ≤ end) × (end ≤ length section)
  unfolding record_bounds
  record_bounds-advances pos fits e = ground (arith, fits pos)

  fde_at-IsInside :
      (pos start end : ℕ) {e : HdrEntry}
      → pos < length section
      → end ≤ length section
      → fde_at deref eh_frame section pos start end ≡ some e
      → IsInside e
  unfolding fde_at
  fde_at-IsInside pos start end hp he eq =
      let cie_pos : ℕ = u64 (start + 2 ^ 64 - field 4 start section) in
      let cie : List ℕ = take (field 4 cie_pos section) (drop (cie_pos + 4) section) in
      let encoding : ℕ = parse_cie_fde_encoding deref (eh_frame + cie_pos + 4 + length cie) cie in
      let p : ℕ × ℕ = eh_read_encoded_ptr deref eh_frame section end encoding (start + 4) in
      let p' : ℕ × ℕ = eh_read_encoded_value section end encoding p.1 in
      let cfi : ℕ = behind_augmentation (parse_cie_has_z_augmentation cie) section end p'.1 in
      let (same, passed) = found_entry _ eq in
      let there = not_null (field 4 start section == 0) (leb (length section) cie_pos) p.0 passed in
      let first = encoded_ptr-le deref eh_frame section end encoding (start + 4) there in
      let second = encoded_value-le section end encoding p.1 first.1 in
      let third = behind-le (parse_cie_has_z_augmentation cie) section end p'.1 second.1 in
      let inside : IsInside record {
        initial_location = p.0;
        address_range = p'.0;
        fde_ptr = eh_frame + pos;
        cfi_ptr = eh_frame + cfi;
        cfi_size = u64 (end + 2 ^ 64 - cfi);
      } =
        omega arith in
      subst IsInside same inside

  with_entry-AreInside :
      (found : Option HdrEntry) (entries : List HdrEntry)
      → ((e : HdrEntry) → found ≡ some e → IsInside e)
      → AreInside entries
      → AreInside (with_entry found entries)
  with_entry-AreInside none entries h rest = rest
  with_entry-AreInside (some e) entries h rest = (h e refl, rest)

  parse_from-AreInside :
      (rounds pos : ℕ)
      → NoWrap
      → pos ≤ length section
      → length section < pos + rounds
      → (entries : List HdrEntry) × (parse_fdes_from deref eh_frame section rounds pos
          ≡ some entries)
        × AreInside entries
  unfolding parse_fdes_from
  parse_from-AreInside zero pos fits h r = absurd (omega arith)
  parse_from-AreInside (suc rounds) pos fits h r = elim (Option-cases (record_bounds section pos)) [
    | inl done ↦ ([], rw (done, parse_fdes_from) refl, tt)
    | inr (bounds, more) ↦
        let advances = record_bounds-advances pos fits more in
        let (entries, parsed, inside) =
          parse_from-AreInside rounds bounds.1 fits (omega arith) (omega arith) in
        let here = fde_at deref eh_frame section pos bounds.0 bounds.1 in
        (
          with_entry here entries,
          rw (more, parse_fdes_from) (rw parsed refl),
          with_entry-AreInside here entries
              (λ e eq. fde_at-IsInside pos bounds.0 bounds.1 (omega arith) (omega arith) eq) inside,
        )
  ]

  -- If no 64-bit length leads past the end of the address space, the reader comes to an end, and the records of all
  -- the entries that it finds start in the section, and the pointers and sizes of their instructions stay in it.
  pub parse_native-AreInside :
      NoWrap
      → (entries : List HdrEntry) × (parse_native_eh_frame_fdes deref eh_frame section
          ≡ some entries)
        × AreInside entries
  unfolding parse_native_eh_frame_fdes
  parse_native-AreInside fits =
      parse_from-AreInside (suc (length section)) 0 fits (omega arith) (omega arith)
