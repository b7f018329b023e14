-- ===== src/Cache/File/Write.antt =====
-- What a publication leaves.
use mathlib.Core.List.{append-nil, append_assoc}
use machgate.Base.{
  ℕ, zero, suc, ◌≡◌, refl, sym, ap, ◌∙◌, Bool, true, false, ◌⊎◌, inl, inr, List, [], ◌∷◌, ◌++◌,
  take, drop, none, some, some_inj, none-some, ◌&&◌, Bool-cases,
}
use machgate.Cache.Format.{BinaryStat, encode_header}
use machgate.Cache.File.{
  WriteAnswer, wrote, interrupted, broke, write_all, Io, Disk, Products, payload_of, first_header,
  final_header, startup_cache_publish,
}

pub false-true : false ≡ true → ⊥
false-true e = cc

take-drop : (n : ℕ) (s : List ℕ) → take n s ++ drop n s ≡ s
take-drop zero s = refl
take-drop (suc n) [] = refl
take-drop (suc n) (c ∷ s) = ap (λ t. c ∷ t) (take-drop n s)

-- If `write_all` ends with success, then after any sequence of short writes and interruptions the file
-- has exactly the bytes to be written behind those that it had.
pub write_all-appends :
    (answers : List WriteAnswer) (s out end : List ℕ)
    → write_all answers s out ≡ some (true, end)
    → end ≡ out ++ s
unfolding write_all
write_all-appends answers [] out end e =
    sym (ap (λ (r : Bool × List ℕ). r.1) (some_inj e)) ∙ sym (append-nil out)
write_all-appends [] (c ∷ s) out end e = absurd (none-some e)
write_all-appends (wrote n ∷ answers) (c ∷ s) out end e =
    write_all-appends answers (drop n (c ∷ s)) (out ++ take n (c ∷ s)) end e
    ∙ append_assoc out (take n (c ∷ s)) (drop n (c ∷ s))
    ∙ ap (λ t. out ++ t) (take-drop n (c ∷ s))
write_all-appends (interrupted ∷ answers) (c ∷ s) out end e =
    write_all-appends answers (c ∷ s) out end e
write_all-appends (broke ∷ answers) (c ∷ s) out end e =
    absurd (false-true (ap (λ (r : Bool × List ℕ). r.0) (some_inj e)))

-- The file that a publication renames into place.
abbrev pub image : Products → BinaryStat → List ℕ
image p st = encode_header (final_header (first_header p st) (payload_of p)) ++ payload_of p

-- Whatever fails, the file that is opened is the old one, and the answer is -1, or the complete new
-- image, and the answer is 0.
pub startup_cache_publish_atomic :
    (enabled : Bool) (io : Io) (p : Products) (st : BinaryStat) (disk : Disk)
    → let (disk', done) = startup_cache_publish enabled io p st disk in
      ((done ≡ false) × (disk'.final ≡ disk.final))
      ⊎ ((done ≡ true) × (disk'.final ≡ some (image p st)) × (disk'.temp ≡ none))
unfolding startup_cache_publish
startup_cache_publish_atomic enabled io p st disk = elim (Bool-cases (enabled && io.created)) [
  | inr off ↦ rw off (inl (refl, refl))
  | inl on ↦ rw on (elim (Bool-cases (io.written && (io.synced && io.closed))) [
    | inr off ↦ rw off (inl (refl, refl))
    | inl on' ↦ rw on' (elim (Bool-cases (io.read_back && io.reopened)) [
      | inr off ↦ rw off (inl (refl, refl))
      | inl on'' ↦
          rw on''
            (elim (Bool-cases
              (io.patched && (io.synced_again && (io.closed_again && io.renamed)))) [
                | inr off ↦ rw off (inl (refl, refl))
                | inl all ↦ rw all (inr (refl, refl, refl))
              ])
    ])
  ])
]
