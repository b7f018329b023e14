-- ===== src/Resolver/Rebase/Slide.antt =====
-- What the rebases do to the memory.
use machgate.Base.{
  ℕ, ◌+◌, ◌≡◌, refl, arith, ap, ◌∙◌, List, [], ◌∷◌, ◌++◌, length, Option, none, some, u64,
}
use machgate.Memory.{Memory}
use machgate.Memory.Words.{
  load64, store64, ApartFromAll, AllApart, OutsideAll, swapped, ApartFromAll, AllApart, OutsideAll,
  swapped, load64-store64, load64-store64_apart, store64-Outside,
}
use machgate.Resolver.Rebase.{Image, slot_of, RebaseState, slide_word, finished, process_rebases}
use machgate.Resolver.Rebase.Program.{
  Insn, AllFit, program_bytes, Place, places_of, after_all, slide_places, put_cursor,
}
use machgate.Resolver.Rebase.Encoded.{process_rebases-program}

abbrev pub with_slot : Option ℕ → List ℕ → List ℕ
with_slot none slots = slots
with_slot (some a) slots = a ∷ slots

module _ (image : Image) where
  -- The places in segments that there are.
  abbrev pub slots_of : List Place → List ℕ
  slots_of [] = []
  slots_of ((seg, offset) ∷ places) = with_slot (slot_of image seg offset) (slots_of places)

  abbrev pub AllSlid : (m m' : Memory) → List ℕ → Type 0
  AllSlid m m' [] = Unit {0}
  AllSlid m m' (a ∷ slots) = (load64 m' a ≡ u64 (load64 m a + image.slide)) × AllSlid m m' slots

  slide_slots : List ℕ → RebaseState → RebaseState
  slide_slots [] st = st
  slide_slots (a ∷ slots) st = slide_slots slots (slide_word image (some a) st)

  slide_slots-with_slot :
      (slot : Option ℕ) (slots : List ℕ) (st : RebaseState)
      → slide_slots slots (slide_word image slot st) ≡ slide_slots (with_slot slot slots) st
  unfolding slide_slots
  slide_slots-with_slot none slots st = refl
  slide_slots-with_slot (some a) slots st = refl

  slide_places-slide_slots :
      (places : List Place) (st : RebaseState)
      → slide_places image places st ≡ slide_slots (slots_of places) st
  unfolding slide_slots
  slide_places-slide_slots [] st = refl
  slide_places-slide_slots ((seg, offset) ∷ places) st =
      slide_places-slide_slots places (slide_word image (slot_of image seg offset) st)
      ∙ slide_slots-with_slot (slot_of image seg offset) (slots_of places) st

  slide_slots_apart :
      (slots : List ℕ) (st : RebaseState) (a : ℕ)
      → ApartFromAll a slots
      → load64 (slide_slots slots st).memory a ≡ load64 st.memory a
  unfolding slide_slots
  slide_slots_apart [] st a apart = refl
  slide_slots_apart (b ∷ slots) st a (apart, rest) =
      slide_slots_apart slots (slide_word image (some b) st) a rest
      ∙ load64-store64_apart st.memory b (u64 (load64 st.memory b + image.slide)) a apart

  AllSlid-store64 :
      (m m' : Memory) (a v : ℕ) (slots : List ℕ)
      → ApartFromAll a slots
      → AllSlid (store64 m a v) m' slots
      → AllSlid m m' slots
  AllSlid-store64 m m' a v [] apart slid = tt
  AllSlid-store64 m m' a v (b ∷ slots) (apart, rest) (here, slid) = (
    here ∙ ap (λ w. u64 (w + image.slide)) (load64-store64_apart m a v b (swapped a b apart)),
    AllSlid-store64 m m' a v slots rest slid,
  )

  slide_slots-AllSlid :
      (slots : List ℕ) (st : RebaseState)
      → AllApart slots
      → AllSlid st.memory (slide_slots slots st).memory slots
  unfolding slide_slots
  slide_slots-AllSlid [] st apart = tt
  slide_slots-AllSlid (a ∷ slots) st (apart, rest) =
      let v : ℕ = u64 (load64 st.memory a + image.slide) in
      (
        slide_slots_apart slots (slide_word image (some a) st) a apart
            ∙ load64-store64 st.memory a v (omega arith),
        AllSlid-store64 st.memory (slide_slots (a ∷ slots) st).memory a v slots apart
            (slide_slots-AllSlid slots (slide_word image (some a) st) rest),
      )

  slide_slots-Outside :
      (slots : List ℕ) (st : RebaseState) (x : ℕ)
      → OutsideAll x slots
      → (slide_slots slots st).memory x ≡ st.memory x
  unfolding slide_slots
  slide_slots-Outside [] st x out = refl
  slide_slots-Outside (a ∷ slots) st x (out, rest) =
      slide_slots-Outside slots (slide_word image (some a) st) x rest
      ∙ store64-Outside st.memory a (u64 (load64 st.memory a + image.slide)) x out

  slide_slots-count :
      (slots : List ℕ) (st : RebaseState)
      → (slide_slots slots st).rebases_applied ≡ st.rebases_applied + length slots
  unfolding slide_slots
  slide_slots-count [] st = omega arith
  slide_slots-count (a ∷ slots) st =
      omega (arith, slide_slots-count slots (slide_word image (some a) st))

  -- The rebases of a program.
  pub record IsRebased (insns : List Insn) (m : Memory) (st : RebaseState) : Type 0 where
    pub all_slid : AllSlid m st.memory (slots_of (places_of insns (0, 0)))
    pub count : st.rebases_applied ≡ length (slots_of (places_of insns (0, 0)))
    pub others_kept : (x : ℕ) → OutsideAll x (slots_of (places_of insns (0, 0))) → st.memory x ≡ m x

  -- If the slots that a program of rebase instructions names do not overlap, then the opcodes of the program, up to
  -- the end mark, are processed without an error: each slot's word is slid once, they are counted, and no
  -- other byte is changed. Places in segments that there are none of are left out.
  pub process_rebases-IsRebased :
      (insns : List Insn) (rest : List ℕ) (m : Memory)
      → AllFit insns
      → AllApart (slots_of (places_of insns (0, 0)))
      → (st : RebaseState) × (process_rebases image (program_bytes insns ++ 0 ∷ rest) m
          ≡ finished st)
        × IsRebased insns m st
  process_rebases-IsRebased insns rest m fit apart =
      let slots : List ℕ = slots_of (places_of insns (0, 0)) in
      let first : RebaseState = record {
        memory = m;
        rebases_applied = 0;
        seg_index = 0;
        seg_offset = 0;
      } in
      let place : Place = after_all insns (0, 0) in
      (
        put_cursor place (slide_slots slots first),
        process_rebases-program image insns rest m fit
            ∙ ap (λ s. finished (put_cursor place s))
                (slide_places-slide_slots (places_of insns (0, 0)) first),
        record {
          all_slid = slide_slots-AllSlid slots first apart;
          count =
              slide_slots-count slots first
              ∙ (let e : 0 + length slots ≡ length slots = omega arith in e);
          others_kept = λ x out. slide_slots-Outside slots first x out;
        },
      )
