-- ===== src/Patcher/Apply/Atomic.antt =====
-- All or nothing: the writes happen together or not at all, as long as the pages can be made writable.
use machgate.Base.{
  ℕ, ◌+◌, ◌≡◌, refl, arith, true, ◌⊎◌, inl, inr, List, [], ◌∷◌, Bool, Option, none, some, length,
  Option-cases, ◌>>=◌,
}
use machgate.Config.Text.{Bytes}
use machgate.Patcher.Parse.{parse_lines}
use machgate.Patcher.Resolve.{Symbols, Memory}
use machgate.Patcher.Apply.{Write, poke, page_of, plan, write_words, apply}

-- The memory with all the words written, a later one over an earlier one.
abbrev pub written : List Write → Memory → Memory
written [] mem = mem
written (w ∷ writes) mem = written writes (poke mem w.addr w.word)

write_words-written :
    (mprotect : (applied page : ℕ) → Bool) (page_size applied total : ℕ) (writes : List Write)
    (mem : Memory)
    → ((i page : ℕ) → mprotect i page ≡ true)
    → applied + length writes ≡ total
    → write_words mprotect page_size applied writes mem ≡ (written writes mem, some total)
unfolding write_words
write_words-written mprotect page_size applied total [] mem h e =
    let e' : applied ≡ total = omega arith in rw e' refl
write_words-written mprotect page_size applied total (w ∷ writes) mem h e =
    rw (h applied (page_of page_size w.addr)) (
      write_words-written mprotect page_size (applied + 1) total writes (poke mem w.addr w.word) h
        (omega arith))

-- What the first three passes make of a file.
abbrev pub planned :
    Option (List Bytes) → Option Symbols → (slide : ℕ) → Memory → Option (List Write)
planned file mh slide mem = do bufs ← file; lines ← parse_lines bufs; plan mem mh slide lines

-- If every page can be made writable, then either the first passes fail, the result is -1 and no byte
-- has changed; or they give a list of words, all of them are written and the result is their number.
pub apply_atomic :
    (mprotect : (applied page : ℕ) → Bool) (page_size : ℕ) (file : Option (List Bytes))
    (mh : Option Symbols) (slide : ℕ) (mem : Memory)
    → ((i page : ℕ) → mprotect i page ≡ true)
    → let r = apply mprotect page_size file mh slide mem in
      ((planned file mh slide mem ≡ none) × (r ≡ (mem, none)))
      ⊎ ((writes : List Write) × (planned file mh slide mem ≡ some writes)
          × (r ≡ (written writes mem, some (length writes))))
unfolding apply
apply_atomic mprotect page_size file mh slide mem h =
    elim (Option-cases (planned file mh slide mem)) [
      | inl fails ↦ inl (fails, rw (fails, apply) refl)
      | inr (writes, made) ↦ inr (
        writes,
        made,
        rw (made, apply)
            (write_words-written mprotect page_size 0 (length writes) writes mem h (omega arith)),
      )
    ]
