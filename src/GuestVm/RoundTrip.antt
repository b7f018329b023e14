-- ===== src/GuestVm/RoundTrip.antt =====
-- A small anonymous mapping from its mmap to its munmap.
use machgate.Base.{leb, ℕ, ◌≤◌, ◌<◌, ◌≡◌, ◌≢◌, refl, ◌⊎◌, inl, inr, arith, ◌==◌, if◌then◌else◌, ◌∙◌}
use machgate.Base.{sym, subst}
use machgate.Base.{true, ◌&&◌, some, none, Bool-cases, bit_and}
use machgate.GuestVm.Table.{has_room, Unique, lookup-track_add, track_add-Unique}
use machgate.GuestVm.Calls.{
  KernelResult, done, failed, einval, page_size, map_anonymous, all_signals, Vm, is_tracked_kind,
  darwin_mmap, attempts, is_tracked, finish_munmap, darwin_munmap,
}
use machgate.GuestVm.Calls.Laws.{
  Kernel, Outcome, attempts-Outcome, tracks, Munmapped, darwin_munmap-Munmapped,
}

-- munmap refuses a page or more at a tracked address, whatever the kernel would do: it answers EINVAL
-- and changes nothing.
pub darwin_munmap-refuses :
    (kernel : Kernel) (vm : Vm) (addr length : ℕ)
    → tracks vm addr ≢ none
    → page_size ≤ length
    → darwin_munmap kernel vm addr length ≡ (vm, failed einval)
unfolding darwin_munmap
darwin_munmap-refuses kernel vm addr length tracked big = ground arith

-- A range that is not tracked, or is smaller than a page, is given to the kernel at most eight times,
-- as long as it answers EINTR, with all signals blocked; the table and the result are then finished
-- with the first other answer, or the last.
darwin_munmap-asks :
    (kernel : Kernel) (vm : Vm) (addr length : ℕ)
    → (tracks vm addr ≡ none) ⊎ (length < page_size)
    → (result : KernelResult) × Outcome kernel all_signals addr length 0 7 result
      × (darwin_munmap kernel vm addr length
          ≡ finish_munmap vm addr length (is_tracked (tracks vm addr)) result)
unfolding darwin_munmap
darwin_munmap-asks kernel vm addr length small = (
  attempts kernel all_signals addr length 7 0,
  attempts-Outcome kernel all_signals addr length 7 0,
  ground arith,
)

abbrev pub MmapKernel : Type 0
MmapKernel = ℕ → ℕ → ℕ → ℕ → ℕ → ℕ → KernelResult

-- A successful mmap at an untracked address tracks that address alone, with its size, and does so
-- exactly for small anonymous mappings while there is a free slot.
darwin_mmap-tracks :
    (kernel : MmapKernel) (vm : Vm) (addr length prot flags fd offset a b : ℕ)
    → kernel addr length prot flags fd offset ≡ done a
    → tracks vm a ≡ none
    → let (vm', r) = darwin_mmap kernel vm addr length prot flags fd offset in
      (r ≡ done a)
      × (tracks vm' b ≡ (
          if is_tracked_kind addr length flags && (has_room vm.table && (a == b))
          then some length
          else tracks vm b))
unfolding darwin_mmap
darwin_mmap-tracks kernel vm addr length prot flags fd offset a b e fresh =
    rw (e, darwin_mmap)
      (elim (Bool-cases (is_tracked_kind addr length flags)) [
        | inl small ↦ rw small (refl, lookup-track_add a length b vm.table fresh)
        | inr other ↦ rw other (refl, refl)
      ])

pub darwin_mmap-Unique :
    (kernel : MmapKernel) (vm : Vm) (addr length prot flags fd offset : ℕ) {a : ℕ}
    → tracks vm a ≡ none
    → kernel addr length prot flags fd offset ≡ done a
    → Unique vm.table
    → Unique (darwin_mmap kernel vm addr length prot flags fd offset).0.table
unfolding darwin_mmap
darwin_mmap-Unique kernel vm addr length prot flags fd offset {a} fresh e u =
    rw (e, darwin_mmap) (ground (arith, track_add-Unique a length vm.table fresh u))

-- A munmap at a tracked address can succeed only below a page.
small_if_done :
    (kernel : Kernel) (vm : Vm) (a m n v : ℕ)
    → tracks vm a ≡ some n
    → (darwin_munmap kernel vm a m).1 ≡ done v
    → m < page_size
small_if_done kernel vm a m n v here over = elim (Bool-cases (leb page_size m)) [
  | inl big ↦
      let refused = darwin_munmap-refuses kernel vm a m (λ h. cc) (ground arith) in absurd (cc)
  | inr small ↦ ground arith
]

Munmapped-view :
    (vm vm1 vm2 : Vm) (n a m v b : ℕ) (r : KernelResult)
    → tracks vm a ≡ none
    → tracks vm1 b ≡ (if a == b then some n else tracks vm b)
    → Munmapped vm1 a m vm2 r
    → r ≡ done v
    → tracks vm2 b ≡ tracks vm b
Munmapped-view vm vm1 vm2 n a m v b r fresh view end over = elim (Bool-cases (a == b)) [
  | inl same ↦
      let e : a ≡ b = ground arith in
      subst (λ x. tracks vm2 x ≡ tracks vm x) e (end.forgotten v over ∙ sym fresh)
  | inr other ↦ end.others_kept b (ground arith) ∙ view ∙ rw other refl
]

-- On a table with a free slot in which no address is tracked twice, a small anonymous mapping for which the kernel
-- chose an address that is not tracked is tracked; and if a munmap there succeeds, its length was under a page too,
-- and the table means again what it meant before the mapping.
pub mmap_then_munmap :
    (mmap_kernel : MmapKernel) (kernel : Kernel) (vm : Vm) (n prot flags fd offset a m v b : ℕ)
    → 0 < n
    → n < page_size
    → bit_and flags map_anonymous ≢ 0
    → mmap_kernel 0 n prot flags fd offset ≡ done a
    → tracks vm a ≡ none
    → has_room vm.table ≡ true
    → Unique vm.table
    → (darwin_munmap kernel (darwin_mmap mmap_kernel vm 0 n prot flags fd offset).0 a m).1 ≡ done v
    → let vm1 = (darwin_mmap mmap_kernel vm 0 n prot flags fd offset).0 in
      (tracks vm1 a ≡ some n)
      × (m < page_size)
      × (tracks (darwin_munmap kernel vm1 a m).0 b ≡ tracks vm b)
mmap_then_munmap mmap_kernel kernel vm n prot flags fd offset a m v b lo hi anon e fresh room u
      over =
    let vm1 : Vm = (darwin_mmap mmap_kernel vm 0 n prot flags fd offset).0 in
    let small : is_tracked_kind 0 n flags ≡ true = ground arith in
    let view : (b : ℕ) → tracks vm1 b ≡ (if a == b then some n else tracks vm b) = λ b.
      (darwin_mmap-tracks mmap_kernel vm 0 n prot flags fd offset a b e fresh).1
      ∙ rw (small, room) refl in
    let here : tracks vm1 a ≡ some n = view a ∙ ground arith in
    let u1 = darwin_mmap-Unique mmap_kernel vm 0 n prot flags fd offset fresh e u in
    (
      here,
      small_if_done kernel vm1 a m n v here over,
      Munmapped-view vm vm1 (darwin_munmap kernel vm1 a m).0 n a m v b
          (darwin_munmap kernel vm1 a m).1 fresh (view b)
          (darwin_munmap-Munmapped kernel vm1 a m u1) over,
    )
