-- ===== src/GuestVm/Calls/Laws.antt =====
-- What the guest's mmap and munmap promise.
use machgate.Base.{ℕ, zero, suc, ◌+◌, ◌≤◌, ◌<◌, ◌≡◌, ◌≢◌, refl, ◌⊎◌, inl, inr, arith, ◌==◌, leb}
use machgate.Base.{true, ◌&&◌, Option, none, Bool-cases}
use machgate.Base.{==_iff, subst}
use machgate.GuestVm.Table.{lookup, Unique, lookup-forget, forget-Unique}
use machgate.GuestVm.Calls.{
  KernelResult, done, failed, eintr, einval, page_size, all_signals, Vm, attempts, is_tracked,
  finish_munmap, darwin_munmap,
}

abbrev pub Kernel : Type 0
Kernel = ℕ → ℕ → ℕ → ℕ → KernelResult

-- The outcome of the loop: the first attempt that is not interrupted, or the last of all.
pub data Outcome (kernel : Kernel) (mask addr length first last : ℕ) : KernelResult → Type 0 where
  settled :
      (k : ℕ) (r : KernelResult)
      → first ≤ k
      → k ≤ last
      → ((j : ℕ) → first ≤ j → j < k → kernel mask j addr length ≡ failed eintr)
      → kernel mask k addr length ≡ r
      → ((r ≢ failed eintr) ⊎ (k ≡ last))
      → Outcome kernel mask addr length first last r

later :
    (kernel : Kernel) (mask addr length tries last : ℕ) {r : KernelResult}
    → kernel mask tries addr length ≡ failed eintr
    → Outcome kernel mask addr length (tries + 1) last r
    → Outcome kernel mask addr length tries last r
later kernel mask addr length tries last e (settled k r low high before now why) =
    settled k r (omega arith) high
      (λ j h h'. elim (Bool-cases (j == tries)) [
        | inl first ↦ rw ((==_iff j tries).0 first) e
        | inr after ↦ before j (ground arith) h'
      ])
      now why

interrupted-cases : (r : KernelResult) → (r ≡ failed eintr) ⊎ (r ≢ failed eintr)
interrupted-cases (done v) = inr (λ e. cc)
interrupted-cases (failed errno) = elim (Bool-cases (errno == eintr)) [
  | inl same ↦ inl (ground arith)
  | inr other ↦ inr (ground arith)
]

module _ (kernel : Kernel) (mask addr length left tries : ℕ) where
  attempts_again :
      kernel mask tries addr length ≡ failed eintr
      → attempts kernel mask addr length (suc left) tries
        ≡ attempts kernel mask addr length left (tries + 1)
  unfolding attempts
  attempts_again e = rw (e, attempts)

  attempts_settled :
      (r : KernelResult)
      → kernel mask tries addr length ≡ r
      → r ≢ failed eintr
      → attempts kernel mask addr length (suc left) tries ≡ r
  unfolding attempts
  attempts_settled (done v) e h = rw (e, attempts)
  attempts_settled (failed errno) e h = rw (e, attempts) (ground arith)

pub attempts-Outcome :
    (kernel : Kernel) (mask addr length left tries : ℕ)
    → Outcome kernel mask addr length tries
        (tries + left)
        (attempts kernel mask addr length left tries)
attempts-Outcome kernel mask addr length zero tries =
    unfold attempts in
    settled tries _ (omega arith) (omega arith) (λ j h h'. absurd (omega arith)) refl
      (inr (omega arith))
attempts-Outcome kernel mask addr length (suc left) tries =
    elim (interrupted-cases (kernel mask tries addr length)) [
      | inl again ↦ rw (attempts_again kernel mask addr length left tries again) (
          later kernel mask addr length tries (tries + suc left) again (
            subst
              (λ last.
                Outcome kernel mask addr length (tries + 1) last
                  (attempts kernel mask addr length left (tries + 1)))
              (omega arith) (attempts-Outcome kernel mask addr length left (tries + 1))))
      | inr over ↦ rw (attempts_settled kernel mask addr length left tries _ refl over) (
          settled tries _ (omega arith) (omega arith) (λ j h h'. absurd (omega arith)) refl
            (inl over))
    ]

-- The table as the partial map that it stands for.
abbrev pub tracks : Vm → ℕ → Option ℕ
tracks vm b = lookup b vm.table

-- How a munmap ends.
pub record Munmapped (vm : Vm) (addr length : ℕ) (vm' : Vm) (r : KernelResult) : Type 0 where
  pub mask_kept : vm'.mask ≡ vm.mask
  pub unique_kept : Unique vm'.table
  pub others_kept : (b : ℕ) → b ≢ addr → tracks vm' b ≡ tracks vm b
  pub forgotten : (v : ℕ) → r ≡ done v → tracks vm' addr ≡ none
  pub failure_keeps : (e : ℕ) → r ≡ failed e → vm'.table ≡ vm.table
  pub no_eintr : (is_tracked (tracks vm addr) ≡ true) ⊎ (length ≡ page_size) → r ≢ failed eintr

finish-Munmapped :
    (vm : Vm) (addr length : ℕ) (result : KernelResult)
    → Unique vm.table
    → let (vm', r) = finish_munmap vm addr length (is_tracked (tracks vm addr)) result in
      Munmapped vm addr length vm' r
unfolding finish_munmap
finish-Munmapped vm addr length (done v) u = record {
  mask_kept = ground arith;
  unique_kept = ground (arith, forget-Unique addr vm.table u);
  others_kept = λ b ne. ground (arith, lookup-forget addr b vm.table u);
  forgotten = λ w e. ground (arith, lookup-forget addr addr vm.table u);
  failure_keeps = λ e h. absurd (cc);
  no_eintr = λ why h. cc;
}
finish-Munmapped vm addr length (failed e) u = record {
  mask_kept = refl;
  unique_kept = u;
  others_kept = λ b ne. refl;
  forgotten = λ w h. absurd (cc);
  failure_keeps = λ w h. refl;
  no_eintr = λ why h. ground arith;
}

finish_refused :
    (vm : Vm) (addr length : ℕ) → Unique vm.table → Munmapped vm addr length vm (failed einval)
finish_refused vm addr length u = record {
  mask_kept = refl;
  unique_kept = u;
  others_kept = λ b ne. refl;
  forgotten = λ w h. absurd (cc);
  failure_keeps = λ w h. refl;
  no_eintr = λ why h. ground arith;
}

-- The guest's munmap of any range, whatever the kernel answers, on a table where no address is tracked
-- twice: the signal mask is as before; the
-- table stays without duplicates and changes at most at the given address, which is untracked after
-- every success and kept after every failure; and a tracked address or a single page never sees EINTR.
pub darwin_munmap-Munmapped :
    (kernel : Kernel) (vm : Vm) (addr length : ℕ)
    → Unique vm.table
    → let (vm', r) = darwin_munmap kernel vm addr length in Munmapped vm addr length vm' r
unfolding darwin_munmap
darwin_munmap-Munmapped kernel vm addr length u =
    let result = attempts kernel all_signals addr length 7 0 in
    let tracked = is_tracked (tracks vm addr) in
    elim (Bool-cases (tracked && leb page_size length)) [
      | inl refused ↦ rw refused (finish_refused vm addr length u)
      | inr asked ↦ rw asked (finish-Munmapped vm addr length result u)
    ]
