-- ===== src/Gate/Dispatch/Mappings.antt =====
-- The table of mappings under the calls that the guest makes through the gate.
use machgate.Base.{ℕ, ◌≡◌}
use machgate.GuestVm.Calls.{done, Vm}
use machgate.GuestVm.Calls.Laws.{tracks}
use machgate.GuestVm.Reach.{mmap, IsSound}
use machgate.Gate.Dispatch.{Host, Outcome, exited, returned}
use machgate.Base.{none}
use machgate.Gate.Stat.{Stat}

abbrev pub OutcomeIsSound : ℕ → Outcome → Type 0
OutcomeIsSound mask (exited status) = Unit {0}
OutcomeIsSound mask (returned p) = IsSound mask p.vm

-- The host maps only at addresses that are not tracked.
abbrev pub MapsFresh : Host → Vm → Type 0
MapsFresh host vm =
    (addr length prot flags fd offset a : ℕ)
    → host.mmap addr length prot flags fd offset ≡ done a
    → tracks vm a ≡ none
