-- ===== src/Tests/Stacks.antt =====
-- src/stack.c at concrete inputs.
use machgate.Base.{ℕ, refl, arith, List, [], ◌∷◌, ◌≤◌, ◌≡◌, ◌+◌, ◌*◌, length, replicate, ◌++◌, some}
use machgate.Stack.{LoadResults, executable_path, live, reserved_words}
use machgate.Stack.Layout.{IsStart, setup_stack64-IsStart}

abbrev results : LoadResults
results = record {
  mh = 65536;
  argc = 2;
  argv = 1000 ∷ 1008 ∷ [];
  envc = 1;
  envp = 1016 ∷ [];
  stack_top = 8000;
  root_path = some (b'/' ∷ b'r' ∷ []);
}

abbrev kernfd : List ℕ
kernfd = (b'k' ∷ b'e' ∷ b'r' ∷ b'n' ∷ b'f' ∷ b'd' ∷ b'=' ∷ b'5' ∷ []) ++ replicate 4 0

abbrev elfcalls : List ℕ
elfcalls =
    (b'e' ∷ b'l' ∷ b'f' ∷ b'_' ∷ b'c' ∷ b'a' ∷ b'l' ∷ b'l' ∷ b's' ∷ b'=' ∷ b'f' ∷ b'0' ∷ [])
    ++ replicate 15 0

abbrev filepath : List ℕ
filepath = b'/' ∷ b'r' ∷ b'/' ∷ b'a' ∷ []

path_inside_root : executable_path results.root_path filepath ≡ b'/' ∷ b'a' ∷ []
unfolding executable_path
path_inside_root = refl

null_argument_ends : live 3 (5 ∷ 0 ∷ 6 ∷ []) ≡ 5 ∷ []
unfolding live
null_argument_ends = refl

has_room :
    8 * reserved_words results (length (executable_path results.root_path filepath)) + 8 ≤ 8000
unfolding executable_path
has_room = omega arith

setup_stack64-IsStart_example : IsStart kernfd elfcalls filepath results (λ x. 0)
setup_stack64-IsStart_example =
    setup_stack64-IsStart kernfd elfcalls filepath results (λ x. 0) refl refl has_room
