-- ===== src/Stack.antt =====
-- src/stack.c: the stack that the program starts with. `snprintf` is the C library's: the two buffers that it
-- fills are arguments. An array of pointers ends where its list does, as at a null pointer.
pub mod Layout
use machgate.Base.{
  ℕ, zero, suc, ◌+◌, ◌-◌, ◌*◌, ◌/◌, ◌==◌, if◌then◌else◌, Bool, true, false, ◌&&◌, List, [], ◌∷◌,
  ◌++◌, length, take, drop, Option, none, some, le,
}
use machgate.Memory.{Memory, store}

-- `struct load_results`, as far as the function reads and writes it.
pub record LoadResults : Type 0 where
  pub mh : ℕ
  pub argc : ℕ
  pub argv : List ℕ
  pub envc : ℕ
  pub envp : List ℕ
  pub stack_top : ℕ
  pub root_path : Option (List ℕ)

-- What the function leaves in it.
pub record Started : Type 0 where
  pub memory : Memory
  pub stack_top : ℕ
  pub argc : ℕ
  pub envc : ℕ
  pub argv : ℕ
  pub envp : ℕ
  pub applep : ℕ

-- `strncpy` into the 4096 bytes, of which the last one is a zero already: a longer path is cut.
abbrev pub copied_path : List ℕ → List ℕ
copied_path filepath = take 4095 filepath

-- `strncmp` over the length of the prefix.
unfoldable pub starts_with : (prefix path : List ℕ) → Bool
starts_with [] path = true
starts_with (c ∷ prefix) [] = false
starts_with (c ∷ prefix) (d ∷ path) = (c == d) && starts_with prefix path

-- The path inside the root; outside of it, the system root, which is empty, is put in front.
unfoldable pub executable_path : Option (List ℕ) → (filepath : List ℕ) → List ℕ
unfolding starts_with
executable_path none filepath = copied_path filepath
executable_path (some root) filepath =
    if starts_with root (copied_path filepath)
    then drop (length root) (copied_path filepath)
    else copied_path filepath

-- "executable_path="
abbrev pub executable_path_key : List ℕ
executable_path_key =
    b'e' ∷ b'x' ∷ b'e' ∷ b'c' ∷ b'u' ∷ b't' ∷ b'a' ∷ b'b' ∷ b'l' ∷ b'e' ∷ b'_' ∷ b'p' ∷ b'a' ∷ b't'
    ∷ b'h' ∷ b'=' ∷ []

abbrev pub user_long_count : ℕ → ℕ
user_long_count n = (n + 7) / 8

-- The pointers in front of the first null one.
unfoldable pub live : (n : ℕ) → List ℕ → List ℕ
live zero pointers = []
live (suc n) [] = []
live (suc n) (p ∷ pointers) = if p == 0 then [] else p ∷ live n pointers

-- `__put_user` of one word after the other.
abbrev pub word_bytes : List ℕ → List ℕ
word_bytes [] = []
word_bytes (w ∷ words) = le 8 w ++ word_bytes words

module _ (lr : LoadResults) (path_length : ℕ) where
  -- 17, 12 and 27 bytes for the key with its zero and the two buffers, and four pointers to them.
  abbrev pub reserved_words : ℕ
  reserved_words =
      1 + 1 + (lr.argc + 1) + (lr.envc + 1) + 4 + user_long_count (path_length + 17 + 12 + 27)

  abbrev pub stack_pointer : ℕ
  stack_pointer = (lr.stack_top / 8 * 8 - 8 * reserved_words) / 16 * 16

  abbrev pub exepath_user : ℕ
  exepath_user = lr.stack_top - path_length - 17

  abbrev pub kernfd_user : ℕ
  kernfd_user = exepath_user - 12

  abbrev pub elfcalls_user : ℕ
  elfcalls_user = kernfd_user - 27

  abbrev pub start_words : List ℕ
  start_words =
      lr.mh
      ∷ lr.argc
      ∷ (live lr.argc lr.argv
          ++ (0
              ∷ (live lr.envc lr.envp
                  ++ (0 ∷ exepath_user ∷ kernfd_user ∷ elfcalls_user ∷ 0 ∷ []))))

unfoldable pub setup_stack64 : (kernfd elfcalls filepath : List ℕ) → LoadResults → Memory → Started
unfolding executable_path live
setup_stack64 kernfd elfcalls filepath lr m =
    let path = executable_path lr.root_path filepath in
    let n = length path in
    let sp = stack_pointer lr n in
    let argv = live lr.argc lr.argv in
    let envp = live lr.envc lr.envp in
    let m1 = store m (exepath_user lr n) (executable_path_key ++ (path ++ 0 ∷ [])) in
    let m2 = store m1 (kernfd_user lr n) kernfd in
    let m3 = store m2 (elfcalls_user lr n) elfcalls in
    record {
      memory = store m3 sp (word_bytes (start_words lr n));
      stack_top = sp;
      argc = length argv;
      envc = length envp;
      argv = sp + 16;
      envp = sp + 16 + 8 * (length argv + 1);
      applep = sp + 16 + 8 * (length argv + 1) + 8 * (length envp + 1);
    }
