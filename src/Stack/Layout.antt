-- ===== src/Stack/Layout.antt =====
-- Where the parts of the start stack are.
use machgate.Base.{
  ℕ, zero, suc, ◌+◌, ◌-◌, ◌*◌, ◌%◌, ◌≤◌, ◌≡◌, inl, inr, refl, arith, ap, sym, subst, ◌∙◌, List, [],
  ◌∷◌, ◌++◌, length, length-append, le,
}
use machgate.Stack.{
  LoadResults, Started, executable_path, executable_path_key, live, word_bytes, reserved_words,
  stack_pointer, exepath_user, kernfd_user, elfcalls_user, start_words, setup_stack64,
}
use machgate.Memory.{
  Memory, Holds, Holds-append, store, Outside, store-Outside, load-store, load-store_apart,
}

word_bytes-append :
    (l rest : List ℕ) → word_bytes (l ++ 0 ∷ rest) ≡ word_bytes (l ++ 0 ∷ []) ++ word_bytes rest
word_bytes-append [] rest = refl
word_bytes-append (w ∷ l) rest = ap (λ t. le 8 w ++ t) (word_bytes-append l rest)

length-word_bytes : (words : List ℕ) → length (word_bytes words) ≡ 8 * length words
length-word_bytes [] = refl
length-word_bytes (w ∷ words) =
    omega (arith, length-append (le 8 w) (word_bytes words), length-word_bytes words)

length-live : (n : ℕ) (pointers : List ℕ) → length (live n pointers) ≤ n
unfolding live
length-live zero pointers = omega arith
length-live (suc n) [] = omega arith
length-live (suc n) (p ∷ pointers) = ground (arith, length-live n pointers)

module _ (kernfd elfcalls filepath : List ℕ) (lr : LoadResults) (m : Memory) where
  abbrev path : List ℕ
  path = executable_path lr.root_path filepath

  abbrev started : Started
  started = setup_stack64 kernfd elfcalls filepath lr m

  -- The stack pointer, the counts and pointers behind it, and the strings that these point to.
  pub record IsStart : Type 0 where
    pub aligned : started.stack_top % 16 ≡ 0
    pub counts : Holds started.memory started.stack_top (word_bytes (lr.mh ∷ lr.argc ∷ []))
    pub arguments_next : started.argv ≡ started.stack_top + 16
    pub environment_next : started.envp ≡ started.argv + 8 * (started.argc + 1)
    pub apple_next : started.applep ≡ started.envp + 8 * (started.envc + 1)
    pub arguments : Holds started.memory started.argv (word_bytes (live lr.argc lr.argv ++ 0 ∷ []))
    pub environment :
        Holds started.memory started.envp (word_bytes (live lr.envc lr.envp ++ 0 ∷ []))
    pub apple : Holds started.memory started.applep (
        word_bytes (
          exepath_user lr (length path)
          ∷ kernfd_user lr (length path)
          ∷ elfcalls_user lr (length path)
          ∷ 0
          ∷ []))
    pub path_there :
        Holds started.memory
          (exepath_user lr (length path))
          (executable_path_key ++ (path ++ 0 ∷ []))
    pub kernfd_there : Holds started.memory (kernfd_user lr (length path)) kernfd
    pub elfcalls_there : Holds started.memory (elfcalls_user lr (length path)) elfcalls
    pub others_kept :
        (x : ℕ)
        → Outside x started.stack_top (lr.stack_top - started.stack_top)
        → started.memory x ≡ m x

  module _ (has_kernfd : length kernfd ≡ 12) (has_elfcalls : length elfcalls ≡ 27)
      (room : 8 * reserved_words lr (length path) + 8 ≤ lr.stack_top) where
    abbrev n : ℕ
    n = length path

    abbrev sp : ℕ
    sp = stack_pointer lr n

    length-vector :
        length (word_bytes (start_words lr n))
        ≡ 8 * (length (live lr.argc lr.argv) + length (live lr.envc lr.envp) + 8)
    length-vector =
        let apple : List ℕ = exepath_user lr n ∷ kernfd_user lr n ∷ elfcalls_user lr n ∷ 0 ∷ [] in
        omega (
          arith,
          length-word_bytes (start_words lr n),
          length-append (live lr.argc lr.argv) (0 ∷ (live lr.envc lr.envp ++ 0 ∷ apple)),
          length-append (live lr.envc lr.envp) (0 ∷ apple),
        )

    vector_fits : sp + length (word_bytes (start_words lr n)) ≤ elfcalls_user lr n
    vector_fits =
        omega (arith, length-vector, length-live lr.argc lr.argv, length-live lr.envc lr.envp)

    strings_fit :
        (elfcalls_user lr n + 27 ≡ kernfd_user lr n)
        × (kernfd_user lr n + 12 ≡ exepath_user lr n)
        × (exepath_user lr n + (n + 17) ≡ lr.stack_top)
    strings_fit = (omega arith, omega arith, omega arith)

    abbrev apple_words : List ℕ
    apple_words = exepath_user lr n ∷ kernfd_user lr n ∷ elfcalls_user lr n ∷ 0 ∷ []

    abbrev vector : List ℕ
    vector = word_bytes (start_words lr n)

    abbrev path_string : List ℕ
    path_string = executable_path_key ++ (path ++ 0 ∷ [])

    abbrev with_path : Memory
    with_path = store m (exepath_user lr n) path_string

    abbrev with_kernfd : Memory
    with_kernfd = store with_path (kernfd_user lr n) kernfd

    abbrev with_strings : Memory
    with_strings = store with_kernfd (elfcalls_user lr n) elfcalls

    abbrev final : Memory
    final = store with_strings sp vector

    length-path_string : length path_string ≡ n + 17
    length-path_string = omega (arith, length-append path (0 ∷ []))

    vector_parts :
        word_bytes (lr.mh ∷ lr.argc ∷ [])
          ++ (word_bytes (live lr.argc lr.argv ++ 0 ∷ [])
              ++ (word_bytes (live lr.envc lr.envp ++ 0 ∷ []) ++ word_bytes apple_words))
        ≡ vector
    vector_parts =
        ap (λ t. word_bytes (lr.mh ∷ lr.argc ∷ []) ++ t)
          (sym (
            word_bytes-append (live lr.argc lr.argv) (live lr.envc lr.envp ++ 0 ∷ apple_words)
            ∙ ap (λ t. word_bytes (live lr.argc lr.argv ++ 0 ∷ []) ++ t)
                (word_bytes-append (live lr.envc lr.envp) apple_words)))

    abbrev argv_at : ℕ
    argv_at = sp + 16

    abbrev envp_at : ℕ
    envp_at = argv_at + 8 * (length (live lr.argc lr.argv) + 1)

    abbrev applep_at : ℕ
    applep_at = envp_at + 8 * (length (live lr.envc lr.envp) + 1)

    length-pointers : (l : List ℕ) → length (word_bytes (l ++ 0 ∷ [])) ≡ 8 * (length l + 1)
    length-pointers l = omega (arith, length-word_bytes (l ++ 0 ∷ []), length-append l (0 ∷ []))

    parts_there :
        Holds final sp (word_bytes (lr.mh ∷ lr.argc ∷ []))
        × Holds final argv_at (word_bytes (live lr.argc lr.argv ++ 0 ∷ []))
        × Holds final envp_at (word_bytes (live lr.envc lr.envp ++ 0 ∷ []))
        × Holds final applep_at (word_bytes apple_words)
    parts_there =
        let argument_bytes = word_bytes (live lr.argc lr.argv ++ 0 ∷ []) in
        let environment_bytes = word_bytes (live lr.envc lr.envp ++ 0 ∷ []) in
        let (counts, rest) =
          Holds-append final sp (word_bytes (lr.mh ∷ lr.argc ∷ []))
            (argument_bytes ++ (environment_bytes ++ word_bytes apple_words))
            (subst (Holds final sp) (sym vector_parts) (load-store with_strings sp vector)) in
        let (arguments, behind) =
          Holds-append final argv_at argument_bytes (environment_bytes ++ word_bytes apple_words)
            rest in
        let (environment, apple) =
          Holds-append final envp_at environment_bytes (word_bytes apple_words) (
            subst (λ t. Holds final (argv_at + t) (environment_bytes ++ word_bytes apple_words))
              (length-pointers (live lr.argc lr.argv)) behind) in
        (
          counts,
          arguments,
          environment,
          subst (λ t. Holds final (envp_at + t) (word_bytes apple_words))
              (length-pointers (live lr.envc lr.envp)) apple,
        )

    strings_there :
        Holds final (exepath_user lr n) path_string
        × Holds final (kernfd_user lr n) kernfd
        × Holds final (elfcalls_user lr n) elfcalls
    strings_there =
        let (elfcalls_end, kernfd_end, path_end) = strings_fit in
        (
          load-store_apart with_strings sp vector (exepath_user lr n) (length path_string)
                (inr (omega (arith, vector_fits)))
              ∙ load-store_apart with_kernfd (elfcalls_user lr n) elfcalls (exepath_user lr n)
                  (length path_string) (inr (omega arith))
              ∙ load-store_apart with_path (kernfd_user lr n) kernfd (exepath_user lr n)
                  (length path_string) (inr (omega arith))
              ∙ load-store m (exepath_user lr n) path_string,
          load-store_apart with_strings sp vector (kernfd_user lr n) (length kernfd)
                (inr (omega (arith, vector_fits)))
              ∙ load-store_apart with_kernfd (elfcalls_user lr n) elfcalls (kernfd_user lr n)
                  (length kernfd) (inr (omega arith))
              ∙ load-store with_path (kernfd_user lr n) kernfd,
          load-store_apart with_strings sp vector (elfcalls_user lr n) (length elfcalls)
                (inr vector_fits)
              ∙ load-store with_kernfd (elfcalls_user lr n) elfcalls,
        )

    Outside-part :
        (x a k : ℕ)
        → sp ≤ a
        → a + k ≤ lr.stack_top
        → Outside x sp (lr.stack_top - sp)
        → Outside x a k
    Outside-part x a k above fits (inl below) = inl (omega arith)
    Outside-part x a k above fits (inr behind) = inr (omega arith)

    final-Outside : (x : ℕ) → Outside x sp (lr.stack_top - sp) → final x ≡ m x
    final-Outside x h =
        let (elfcalls_end, kernfd_end, path_end) = strings_fit in
        let fits = vector_fits in
        let long = length-path_string in
        store-Outside with_strings sp vector x
          (Outside-part x sp (length vector) (omega arith) (omega arith) h)
        ∙ store-Outside with_kernfd (elfcalls_user lr n) elfcalls x
            (Outside-part x (elfcalls_user lr n) (length elfcalls) (omega arith) (omega arith) h)
        ∙ store-Outside with_path (kernfd_user lr n) kernfd x
            (Outside-part x (kernfd_user lr n) (length kernfd) (omega arith) (omega arith) h)
        ∙ store-Outside m (exepath_user lr n) path_string x
            (Outside-part x (exepath_user lr n) (length path_string) (omega arith) (omega arith) h)

    -- If the buffers have their sizes and the stack has room, then: the stack pointer is at a multiple of 16; behind
    -- it follow the header's address and the count of arguments, the pointers to the arguments, to the environment
    -- and to the three strings, each array with a null pointer at its end and where the results say; the strings
    -- are where these point, the path with its key and a zero; and nothing is written outside of this.
    pub setup_stack64-IsStart : IsStart
    unfolding setup_stack64
    setup_stack64-IsStart =
        let (counts, arguments, environment, apple) = parts_there in
        let (path_there, kernfd_there, elfcalls_there) = strings_there in
        record {
          aligned = omega arith;
          counts = counts;
          arguments_next = refl;
          environment_next = refl;
          apple_next = refl;
          arguments = arguments;
          environment = environment;
          apple = apple;
          path_there = path_there;
          kernfd_there = kernfd_there;
          elfcalls_there = elfcalls_there;
          others_kept = final-Outside;
        }
