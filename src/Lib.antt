-- ===== src/Lib.antt =====
-- A model of the core of machgate, which runs Mach-O programs of arm64 macOS on Linux, and the theorems
-- that make it correct.
--
-- The program's parts, and the files that model them:
--
-- * src/arm64_enc.h, the encoders of branches that every part which writes code uses, and the test of
--   their range: Arm64 has the encoders, and Arm64/Branch what the processor reads of their words.
-- * src/isa_emul.c replaces instructions that the host may lack, LSE atomics and BCAX, by branches to
--   islands in a pool near the code. Isa/Insn has the encoders of instructions, Isa/Decode `decode_lse`
--   and `decode_bcax`, Isa/Scratch `pick_scratch`, Isa/Emit `emit_island` and `emit_bcax_island`, and
--   Isa/Patch `isa_emul_patch` (`patch`) and `isa_emul_estimate_pool_size`. Code and pool are lists of
--   words, an address is the number of a word, and the two do not overlap. An island is a list of
--   instructions, each the call of the encoder that writes it.
-- * src/syscall/guest_vm_track.c makes the guest's small anonymous mappings and remembers them:
--   GuestVm/Table has the table of 64 slots (`guest_vm_track_add`, `guest_vm_lookup`,
--   `guest_vm_forget`), GuestVm/Calls `machgate_darwin_mmap` and `machgate_darwin_munmap` with the
--   signal mask, and GuestVm/Reach any sequence of their calls.
-- * src/config.c reads a configuration: Config/Text has `strip` and the C string functions, Config/Load
--   `config_load`, whose file is the list of the buffers that `fgets` fills.
-- * src/syscall/syscall_gate.c is entered by the guest in place of each system call: Gate/Flags has the
--   translations of flags, Gate/State the results in the saved registers, Gate/Stat the structure that
--   fstat fills, Gate/Dispatch `syscall_gate_dispatch`, Gate/Island the words of an island,
--   Gate/Island/Run what the processor does with its instructions, and Gate/Pools the pools of islands
--   and the patch of a section.
--
-- * src/patcher.c applies a patch file to the loaded program: Patcher/Text has its lexical helpers,
--   Patcher/Parse the parsers of locations, instructions and lines, Patcher/Resolve `resolve_loc` and
--   `pattern_find_unique`, and Patcher/Apply the passes of `patcher_apply`. Memory is a function from
--   addresses to bytes, a line is a list of bytes as `fgets` leaves it in the buffer, and a label has an
--   address once it is resolved.
-- * src/startup_cache.c keeps the products of the start-up translation in a file: Cache/Format has the
--   layout of the file, the hash and the key, and Cache/File `startup_cache_open`, `write_all` and
--   `startup_cache_publish` on the temporary and the final file.
-- * src/eh_frame.c makes DWARF unwind tables of the compact unwind entries of the program: EhFrame/Leb has
--   the LEB128 numbers, EhFrame/Emit the writers of CIEs and FDEs, EhFrame/Cfi how an unwinder runs an
--   FDE's instructions, EhFrame/Read the reader of the native `__eh_frame`, EhFrame/Collect
--   `collect_entries`, EhFrame/Generate the synthetic frame, the walk over it and the merge of
--   `eh_frame_generate_and_register`, and EhFrame/Hdr the table of `.eh_frame_hdr`, of this function and of
--   `eh_frame_register_cached`. A section is a list of bytes; what is read behind its end is 0.
-- * src/machgate.c starts a program: Boot/Rewrite has the pass over the words of its code, which rewrites
--   LDAPR and the reads of TPIDRRO_EL0 and records them, and the replay of a record from the cache, with
--   the patch of src/isa_emul.c as a parameter; Boot/Rewrite/Words and Boot/Rewrite/Replay have the lemmas
--   of a section, Boot/Rewrite/Sections those of the program.
-- * src/stack.c writes the stack that a program starts with: Stack has `setup_stack64`, and Stack/Layout
--   where the parts of the stack are.
-- * src/trampoline.c replaces functions of the program by native ones: Trampoline has the pool of islands,
--   the islands, `write_trampoline` and the loop of `trampoline_patch_overrides`, Trampoline/Laws runs a
--   written trampoline, Trampoline/Overrides follows the loop, and Trampoline/Mangling has
--   `try_mangling_variants`.
-- * src/resolver.c makes the pointers of a loaded image right: Resolver/Rebase and Resolver/Bind have
--   the two opcode loops of `process_dyld_info`, with the instructions that the opcodes encode in
--   Resolver/Rebase/Program and Resolver/Bind/Program; Resolver/Bind/One has `do_bind_one`, which
--   records the binds of deferred libraries, and the three passes; Resolver/Chain has
--   `process_chained_fixups` and `walk_chain`, Resolver/Chain/Layout how the linker lays the chains out;
--   Resolver/Slots has the registry of bound slots with its hash chains, and Resolver/Slots/Refines the
--   map that it is to be.
--
-- Isa, Gate and Patcher write their branches with Arm64; Patcher takes C's string functions from
-- Config/Text; Gate takes the results of kernel calls in the form of GuestVm/Calls; the file of Cache
-- holds the frame and the pairs of EhFrame and the record of Boot. Base is shared: C's tests, words of
-- fixed width and their bytes, lists under native indices, signed integers, and the laws of the bit
-- operations; Memory is a memory of bytes, for Stack, Trampoline and Resolver, and Memory/Words its words
-- of 64 bits. Resolver reads LEB128 numbers with EhFrame/Leb, as src/resolver.c has the same loops again.
-- Tests runs the definitions at concrete inputs.
--
-- Bounds: the munmap loop makes at most eight attempts, so it is structural in the attempts left; the two
-- searches for a pool's address take the number of rounds, which Gate/Pools/Search is about. A number of
-- 64 bits has at most ten LEB128 bytes. The reader of `__eh_frame` and the walk over the synthetic frame
-- have one round more than there are bytes, as a record takes four at least, and the answer none if these
-- do not suffice; the search for an LSDA has as many rounds as there are entries, and each halves the
-- range. The opcode loops of the resolver have as many rounds as there are bytes, as each opcode takes
-- one; the walk along a hash chain has one more than there are entries, as a chain goes to ever earlier
-- ones; the walk of a chain of fixups takes the number of rounds, one for each pointer. Every other loop
-- runs over a list or a fixed range of registers.
--
-- The kernel is a parameter of GuestVm and of Gate/Dispatch: arbitrary functions from the arguments of a
-- call to its result. An `errno` other than the one of a failed call is not part of the state. The
-- handlers of src/syscall/syscall_range_*.c are a parameter of the dispatch, as functions on the
-- registers, the mappings, the signal mask and the disposition of SIGPIPE, and the function that an
-- island calls is a parameter of its run, under the procedure call standard. The answers of `mprotect`,
-- the symbol tables of src/resolver.c and the results of the file operations of a publication are
-- parameters of Patcher and Cache. The memory behind an indirect pointer and `qsort` are parameters of
-- EhFrame, `dlsym` and the address of `trampoline_abort` those of Trampoline, the two buffers that
-- `snprintf` fills are those of Stack. What a symbol resolves to, as `resolve_import` and
-- `resolve_bind_by_name` of src/resolver.c answer it, is a parameter of Resolver; the latter may change
-- the stubs, the counts and the registry too.
--
-- Not modelled: the lock and the threads of guest_vm_track.c, `config_free`, messages on stderr, failures
-- of malloc; of syscall_gate.c the trace file and the walk over the load commands; of startup_cache.c the
-- paths of the file; of eh_frame.c the load commands, the mappings near the code, the personality that is
-- put into a cached frame, and the hook of `_dl_find_object`; of trampoline.c `trampoline_patch_lib`, the
-- load commands, mprotect and the signal diagnostics; of machgate.c the loading of the program, the place of
-- its island pool, and its call; of resolver.c the load commands and the libraries, the resolution of
-- symbols, mprotect and the traces; the loader, the C library shims and the single system calls
-- of src/syscall/syscall_range_*.c.
pub mod Base
pub mod Memory
pub mod Arm64
pub mod Isa
pub mod GuestVm
pub mod Config
pub mod Gate
pub mod Patcher
pub mod Cache
pub mod Boot
pub mod EhFrame
pub mod Stack
pub mod Trampoline
pub mod Resolver
pub mod Tests
