-- ===== src/Lib.antt =====
-- BBQ compiles binary-format grammars to parsers and writers. This library verifies the C runtime that
-- the generated C code calls, the containers of crt/ that it stands on, and the grammar analysis of
-- pegc, the generator of the parsers that BBQ's own front ends use.
--
-- The parts and their files
--   crt/bbq_alloc.{c,h}     Crt/Alloc: an allocator is the sequence of its answers, one Boolean for
--     each request (`Grants`); bbq_mem_alloc is `mem_alloc`, the budget is the record `Budget` with
--     budget_alloc, budget_resize and budget_release. Crt/Alloc/Live adds a client that holds blocks;
--     Crt/Alloc/Fault is the fault injector.
--   crt/bbq_vec.{c,h}       Crt/Vec: the growable array. `slot` is the memory of its block, `poisoned`
--     the sign of the stored capacity; each macro of bbq_vec.h is the function of its name.
--   crt/bbq_buf.{c,h}       Crt/Buf: the growable byte buffer.
--   crt/bbq_hmap.{c,h}      Crt/Hmap: the open-addressing map; its seed is an argument.
--   crt/bbq_arena.{c,h}     Crt/Arena: the bump allocator on a list of pages.
--   backends/c/runtime/bbq_read.h
--     Read/Ctx     bbq_ctx_t, failure, the cursor, checkpoints. A call that returns bool and writes
--       through `out` is a function to an outcome: done, failed, or a fault, a read outside the input.
--     Read/Stacks  the scope, loop and loop-base stacks, on vectors indexed by the context's depths.
--     Read/Window  the interval stack: bbq_push_interval_checked and bbq_pop_interval_checked.
--     Read/Fixed   byte swapping and the fixed-width reads, on a host of either byte order.
--     Read/Leb     the strict LEB128 readers.
--   backends/c/runtime/bbq_runtime.h
--     Read/Owned   the storage that a reader hands out: array stores, bytes and strings.
--     Write/Buffer bbq_write_ctx_t, bbq_write_reserve, bbq_write_bytes, bbq_w_seek.
--     Write/Fixed  the fixed-width writes.  Write/Leb  the LEB128 writes.
--     Write/Stacks the writer's stacks.     Write/Holes  @rest sizes and count placeholders.
--   pegc/frontend/PegAnalysis.{cpp,h}, with the tree of pegc/frontend/GrammarAST.h
--     Pegc/Names   std::string as its bytes, std::set and std::map in the order of their keys.
--     Pegc/Ast     PegExpr, one constructor for each class; FirstElement.
--     Pegc/Sets    the helpers first_set_*.
--     Pegc/First   nullable_of and first_of over the table of productions; Match is the rules of
--       parsing expressions, which the code is held against.
--     Pegc/Collect collect_productions, collect_calls, build_callers_graph; messages are data.
--     Pegc/LeftRec first_element, has_left_path, detect_left_recursion.
--     Pegc/Kildall compute_first_sets: the table, the invariant, a round, the loop.
--     Pegc/Follow  walk_for_follow, compute_follow_sets.
--     Pegc/Graph   mark_reachable, detect_unreachable, topological_sort.  Pegc/Warnings  the checks that warn.
--     Pegc/Analyze the phases of PegAnalysis::analyze up to the FIRST sets, composed.
--   lib/Worklist.h   Pegc/Worklist: the queue without repetition, with names as its items.
--   Base is the shared notation; Examples holds runs on concrete data.
--
-- How they interact: a stack of a context is a vector of Crt/Vec that grows by the answers of its
-- allocator (`grants` in the context); the writers build bytes in a buffer that grows likewise; the
-- readers take them back. The phases of the grammar analysis hand on one table of productions, which
-- each of them reads by name and writes in part; compute_first_sets and compute_follow_sets share the
-- worklist.
--
-- Representation. A size_t or uint64_t is a number with its wrap-around written out where the code
-- can reach it (`add_size`, `sub_size`); an int64_t in a stack is its bit pattern, and the signed LEB128
-- code uses integers; a pointer is a number with NULL 0; a float or a double is its bit pattern; a depth
-- or an index of type int is a natural number, and an id below 0 is `none`. Whether the host is
-- little-endian is a parameter.
--
-- Bounds and fuel. Doubling the write buffer or a byte buffer takes 65 rounds: from at least 1, 64
-- doublings reach 2^64. Doubling the count holes takes 30 rounds: the ceiling is below 2^30. A probe of
-- the hash map has as many steps as there are slots: one that uses them up has gone round the table, and
-- would go round for ever in C, so it is `none`. The size of a `@rest` or a count takes a width of at most
-- 64 bits, an argument of the functions that write it: C leaves wider shifts undefined. The LEB128
-- writers take ten rounds, which 64 bits need at most; the readers take ceil(bits / 7), as their loop
-- does. The searches over the productions have depth for each declared name and one more: each level
-- visits another name. The loop of compute_first_sets has a round for each name and, for each element
-- that a set can take on, one for it and one for each caller (`enough`): sets only grow, and a name is
-- pending once. The loop of compute_follow_sets has a round for each name, and two for each element and
-- production: one adds the element, one takes the name that it makes pending.
--
-- Not modelled: giving memory back to libc; the hash seed of crt/bbq_alloc.c, which asks the operating
-- system; the dictionary and the prefix tree of crt/; c-lite; the code generators, the front ends, the
-- CEK machine and the C++ runtime. Of the grammar analysis: classify_alternatives, the walk that finds
-- the choices for detect_masked_alternatives (their order is that of pointers),
-- detect_unused_terminals but for the references that it collects; the phases of analyze behind the
-- FIRST sets are modelled one by one and not as one run; the source places in the tree; and null
-- children, which the grammar's parser never builds.
pub mod Base
pub mod Crt
pub mod Pegc
pub mod Read
pub mod Write
pub mod Examples
