-- ===== src/Lib.antt =====
-- Models of the two programs of this repository: cush, a shell with job control, and the dynamic
-- memory allocator of malloclab with the parts of its driver that check it.
--
-- Shared: Base passes library names on and holds the lemmas on tests, sequences of pointers and
-- signed numbers. LinkedList is the interface of list.h: its operations with what the header
-- documents of them. Run is the type of stateful commands: a run ends with a result, a crash (a NULL
-- or dangling pointer, a read past an array, a failed assertion), an exit, or a system call that has
-- not returned.
--
-- cush (cs3214-cush/src)
--   Cush/Ast       shell-ast.c, shell-ast.h: the syntax tree and its printing
--   Cush/State     the global variables of the shell, the heap of struct job, the terminal, what
--                  the shell has done (signals sent, children started, output), and the answers of
--                  system calls to come, in order
--   Cush/Signals   signal_support.c: the mask of blocked signals
--   Cush/Term      termstate_management.c: owner and settings of the terminal
--   Cush/Jobs      cush.c: job_list and jid2job (add_job, delete_job, job_with_jid,
--                  get_job_from_jid, print_all_jobs, free_all_jobs)
--   Cush/Children  cush.c: sigchld_handler, handle_child_status, wait_for_job
--   Cush/Builtins  cush.c: check_for_builtin with fg, bg, stop, kill, jobs, history
--   Cush/Spawn     cush.c: iterate_over_pipeline; plan_child is the part of its loop that collects
--                  the file actions of one child
--   Cush/Loop      cush.c: iterate_over_command_line and the loop of main
-- The components meet in the state: a pipeline becomes a job of Jobs, a wait status reaches that job
-- through Children, and the builtins and Spawn wait through Children and hand the terminal over
-- through Term. A job is a pointer, so that aliasing between list and table is visible; the heap of
-- jobs is a partial function.
--
-- malloclab
--   Malloc/Memlib     memlib.c: the simulated break
--   Malloc/Ranges     mdriver.c: add_range, remove_range, clear_ranges
--   Malloc/Driver     mdriver.c: reset_heap, eval_mm_valid, eval_mm_valid_inner, over any allocator;
--                     Driver/Contract is what an allocator must keep for its traces to pass
--   Malloc/Implicit   mm-gback-implicit.c: the sample allocator; Implicit/Spec is its heap as a
--                     sequence of blocks, and Implicit/Lawful fills the contract of the driver
--   Malloc/Trace      mdriver.c: read_trace, over the words of a trace file
--   Malloc/Utilization
--                     mdriver.c: eval_mm_util, over any allocator
--   Malloc/Speed      mdriver.c: eval_mm_speed, eval_mm_speed_inner, over any allocator
--   Malloc/Blocks     mm.c: boundary tags, align, block arithmetic
--   Malloc/FreeLists  mm.c: add_free_block, find_fit; FreeLists/Entry says which list a block enters
--   Malloc/Mm         mm.c: mm_init, mm_malloc, mm_free, mm_realloc, coalesce, place, extend_heap
-- The heap of mm.c is a map from addresses to boundary tags; a free block stands in a list by its
-- address. Sizes wrap as size_t and int do, but the sums of eval_mm_util are exact. The driver's
-- product with the multiplier is an argument. Tags and the bytes of payloads are kept apart, so a
-- tag that is written into a payload does no damage here; where the blocks of mm-gback-implicit.c
-- lie is said by Represents. An index of a trace is taken to be below num_ids. A signal that is
-- pending when it is unblocked is delivered as a step of its own.
--
-- Loops run over lists, or over fuel that bounds them: find_slot has one round for each index of the
-- table, init_lists one for each halving of an int. wait_for_job consumes one return of waitpid() in
-- each round of its loop. find_fit of mm-gback-implicit.c has one round for each byte of the heap,
-- of which every block has at least 16. read_ops has one round for each word of the file and one
-- more.
--
-- Not modelled: the parser that bison and flex generate and readline, whose results are inputs of
-- Cush/Loop; posix_spawn, whose answers are arguments of Cush/Spawn; list.c; the clocks, reports,
-- options and threads of mdriver, and its runs with the C library's malloc; mm2.c, which is
-- unfinished and in no build rule; the release of syntax trees and other memory that no later step
-- reads. Close and pipe calls are taken to succeed.
pub mod Base
pub mod LinkedList
pub mod Run
pub mod Cush
pub mod Malloc
