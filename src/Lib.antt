-- ===== src/Lib.antt =====
-- Tests of Intel's Data Streaming Accelerator (DSA): kernel modules that copy memory through the
-- idxd driver, programs that do so from user space, and character devices that give these programs
-- kernel memory. This library models the repository's own code and proves what it does.
--
-- The files, and the code that each models (DSA_Kernelspace_Test is K, and
-- DSA_Userspace_Test/memmove_Non-Contiguous-Mem-by-vmalloc_CPU_VS_DSA_TEST is U):
--   Base        arrays, pointers, C's return values, tests, and lemmas on them
--   Desc        K/3.kernel_test_N_DSAs/kernel_test.h: descriptors and batches. `fill_subs` is the loop
--               of `idxd_desc_dma_submit_memcpy_sg`, `batch_task` its result.
--   Shuffle     `random_arr` of K/3.kernel_test_N_DSAs/kernel_test_sgtable_batch.c
--   Tables      `vmalloc_to_sgtable` of the same file: how the pages are dealt to the queues.
--               Tables.Cleanup has its clean-up, also as in K/3.kernel_test_N_DSAs/kernel_test_sgtable.c.
--   Worker      `dsa_desc_complete`, and `dsa_copy` from its submissions to the end of its wait, of the
--               same file, as steps of a thread, of the main program and of the engine
--   Setup       `init_dsa`, `init_region`, `sgtable_to_dma_map`, `my_init` and `my_exit` of that file
--   Dispatch    the submissions of `dsa_copy` of that file: a round for each batch, a visit for each
--               queue. `Lane` holds what the arrays that are indexed by the queue's number hold.
--               Dispatch.Singles has those of K/3.kernel_test_N_DSAs/kernel_test_sgtable.c.
--   Engine      what the engine makes of the copies that Copy and Dispatch ask for, and
--               Engine.Pages of the pages that Tables deals out to the queues of Dispatch, in the
--               order of Shuffle in Engine.Whole
--   Copy        the batches of `dsa_copy` of K/1.kernel_test/kernel_test_sgtable_batch.c, and
--               Copy.Finish their submission and polling; Copy.Loop the rounds of `dsa_copy` of
--               K/1.kernel_test/kernel_test_sgtable.c
--   Probe       `init_dsa` of K/1.kernel_test/kernel_test_sgtable.c
--   Single      `vmalloc_to_sgtable` and `test` of the same file
--   Load        `my_init` and `my_exit` of the same file, with Probe, Single and Copy.Loop in their
--               places
--   Shuffled    `vmalloc_to_sgtable` of K/2.kernel_test_pages_shuffling/kernel_test_sgtable.c, with
--               Shuffle and Copy.Loop; in Shuffled.Batches kernel_test_sgtable_batch.c beside it, with
--               Shuffle and Copy.Finish
--   Retry       the rounds of `main` of
--               DSA_Userspace_Test/memmove_CPU_VS_DSA-userguide_ref-codes_TEST/memmove_userguide_ref.c
--   Portal      `map_wq` and `main` of the same file
--   Memmove     `main` of memmove_userguide_ref.c with its memory, and memmove_soft.c beside it
--   Mmap        U/mmap_to_userspace_soft_k.c, U/mmap_to_userspace_dsa_k.c and their `_v` versions
--   Basecodes   K/1.kernel_test/kernel_test_basecodes.c: the copy, the runs of pages, and in
--               Basecodes.Load their loading and unloading
--   WqConfig    K/1.kernel_test/kernel_wq_configuration.c
--   Chardev     U/kmalloc_to_userspace.c, U/vmalloc_to_userspace.c and their `_dst` versions
--   Devices     these four beside each other, as U/test.sh loads them, under the programs of Mmap
--
-- Desc makes the descriptors that Copy, Basecodes and Retry hand to the engine; Shuffle orders the
-- pages that Tables deals out; Setup calls both and then starts what Dispatch submits and Worker
-- counts. Portal finds the queue for the rounds of Retry, Memmove runs both on memory, and Mmap on
-- the areas of Chardev, which Devices puts together. Load runs Probe, Single and Copy.Loop, and
-- Basecodes.Load runs Probe.
-- What the kernel, the idxd driver, libaccel-config and the engine do enters as an argument: what an
-- allocation returns, whether a call fails, what a completion record shows at a poll; for the
-- contents of memory it is the record `Engine`, with what DSA documents of a MEMMOVE. A descriptor
-- counts as a copy only if it is a MEMMOVE, and a list of them only if a BATCH of two at least has its
-- address. A read through
-- NULL, or past the end of a chain, is the result `fault` of `Outcome`. Numbers are natural numbers,
-- with the wrap-around of descriptors' fields written out.
--
-- Fuel: `wait_while` has the limit of its counter and one more, which is enough; `rounds` of Basecodes
-- has the limit of page faults and one more; `rounds` of Retry, and with it `main` of Portal,
-- `dsa` of Memmove and `dsa_main` of Mmap, have any number, since that loop has no limit; `fill_from`
-- of Memmove has one for each page and one more; `map_pages` has one round for each of the pages that
-- a mapping may have; `rounds` of Dispatch has the most entries that a queue
-- has, as the loop has, and `poll_loop` and `poll_entries` have POLL_RETRY_MAX passes.
--
-- Not modelled: printing and timing, the copies by the processor and the comparison of the areas (but
-- in Memmove), the copy of the idxd driver under K/1.kernel_test/idxd, the libraries under
-- DSA_Userspace_Test/DSA_Library_References, and the rest of the variants under K/2.* and
-- of K/3.kernel_test_N_DSAs/kernel_test_sgtable.c, which are near copies of what is modelled.
pub mod Base
pub mod Desc
pub mod Shuffle
pub mod Tables
pub mod Copy
pub mod Worker
pub mod Retry
pub mod Basecodes
pub mod Setup
pub mod Chardev
pub mod WqConfig
pub mod Probe
pub mod Single
pub mod Dispatch
pub mod Engine
pub mod Portal
pub mod Memmove
pub mod Mmap
pub mod Devices
pub mod Load
pub mod Shuffled
