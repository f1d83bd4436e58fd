-- ===== src/Worker.antt =====
-- The completion thread `dsa_desc_complete`, the part of `dsa_copy` that submits and waits, and the
-- stop request of `my_exit`, of
-- DSA_Kernelspace_Test/3.kernel_test_N_DSAs/kernel_test_sgtable_batch.c, as they interleave.
--
-- A step of a run is one of the thread's, one of the main program's or one of the engine's, which
-- writes a status into a completion record; a program that waits steps to where it is. A visit of
-- the thread to a list entry is one step. `list_for_each_entry_safe` reads the next entry before it
-- visits one, so the list stands in three parts: entries seen in this pass, entries to see, and
-- entries appended after the pass had read its end. `wait_event_interruptible` returns when its
-- condition holds or when the thread is asked to stop. What `dsa_copy` submits are `left` entries,
-- each with a descriptor, and with the number of its batch where it has one: the thread unmaps the
-- lists of a batch and frees them with `batch_info`, and `freed` are the batches for which it has done so.
pub mod Inv
pub mod Stuck
pub mod Drain
pub mod Hang
pub mod Refine
pub mod Freed
mod Examples
use dsa_test.Base.{
  ℕ, zero, suc, ◌+◌, Option, none, some, Bool, true, false, ◌&&◌, ◌||◌, not, List, [], ◌∷◌, ◌++◌,
  ltb, ◌==◌, if◌then◌else◌,
}
use dsa_test.Desc.{comp_success}

-- `struct idxd_desc_list`: the number of the batch of `batch_info` (`none` is NULL), the flag
-- `completion`, and the `status` of its completion record
pub record Entry : Type 0 where
  pub batch_info : Option ℕ
  pub completion : Bool
  pub status : ℕ

-- where `dsa_desc_complete` stands
pub data ThreadAt : Type 0 where
  asleep outer inner scan tail idle stopped : ThreadAt

-- Where `dsa_copy`, and `my_exit` after it, stand. `submit n` has `n` entries left to submit,
-- `wake n` has just submitted one.
pub data MainAt : Type 0 where
  submit : ℕ → MainAt
  wake : ℕ → MainAt
  wait_wakeup clear wait_status returned stopping exited : MainAt

pub record World : Type 0 where
  pub thread_execution : Bool
  pub thread_wakeup : Bool
  pub completion_status : ℕ
  pub total_entries : ℕ
  pub seen : List Entry
  pub todo : List Entry
  pub late : List Entry
  pub poll_entry : ℕ
  pub completion_error : Bool
  pub printed : List ℕ  -- the statuses that the thread prints
  pub freed : List ℕ
  pub batch_of : ℕ → Option ℕ  -- of the entry that leaves so many to submit
  pub should_stop : Bool
  pub thread_at : ThreadAt
  pub main_at : MainAt

-- `idxd_desc_lists`
abbrev pub idxd_desc_lists : World → List Entry
idxd_desc_lists s = s.seen ++ (s.todo ++ s.late)

abbrev pub is_empty : List Entry → Bool
is_empty [] = true
is_empty (e ∷ es) = false

-- The entry that was visited stays in the list, or `list_del` and `kfree` take it out.
abbrev keep : Entry → World → World
keep e s = record s { seen = s.seen ++ e ∷ [] }

abbrev keep_or_delete : Entry → World → World
keep_or_delete e s = if s.thread_execution then keep e s else s

-- `if (desc_entry->batch_info)`: the two `dma_unmap_single` and the three `kfree`
pub free_batch : Option ℕ → List ℕ → List ℕ
free_batch none freed = freed
free_batch (some b) freed = b ∷ freed

-- the body of `list_for_each_entry_safe`
pub visit : Entry → World → World
visit e s =
    if e.completion
    then keep_or_delete e s
    else if e.status == comp_success
    then keep_or_delete (record e { completion = true })
        (record s { poll_entry = s.poll_entry + 1; freed = free_batch e.batch_info s.freed })
    else if ltb comp_success e.status
    then keep_or_delete (record e { completion = true })
        (record s {
          completion_error = true;
          printed = e.status ∷ s.printed;
          poll_entry = s.poll_entry + 1;
          freed = free_batch e.batch_info s.freed;
        })
    else keep e s

scan_step : List Entry → World → World
unfolding visit
scan_step (e ∷ es) s = visit e (record s { todo = es })
scan_step [] s = record s { thread_at = inner; seen = []; todo = s.seen ++ s.late; late = [] }

thread_step_at : ThreadAt → World → World
unfolding scan_step
thread_step_at asleep s =
    if s.thread_execution || s.should_stop
    then record s { thread_wakeup = true; thread_at = outer }
    else s
thread_step_at outer s =
    if s.should_stop then record s { thread_at = stopped } else record s { thread_at = inner }
thread_step_at inner s =
    if not s.should_stop && (ltb s.poll_entry s.total_entries && not (is_empty (idxd_desc_lists s)))
    then record s { thread_at = scan; seen = []; todo = idxd_desc_lists s; late = [] }
    else record s { thread_at = tail }
thread_step_at scan s = scan_step s.todo s
thread_step_at tail s =
    if not s.thread_execution && is_empty (idxd_desc_lists s)
    then record s {
      completion_status = if s.completion_error then 2 else 1;
      thread_wakeup = false;
      thread_at = idle;
    }
    else record s { thread_at = outer }
thread_step_at idle s =
    if s.thread_execution || s.should_stop then record s { thread_at = outer } else s
thread_step_at stopped s = s

-- `dsa_desc_complete`
pub thread_step : World → World
unfolding thread_step_at
thread_step s = thread_step_at s.thread_at s

-- `list_add_tail`. While a pass is on its last entry it has read the end of the list.
pub append : Entry → List Entry → World → World
append e [] s = record s { late = s.late ++ e ∷ [] }
append e (t ∷ ts) s = record s { todo = (t ∷ ts) ++ e ∷ [] }

abbrev submitted : Option ℕ → Entry
submitted batch_info = record { batch_info = batch_info; completion = false; status = 0 }

main_step_at : MainAt → World → World
unfolding append
main_step_at (submit zero) s = record s { main_at = wait_wakeup }
main_step_at (submit (suc n)) s =
    append (submitted (s.batch_of n)) s.todo (record s { main_at = wake n })
main_step_at (wake n) s = record s { thread_execution = true; main_at = submit n }
main_step_at wait_wakeup s = if s.thread_wakeup then record s { main_at = clear } else s
main_step_at clear s = record s { thread_execution = false; main_at = wait_status }
main_step_at wait_status s = if s.completion_status == 0 then s else record s { main_at = returned }
main_step_at returned s = record s { should_stop = true; main_at = stopping }
main_step_at stopping s = elim s.thread_at [ stopped ↦ record s { main_at = exited } | _ ↦ s ]
main_step_at exited s = s

-- `dsa_copy` from its submit loop on, then `kthread_stop` of `my_exit`
pub main_step : World → World
unfolding main_step_at
main_step s = main_step_at s.main_at s

-- The engine reports on an entry that has no report yet.
pub report : ℕ → ℕ → List Entry → List Entry
report i st [] = []
report zero st (e ∷ es) = (if e.status == 0 then record e { status = st } else e) ∷ es
report (suc i) st (e ∷ es) = e ∷ report i st es

pub data Part : Type 0 where
  in_seen in_todo in_late : Part

pub data Actor : Type 0 where
  thread main : Actor
  engine : Part → ℕ → ℕ → Actor

engine_step : Part → ℕ → ℕ → World → World
unfolding report
engine_step in_seen i st s = record s { seen = report i st s.seen }
engine_step in_todo i st s = record s { todo = report i st s.todo }
engine_step in_late i st s = record s { late = report i st s.late }

pub step : World → Actor → World
unfolding thread_step main_step engine_step
step s thread = thread_step s
step s main = main_step s
step s (engine part i st) = engine_step part i st s

pub run : World → List Actor → World
unfolding step
run s [] = s
run s (a ∷ actors) = run (step s a) actors

-- `my_init` has started the thread, and `dsa_copy` has `n` entries to submit.
pub start : (ℕ → Option ℕ) → ℕ → ℕ → World
start batches total n = record {
  thread_execution = false;
  thread_wakeup = false;
  completion_status = 0;
  total_entries = total;
  seen = [];
  todo = [];
  late = [];
  poll_entry = 0;
  completion_error = false;
  printed = [];
  freed = [];
  batch_of = batches;
  should_stop = false;
  thread_at = asleep;
  main_at = submit n;
}
