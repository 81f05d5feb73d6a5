-- ===== src/Process/Finish.antt =====
-- How src/process.c ends a process.
use my_misu_os.Base.{
  ℕ, false, Option, none, some, leb, ◌==◌, if◌then◌else◌, ℤ, pos, neg, count_if, codes,
}
use my_misu_os.Pmm.{pmm_free_page}
use my_misu_os.Klog.{KlogLevel, klog}
use my_misu_os.Process.State.{ProcState, Kernel, proc, put_proc, find_slot_by_pid}

-- The end of `process_terminate`, for a process in the table.
abbrev pub end_process : Kernel → ℕ → Kernel
end_process k slot =
    let p = record (proc k slot) { state = ProcState.terminated; in_use = false } in
    let log = klog k.log k.tick KlogLevel.info (codes "process terminated") in
    if p.kstack == 0
    then record (put_proc k slot p) { log = log }
    else record (put_proc k slot (record p { kstack = 0 })) {
      log = log;
      pmm = pmm_free_page k.pmm p.kstack;
    }

unfoldable pub process_terminate : Kernel → ℕ → ℤ × Kernel
process_terminate k pid = elim (find_slot_by_pid k pid) [
  | none ↦ (neg 1, k)
  | some slot ↦ if leb pid 1 then (neg 1, k) else (pos 0, end_process k slot)
]

-- The slot that `process_get_current` points to, `none` for NULL.
unfoldable pub process_get_current : Kernel → Option ℕ
process_get_current k = find_slot_by_pid k k.current_pid

-- What `process_entry_wrapper` does when the task returns, before it yields; `p` is what
-- `process_get_current` gave at its start.
unfoldable pub task_returned : Kernel → Option ℕ → Kernel
task_returned k none = k
task_returned k (some slot) =
    put_proc k slot (record (proc k slot) { state = ProcState.terminated; in_use = false })

unfoldable pub process_get_count : Kernel → ℕ
process_get_count k = count_if (λ p. p.in_use) k.proc_table
