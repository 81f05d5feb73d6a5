-- ===== src/Process/Create.antt =====
-- How src/process.c makes a process, with the first stack of a kernel task.
use my_misu_os.Base.{
  ℕ, zero, suc, ◌+◌, ◌-◌, ◌%◌, ◌^◌, true, none, some, List, [], ◌∷◌, ◌==◌, if◌then◌else◌, set, ℤ,
  neg, signed32, codes,
}
use my_misu_os.CStrings.{strncpy}
use my_misu_os.Pmm.{Pmm, pmm_alloc_page}
use my_misu_os.Klog.{KlogLevel, klog}
use my_misu_os.Process.State.{
  proc_name_len, kstack_size, ProcState, Process, Kernel, proc, put_proc, find_free_slot,
}

unfoldable pub copy_proc_name : List ℕ → List ℕ → List ℕ
copy_proc_name dest name = set (strncpy dest name (proc_name_len - 1)) (proc_name_len - 1) 0

abbrev pub new_process : Kernel → ℕ → List ℕ → ℕ → Process
new_process k slot name priority = record (proc k slot) {
  pid = k.next_pid;
  name = copy_proc_name (proc k slot).name name;
  state = ProcState.ready;
  priority = priority;
  ticks_used = 0;
  created_tick = k.tick;
  wake_tick = 0;
  kstack = 0;
  entry = 0;
  in_use = true;
}

unfoldable pub process_create : Kernel → List ℕ → ℕ → ℤ × Kernel
process_create k name priority = elim (find_free_slot k) [
  | none ↦ (neg 1, k)
  | some slot ↦ (
    signed32 k.next_pid,
    record (put_proc k slot (new_process k slot name priority)) {
      next_pid = (k.next_pid + 1) % 2 ^ 32;
    },
  )
]

-- A word is stored below the stack pointer.
unfoldable pub store : (ℕ → ℕ) → ℕ → ℕ → ℕ → ℕ
store memory a v x = if x == a then v else memory x

unfoldable pub down : ℕ → ℕ
down sp = (sp + (2 ^ 32 - 4)) % 2 ^ 32

unfoldable pub push_all : List ℕ → (ℕ → ℕ) × ℕ → (ℕ → ℕ) × ℕ
push_all [] ms = ms
push_all (v ∷ vs) ms = push_all vs (store ms.0 (down ms.1) v, down ms.1)

-- `for (int i = 0; i < n; i++) *(--sp) = 0;`
unfoldable pub push_zeros : ℕ → (ℕ → ℕ) × ℕ → (ℕ → ℕ) × ℕ
push_zeros zero ms = ms
push_zeros (suc n) ms = push_zeros n (store ms.0 (down ms.1) 0, down ms.1)

-- The first stack of a process: the words that `context_switch` pops, and the stack pointer.
unfoldable pub first_stack : (ℕ → ℕ) → ℕ → ℕ → (ℕ → ℕ) × ℕ
first_stack memory stack wrapper =
    let top = (stack + kstack_size) % 2 ^ 32 in
    push_zeros 8 (store memory (down top) wrapper, down top)

-- The slot as `process_create_kernel` leaves it.
abbrev pub new_kernel_process : Kernel → ℕ → List ℕ → ℕ → ℕ → ℕ → Process
new_kernel_process k slot name fn stack wrapper = record (new_process k slot name 1) {
  kstack = stack;
  entry = fn;
  saved_esp = (first_stack k.memory stack wrapper).1;
}

-- The rest of `process_create_kernel`, with the slot and the page for the stack.
abbrev pub spawn : Kernel → Pmm → ℕ → List ℕ → ℕ → ℕ → ℕ → ℤ × Kernel
spawn k pmm slot name fn stack wrapper = (
  signed32 k.next_pid,
  record (put_proc k slot (new_kernel_process k slot name fn stack wrapper)) {
    next_pid = (k.next_pid + 1) % 2 ^ 32;
    pmm = pmm;
    memory = (first_stack k.memory stack wrapper).0;
    log = klog k.log k.tick KlogLevel.info (codes "process spawned");
  },
)

-- `wrapper` is the address of `process_entry_wrapper`, which the linker chooses.
unfoldable pub process_create_kernel : Kernel → ℕ → List ℕ → ℕ → ℤ × Kernel
process_create_kernel k wrapper name fn =
    let (stack, pmm) = pmm_alloc_page k.pmm in
    elim (find_free_slot k) [
      | none ↦ (neg 1, k)
      | some slot ↦
          if stack == 0
          then (neg 1, record k { pmm = pmm })
          else spawn k pmm slot name fn stack wrapper
    ]
