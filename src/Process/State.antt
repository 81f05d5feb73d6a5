-- ===== src/Process/State.antt =====
-- The process table of src/process.c and src/process.h, and the searches in it.
use my_misu_os.Base.{
  ℕ, ◌-◌, Bool, true, false, not, ◌&&◌, Option, List, ◌∷◌, ◌==◌, get_or, set, replicate, find_from,
  codes,
}
use my_misu_os.CStrings.{strcpy}
use my_misu_os.Pmm.{Pmm}
use my_misu_os.Klog.{Klog}

abbrev pub max_processes : ℕ
max_processes = 16

abbrev pub proc_name_len : ℕ
proc_name_len = 32

abbrev pub kstack_size : ℕ
kstack_size = 4096

-- `proc_state_t`
pub data ProcState : Type 0 where
  unused running ready blocked terminated : ProcState

unfoldable pub is_ready_state : ProcState → Bool
is_ready_state ProcState.unused = false
is_ready_state ProcState.running = false
is_ready_state ProcState.ready = true
is_ready_state ProcState.blocked = false
is_ready_state ProcState.terminated = false

unfoldable pub is_blocked_state : ProcState → Bool
is_blocked_state ProcState.unused = false
is_blocked_state ProcState.running = false
is_blocked_state ProcState.ready = false
is_blocked_state ProcState.blocked = true
is_blocked_state ProcState.terminated = false

-- `process_t`; pointers are addresses, 0 for NULL.
pub record Process : Type 0 where
  pub pid : ℕ
  pub name : List ℕ
  pub state : ProcState
  pub saved_esp : ℕ
  pub kstack : ℕ
  pub esp : ℕ
  pub eip : ℕ
  pub page_directory : ℕ
  pub priority : ℕ
  pub ticks_used : ℕ
  pub created_tick : ℕ
  pub wake_tick : ℕ
  pub entry : ℕ
  pub in_use : Bool

unfoldable pub zero_process : Process
zero_process = record {
  pid = 0;
  name = replicate proc_name_len 0;
  state = ProcState.unused;
  saved_esp = 0;
  kstack = 0;
  esp = 0;
  eip = 0;
  page_directory = 0;
  priority = 0;
  ticks_used = 0;
  created_tick = 0;
  wake_tick = 0;
  entry = 0;
  in_use = false;
}

-- The registers that `pushad` saves, and where the processor stands.
pub record Cpu : Type 0 where
  pub eax : ℕ
  pub ecx : ℕ
  pub edx : ℕ
  pub ebx : ℕ
  pub ebp : ℕ
  pub esi : ℕ
  pub edi : ℕ
  pub esp : ℕ
  pub eip : ℕ

-- The static variables of process.c and timer.c, with what process.c changes of pmm.c and klog.c, of
-- the memory, by the address of a word, and of the processor. `cpu` is taken where `context_switch`
-- begins: the word at its `esp` is the return address of the call.
pub record Kernel : Type 0 where
  pub proc_table : List Process
  pub current_pid : ℕ
  pub next_pid : ℕ
  pub scheduling_enabled : Bool
  pub pmm : Pmm
  pub log : Klog
  pub memory : ℕ → ℕ
  pub cpu : Cpu
  pub tick : ℕ
  pub slice_counter : ℕ

abbrev pub proc : Kernel → ℕ → Process
proc k i = get_or k.proc_table i zero_process

abbrev pub put_proc : Kernel → ℕ → Process → Kernel
put_proc k i p = record k { proc_table = set k.proc_table i p }

-- `process_init`
abbrev pub kernel_process : Process
kernel_process = record zero_process {
  pid = 0;
  name = strcpy zero_process.name (codes "kernel");
  state = ProcState.running;
  priority = 0;
  in_use = true;
}

abbrev pub shell_process : Process
shell_process = record zero_process {
  pid = 1;
  name = strcpy zero_process.name (codes "shell");
  state = ProcState.running;
  priority = 1;
  in_use = true;
}

unfoldable pub process_init : Kernel → Kernel
unfolding zero_process
process_init k = record k {
  proc_table = kernel_process ∷ shell_process ∷ replicate (max_processes - 2) zero_process;
  current_pid = 1;
  next_pid = 2;
}

-- `find_slot_by_pid`, `none` for -1.
unfoldable pub has_pid : ℕ → Process → Bool
has_pid pid p = p.in_use && p.pid == pid

abbrev pub find_slot_by_pid : Kernel → ℕ → Option ℕ
find_slot_by_pid k pid = find_from (has_pid pid) 0 k.proc_table

-- The loop for the first slot that is not in use.
unfoldable pub is_free_slot : Process → Bool
is_free_slot p = not p.in_use

abbrev pub find_free_slot : Kernel → Option ℕ
find_free_slot k = find_from is_free_slot 0 k.proc_table
