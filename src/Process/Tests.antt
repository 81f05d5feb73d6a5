-- ===== src/Process/Tests.antt =====
-- The processes of src/process.c after `process_init`, and a task that is started, switched to and ended.
use my_misu_os.Base.{
  ℕ, zero, suc, ◌+◌, ◌-◌, ◌%◌, ◌≤◌, ◌<◌, ◌≡◌, refl, ◌≢◌, ◌⊎◌, true, false, none, some, [], ◌∷◌,
  arith, length, signed32, find_from, codes, get_or-replicate_all,
}
use my_misu_os.CStrings.{strncpy}
use my_misu_os.Pmm.{pmm_alloc_page, free_page_from, clear_bit_from, test_in}
use my_misu_os.Klog.{klog_init}
use my_misu_os.Process.{
  pushad, push_all, store, down, Process, Cpu, Kernel, zero_process, max_processes, kstack_size,
  proc, process_init, find_slot_by_pid, is_free_slot, find_free_slot, process_create,
  process_create_kernel, context_switch, pushad, push_all, store, down, current_slot, schedule,
  is_ready, has_pid,
}
use my_misu_os.Process.Table.{IsTable, IsValid}
use my_misu_os.Process.State.{is_ready_state}
use my_misu_os.Process.Calls.{
  KernelCall, kernel_call, kernel_call-IsValid, process_create_kernel-found,
}
use my_misu_os.Process.Schedule.{IsNext, IsSwitched, is_ready_at, schedule-round_robin}
use my_misu_os.Process.Fairness.{schedules, schedule-fair}
use my_misu_os.Process.Switch.{process_create_kernel-starts, context_switch-resumes}

abbrev pub cpu0 : Cpu
cpu0 = record {
  eax = 1;
  ecx = 2;
  edx = 3;
  ebx = 4;
  ebp = 5;
  esi = 6;
  edi = 7;
  esp = 0x9000;
  eip = 0;
}

abbrev pub static_state : Kernel
static_state = record {
  proc_table = [];
  current_pid = 0;
  next_pid = 1;
  scheduling_enabled = true;
  pmm = record { bitmap = 239 ∷ []; total_pages = 8; used_pages = 7 };
  log = klog_init;
  memory = λ a. a + 1;
  cpu = cpu0;
  tick = 12;
  slice_counter = 0;
}

abbrev pub two : Kernel
two = process_init static_state

in_use_lt : (i : ℕ) → (proc two i).in_use ≡ true → ((proc two i).pid ≡ i) × (i < 2)
unfolding process_init zero_process
in_use_lt zero u = (refl, omega arith)
in_use_lt (suc zero) u = (refl, omega arith)
in_use_lt (suc (suc i)) u = absurd (
    cc (
      u,
      get_or-replicate_all (λ (p : Process). p.in_use ≡ false) 14 i zero_process zero_process refl
          refl,
    ))

two_len : length two.proc_table ≡ max_processes
unfolding process_init
two_len = refl

two_IsTable : IsTable two.proc_table 2
two_IsTable = record {
  slots = two_len;
  fresh = λ i u. (let (e, l) = in_use_lt i u in omega arith);
  distinct = λ i j u v q.
      let (e, l) = in_use_lt i u in let (e', l') = in_use_lt j v in omega (arith, e, e', q);
}

pub two-IsValid : IsValid two
unfolding IsValid process_init
two-IsValid = two_IsTable

two_free : find_free_slot two ≡ some 2
unfolding process_init find_from is_free_slot zero_process
two_free = refl

two_next : two.next_pid ≡ 2
unfolding process_init
two_next = refl

two_on : two.scheduling_enabled ≡ true
unfolding process_init
two_on = refl

two_page : (pmm_alloc_page two.pmm).0 ≢ 0
unfolding process_init pmm_alloc_page free_page_from clear_bit_from test_in
two_page = λ e. absurd (omega (arith, e))

kernel_call-IsValid_example : IsValid (kernel_call two (KernelCall.terminate 1))
kernel_call-IsValid_example =
    kernel_call-IsValid two (KernelCall.terminate 1) (omega (arith, two_next)) two-IsValid

process_create_kernel-found_example :
    (find_slot_by_pid two two.next_pid ≡ none)
    × ((process_create_kernel two 0x100000 (codes "worker") 0x200000).0 ≡ signed32 two.next_pid)
    × (find_slot_by_pid
          (process_create_kernel two 0x100000 (codes "worker") 0x200000).1
          two.next_pid
        ≡ some 2)
process_create_kernel-found_example =
    process_create_kernel-found two 0x100000 (codes "worker") 0x200000 2 (omega (arith, two_next))
      two-IsValid two_free two_page

abbrev three : Kernel
three = (process_create two (codes "worker") 1).1

three_len : length three.proc_table ≡ max_processes
unfolding process_create process_init find_from is_free_slot zero_process strncpy
three_len = refl

three_on : three.scheduling_enabled ≡ true
unfolding process_create process_init find_from is_free_slot zero_process
three_on = refl

schedule-round_robin_example :
    ((schedule three ≡ three)
      × ((d : ℕ)
          → 1 ≤ d
          → d < max_processes
          → is_ready_at three.proc_table (current_slot three) d ≡ false))
    ⊎ (d : ℕ) × (d < max_processes)
      × IsNext three.proc_table (current_slot three) 1 d
      × IsSwitched three
          (schedule three)
          (current_slot three)
          ((current_slot three + d) % max_processes)
schedule-round_robin_example = schedule-round_robin three three_len three_on

three-IsValid : IsValid three
unfolding process_create kernel_call
three-IsValid =
    kernel_call-IsValid two (KernelCall.create (codes "worker") 1) (omega (arith, two_next))
      two-IsValid

third_ready : is_ready (proc three 2) ≡ true
unfolding process_create process_init find_from is_free_slot zero_process is_ready is_ready_state
third_ready = refl

three_current : find_slot_by_pid three three.current_pid ≡ some 1
unfolding process_create process_init find_from is_free_slot zero_process has_pid
three_current = refl

schedule-fair_example :
    (n : ℕ) × (n < max_processes) × ((schedules n three).current_pid ≡ (proc three 2).pid)
schedule-fair_example =
    schedule-fair three 2 1 three-IsValid three_on three_current (omega arith) third_ready

-- The task that is made in slot 2, and the shell, which runs.
abbrev made : Kernel
made = (process_create_kernel two 0x100000 (codes "worker") 0x200000).1

page_eq : (pmm_alloc_page two.pmm).0 ≡ 0x4000
unfolding process_init pmm_alloc_page free_page_from clear_bit_from test_in
page_eq = refl

below_stack : (memory : ℕ → ℕ) (x : ℕ) → x < 0x8000 → (pushad memory cpu0).0 x ≡ memory x
unfolding pushad push_all store down
below_stack memory x lt = ground arith

made_cpu : made.cpu ≡ cpu0
unfolding process_create_kernel process_init find_from is_free_slot zero_process pmm_alloc_page
    free_page_from clear_bit_from test_in
made_cpu = refl

stack_kept :
    (esp x : ℕ)
    → (pmm_alloc_page two.pmm).0 + kstack_size - 36 ≤ x
    → x < (pmm_alloc_page two.pmm).0 + kstack_size
    → (context_switch made 1 esp).memory x ≡ made.memory x
unfolding context_switch
stack_kept esp x lo hi = rw made_cpu (below_stack made.memory x (omega (arith, hi, page_eq)))

process_create_kernel-starts_example :
    (context_switch made 1 (proc made 2).saved_esp).cpu ≡ record {
      eax = 0;
      ecx = 0;
      edx = 0;
      ebx = 0;
      ebp = 0;
      esi = 0;
      edi = 0;
      esp = (pmm_alloc_page two.pmm).0 + kstack_size;
      eip = 0x100000;
    }
process_create_kernel-starts_example =
    process_create_kernel-starts two made 0x100000 (codes "worker") 0x200000 2 1 two_free two_page
      (omega (arith, page_eq)) (stack_kept (proc made 2).saved_esp)

-- The task in slot 2, on a stack of its own, after the shell has been switched away from.
abbrev away : Kernel
away = context_switch two 1 0x4000

abbrev task : Kernel
task = record away { cpu = record cpu0 { esp = 0x7000 } }

untouched :
    (memory : ℕ → ℕ) (x : ℕ)
    → 0x9000 - 32 ≤ x
    → (pushad memory (record cpu0 { esp = 0x7000 })).0 x ≡ memory x
unfolding pushad push_all store down
untouched memory x lo = ground arith

untouched_switch :
    (esp x : ℕ)
    → two.cpu.esp - 32 ≤ x
    → x < two.cpu.esp + 4
    → (context_switch task 2 esp).memory x ≡ away.memory x
unfolding context_switch process_init
untouched_switch esp x lo hi = untouched away.memory x lo

two_esp : two.cpu.esp ≡ 0x9000
unfolding process_init
two_esp = refl

context_switch-resumes_example :
    (context_switch task 2 (proc away 1).saved_esp).cpu
    ≡ record two.cpu { eip = two.memory two.cpu.esp; esp = two.cpu.esp + 4 }
context_switch-resumes_example =
    context_switch-resumes two task 1 2 0x4000 (omega (arith, two_len)) (omega (arith, two_esp))
      (omega (arith, two_esp)) (untouched_switch (proc away 1).saved_esp)
