-- ===== src/Shell/KeptTasks.antt =====
-- The commands of src/shell.c on processes and numbers keep the system sound.
use my_misu_os.Base.{
  ℕ, ◌+◌, ◌^◌, ◌≤◌, ◌<◌, inl, inr, not, ◌&&◌, Option, none, some, List, arith, ltb, leb, ◌==◌,
  Bool-cases, Option-cases, length, get_or, ℤ, pos, is_neg, ltb_ℤ, eq_ℤ, pattern32, codes, if_all,
}
use my_misu_os.CStrings.{atoi}
use my_misu_os.Process.Table.{IsValid}
use my_misu_os.Shell.{tell_spawned, tell_result, perform_some}
use my_misu_os.Pmm.{pmm_alloc_page}
use my_misu_os.Process.{Kernel, process_create_kernel, process_terminate, find_free_slot}
use my_misu_os.Process.Calls.{process_create_kernel-IsValid, process_terminate-IsValid}
use my_misu_os.Process.Table
use my_misu_os.Syscall.{System}
use my_misu_os.Syscall.Sound.{IsSound}
use my_misu_os.Shell.{
  Output, arg, Addresses, is_text, cmd_spawn, spawn_tasks, cmd_kill, show_alloc, cmd_calc,
  set_color, calculate,
}
use my_misu_os.Shell.Sound.{Ends, perform-Ends, keep_kernel}
use my_misu_os.Shell.Kept.{IsKept}

next_pid-le :
    (k : Kernel) (wrapper : ℕ) (name : List ℕ) (fn : ℕ)
    → k.next_pid + 1 < 2 ^ 32
    → (process_create_kernel k wrapper name fn).1.next_pid ≤ k.next_pid + 1
unfolding process_create_kernel
next_pid-le k wrapper name fn room = elim (Option-cases (find_free_slot k)) [
  | inl e ↦ rw (process_create_kernel, e) (omega arith)
  | inr (slot, e) ↦ elim (Bool-cases ((pmm_alloc_page k.pmm).0 == 0)) [
    | inl zero_page ↦ rw (process_create_kernel, e, zero_page) (omega arith)
    | inr page ↦ rw (process_create_kernel, e, page) (omega arith)
  ]
]

-- What a start of tasks leaves, if the name is known.
unfoldable pub Starts : Option (ℤ × Kernel) → Type 0
Starts none = Unit
Starts (some (pid, k)) = Table.IsValid k

spawn_tasks-Starts :
    (a : Addresses) (k : Kernel) (name : List ℕ)
    → k.next_pid + 3 < 2 ^ 32
    → Table.IsValid k
    → Starts (spawn_tasks a k name)
unfolding spawn_tasks Starts
spawn_tasks-Starts a k name room v =
    let started = λ (name : List ℕ) (fn : ℕ).
      process_create_kernel-IsValid k a.wrapper name fn (omega arith) v in
    let le = next_pid-le k a.wrapper (codes "counter") a.counter_task (omega arith) in
    let first = (process_create_kernel k a.wrapper (codes "counter") a.counter_task).1 in
    let second = (process_create_kernel first a.wrapper (codes "spinner") a.spinner_task).1 in
    let v1 = started (codes "counter") a.counter_task in
    let v2 =
      process_create_kernel-IsValid first a.wrapper (codes "spinner") a.spinner_task
        (omega (arith, le)) v1 in
    let le2 = next_pid-le first a.wrapper (codes "spinner") a.spinner_task (omega (arith, le)) in
    if_all Starts (is_text name (codes "counter")) v1 (
      if_all Starts (is_text name (codes "spinner")) (started (codes "spinner") a.spinner_task) (
        if_all Starts (is_text name (codes "ticker")) (started (codes "ticker") a.ticker_task) (
          if_all Starts (is_text name (codes "all"))
            (process_create_kernel-IsValid second a.wrapper (codes "ticker") a.ticker_task
              (omega (arith, le, le2)) v2)
            tt)))

pub tell_spawned-IsKept :
    (s : System) (name : List ℕ) (started : Option (ℤ × Kernel))
    → IsSound s
    → Starts started
    → IsKept (tell_spawned s name started)
unfolding Starts tell_spawned
tell_spawned-IsKept s name none v r = v
tell_spawned-IsKept s name (some (pid, k)) v r =
    if_all IsKept (is_neg pid) (keep_kernel s k v r) (keep_kernel s k v r)

pub cmd_spawn-IsKept :
    (a : Addresses) (s : System) (argv : List (List ℕ))
    → s.kernel.next_pid + 3 < 2 ^ 32
    → IsSound s
    → IsKept (cmd_spawn a s argv)
unfolding cmd_spawn
cmd_spawn-IsKept a s argv room v = if_all IsKept (ltb (length argv) 2) v (
    tell_spawned-IsKept s (arg argv 1) (spawn_tasks a s.kernel (arg argv 1)) v
      (spawn_tasks-Starts a s.kernel (arg argv 1) room v.kernel))

pub cmd_kill-IsKept : (s : System) (argv : List (List ℕ)) → IsSound s → IsKept (cmd_kill s argv)
unfolding cmd_kill
cmd_kill-IsKept s argv v =
    let p = pattern32 (atoi (arg argv 1)) in
    let (rc, k) = process_terminate s.kernel p in
    let killed = keep_kernel s k v (process_terminate-IsValid s.kernel p v.kernel) in
    if_all IsKept (ltb (length argv) 2) v
      (if_all IsKept (leb p 1) v (if_all IsKept (eq_ℤ rc (pos 0)) killed killed))

pub show_alloc-IsKept : (s : System) → IsSound s → IsKept (show_alloc s)
unfolding show_alloc IsValid
show_alloc-IsKept s v =
    let (a, pmm) = pmm_alloc_page s.kernel.pmm in
    let kept = keep_kernel s (record s.kernel { pmm = pmm }) v v.kernel in
    if_all IsKept (a == 0) kept kept

pub set_color-IsKept : (s : System) (argv : List (List ℕ)) → IsSound s → IsKept (set_color s argv)
unfolding set_color
set_color-IsKept s argv v =
    let front = atoi (arg argv 1) in
    let back = atoi (arg argv 2) in
    if_all IsKept (ltb (length argv) 3) v (
      if_all IsKept
        (not (is_neg front) && ltb_ℤ front (pos 16) && not (is_neg back) && ltb_ℤ back (pos 16)) v
        v)

pub tell_result-Ends :
    (s : System) (a b : ℤ) (op : ℕ) (r : Option (Option ℤ))
    → IsSound s
    → Ends (perform_some (tell_result s a op b r))
unfolding tell_result perform_some Ends
tell_result-Ends s a b op none v = tt
tell_result-Ends s a b op (some none) v = perform-Ends _ v
tell_result-Ends s a b op (some (some r)) v = perform-Ends _ v

pub cmd_calc-Ends :
    (s : System) (argv : List (List ℕ)) → IsSound s → Ends (perform_some (cmd_calc s argv))
unfolding cmd_calc perform_some
cmd_calc-Ends s argv v =
    let P : Option (System × List Output) → Type 0 = λ left. Ends (perform_some left) in
    let a = atoi (arg argv 1) in
    let b = atoi (arg argv 3) in
    let op = get_or (arg argv 2) 0 0 in
    if_all P (ltb (length argv) 4) (perform-Ends _ v) (
      if_all P (op == b'/' && eq_ℤ b (pos 0)) (perform-Ends _ v)
        (tell_result-Ends s a b op (calculate a op b) v))
