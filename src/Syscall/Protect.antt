-- ===== src/Syscall/Protect.antt =====
-- What the calls of src/syscall.c that end a process leave alone.
use my_misu_os.Base.{
  ℕ, ◌≤◌, ◌≡◌, refl, ◌≢◌, inl, inr, false, some, arith, ltb, leb, ◌==◌, Bool-cases, Option-cases, ℤ,
  pos, pos_part, ltb_ℤ, find_from-some, get_or-set_ne, if_all,
}
use my_misu_os.Process.{
  ProcState, Kernel, zero_process, proc, has_pid, find_slot_by_pid, end_process, process_terminate,
}
use my_misu_os.Syscall.{System, Outcome, sys_exit, sys_kill}

end_process-others : (k : Kernel) (slot i : ℕ) → slot ≢ i → proc (end_process k slot) i ≡ proc k i
end_process-others k slot i ne =
    let p = record (proc k slot) { state = ProcState.terminated; in_use = false } in
    if_all (λ (r : Kernel). proc r i ≡ proc k i) ((proc k slot).kstack == 0)
      (get_or-set_ne k.proc_table p zero_process ne)
      (get_or-set_ne k.proc_table (record p { kstack = 0 }) zero_process ne)

found-other :
    (k : Kernel) (pid i : ℕ) {slot : ℕ}
    → find_slot_by_pid k pid ≡ some slot
    → (proc k i).pid ≤ 1
    → leb pid 1 ≡ false
    → slot ≢ i
unfolding has_pid
found-other k pid i {slot} e low big q =
    let (n, m, first) = find_from-some (has_pid pid) 0 k.proc_table zero_process e in
    let same : n ≡ i = omega (arith, m, q) in
    let hit = first.passes in
    let pid_eq : (proc k n).pid ≡ pid = ground arith in
    let low' : (proc k n).pid ≤ 1 = rw same low in absurd (ground arith)

-- `process_terminate` leaves every process with identifier 0 or 1 as it is.
process_terminate-protects :
    (k : Kernel) (pid i : ℕ) → (proc k i).pid ≤ 1 → proc (process_terminate k pid).1 i ≡ proc k i
unfolding process_terminate
process_terminate-protects k pid i low = elim (Option-cases (find_slot_by_pid k pid)) [
  | inl e ↦ rw (process_terminate, e) refl
  | inr (slot, e) ↦ elim (Bool-cases (leb pid 1)) [
    | inl small ↦ rw (process_terminate, e, small) refl
    | inr big ↦
        rw (process_terminate, e, big) (end_process-others k slot i (found-other k pid i e low big))
  ]
]

-- Neither `sys_kill`, of any process, nor `sys_exit` changes the entry of a process with identifier 0 or 1
-- or anything of the ramdisk.
pub sys_kill-protects :
    (s : System) (pid code : ℤ) (i : ℕ)
    → (proc s.kernel i).pid ≤ 1
    → (proc (sys_kill s pid).system.kernel i ≡ proc s.kernel i)
      × (proc (sys_exit s code).system.kernel i ≡ proc s.kernel i)
      × ((sys_kill s pid).system.fs ≡ s.fs)
      × ((sys_exit s code).system.fs ≡ s.fs)
unfolding sys_kill sys_exit
sys_kill-protects s pid code i low = (
  if_all (λ (o : Outcome). proc o.system.kernel i ≡ proc s.kernel i) (ltb_ℤ pid (pos 2)) refl
      (process_terminate-protects s.kernel (pos_part pid) i low),
  if_all (λ (o : Outcome). proc o.system.kernel i ≡ proc s.kernel i) (ltb 1 s.kernel.current_pid)
      (process_terminate-protects s.kernel s.kernel.current_pid i low) refl,
  if_all (λ (o : Outcome). o.system.fs ≡ s.fs) (ltb_ℤ pid (pos 2)) refl refl,
  if_all (λ (o : Outcome). o.system.fs ≡ s.fs) (ltb 1 s.kernel.current_pid) refl refl,
)
