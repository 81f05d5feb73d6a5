-- ===== src/Shell/Sound.antt =====
-- The output of the commands of src/shell.c keeps the system sound.
use my_misu_os.Base.{◌∙◌, true, false, Option, none, some, List, [], ◌∷◌, arith}
use my_misu_os.Keyboard.{Keyboard}
use my_misu_os.Keyboard.Ring.{IsRing}
use my_misu_os.Fs.Boot.{FsCall, fs_call}
use my_misu_os.Fs.Reachable.{fs_call-IsValid}
use my_misu_os.Process.{Kernel}
use my_misu_os.Process.Table
use my_misu_os.Vga.{
  vga_height, Terminal, put_all, vga_entry, vga_entry_color, terminal_setcolor, terminal_clear,
  terminal_update_cursor, terminal_enable_pager, terminal_disable_pager,
}
use my_misu_os.Vga.Cells.{length-fill_lines}
use my_misu_os.Vga.Screen.{IsScreen, Leaves, put_all-IsScreen}
use my_misu_os.Syscall.{System}
use my_misu_os.Syscall.Sound.{IsSound}
use my_misu_os.Syscall.Streams.{setcolor-IsScreen}
use my_misu_os.Shell.State.{Output, say, tint, clear, pager, show, perform}

terminal_clear-IsScreen : (t : Terminal) → IsScreen t → IsScreen (terminal_clear t)
unfolding terminal_clear terminal_update_cursor
terminal_clear-IsScreen t s = record {
  cells = length-fill_lines vga_height 0 (vga_entry b' ' t.color) t.buffer ∙ s.cells;
  row_lt = omega arith;
  column_lt = omega arith;
}

pager-IsScreen :
    (t : Terminal)
    → IsScreen t
    → IsScreen (terminal_enable_pager t) × IsScreen (terminal_disable_pager t)
unfolding terminal_enable_pager terminal_disable_pager
pager-IsScreen t s = (
  record { cells = s.cells; row_lt = s.row_lt; column_lt = s.column_lt },
  record { cells = s.cells; row_lt = s.row_lt; column_lt = s.column_lt },
)

then_show :
    (left : Option (Terminal × Keyboard)) (rest : List Output)
    → Leaves left
    → ((t : Terminal) (k : Keyboard) → IsScreen t → IsRing k → Leaves (show rest t k))
    → Leaves (elim left [ none ↦ none | some (t', k') ↦ show rest t' k' ])
unfolding Leaves
then_show none rest l more = tt
then_show (some (t', k')) rest (s, r) more = more t' k' s r

show-IsScreen :
    (out : List Output) (t : Terminal) (k : Keyboard)
    → IsScreen t
    → IsRing k
    → Leaves (show out t k)
unfolding show Leaves
show-IsScreen [] t k s r = (s, r)
show-IsScreen (say text ∷ rest) t k s r =
    then_show (put_all t k text) rest (put_all-IsScreen text t k s r)
      (λ t' k' s' r'. show-IsScreen rest t' k' s' r')
show-IsScreen (tint front back ∷ rest) t k s r =
    show-IsScreen rest (terminal_setcolor t (vga_entry_color front back)) k
      (setcolor-IsScreen t (vga_entry_color front back) s) r
show-IsScreen (clear ∷ rest) t k s r =
    show-IsScreen rest (terminal_clear t) k (terminal_clear-IsScreen t s) r
show-IsScreen (pager true ∷ rest) t k s r =
    show-IsScreen rest (terminal_enable_pager t) k (pager-IsScreen t s).0 r
show-IsScreen (pager false ∷ rest) t k s r =
    show-IsScreen rest (terminal_disable_pager t) k (pager-IsScreen t s).1 r

-- What a command leaves, if it comes to its end.
unfoldable pub Ends : Option System → Type 0
Ends none = Unit
Ends (some s) = IsSound s

after_show :
    (s : System) (left : Option (Terminal × Keyboard))
    → IsSound s
    → Leaves left
    → Ends
        (elim left [ none ↦ none | some (t, k) ↦ some (record s { terminal = t; keyboard = k }) ])
unfolding Leaves Ends
after_show s none v l = tt
after_show s (some (t, k)) v (on, r) = record {
  fs = v.fs;
  kernel = v.kernel;
  keyboard = r;
  terminal = on;
}

pub perform-Ends : (left : System × List Output) → IsSound left.0 → Ends (perform left)
unfolding perform
perform-Ends (s, out) v =
    after_show s (show out s.terminal s.keyboard) v
      (show-IsScreen out s.terminal s.keyboard v.terminal v.keyboard)

pub keep_files :
    (s : System) (c : FsCall) → IsSound s → IsSound (record s { fs = fs_call s.fs s.kernel.tick c })
keep_files s c v = record {
  fs = fs_call-IsValid s.fs s.kernel.tick c v.fs;
  kernel = v.kernel;
  keyboard = v.keyboard;
  terminal = v.terminal;
}

pub keep_kernel :
    (s : System) (k : Kernel) → IsSound s → Table.IsValid k → IsSound (record s { kernel = k })
keep_kernel s k v v' = record {
  fs = v.fs;
  kernel = v';
  keyboard = v.keyboard;
  terminal = v.terminal;
}
