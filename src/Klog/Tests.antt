-- ===== src/Klog/Tests.antt =====
-- The log of src/klog.c with two messages.
use my_misu_os.Base.{◌≡◌, List, [], ◌∷◌, ◌++◌, map, arith, take, codes}
use mathlib.Core.List.{reverse}
use my_misu_os.Klog.{KlogLevel, klog_max_entries, printed}
use my_misu_os.Klog.History.{Message, shown, view, logged, printed-logged}

abbrev two_lines : List Message
two_lines =
    record { tick = 9; level = KlogLevel.ok_level; msg = codes "fs ready" ++ 0 ∷ [] }
    ∷ record { tick = 4; level = KlogLevel.info; msg = codes "boot" ++ 0 ∷ [] }
    ∷ []

printed-logged_example :
    map view (printed (logged two_lines)) ≡ map shown (reverse (take klog_max_entries two_lines))
printed-logged_example = printed-logged two_lines (omega arith)
