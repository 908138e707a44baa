-- ===== src/ProcLib/Tests.antt =====
-- Runs of trim() of 12-system-and-process-information/proclib.c.
use linux_programming_interf.Common.{◌≡◌, refl, ◌⊎◌, none, some, ◌++◌, CString, codes}
use linux_programming_interf.ProcLib.{edge, trim}
use linux_programming_interf.ProcLib.Laws.{Spaces, StartsSolid, EndsSolid, trim-splits}

value_trimmed : trim none (codes " 12 \n") ≡ some (codes "12")
unfolding trim
value_trimmed = refl

trim-splits_example :
    (trim none (codes " 12 \n") ≡ edge none) × Spaces (codes " 12 \n")
    ⊎ (a t z : CString) × (trim none (codes " 12 \n") ≡ some t)
      × (codes " 12 \n" ≡ (a ++ t) ++ z)
      × Spaces a
      × Spaces z
      × StartsSolid t
      × EndsSolid t
trim-splits_example = trim-splits none (codes " 12 \n")
