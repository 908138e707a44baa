-- ===== src/AppendSeek/Laws.antt =====
-- Where 05-file-io-further-details/append_seek.c writes.
use linux_programming_interf.Common.{ℕ, ◌≡◌, refl, true, some, ◌++◌, arith}
use linux_programming_interf.Common.Int.{pos}
use linux_programming_interf.Files.{Calls, View, seek_set, IsRegular, IsReliable}
use linux_programming_interf.Files.Spliced.{splice_append}
use linux_programming_interf.AppendSeek.{pattern, seek_and_write}

-- On a descriptor that is open with O_APPEND the text goes behind all bytes of the file, though the
-- offset is moved to the start before.
seek_and_write-append :
    (C : Calls) (R : IsRegular C) (D : IsReliable C R) (fd : ℕ) (w : C.World) (v : View)
    → R.view w fd ≡ some v
    → v.append ≡ true
    → (v' : View) × (R.view (seek_and_write C fd w) fd ≡ some v')
      × (v'.content ≡ v.content ++ pattern)
unfolding seek_and_write
seek_and_write-append C R D fd w v e a =
    let w1 = (C.lseek fd (pos 0) seek_set w).1 in
    let (moved, e1) = R.lseek-some fd (pos 0) seek_set w e refl (omega arith) in
    let done = D.write_done fd pattern w1 e1 in
    let e2 = (R.write-some fd pattern w1 e1 done).2 (omega arith) in
    (_, e2, rw a (splice_append v.content pattern))
