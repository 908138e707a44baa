-- ===== src/Files/Ram.antt =====
-- Files in memory, which meet the assumptions on the calls: reads and writes are whole.
use linux_programming_interf.Common.{
  ℕ, zero, suc, ◌+◌, ◌≤◌, ◌<◌, ◌≡◌, refl, ap, true, Option, none, some, List, [], ◌∷◌, CString,
  arith, ◌==◌, length, take, drop, if◌then◌else◌, length-take, length-drop, take_all,
}
use mathlib.Core.Path.{subst}
use mathlib.Core.Option.{some-injective}
use linux_programming_interf.Common.Int.{ℤ}
use linux_programming_interf.Files.{
  Calls, View, Whence, written, seek, IsRegular, IsReliable, IsFull,
}

abbrev pub Ram : Type 0
Ram = ℕ → Option View

-- What the law of a read says of the bytes.
abbrev pub Reads : ℕ → ℕ → View → Ram → List ℕ → Type 0
Reads fd n v w bs =
    (length bs ≤ n)
    × (bs ≡ take (length bs) (drop v.offset v.content))
    × (0 < n → bs ≡ [] → length v.content ≤ v.offset)
    × (w fd ≡ some (record v { offset = v.offset + length bs }))

take_taken : (n : ℕ) (d : List ℕ) → take n d ≡ take (length (take n d)) d
take_taken zero d = refl
take_taken (suc n) [] = refl
take_taken (suc n) (x ∷ d) = ap (λ t. x ∷ t) (take_taken n d)

abbrev pub update : Ram → ℕ → Option View → Ram
update w fd v g = if g == fd then v else w g

abbrev pub read_view : ℕ → ℕ → Ram → Option View → Option (List ℕ) × Ram
read_view fd n w none = (none, w)
read_view fd n w (some v) =
    let bs = take n (drop v.offset v.content) in
    (some bs, update w fd (some (record v { offset = v.offset + length bs })))

abbrev pub write_view : ℕ → List ℕ → Ram → Option View → Option ℕ × Ram
write_view fd bs w none = (none, w)
write_view fd [] w (some v) = (some 0, w)
write_view fd (b ∷ bs) w (some v) =
    (some (suc (length bs)), update w fd (some (written v (b ∷ bs))))

abbrev pub move : ℕ → View → Option ℕ → Ram → Option ℕ × Ram
move fd v none w = (none, w)
move fd v (some p) w = (some p, update w fd (some (record v { offset = p })))

abbrev pub lseek_view : ℕ → ℤ → Whence → Ram → Option View → Option ℕ × Ram
lseek_view fd off whence w none = (none, w)
lseek_view fd off whence w (some v) = move fd v (seek v off whence) w

pub read_view-Reads :
    (fd n : ℕ) (w : Ram) {v : View} {bs : List ℕ}
    → w fd ≡ some v
    → (read_view fd n w (w fd)).0 ≡ some bs
    → Reads fd n v (read_view fd n w (w fd)).1 bs
read_view-Reads fd n w {v} {bs} is e =
    let d = drop v.offset v.content in
    let got : take n d ≡ bs = some-injective _ _ (rw is at e) in
    let short = length-take n d in
    let left = length-drop v.offset v.content in
    let stop : 0 < n → take n d ≡ [] → length v.content ≤ v.offset =
      λ h e. omega (arith, ap length e) in
    let read' : Reads fd n v (read_view fd n w (some v)).1 (take n d) =
      (omega arith, take_taken n d, stop, ground arith) in
    rw is (subst (λ l. Reads fd n v (read_view fd n w (some v)).1 l) got read')

pub write_view-law :
    (fd : ℕ) (bs : List ℕ) (w : Ram) {v : View} {n : ℕ}
    → w fd ≡ some v
    → (write_view fd bs w (w fd)).0 ≡ some n
    → (n ≤ length bs)
      × ((n ≡ 0) → (write_view fd bs w (w fd)).1 fd ≡ some v)
      × (0 < n → (write_view fd bs w (w fd)).1 fd ≡ some (written v (take n bs)))
write_view-law fd [] w {v} {n} is e =
    let got : 0 ≡ n = some-injective _ _ (rw is at e) in
    rw is (omega arith, λ _. is, λ h. absurd (omega arith))
write_view-law fd (b ∷ bs) w {v} {n} is e =
    let got : suc (length bs) ≡ n = some-injective _ _ (rw is at e) in
    let all : take n (b ∷ bs) ≡ b ∷ bs = take_all n (b ∷ bs) (omega arith) in
    rw is (omega arith, λ z. absurd (omega arith), λ _. rw all (ground arith))

pub read_whole :
    (fd n : ℕ) (w : Ram) (v : View)
    → w fd ≡ some v
    → (read_view fd n w (w fd)).0 ≡ some (take n (drop v.offset v.content))
read_whole fd n w v is = rw is

write_whole :
    (fd : ℕ) (bs : List ℕ) (w : Ram) {v : View}
    → w fd ≡ some v
    → (write_view fd bs w (w fd)).0 ≡ some (length bs)
write_whole fd [] w is = rw is
write_whole fd (b ∷ bs) w is = rw is

module _ (open_file : CString → ℕ → ℕ → Ram → Option ℕ × Ram) where
  abbrev pub ram : Calls
  ram = record {
    World = Ram;
    open_file = open_file;
    read = λ fd n w. read_view fd n w (w fd);
    write = λ fd bs w. write_view fd bs w (w fd);
    lseek = λ fd off whence w. lseek_view fd off whence w (w fd);
    close = λ fd w. (true, update w fd none);
    print = λ o w. w;
  }

  abbrev pub ram-IsRegular : IsRegular ram
  ram-IsRegular = record {
    view = λ w. w;
    read-some = λ fd n w is e. read_view-Reads fd n w is e;
    write-some = λ fd bs w is e. write_view-law fd bs w is e;
    lseek-some = λ fd off whence w open' e small. ground arith;
    lseek-none = λ fd off whence w open' e. ground arith;
    read-frame = λ fd n g w ne. ground arith;
    read-none = λ fd n w e. ground arith;
    write-frame = λ fd g bs w ne. ground arith;
    write-none = λ fd bs w e. ground arith;
    lseek-frame = λ fd g off whence w ne. ground arith;
    print-frame = λ o w g. refl;
  }

  pub ram-IsReliable : IsReliable ram ram-IsRegular
  ram-IsReliable = record {
    read_done = λ fd n w is e. ground arith;
    write_done = λ fd bs w is. write_whole fd bs w is;
  }

  abbrev pub ram-IsFull : IsFull ram ram-IsRegular
  ram-IsFull = record { read_full = λ fd n w {v} is. read_whole fd n w v is }
