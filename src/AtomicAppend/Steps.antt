-- ===== src/AtomicAppend/Steps.antt =====
-- Two instances of 05-file-io-further-details/atomic_append.c on one file, one system call at a
-- time.
use linux_programming_interf.Common.{
  ℕ, zero, suc, ◌+◌, ◌≡◌, refl, ap, ◌∙◌, Bool, true, false, Option, none, some, arith, ltb,
  if◌then◌else◌, ◌↔◌, ◌≤◌, ◌<◌, ◌^◌, ◌-◌,
}

-- An instance in its loop: the rounds that are left, whether the lseek() of this round is done,
-- and the file offset. The int that counts the rounds does not overflow where less than 2 ^ 31 are
-- left at the start.
pub data Instance : Type 0 where
  looping : ℕ → Bool → ℕ → Instance

abbrev pub left : Instance → ℕ
left (looping n at_end offset) = n

-- The size of the file after a write of one byte at the offset.
abbrev pub grown : ℕ → ℕ → ℕ
grown size offset = if ltb offset size then size else offset + 1

-- The kernel's calls on a file that is shared: the offset that lseek() to SEEK_END gives for a size,
-- and the size and offset behind a write() of one byte, with or without O_APPEND.
pub record SharedFile : Type 0 where
  pub seek_to_end : ℕ → ℕ
  pub write_byte : Bool → ℕ → ℕ → ℕ × ℕ

-- lseek(2) and write(2): the end is the size, with O_APPEND the offset is set to the end in one step
-- with the write, and without it the write is at the offset.
pub record IsShared (K : SharedFile) : Type 0 where
  pub seek_done : (size : ℕ) → K.seek_to_end size ≡ size
  pub append_done : (size offset : ℕ) → K.write_byte true size offset ≡ (size + 1, size + 1)
  pub write_done :
      (size offset : ℕ) → K.write_byte false size offset ≡ (grown size offset, offset + 1)

-- The next call of an instance, on the size of the file; none is left after the last round.
unfoldable pub act : SharedFile → Bool → ℕ → Instance → Option (ℕ × Instance)
act K append size (looping zero at_end offset) = none
act K true size (looping (suc n) at_end offset) =
    let (size', offset') = K.write_byte true size offset in some (size', looping n at_end offset')
act K false size (looping (suc n) false offset) =
    some (size, looping (suc n) true (K.seek_to_end size))
act K false size (looping (suc n) true offset) =
    let (size', offset') = K.write_byte false size offset in some (size', looping n false offset')

pub record System : Type 0 where
  pub size : ℕ
  pub first : Instance
  pub second : Instance

-- The instances take their calls in any order.
pub data Reaches (K : SharedFile) (append : Bool) (s : System) : System → Type 0 where
  start : Reaches K append s s
  first_acts :
      {t : System} {n : ℕ} {p : Instance}
      → Reaches K append s t
      → act K append t.size t.first ≡ some (n, p)
      → Reaches K append s (record t { size = n; first = p })
  second_acts :
      {t : System} {n : ℕ} {p : Instance}
      → Reaches K append s t
      → act K append t.size t.second ≡ some (n, p)
      → Reaches K append s (record t { size = n; second = p })

-- Two instances that are to write one byte each.
abbrev pub one_each : ℕ → System
one_each size = record { size = size; first = looping 1 false 0; second = looping 1 false 0 }

abbrev pub finished : ℕ → System
finished size = record { size = size; first = looping 0 false size; second = looping 0 false size }

-- When lseek() and write() do as documented on a shared file, without O_APPEND a byte can be lost: on
-- a file of any size, two instances that each write one byte can finish with a file that is one byte
-- longer.
pub Reaches-lost :
    (K : SharedFile)
    → IsShared K
    → (size : ℕ) → Reaches K false (one_each size) (finished (size + 1))
unfolding act
Reaches-lost K D size =
    let end : K.write_byte false size size ≡ (size + 1, size + 1) =
      D.write_done size size ∙ ap (λ k. (k, size + 1)) (ground arith) in
    let over : K.write_byte false (size + 1) size ≡ (size + 1, size + 1) =
      D.write_done (size + 1) size ∙ ap (λ k. (k, size + 1)) (ground arith) in
    let to_end = λ (n : ℕ).
      ap {B = Option (ℕ × Instance)} (λ o. some (size, looping n true o)) (D.seek_done size) in
    let both : Reaches K false (one_each size)
        (record { size = size; first = looping 1 true size; second = looping 1 true size }) =
      second_acts (first_acts start (to_end 1)) (to_end 1) in
    let one : Reaches K false (one_each size) (record {
      size = size + 1;
      first = looping 0 false (size + 1);
      second = looping 1 true size;
    }) =
      first_acts both (ap (λ k. some (k.0, looping 0 false k.1)) end) in
    second_acts one (ap (λ k. some (k.0, looping 0 false k.1)) over)

-- The calls that an instance has left, and a system.
abbrev pub calls_left : Bool → Instance → ℕ
calls_left true (looping n at_end offset) = n
calls_left false (looping n true offset) = n + n - 1
calls_left false (looping n false offset) = n + n

abbrev pub due : Bool → System → ℕ
due append s = calls_left append s.first + calls_left append s.second

-- The calls of a run.
unfoldable pub calls : {K : SharedFile} {append : Bool} {s t : System} → Reaches K append s t → ℕ
calls start = 0
calls (first_acts before e) = suc (calls before)
calls (second_acts before e) = suc (calls before)

act_calls :
    (K : SharedFile) (append : Bool) (size n : ℕ) (p p' : Instance)
    → act K append size p ≡ some (n, p')
    → suc (calls_left append p') ≡ calls_left append p
unfolding act
act_calls K append size n (looping zero at_end offset) p' e = absurd (ground arith)
act_calls K true size n (looping (suc m) at_end offset) p' e =
    let left_of : Option (ℕ × Instance) → ℕ =
      λ o. elim o [ none ↦ 0 | some (k, p) ↦ calls_left true p ] in
    omega (arith, ap left_of e)
act_calls K false size n (looping (suc m) false offset) p' e =
    let left_of : Option (ℕ × Instance) → ℕ =
      λ o. elim o [ none ↦ 0 | some (k, p) ↦ calls_left false p ] in
    omega (arith, ap left_of e)
act_calls K false size n (looping (suc m) true offset) p' e =
    let left_of : Option (ℕ × Instance) → ℕ =
      λ o. elim o [ none ↦ 0 | some (k, p) ↦ calls_left false p ] in
    omega (arith, ap left_of e)

act_stops :
    (K : SharedFile) (append : Bool) (size : ℕ) (p : Instance)
    → (calls_left append p ≡ 0) ↔ (act K append size p ≡ none)
unfolding act
act_stops K true size (looping zero at_end offset) = (λ e. refl, λ e. refl)
act_stops K false size (looping zero true offset) = (λ e. refl, λ e. refl)
act_stops K false size (looping zero false offset) = (λ e. refl, λ e. refl)
act_stops K true size (looping (suc m) at_end offset) =
    (λ e. absurd (omega (arith, e)), λ e. absurd (cc))
act_stops K false size (looping (suc m) true offset) =
    (λ e. absurd (omega (arith, e)), λ e. absurd (cc))
act_stops K false size (looping (suc m) false offset) =
    (λ e. absurd (omega (arith, e)), λ e. absurd (cc))

Reaches-calls :
    (K : SharedFile) (append : Bool) (s t : System) (run : Reaches K append s t)
    → calls run + due append t ≡ due append s
unfolding calls
Reaches-calls K append s _ start = omega arith
Reaches-calls K append s _ (first_acts {t} {n} {p} before e) =
    omega (arith, Reaches-calls K append s t before, act_calls K append t.size n t.first p e)
Reaches-calls K append s _ (second_acts {t} {n} {p} before e) =
    omega (arith, Reaches-calls K append s t before, act_calls K append t.size n t.second p e)

-- Every run of two instances that have less than 2 ^ 31 rounds each ends: it has at most as many calls as are due at its start, one for a
-- round with O_APPEND and two without, and one of the instances can take a call until these are all
-- done.
pub Reaches-ends :
    (K : SharedFile) (append : Bool) (s t : System) (run : Reaches K append s t)
    → left s.first < 2 ^ 31
    → left s.second < 2 ^ 31
    → (calls run ≤ due append s)
      × ((calls run ≡ due append s)
          ↔ ((act K append t.size t.first ≡ none) × (act K append t.size t.second ≡ none)))
Reaches-ends K append s t run small small' =
    let count = Reaches-calls K append s t run in
    let (stop1, back1) = act_stops K append t.size t.first in
    let (stop2, back2) = act_stops K append t.size t.second in
    (
      omega arith,
      (
        λ e. (stop1 (omega arith), stop2 (omega arith)),
        λ (e1, e2). (let z1 = back1 e1 in let z2 = back2 e2 in omega arith),
      ),
    )
