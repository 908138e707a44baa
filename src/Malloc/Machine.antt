-- ===== src/Malloc/Machine.antt =====
-- Block headers at addresses, the head of the free list, and commands over them.
use linux_programming_interf.Common.{
  ℕ, ◌+◌, ◌-◌, ◌%◌, ◌^◌, ◌≡◌, ◌⊎◌, Bool, not, ◌&&◌, leb, ◌==◌, if◌then◌else◌,
}

abbrev pub Ptr : Type 0
Ptr = ℕ

abbrev pub null : Ptr
null = 0

-- Arithmetic on size_t and on pointers wraps at 64 bits.
abbrev pub word : ℕ → ℕ
word n = n % 2 ^ 64

-- sizeof(block_header_t) on a 64-bit system
abbrev pub header_size : ℕ
header_size = 24

pub record BlockHeader : Type 0 where
  pub block_length : ℕ
  pub prev_free_chunk : Ptr
  pub next_free_chunk : Ptr

-- (void *) -1, by which sbrk reports an error.
abbrev pub sbrk_failed : Ptr
sbrk_failed = 2 ^ 64 - 1

-- sbrk(2): the kernel's state, the program break, and the system call. It returns the old break
-- and raises the break, or returns (void *) -1 and leaves the break alone.
pub record Sbrk : Type 1 where
  pub State : Type 0
  pub break : State → Ptr
  pub call : ℕ → State → Ptr × State
  pub call_lem :
      (n : ℕ) (s : State)
      → ((call n s).0 ≡ break s) × (break (call n s).1 ≡ break s + n)
        ⊎ ((call n s).0 ≡ sbrk_failed) × (break (call n s).1 ≡ break s)

-- `header a` is what reading a header at address `a` gives, whether or not one was stored there.
-- Headers that overlap share bytes in the source and are kept apart here: a heap stands for the
-- program's memory only as long as the headers that are read and written do not overlap.
pub record Heap (K : Type 0) : Type 0 where
  pub header : Ptr → BlockHeader
  pub free_ll_head : Ptr
  pub kernel : K

-- `fault` is an access through NULL, or to an object that does not end below 2 ^ 64.
pub data Run (K A : Type 0) : Type 0 where
  ok : A → Heap K → Run K A
  fault : Run K A
  out_of_fuel : Run K A

abbrev pub Cmd : Type 0 → Type 0 → Type 0
Cmd K A = Heap K → Run K A

module _ {K : Type 0} where
  abbrev pub pure : {A : Type 0} → A → Cmd K A
  pure = ok

  module _ {A B : Type 0} where
    abbrev pub and_then : Run K A → (A → Cmd K B) → Run K B
    and_then (ok a h) k = k a h
    and_then fault k = fault
    and_then out_of_fuel k = out_of_fuel

    infixl 5 ◌>>=◌ ◌>>◌
    abbrev pub ◌>>=◌ : Cmd K A → (A → Cmd K B) → Cmd K B
    m >>= k = λ h. and_then (m h) k

    abbrev pub ◌>>◌ : Cmd K A → Cmd K B → Cmd K B
    m >> n = m >>= λ _. n

abbrev pub addressable : Ptr → Bool
addressable p = not (p == null) && leb (p + header_size) (2 ^ 64)

abbrev pub write : (Ptr → BlockHeader) → Ptr → BlockHeader → Ptr → BlockHeader
write f p b a = if a == p then b else f a

module _ {K : Type 0} where
  -- `*p`
  abbrev pub load : Ptr → Cmd K BlockHeader
  load p h = if addressable p then ok (h.header p) h else fault

  abbrev pub store : Ptr → BlockHeader → Cmd K (Unit {0})
  store p b h = if addressable p then ok tt (record h { header = write h.header p b }) else fault

  -- `p->field = v`
  abbrev pub set_length : Ptr → ℕ → Cmd K (Unit {0})
  set_length p v h = store p (record (h.header p) { block_length = v }) h

  abbrev pub set_prev : Ptr → Ptr → Cmd K (Unit {0})
  set_prev p v h = store p (record (h.header p) { prev_free_chunk = v }) h

  abbrev pub set_next : Ptr → Ptr → Cmd K (Unit {0})
  set_next p v h = store p (record (h.header p) { next_free_chunk = v }) h

  abbrev pub get_head : Cmd K Ptr
  get_head h = ok h.free_ll_head h

  abbrev pub set_head : Ptr → Cmd K (Unit {0})
  set_head p h = ok tt (record h { free_ll_head = p })

module _ (S : Sbrk) where
  abbrev pub sbrk : ℕ → Cmd S.State Ptr
  sbrk n h = let (p, k) = S.call n h.kernel in ok p (record h { kernel = k })
