-- ===== src/Malloc.antt =====
-- 07-memory-allocation/po_malloc_free.c: malloc and free over a doubly linked free list whose
-- headers stand in front of the blocks. `sbrk` is a parameter.
pub mod Machine
pub mod Free
pub mod DoubleUse
pub mod FirstFit
pub mod Allocate
pub mod Away
pub mod History
pub mod FreeList
pub mod Scan
pub mod Between
pub mod Replace
mod Tests
pub mod Unlink
use linux_programming_interf.Common.{
  ℕ, zero, suc, ◌+◌, ◌-◌, ◌%◌, ◌^◌, Bool, true, false, not, leb, ltb, ◌==◌, if◌then◌else◌,
}
use Machine.{
  Sbrk, Heap, BlockHeader, Cmd, Run, ok, out_of_fuel, pure, ◌>>=◌, ◌>>◌, Ptr, null, header_size,
  word, load, set_length, set_prev, set_next, get_head, set_head, sbrk,
}

-- FREE_BLOCK_HEADER and FREE_BLOCK_MEMORY
abbrev pub free_block_header : Ptr → Ptr
free_block_header ptr = word (ptr + 2 ^ 64 - header_size)

abbrev pub free_block_memory : Ptr → Ptr
free_block_memory ptr = word (ptr + header_size)

module _ {K : Type 0} where
  unfoldable pub ll_append : Ptr → Ptr → Cmd K (Unit {0})
  ll_append prev next = set_next prev next >> set_prev next prev

  -- The first `if` of `ll_remove`: the predecessor, or the head, skips the item.
  unfoldable pub bypass : Ptr → Cmd K (Unit {0})
  bypass list_item = do
    h ← load list_item
    if h.prev_free_chunk == null
        then (if h.next_free_chunk == null then set_head null else set_head h.next_free_chunk)
        else set_next h.prev_free_chunk h.next_free_chunk

  unfoldable pub ll_remove : Ptr → Cmd K (Unit {0})
  unfolding bypass
  ll_remove list_item = do
    bypass list_item
    h ← load list_item
    if h.next_free_chunk == null then pure tt else set_prev h.next_free_chunk h.prev_free_chunk

  unfoldable pub ll_replace : Ptr → Ptr → Cmd K (Unit {0})
  ll_replace old_item new_item = do
    h ← load old_item
    (if h.prev_free_chunk == null then set_head new_item else set_next h.prev_free_chunk new_item)
    h ← load old_item
    (if h.next_free_chunk == null then pure tt else set_prev h.next_free_chunk new_item)
    h ← load old_item
    set_prev new_item h.prev_free_chunk
    h ← load old_item
    set_next new_item h.next_free_chunk

  -- The body of the scan at a block that is large enough: all of it, or its front part.
  unfoldable pub take_block : ℕ → Ptr → Cmd K Ptr
  unfolding ll_remove ll_replace
  take_block size current_header = do
    let memory_to_use = free_block_memory current_header
    h ← load current_header
    (if ltb (word (size + header_size)) h.block_length
        then (do
          let new_free_header = word (memory_to_use + size)
          set_length new_free_header (h.block_length - size)
          ll_replace current_header new_free_header)
        else ll_remove current_header)
    pure memory_to_use

  unfoldable pub po_free : Ptr → Cmd K (Unit {0})
  po_free ptr = do
    let new_freed_header = free_block_header ptr
    set_prev new_freed_header null
    head ← get_head
    if head == null
        then set_next new_freed_header null >> set_head new_freed_header
        else (do set_next new_freed_header head; set_prev head ptr; set_head new_freed_header)

module _ (S : Sbrk) where
  -- The end of `po_malloc`: a new block at the program break.
  unfoldable pub expand : ℕ → Ptr → Cmd S.State Ptr
  expand size current_header = do
    h ←
        (if current_header == null then pure (word (size + header_size)) else (do
          c ← load current_header
          pure (word (word (size + header_size) + 2 ^ 64 - c.block_length))))
    block_header ← sbrk S h
    let memory_to_use = free_block_memory block_header
    if block_header == null then pure null else (do
      set_next block_header null
      set_prev block_header null
      set_length block_header size
      pure memory_to_use)

  -- The `while` loop over the free list, with fuel for its rounds.
  unfoldable pub scan : ℕ → ℕ → Ptr → Cmd S.State Ptr
  unfolding take_block expand
  scan zero size current_header = λ _. out_of_fuel
  scan (suc fuel) size current_header = if current_header == null then expand size null else (do
    h ← load current_header
    if leb size h.block_length
        then take_block size current_header
        else scan fuel size h.next_free_chunk)

  unfoldable pub po_malloc : ℕ → ℕ → Cmd S.State Ptr
  unfolding scan
  po_malloc fuel size = do head ← get_head; scan fuel size head
