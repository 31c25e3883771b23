-- ===== src/Ftl/Write.antt =====
-- `writeInternal` and `write`, with the garbage collection that a write may start (ftl/page_mapping.cc).
use testing.Common.{
  ℕ, zero, suc, ◌+◌, Bool, true, false, not, ◌&&◌, List, none, some, Result, ok, ◌>>=◌, ◌>>◌,
  require, or_panic, ltb, if◌then◌else◌, get_elem?, set, replicate, max, length, dangling,
  out_of_range, no_such_block, gc_in_initialization,
}
use testing.Common.Maps.{lookup, insert, put}
use testing.Bitset
use testing.Bitset.{Bitset}
use testing.Block
use testing.Block.{Block}
use testing.Ftl.State.{
  Ftl, Devices, Mapping, Request, issue, pal_read, pal_write, dram_read, dram_write, compute,
  cpu_write, cpu_write_internal,
}
use testing.Ftl.Pool.{get_last_free_block}
use testing.Ftl.Access.{unmapped, in_device, selects, pal_flag, table_bytes}
use testing.Ftl.Collect.{select_victim_block, do_garbage_collection}

-- The page that unit `i` was mapped to becomes invalid. The block is not checked to be in use.
unfoldable pub drop_unit : Ftl → Bitset → List Mapping → ℕ → Result Ftl
drop_unit s io_flag ms i =
    if selects s io_flag i
    then (or_panic (get_elem? ms i) out_of_range >>= λ m.
        if in_device s m
        then (or_panic (lookup m.0 s.blocks) dangling >>= λ b.
            Block.invalidate b m.1 i >>= λ c. ok (record s { blocks = put m.0 c s.blocks }))
        else ok s)
    else ok s

unfoldable pub drop_units : Ftl → Bitset → List Mapping → ℕ → ℕ → Result Ftl
drop_units s io_flag ms zero i = ok s
drop_units s io_flag ms (suc n) i = do
  t ← drop_unit s io_flag ms i
  drop_units t io_flag ms n (suc i)

-- The old pages become invalid, or an empty mapping is made.
unfoldable pub prepare : Ftl → Request → Result Ftl
unfolding drop_units drop_unit
prepare s req = elim (lookup req.lpn s.table) [
  | some ms ↦ drop_units s req.io_flag ms s.bitset_size 0
  | none ↦ ok (record s { table = insert req.lpn (replicate s.bitset_size (unmapped s)) s.table })
]

-- The mapping table is read and written in DRAM, unless the device is being filled.
unfoldable pub table_access : Devices → Ftl → Request → ℕ → Bool → ℕ × Ftl
table_access d s req tick false = (tick, s)
table_access d s req tick true =
    let (t₁, s₁) = issue d s (dram_read (table_bytes s req.io_flag)) tick in
    issue d s₁ (dram_write (table_bytes s req.io_flag)) t₁

-- What a part of a page that is not written still holds is read first.
unfoldable pub read_before : Devices → Ftl → Request → Mapping → ℕ → Bool → ℕ × Ftl
read_before d s req m tick false = (tick, s)
read_before d s req m tick true =
    issue d s
      (pal_read
        (record { block_index = m.0; page_index = m.1; io_flag = Bitset.flip_all req.io_flag }))
      tick

unfoldable pub write_command : Devices → Ftl → Request → ℕ → ℕ → ℕ → ℕ → Bool → ℕ × Ftl
write_command d s req block page i tick false = (tick, s)
write_command d s req block page i tick true =
    issue d s
      (pal_write
        (record { block_index = block; page_index = page; io_flag = pal_flag s req.io_flag i }))
      tick

-- One unit: the next page of the block takes it, and the mapping follows.
unfoldable pub place_unit : Devices → Ftl → Request → ℕ → ℕ → ℕ → Bool → Bool → Result (ℕ × Ftl)
unfolding read_before write_command
place_unit d s req block i tick partial send = do
  b ← or_panic (lookup block s.blocks) no_such_block
  let page = Block.get_next_write_page_index_of b i
  ms ← or_panic (lookup req.lpn s.table) dangling
  m ← or_panic (get_elem? ms i) out_of_range
  (done, c) ← Block.write b page req.lpn i tick
  let s₁ = record s { blocks = put block c s.blocks }
  let (t₁, s₂) = read_before d s₁ req m tick (partial && send)
  let s₃ = record s₂ { table = put req.lpn (set ms i (block, page)) s₂.table }
  ok (write_command d s₃ req block page i t₁ send)

unfoldable pub place_if : Devices → Ftl → Request → ℕ → ℕ → ℕ → ℕ → Bool → Bool → Result (ℕ × Ftl)
unfolding place_unit
place_if d s req block i tick finished partial send =
    if selects s req.io_flag i
    then (place_unit d s req block i tick partial send >>= λ r. ok (max finished r.0, r.1))
    else ok (finished, s)

-- The loop over the `n` units from unit `i`; each begins at `tick`.
unfoldable pub place_units :
    Devices → Ftl → Request → ℕ → ℕ → ℕ → ℕ → ℕ → Bool → Bool → Result (ℕ × Ftl)
unfolding place_if
place_units d s req block zero i tick finished partial send = ok (finished, s)
place_units d s req block (suc n) i tick finished partial send = do
  (f, t) ← place_if d s req block i tick finished partial send
  place_units d t req block n (suc i) tick f partial send

-- The CPU model is charged, unless the device is being filled.
unfoldable pub charge : Devices → Ftl → ℕ → ℕ → Bool → ℕ × Ftl
charge d s tick finished false = (tick, s)
charge d s tick finished true = issue d s (compute cpu_write_internal) finished

-- The part of `writeInternal` from its DRAM accesses up to "GC if needed".
unfoldable pub write_units : Devices → Ftl → Request → ℕ → ℕ → Bool → Result (ℕ × Ftl)
unfolding table_access place_units charge
write_units d s req block tick send = do
  let (t, s₁) = table_access d s req tick send
  let partial = not s₁.random_tweak && not (Bitset.all req.io_flag)
  (f, s₂) ← place_units d s₁ req block s₁.bitset_size 0 t tick partial send
  ok (charge d s₂ t f send)

-- `writeInternal` up to "GC if needed".
unfoldable pub write_pages : Devices → Ftl → Request → ℕ → Bool → Result (ℕ × Ftl)
unfolding prepare write_units
write_pages d s req tick send = do
  s₁ ← prepare s req
  (block, s₂) ← get_last_free_block s₁ req.io_flag
  found ← or_panic (lookup block s₂.blocks) no_such_block
  write_units d s₂ req block tick send

-- The collection runs at ticks of its own: the write does not wait for it.
run_collection : Devices → Ftl → ℕ → Result Ftl
run_collection d s tick = do
  let (victims, t, s₁) = select_victim_block d s tick
  (u, s₂) ← do_garbage_collection d victims s₁ t
  ok (record s₂ {
    gc_count = s₂.gc_count + 1;
    reclaimed_blocks = s₂.reclaimed_blocks + length victims;
  })

unfoldable pub collect_if_needed : Devices → Ftl → ℕ → Bool → Result Ftl
unfolding run_collection
collect_if_needed d s tick send =
    if d.below_threshold s.n_free_blocks
    then (require send gc_in_initialization >> run_collection d s tick)
    else ok s

-- `writeInternal`.
unfoldable pub write_internal : Devices → Ftl → Request → ℕ → Bool → Result (ℕ × Ftl)
write_internal d s req tick send = do
  (t, s₁) ← write_pages d s req tick send
  s₂ ← collect_if_needed d s₁ t send
  ok (t, s₂)

-- `write`.
unfoldable pub write : Devices → Ftl → Request → ℕ → Result (ℕ × Ftl)
write d s req tick =
    (if ltb 0 (Bitset.count req.io_flag) then write_internal d s req tick true else ok (tick, s))
    >>= λ r. ok (issue d r.1 (compute cpu_write) r.0)
