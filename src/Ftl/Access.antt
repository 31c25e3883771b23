-- ===== src/Ftl/Access.antt =====
-- Host accesses: `readInternal`, `trimInternal` and the part of `writeInternal` before the collection.
use testing.Common.{
  ℕ, zero, suc, ◌*◌, Bool, true, not, ◌||◌, ◌&&◌, List, none, some, Result, ok, ◌>>=◌, or_panic,
  ltb, if◌then◌else◌, get_elem?, max, out_of_range, block_not_in_use,
}
use testing.Common.Maps.{lookup, put, erase}
use testing.Bitset
use testing.Bitset.{Bitset}
use testing.Block
use testing.Block.{Block}
use testing.Ftl.State.{
  Ftl, Devices, Mapping, Request, issue, pal_read, dram_read, compute, cpu_read, cpu_trim,
  cpu_read_internal, cpu_trim_internal,
}

-- The mapping of a unit that has never been written.
abbrev pub unmapped : Ftl → Mapping
unmapped s = (s.total_physical_blocks, s.pages_in_block)

abbrev pub in_device : Ftl → Mapping → Bool
in_device s m = ltb m.0 s.total_physical_blocks && ltb m.1 s.pages_in_block

-- The units that a request is about.
abbrev pub selects : Ftl → Bitset → ℕ → Bool
selects s io_flag i = Bitset.test io_flag i || not s.random_tweak

-- The units of a PAL request for unit `i`.
abbrev pub pal_flag : Ftl → Bitset → ℕ → Bitset
pal_flag s io_flag i =
    if s.random_tweak
    then Bitset.set_at (Bitset.reset_all io_flag) i true
    else Bitset.set_all io_flag

-- The bytes of the mapping table that a request touches.
abbrev pub table_bytes : Ftl → Bitset → ℕ
table_bytes s io_flag = if s.random_tweak then 8 * Bitset.count io_flag else 8

-- One unit of `readInternal`; the tick is that of the latest read so far.
unfoldable pub read_mapped : Devices → Ftl → Request → ℕ → Mapping → ℕ → ℕ → Result (ℕ × Ftl)
read_mapped d s req i m tick finished = do
  b ← or_panic (lookup m.0 s.blocks) block_not_in_use
  (done, c) ← Block.read b m.1 i tick
  let flag = pal_flag s req.io_flag i
  let s₁ = record s { blocks = put m.0 c s.blocks }
  let (t, s₂) =
      issue d s₁ (pal_read (record { block_index = m.0; page_index = m.1; io_flag = flag })) tick
  ok (max finished t, s₂)

unfoldable pub read_unit : Devices → Ftl → Request → List Mapping → ℕ → ℕ → ℕ → Result (ℕ × Ftl)
unfolding read_mapped
read_unit d s req ms i tick finished =
    if selects s req.io_flag i
    then (or_panic (get_elem? ms i) out_of_range >>= λ m.
        if in_device s m then read_mapped d s req i m tick finished else ok (finished, s))
    else ok (finished, s)

-- The loop over the `n` units from unit `i`.
unfoldable pub read_units :
    Devices → Ftl → Request → List Mapping → ℕ → ℕ → ℕ → ℕ → Result (ℕ × Ftl)
read_units d s req ms zero i tick finished = ok (finished, s)
read_units d s req ms (suc n) i tick finished = do
  (f, t) ← read_unit d s req ms i tick finished
  read_units d t req ms n (suc i) tick f

unfoldable pub read_list : Devices → Ftl → Request → List Mapping → ℕ → Result (ℕ × Ftl)
read_list d s req ms tick = do
  let (t₁, s₁) = issue d s (dram_read (table_bytes s req.io_flag)) tick
  (f, s₂) ← read_units d s₁ req ms s.bitset_size 0 t₁ tick
  ok (issue d s₂ (compute cpu_read_internal) f)

-- `readInternal`. `finishedAt` starts at the tick before the DRAM access.
unfoldable pub read_internal : Devices → Ftl → Request → ℕ → Result (ℕ × Ftl)
unfolding read_list
read_internal d s req tick = elim (lookup req.lpn s.table) [
  | none ↦ ok (tick, s)
  | some ms ↦ read_list d s req ms tick
]

-- `read`.
unfoldable pub read : Devices → Ftl → Request → ℕ → Result (ℕ × Ftl)
read d s req tick =
    (if ltb 0 (Bitset.count req.io_flag) then read_internal d s req tick else ok (tick, s)) >>= λ r.
    ok (issue d r.1 (compute cpu_read) r.0)

-- Trims unit `i`, for the `n` units from there.
unfoldable pub trim_units : Ftl → List Mapping → ℕ → ℕ → Result Ftl
trim_units s ms zero i = ok s
trim_units s ms (suc n) i = do
  m ← or_panic (get_elem? ms i) out_of_range
  b ← or_panic (lookup m.0 s.blocks) block_not_in_use
  c ← Block.invalidate b m.1 i
  trim_units (record s { blocks = put m.0 c s.blocks }) ms n (suc i)

unfoldable pub trim_list : Devices → Ftl → Request → List Mapping → ℕ → Result (ℕ × Ftl)
unfolding trim_units
trim_list d s req ms tick = do
  let (t₁, s₁) = issue d s (dram_read (table_bytes s req.io_flag)) tick
  s₂ ← trim_units s₁ ms s.bitset_size 0
  ok (issue d (record s₂ { table = erase req.lpn s₂.table }) (compute cpu_trim_internal) t₁)

-- `trimInternal`.
unfoldable pub trim_internal : Devices → Ftl → Request → ℕ → Result (ℕ × Ftl)
unfolding trim_list
trim_internal d s req tick = elim (lookup req.lpn s.table) [
  | none ↦ ok (tick, s)
  | some ms ↦ trim_list d s req ms tick
]

-- `trim`.
unfoldable pub trim : Devices → Ftl → Request → ℕ → Result (ℕ × Ftl)
trim d s req tick = trim_internal d s req tick >>= λ r. ok (issue d r.1 (compute cpu_trim) r.0)
