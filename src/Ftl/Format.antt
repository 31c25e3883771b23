-- ===== src/Ftl/Format.antt =====
-- `format`, `getStatus` and `calculateTotalPages` (ftl/page_mapping.cc).
use testing.Common.{
  ℕ, zero, suc, ◌+◌, ◌-◌, ◌*◌, ◌%◌, ◌^◌, ◌<◌, ◌&&◌, List, [], ◌∷◌, ◌++◌, some, none, Result, ok,
  ◌>>=◌, or_panic, if◌then◌else◌, ◌==◌, ltb, leb, get_elem?, length, All, arith, Bool-cases, inl,
  inr, out_of_range, block_not_in_use,
}
use testing.Common.Maps.{lookup, put, erase}
use testing.Block
use testing.Block.{Block}
use testing.Ftl.State.{Ftl, Devices, Mapping, issue, compute, cpu_format}
use testing.Ftl.Collect.{do_garbage_collection}

-- The units of one page: each is invalidated, and its block is noted.
unfoldable format_units : Ftl → List Mapping → ℕ → ℕ → List ℕ → Result (List ℕ × Ftl)
format_units s ms zero i noted = ok (noted, s)
format_units s ms (suc n) i noted = do
  m ← or_panic (get_elem? ms i) out_of_range
  b ← or_panic (lookup m.0 s.blocks) block_not_in_use
  c ← Block.invalidate b m.1 i
  format_units (record s { blocks = put m.0 c s.blocks }) ms n (suc i) (noted ++ (m.0 ∷ []))

-- One entry of the table.
unfoldable format_entry : Ftl → ℕ → ℕ → ℕ → List Mapping → List ℕ → Result (List ℕ × Ftl)
format_entry s slpn nlp lpn ms noted =
    if leb slpn lpn && ltb lpn ((slpn + nlp) % 2 ^ 64)
    then (format_units s ms s.bitset_size 0 noted >>= λ r.
        let t = r.1 in ok (r.0, record t { table = erase lpn t.table }))
    else ok (noted, s)

-- The walk over the entries of the table.
unfoldable format_entries : Ftl → ℕ → ℕ → List (ℕ × List Mapping) → List ℕ → Result (List ℕ × Ftl)
format_entries s slpn nlp [] noted = ok (noted, s)
format_entries s slpn nlp ((lpn, ms) ∷ entries) noted = do
  (more, t) ← format_entry s slpn nlp lpn ms noted
  format_entries t slpn nlp entries more

-- std::sort and std::unique together.
unfoldable insert_once : ℕ → List ℕ → List ℕ
insert_once k [] = k ∷ []
insert_once k (j ∷ js) =
    let rest = insert_once k js in
    if k == j then j ∷ js else (if ltb k j then k ∷ j ∷ js else j ∷ rest)

unfoldable sort_unique : List ℕ → List ℕ
sort_unique [] = []
sort_unique (k ∷ ks) = insert_once k (sort_unique ks)

-- `format`: the collection goes over the noted blocks alone.
unfoldable format : Devices → Ftl → ℕ → ℕ → ℕ → Result (ℕ × Ftl)
format d s slpn nlp tick = do
  (noted, t) ← format_entries s slpn nlp s.table []
  (done, u) ← do_garbage_collection d (sort_unique noted) t tick
  ok (issue d u (compute cpu_format) done)

record Status : Type 0 where
  pub total_logical_pages : ℕ
  pub mapped_logical_pages : ℕ
  pub free_physical_blocks : ℕ

-- The mapped pages among the `n` pages from `lpn`.
unfoldable count_mapped : Ftl → ℕ → ℕ → ℕ
count_mapped s zero lpn = 0
count_mapped s (suc n) lpn =
    elim (lookup lpn s.table) [ none ↦ 0 | some ms ↦ 1 ] + count_mapped s n (suc lpn)

-- `getStatus`, for the pages from `lpn_begin` up to `lpn_end`.
unfoldable get_status : Ftl → ℕ → ℕ → Status
get_status s lpn_begin lpn_end =
    let total = s.total_logical_blocks * s.pages_in_block in
    record {
      total_logical_pages = total;
      mapped_logical_pages =
          if lpn_begin == 0 && leb total lpn_end
          then length s.table
          else count_mapped s (lpn_end - lpn_begin) lpn_begin;
      free_physical_blocks = s.n_free_blocks;
    }

-- `calculateTotalPages`: the valid and the dirty pages of the blocks in use.
unfoldable total_pages : List (ℕ × Block) → Result (ℕ × ℕ)
total_pages [] = ok (0, 0)
total_pages ((k, b) ∷ bs) = do
  dirty ← Block.get_dirty_page_count b
  (valid, invalid) ← total_pages bs
  ok (Block.get_valid_page_count b + valid, dirty + invalid)

unfoldable calculate_total_pages : Ftl → Result (ℕ × ℕ)
calculate_total_pages s = total_pages s.blocks

-- Each number is less than all that follow.
abbrev Increasing : List ℕ → Type 0
Increasing [] = Unit
Increasing (k ∷ ks) = All (λ j. k < j) ks × Increasing ks

above : (k m : ℕ) (js : List ℕ) → k < m → All (λ j. k < j) js → All (λ j. k < j) (insert_once m js)
unfolding insert_once
above k m [] lt h = (lt, tt)
above k m (j ∷ js) lt h = elim (Bool-cases (m == j)) [
  | inl e ↦ rw e h
  | inr e ↦ elim (Bool-cases (ltb m j)) [
    | inl l ↦ rw (e, l) (lt, h)
    | inr l ↦ rw (e, l) (h.0, above k m js lt h.1)
  ]
]

below-All : (m j : ℕ) (js : List ℕ) → m < j → All (λ i. j < i) js → All (λ i. m < i) js
below-All m j [] lt h = tt
below-All m j (i ∷ js) lt h = (omega (arith, h.0), below-All m j js lt h.1)

insert_once-Increasing : (m : ℕ) (js : List ℕ) → Increasing js → Increasing (insert_once m js)
unfolding insert_once
insert_once-Increasing m [] h = (tt, tt)
insert_once-Increasing m (j ∷ js) h = elim (Bool-cases (m == j)) [
  | inl e ↦ rw e h
  | inr e ↦ elim (Bool-cases (ltb m j)) [
    | inl l ↦ let lt : m < j = ground (arith, l) in rw (e, l) ((lt, below-All m j js lt h.0), h)
    | inr l ↦
        let gt : j < m = ground (arith, e, l) in
        rw (e, l) (above j m js gt h.0, insert_once-Increasing m js h.1)
  ]
]

-- No block is collected twice by one `format`.
sort_unique-Increasing : (ks : List ℕ) → Increasing (sort_unique ks)
unfolding sort_unique
sort_unique-Increasing [] = tt
sort_unique-Increasing (k ∷ ks) =
    insert_once-Increasing k (sort_unique ks) (sort_unique-Increasing ks)
