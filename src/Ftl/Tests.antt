-- ===== src/Ftl/Tests.antt =====
-- The theorems about ftl/page_mapping.cc at work on a device of four blocks of two pages of two units.
use testing.Common.{
  ◌++◌, ℕ, ◌+◌, ◌%◌, ◌^◌, ◌<◌, ◌≤◌, ◌≡◌, ◌≢◌, ◌∙◌, ◌⊎◌, refl, sym, ap, subst, true, false, List, [],
  ◌∷◌, none, arith, Result, ok, panic, All, ltb, get_elem?-replicate, replicate, block_not_in_use,
}
use testing.Common.Maps.{lookup}
use testing.Bitset
use testing.Bitset.{Bitset}
use testing.Bitset.Valid
use testing.Bitset.Valid.{of_size-IsValid}
use testing.Bitset.Access.{set_at-IsValid}
use testing.Block.{Block}
use testing.Block.Slots.{Sized}
use testing.Ftl.State.{Ftl, Devices, Param, Mapping, Request, gc_mode_0, policy_greedy}
use testing.Ftl.Access.{selects, unmapped, read_internal, trim_internal}
use testing.Ftl.Order.{Ascending, insert_free_lem}
use testing.Ftl.Pool.{insert_free, get_free_block, get_last_free_block}
use testing.Ftl.Write.{prepare, write_pages}
use testing.Ftl.Start.{create_mapping, closed_mapping, fill}
use testing.Ftl.Invariant.{Blank, Holds, WellFormedBut, WellFormed, nothing_open}
use testing.Ftl.Prepare.{Frame, Prepared, prepare_lem, fresh_mapping, fresh-WellFormedBut}
use testing.Ftl.Drop.{open_more}
use testing.Ftl.Place.{pending}
use testing.Ftl.Free.{Takes, with_block, get_free_block_lem}
use testing.Ftl.Last.{Ready, get_last_free_block_lem}
use testing.Ftl.Stored.{Wrote, write_pages_lem, close}
use testing.Ftl.Trim.{Trimmed, trim_internal_lem, trim_internal_unmapped}
use testing.Ftl.NewBlocks.{IsSane}
use testing.Ftl.Initial.{create_mapping_lem}
use testing.Ftl.Fill.{Whole, fill_lem}
use testing.Ftl.Read.{Sent, unit_read}
use testing.Ftl.ReadBack.{Reads, read_internal_lem, read_after_write}

abbrev or_else : {A : Type 0} → Result A → A → A
or_else (ok x) y = x
or_else (panic f) y = y

-- Every command takes one tick, and a collection is due when no block is free.
abbrev devices : Devices
devices = record {
  finish = λ log c t. t + 1;
  below_threshold = λ n. ltb n 1;
  bad_block_threshold = 100;
  gc_mode = gc_mode_0;
  evict_policy = policy_greedy;
  reclaim_block = 1;
  reclaim_target = λ n. 1;
  cost_benefit = λ a b c. 0;
  sort = λ ws. ws;
}

abbrev geometry : Param
geometry = record {
  total_physical_blocks = 4;
  total_logical_blocks = 2;
  pages_in_block = 2;
  io_unit_in_page = 2;
  page_count_to_max_perf = 1;
}

sane : IsSane geometry
sane = record {
  some_page = omega arith;
  few_pages = omega arith;
  some_unit = omega arith;
  few_units = omega arith;
  some_channel = omega arith;
  channels = omega arith;
}

abbrev blank_state : Ftl
blank_state = closed_mapping geometry true []

-- A new mapping that writes single units.
abbrev start_state : Ftl
start_state = or_else (create_mapping geometry true) blank_state

create_mapping_example :
    (s : Ftl) × (create_mapping geometry true ≡ ok s)
    × WellFormed s
    × (s.param ≡ geometry)
    × (s.table ≡ [])
    × (s.n_free_blocks + geometry.page_count_to_max_perf ≡ geometry.total_physical_blocks)
create_mapping_example = create_mapping_lem geometry true sane

started :
    WellFormed start_state
    × (start_state.param ≡ geometry)
    × (start_state.table ≡ [])
    × (start_state.n_free_blocks + 1 ≡ 4)
started =
    let (s, run, w, same, empty, left) = create_mapping_lem geometry true sane in
    subst
      (λ (t : Ftl).
        WellFormed t × (t.param ≡ geometry) × (t.table ≡ []) × (t.n_free_blocks + 1 ≡ 4))
      (sym (ap (λ r. or_else r blank_state) run)) (w, same, empty, left)

-- A request for unit 0 of page 5.
abbrev first_unit : Request
first_unit = record { lpn = 5; io_flag = Bitset.set_at (Bitset.of_size 2) 0 true }

two-IsValid : Valid.IsValid (Bitset.of_size 2)
two-IsValid = of_size-IsValid 2 (omega arith)

first-Sized : Sized 2 first_unit.io_flag
first-Sized = record {
  sound =
      set_at-IsValid (Bitset.of_size 2) two-IsValid 0 (unfold Bitset.of_size in omega arith) true;
  size = unfold Bitset.set_at Bitset.of_size in refl;
}

first-fits : Sized start_state.io_unit_in_page first_unit.io_flag
first-fits =
    subst (λ (p : Param). Sized p.io_unit_in_page first_unit.io_flag) (sym started.1) first-Sized

some_left : 0 < start_state.n_free_blocks
some_left = omega (arith, started.3)

write_pages_example :
    (r : ℕ × Ftl) × (write_pages devices start_state first_unit 3 true ≡ ok r)
    × Wrote start_state first_unit r.1
write_pages_example =
    write_pages_lem devices start_state first_unit 3 true started.0 first-fits some_left

read_after_write_example :
    (r q : ℕ × Ftl) × (write_pages devices start_state first_unit 3 true ≡ ok r)
    × (read_internal devices r.1 first_unit 8 ≡ ok q)
    × WellFormed q.1
    × ((i : ℕ)
        → i < start_state.bitset_size
        → selects start_state first_unit.io_flag i ≡ true
        → (m : Mapping) × Holds q.1.blocks m.0 m.1 i 5
          × Sent (unit_read r.1 first_unit i m) q.1.issued)
read_after_write_example =
    read_after_write devices start_state first_unit 3 8 true started.0 first-fits some_left

-- The mapping once the page is written.
abbrev written_state : Ftl
written_state = (or_else (write_pages devices start_state first_unit 3 true) (0, blank_state)).1

written-WellFormed : WellFormed written_state
written-WellFormed =
    let (r, run, wrote) =
      write_pages_lem devices start_state first_unit 3 true started.0 first-fits some_left in
    subst (λ (t : Ftl). WellFormed t)
      (sym (ap (λ (x : Result (ℕ × Ftl)). (or_else x (0, blank_state)).1) run)) wrote.well_formed

-- The second write of the unit.
prepare_example :
    (t : Ftl) × (prepare written_state first_unit ≡ ok t)
    × WellFormedBut 5 (selects written_state first_unit.io_flag) t
    × Frame 5 written_state t
    × (t.n_free_blocks ≡ written_state.n_free_blocks)
    × Prepared written_state first_unit t
prepare_example = prepare_lem written_state first_unit written-WellFormed

get_last_free_block_example :
    (k : ℕ) × (t : Ftl) × (get_last_free_block start_state first_unit.io_flag ≡ ok (k, t))
    × Ready 0 nothing_open start_state k t
get_last_free_block_example =
    get_last_free_block_lem start_state 0 nothing_open first_unit.io_flag started.0 first-fits
      some_left

one_channel : 0 < start_state.page_count_to_max_perf
one_channel = subst (λ (p : Param). 0 < p.page_count_to_max_perf) (sym started.1) (omega arith)

get_free_block_example :
    (b : Block) × (rest : List Block) × (get_free_block start_state 0
      ≡ ok (b.idx, with_block start_state b rest))
    × Takes start_state.free_blocks b rest
    × ((b.idx % start_state.page_count_to_max_perf ≡ 0)
        ⊎ All (λ c. c.idx % start_state.page_count_to_max_perf ≢ 0) start_state.free_blocks)
    × Blank start_state.param b
    × WellFormedBut 0 nothing_open (with_block start_state b rest)
get_free_block_example =
    get_free_block_lem start_state 0 nothing_open started.0 0 one_channel some_left

few_units : start_state.io_unit_in_page < 2 ^ 32
few_units = subst (λ (p : Param). p.io_unit_in_page < 2 ^ 32) (sym started.1) (omega arith)

calm : (n : ℕ) → 1 ≤ n → devices.below_threshold n ≡ false
calm n h = ground arith

fill_example :
    (t : Ftl) × (fill devices start_state (5 ∷ 6 ∷ []) ≡ ok t)
    × WellFormed t
    × All (Whole t) (5 ∷ 6 ∷ [])
    × ((l : ℕ) → Whole start_state l → Whole t l)
fill_example =
    fill_lem devices (5 ∷ 6 ∷ []) start_state 1 started.0 few_units calm (omega (arith, started.3))

-- The mapping once pages 5 and 6 are filled.
abbrev filled : Ftl
filled = or_else (fill devices start_state (5 ∷ 6 ∷ [])) blank_state

filled_lem : WellFormed filled × Whole filled 5
filled_lem =
    let (t, run, w, all, _) =
      fill_lem devices (5 ∷ 6 ∷ []) start_state 1 started.0 few_units calm
        (omega (arith, started.3)) in
    subst (λ t. WellFormed t × Whole t 5) (sym (ap (λ r. or_else r blank_state) run)) (w, all.0)

read_internal_example :
    (r : ℕ × Ftl) × (read_internal devices filled first_unit 3 ≡ ok r) × Reads filled first_unit r.1
read_internal_example = read_internal_lem devices filled first_unit 3 filled_lem.0

trim_internal_example :
    (r : ℕ × Ftl) × (trim_internal devices filled first_unit 3 ≡ ok r) × Trimmed filled 5 r.1
trim_internal_example = trim_internal_lem devices filled first_unit 3 filled_lem.0 filled_lem.1

unused : lookup 5 start_state.table ≡ none
unused = ap (lookup 5) started.2 ∙ (unfold lookup in refl)

-- Page 5 with an entry none of whose units was ever written.
abbrev holed : Ftl
holed = fresh_mapping start_state 5

holed-WellFormed : WellFormed holed
holed-WellFormed = close holed 5 nothing_open (
    open_more holed 5 nothing_open (pending nothing_open holed.bitset_size)
      (λ i _ q. ground (arith, q))
      (fresh-WellFormedBut start_state 5 nothing_open started.0 unused))

abbrev empty_mapping : List Mapping
empty_mapping = replicate start_state.bitset_size (unmapped start_state)

trim_internal_unmapped_example : trim_internal devices holed first_unit 3 ≡ panic block_not_in_use
trim_internal_unmapped_example =
    trim_internal_unmapped devices holed first_unit 3 0 empty_mapping (unmapped start_state)
      holed-WellFormed (unfold fresh_mapping lookup in refl)
      (get_elem?-replicate start_state.bitset_size (unmapped start_state) 0
        started.0.shape.some_unit)
      (unfold fresh_mapping in refl)

-- A block that was erased `n` times.
abbrev worn_block : ℕ → ℕ → Block
worn_block i n = record {
  idx = i;
  page_count = 2;
  io_unit_in_page = 1;
  next_write_page_index = 0 ∷ [];
  p_valid_bits = Bitset.of_size 2;
  p_erased_bits = Bitset.of_size 2;
  p_lpns = 0 ∷ 0 ∷ [];
  valid_bits = [];
  erased_bits = [];
  pp_lpns = [];
  last_accessed = 0;
  erase_count = n;
}

abbrev worn_blocks : List Block
worn_blocks = worn_block 1 2 ∷ worn_block 2 3 ∷ worn_block 3 5 ∷ []

insert_free_example :
    (before after : List Block) × (worn_blocks ≡ before ++ after)
    × (insert_free (worn_block 9 3) worn_blocks ≡ ok (before ++ (worn_block 9 3 ∷ after)))
    × All (λ c. c.erase_count ≤ 3) before
    × All (λ c. 3 < c.erase_count) after
    × Ascending (before ++ (worn_block 9 3 ∷ after))
insert_free_example =
    insert_free_lem (worn_block 9 3) worn_blocks (omega arith)
      ((omega arith, (omega arith, tt)), ((omega arith, tt), (tt, tt)))
