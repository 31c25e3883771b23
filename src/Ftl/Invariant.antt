-- ===== src/Ftl/Invariant.antt =====
-- What holds of a `PageMapping` between its operations (ftl/page_mapping.cc).
use testing.Common.{
  ℕ, ◌≤◌, ◌<◌, ◌≡◌, ◌≢◌, ◌⊎◌, Bool, true, false, List, [], ◌∷◌, none, some, ◌==◌, length, get_elem?,
  All, ◌&&◌,
}
use testing.Common.Maps.{lookup}
use testing.Block.{Block}
use testing.Block.Slots.{valid_at, lpn_at, next_of, Sized}
use testing.Block.Valid
use testing.Ftl.State.{Ftl, Param, Mapping}

-- A block of the device.
pub record Fits (g : Param) (b : Block) : Type 0 where
  pub sound : Valid.IsValid b
  pub pages : b.page_count ≡ g.pages_in_block
  pub units : b.io_unit_in_page ≡ g.io_unit_in_page
  pub inside : b.idx < g.total_physical_blocks

-- A block that can be handed out: nothing has been written since it was erased.
pub record Blank (g : Param) (b : Block) : Type 0 where
  pub fits : Fits g b
  pub start : (i : ℕ) → next_of b i ≡ 0

-- The blocks in use, by their index.
abbrev pub InUse : Param → List (ℕ × Block) → Type 0
InUse g bs = (k : ℕ) (b : Block) → lookup k bs ≡ some b → Fits g b × (b.idx ≡ k)

-- No two blocks have one index.
abbrev pub Distinct : List Block → Type 0
Distinct [] = Unit
Distinct (b ∷ bs) = All (λ c. c.idx ≢ b.idx) bs × Distinct bs

-- The pool of free blocks next to the blocks in use.
pub record Pooled (g : Param) (bs : List (ℕ × Block)) (free : List Block) : Type 0 where
  pub blank : All (Blank g) free
  pub distinct : Distinct free
  pub absent : All (λ b. lookup b.idx bs ≡ none) free

-- Page `p` of block `k` holds valid data of `lpn` in unit `i`.
abbrev pub Holds : List (ℕ × Block) → ℕ → ℕ → ℕ → ℕ → Type 0
Holds bs k p i lpn =
    (b : Block) × (lookup k bs ≡ some b) × (valid_at b p i ≡ true) × (lpn_at b p i ≡ lpn)

-- A mapping of unit `i` of `lpn`: never written, or where its data is.
abbrev pub Mapped : Param → List (ℕ × Block) → ℕ → ℕ → Mapping → Type 0
Mapped g bs lpn i m =
    ((m.0 ≡ g.total_physical_blocks) × (m.1 ≡ g.pages_in_block))
    ⊎ ((m.0 < g.total_physical_blocks) × (m.1 < g.pages_in_block) × Holds bs m.0 m.1 i lpn)

-- The mapping table, but for the units `open i` of `lpn`, which a write has not placed yet.
abbrev pub TableBut :
    Param → ℕ → List (ℕ × Block) → List (ℕ × List Mapping) → ℕ → (ℕ → Bool) → Type 0
TableBut g n bs table lpn open_units =
    (l : ℕ) (ms : List Mapping)
    → lookup l table ≡ some ms
    → (length ms ≡ n)
      × ((i : ℕ) (m : Mapping)
          → get_elem? ms i ≡ some m
          → ((l == lpn) && open_units i) ≡ false
          → Mapped g bs l i m)

abbrev pub nothing_open : ℕ → Bool
nothing_open i = false

-- One block for each channel is open for writes.
pub record Opened (s : Ftl) : Type 0 where
  pub channels : length s.last_free_block ≡ s.page_count_to_max_perf
  pub current : s.last_free_block_index < s.page_count_to_max_perf
  pub in_use :
      (c k : ℕ)
      → get_elem? s.last_free_block c ≡ some k
      → (b : Block) × (lookup k s.blocks ≡ some b)
  pub io_map : Sized s.io_unit_in_page s.last_free_block_io_map

pub record Shape (s : Ftl) : Type 0 where
  pub some_page : 0 < s.pages_in_block
  pub some_unit : 0 < s.bitset_size
  pub units : s.bitset_size ≤ s.io_unit_in_page

-- The whole invariant, but for some units of one page.
pub record WellFormedBut (lpn : ℕ) (open_units : ℕ → Bool) (s : Ftl) : Type 0 where
  pub shape : Shape s
  pub blocks : InUse s.param s.blocks
  pub pool : Pooled s.param s.blocks s.free_blocks
  pub counted : s.n_free_blocks ≡ length s.free_blocks
  pub opened : Opened s
  pub table : TableBut s.param s.bitset_size s.blocks s.table lpn open_units

abbrev pub WellFormed : Ftl → Type 0
WellFormed s = WellFormedBut 0 nothing_open s
