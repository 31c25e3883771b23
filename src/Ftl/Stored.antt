-- ===== src/Ftl/Stored.antt =====
-- `writeInternal` of ftl/page_mapping.cc up to its collection: afterwards the data is stored.
use testing.Common.{
  ℕ, ◌+◌, ◌≤◌, ◌<◌, ◌≡◌, ◌∙◌, refl, sym, ap, subst, inl, inr, Bool, true, false, not, List, some,
  ◌==◌, get_elem?, get_elem?-lt, ◌&&◌, arith, ok,
}
use testing.Common.Maps.{lookup}
use testing.Bitset
use testing.Bitset.{Bitset}
use testing.Block.Slots.{next_of, Sized}
use testing.Ftl.State.{Ftl, Devices, Param, Mapping, Request, Command, issue}
use testing.Ftl.Access.{selects}
use testing.Ftl.Write.{table_access, charge, write_units, write_pages}
use testing.Ftl.Invariant.{Holds, Mapped, WellFormedBut, WellFormed}
use testing.Ftl.Prepare.{prepare_lem, Prepared-mapped}
use testing.Ftl.Last.{get_last_free_block_lem}
use testing.Ftl.Drop.{open_more}
use testing.Ftl.Place.{pending, restore, restore-WellFormedBut}
use testing.Ftl.Loop.{Ongoing, Kept, chosen, place_units_lem, reselect}

table_access_lem :
    (d : Devices) (s : Ftl) (req : Request) (tick : ℕ) (on : Bool)
    → (t : ℕ) × (log : List Command) × (table_access d s req tick on
        ≡ (t, restore s s.blocks s.table log))
unfolding table_access issue
table_access_lem d s req tick true = (_, _, refl)
table_access_lem d s req tick false = (tick, s.issued, refl)

charge_lem :
    (d : Devices) (s : Ftl) (tick finished : ℕ) (on : Bool)
    → (t : ℕ) × (log : List Command) × (charge d s tick finished on
        ≡ (t, restore s s.blocks s.table log))
unfolding charge issue
charge_lem d s tick finished true = (_, _, refl)
charge_lem d s tick finished false = (tick, s.issued, refl)

-- Other commands change nothing that the invariant speaks of.
pub relog-WellFormedBut :
    (s : Ftl) (lpn : ℕ) (f : ℕ → Bool) (log : List Command)
    → WellFormedBut lpn f s
    → WellFormedBut lpn f (restore s s.blocks s.table log)
relog-WellFormedBut s lpn f log w =
    restore-WellFormedBut s s.blocks s.table log lpn f f w w.blocks w.pool (λ j h. h) w.table

relog_Ongoing :
    (s : Ftl) (lpn k i : ℕ) (f : ℕ → Bool) (log : List Command)
    → Ongoing lpn f k i s
    → Ongoing lpn f k i (restore s s.blocks s.table log)
relog_Ongoing s lpn k i f log o = record {
  block = o.block;
  mappings = o.mappings;
  rest = relog-WellFormedBut s lpn (pending f i) log o.rest;
  in_use = o.in_use;
  room = o.room;
  mapped = o.mapped;
  assigned = o.assigned;
}

-- The invariant again, once no unit is open.
pub close :
    (s : Ftl) (lpn : ℕ) (f : ℕ → Bool)
    → WellFormedBut lpn (pending f s.bitset_size) s
    → WellFormed s
close s lpn f w = record {
  shape = w.shape;
  blocks = w.blocks;
  pool = w.pool;
  counted = w.counted;
  opened = w.opened;
  table = λ l ms e.
      let (len, each) = w.table l ms e in
      (len, λ i m em _. each i m em (ground (arith, len, get_elem?-lt ms i em)));
}

-- Unit `i` of page `lpn` is in the device: its mapping leads to a valid slot that holds it.
abbrev pub Stored : Ftl → ℕ → ℕ → Type 0
Stored s lpn i =
    (ms : List Mapping) × (m : Mapping) × (lookup lpn s.table ≡ some ms)
    × (get_elem? ms i ≡ some m)
    × (m.0 < s.total_physical_blocks)
    × (m.1 < s.pages_in_block)
    × Holds s.blocks m.0 m.1 i lpn

Ongoing-Stored :
    (s : Ftl) (lpn k i : ℕ) (f : ℕ → Bool)
    → Ongoing lpn f k s.bitset_size s
    → i < s.bitset_size
    → f i ≡ true
    → Stored s lpn i
Ongoing-Stored s lpn k i f o lt sel =
    let (m, em, x, y) = o.assigned i lt sel in
    let w = close s lpn f o.rest in
    let (_, each) = w.table lpn o.mappings o.mapped in
    (o.mappings, m, o.mapped, em, x, y, held m x (each i m em (ground arith)))
  where
    held :
        (m : Mapping)
        → m.0 < s.total_physical_blocks
        → Mapped s.param s.blocks lpn i m
        → Holds s.blocks m.0 m.1 i lpn
    held m x (inl u) = absurd (omega (arith, u))
    held m x (inr (_, _, h)) = h

-- What a write promises: the invariant, the data of the request, and the mappings of other pages.
pub record Wrote (s : Ftl) (req : Request) (t : Ftl) : Type 0 where
  pub well_formed : WellFormed t
  pub stored : (i : ℕ) → i < s.bitset_size → selects s req.io_flag i ≡ true → Stored t req.lpn i
  pub others : (l : ℕ) → (l == req.lpn) ≡ false → lookup l t.table ≡ lookup l s.table
  pub param : t.param ≡ s.param
  pub size : t.bitset_size ≡ s.bitset_size
  pub tweak : t.random_tweak ≡ s.random_tweak
  pub spent : s.n_free_blocks ≤ t.n_free_blocks + 1

write_units_lem :
    (d : Devices) (s : Ftl) (req : Request) (k tick : ℕ) (send : Bool)
    → Ongoing req.lpn (selects s req.io_flag) k 0 s
    → (r : ℕ × Ftl) × (write_units d s req k tick send ≡ ok r)
      × Ongoing req.lpn (selects r.1 req.io_flag) k r.1.bitset_size r.1
      × Kept req.lpn s r.1
unfolding write_units
write_units_lem d s req k tick send o =
    let (t, log, run) = table_access_lem d s req tick send in
    let s₁ = restore s s.blocks s.table log in
    let (r, placed, o', kept) =
      place_units_lem d s.bitset_size s₁ req k 0 t tick
        (not s.random_tweak && not (Bitset.all req.io_flag)) send (omega arith)
        (relog_Ongoing s req.lpn k 0 (selects s req.io_flag) log o) in
    let (u, log', done) = charge_lem d r.1 t r.0 send in
    (
      (u, restore r.1 r.1.blocks r.1.table log'),
      rw (run, placed, done),
      relog_Ongoing r.1 req.lpn k r.1.bitset_size (selects r.1 req.io_flag) log' o',
      record {
        frame = record {
          param = kept.frame.param;
          bitset_size = kept.frame.bitset_size;
          random_tweak = kept.frame.random_tweak;
          others = kept.frame.others;
        };
        n_free = kept.n_free;
      },
    )

-- On a well-formed state with a free block left, and for an I/O flag of one bit per unit, the part
-- of `writeInternal` before its collection succeeds. The new state is well-formed; every selected
-- unit is stored in a valid slot that holds the page; the mappings of other pages and the
-- parameters stay; at most one free block is spent.
pub write_pages_lem :
    (d : Devices) (s : Ftl) (req : Request) (tick : ℕ) (send : Bool)
    → WellFormed s
    → Sized s.io_unit_in_page req.io_flag
    → 0 < s.n_free_blocks
    → (r : ℕ × Ftl) × (write_pages d s req tick send ≡ ok r) × Wrote s req r.1
unfolding write_pages
write_pages_lem d s req tick send w z left =
    let lpn = req.lpn in
    let flag = req.io_flag in
    let (t₁, run₁, w₁, f₁, n₁, prepared) = prepare_lem s req w in
    let (ms, has) = Prepared-mapped s req t₁ prepared in
    let z₁ = subst (λ (x : Param). Sized x.io_unit_in_page flag) (sym f₁.param) z in
    let (k, t₂, run₂, ready) =
      get_last_free_block_lem t₁ lpn (selects s flag) flag w₁ z₁ (omega arith) in
    let o : Ongoing lpn (selects s flag) k 0 t₂ = record {
      block = ready.block;
      mappings = ms;
      rest =
          open_more t₂ lpn (selects s flag) (pending (selects s flag) 0)
            (λ j _ q. ground (arith, q)) ready.rest;
      in_use = ready.in_use;
      room = λ j _.
          subst (λ (x : Param). next_of ready.block j < x.pages_in_block) (sym ready.frame.param)
            (ready.room j);
      mapped = ap (lookup lpn) ready.table ∙ has;
      assigned = λ j lt. absurd (omega arith);
    } in
    let tweak = ready.frame.random_tweak ∙ f₁.random_tweak in
    let (r, run, last, kept) =
      write_units_lem d t₂ req k tick send (reselect s t₂ req k 0 tweak o) in
    let size = kept.frame.bitset_size ∙ ready.frame.bitset_size ∙ f₁.bitset_size in
    (
      r,
      rw (run₁, run₂, ready.in_use, run),
      record {
        well_formed = close r.1 lpn (selects r.1 flag) last.rest;
        stored = λ i lt sel.
            Ongoing-Stored r.1 lpn k i (selects r.1 flag) last (omega (arith, size))
              (subst (λ x. chosen req x i ≡ true) (sym (kept.frame.random_tweak ∙ tweak)) sel);
        others = λ l e. kept.frame.others l e ∙ ready.frame.others l e ∙ f₁.others l e;
        param = kept.frame.param ∙ ready.frame.param ∙ f₁.param;
        size = size;
        tweak = kept.frame.random_tweak ∙ tweak;
        spent = omega (arith, kept.n_free, ready.spent, n₁);
      },
    )
