-- ===== src/Ftl/Loop.antt =====
-- The loop of `writeInternal` (ftl/page_mapping.cc) as a whole.
use testing.Common.{
  ℕ, zero, suc, ◌+◌, ◌≤◌, ◌<◌, ◌≡◌, ◌∙◌, refl, sym, ap, subst, inl, inr, Bool, true, false, not,
  List, some, ◌==◌, ==→eq, ==-refl, set, get_elem?, get_elem?-set, get_elem?-eq-get_or, get_or,
  ◌||◌, ◌&&◌, arith, Bool-cases, ok, max,
}
use testing.Common.Maps.{lookup, put, lookup-put}
use testing.Bitset
use testing.Bitset.{Bitset}
use testing.Block.{Block}
use testing.Block
use testing.Block.Slots.{next_of}
use testing.Block.Valid
use testing.Block.Write.{write_lem, Written}
use testing.Ftl.State.{Ftl, Devices, Param, Mapping, Request, Command}
use testing.Ftl.Access.{selects, unmapped}
use testing.Ftl.Write.{place_unit, place_if, place_units}
use testing.Ftl.Invariant.{Fits, WellFormedBut}
use testing.Ftl.Slots.{put-InUse, put-Pooled, put-lookup, found}
use testing.Ftl.Prepare.{Frame}
use testing.Ftl.Drop.{open_more}
use testing.Ftl.Place.{
  pending, restore, restore-WellFormedBut, read_before_lem, write_command_lem, in_range,
  placed_table,
}

-- Unit `j` of a page is mapped into the device.
abbrev pub Assigned : Param → List Mapping → ℕ → Type 0
Assigned g ms j =
    (m : Mapping) × (get_elem? ms j ≡ some m)
    × (m.0 < g.total_physical_blocks)
    × (m.1 < g.pages_in_block)

-- What a loop over the units needs at unit `i`, in block `k`.
pub record Ongoing (lpn : ℕ) (f : ℕ → Bool) (k i : ℕ) (s : Ftl) : Type 0 where
  pub block : Block
  pub mappings : List Mapping
  pub rest : WellFormedBut lpn (pending f i) s
  pub in_use : lookup k s.blocks ≡ some block
  pub room : (j : ℕ) → i ≤ j → next_of block j < s.pages_in_block
  pub mapped : lookup lpn s.table ≡ some mappings
  pub assigned : (j : ℕ) → j < i → f j ≡ true → Assigned s.param mappings j

module _ (d : Devices) (s : Ftl) (req : Request) (k i : ℕ) (f : ℕ → Bool) (i_in : i < s.bitset_size)
    (o : Ongoing req.lpn f k i s) where
  abbrev remapped : List Mapping
  remapped = set o.mappings i (k, next_of o.block i)

  abbrev retabled : List (ℕ × List Mapping)
  retabled = put req.lpn remapped s.table

  -- The state once the unit is written as block `c`.
  abbrev next_state : Block → List Command → Ftl
  next_state c log = restore s (put k c s.blocks) retabled log

  next_Ongoing :
      (tick : ℕ) (c : Block) (log : List Command)
      → Written o.block (next_of o.block i) i req.lpn tick c
      → Valid.IsValid c
      → Ongoing req.lpn f k (suc i) (next_state c log)
  next_Ongoing tick c log g sound =
      let here = o.in_use in
      let room = o.room i (omega arith) in
      let old = o.rest.blocks k o.block here in
      let fc : Fits s.param c = record {
        sound = sound;
        pages = g.page_count ∙ old.0.pages;
        units = g.units ∙ old.0.units;
        inside = omega (arith, old.0, g.idx);
      } in
      let (len, _) = o.rest.table req.lpn o.mappings o.mapped in
      record {
        block = c;
        mappings = remapped;
        rest =
            restore-WellFormedBut s (put k c s.blocks) retabled log req.lpn (pending f i)
              (pending f (suc i)) o.rest
              (put-InUse s.param s.blocks k o.block c here o.rest.blocks fc (g.idx ∙ old.1))
              (put-Pooled s.param s.blocks k o.block c here s.free_blocks o.rest.pool)
              (put-lookup s.param s.blocks k o.block c here)
              (placed_table d s req k i o.block o.mappings f o.rest i_in here room o.mapped tick c
                g);
        in_use = found s.param s.blocks k o.block c here k ∙ rw (==-refl k);
        room = λ j le. ground (arith, le, g.next j, o.room j (omega arith));
        mapped =
            lookup-put req.lpn req.lpn remapped o.mappings s.table o.mapped ∙ rw (==-refl req.lpn);
        assigned = λ j lt sel. elim (Bool-cases (i == j)) [
          | inl q ↦ (
            (k, next_of o.block i),
            get_elem?-set o.mappings i j (k, next_of o.block i) (omega (arith, len)) ∙ rw q,
            omega (arith, old.0, old.1),
            room,
          )
          | inr q ↦
              let (m, em, x, y) = o.assigned j (ground (arith, q, lt)) sel in
              (
                m,
                get_elem?-set o.mappings i j (k, next_of o.block i) (omega (arith, len)) ∙ rw q em,
                x,
                y,
              )
        ];
      }

  place_unit_lem :
      (tick : ℕ) (partial send : Bool)
      → (t : ℕ) × (c : Block) × (log : List Command) × (place_unit d s req k i tick partial send
          ≡ ok (t, next_state c log))
        × Ongoing req.lpn f k (suc i) (next_state c log)
  unfolding place_unit Block.get_next_write_page_index_of
  place_unit_lem tick partial send =
      let b = o.block in
      let room = o.room i (omega arith) in
      let r = in_range d s req k i b o.mappings f o.rest i_in o.in_use room o.mapped in
      let w = (o.rest.blocks k b o.in_use).0 in
      let (c, run, sound, g) =
        write_lem b w.sound (next_of b i) i req.lpn tick r (w.sound.ahead _ i r (omega arith))
          (omega arith) in
      let (len, _) = o.rest.table req.lpn o.mappings o.mapped in
      let old = get_or o.mappings i (unmapped s) in
      let at = get_elem?-eq-get_or o.mappings i (unmapped s) (omega (arith, len)) in
      let s₁ = record s { blocks = put k c s.blocks } in
      let (t₁, log₁, before) = read_before_lem d s₁ req old tick (partial && send) in
      let s₃ = restore s₁ s₁.blocks (put req.lpn remapped s.table) log₁ in
      let (t₂, log₂, after) = write_command_lem d s₃ req k (next_of b i) i t₁ send in
      (
        t₂,
        c,
        log₂,
        rw (o.in_use, o.mapped, at, run, before, after),
        next_Ongoing tick c log₂ g sound,
      )

skip_Ongoing :
    (s : Ftl) (lpn k i : ℕ) (f : ℕ → Bool)
    → f i ≡ false
    → Ongoing lpn f k i s
    → Ongoing lpn f k (suc i) s
skip_Ongoing s lpn k i f off o = record {
  block = o.block;
  mappings = o.mappings;
  rest =
      open_more s lpn (pending f i) (pending f (suc i))
        (λ j _ q. elim (Bool-cases (j == i)) [
          | inl e ↦ ground (arith, ap f (==→eq j i e), off, q)
          | inr e ↦ ground (arith, e, q)
        ])
        o.rest;
  in_use = o.in_use;
  room = λ j le. o.room j (omega arith);
  mapped = o.mapped;
  assigned = λ j lt sel. elim (Bool-cases (j == i)) [
    | inl e ↦ ground (arith, ap f (==→eq j i e), off, sel)
    | inr e ↦ o.assigned j (ground (arith, e, lt)) sel
  ];
}

-- What the loop leaves alone.
pub record Kept (lpn : ℕ) (s t : Ftl) : Type 0 where
  pub frame : Frame lpn s t
  pub n_free : t.n_free_blocks ≡ s.n_free_blocks

Kept-trans : (lpn : ℕ) (s t u : Ftl) → Kept lpn s t → Kept lpn t u → Kept lpn s u
Kept-trans lpn s t u a b = record {
  frame = record {
    param = b.frame.param ∙ a.frame.param;
    bitset_size = b.frame.bitset_size ∙ a.frame.bitset_size;
    random_tweak = b.frame.random_tweak ∙ a.frame.random_tweak;
    others = λ l e. b.frame.others l e ∙ a.frame.others l e;
  };
  n_free = b.n_free ∙ a.n_free;
}

abbrev pub chosen : Request → Bool → ℕ → Bool
chosen req tweak i = Bitset.test req.io_flag i || not tweak

place_if_lem :
    (d : Devices) (s : Ftl) (req : Request) (k i tick finished : ℕ) (partial send : Bool)
    → i < s.bitset_size
    → Ongoing req.lpn (selects s req.io_flag) k i s
    → (r : ℕ × Ftl) × (place_if d s req k i tick finished partial send ≡ ok r)
      × Ongoing req.lpn (selects s req.io_flag) k (suc i) r.1
      × Kept req.lpn s r.1
unfolding place_if
place_if_lem d s req k i tick finished partial send lt o =
    elim (Bool-cases (selects s req.io_flag i)) [
      | inl sel ↦
          let (t, c, log, run, next) =
            place_unit_lem d s req k i (selects s req.io_flag) lt o tick partial send in
          (
            (max finished t, next_state d s req k i (selects s req.io_flag) lt o c log),
            rw (sel, run),
            next,
            record {
              frame = record {
                param = refl;
                bitset_size = refl;
                random_tweak = refl;
                others =
                    λ l e. lookup-put req.lpn l _ o.mappings s.table o.mapped ∙ ground (arith, e);
              };
              n_free = refl;
            },
          )
      | inr off ↦ (
        (finished, s),
        rw off,
        skip_Ongoing s req.lpn k i (selects s req.io_flag) off o,
        record {
          frame = record {
            param = refl;
            bitset_size = refl;
            random_tweak = refl;
            others = λ l e. refl;
          };
          n_free = refl;
        },
      )
    ]

-- The selection is the same in two states of one write.
pub reselect :
    (s t : Ftl) (req : Request) (k i : ℕ)
    → t.random_tweak ≡ s.random_tweak
    → Ongoing req.lpn (selects s req.io_flag) k i t
    → Ongoing req.lpn (selects t req.io_flag) k i t
reselect s t req k i e o = subst (λ x. Ongoing req.lpn (chosen req x) k i t) (sym e) o

pub place_units_lem :
    (d : Devices) (n : ℕ) (s : Ftl) (req : Request) (k i tick finished : ℕ) (partial send : Bool)
    → i + n ≡ s.bitset_size
    → Ongoing req.lpn (selects s req.io_flag) k i s
    → (r : ℕ × Ftl) × (place_units d s req k n i tick finished partial send ≡ ok r)
      × Ongoing req.lpn (selects r.1 req.io_flag) k r.1.bitset_size r.1
      × Kept req.lpn s r.1
unfolding place_units
place_units_lem d zero s req k i tick finished partial send e o = (
  (finished, s),
  refl,
  subst (λ x. Ongoing req.lpn (selects s req.io_flag) k x s) (omega arith) o,
  record {
    frame = record { param = refl; bitset_size = refl; random_tweak = refl; others = λ l e. refl };
    n_free = refl;
  },
)
place_units_lem d (suc n) s req k i tick finished partial send e o =
    let (r, run, next, kept) =
      place_if_lem d s req k i tick finished partial send (omega arith) o in
    let next' = reselect s r.1 req k (suc i) kept.frame.random_tweak next in
    let (u, rest, last, kept') =
      place_units_lem d n r.1 req k (suc i) tick r.0 partial send (omega (arith, kept.frame))
        next' in
    (u, rw run rest, last, Kept-trans req.lpn s r.1 u.1 kept kept')
