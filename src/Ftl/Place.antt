-- ===== src/Ftl/Place.antt =====
-- The loop of `writeInternal` (ftl/page_mapping.cc) that gives each unit of a request a new page.
use testing.Common.{
  ℕ, suc, ◌<◌, ◌≡◌, ◌∙◌, refl, sym, ap, subst, inl, inr, Bool, true, false, not, List, some, ◌==◌,
  ==→eq, ==-refl, length, length-set, set, get_elem?, get_elem?-set, get_elem?-lt, ◌&&◌, arith,
  Bool-cases, ltb,
}
use testing.Common.Maps.{lookup, put, lookup-put}
use testing.Block.{Block}
use testing.Block.Slots.{valid_at, erased_at, next_of, InRange}
use testing.Block.Write.{Written}
use testing.Ftl.State.{Ftl, Devices, Mapping, Request, Command, issue}
use testing.Ftl.Write.{read_before, write_command}
use testing.Ftl.Invariant.{Fits, InUse, Pooled, Mapped, TableBut, WellFormedBut}
use testing.Ftl.Slots.{put-Holds, found}

-- The units of a request from unit `i`.
abbrev pub pending : (ℕ → Bool) → ℕ → ℕ → Bool
pending f i j = not (ltb j i) && f j

-- Other blocks, another table and other commands.
abbrev pub restore : Ftl → List (ℕ × Block) → List (ℕ × List Mapping) → List Command → Ftl
restore s bs t log = record s { blocks = bs; table = t; issued = log }

pub restore-WellFormedBut :
    (s : Ftl) (bs : List (ℕ × Block)) (t : List (ℕ × List Mapping)) (log : List Command) (lpn : ℕ)
    (f h : ℕ → Bool)
    → WellFormedBut lpn f s
    → InUse s.param bs
    → Pooled s.param bs s.free_blocks
    → ((j : ℕ) → (d : Block) × (lookup j s.blocks ≡ some d) → (d : Block) × (lookup j bs ≡ some d))
    → TableBut s.param s.bitset_size bs t lpn h
    → WellFormedBut lpn h (restore s bs t log)
restore-WellFormedBut s bs t log lpn f h w u p keep tb = record {
  shape = record {
    some_page = w.shape.some_page;
    some_unit = w.shape.some_unit;
    units = w.shape.units;
  };
  blocks = u;
  pool = p;
  counted = w.counted;
  opened = record {
    channels = w.opened.channels;
    current = w.opened.current;
    in_use = λ c k e. keep k (w.opened.in_use c k e);
    io_map = w.opened.io_map;
  };
  table = tb;
}

pub read_before_lem :
    (d : Devices) (s : Ftl) (req : Request) (m : Mapping) (tick : ℕ) (on : Bool)
    → (t : ℕ) × (log : List Command) × (read_before d s req m tick on
        ≡ (t, restore s s.blocks s.table log))
unfolding read_before issue
read_before_lem d s req m tick true = (_, _, refl)
read_before_lem d s req m tick false = (tick, s.issued, refl)

pub write_command_lem :
    (d : Devices) (s : Ftl) (req : Request) (block page i tick : ℕ) (on : Bool)
    → (t : ℕ) × (log : List Command) × (write_command d s req block page i tick on
        ≡ (t, restore s s.blocks s.table log))
unfolding write_command issue
write_command_lem d s req block page i tick true = (_, _, refl)
write_command_lem d s req block page i tick false = (tick, s.issued, refl)

module _ (d : Devices) (s : Ftl) (req : Request) (k i : ℕ) (b : Block) (ms : List Mapping)
    (f : ℕ → Bool) (w : WellFormedBut req.lpn (pending f i) s) (i_in : i < s.bitset_size)
    (at : lookup k s.blocks ≡ some b) (room : next_of b i < s.pages_in_block)
    (here : lookup req.lpn s.table ≡ some ms) where
  abbrev page : ℕ
  page = next_of b i

  pub fits : Fits s.param b
  fits = (w.blocks k b at).0

  pub in_range : InRange b page i
  in_range = record { page = omega (arith, fits, room); unit = omega (arith, fits, w.shape, i_in) }

  abbrev pub retable : List (ℕ × List Mapping)
  retable = put req.lpn (set ms i (k, page)) s.table

  -- A slot that holds data is not the one that is written.
  elsewhere : (p j : ℕ) → InRange b p j → valid_at b p j ≡ true → (page == p && i == j) ≡ false
  elsewhere p j r v = elim (Bool-cases (page == p && i == j)) [
    | inr q ↦ q
    | inl q ↦
        let same : erased_at b page i ≡ erased_at b p j =
          ap (λ x. erased_at b x i) (==→eq page p (ground (arith, q)))
          ∙ ap (erased_at b p) (==→eq i j (ground (arith, q))) in
        ground (
          arith,
          fits.sound.exclusive p j r v,
          fits.sound.ahead page i in_range (omega arith),
          same,
        )
  ]

  kept_mapping :
      (tick l j : ℕ) (c : Block) (n : Mapping)
      → Written b page i req.lpn tick c
      → j < s.bitset_size
      → Mapped s.param s.blocks l j n
      → Mapped s.param (put k c s.blocks) l j n
  kept_mapping tick l j c n g lt (inl u) = inl u
  kept_mapping tick l j c n g lt (inr (x, y, h)) = inr (
    x,
    y,
    put-Holds s.param s.blocks k b c at n.0 n.1 j l h λ _ v q.
        let r : InRange b n.1 j = record {
          page = omega (arith, fits, y);
          unit = omega (arith, fits, w.shape, lt);
        } in
        let no = elsewhere n.1 j r v in (g.valid n.1 j r ∙ rw no v, g.lpns n.1 j r ∙ rw no q),
  )

  new_mapping :
      (tick : ℕ) (c : Block)
      → Written b page i req.lpn tick c
      → Mapped s.param (put k c s.blocks) req.lpn i (k, page)
  new_mapping tick c g = inr (
    omega (arith, fits, (w.blocks k b at).1),
    room,
    (
      c,
      found s.param s.blocks k b c at k ∙ rw (==-refl k),
      g.valid page i in_range ∙ rw (==-refl page, ==-refl i),
      g.lpns page i in_range ∙ rw (==-refl page, ==-refl i),
    ),
  )

  -- The new page holds the unit, and the data that is not open has not moved.
  pub placed_table :
      (tick : ℕ) (c : Block)
      → Written b page i req.lpn tick c
      → TableBut s.param s.bitset_size (put k c s.blocks) retable req.lpn (pending f (suc i))
  placed_table tick c g l ns e = elim (Bool-cases (req.lpn == l)) [
    | inl q ↦
        let same : set ms i (k, page) ≡ ns =
          ground (arith, lookup-put req.lpn l (set ms i (k, page)) ms s.table here, e, q) in
        let (len, each) = w.table req.lpn ms here in
        (
          ap length (sym same) ∙ length-set ms i (k, page) ∙ len,
          λ j m em closed.
              by_unit l j m (==→eq req.lpn l q) (len) (λ h. each j m h)
                (ap (λ x. get_elem? x j) same ∙ em) closed,
        )
    | inr q ↦
        let (len, each) =
          w.table l ns
            (ground (arith, lookup-put req.lpn l (set ms i (k, page)) ms s.table here, e, q)) in
        (
          len,
          λ j m em closed.
              kept_mapping tick l j c m g (omega (arith, len, get_elem?-lt ns j em))
                (each j m em (ground (arith, q))),
        )
  ]
    where
      by_unit :
          (l j : ℕ) (m : Mapping)
          → req.lpn ≡ l
          → length ms ≡ s.bitset_size
          → (get_elem? ms j ≡ some m
              → ((req.lpn == req.lpn) && pending f i j) ≡ false
              → Mapped s.param s.blocks req.lpn j m)
          → get_elem? (set ms i (k, page)) j ≡ some m
          → ((l == req.lpn) && pending f (suc i) j) ≡ false
          → Mapped s.param (put k c s.blocks) l j m
      by_unit l j m is len old em closed = elim (Bool-cases (i == j)) [
        | inl q ↦
            let new : (k, page) ≡ m =
              ground (arith, get_elem?-set ms i j (k, page) (omega (arith, len)), em, q) in
            subst (λ x. Mapped s.param (put k c s.blocks) x j m) is
              (subst (λ x. Mapped s.param (put k c s.blocks) req.lpn x m) (==→eq i j q)
                (subst (λ x. Mapped s.param (put k c s.blocks) req.lpn i x) new
                  (new_mapping tick c g)))
        | inr q ↦
            let was : get_elem? ms j ≡ some m =
              ground (arith, get_elem?-set ms i j (k, page) (omega (arith, len)), em, q) in
            subst (λ x. Mapped s.param (put k c s.blocks) x j m) is
              (kept_mapping tick req.lpn j c m g (omega (arith, len, get_elem?-lt ms j was))
                (old was (ground (arith, closed, is, q))))
      ]
