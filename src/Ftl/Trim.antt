-- ===== src/Ftl/Trim.antt =====
-- `trimInternal` of ftl/page_mapping.cc on each of its branches.
use testing.Common.{
  ℕ, ◌<◌, ◌≡◌, ◌∙◌, refl, sym, ap, subst, inl, inr, Bool, false, List, none, some, ◌==◌, ==-refl,
  get_elem?, get_elem?-lt, arith, Bool-cases, ok, panic, block_not_in_use,
}
use testing.Common.Maps.{lookup, erase, lookup-erase}
use testing.Ftl.State.{
  Ftl, Devices, Mapping, Request, Command, issue, dram_read, compute, cpu_trim_internal,
}
use testing.Ftl.Access.{table_bytes, trim_list, trim_internal}
use testing.Ftl.Invariant.{TableBut, WellFormedBut, WellFormed, nothing_open}
use testing.Ftl.Drop.{dropped, reblock, open_more}
use testing.Ftl.Prepare.{WellFormed-but}
use testing.Ftl.Place.{restore, pending, restore-WellFormedBut}
use testing.Ftl.Stored.{Stored, relog-WellFormedBut, close}
use testing.Ftl.Clear.{Clear}
use testing.Ftl.TrimUnits.{every, InDevice, trim_units_lem, trim_units_unmapped}

-- The page is gone from the table, its slots hold no valid data, and the other pages are as they were.
pub record Trimmed (s : Ftl) (lpn : ℕ) (t : Ftl) : Type 0 where
  pub well_formed : WellFormed t
  pub gone : lookup lpn t.table ≡ none
  pub cleared :
      (ms : List Mapping) (j : ℕ) (m : Mapping)
      → lookup lpn s.table ≡ some ms
      → get_elem? ms j ≡ some m
      → Clear t.blocks m.0 m.1 j
  pub others : (l : ℕ) → (l == lpn) ≡ false → lookup l t.table ≡ lookup l s.table

-- Erasing a page from the table, once its slots are invalid.
erase-Trimmed :
    (s t : Ftl) (lpn : ℕ) (f : ℕ → Bool) (log : List Command)
    → WellFormedBut lpn f t
    → t.table ≡ s.table
    → ((ms : List Mapping) (j : ℕ) (m : Mapping)
        → lookup lpn s.table ≡ some ms
        → get_elem? ms j ≡ some m
        → Clear t.blocks m.0 m.1 j)
    → Trimmed s lpn (restore t t.blocks (erase lpn t.table) log)
erase-Trimmed s t lpn f log w same clear = record {
  cleared = clear;
  well_formed = close _ lpn every (
      open_more _ lpn nothing_open (pending every t.bitset_size) (λ j _ q. ground (arith, q))
        (restore-WellFormedBut t t.blocks (erase lpn t.table) log lpn f nothing_open w w.blocks
          w.pool (λ j h. h) left));
  gone = lookup-erase lpn lpn t.table ∙ rw (==-refl lpn);
  others = λ l e. lookup-erase lpn l t.table ∙ ground (arith, e) ∙ ap (lookup l) same;
}
  where
    left : TableBut t.param t.bitset_size t.blocks (erase lpn t.table) lpn nothing_open
    left l ms e = elim (Bool-cases (lpn == l)) [
      | inl q ↦ gone (ground (arith, lookup-erase lpn l t.table, e, q))
      | inr q ↦
          let (len, each) = w.table l ms (ground (arith, lookup-erase lpn l t.table, e, q)) in
          (len, λ i m em _. each i m em (ground (arith, q)))
    ]
      where
        gone : {A : Type 0} → none ≡ some ms → A
        gone e = cc

start_trim :
    (s : Ftl) (lpn : ℕ) (log : List Command)
    → WellFormed s
    → WellFormedBut lpn (dropped every 0) (restore s s.blocks s.table log)
start_trim s lpn log w =
    relog-WellFormedBut s lpn (dropped every 0) log (WellFormed-but s lpn (dropped every 0) w)

trim_list_lem :
    (d : Devices) (s : Ftl) (req : Request) (ms : List Mapping) (tick : ℕ)
    → WellFormed s
    → lookup req.lpn s.table ≡ some ms
    → InDevice s ms 0
    → (r : ℕ × Ftl) × (trim_list d s req ms tick ≡ ok r) × Trimmed s req.lpn r.1
unfolding trim_list issue
trim_list_lem d s req ms tick w at has =
    let log = (issue d s (dram_read (table_bytes s req.io_flag)) tick).1.issued in
    let t = restore s s.blocks s.table log in
    let (bs, run, w', cleared, _) =
      trim_units_lem s.bitset_size t req.lpn 0 ms (omega arith) (start_trim s req.lpn log w) at
        has in
    let u = reblock t bs in
    let out =
      issue d (record u { table = erase req.lpn u.table }) (compute cpu_trim_internal)
        (issue d s (dram_read (table_bytes s req.io_flag)) tick).0 in
    (
      out,
      rw run,
      erase-Trimmed s u req.lpn (dropped every s.bitset_size) out.1.issued w' refl
          (λ ns j m there em.
            cleared j m (omega arith) (ap (λ z. get_elem? z j) (list_inj (sym at ∙ there)) ∙ em)),
    )
  where
    list_inj : {ns : List Mapping} → some ms ≡ some ns → ms ≡ ns
    list_inj q = cc

same_mapping :
    {ms ns : List Mapping} (j : ℕ) (m n : Mapping)
    → some ms ≡ some ns
    → get_elem? ms j ≡ some m
    → get_elem? ns j ≡ some n
    → n ≡ m
same_mapping j m n e em en = cc

-- A page whose units are all stored leads into the device.
Stored-InDevice :
    (s : Ftl) (lpn : ℕ) (ms : List Mapping)
    → WellFormed s
    → lookup lpn s.table ≡ some ms
    → ((i : ℕ) → i < s.bitset_size → Stored s lpn i)
    → InDevice s ms 0
Stored-InDevice s lpn ms w at all j m le e =
    let (ns, n, at', en, x, y, _) =
      all j (omega (arith, get_elem?-lt ms j e, (w.table lpn ms at).0)) in
    let same = same_mapping j m n (sym at ∙ at') e en in
    (
      subst (λ (z : Mapping). z.0 < s.total_physical_blocks) same x,
      subst (λ (z : Mapping). z.1 < s.pages_in_block) same y,
    )

-- On a well-formed state, a page whose units are all stored is trimmed: the trim succeeds, the
-- page leaves the table, the slots it was mapped to hold no valid data, the mappings of the other
-- pages stay, and the state is well-formed.
pub trim_internal_lem :
    (d : Devices) (s : Ftl) (req : Request) (tick : ℕ)
    → WellFormed s
    → ((i : ℕ) → i < s.bitset_size → Stored s req.lpn i)
    → (r : ℕ × Ftl) × (trim_internal d s req tick ≡ ok r) × Trimmed s req.lpn r.1
unfolding trim_internal
trim_internal_lem d s req tick w all =
    let (ms, _, at, _, _, _, _) = all 0 w.shape.some_unit in
    let (r, run, t) = trim_list_lem d s req ms tick w at (Stored-InDevice s req.lpn ms w at all) in
    (r, trim_of ms at ∙ run, t)
  where
    trim_of :
        (ms : List Mapping)
        → lookup req.lpn s.table ≡ some ms
        → trim_internal d s req tick ≡ trim_list d s req ms tick
    trim_of ms at = unfold trim_internal in rw (at, trim_internal) refl

trim_list_unmapped :
    (d : Devices) (s : Ftl) (req : Request) (tick j : ℕ) (ms : List Mapping) (m : Mapping)
    → WellFormed s
    → lookup req.lpn s.table ≡ some ms
    → get_elem? ms j ≡ some m
    → m.0 ≡ s.total_physical_blocks
    → trim_list d s req ms tick ≡ panic block_not_in_use
unfolding trim_list issue
trim_list_unmapped d s req tick j ms m w at e out =
    let log = (issue d s (dram_read (table_bytes s req.io_flag)) tick).1.issued in
    rw (
      trim_units_unmapped s.bitset_size (restore s s.blocks s.table log) req.lpn 0 j ms m
        (omega arith) (start_trim s req.lpn log w) at (omega arith) e out)

-- On a well-formed state, a mapped page with a unit that was never written cannot be trimmed: the
-- trim ends in the panic "Block is not in use".
pub trim_internal_unmapped :
    (d : Devices) (s : Ftl) (req : Request) (tick j : ℕ) (ms : List Mapping) (m : Mapping)
    → WellFormed s
    → lookup req.lpn s.table ≡ some ms
    → get_elem? ms j ≡ some m
    → m.0 ≡ s.total_physical_blocks
    → trim_internal d s req tick ≡ panic block_not_in_use
unfolding trim_internal
trim_internal_unmapped d s req tick j ms m w at e out =
    rw (at, trim_internal) (trim_list_unmapped d s req tick j ms m w at e out)
