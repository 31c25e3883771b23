-- ===== src/Ftl/ReadBack.antt =====
-- `readInternal` of ftl/page_mapping.cc: it succeeds, and reads each unit from where it is stored.
use testing.Common.{
  ℕ, ◌<◌, ◌≡◌, ◌∙◌, refl, sym, ap, subst, inl, inr, Bool, true, List, ◌∷◌, none, some, get_elem?,
  arith, Option-cases, ok,
}
use testing.Common.Maps.{lookup}
use testing.Block.{Block}
use testing.Block.Slots.{Sized}
use testing.Ftl.State.{Ftl, Devices, Mapping, Request, issue, dram_read, compute, cpu_read_internal}
use testing.Ftl.Access.{selects, table_bytes, read_list, read_internal}
use testing.Ftl.Invariant.{Holds, Mapped, WellFormed, nothing_open}
use testing.Ftl.Place.{restore}
use testing.Ftl.Loop.{chosen}
use testing.Ftl.Write.{write_pages}
use testing.Ftl.Stored.{write_pages_lem, Stored, relog-WellFormedBut}
use testing.Ftl.Read.{Sent, unit_read, read_units_lem}

-- What a read promises: it changes no mapping and keeps the invariant, and every unit that it selects
-- and that is stored is read from a slot that holds it.
pub record Reads (s : Ftl) (req : Request) (t : Ftl) : Type 0 where
  pub well_formed : WellFormed t
  pub table : t.table ≡ s.table
  pub served :
      (i : ℕ)
      → i < s.bitset_size
      → selects s req.io_flag i ≡ true
      → Stored s req.lpn i
      → (m : Mapping) × Holds t.blocks m.0 m.1 i req.lpn × Sent (unit_read s req i m) t.issued

read_list_lem :
    (d : Devices) (s : Ftl) (req : Request) (ms : List Mapping) (tick : ℕ)
    → WellFormed s
    → lookup req.lpn s.table ≡ some ms
    → (r : ℕ × Ftl) × (read_list d s req ms tick ≡ ok r) × Reads s req r.1
unfolding read_list issue
read_list_lem d s req ms tick w at =
    let (t₁, s₁) = issue d s (dram_read (table_bytes s req.io_flag)) tick in
    let s₂ = restore s s.blocks s.table s₁.issued in
    let (t, bs, log, run, a) =
      read_units_lem d s.bitset_size s₂ req ms 0 t₁ tick
        (relog-WellFormedBut s 0 nothing_open s₁.issued w) at (omega arith) in
    let u = restore s bs s.table log in
    (
      issue d u (compute cpu_read_internal) t,
      rw run,
      record {
        well_formed =
            relog-WellFormedBut u 0 nothing_open (compute cpu_read_internal ∷ log) a.well_formed;
        table = refl;
        served = λ i lt sel (ns, m, at', em, x, y, _).
            let em' = ap (λ z. get_elem? z i) (list_inj (sym at ∙ at')) ∙ em in
            let (_, each) = a.well_formed.table req.lpn ms at in
            (
              m,
              held bs m i x (each i m em' (ground arith)),
              inr (a.sent i m (omega arith) lt sel em' x y),
            );
      },
    )
  where
    list_inj : {ns : List Mapping} → some ms ≡ some ns → ms ≡ ns
    list_inj e = cc

    held :
        (bs : List (ℕ × Block)) (m : Mapping) (i : ℕ)
        → m.0 < s.total_physical_blocks
        → Mapped s.param bs req.lpn i m
        → Holds bs m.0 m.1 i req.lpn
    held bs m i x (inl u) = absurd (omega (arith, u))
    held bs m i x (inr (_, _, h)) = h

-- On a well-formed state `readInternal` succeeds, changes no mapping and keeps the invariant, and
-- every selected unit that is stored is read from a valid slot that holds the page.
pub read_internal_lem :
    (d : Devices) (s : Ftl) (req : Request) (tick : ℕ)
    → WellFormed s
    → (r : ℕ × Ftl) × (read_internal d s req tick ≡ ok r) × Reads s req r.1
unfolding read_internal
read_internal_lem d s req tick w = elim (Option-cases (lookup req.lpn s.table)) [
  | inl e ↦ (
    (tick, s),
    rw (e, read_internal),
    record {
      well_formed = w;
      table = refl;
      served = λ i lt sel (ns, m, at, _, _, _, _). nowhere (sym e ∙ at);
    },
  )
  | inr (ms, e) ↦
      let (r, run, a) = read_list_lem d s req ms tick w e in (r, rw (e, read_internal) run, a)
]
  where
    nowhere : {A : Type 0} {ns : List Mapping} → none ≡ some ns → A
    nowhere e = cc

-- On a well-formed state with a free block left, and for an I/O flag of one bit per unit, a write
-- up to its collection succeeds, a read of the same request after it succeeds, and that read takes
-- every selected unit from a slot that is valid and holds the page. The state is well-formed
-- afterwards.
pub read_after_write :
    (d : Devices) (s : Ftl) (req : Request) (tick later : ℕ) (send : Bool)
    → WellFormed s
    → Sized s.io_unit_in_page req.io_flag
    → 0 < s.n_free_blocks
    → (r q : ℕ × Ftl) × (write_pages d s req tick send ≡ ok r)
      × (read_internal d r.1 req later ≡ ok q)
      × WellFormed q.1
      × ((i : ℕ)
          → i < s.bitset_size
          → selects s req.io_flag i ≡ true
          → (m : Mapping) × Holds q.1.blocks m.0 m.1 i req.lpn
            × Sent (unit_read r.1 req i m) q.1.issued)
read_after_write d s req tick later send w z left =
    let (r, run, a) = write_pages_lem d s req tick send w z left in
    let (q, run', b) = read_internal_lem d r.1 req later a.well_formed in
    (
      r,
      q,
      run,
      run',
      b.well_formed,
      λ i lt sel.
          b.served i (omega (arith, a.size)) (subst (λ x. chosen req x i ≡ true) (sym a.tweak) sel)
            (a.stored i lt sel),
    )
