-- ===== src/Ftl/Seen.antt =====
-- What a read leaves of a block, for `readInternal` of ftl/page_mapping.cc.
use testing.Common.{ℕ, ◌≡◌, ◌∙◌, refl, inl, inr, List, some, if◌then◌else◌, Bool-cases}
use testing.Common.Maps.{lookup, put}
use testing.Block.{Block}
use testing.Block.Valid
use testing.Block.Slots.{valid_at, erased_at, lpn_at, retime-IsLaidOut}
use testing.Ftl.State.{Ftl, Param, Mapping, Command}
use testing.Ftl.Invariant.{Fits, Mapped, WellFormed, nothing_open}
use testing.Ftl.Slots.{put-InUse, put-Pooled, put-lookup, put-Holds}
use testing.Ftl.Place.{restore, restore-WellFormedBut}

-- The block after a read of slot `(p, i)` at `tick`.
abbrev pub seen : Block → ℕ → ℕ → ℕ → Block
seen b p i tick = if valid_at b p i then record b { last_accessed = tick } else b

retimed-IsValid :
    (b : Block) (tick : ℕ) → Valid.IsValid b → Valid.IsValid (record b { last_accessed = tick })
unfolding valid_at erased_at
retimed-IsValid b tick v = record {
  laid_out = retime-IsLaidOut b tick b.next_write_page_index v.laid_out;
  next_units = v.next_units;
  small = v.small;
  next_in = v.next_in;
  exclusive = λ p i r. v.exclusive p i (record { page = r.page; unit = r.unit });
  ahead = λ p i r. v.ahead p i (record { page = r.page; unit = r.unit });
}

-- A read changes nothing of a block that the invariant speaks of.
pub record Same (g : Param) (b c : Block) : Type 0 where
  pub fits : Fits g c
  pub idx : c.idx ≡ b.idx
  pub valid : (p i : ℕ) → valid_at c p i ≡ valid_at b p i
  pub lpns : (p i : ℕ) → lpn_at c p i ≡ lpn_at b p i

retimed-Same :
    (g : Param) (b : Block) (tick : ℕ) → Fits g b → Same g b (record b { last_accessed = tick })
unfolding valid_at lpn_at
retimed-Same g b tick f = record {
  fits = record {
    sound = retimed-IsValid b tick f.sound;
    pages = f.pages;
    units = f.units;
    inside = f.inside;
  };
  idx = refl;
  valid = λ p i. refl;
  lpns = λ p i. refl;
}

pub seen-Same : (g : Param) (b : Block) (p i tick : ℕ) → Fits g b → Same g b (seen b p i tick)
seen-Same g b p i tick f = elim (Bool-cases (valid_at b p i)) [
  | inl e ↦ rw e (retimed-Same g b tick f)
  | inr e ↦ rw e (record { fits = f; idx = refl; valid = λ p i. refl; lpns = λ p i. refl })
]

pub put-WellFormed :
    (s : Ftl) (k : ℕ) (b c : Block) (log : List Command)
    → WellFormed s
    → lookup k s.blocks ≡ some b
    → Same s.param b c
    → WellFormed (restore s (put k c s.blocks) s.table log)
put-WellFormed s k b c log w at g =
    restore-WellFormedBut s (put k c s.blocks) s.table log 0 nothing_open nothing_open w
      (put-InUse s.param s.blocks k b c at w.blocks g.fits (g.idx ∙ (w.blocks k b at).1))
      (put-Pooled s.param s.blocks k b c at s.free_blocks w.pool)
      (put-lookup s.param s.blocks k b c at)
      (λ l ms e.
        let (len, each) = w.table l ms e in (len, λ i m em closed. keep l i m (each i m em closed)))
  where
    keep :
        (l i : ℕ) (m : Mapping)
        → Mapped s.param s.blocks l i m
        → Mapped s.param (put k c s.blocks) l i m
    keep l i m (inl u) = inl u
    keep l i m (inr (x, y, h)) = inr (
      x,
      y,
      put-Holds s.param s.blocks k b c at m.0 m.1 i l h
          λ _ v q. (g.valid m.1 i ∙ v, g.lpns m.1 i ∙ q),
    )
