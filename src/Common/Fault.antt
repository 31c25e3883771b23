-- ===== src/Common/Fault.antt =====
-- Results of code that can stop: `panic(...)` of sim/trace.hh, and `std::out_of_range` of `at`.
use mathlib.Core.Path.{◌≡◌, refl}
use mathlib.Core.Bool.{Bool, true, false}
use mathlib.Core.Option.{Option, none, some}

-- The reasons, by the messages of the source.
pub data Fault : Type 0 where
  out_of_range : Fault
  size_mismatch : Fault
  invalid_io_unit : Fault
  io_map_mismatch : Fault
  write_not_sequential : Fault
  write_not_erased : Fault
  index_out_of_range : Fault
  corrupted : Fault
  no_free_block : Fault
  block_not_in_use : Fault
  invalid_block : Fault
  invalid_mapping : Fault
  no_such_block : Fault
  valid_pages_in_victim : Fault
  gc_in_initialization : Fault
  dangling : Fault
  queue_overflow : Fault

pub data Result {ℓ} (A : Type ℓ) : Type ℓ where
  ok : A → Result A
  panic : Fault → Result A

infixl 5 ◌>>=◌ ◌>>◌
abbrev pub ◌>>=◌ {ℓ₁ ℓ₂} : {S : Type ℓ₁} {T : Type ℓ₂} → Result S → (S → Result T) → Result T
panic fault >>= next = panic fault
ok value >>= next = next value

abbrev pub ◌>>◌ {ℓ₁ ℓ₂} : {S : Type ℓ₁} {T : Type ℓ₂} → Result S → Result T → Result T
first >> then_run = first >>= λ _. then_run

-- `if (!test) panic(...)`.
abbrev pub require : Bool → Fault → Result (Unit {0})
require false fault = panic fault
require true fault = ok tt

abbrev pub or_panic {ℓ} : {A : Type ℓ} → Option A → Fault → Result A
or_panic none fault = panic fault
or_panic (some value) fault = ok value

-- Inversion of a run that does not stop.
pub >>=-eq-ok {ℓ₁ ℓ₂} :
    {S : Type ℓ₁} {T : Type ℓ₂} (first : Result S) (next : S → Result T) {t : T}
    → (first >>= next) ≡ ok t
    → (value : S) × (first ≡ ok value) × (next value ≡ ok t)
>>=-eq-ok (panic fault) next h = cc
>>=-eq-ok (ok value) next h = (value, refl, h)

pub or_panic-eq-ok {ℓ} :
    {S : Type ℓ} (o : Option S) (fault : Fault) {s : S} → or_panic o fault ≡ ok s → o ≡ some s
or_panic-eq-ok none fault h = cc
or_panic-eq-ok (some t) fault h = cc
