-- ===== src/Bitset/Tests.antt =====
-- The theorems about util/bitset.cc at work on a bitset of ten bits.
use testing.Common.{◌<◌, ◌≡◌, refl, true, arith}
use testing.Bitset.{Bitset, of_size, test, set_at, set_all, count}
use testing.Bitset.Valid.{IsValid, of_size-IsValid}
use testing.Bitset.Access.{set_at-IsValid}
use testing.Bitset.Count.{count_below, count_lem}
use testing.Bitset.Whole.{set_all-IsValid}

abbrev ten : Bitset
ten = of_size 10

ten-IsValid : IsValid ten
ten-IsValid = of_size-IsValid 10 (omega arith)

nine_lt : 9 < ten.data_size
nine_lt = unfold of_size in omega arith

-- Ten bits of which the last is set.
abbrev marked : Bitset
marked = set_at ten 9 true

marked-IsValid : IsValid marked
marked-IsValid = set_at-IsValid ten ten-IsValid 9 nine_lt true

same_size : ten.data_size ≡ marked.data_size
same_size = unfold set_at in refl

count_example : count marked ≡ count_below marked.data_size (test marked)
count_example = count_lem marked marked-IsValid

set_all-IsValid_example : IsValid (set_all marked)
set_all-IsValid_example = set_all-IsValid marked marked-IsValid.shape
