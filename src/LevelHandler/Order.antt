-- ===== src/LevelHandler/Order.antt =====
-- Levels above 0 hold tables in the order of their keys, with ranges that do not meet.
use badger_rs.Common.{◌≡◌, arith}
use badger_rs.Common.{true, ◌||◌}
use badger_rs.Common.{List, [], ◌∷◌}
use badger_rs.Common.{All}
use badger_rs.Common.Keys.{key_lt, key_le, key_cmp_trans, key_lt_le_trans}
use badger_rs.TableRef.{Table}

abbrev pub IsTable : Table → Type 0
IsTable t = key_le t.smallest t.biggest ≡ true

abbrev pub Before : Table → Table → Type 0
Before t u = key_lt t.biggest u.smallest ≡ true

abbrev pub Ordered : List Table → Type 0
Ordered [] = Unit
Ordered (t ∷ ts) = IsTable t × All (Before t) ts × Ordered ts

-- `t` and `u` do not meet, on either side.
abbrev pub Apart : Table → Table → Type 0
Apart t u = (key_lt t.biggest u.smallest || key_lt u.biggest t.smallest) ≡ true

Before-trans : (t u v : Table) → Before t u → IsTable u → Before u v → Before t v
Before-trans t u v h i k = ground (
  arith,
  key_cmp_trans t.biggest u.smallest v.smallest,
  key_lt_le_trans t.biggest u.smallest u.biggest,
  key_cmp_trans t.biggest u.biggest v.smallest,
)

pub All-Before-trans :
    (t u : Table) (vs : List Table) → Before t u → IsTable u → All (Before u) vs → All (Before t) vs
All-Before-trans t u [] h i k = tt
All-Before-trans t u (v ∷ vs) h i k = (Before-trans t u v h i k.0, All-Before-trans t u vs h i k.1)
