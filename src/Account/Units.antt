-- ===== src/Account/Units.antt =====
-- The length of a text as JavaScript counts it, in UTF-16 code units.
use Prim.Native.Nat.{ℕ, ◌+◌}
use Prim.Native.Char.{code}
use Prim.Native.String.{String, [], ◌∷◌}
use apifor_dev.Common.{leb, if◌then◌else◌}

abbrev pub units : String → ℕ
units [] = 0
units (c ∷ s) = (if leb 65536 (code c) then 2 else 1) + units s
