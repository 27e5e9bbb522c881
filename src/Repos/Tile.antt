-- ===== src/Repos/Tile.antt =====
-- The code of a name's first character, which picks the colour of its tile (`accentTile` in
-- app/dashboard/app/config/page.tsx).
use Prim.Native.Nat.{ℕ}
use Prim.Native.Char.{code}
use Prim.Native.String.{String, [], ◌∷◌}

-- `name.charCodeAt(0) || 0`, of a character of the basic plane.
abbrev pub first_code : String → ℕ
first_code [] = 0
first_code (c ∷ s) = code c
