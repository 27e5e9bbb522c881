-- ===== src/Org/Ids.antt =====
-- What the organisation page reads off the characters of an id (app/dashboard/app/org/page.tsx): the
-- ids are of the basic plane.
use Prim.Native.Nat.{ℕ, ◌+◌}
use Prim.Native.Char.{code}
use Prim.Native.String.{String, [], ◌∷◌}

-- `[...id].reduce((a, c) => a + c.charCodeAt(0), 0)`
abbrev pub sum_codes : String → ℕ
sum_codes [] = 0
sum_codes (c ∷ s) = code c + sum_codes s

-- `id.charCodeAt(id.length - 1)`; an id is not empty.
abbrev pub last_code : String → ℕ
last_code [] = 0
last_code (c ∷ []) = code c
last_code (c ∷ d ∷ s) = last_code (d ∷ s)

-- `id.charCodeAt(0)`
abbrev pub first_code : String → ℕ
first_code [] = 0
first_code (c ∷ s) = code c
