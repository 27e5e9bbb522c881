-- ===== src/Cloud/Number.antt =====
-- Reading a number off the front of a text, as the page of the cloud instances does.
use Prim.Native.Nat.{ℕ, ◌+◌, ◌*◌, ◌-◌}
use Prim.Native.Char.{code}
use Prim.Native.String.{String, [], ◌∷◌}
use apifor_dev.Common.{◌&&◌, Option, none, some, leb, if◌then◌else◌}

-- The value of the digits at the front of a text, after those already read.
abbrev pub digits : String → ℕ → ℕ
digits [] n = n
digits (c ∷ s) n =
    let rest = digits s (10 * n + (code c - 48)) in
    if leb 48 (code c) && leb (code c) 57 then rest else n

-- `parseInt(s)` of a text without blanks or a sign in front; `none` is NaN.
abbrev pub parse_int : String → Option ℕ
parse_int [] = none
parse_int (c ∷ s) = if leb 48 (code c) && leb (code c) 57 then some (digits (c ∷ s) 0) else none
