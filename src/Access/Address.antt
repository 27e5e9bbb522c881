-- ===== src/Access/Address.antt =====
-- The parts of an address of the dashboard, as the browser's location gives them.
use Prim.Native.Char.{Char, code}
use Prim.Native.String.append
use Prim.Native.String.{String, [], ◌∷◌}
use apifor_dev.Common.Text
use apifor_dev.Common.{
  String, ◌≡◌, refl, ap, ◌∙◌, inl, inr, Bool, true, false, ◌&&◌, ◌||◌, not, [], ◌∷◌, arith, ltb,
  nat_eq, if◌then◌else◌, Bool-cases,
}

-- The path and the query of an address: a query starts with "?".
abbrev pub path_of : String → String
path_of [] = ""
path_of (c ∷ s) = if nat_eq (code c) 63 then "" else c ∷ path_of s

abbrev pub search_of : String → String
search_of [] = ""
search_of (c ∷ s) = if nat_eq (code c) 63 then c ∷ s else search_of s

abbrev pub has_query : String → Bool
has_query [] = false
has_query (c ∷ s) = if nat_eq (code c) 63 then true else has_query s

-- What follows the query's mark does not change the path.
pub path_of-append : (s t : String) → has_query s ≡ true → path_of (Text.append s t) ≡ path_of s
path_of-append [] t h = cc
path_of-append (c ∷ s) t h =
    ap path_of (append.cons c s t) ∙ elim (Bool-cases (nat_eq (code c) 63)) [
      | inl e ↦ rw e refl
      | inr e ↦ rw e (ap (λ p. c ∷ p) (path_of-append s t (ground arith)))
    ]

-- Whether a character stands for itself in a path: no control, no space, and none of the characters
-- with which a browser leaves the path or rewrites it ("#", "%", "." and the backslash).
abbrev pub is_plain_char : Char → Bool
is_plain_char c =
    let n = code c in ltb 32 n && not (nat_eq n 35 || (nat_eq n 37 || (nat_eq n 46 || nat_eq n 92)))

abbrev pub all_plain : String → Bool
all_plain [] = true
all_plain (c ∷ s) = is_plain_char c && all_plain s

-- Whether an address is a plain path of the same site, with or without a query: one "/" at its start,
-- not two, and nothing in the path that a browser reads otherwise.
abbrev pub is_plain : String → Bool
is_plain url =
    Text.starts_with url "/" && (not (Text.starts_with url "//") && all_plain (path_of url))
