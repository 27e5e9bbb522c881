-- ===== src/Knowledge/Snippet.antt =====
-- The first characters of a document on one line: `content.slice(0, 80).replace(/\n/g, " ")`
-- (app/dashboard/app/knowledge/page.tsx).
use Prim.Native.Char.{code}
use Prim.Native.String.{String, [], ◌∷◌}
use apifor_dev.Common.{nat_eq, if◌then◌else◌}
use apifor_dev.Common.Text

abbrev pub one_line : String → String
one_line [] = ""
one_line (c ∷ s) =
    let rest = one_line s in if nat_eq (code c) 10 then Text.append " " rest else c ∷ rest

abbrev pub snippet : String → String
snippet s = one_line (Text.take 80 s)
