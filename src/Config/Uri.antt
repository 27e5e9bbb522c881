-- ===== src/Config/Uri.antt =====
-- `s.replace(p, "")` on texts: the first occurrence is removed.
use Prim.Native.String.{String, [], ◌∷◌}
use apifor_dev.Common.{if◌then◌else◌}
use apifor_dev.Common.Text

abbrev pub without_first : String → String → String
without_first p [] = ""
without_first p (c ∷ s) =
    let rest = without_first p s in
    if Text.starts_with (c ∷ s) p then Text.drop (Text.length p) (c ∷ s) else c ∷ rest
