-- ===== src/Knowledge/Docs.antt =====
-- The list of the documents on the page of the knowledge base.
use apifor_dev.Common.{
  ℕ, ◌*◌, String, ◌==◌, Bool, ◌||◌, Option, none, some, List, [], ◌++◌, ltb, nat_eq, if◌then◌else◌,
  default, filter,
}
use apifor_dev.Common.Text
use apifor_dev.Knowledge.{Knowledge, Doc}
use apifor_dev.Paging.{rows}

-- `[...(kbRaw || []), ...localDocs]`
unfoldable pub all_docs : Option (List Doc) → Knowledge → List Doc
all_docs kb s = default [] kb ++ s.local_docs

unfoldable pub cat_color : String → String × String
cat_color c =
    if c == "Manual"
    then ("var(--blue-tint,rgba(88,166,255,.12))", "var(--blue)")
    else if c == "Especificação"
    then ("var(--accent-tint)", "var(--accent)")
    else if c == "API"
    then ("var(--green-tint)", "var(--green)")
    else if c == "Guia"
    then ("var(--orange-tint,rgba(255,166,0,.12))", "var(--orange)")
    else if c == "Referência"
    then ("var(--elev)", "var(--dim)")
    else if c == "Anotação"
    then ("var(--red-tint)", "var(--red)")
    else ("var(--elev)", "var(--dim)")

-- `fmtSize`: the unit, and the number of bytes it counts; `fixed n d` writes n / d with one decimal.
unfoldable pub fmt_size : (ℕ → String) → (ℕ → ℕ → String) → Option ℕ → Option String
fmt_size show fixed none = none
fmt_size show fixed (some n) =
    if nat_eq n 0
    then none
    else if ltb n 1024
    then some (Text.append (show n) " B")
    else if ltb n (1024 * 1024)
    then some (Text.append (fixed n 1024) " KB")
    else some (Text.append (fixed n (1024 * 1024)) " MB")

module _ (lower : String → String) where
  unfoldable pub found_by : String → Doc → Bool
  found_by q d =
      (q == "")
      || Text.includes (lower d.name) (lower q)
      || Text.includes (lower (default "" d.content)) (lower q)

  unfoldable pub filtered : String → String → List Doc → List Doc
  unfolding found_by
  filtered cat q docs =
      filter (found_by q) (filter (λ d. (cat == "todos") || (d.category == cat)) docs)

  -- The documents of the page shown, of twenty.
  unfoldable pub docs_page : String → String → ℕ → List Doc → List Doc
  unfolding filtered rows
  docs_page cat q page docs = rows 20 page (filtered cat q docs)
