-- ===== src/Shell/Sidebar/Laws.antt =====
-- Which entries of the sidebar are lit.
use apifor_dev.Common.{
  ℕ, String, ◌==◌, eq_iff, ◌≡◌, refl, sym, ap, subst, ◌∙◌, inl, inr, Bool, true, false, ◌&&◌, not,
  Option, List, [], ◌∷◌, ◌++◌, map, map-append, arith, eq_comm, if◌then◌else◌, Bool-cases, count,
  contains, count-cons,
}
use apifor_dev.Shell.Sidebar.{Entry, entry, sidebar, Section, section}
use apifor_dev.Lang.{nav, Group, NavItem}
use apifor_dev.Shell.Counts.{Counts}

abbrev pub distinct_texts : List String → Bool
distinct_texts [] = true
distinct_texts (x ∷ xs) = not (contains xs x) && distinct_texts xs

abbrev pub hrefs : List NavItem → List String
hrefs is = map (λ (i : NavItem). i.href) is

-- The entries of all sections, from above.
abbrev pub entries : List Section → List Entry
entries [] = []
entries (s ∷ ss) = s.entries ++ entries ss

abbrev pub all_items : List Group → List NavItem
all_items [] = []
all_items (g ∷ gs) = g.items ++ all_items gs

entries-section :
    (path lang : String) (c : Option Counts) (gs : List Group)
    → entries (map (section path lang c) gs) ≡ map (entry path lang c) (all_items gs)
unfolding section
entries-section path lang c [] = refl
entries-section path lang c (g ∷ gs) =
    ap (λ r. map (entry path lang c) g.items ++ r) (entries-section path lang c gs)
    ∙ sym (map-append (entry path lang c) g.items (all_items gs))

count-active :
    (path lang : String) (c : Option Counts) (is : List NavItem)
    → distinct_texts (hrefs is) ≡ true
    → count (λ e. e.active) (map (entry path lang c) is)
      ≡ (if contains (hrefs is) path then 1 else 0)
unfolding entry
count-active path lang c [] h = refl
count-active path lang c (i ∷ is) h =
    let ih = count-active path lang c is (ground arith) in
    let n =
      count-cons (λ (e : Entry). e.active) (entry path lang c i) (map (entry path lang c) is) in
    let f = eq_comm path i.href in
    elim (Bool-cases (i.href == path)) [
      | inl e ↦
          let new : contains (hrefs is) i.href ≡ false = ground arith in
          let k : contains (hrefs is) path ≡ false =
            subst (λ s. contains (hrefs is) s ≡ false) ((eq_iff i.href path).0 e) new in
          ground (arith, ih, n, f, e, k)
      | inr e ↦ ground (arith, ih, n, f, e)
    ]

-- On a path of the navigation exactly one entry of the sidebar is lit, and on any other path none.
pub sidebar-active :
    (write : ℕ → String) (path lang : String) (c : Option Counts)
    → count (λ e. e.active) (entries (sidebar write path lang c).sections)
      ≡ (if contains (hrefs (all_items nav)) path then 1 else 0)
unfolding sidebar nav
sidebar-active write path lang c =
    ap (count (λ e. e.active)) (entries-section path lang c nav)
    ∙ count-active path lang c (all_items nav) refl
