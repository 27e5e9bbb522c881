-- ===== src/Shell/Sidebar.antt =====
-- The sidebar (`Sidebar` in app/dashboard/app/ui.tsx): the groups of the navigation with the entry of
-- the current path lit, the badges, and the line about the pool. `write` prints a number.
pub mod Laws
use apifor_dev.Common.{ℕ, String, ◌==◌, Bool, Option, List, map, if◌then◌else◌}
use apifor_dev.Common.Text
use apifor_dev.Lang.{NavItem, Group, nav, nav_label, t}
use apifor_dev.Shell.Counts.{badge, Counts, n_workers, count_at}

pub record Entry : Type 0 where
  pub href : String
  pub label : String
  pub active : Bool
  pub badge : Option (ℕ × String)

unfoldable pub entry : String → String → Option Counts → NavItem → Entry
unfolding nav_label count_at badge
entry path lang c i = record {
  href = i.href;
  label = nav_label lang i.href i.label;
  active = path == i.href;
  badge = badge (count_at c i.count_key) (if i.href == "/interventions" then "red" else "accent");
}

pub record Section : Type 0 where
  pub title : String
  pub entries : List Entry

unfoldable pub section : String → String → Option Counts → Group → Section
unfolding t entry
section path lang c g = record { title = t lang g.key; entries = map (entry path lang c) g.items }

pub record Bar : Type 0 where
  pub sections : List Section
  pub pool : String

module _ (write : ℕ → String) where
  unfoldable pub sidebar : String → String → Option Counts → Bar
  unfolding nav section t n_workers
  sidebar path lang c = record {
    sections = map (section path lang c) nav;
    pool =
        Text.append (t lang "pool")
          (Text.append " · " (Text.append (write (n_workers c)) " worker(s) · v0.9"));
  }
