-- ===== src/Cloud/Totals.antt =====
-- The totals over the instances, and the rows of their table.
-- `s + parseInt(n.specs)`: NaN absorbs.
use apifor_dev.Common.{
  ℕ, ◌+◌, String, ◌==◌, Bool, true, false, Option, none, some, List, [], ◌∷◌, map, ltb, nat_eq,
  if◌then◌else◌, length,
}
use apifor_dev.Common.Text
use apifor_dev.Paging.{rows}
use apifor_dev.Queue.{pager, Pager}
use apifor_dev.Cloud.{Cloud, filtered, Node}
use apifor_dev.Cloud.Number.{parse_int}

abbrev pub plus : Option ℕ → Option ℕ → Option ℕ
plus none b = none
plus (some a) none = none
plus (some a) (some b) = some (a + b)

unfoldable pub total_vcpu : List Node → Option ℕ
total_vcpu [] = some 0
total_vcpu (n ∷ ns) = plus (parse_int n.specs) (total_vcpu ns)

unfoldable pub total_work : List Node → ℕ
total_work [] = 0
total_work (n ∷ ns) = (if n.paused then 0 else n.workers) + total_work ns

unfoldable pub bar_color : String → ℕ → String
bar_color usual pct =
    if ltb 80 pct then "var(--red)" else if ltb 60 pct then "var(--orange)" else usual

unfoldable pub status_color : String → String × String
status_color status =
    if status == "ativo"
    then ("var(--green)", "var(--green-tint)")
    else if status == "escalando"
    then ("var(--orange)", "var(--orange-tint,rgba(240,136,62,.15))")
    else ("var(--mute)", "var(--elev)")

abbrev node : String → String → String → String → ℕ → ℕ → ℕ → String → Bool → Bool → Node
node id region specs type workers cpu mem status pinned paused = record {
  id = id;
  region = region;
  specs = specs;
  type = type;
  workers = workers;
  cpu_pct = cpu;
  mem_pct = mem;
  status = status;
  pinned = pinned;
  paused = paused;
}

abbrev pub init_nodes : List Node
init_nodes =
    node "cld-1a2b3c" "sa-east-1" "4 vCPU · 8 GB" "standard" 3 68 54 "ativo" true false
    ∷ node "cld-4d5e6f" "sa-east-1" "2 vCPU · 4 GB" "standard" 1 22 31 "ocioso" false false
    ∷ node "cld-7g8h9i" "us-east-1" "8 vCPU · 16 GB" "compute" 5 91 72 "escalando" false false
    ∷ node "cld-0j1k2l" "us-east-1" "4 vCPU · 8 GB" "standard" 4 55 48 "ativo" true false
    ∷ node "cld-3m4n5o" "eu-west-1" "2 vCPU · 4 GB" "standard" 0 4 9 "ocioso" false true
    ∷ node "cld-6p7q8r" "eu-west-1" "16 vCPU · 32 GB" "memory" 8 43 85 "ativo" false false
    ∷ node "cld-9s0t1u" "us-west-2" "4 vCPU · 8 GB" "compute" 2 37 28 "ativo" false false
    ∷ []

-- One line of the table.
pub record Row : Type 0 where
  pub key : String
  pub pinned : Bool
  pub place : String
  pub type : String
  pub workers : ℕ
  pub cpu : ℕ × String
  pub mem : ℕ × String
  pub state : String × (String × String)
  pub button : String

unfoldable pub row : Node → Row
unfolding bar_color status_color
row n = record {
  key = n.id;
  pinned = n.pinned;
  place = Text.append n.region (Text.append " · " n.specs);
  type = n.type;
  workers = n.workers;
  cpu = (n.cpu_pct, bar_color "var(--accent)" n.cpu_pct);
  mem = (n.mem_pct, bar_color "var(--blue)" n.mem_pct);
  state =
      if n.paused
      then ("pausada", ("var(--mute)", "var(--elev)"))
      else (n.status, status_color n.status);
  button = if n.paused then "Retomar" else "Pausar";
}

-- What the page shows of its state: the cards' numbers, the table, the pager and the footer.
pub record Screen : Type 0 where
  pub instances : ℕ
  pub vcpus : Option ℕ
  pub table : List Row
  pub empty : Bool
  pub found : ℕ
  pub pages : Option Pager
  pub in_use : ℕ

module _ (lower : String → String) where
  unfoldable pub screen : Cloud → Screen
  unfolding rows filtered apifor_dev.Cloud.pages row total_vcpu total_work pager
  screen s =
      let visible = rows 5 s.page (filtered lower s) in
      record {
        instances = length s.nodes;
        vcpus = total_vcpu s.nodes;
        table = map row visible;
        empty = nat_eq (length visible) 0;
        found = length (filtered lower s);
        pages = pager (apifor_dev.Cloud.pages lower s) s.page;
        in_use = total_work s.nodes;
      }
