-- ===== src/Home/Feed.antt =====
-- The log of the home page: the last forty lines of a level.
use apifor_dev.Common.{
  String, ◌==◌, Bool, true, not, Option, List, [], ◌∷◌, if◌then◌else◌, default, filter, take_last,
  contains,
}
use apifor_dev.Common.Text

pub record Log : Type 0 where
  pub when : Option String
  pub task_id : Option String
  pub type : String
  pub status : String
  pub log : Option String

unfoldable pub log_level : String → String × String
log_level status =
    if contains ("failed" ∷ "changes" ∷ "error" ∷ []) status
    then ("ERRO", "var(--red)")
    else if status == "warn"
    then ("AVISO", "var(--orange)")
    else if contains ("done" ∷ "passed" ∷ "approved" ∷ "merged" ∷ []) status
    then ("OK", "var(--green)")
    else ("INFO", "var(--blue)")

unfoldable pub admits : String → String → Bool
admits level status =
    if level == "info"
    then not (contains ("failed" ∷ "changes" ∷ "warn" ∷ "error" ∷ []) status)
    else if level == "warn"
    then status == "warn"
    else if level == "error"
    then contains ("failed" ∷ "changes" ∷ "error" ∷ []) status
    else true

unfoldable pub filtered_logs : String → List Log → List Log
unfolding admits
filtered_logs level logs = take_last 40 (filter (λ l. admits level l.status) logs)

-- One line of the feed.
pub record Line : Type 0 where
  pub at : String
  pub level : String × String
  pub text : String

unfoldable pub line : Log → Line
unfolding log_level
line l = record {
  at = Text.take 8 (Text.drop 11 (default "" l.when));
  level = log_level l.status;
  text = default l.status l.log;
}
