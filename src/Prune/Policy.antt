-- ===== src/Prune/Policy.antt =====
-- `RetentionRule` and `RetentionPolicy`, with the checks of their constructors.
use hedloom.Base.{
  ℕ, String, Bool, true, false, not, ◌&&◌, ◌||◌, Option, none, some, List, [], ◌∷◌, any, all,
  str_eq, is_some,
}
use hedloom.Result.{Result, ok, ◌>>=?◌, guard, retention_error}
use hedloom.Prune.Units.{duration, size}

pub record RetentionRule : Type 0 where
  pub name : String
  pub outcome : List String
  pub older_than : Option String
  pub larger_than : Option String
  pub keep_latest : ℕ
  pub keep_logs : Bool

abbrev pub names_outcome : String → List String → Bool
names_outcome o = any (λ x. str_eq x o)

-- `_SELECTABLE_OUTCOMES`: the four terminal outcomes but `unreconciled`
abbrev pub is_selectable : String → Bool
is_selectable o = str_eq o "succeeded" || str_eq o "failed" || str_eq o "cancelled"

abbrev checked : (String → Result ℕ) → Option String → Result (Unit {0})
checked f none = ok tt
checked f (some text) = f text >>=? λ n. ok tt

abbrev is_empty : List String → Bool
is_empty [] = true
is_empty (x ∷ xs) = false

abbrev has_condition : RetentionRule → Bool
has_condition r = not (is_empty r.outcome) || is_some r.older_than || is_some r.larger_than

-- `RetentionRule.__post_init__`, of arguments of the declared types; `blank` is Python's
-- `not name.strip()`
unfoldable pub check_rule : (String → Bool) → RetentionRule → Result (Unit {0})
unfolding duration size
check_rule blank r = guard (not (blank r.name)) retention_error >>=? λ _.
    guard (not (names_outcome "unreconciled" r.outcome)) retention_error >>=? λ _.
    guard (all is_selectable r.outcome) retention_error >>=? λ _.
    checked duration r.older_than >>=? λ _.
    checked size r.larger_than >>=? λ _. guard (has_condition r) retention_error

pub record RetentionPolicy : Type 0 where
  pub rules : List RetentionRule
  pub floor : String

abbrev unique : List RetentionRule → Bool
unique [] = true
unique (r ∷ rs) = not (any (λ x. str_eq x.name r.name) rs) && unique rs

-- `RetentionPolicy.__post_init__`
unfoldable pub check_policy : RetentionPolicy → Result (Unit {0})
unfolding duration
check_policy p = duration p.floor >>=? λ n. guard (unique p.rules) retention_error
