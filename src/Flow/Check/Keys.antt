-- ===== src/Flow/Check/Keys.antt =====
-- The identities that a plan derives from authored keys: `_keyed_plan_id`, `_stable_edge_id` and the check
-- of authored keys in flow/src/hedloom_flow/model.py. `sha256` renders the digest of a text's UTF-8.
use Prim.Native.Char.{nul}
use Prim.Native.String.{◌++◌ as join}
use hedloom.Base.{
  ℕ, String, Bool, not, ◌&&◌, Option, none, some, List, [], ◌∷◌, ◌++◌, str_eq, if◌then◌else◌, any,
  decimal,
}
use hedloom.Flow.Text.{matches_id}
use hedloom.Flow.Values.{ArtifactReference, source_reference, output_reference}
use hedloom.Flow.Check.{
  Code, Issue, issue, issue_if, Place, under, invalid_authored_key, duplicate_authored_key,
  keyed_invoke_id_mismatch, keyed_flow_id_mismatch, opt_eq,
}

-- Two texts with a zero character between them.
abbrev zero_between : String → String → String
zero_between a b = join a (String.◌∷◌ nul b)

-- `kind` is `invoke` or `flow`.
pub data Owner : Type 0 where
  invoke flow : Owner

abbrev kind_text : Owner → String
kind_text invoke = "invoke"
kind_text flow = "flow"

abbrev pub mismatch : Owner → Code
mismatch invoke = keyed_invoke_id_mismatch
mismatch flow = keyed_flow_id_mismatch

abbrev scope_text : Option String → String
scope_text none = "root"
scope_text (some id) = zero_between "boundary" id

-- `_keyed_plan_id`, of a key in the right syntax
unfoldable pub keyed_plan_id : (String → String) → Owner → Option String → String → String
keyed_plan_id sha256 kind scope key =
    join (kind_text kind)
      (join ":key:" (sha256 (zero_between (kind_text kind) (zero_between (scope_text scope) key))))

abbrev source_text : ArtifactReference → String
source_text (source_reference id) = zero_between "source" id
source_text (output_reference r) =
    zero_between "output" (zero_between r.invocation_id r.output_name)

abbrev member_text : Option ℕ → String
member_text none = "scalar"
member_text (some i) = decimal i

-- `_stable_edge_id`
unfoldable pub stable_edge_id :
    (String → String) → ArtifactReference → String → String → Option ℕ → String
stable_edge_id sha256 source target input member = join "edge:key:" (
    sha256 (
      zero_between (source_text source)
        (zero_between target (zero_between input (member_text member)))))

-- One use of an authored key: who uses it, its scope, the key, the identity of the user and its place.
pub record KeyUse : Type 0 where
  pub kind : Owner
  pub scope : Option String
  pub key : Option String
  pub id : String
  pub path : Place

-- `(scope_id, authored_key)`
abbrev pub ScopedKey : Type 0
ScopedKey = Option String × String

abbrev pub same_scoped : ScopedKey → ScopedKey → Bool
same_scoped a b = opt_eq a.0 b.0 && str_eq a.1 b.1

-- `check_authored_key`, of a key that is given
abbrev pub key_issues : (String → String) → List ScopedKey → KeyUse → String → List Issue
key_issues sha256 seen u key =
    if matches_id key
    then issue_if (any (same_scoped (u.scope, key)) seen) duplicate_authored_key
        (under u.path "authored_key")
      ++ issue_if (not (str_eq u.id (keyed_plan_id sha256 u.kind u.scope key))) (mismatch u.kind)
          (under u.path "id")
    else issue invalid_authored_key (under u.path "authored_key")

-- The keys that `scoped_authored_keys` holds afterwards.
abbrev pub key_seen : List ScopedKey → KeyUse → String → List ScopedKey
key_seen seen u key = if matches_id key then (u.scope, key) ∷ seen else seen

-- The two loops of `check_authored_key`.
abbrev pub keys_issues : (String → String) → List ScopedKey → List KeyUse → List Issue
keys_issues sha256 seen [] = []
keys_issues sha256 seen (u ∷ us) = elim u.key [
  | none ↦ keys_issues sha256 seen us
  | some key ↦ key_issues sha256 seen u key ++ keys_issues sha256 (key_seen seen u key) us
]
