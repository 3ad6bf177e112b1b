-- ===== src/Json.antt =====
-- JSON values as the journal, the manifests and the execution bundles hold them: what Python reads
-- with `json.loads` and calls `Any`. An object is an association list whose first entry for a key
-- counts. `dict.get`, `{**d, k: v}`, and Python's truth test.
use hedloom.Base.{
  ℕ, ◌≡◌, refl, String, Bool, true, false, not, Option, none, some, List, [], ◌∷◌, arith, eq_iff,
  str_eq, if◌then◌else◌, ◌==◌,
}

-- `nat n` is a non-negative integer, `neg n` is -(n + 1), and `real` keeps a float's text.
mutual
  pub data Json : Type 0 where
    null : Json
    bool : Bool → Json
    nat : ℕ → Json
    neg : ℕ → Json
    real : String → Json
    str : String → Json
    arr : Items → Json
    obj : Fields → Json

  pub data Items : Type 0 where
    nil : Items
    item : Json → Items → Items

  pub data Fields : Type 0 where
    end : Fields
    field : String → Json → Fields → Fields

-- `key in d` and the value there
abbrev pub lookup : String → Fields → Option Json
lookup k end = none
lookup k (field j v fs) = if str_eq j k then some v else lookup k fs

-- `d.get(key, default)`
abbrev pub get_or : String → Json → Fields → Json
get_or k d fs = elim (lookup k fs) [ none ↦ d | some v ↦ v ]

-- `d.get(key)`
abbrev pub get : String → Fields → Json
get k = get_or k null

-- `{**d, key: value}`
abbrev pub put : String → Json → Fields → Fields
put k v end = field k v end
put k v (field j w fs) = if str_eq j k then field k v fs else field j w (put k v fs)

-- `{**d, **e}`
abbrev pub merge : Fields → Fields → Fields
merge d end = d
merge d (field k v fs) = merge (put k v d) fs

-- `{k: v for k, v in d.items() if k != key}`
abbrev pub without : String → Fields → Fields
without k end = end
without k (field j v fs) = if str_eq j k then without k fs else field j v (without k fs)

-- Python's truth value of a JSON value.
abbrev pub truthy : Json → Bool
truthy null = false
truthy (bool b) = b
truthy (nat n) = not (n == 0)
truthy (neg n) = true
truthy (real s) = not (str_eq s "0.0")
truthy (str s) = not (str_eq s "")
truthy (arr nil) = false
truthy (arr (item x xs)) = true
truthy (obj end) = false
truthy (obj (field k v fs)) = true

-- `a or b`
abbrev pub or_else : Json → Json → Json
or_else a b = if truthy a then a else b

abbrev pub is_null : Json → Bool
is_null null = true
is_null _ = false

-- `x or {}` where `x` is read as a mapping: the fields of an object, and none otherwise.
abbrev pub fields_of : Json → Fields
fields_of (obj fs) = fs
fields_of _ = end

abbrev pub to_list : Items → List Json
to_list nil = []
to_list (item x xs) = x ∷ to_list xs

-- `x or ()` where `x` is read as a sequence.
abbrev pub items_of : Json → List Json
items_of (arr xs) = to_list xs
items_of _ = []

-- `isinstance(x, int) and not isinstance(x, bool) and x >= 0`, with the number.
abbrev pub natural : Json → Option ℕ
natural (nat n) = some n
natural _ = none

pub lookup-put :
    (k j : String) (v : Json) (fs : Fields)
    → lookup j (put k v fs) ≡ (if str_eq k j then some v else lookup j fs)
lookup-put k j v end = refl
lookup-put k j v (field i w fs) =
    ground (arith, eq_iff k j, eq_iff i k, eq_iff i j, lookup-put k j v fs)
