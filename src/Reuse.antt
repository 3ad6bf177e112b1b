-- ===== src/Reuse.antt =====
-- Input identity: exec/src/hedloom_exec/reuse.py. The digest is blake2b over the canonical text of
-- the identity-bearing part of the bundle; that hash is a parameter.
use hedloom.Base.{
  ◌≡◌, refl, ap, String, Bool, false, Option, none, some, List, [], ◌∷◌, any, str_eq, arith, eq_iff,
  if◌then◌else◌,
}
use hedloom.Json.{Json, Fields, end, field, lookup, put, lookup-put, is_null}

-- `IDENTITY_KEYS`
abbrev pub identity_keys : List String
identity_keys =
    "operation" ∷ "operation_version" ∷ "implementation" ∷ "command" ∷ "arguments" ∷ "cwd"
    ∷ "inputs" ∷ "outputs" ∷ "identity_env" ∷ "observation_id" ∷ []

abbrev bears_identity : String → Bool
bears_identity k = any (λ i. str_eq i k) identity_keys

-- A key that the bundle lacks, or holds as `None`, adds nothing.
abbrev with_key : String → Option Json → Fields → Fields
with_key k none rest = rest
with_key k (some v) rest = if is_null v then rest else field k v rest

unfoldable pub material_of : List String → Fields → Fields
material_of [] bundle = end
material_of (k ∷ ks) bundle = with_key k (lookup k bundle) (material_of ks bundle)

-- `input_digest`
unfoldable pub input_digest : (Fields → String) → Fields → String
unfolding material_of
input_digest hash bundle = hash (material_of identity_keys bundle)

-- A key outside the list changes nothing of the material.
material_of-put :
    (ks : List String) (k : String) (v : Json) (bundle : Fields)
    → any (λ i. str_eq i k) ks ≡ false
    → material_of ks (put k v bundle) ≡ material_of ks bundle
unfolding material_of
material_of-put [] k v bundle h = refl
material_of-put (i ∷ ks) k v bundle h =
    grind (arith, eq_iff i k, eq_iff k i, lookup-put k i v bundle, material_of-put ks k v bundle)

-- A bundle key that bears no identity, such as `placement`, `workdir` or `try`, does not reach the
-- input digest: whatever is put there, the record stays the same.
pub digest_ignores_placement :
    (hash : Fields → String) (k : String) (v : Json) (bundle : Fields)
    → any (λ i. str_eq i k) identity_keys ≡ false
    → input_digest hash (put k v bundle) ≡ input_digest hash bundle
unfolding input_digest
digest_ignores_placement hash k v bundle h = ap hash (material_of-put identity_keys k v bundle h)
