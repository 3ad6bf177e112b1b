-- ===== src/Identity/RoundTrip.antt =====
-- The name of a try of a record can be read back.
use Prim.Native.Char.{Char, code}
use Prim.Native.String.{◌++◌}
use text.Mathlib.TextEquality.{Char-path}
use text.Mathlib.TextLemmas.{nil-append, cons-append, append_assoc, append-nil}
use hedloom.Base.{
  ℕ, zero, suc, String, true, Option, none, some, ◌≡◌, sym, ap, ◌∙◌, arith, ◌==◌, ==_iff, ==_refl,
  eq_iff, decimal, some_inj, undecimal-decimal, Bool-cases, Option-cases, inl, inr,
}
use hedloom.Identity.{
  after_prefix, is_hex, with_char, hex, with_head, identity_in, rendered, is_whole, is_rendered,
  try_name, numbered, number_in, name_in, parse_try_name,
}
use hedloom.Result.{ok, bad_identity, guard, ◌>>=?◌}

ok_inj {ℓ} : {A : Type ℓ} {a b : A} → ok a ≡ ok b → a ≡ b
ok_inj h = cc

pair_inj {ℓ κ} : {A : Type ℓ} {B : Type κ} {p q : A × B} → p ≡ q → (p.0 ≡ q.0) × (p.1 ≡ q.1)
pair_inj h = (ap (λ p. p.0) h, ap (λ p. p.1) h)

after-append : (p s : String) → after_prefix p (p ++ s) ≡ some s
after-append String.[] s = ap some (nil-append s)
after-append (String.◌∷◌ c p) s =
    ap (after_prefix (String.◌∷◌ c p)) (cons-append c p s)
    ∙ grind (arith, ==_refl (code c), after-append p s)

after-eq : (p s : String) {r : String} → after_prefix p s ≡ some r → s ≡ p ++ r
after-eq String.[] s {r} h = some_inj h ∙ sym (nil-append r)
after-eq (String.◌∷◌ c p) String.[] h = absurd (ground (arith, h))
after-eq (String.◌∷◌ c p) (String.◌∷◌ d s) {r} h = elim (Bool-cases (code c == code d)) [
  | inl q ↦
      ap (λ e. String.◌∷◌ e s) (sym (Char-path c d ((==_iff (code c) (code d)).0 q)))
      ∙ (ap (String.◌∷◌ c) (after-eq p s (ground (arith, q, h))) ∙ sym (cons-append c p r))
  | inr q ↦ absurd (ground (arith, q, h))
]

with_char-inv :
    (c : Char) (o : Option (String × String)) {h t : String}
    → with_char c o ≡ some (h, t)
    → (h' : String) × (o ≡ some (h', t)) × (h ≡ String.◌∷◌ c h')
with_char-inv c none e = absurd (ground (arith, e))
with_char-inv c (some (h', t')) e = (h', cc, cc)

hex-eq : (k : ℕ) (s : String) {h t : String} → hex k s ≡ some (h, t) → s ≡ h ++ t
hex-eq zero s {h} {t} e =
    let both = pair_inj (some_inj e) in both.1 ∙ (sym (nil-append t) ∙ ap (λ z. z ++ t) both.0)
hex-eq (suc k) String.[] e = absurd (ground (arith, e))
hex-eq (suc k) (String.◌∷◌ c s) {h} {t} e = elim (Bool-cases (is_hex (code c))) [
  | inl q ↦
      let found = with_char-inv c (hex k s) {h = h} {t = t} (ground (arith, q, e)) in
      ap (String.◌∷◌ c) (hex-eq k s found.1)
      ∙ (sym (cons-append c found.0 t) ∙ ap (λ z. z ++ t) (sym found.2))
  | inr q ↦ absurd (ground (arith, q, e))
]

hex-append :
    (k : ℕ) (s u : String) {h t : String}
    → hex k s ≡ some (h, t)
    → hex k (s ++ u) ≡ some (h, t ++ u)
hex-append zero s u {h} {t} e =
    let both = pair_inj (some_inj e) in ap some (λ i. (both.0 i, both.1 i ++ u))
hex-append (suc k) String.[] u e = absurd (ground (arith, e))
hex-append (suc k) (String.◌∷◌ c s) u {h} {t} e = elim (Bool-cases (is_hex (code c))) [
  | inl q ↦
      let found = with_char-inv c (hex k s) {h = h} {t = t} (ground (arith, q, e)) in
      ap (hex (suc k)) (cons-append c s u) ∙ grind (arith, q, hex-append k s u found.1, found.2)
  | inr q ↦ absurd (ground (arith, q, e))
]

-- What `rendered` has split is the text again.
rendered-eq : (s : String) {h t : String} → rendered s ≡ some (h, t) → s ≡ h ++ t
unfolding rendered
rendered-eq s {h} {t} e = elim (Option-cases (after_prefix "hedloom-" s)) [
  | inl p ↦ absurd (ground (arith, p, e))
  | inr (r, p) ↦ elim (Option-cases (hex 20 r)) [
    | inl q ↦ absurd (ground (arith, p, q, e))
    | inr (f, q) ↦
        let both = pair_inj (some_inj (sym (ap identity_in p ∙ ap with_head q) ∙ e)) in
        after-eq "hedloom-" s p
        ∙ (ap (λ z. "hedloom-" ++ z) (hex-eq 20 r q)
            ∙ (sym (append_assoc "hedloom-" f.0 f.1) ∙ λ i. both.0 i ++ both.1 i))
  ]
]

rendered-append :
    (s u : String) {h t : String} → rendered s ≡ some (h, t) → rendered (s ++ u) ≡ some (h, t ++ u)
unfolding rendered
rendered-append s u {h} {t} e = elim (Option-cases (after_prefix "hedloom-" s)) [
  | inl p ↦ absurd (ground (arith, p, e))
  | inr (r, p) ↦ elim (Option-cases (hex 20 r)) [
    | inl q ↦ absurd (ground (arith, p, q, e))
    | inr (f, q) ↦
        let both = pair_inj (some_inj (sym (ap identity_in p ∙ ap with_head q) ∙ e)) in
        ap (λ z. identity_in (after_prefix "hedloom-" (z ++ u))) (after-eq "hedloom-" s p)
        ∙ (ap (λ z. identity_in (after_prefix "hedloom-" z)) (append_assoc "hedloom-" r u)
            ∙ (ap identity_in (after-append "hedloom-" (r ++ u))
                ∙ (ap with_head (hex-append 20 r u q) ∙ λ i. some (both.0 i, both.1 i ++ u))))
  ]
]

-- An identity that `try_name` accepts is split off whole.
whole : (s : String) → is_rendered s ≡ true → rendered s ≡ some (s, "")
unfolding is_rendered
whole s e = elim (Option-cases (rendered s)) [
  | inl p ↦ absurd (ground (arith, p, e))
  | inr (f, p) ↦
      let empty = (eq_iff f.1 "").0 (sym (ap is_whole p) ∙ e) in
      let same = sym (rendered-eq s p ∙ (ap (λ z. f.0 ++ z) empty ∙ append-nil f.0)) in
      p ∙ λ i. some (same i, empty i)
]

-- A name that `try_name` gives is read back as the identity and the number that it was made of.
pub parse-try_name :
    (identity : String) (n : ℕ) (name : String)
    → try_name identity n ≡ ok name
    → parse_try_name name ≡ ok (identity, n)
unfolding try_name parse_try_name
parse-try_name identity n name e = elim (Bool-cases (is_rendered identity)) [
  | inl p ↦
      let tail = "-" ++ decimal n in
      let written : identity ++ tail ≡ name =
        ok_inj (sym (ap (λ b. guard b bad_identity >>=? λ _. ok (identity ++ tail)) p) ∙ e) in
      ap (λ z. name_in (rendered z)) (sym written)
      ∙ (ap name_in (rendered-append identity tail (whole identity p))
          ∙ (ap (λ z. number_in identity (after_prefix "-" z)) (nil-append tail)
              ∙ (ap (number_in identity) (after-append "-" (decimal n))
                  ∙ ap (numbered identity) (undecimal-decimal n))))
  | inr p ↦ absurd (ground (arith, p, e))
]
