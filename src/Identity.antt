-- ===== src/Identity.antt =====
-- exec/src/hedloom_exec/identity.py: the identity of a record and the names of its tries.
pub mod RoundTrip
pub mod Examples
use Prim.Native.Char.{Char, code}
use Prim.Native.String
use Prim.Native.String.{◌++◌}
use text.Mathlib.TextEquality.{Char-path}
use text.Mathlib.TextLemmas
use hedloom.Base.{
  ℕ, zero, suc, String, Bool, true, false, not, ◌&&◌, ◌||◌, Option, none, some, ◌≡◌, refl, sym, ap,
  subst, ◌∙◌, arith, leb, ◌==◌, ==_iff, ==_refl, str_eq, if◌then◌else◌, decimal, undecimal,
  undecimal-decimal, Bool-cases, Option-cases, inl, inr, is_some,
}
use hedloom.Flow.Text.{is_space}
use hedloom.Result.{Result, ok, err, bad_identity, bad_try_name, guard, or_raise, ◌>>=?◌}

-- The text after a prefix.
abbrev pub after_prefix : String → String → Option String
after_prefix String.[] s = some s
after_prefix (String.◌∷◌ c p) String.[] = none
after_prefix (String.◌∷◌ c p) (String.◌∷◌ d s) = if code c == code d then after_prefix p s else none

abbrev pub is_hex : ℕ → Bool
is_hex c = (leb 48 c && leb c 57) || (leb 97 c && leb c 102)

abbrev pub with_char : Char → Option (String × String) → Option (String × String)
with_char c none = none
with_char c (some (h, t)) = some (String.◌∷◌ c h, t)

-- `[0-9a-f]{k}`, with the text after it
abbrev pub hex : ℕ → String → Option (String × String)
hex zero s = some ("", s)
hex (suc k) String.[] = none
hex (suc k) (String.◌∷◌ c s) = if is_hex (code c) then with_char c (hex k s) else none

abbrev pub with_head : Option (String × String) → Option (String × String)
with_head none = none
with_head (some (h, t)) = some ("hedloom-" ++ h, t)

abbrev pub identity_in : Option String → Option (String × String)
identity_in none = none
identity_in (some r) = with_head (hex 20 r)

-- `(hedloom-[0-9a-f]{20})`, with the text after it
unfoldable pub rendered : String → Option (String × String)
rendered s = identity_in (after_prefix "hedloom-" s)

abbrev pub is_whole : Option (String × String) → Bool
is_whole none = false
is_whole (some (h, t)) = str_eq t ""

-- `_RENDERED.fullmatch(s)`
unfoldable pub is_rendered : String → Bool
is_rendered s = is_whole (rendered s)

unfoldable pub try_name : String → ℕ → Result String
try_name identity try_number =
    guard (is_rendered identity) bad_identity >>=? λ _. ok (identity ++ ("-" ++ decimal try_number))

abbrev pub numbered : String → Option ℕ → Result (String × ℕ)
numbered identity none = err bad_try_name
numbered identity (some n) = ok (identity, n)

abbrev pub number_in : String → Option String → Result (String × ℕ)
number_in identity none = err bad_try_name
number_in identity (some t) = numbered identity (undecimal t)

abbrev pub name_in : Option (String × String) → Result (String × ℕ)
name_in none = err bad_try_name
name_in (some (identity, rest)) = number_in identity (after_prefix "-" rest)

unfoldable pub parse_try_name : String → Result (String × ℕ)
parse_try_name name = name_in (rendered name)

-- `_require_digest`
abbrev has_control : String → Bool
has_control String.[] = false
has_control (String.◌∷◌ c s) =
    (code c == 31) || (is_space (code c) && not (code c == 32)) || has_control s

abbrev require_digest : String → Result String
require_digest digest =
    if str_eq digest "" || has_control digest then err bad_identity else ok digest

record AttemptIdentity : Type 0 where
  pub computation_digest : String
  pub rendered_name : String

abbrev separator : String
separator = "\u{1f}"

-- `blake2b` is the digest's rendering by `hashlib`, in 20 hexadecimal characters.
abbrev attempt_identity : (String → String) → String → Result AttemptIdentity
attempt_identity blake2b digest = require_digest digest >>=? λ d. ok (record {
  computation_digest = d;
  rendered_name = "hedloom-" ++ blake2b ("computation" ++ (separator ++ d));
})
