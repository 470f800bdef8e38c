-- ===== src/Common/Texts.antt =====
-- Texts: equality, membership in a fixed set, suffixes, and the tests for an absent value.
use Prim.Native.Char.{code}
use Prim.Native.Nat.{ℕ}
use Prim.Native.String.{String}
use mathlib.Core.Bool.{Bool, true, false, not, ◌&&◌, ◌||◌}
use mathlib.Core.Option.{Option, none, some}
use mathlib.Core.List.{List}
use mathlib.Core.Path.{◌≡◌}
use native.Mathlib.Omega.{arith}
use text.Mathlib.Text.{◌==◌}
use text.Mathlib.TextEquality.{eq_iff}
use managed_oss_cloud.Common.Tests.{if◌then◌else◌, leb, ◌==◌ as nat_eq}
use managed_oss_cloud.Common.Lists.{any}

abbrev pub str_eq : String → String → Bool
str_eq s t = s == t

-- `set.has(text)` and `array.includes(text)`
abbrev pub one_of : List String → String → Bool
one_of names s = any (λ name. name == s) names

-- `text.endsWith(suffix)`: the suffix is the whole text or ends its tail.
abbrev pub ends_with : String → String → Bool
ends_with String.[] suffix = suffix == ""
ends_with (String.◌∷◌ c s) suffix = (String.◌∷◌ c s == suffix) || ends_with s suffix

-- White space as `String.prototype.trim` removes it.
abbrev pub is_space : ℕ → Bool
is_space c =
    (leb 9 c && leb c 13)
    || nat_eq c 32
    || nat_eq c 160
    || nat_eq c 5760
    || (leb 8192 c && leb c 8202)
    || nat_eq c 8232
    || nat_eq c 8233
    || nat_eq c 8239
    || nat_eq c 8287
    || nat_eq c 12288
    || nat_eq c 65279

-- `text.trim().length > 0`
abbrev pub has_ink : String → Bool
has_ink String.[] = false
has_ink (String.◌∷◌ c s) = not (is_space (code c)) || has_ink s

-- `Boolean(value)` of an optional text: absent and empty are false.
abbrev pub given : Option String → Bool
given none = false
given (some s) = not (s == "")

-- `left === right` of two optional texts
abbrev pub same_text : Option String → Option String → Bool
same_text none none = true
same_text (some s) (some t) = s == t
same_text _ _ = false

pub str_eq_flip : (s t : String) → str_eq s t ≡ false → str_eq t s ≡ false
str_eq_flip s t h = ground (arith, eq_iff s t, eq_iff t s)

abbrev pub trim_start : String → String
trim_start String.[] = ""
trim_start (String.◌∷◌ c s) = if is_space (code c) then trim_start s else String.◌∷◌ c s

abbrev pub trim_end : String → String
trim_end String.[] = ""
trim_end (String.◌∷◌ c s) =
    if not (is_space (code c)) || has_ink s then String.◌∷◌ c (trim_end s) else ""

-- `String.prototype.trim`
abbrev pub trim : String → String
trim s = trim_end (trim_start s)
