-- ===== src/Base/Text.antt =====
-- What the service does with text, over the native `String`.
use Prim.Native.Nat.{ℕ, zero, suc, ◌/◌, ◌%◌}
use Prim.Native.Char.{Char, code}
use Prim.Native.String
use Prim.Native.String.{String}
use mathlib.Core.Option.{Option, none, some}
use mathlib.Core.List.{List, [], ◌∷◌}
use iam_rust_auth.Base.Tests.{◌==◌, if◌then◌else◌}

-- `format!`: the pieces, one after another.
abbrev pub format : List String → String
format [] = ""
format (s ∷ ss) = String.◌++◌ s (format ss)

abbrev attach : Char → List String → List String
attach c [] = String.◌∷◌ c String.[] ∷ []
attach c (p ∷ ps) = String.◌∷◌ c p ∷ ps

-- `s.split(sep)`: the pieces between separators, of which there is at least one.
unfoldable pub split : ℕ → String → List String
split sep String.[] = "" ∷ []
split sep (String.◌∷◌ c s) =
    let rest = split sep s in if code c == sep then "" ∷ rest else attach c rest

-- `s.strip_prefix(prefix)`, with the prefix first.
unfoldable pub strip_prefix : String → String → Option String
strip_prefix String.[] s = some s
strip_prefix (String.◌∷◌ c p) String.[] = none
strip_prefix (String.◌∷◌ c p) (String.◌∷◌ d s) =
    let rest = strip_prefix p s in if code c == code d then rest else none

abbrev digit : ℕ → String
digit zero = "0"
digit (suc zero) = "1"
digit (suc (suc zero)) = "2"
digit (suc (suc (suc zero))) = "3"
digit (suc (suc (suc (suc zero)))) = "4"
digit (suc (suc (suc (suc (suc zero))))) = "5"
digit (suc (suc (suc (suc (suc (suc zero)))))) = "6"
digit (suc (suc (suc (suc (suc (suc (suc zero))))))) = "7"
digit (suc (suc (suc (suc (suc (suc (suc (suc zero)))))))) = "8"
digit _ = "9"

digits_onto : ℕ → ℕ → String → String
digits_onto zero n acc = acc
digits_onto (suc fuel) n acc =
    let more = digits_onto fuel (n / 10) (String.◌++◌ (digit (n % 10)) acc) in
    if n / 10 == 0 then String.◌++◌ (digit n) acc else more

-- A number in decimal. The number of rounds is at most the number of digits.
unfoldable pub show_ℕ : ℕ → String
unfolding digits_onto
show_ℕ n = digits_onto (suc n) n ""
