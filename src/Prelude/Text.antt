-- ===== src/Prelude/Text.antt =====
-- Texts: decimal numerals, joining, and an association list for a Go map with string keys.
use Prim.Native.Nat.{ℕ, zero, suc, ◌/◌, ◌%◌}
use Prim.Native.String.{String, ◌++◌}
use mathlib.Core.Bool.{Bool, false, ◌||◌}
use mathlib.Core.Path.{◌≡◌, refl}
use mathlib.Core.Option.{Option, none, some}
use mathlib.Core.List.{List, [], ◌∷◌}
use text.Mathlib.Text.{◌==◌ as str_eq}
use praktikum.Prelude.Tests.{◌==◌, if◌then◌else◌}
use praktikum.Prelude.Int.{ℤ, pos, negsuc}

digit : ℕ → String
digit zero = "0"
digit (suc zero) = "1"
digit (suc (suc zero)) = "2"
digit (suc (suc (suc zero))) = "3"
digit (suc (suc (suc (suc zero)))) = "4"
digit (suc (suc (suc (suc (suc zero))))) = "5"
digit (suc (suc (suc (suc (suc (suc zero)))))) = "6"
digit (suc (suc (suc (suc (suc (suc (suc zero))))))) = "7"
digit (suc (suc (suc (suc (suc (suc (suc (suc zero)))))))) = "8"
digit _ = "9"

-- The decimal digits of a number below 10 ^ fuel.
digits : ℕ → ℕ → String
unfolding digit
digits zero n = ""
digits (suc fuel) n =
    let front = digits fuel (n / 10) in if (n / 10) == 0 then digit n else front ++ digit (n % 10)

-- Go's `%d` of an integer of at most 64 bits, which has at most 20 digits.
unfoldable pub show_int : ℤ → String
unfolding digits
show_int (pos n) = digits 20 n
show_int (negsuc n) = "-" ++ digits 20 (suc n)

-- strings.Join
unfoldable pub join : String → List String → String
join sep [] = ""
join sep (x ∷ []) = x
join sep (x ∷ y ∷ ys) = x ++ sep ++ join sep (y ∷ ys)

-- `s == ""`
abbrev pub is_empty : String → Bool
is_empty s = str_eq s ""

-- A Go string field with a default: `if s == "" { s = d }`.
abbrev pub or_default : String → String → String
or_default s d = if is_empty s then d else s

abbrev pub has_key {ℓ} : {V : Type ℓ} → String → List (String × V) → Bool
has_key k [] = false
has_key k ((j, _) ∷ m) = str_eq j k || has_key k m

module _ {ℓ} {V : Type ℓ} where
  -- v, ok := m[k]
  unfoldable pub lookup : String → List (String × V) → Option V
  lookup k [] = none
  lookup k ((j, v) ∷ m) = if str_eq j k then some v else lookup k m

  -- m[k] = v
  unfoldable pub insert : String → V → List (String × V) → List (String × V)
  insert k v [] = (k, v) ∷ []
  insert k v ((j, w) ∷ m) = if str_eq j k then (k, v) ∷ m else (j, w) ∷ insert k v m

show_int_runs : show_int (pos 1070) ≡ "1070"
unfolding show_int
show_int_runs = refl

show_int_negative : show_int (negsuc 2) ≡ "-3"
unfolding show_int
show_int_negative = refl

join_runs : join "|" ("a" ∷ "b" ∷ []) ≡ "a|b"
unfolding join
join_runs = refl
