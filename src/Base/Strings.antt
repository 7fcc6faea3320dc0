-- ===== src/Base/Strings.antt =====
-- A Go string is a sequence of bytes: `GoString`, a list of numbers below 256. `bytes` turns an
-- ASCII literal into one. The tests `str_eq` and `has_prefix` are Go's `==` and
-- strings.HasPrefix, and `split` is strings.Split by a one-byte separator.
use Prim.Native.Nat.{ℕ, suc}
use Prim.Native.Char.{code}
use Prim.Native.String.{String}
use mathlib.Core.Path.{◌≡◌, refl}
use mathlib.Core.Logic.{◌↔◌}
use mathlib.Core.Bool.{Bool, true, false, ◌&&◌, ◌||◌}
use mathlib.Core.List.{List, [], ◌∷◌}
use native.Mathlib.Omega.{arith}
use koinon.Base.Tests.{◌==◌}

abbrev pub GoString : Type 0
GoString = List ℕ

abbrev pub bytes : String → GoString
bytes String.[] = []
bytes (String.◌∷◌ c s) = code c ∷ bytes s

abbrev pub length {ℓ} : {A : Type ℓ} → List A → ℕ
length [] = 0
length (x ∷ xs) = suc (length xs)

unfoldable pub str_eq : GoString → GoString → Bool
str_eq [] [] = true
str_eq [] (b ∷ t) = false
str_eq (a ∷ s) [] = false
str_eq (a ∷ s) (b ∷ t) = a == b && str_eq s t

pub str_eq_iff : (s t : GoString) → (str_eq s t ≡ true) ↔ (s ≡ t)
unfolding str_eq
str_eq_iff [] [] = ((λ _. refl), (λ _. refl))
str_eq_iff [] (b ∷ t) = ground arith
str_eq_iff (a ∷ s) [] = ground arith
str_eq_iff (a ∷ s) (b ∷ t) = ground (arith, str_eq_iff s t)

pub str_eq_refl : (s : GoString) → str_eq s s ≡ true
str_eq_refl s = (str_eq_iff s s).1 refl

-- strings.HasPrefix(s, prefix)
unfoldable pub has_prefix : GoString → GoString → Bool
has_prefix s [] = true
has_prefix [] (p ∷ prefix) = false
has_prefix (a ∷ s) (p ∷ prefix) = a == p && has_prefix s prefix

-- strings.ContainsRune(s, c) for an ASCII `c`
unfoldable pub contains_byte : GoString → ℕ → Bool
contains_byte [] c = false
contains_byte (a ∷ s) c = a == c || contains_byte s c
