-- ===== src/Prelude/Text.antt =====
-- Text as the list of its bytes (the program's texts are ASCII), and equality of byte lists.
use Prim.Native.Nat.{ℕ}
use Prim.Native.Char.{code}
use Prim.Native.String.{String}
use mathlib.Core.Path.{◌≡◌, refl}
use mathlib.Core.Logic.{◌↔◌}
use mathlib.Core.Bool.{Bool, true, false, ◌&&◌}
use mathlib.Core.List.{List, [], ◌∷◌}
use native.Mathlib.Omega.{arith}
use gocachez.Prelude.Tests.{◌==◌}

-- A Go `[]byte` or `string`.
abbrev pub Bytes : Type 0
Bytes = List ℕ

abbrev pub codes : String → Bytes
codes String.[] = []
codes (String.◌∷◌ c s) = code c ∷ codes s

-- `bytes.Equal`, and `==` on strings.
unfoldable pub same : Bytes → Bytes → Bool
same [] [] = true
same [] (b ∷ bs) = false
same (a ∷ as') [] = false
same (a ∷ as') (b ∷ bs) = (a == b) && same as' bs

same→eq : (as' bs : Bytes) → same as' bs ≡ true → as' ≡ bs
unfolding same
same→eq [] [] h = refl
same→eq [] (b ∷ bs) h = ground arith
same→eq (a ∷ as') [] h = ground arith
same→eq (a ∷ as') (b ∷ bs) h = ground (arith, same→eq as' bs)

pub same_refl : (bs : Bytes) → same bs bs ≡ true
unfolding same
same_refl [] = refl
same_refl (b ∷ bs) = ground (arith, same_refl bs)

pub same_iff : (as' bs : Bytes) → (same as' bs ≡ true) ↔ (as' ≡ bs)
same_iff as' bs = (same→eq as' bs, λ e. ground (arith, same_refl bs))
