-- ===== src/Prelude/Strings.antt =====
-- A Go string is the list of its bytes.
use Prim.Native.Nat.{ℕ}
use Prim.Native.Char.{code}
use Prim.Native.String.{String}
use mathlib.Core.Path.{◌≡◌}
use mathlib.Core.Logic.{◌↔◌}
use mathlib.Core.Bool.{Bool, true, false, ◌&&◌}
use mathlib.Core.List.{List, [], ◌∷◌}
use native.Mathlib.Omega.{arith}
use shark_mqtt.Prelude.Tests.{Eq, nat_beq}

abbrev pub Str : Type 0
Str = List ℕ

-- A literal of ASCII text.
abbrev pub codes : String → Str
codes String.[] = []
codes (String.◌∷◌ c s) = code c ∷ codes s

abbrev pub str_beq : Str → Str → Bool
str_beq [] [] = true
str_beq (a ∷ s) (b ∷ t) = nat_beq a b && str_beq s t
str_beq _ _ = false

pub str_beq_iff : (s t : Str) → (str_beq s t ≡ true) ↔ (s ≡ t)
str_beq_iff [] [] = ground arith
str_beq_iff [] (b ∷ t) = ground arith
str_beq_iff (a ∷ s) [] = ground arith
str_beq_iff (a ∷ s) (b ∷ t) = ground (arith, str_beq_iff s t)

instance abbrev pub str_eq : Eq Str
str_eq = record { same = str_beq; same_iff = str_beq_iff }

abbrev pub levels_beq : List Str → List Str → Bool
levels_beq [] [] = true
levels_beq (p ∷ ps) (q ∷ qs) = str_beq p q && levels_beq ps qs
levels_beq _ _ = false

pub levels_beq_iff : (ps qs : List Str) → (levels_beq ps qs ≡ true) ↔ (ps ≡ qs)
levels_beq_iff [] [] = ground arith
levels_beq_iff [] (q ∷ qs) = ground arith
levels_beq_iff (p ∷ ps) [] = ground arith
levels_beq_iff (p ∷ ps) (q ∷ qs) = ground (arith, str_beq_iff p q, levels_beq_iff ps qs)
