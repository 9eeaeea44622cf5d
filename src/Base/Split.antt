-- ===== src/Base/Split.antt =====
-- `strings.Split(s, " ")`.
use Prim.Native.Char.{Char, code}
use Prim.Native.String.{String, [] as empty, ◌∷◌ as glue}
use mathlib.Core.Bool.{Bool, false}
use mathlib.Core.List.{List, [], ◌∷◌}
use go_wallet_ledger.Base.Tests.{leb, if◌then◌else◌}

abbrev is_space : Char → Bool
is_space c = if leb (code c) 32 then leb 32 (code c) else false

abbrev prefix_first : Char → List String → List String
prefix_first c [] = glue c empty ∷ []
prefix_first c (part ∷ parts) = glue c part ∷ parts

-- The parts between the spaces.
unfoldable pub split_spaces : String → List String
split_spaces empty = "" ∷ []
split_spaces (glue c s) =
    let rest = split_spaces s in if is_space c then "" ∷ rest else prefix_first c rest
