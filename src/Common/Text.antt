-- ===== src/Common/Text.antt =====
-- Texts that the program formats: f-strings over texts and integers.
use Prim.Native.Nat.{ℕ, zero, suc, ◌/◌, ◌%◌, ◌+◌}
use Prim.Native.String as S
use Prim.Native.String.{String}
use mathlib.Core.List.{List, [], ◌∷◌}
use mpesa_mcp_server.Common.Tests.{ltb, if◌then◌else◌}
use mpesa_mcp_server.Common.Int.{ℤ, pos, negsuc}

-- Texts one after the other.
unfoldable pub concat : List String → String
concat [] = ""
concat (s ∷ ss) = S.◌++◌ s (concat ss)

-- `sep.join(texts)`
unfoldable pub join : String → List String → String
join sep [] = ""
join sep (s ∷ []) = s
join sep (s ∷ t ∷ rest) = S.◌++◌ s (S.◌++◌ sep (join sep (t ∷ rest)))

abbrev digit : ℕ → String
digit zero = "0"
digit (suc zero) = "1"
digit (suc (suc zero)) = "2"
digit (suc (suc (suc zero))) = "3"
digit (suc (suc (suc (suc zero)))) = "4"
digit (suc (suc (suc (suc (suc zero))))) = "5"
digit (suc (suc (suc (suc (suc (suc zero)))))) = "6"
digit (suc (suc (suc (suc (suc (suc (suc zero))))))) = "7"
digit (suc (suc (suc (suc (suc (suc (suc (suc zero)))))))) = "8"
digit _ = "9"

-- The fuel is above the number of digits, since a number has at most as many digits as itself
-- plus one.
show_fuel : ℕ → ℕ → String
show_fuel zero n = ""
show_fuel (suc fuel) n =
    let high = show_fuel fuel (n / 10) in if ltb n 10 then digit n else S.◌++◌ high (digit (n % 10))

unfoldable pub show_ℕ : ℕ → String
unfolding show_fuel
show_ℕ n = show_fuel (n + 1) n

-- `str(n)` for a Python integer
unfoldable pub show_ℤ : ℤ → String
unfolding show_ℕ
show_ℤ (pos n) = show_ℕ n
show_ℤ (negsuc n) = S.◌++◌ "-" (show_ℕ (suc n))
