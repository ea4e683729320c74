-- ===== src/Runtimes/Numerals.antt =====
-- Numbers as texts.
use Prim.Native.String.{◌++◌ as append}
use labos.Prelude.{ℕ, zero, suc, ◌/◌, ◌%◌, String, List, [], ◌∷◌, ◌==◌, if◌then◌else◌, nat_eq}

abbrev text_at : ℕ → List String → String
text_at n [] = ""
text_at zero (s ∷ rest) = s
text_at (suc n) (s ∷ rest) = text_at n rest

abbrev digit : ℕ → String
digit n = text_at n ("0" ∷ "1" ∷ "2" ∷ "3" ∷ "4" ∷ "5" ∷ "6" ∷ "7" ∷ "8" ∷ "9" ∷ [])

-- the digits of a number to a base, which has at most as many as the fuel
digits : ℕ → ℕ → ℕ → String
digits base zero n = ""
digits base (suc fuel) n =
    let high = digits base fuel (n / base) in
    if n / base == 0 then digit n else append high (digit (n % base))

-- `str(n)`; n has at most n + 1 digits
unfoldable pub decimal : ℕ → String
unfolding digits
decimal n = digits 10 (suc n) n

-- `f"{n:o}"`
unfoldable pub octal : ℕ → String
unfolding digits
octal n = digits 8 (suc n) n
