-- ===== src/Prelude/Text.antt =====
-- What the code uses of JavaScript's strings, on the code points of ASCII text.
use Prim.Native.Nat.{ℕ, zero, suc, ◌+◌}
use Prim.Native.Char.{code}
use Prim.Native.String.{String}
use mathlib.Core.Bool.{Bool, true, false, ◌&&◌, ◌||◌}
use mathlib.Core.List.{List, [], ◌∷◌, map}
use casper_agops_server.Prelude.Tests.{if◌then◌else◌, ◌=?◌, leb}

abbrev pub codes : String → List ℕ
codes String.[] = []
codes (String.◌∷◌ c s) = code c ∷ codes s

abbrev pub is_space : ℕ → Bool
is_space c = c =? 32 || (leb 9 c && leb c 13)

abbrev pub to_lower : ℕ → ℕ
to_lower c = if leb b'A' c && leb c b'Z' then c + 32 else c

abbrev pub same_codes : List ℕ → List ℕ → Bool
same_codes [] [] = true
same_codes (a ∷ as') (b ∷ bs) = a =? b && same_codes as' bs
same_codes _ _ = false

-- Equality of what `toLowerCase` makes of two strings.
abbrev pub same_lower : String → String → Bool
same_lower s t = same_codes (map to_lower (codes s)) (map to_lower (codes t))

-- `trimStart`, and `trimEnd`: a space is kept only if something other than spaces follows it.
abbrev pub trim_start : String → String
trim_start String.[] = String.[]
trim_start (String.◌∷◌ c s) = if is_space (code c) then trim_start s else String.◌∷◌ c s

abbrev pub trim_end : String → String
trim_end String.[] = String.[]
trim_end (String.◌∷◌ c s) =
    let rest = trim_end s in
    elim rest [
      | String.[] ↦ if is_space (code c) then String.[] else String.◌∷◌ c String.[]
      | String.◌∷◌ e r ↦ String.◌∷◌ c (String.◌∷◌ e r)
    ]

-- `trim`.
abbrev pub trim : String → String
trim s = trim_end (trim_start s)

-- `slice`.
abbrev pub skip : ℕ → String → String
skip zero s = s
skip (suc n) String.[] = String.[]
skip (suc n) (String.◌∷◌ c s) = skip n s
