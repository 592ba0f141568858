-- ===== src/Common/Text.antt =====
-- Texts as lists of code points, and the methods of Python's `str` that the program calls.
use Prim.Native.Char.{code}
use Prim.Native.Nat.{ℕ, ◌+◌}
use Prim.Native.String.{String}
use mathlib.Core.Bool.{Bool, true, false, ◌&&◌, ◌||◌}
use mathlib.Core.List.{List, [], ◌∷◌, reverse, map}
use mozilla_ai.Common.Tests.{if◌then◌else◌, ◌==◌, leb}

abbrev pub codes : String → List ℕ
codes String.[] = []
codes (String.◌∷◌ c s) = code c ∷ codes s

abbrev pub same : List ℕ → List ℕ → Bool
same [] [] = true
same (a ∷ s) (b ∷ t) = a == b && same s t
same _ _ = false

-- `str.isspace` of one character
is_space : ℕ → Bool
is_space c =
    (leb 9 c && leb c 13)
    || (leb 28 c && leb c 32)
    || c == 0x85
    || c == 0xa0
    || c == 0x1680
    || (leb 0x2000 c && leb c 0x200a)
    || (leb 0x2028 c && leb c 0x2029)
    || c == 0x202f
    || c == 0x205f
    || c == 0x3000

strip_left : List ℕ → List ℕ
unfolding is_space
strip_left [] = []
strip_left (c ∷ s) = if is_space c then strip_left s else c ∷ s

-- `str.strip()`
unfoldable pub strip : List ℕ → List ℕ
unfolding strip_left
strip s = reverse (strip_left (reverse (strip_left s)))

-- `str.lower()` on ASCII letters; other characters are left alone
unfoldable pub lower : List ℕ → List ℕ
lower = map (λ c. if leb b'A' c && leb c b'Z' then c + 32 else c)
