-- ===== src/Cush/Atoi.antt =====
-- atoi() of the C library, on the words of a command. What it gives for a number beyond int is
-- undefined; here it is the number.
use Prim.Native.Char.{code}
use Prim.Native.String.{String}
use computer_systems_project.Base.{
  ℕ, ◌+◌, ◌-◌, ◌*◌, Bool, true, false, ◌&&◌, ◌||◌, List, [], ◌∷◌, Option, none, some, leb, ◌==◌,
  if◌then◌else◌, ℤ, pos, negate,
}

abbrev pub codes : String → List ℕ
codes String.[] = []
codes (String.◌∷◌ c s) = code c ∷ codes s

abbrev is_space : ℕ → Bool
is_space c = (c == 32) || (leb 9 c && leb c 13)

abbrev digits : ℕ → List ℕ → ℕ
digits acc [] = acc
digits acc (c ∷ cs) = elim (leb b'0' c && leb c b'9') [
  | true ↦ digits (10 * acc + (c - b'0')) cs
  | false ↦ acc
]

abbrev signed_digits : List ℕ → ℤ
signed_digits [] = pos 0
signed_digits (c ∷ cs) =
    if c == b'-'
    then negate (digits 0 cs)
    else if c == b'+'
    then pos (digits 0 cs)
    else pos (digits 0 (c ∷ cs))

abbrev skip_space : List ℕ → List ℕ
skip_space [] = []
skip_space (c ∷ cs) = if is_space c then skip_space cs else c ∷ cs

unfoldable pub atoi_codes : List ℕ → ℤ
atoi_codes cs = signed_digits (skip_space cs)

unfoldable pub atoi : String → ℤ
unfolding atoi_codes
atoi s = atoi_codes (codes s)

-- atoi(word + 1), which reads past the end of an empty word
unfoldable pub atoi_rest : String → Option ℤ
unfolding atoi_codes
atoi_rest s = elim (codes s) [ [] ↦ none | c ∷ cs ↦ some (atoi_codes cs) ]
