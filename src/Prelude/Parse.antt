-- ===== src/Prelude/Parse.antt =====
-- `strip()`, `split()` and `int()` on texts.
use Prim.Native.Nat.{◌/◌, ◌%◌, ℕ, zero, suc, ◌+◌, ◌-◌, ◌*◌}
use mathlib.Core.Bool.{Bool, ◌&&◌, ◌||◌}
use mathlib.Core.List.{List, [], ◌∷◌, ◌++◌}
use cs334_operating_systems.Prelude.Tests.{ltb, leb, ◌==◌, if◌then◌else◌}
use cs334_operating_systems.Prelude.Faults.{value_error, Result, ok, raise, ◌>>=◌}
use cs334_operating_systems.Prelude.Int.{ℤ, pos, negsuc}
use cs334_operating_systems.Prelude.Text.{Text}

-- the characters that `str.isspace` accepts
abbrev pub is_space : ℕ → Bool
is_space c = c == 32 || leb 9 c && leb c 13

-- `s.lstrip()`
unfoldable pub skip_spaces : Text → Text
skip_spaces [] = []
skip_spaces (c ∷ s) = if is_space c then skip_spaces s else c ∷ s

unfoldable reverse_onto : Text → Text → Text
reverse_onto [] t = t
reverse_onto (c ∷ s) t = reverse_onto s (c ∷ t)

-- `s.strip()`
unfoldable pub strip : Text → Text
unfolding skip_spaces reverse_onto
strip s = reverse_onto (skip_spaces (reverse_onto (skip_spaces s) [])) []

abbrev no_word : Text → List Text → List Text
no_word [] l = l
no_word (c ∷ w) l = (c ∷ w) ∷ l

-- `s.split()`, the word so far before the rest of the text
unfoldable pub words_from : Text → Text → List Text
words_from w [] = no_word w []
words_from w (c ∷ s) =
    if is_space c then no_word w (words_from [] s) else words_from (w ++ c ∷ []) s

abbrev pub words : Text → List Text
words s = words_from [] s

-- the digits of a number, the first ones read already
unfoldable pub digits_from : ℕ → Text → Result ℕ
digits_from n [] = ok n
digits_from n (c ∷ s) =
    if leb 48 c && leb c 57 then digits_from (n * 10 + (c - 48)) s else raise value_error

abbrev pub digits : Text → Result ℕ
digits [] = raise value_error
digits (c ∷ s) = digits_from 0 (c ∷ s)

abbrev negate : ℕ → ℤ
negate zero = pos 0
negate (suc n) = negsuc n

abbrev signed : Text → Result ℤ
signed [] = raise value_error
signed (c ∷ s) =
    if c == b'-'
    then (do n ← digits s; ok (negate n))
    else if c == b'+'
    then (do n ← digits s; ok (pos n))
    else (do n ← digits (c ∷ s); ok (pos n))

-- `int(s)`
unfoldable pub int : Text → Result ℤ
unfolding strip digits_from
int s = signed (strip s)

-- `str(n)`, before the digits that are there; a number has no more digits than its size
unfoldable pub digits_onto : ℕ → ℕ → Text → Text
digits_onto zero n s = s
digits_onto (suc fuel) n s =
    if ltb n 10 then (b'0' + n) ∷ s else digits_onto fuel (n / 10) ((b'0' + n % 10) ∷ s)

abbrev pub decimal : ℕ → Text
decimal n = digits_onto (n + 1) n []
