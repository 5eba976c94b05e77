-- ===== src/Libc/Stdio/Tests.antt =====
-- Concrete runs of lolibc/stdio.c.

use loos_lab.Base.{
  ℕ, ◌+◌, ◌<◌, ◌≡◌, refl, ◌⊎◌, inr, some, List, [], ◌∷◌, ◌++◌, arith, length, get_or, replicate,
}
use loos_lab.Base.Int.{pos}
use loos_lab.Base.Run.{done}
use loos_lab.Memory.{Mem, CStr}
use loos_lab.Libc.Stdio.{uitoa, uatoi, copy_fmt_str, flag_left}
use loos_lab.Libc.Stdio.Digits.{sixteen}
use loos_lab.Libc.Stdio.RoundTrip.{uitoa-uatoi}
use loos_lab.Libc.Stdio.Padding.{Text, copy_fmt_str_lem}

-- "ok" at address 1
abbrev ok : Mem
ok a = get_or (0 ∷ 111 ∷ 107 ∷ []) a 0

abbrev letters : List ℕ
letters = 111 ∷ 107 ∷ []

ok-CStr : CStr ok 1 letters
ok-CStr = (refl, omega arith, (refl, omega arith, refl))

uitoa-uatoi_example :
    (n : ℕ) × (m' : Mem) × (uitoa ok 48879 10 16 ≡ done (n + 1, m'))
    × ((text : List ℕ) × (length text ≡ n) × CStr m' 10 text)
    × (uatoi (n + 1) m' 10 16 ≡ done (n, 48879))
    × ((x : ℕ) → (x < 10) ⊎ (10 + n < x) → m' x ≡ ok x)
uitoa-uatoi_example = uitoa-uatoi sixteen ok 48879 10 (omega arith)

copy_fmt_str_lem_example :
    (m' : Mem) × (copy_fmt_str 3 ok 10 1 flag_left (pos 5) ≡ some (3 + 2, m'))
    × Text m' 10 (letters ++ replicate 3 b' ')
    × ((x : ℕ) → (x < 10) ⊎ (10 + 3 + 2 < x) → m' x ≡ ok x)
copy_fmt_str_lem_example =
    copy_fmt_str_lem 3 ok 10 1 3 flag_left (pos 5) letters ok-CStr refl (inr (omega arith))
      (omega arith)
