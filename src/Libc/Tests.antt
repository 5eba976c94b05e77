-- ===== src/Libc/Tests.antt =====
-- Concrete runs of lolibc/string.c: strings in a memory that holds few bytes.
use loos_lab.Memory.{Mem, copied, ◌≗◌, CStr}
use loos_lab.Base.{ℕ, ◌≡◌, refl, some, List, [], ◌∷◌, arith, get_or}
use loos_lab.Libc.Block.{memmove}
use loos_lab.Libc.Block.Laws.{memmove-copied}
use loos_lab.Libc.Str.{TokenResult, strtok}
use loos_lab.Libc.Str.Compare.{IsBytes}
use loos_lab.Libc.Str.Tok.{Splits, strtok-Splits}

-- Address 1: "a,b"; address 5: ","; address 7: "A,B"; zeros from address 10 on.
abbrev text : Mem
text a = get_or (0 ∷ 97 ∷ 44 ∷ 98 ∷ 0 ∷ 44 ∷ 0 ∷ 65 ∷ 44 ∷ 66 ∷ []) a 0

abbrev small : List ℕ
small = 97 ∷ 44 ∷ 98 ∷ []

abbrev large : List ℕ
large = 65 ∷ 44 ∷ 66 ∷ []

small-CStr : CStr text 1 small
small-CStr = (refl, omega arith, (refl, omega arith, (refl, omega arith, refl)))

comma-CStr : CStr text 5 (44 ∷ [])
comma-CStr = (refl, omega arith, refl)

large-CStr : CStr text 7 large
large-CStr = (refl, omega arith, (refl, omega arith, (refl, omega arith, refl)))

small-IsBytes : IsBytes small
small-IsBytes = (omega arith, (omega arith, (omega arith, tt)))

large-IsBytes : IsBytes large
large-IsBytes = (omega arith, (omega arith, (omega arith, tt)))

memmove-copied_example : (memmove text 3 1 4).0 ≗ copied text 3 1 4
memmove-copied_example = memmove-copied text 3 1 4

abbrev dots : Mem
dots a = 46

strtok-Splits_example :
    (r : TokenResult) × (strtok 4 text 0 1 5 ≡ some r) × Splits text 1 (44 ∷ []) small r
strtok-Splits_example =
    strtok-Splits 4 text 1 1 0 5 small (44 ∷ []) small-CStr comma-CStr (omega arith) (omega arith)
      refl (omega arith)
