-- ===== src/Driver/Tests.antt =====
-- A concrete run of `getstr` of driver/uart.c.

use loos_lab.Base.{ℕ, min, ◌≡◌, refl, List, [], ◌∷◌, ◌++◌, arith, ltb, if◌then◌else◌, length, take}
use loos_lab.Base.Run.{done}
use loos_lab.Driver.Uart.{getstr}
use loos_lab.Driver.Uart.Bounds.{Keys, getstr-line, none_yet, idle, key}

-- "o", a call that finds nothing, and "k"
abbrev typed : List (ℕ × ℕ)
typed = (1, 111) ∷ (0, 0) ∷ (1, 107) ∷ []

abbrev letters : List ℕ
letters = 111 ∷ 107 ∷ []

typed-Keys : Keys typed letters
typed-Keys =
    key refl (omega arith, omega arith, omega arith)
      (idle refl (key refl (omega arith, omega arith, omega arith) none_yet))

getstr-line_example :
    getstr (typed ++ ((1, 13) ∷ [])) 100
    ≡ done (
        if ltb (length letters) (min 100 128)
        then letters ++ (b'\n' ∷ [])
        else take (min 100 128) letters)
getstr-line_example = getstr-line [] 100 typed-Keys
