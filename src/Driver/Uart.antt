-- ===== src/Driver/Uart.antt =====
-- driver/uart.c: a line from the console. What each call of `getch` finds in the registers LSR and RHR is given as
-- a list; the echo and the waiting with interrupts on are left out.
pub mod Bounds
use loos_lab.Base.{
  ℕ, zero, suc, ◌%◌, min, Bool, true, false, List, [], ◌∷◌, ◌++◌, ◌==◌, if◌then◌else◌,
}
use loos_lab.Base.Int.{ℤ, pos, negsuc}
use loos_lab.Base.Run.{Run, ◌>>=◌, done, out_of_fuel}

unfoldable pub getch : (lsr rhr : ℕ) → ℤ
getch lsr rhr = if lsr % 2 == 1 then (if rhr == 13 then pos 10 else pos rhr) else negsuc 0

-- `sizeof(getstr_buf)`
abbrev pub buf_size : ℕ
buf_size = 128

-- What a round of the loop of `getstr` makes of an answer of `getch`, and of the rounds behind it: with none
-- stored, and with one stored.
unfoldable pub after_key : ℤ → (wait rest : Run (List ℕ × Bool)) → Run (List ℕ × Bool)
after_key (negsuc n) wait rest = wait
after_key (pos c) wait rest =
    if c == b'\n' then done ([], true) else do (str, newline) ← rest; done (c % 256 ∷ str, newline)

-- The loop of `getstr`: the characters stored, and whether it was left at a newline. When the list is used up the
-- loop still waits.
unfoldable pub getstr_loop : List (ℕ × ℕ) → (count : ℕ) → Run (List ℕ × Bool)
unfolding getch after_key
getstr_loop reads zero = done ([], false)
getstr_loop [] (suc count) = out_of_fuel
getstr_loop ((lsr, rhr) ∷ reads) (suc count) =
    after_key (getch lsr rhr) (getstr_loop reads (suc count)) (getstr_loop reads count)

-- `getstr`: the bytes in front of the terminator.
unfoldable pub getstr : List (ℕ × ℕ) → (count : ℕ) → Run (List ℕ)
unfolding getstr_loop
getstr reads count = do
  (str, newline) ← getstr_loop reads (min count buf_size)
  done (if newline then str ++ (b'\n' ∷ []) else str)
