-- ===== src/Libc/Stdio.antt =====
-- lolibc/stdio.c: numbers as text, and formatted output into memory. A `char` is a byte; the stack buffer
-- of `vsprintf` is at an address that the caller gives.
pub mod Digits
pub mod Numeral
pub mod Swap
pub mod Reading
pub mod RoundTrip
pub mod Padding
pub mod Plain
pub mod Tests
use loos_lab.Base.{
  ℕ, zero, suc, ◌+◌, ◌-◌, ◌*◌, ◌/◌, ◌%◌, ◌^◌, min, Bool, not, ◌&&◌, ◌||◌, Option, none, some, List,
  [], ◌∷◌, ltb, leb, ◌==◌, if◌then◌else◌, get_or,
}
use loos_lab.Base.Int.{ℤ, pos_part, pos, negsuc}
use loos_lab.Base.Run.{Run, ◌>>=◌, done, halted, out_of_fuel}
use loos_lab.Memory.{Mem, put}
use loos_lab.Libc.Str.{strlen, strcpy}

-- `_itoa_table`: "0123456789ABCDEF"
abbrev pub itoa_table : List ℕ
itoa_table = 48 ∷ 49 ∷ 50 ∷ 51 ∷ 52 ∷ 53 ∷ 54 ∷ 55 ∷ 56 ∷ 57 ∷ 65 ∷ 66 ∷ 67 ∷ 68 ∷ 69 ∷ 70 ∷ []

-- The loop of `get_itoa_table_index`, over the entries left below `max_len`.
abbrev pub index_loop : ℕ → ℕ → List ℕ → ℕ → ℤ
index_loop ch i [] zero = negsuc 0
index_loop ch i [] (suc n) = negsuc 0
index_loop ch i (x ∷ xs) zero = negsuc 0
index_loop ch i (x ∷ xs) (suc n) = if ch == x then pos i else index_loop ch (suc i) xs n

unfoldable pub get_itoa_table_index : (ch len : ℕ) → ℤ
get_itoa_table_index ch len = index_loop ch 0 itoa_table (min len 16)

-- `while (value) { *dst++ = _itoa_table[value % radix]; value /= radix; }`; the answer is the last `dst`.
-- A round makes the value smaller, so `value` rounds and the last test are enough.
unfoldable pub put_digits : ℕ → Mem → (value dst radix : ℕ) → Run (ℕ × Mem)
put_digits zero m value dst radix = out_of_fuel
put_digits (suc f) m value dst radix =
    let rest =
      put_digits f (put m dst (get_or itoa_table (value % radix) 0)) (value / radix) (dst + 1)
        radix in
    if value == 0 then done (dst, m) else rest

-- `while (last > pre) { swap; pre++; last--; }`, over the rounds left.
unfoldable pub swap_loop : ℕ → Mem → (pre last : ℕ) → Mem
swap_loop zero m pre last = m
swap_loop (suc n) m pre last =
    let rest = swap_loop n (put (put m pre (m last)) last (m pre)) (pre + 1) (last - 1) in
    if ltb pre last then rest else m

abbrev pub is_radix : ℕ → Bool
is_radix radix = radix == 10 || radix == 16

-- `_uitoa`: the count of characters, with the terminator, and the memory. The second loop swaps less often
-- than there are digits.
unfoldable pub uitoa : Mem → (value string radix : ℕ) → Run (ℕ × Mem)
uitoa m value string radix =
    if not (is_radix radix)
    then halted
    else if value == 0
    then done (2, put (put m string b'0') (string + 1) 0)
    else do
      (dst, m₁) ← put_digits (value + 1) m value string radix
      let m₂ = swap_loop (dst - string) m₁ string (dst - 1)
      done (dst + 1 - string, put m₂ dst 0)

-- `_itoa`: a 64-bit value; `value = -value` is done modulo 2 ^ 64.
unfoldable pub itoa : Mem → (value : ℤ) → (string radix : ℕ) → Run (ℕ × Mem)
itoa m (pos value) string radix = if radix == 10 then uitoa m value string radix else halted
itoa m (negsuc value) string radix =
    if radix == 10
    then (do
      (n, m') ← uitoa (put m string b'-') ((value + 1) % 2 ^ 64) (string + 1) radix
      done (1 + n, m'))
    else halted

-- `to_upper`; a byte from 128 on is negative, so it fails the range test.
unfoldable pub to_upper : ℕ → ℕ
to_upper c = if leb b'a' c && leb c b'z' then c - b'a' + b'A' else c

-- The loop of `_uatoi`, over the rounds left: the value and the address behind the digits.
unfoldable pub read_digits : ℕ → Mem → (s radix value : ℕ) → Run (ℕ × ℕ)
read_digits zero m s radix value = out_of_fuel
read_digits (suc f) m s radix value = elim (get_itoa_table_index (to_upper (m s)) radix) [
  | pos bit_value ↦ read_digits f m (s + 1) radix ((value * radix % 2 ^ 64 + bit_value) % 2 ^ 64)
  | negsuc n ↦ done (value, s)
]

-- `_uatoi`: how many characters were read, and the value.
unfoldable pub uatoi : ℕ → Mem → (string radix : ℕ) → Run (ℕ × ℕ)
uatoi f m string radix =
    if not (is_radix radix)
    then halted
    else do (value, s) ← read_digits f m string radix 0; done (s - string, value)

pub data FmtFlag : Type 0 where
  flag_nop : FmtFlag
  flag_zero : FmtFlag
  flag_left : FmtFlag

-- The flag and the count of characters that it takes.
unfoldable pub get_fmt_flag : Mem → (fmt : ℕ) → Run (FmtFlag × ℕ)
get_fmt_flag m fmt =
    let c = m fmt in
    if c == b'+' || c == b' ' || c == b'#'
    then halted
    else if c == b'0'
    then done (flag_zero, 1)
    else if c == b'-'
    then done (flag_left, 1)
    else done (flag_nop, 0)

-- `while (remain-- > 0) *dst++ = c`, as memory and the last `dst`.
unfoldable pub put_chars : Mem → (dst c remain : ℕ) → Mem × ℕ
put_chars m dst c zero = (m, dst)
put_chars m dst c (suc remain) = put_chars (put m dst c) (dst + 1) c remain

-- An `int` of the C code from the low 32 bits of a word.
abbrev pub int_of : ℕ → ℤ
int_of w = if ltb (w % 2 ^ 32) (2 ^ 31) then pos (w % 2 ^ 32) else negsuc (2 ^ 32 - 1 - w % 2 ^ 32)

-- `copy_fmt_str`, with the width `num` as an `int`; `none` means that the fuel ran out.
unfoldable pub copy_fmt_str : ℕ → Mem → (dst buf : ℕ) → FmtFlag → (num : ℤ) → Option (ℕ × Mem)
copy_fmt_str f m dst buf flag num = elim (strlen f m buf) [
  | none ↦ none
  | some buf_str_len ↦
      let width = pos_part num in
      let len = if ltb buf_str_len width then width else buf_str_len in
      let remain = len - buf_str_len in
      elim flag [
        | flag_nop ↦
            let padded = put_chars m dst b' ' remain in
            elim (strcpy f padded.0 padded.1 buf) [ none ↦ none | some m' ↦ some (len, m') ]
        | flag_zero ↦
            let padded = put_chars m dst b'0' remain in
            elim (strcpy f padded.0 padded.1 buf) [ none ↦ none | some m' ↦ some (len, m') ]
        | flag_left ↦ elim (strcpy f m dst buf) [
          | none ↦ none
          | some m' ↦ elim (strlen f m' buf) [
            | none ↦ none
            | some n ↦ some (len, (put_chars m' (dst + n) b' ' remain).0)
          ]
        ]
      ]
]

abbrev pub from_option {ℓ} : {A : Type ℓ} → Option A → Run A
from_option none = out_of_fuel
from_option (some a) = done a

abbrev pub put_list : Mem → ℕ → List ℕ → Mem
put_list m a [] = m
put_list m a (x ∷ xs) = put_list (put m a x) (a + 1) xs

-- `va_arg`: the next argument as a 64-bit word. A missing argument is undefined in C; here it reads as 0.
abbrev pub va_arg : List ℕ → ℕ × List ℕ
va_arg [] = (0, [])
va_arg (a ∷ rest) = (a, rest)

abbrev pub signed_64 : ℕ → ℤ
signed_64 w = if ltb w (2 ^ 63) then pos w else negsuc (2 ^ 64 - 1 - w)

-- The `switch` of `vsprintf` on the conversion character: `buf` is filled, and `dst` moves behind "0x" for
-- `%p`. The test `c=='u'` reads the percent sign, so the radix is 16 for every unsigned conversion.
unfoldable pub convert : ℕ → Mem → (conv dst buf : ℕ) → List ℕ → Run (Mem × ℕ × List ℕ)
convert f m conv dst buf args =
    let arg = (va_arg args).0 in
    let rest = (va_arg args).1 in
    if conv == b'c'
    then done (put (put m buf (arg % 256)) (buf + 1) 0, dst, rest)
    else if conv == b's'
    then (do
      m' ← from_option (
          if arg == 0
          then some (put_list m buf (40 ∷ 110 ∷ 117 ∷ 108 ∷ 108 ∷ 41 ∷ 0 ∷ []))
          else strcpy f m buf arg)
      done (m', dst, rest))
    else if conv == b'd'
    then (do (n, m') ← itoa m (signed_64 arg) buf 10; done (m', dst, rest))
    else if conv == b'p'
    then (do
      (n, m') ← uitoa (put (put m dst b'0') (dst + 1) b'x') arg buf 16
      done (m', dst + 2, rest))
    else if conv == b'u' || conv == b'x'
    then (do (n, m') ← uitoa m arg buf 16; done (m', dst, rest))
    else halted

-- The loop of `vsprintf`, over the characters of the format left; `f` bounds the string loops.
unfoldable pub format_loop : (rounds f : ℕ) → Mem → (fmt dst buf : ℕ) → List ℕ → Run (ℕ × Mem)
format_loop zero f m fmt dst buf args = out_of_fuel
format_loop (suc n) f m fmt dst buf args =
    let c = m fmt in
    let plain = format_loop n f (put m dst c) (fmt + 1) (dst + 1) buf args in
    let again =
      λ (m' : Mem) (fmt' dst' : ℕ) (args' : List ℕ). format_loop n f m' fmt' dst' buf args' in
    if c == 0
    then done (dst, m)
    else if c == b'%'
    then (do
      (flag, taken) ← get_fmt_flag m (fmt + 1)
      (read, width) ← uatoi f m (fmt + 1 + taken) 10
      let conv = fmt + 1 + taken + read
      (m₁, dst₁, args') ← convert f m (m conv) dst buf args
      (len, m₂) ← from_option (copy_fmt_str f m₁ dst₁ buf flag (int_of width))
      again m₂ (conv + 1) (dst₁ + len) args')
    else plain

-- `vsprintf`: the count of characters, with the terminator.
unfoldable pub vsprintf : (rounds f : ℕ) → Mem → (out fmt buf : ℕ) → List ℕ → Run (ℕ × Mem)
vsprintf rounds f m out fmt buf args = do
  (dst, m') ← format_loop rounds f m fmt out buf args
  done (dst + 1 - out, put m' dst 0)
