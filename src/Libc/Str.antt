-- ===== src/Libc/Str.antt =====
-- lolibc/string.c: the functions on C strings. A loop that runs to a terminator takes fuel, and
-- `none` means that the fuel ran out; `char` is a byte here, and signed where the code compares.
pub mod Copy
pub mod Compare
pub mod Tok
use loos_lab.Base.{
  ℕ, zero, suc, ◌+◌, ◌-◌, Bool, true, false, not, ◌&&◌, Option, none, some, ltb, leb, ◌==◌,
  if◌then◌else◌,
}
use loos_lab.Base.Int.{ℤ, ◌-ℤ◌, pos, negsuc}
use loos_lab.Memory.{Mem, put}

-- `strlen` from `s` on, with `p` characters counted.
strlen_loop : ℕ → Mem → (s p : ℕ) → Option ℕ
strlen_loop zero m s p = none
strlen_loop (suc f) m s p =
    let rest = strlen_loop f m (s + 1) (p + 1) in if m s == 0 then some p else rest

unfoldable pub strlen : ℕ → Mem → ℕ → Option ℕ
unfolding strlen_loop
strlen f m s = strlen_loop f m s 0

-- `while (*src) *dst++ = *src++; *dst = '\0';`
unfoldable pub copy_str : ℕ → Mem → (dst src : ℕ) → Option Mem
copy_str zero m dst src = none
copy_str (suc f) m dst src =
    let rest = copy_str f (put m dst (m src)) (dst + 1) (src + 1) in
    if m src == 0 then some (put m dst 0) else rest

-- Both `strcpy` and `strcat` return their first argument.
unfoldable pub strcpy : ℕ → Mem → (dst src : ℕ) → Option Mem
unfolding copy_str
strcpy f m dst src = copy_str f m dst src

-- `while (n) { *dst++ = '\0'; n--; }`
unfoldable pub pad : Mem → (dst n : ℕ) → Mem
pad m dst zero = m
pad m dst (suc n) = pad (put m dst 0) (dst + 1) n

unfoldable pub strncpy : Mem → (dst src n : ℕ) → Mem
unfolding pad
strncpy m dst src zero = m
strncpy m dst src (suc n) =
    let copy = strncpy (put m dst (m src)) (dst + 1) (src + 1) n in
    let fill = pad m dst (suc n) in if m src == 0 then fill else copy

-- `while (*dst) dst++;`
unfoldable pub find_end : ℕ → Mem → ℕ → Option ℕ
find_end zero m dst = none
find_end (suc f) m dst = let rest = find_end f m (dst + 1) in if m dst == 0 then some dst else rest

unfoldable pub strcat : ℕ → Mem → (dst src : ℕ) → Option Mem
unfolding find_end copy_str
strcat f m dst src = elim (find_end f m dst) [ none ↦ none | some e ↦ copy_str f m e src ]

-- A byte read as a `signed char`.
unfoldable pub signed_char : ℕ → ℤ
signed_char c = if ltb c 128 then pos c else negsuc (255 - c)

-- `*s1 - *s2`
unfoldable pub char_diff : Mem → (s1 s2 : ℕ) → ℤ
unfolding signed_char ◌-ℤ◌
char_diff m s1 s2 = signed_char (m s1) -ℤ signed_char (m s2)

unfoldable pub strncmp : Mem → (s1 s2 n : ℕ) → ℤ
unfolding char_diff
strncmp m s1 s2 zero = char_diff m s1 s2
strncmp m s1 s2 (suc n) =
    if not (m s1 == 0) && (m s1 == m s2 && ltb 1 (suc n))
    then strncmp m (s1 + 1) (s2 + 1) n
    else char_diff m s1 s2

abbrev pub max_str_len : ℕ
max_str_len = 1024

unfoldable pub strcmp : Mem → (s1 s2 : ℕ) → ℤ
unfolding strncmp
strcmp m s1 s2 = strncmp m s1 s2 max_str_len

-- The two adjustments of `strcasecmp`; a byte from 128 on is negative, so it fails the range test.
unfoldable pub to_lower : ℕ → ℕ
to_lower c = if leb b'A' c && leb c b'Z' then c + (b'a' - b'A') else c

unfoldable pub strcasecmp : ℕ → Mem → (s1 s2 : ℕ) → Option ℤ
unfolding to_lower char_diff
strcasecmp zero m s1 s2 = none
strcasecmp (suc f) m s1 s2 =
    let rest = strcasecmp f m (s1 + 1) (s2 + 1) in
    let differ = signed_char (to_lower (m s1)) -ℤ signed_char (to_lower (m s2)) in
    if not (m s1 == 0) && not (m s2 == 0)
    then (if to_lower (m s1) == to_lower (m s2) then rest else some differ)
    else some (char_diff m s1 s2)

-- The inner loop of `strspn` and `strcspn`: whether `c` stands in the string at `a`.
unfoldable pub in_str : ℕ → Mem → (c a : ℕ) → Option Bool
in_str zero m c a = none
in_str (suc f) m c a =
    let rest = in_str f m c (a + 1) in
    if m a == 0 then some false else if c == m a then some true else rest

-- The outer loop: `want` is the answer of `in_str` on which the scan goes on.
unfoldable pub span_loop : Bool → ℕ → ℕ → Mem → (p chars count : ℕ) → Option ℕ
unfolding in_str
span_loop want g zero m p chars count = none
span_loop want g (suc f) m p chars count =
    let rest = span_loop want g f m (p + 1) chars (count + 1) in
    if m p == 0 then some count else (elim (in_str g m (m p) chars) [
      | none ↦ none
      | some true ↦ (if want then rest else some count)
      | some false ↦ (if want then some count else rest)
    ])

unfoldable pub strspn : ℕ → Mem → (s accept : ℕ) → Option ℕ
unfolding span_loop
strspn f m s accept = span_loop true f f m s accept 0

unfoldable pub strcspn : ℕ → Mem → (s reject : ℕ) → Option ℕ
unfolding span_loop
strcspn f m s reject = span_loop false f f m s reject 0

-- What `strtok` answers: its return value (0 for NULL), the memory and the static `lasts`.
pub record TokenResult : Type 0 where
  pub start : ℕ
  pub mem : Mem
  pub lasts : ℕ

-- The end of `strtok`, once `send` is known.
cut_token : Mem → (sbegin send : ℕ) → TokenResult
cut_token m sbegin send =
    if m send == 0
    then record { start = sbegin; mem = m; lasts = send }
    else record { start = sbegin; mem = put m send 0; lasts = send + 1 }

unfoldable pub strtok : ℕ → Mem → (lasts str delim : ℕ) → Option TokenResult
unfolding strspn strcspn cut_token
strtok f m lasts str delim =
    let from = if str == 0 then lasts else str in
    if from == 0
    then some (record { start = 0; mem = m; lasts = lasts })
    else (elim (strspn f m from delim) [
      | none ↦ none
      | some skip ↦
          (let sbegin = from + skip in
            if m sbegin == 0
            then some (record { start = 0; mem = m; lasts = 0 })
            else (elim (strcspn f m sbegin delim) [
              | none ↦ none
              | some len ↦ some (cut_token m sbegin (sbegin + len))
            ]))
    ])
