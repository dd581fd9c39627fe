-- ===== src/CString.antt =====
-- C strings: the functions of <string.h>, <strings.h> and <ctype.h> that the program calls, in
-- the C locale, and compat/strlcpy.c, compat/strlcat.c. A `char *` that is not NULL is the list of
-- its bytes before the terminating NUL; one that may be NULL is an `Option`.
pub mod Case
pub mod Search
pub mod Copy
pub mod Input
pub mod Numbers
pub mod Digits
pub mod Decimal
use Prim.Native.Char.{code}
use Prim.Native.String.{String}
use mathlib.Core.Option
use ezstream.Prelude.{
  ℕ, ◌+◌, ◌-◌, Bool, true, false, ◌&&◌, Option, none, some, List, [], ◌∷◌, ◌++◌, map, leb, ◌==◌,
  take, length, if◌then◌else◌,
}

abbrev pub Bytes : Type 0
Bytes = List ℕ

-- The bytes of an ASCII literal.
abbrev pub codes : String → Bytes
codes String.[] = []
codes (String.◌∷◌ c s) = code c ∷ codes s

-- `0 == strcmp(a, b)`
unfoldable pub str_eq : Bytes → Bytes → Bool
str_eq [] [] = true
str_eq [] (d ∷ t) = false
str_eq (c ∷ s) [] = false
str_eq (c ∷ s) (d ∷ t) = c == d && str_eq s t

unfoldable pub to_lower : ℕ → ℕ
to_lower c = if leb b'A' c && leb c b'Z' then c + 32 else c

abbrev pub lower : Bytes → Bytes
lower = map to_lower

-- `0 == strcasecmp(a, b)`
unfoldable pub str_case_eq : Bytes → Bytes → Bool
unfolding str_eq to_lower
str_case_eq a b = str_eq (lower a) (lower b)

-- `0 == strncmp(s, t, strlen(t))`
unfoldable pub starts_with : Bytes → Bytes → Bool
starts_with s [] = true
starts_with [] (d ∷ t) = false
starts_with (c ∷ s) (d ∷ t) = c == d && starts_with s t

-- `strstr(s, t)`: the rest of `s` from the first occurrence of `t` on.
unfoldable pub strstr : Bytes → Bytes → Option Bytes
unfolding starts_with
strstr [] t = if starts_with [] t then some [] else none
strstr (c ∷ s) t = if starts_with (c ∷ s) t then some (c ∷ s) else strstr s t

-- `strrchr(s, c)`: the rest of `s` from the last `c` on.
unfoldable pub strrchr : Bytes → ℕ → Option Bytes
strrchr [] c = none
strrchr (d ∷ s) c = elim (strrchr s c) [
  | some r ↦ some r
  | none ↦ if d == c then some (d ∷ s) else none
]

-- `s[strcspn(s, "c")] = '\0'`: `s` up to the first `c`.
unfoldable pub cut : ℕ → Bytes → Bytes
cut c [] = []
cut c (d ∷ s) = if d == c then [] else d ∷ cut c s

-- What `strlen` and all of the above see of raw memory: the bytes before the first NUL.
unfoldable pub c_str : Bytes → Bytes
unfolding cut
c_str = cut 0

-- `!s || !s[0]`, the test that the setters begin with.
abbrev pub null_or_empty : Option Bytes → Bool
null_or_empty none = true
null_or_empty (some []) = true
null_or_empty (some (c ∷ s)) = false

-- `strlcpy(dst, src, size)` for a size above 0: the string left in `dst`. It returns `length src`.
unfoldable pub strlcpy : Bytes → ℕ → Bytes
strlcpy src size = take (size - 1) src

-- `strlcat(dst, src, size)` where the string in `dst` is shorter than `size`: the string left in `dst`.
unfoldable pub strlcat : Bytes → Bytes → ℕ → Bytes
strlcat dst src size = dst ++ take (size - length dst - 1) src

-- `snprintf(dst, size, "%s", src)`
unfoldable pub snprintf_s : ℕ → Bytes → Bytes
snprintf_s size src = take (size - 1) src
