-- ===== src/Libc/Chars.antt =====
-- <ctype.h> and <string.h>: a C string is the list of its bytes, without the closing NUL.
use Prim.Native.Char.{code}
use Prim.Native.String.{String}
use rookietop.Common.{
  ℕ, ◌+◌, Bool, true, false, ◌&&◌, ◌||◌, List, [], ◌∷◌, ◌++◌, Option, none, some, leb, ◌==◌,
  if◌then◌else◌, ◌≡◌, refl, arith,
}

abbrev pub Bytes : Type 0
Bytes = List ℕ

-- The bytes of an ASCII literal.
abbrev pub codes : String → Bytes
codes String.[] = []
codes (String.◌∷◌ c s) = code c ∷ codes s

-- isspace, isdigit, isprint, tolower in the C locale
unfoldable pub is_space : ℕ → Bool
is_space c = c == 32 || (leb 9 c && leb c 13)

unfoldable pub is_digit : ℕ → Bool
is_digit c = leb b'0' c && leb c b'9'

unfoldable pub is_print : ℕ → Bool
is_print c = leb 32 c && leb c 126

unfoldable pub to_lower : ℕ → ℕ
to_lower c = if leb b'A' c && leb c b'Z' then c + 32 else c

-- `*p == ' ' || *p == '\t'`
unfoldable pub is_blank : ℕ → Bool
is_blank c = c == 32 || c == 9

-- `strcspn(s, "\r\n")` stops at these.
unfoldable pub is_line_end : ℕ → Bool
is_line_end c = c == 13 || c == 10

-- `while (test(*p)) p++;`
unfoldable pub skip_while : (ℕ → Bool) → Bytes → Bytes
skip_while p [] = []
skip_while p (c ∷ cs) = if p c then skip_while p cs else c ∷ cs

-- The bytes before the first that passes the test.
unfoldable pub take_until : (ℕ → Bool) → Bytes → Bytes
take_until p [] = []
take_until p (c ∷ cs) = if p c then [] else c ∷ take_until p cs

-- `while (end > start && test(end[-1])) end--;`
unfoldable pub trim_end : (ℕ → Bool) → Bytes → Bytes
trim_end p [] = []
trim_end p (c ∷ cs) = elim (trim_end p cs) [ [] ↦ if p c then [] else c ∷ [] | d ∷ ds ↦ c ∷ d ∷ ds ]

-- `strncmp(s, prefix, strlen(prefix)) == 0`, with what follows the prefix.
unfoldable pub strip_prefix : Bytes → Bytes → Option Bytes
strip_prefix [] s = some s
strip_prefix (p ∷ ps) [] = none
strip_prefix (p ∷ ps) (c ∷ cs) = if p == c then strip_prefix ps cs else none

-- `strcmp(a, b) == 0`
unfoldable pub str_eq : Bytes → Bytes → Bool
str_eq [] [] = true
str_eq [] (c ∷ cs) = false
str_eq (a ∷ as') [] = false
str_eq (a ∷ as') (c ∷ cs) = a == c && str_eq as' cs

-- `strchr(s, b)`: the string from the first `b` on.
unfoldable pub strchr : Bytes → ℕ → Option Bytes
strchr [] b = none
strchr (c ∷ cs) b = if c == b then some (c ∷ cs) else strchr cs b

-- `strrchr(s, b)`: the string from the last `b` on.
unfoldable pub strrchr : Bytes → ℕ → Option Bytes
strrchr [] b = none
strrchr (c ∷ cs) b = elim (strrchr cs b) [
  | some s ↦ some s
  | none ↦ if c == b then some (c ∷ cs) else none
]

-- The text starts with the word.
unfoldable pub starts_with : Bytes → Bytes → Bool
starts_with text [] = true
starts_with [] (w ∷ ws) = false
starts_with (c ∷ cs) (w ∷ ws) = c == w && starts_with cs ws

-- `strstr(text, word) != NULL`
unfoldable pub strstr : Bytes → Bytes → Bool
unfolding starts_with
strstr [] word = starts_with [] word
strstr (c ∷ cs) word = starts_with (c ∷ cs) word || strstr cs word

-- What a C string function sees of a buffer: the bytes before the first NUL.
unfoldable pub c_string : Bytes → Bytes
unfolding take_until
c_string s = take_until (λ c. c == 0) s

pub skip_while-cons :
    (p : ℕ → Bool) (c : ℕ) (cs : Bytes) → p c ≡ true → skip_while p (c ∷ cs) ≡ skip_while p cs
unfolding skip_while
skip_while-cons p c cs h = rw h

pub skip_while-stop :
    (p : ℕ → Bool) (c : ℕ) (cs : Bytes) → p c ≡ false → skip_while p (c ∷ cs) ≡ c ∷ cs
unfolding skip_while
skip_while-stop p c cs h = rw h

pub digit_not_space : (c : ℕ) → is_digit c ≡ true → is_space c ≡ false
unfolding is_digit is_space
digit_not_space c h = ground arith

pub strip_prefix-append : (p s : Bytes) → strip_prefix p (p ++ s) ≡ some s
unfolding strip_prefix
strip_prefix-append [] s = refl
strip_prefix-append (c ∷ cs) s = ground (arith, strip_prefix-append cs s)
