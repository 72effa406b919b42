-- ===== src/Clib.antt =====
-- What the sources use of the C library on strings. A string is its bytes in front of the NUL, a
-- pointer into it the rest of it, and no other byte of it is 0.
pub mod Numerals
pub mod Search
use dpdk_practice.Base.{
  ◌>>=◌, ℕ, zero, suc, ◌+◌, ◌-◌, ◌*◌, ◌%◌, Bool, true, false, ◌&&◌, ◌||◌, not, List, [], ◌∷◌,
  Option, none, some, ltb, leb, ◌==◌, if◌then◌else◌,
}

abbrev pub Str : Type 0
Str = List ℕ

-- The byte that a pointer points to.
abbrev pub char_at : Str → ℕ
char_at [] = 0
char_at (c ∷ s) = c

-- isspace in the C locale
abbrev pub isspace : ℕ → Bool
isspace c = c == 32 || leb 9 c && leb c 13

abbrev pub skip_space : Str → Str
skip_space [] = []
skip_space (c ∷ s) = if isspace c then skip_space s else c ∷ s

-- Letters count from 10 on; 255 is no digit.
abbrev pub digit_value : ℕ → ℕ
digit_value c =
    if leb 48 c && leb c 57
    then c - 48
    else if leb 97 c && leb c 122
    then c - 87
    else if leb 65 c && leb c 90
    then c - 55
    else 255

abbrev pub digits : ℕ → ℕ → Str → ℕ × Str
digits base acc [] = (acc, [])
digits base acc (c ∷ s) =
    if ltb (digit_value c) base then digits base (acc * base + digit_value c) s else (acc, c ∷ s)

-- `negative` and what is behind the sign
abbrev pub sign : Str → Bool × Str
sign [] = (false, [])
sign (c ∷ s) = if c == 45 then (true, s) else if c == 43 then (false, s) else (false, c ∷ s)

-- The base that is used, and what is behind a prefix 0x.
abbrev pub radix : ℕ → Str → ℕ × Str
radix base (z ∷ x ∷ d ∷ s) =
    if (base == 0 || base == 16) && z == 48 && (x == 120 || x == 88) && ltb (digit_value d) 16
    then (16, d ∷ s)
    else (if base == 0 then if z == 48 then 8 else 10 else base, z ∷ x ∷ d ∷ s)
radix base (z ∷ s) = (if base == 0 then if z == 48 then 8 else 10 else base, z ∷ s)
radix base [] = (if base == 0 then 10 else base, [])

-- `rest` is what `end` points to, `range` that errno is ERANGE, `converted` that `end` has moved.
pub record Number : Type 0 where
  pub negative : Bool
  pub value : ℕ
  pub rest : Str
  pub range : Bool
  pub converted : Bool

-- The numeral at the front, with its sign; `s` is the string it was found in.
abbrev pub scan : ℕ → Str → Number
scan base s =
    let (negative, body) = sign (skip_space s) in
    let (b, numeral) = radix base body in
    let (value, rest) = digits b 0 numeral in
    if ltb (digit_value (char_at numeral)) b
    then record { negative = negative; value = value; rest = rest; range = false; converted = true }
    else record { negative = false; value = 0; rest = s; range = false; converted = false }

abbrev pub ulong_max : ℕ
ulong_max = 18446744073709551615

-- A minus sign negates in unsigned long.
unfoldable pub strtoul : Str → ℕ → Number
strtoul s base =
    let n = scan base s in
    if ltb ulong_max n.value
    then record n { value = ulong_max; range = true }
    else if n.negative
    then record n { value = (ulong_max + 1 - n.value) % (ulong_max + 1) }
    else n

-- The value of strtol as a 64-bit word in two's complement.
pub strtol : Str → ℕ → Number
strtol s base =
    let n = scan base s in
    if n.negative
    then if ltb 9223372036854775808 n.value
      then record n { value = 9223372036854775808; range = true }
      else record n { value = (ulong_max + 1 - n.value) % (ulong_max + 1) }
    else if ltb 9223372036854775807 n.value
    then record n { value = 9223372036854775807; range = true }
    else n

-- strchr; the result starts with `c`.
abbrev pub strchr : Str → ℕ → Option Str
strchr [] c = none
strchr (a ∷ s) c = if a == c then some (a ∷ s) else strchr s c

-- What is in front of the first `c`.
abbrev pub before : Str → ℕ → Str
before [] c = []
before (a ∷ s) c = if a == c then [] else a ∷ before s c

abbrev pub is_delim : Str → ℕ → Bool
is_delim [] c = false
is_delim (d ∷ dlm) c = c == d || is_delim dlm c

abbrev pub skip_delims : Str → Str → Str
skip_delims dlm [] = []
skip_delims dlm (c ∷ s) = if is_delim dlm c then skip_delims dlm s else c ∷ s

-- A token and what is behind the delimiter that ends it.
abbrev pub token : Str → Str → Str × Str
token dlm [] = ([], [])
token dlm (c ∷ s) = let (t, rest) = token dlm s in if is_delim dlm c then ([], s) else (c ∷ t, rest)

-- strtok_r on the saved rest of the string.
abbrev pub strtok_r : Str → Str → Option (Str × Str)
strtok_r dlm s = elim (skip_delims dlm s) [ [] ↦ none | (c ∷ t) ↦ some (token dlm (c ∷ t)) ]

-- The first `n` tokens, none if there are fewer.
abbrev pub tokens : Str → ℕ → Str → Option (List Str)
tokens dlm zero s = some []
tokens dlm (suc n) s = do (t, rest) ← strtok_r dlm s; ts ← tokens dlm n rest; some (t ∷ ts)

-- `strcmp(s, t) == 0`
abbrev pub streq : Str → Str → Bool
streq [] [] = true
streq [] (d ∷ t) = false
streq (c ∷ s) [] = false
streq (c ∷ s) (d ∷ t) = c == d && streq s t
