-- ===== src/Clib/Numerals.antt =====
-- What the number parsers read from a plain numeral.
use dpdk_practice.Base.{
  lt→ltb, ℕ, ◌+◌, ◌*◌, ◌≤◌, ◌<◌, true, false, ◌||◌, List, [], ◌∷◌, map, ltb, ◌==◌, if◌then◌else◌,
  ◌≡◌, refl, arith,
}
use dpdk_practice.Clib.{
  Str, isspace, skip_space, digit_value, digits, sign, radix, scan, strtoul, ulong_max,
}

-- The character of a digit, letters in lower case.
abbrev pub digit_char : ℕ → ℕ
digit_char d = if ltb d 10 then 48 + d else 87 + d

abbrev pub numeral : List ℕ → Str
numeral ds = map digit_char ds

-- The value of the digits behind a number `acc`, most significant first.
abbrev pub value_of : ℕ → ℕ → List ℕ → ℕ
value_of base acc [] = acc
value_of base acc (d ∷ ds) = value_of base (acc * base + d) ds

abbrev pub AllBelow : ℕ → List ℕ → Type 0
AllBelow base [] = Unit {0}
AllBelow base (d ∷ ds) = (d < base) × AllBelow base ds

pub digit_value-digit_char : (d : ℕ) → d < 36 → digit_value (digit_char d) ≡ d
digit_value-digit_char d h = ground arith

isspace-digit_char : (d : ℕ) → d < 36 → isspace (digit_char d) ≡ false
isspace-digit_char d h = ground arith

pub digits-numeral :
    (base acc : ℕ) (ds : List ℕ)
    → base ≤ 36
    → AllBelow base ds
    → digits base acc (numeral ds) ≡ (value_of base acc ds, [])
digits-numeral base acc [] b h = refl
digits-numeral base acc (d ∷ ds) b (lt, h) =
    rw (digit_value-digit_char d (omega arith), ltb_true d base lt)
      (digits-numeral base (acc * base + d) ds b h)
  where
    ltb_true : (a b : ℕ) → a < b → ltb a b ≡ true
    ltb_true a b h = ground arith

-- No numeral starts with a space or a sign.
sign-numeral :
    (d : ℕ) (s : Str) → d < 36 → sign (skip_space (digit_char d ∷ s)) ≡ (false, digit_char d ∷ s)
sign-numeral d s h = rw (isspace-digit_char d h) (ground arith)

pub radix-ten : (d : ℕ) (s : Str) → radix 10 (d ∷ s) ≡ (10, d ∷ s)
radix-ten d [] = refl
radix-ten d (x ∷ []) = refl
radix-ten d (x ∷ e ∷ s) = refl

-- A second digit is no x.
pub radix-sixteen :
    (d : ℕ) (ds : List ℕ)
    → AllBelow 16 (d ∷ ds)
    → radix 16 (numeral (d ∷ ds)) ≡ (16, numeral (d ∷ ds))
radix-sixteen d [] h = refl
radix-sixteen d (x ∷ []) h = refl
radix-sixteen d (x ∷ e ∷ ds) (_, (lt, _)) = rw no_x (ground arith)
  where
    no_x : (digit_char x == 120 || digit_char x == 88) ≡ false
    no_x = ground arith

pub scan-numeral :
    (base d : ℕ) (ds : List ℕ)
    → base ≤ 36
    → AllBelow base (d ∷ ds)
    → radix base (numeral (d ∷ ds)) ≡ (base, numeral (d ∷ ds))
    → scan base (numeral (d ∷ ds)) ≡ record {
      negative = false;
      value = value_of base 0 (d ∷ ds);
      rest = [];
      range = false;
      converted = true;
    }
scan-numeral base d ds b (lt, h) r =
    rw
      (
        sign-numeral d (numeral ds) (omega arith),
        r,
        digits-numeral base 0 (d ∷ ds) b (lt, h),
        digit_value-digit_char d (omega arith),
        lt→ltb d base lt,
      )
      refl

pub strtoul-numeral :
    (base d : ℕ) (ds : List ℕ)
    → base ≤ 36
    → AllBelow base (d ∷ ds)
    → radix base (numeral (d ∷ ds)) ≡ (base, numeral (d ∷ ds))
    → value_of base 0 (d ∷ ds) ≤ ulong_max
    → strtoul (numeral (d ∷ ds)) base ≡ record {
      negative = false;
      value = value_of base 0 (d ∷ ds);
      rest = [];
      range = false;
      converted = true;
    }
unfolding strtoul
strtoul-numeral base d ds b h r fits = rw (scan-numeral base d ds b h r, small) refl
  where
    small : ltb ulong_max (value_of base 0 (d ∷ ds)) ≡ false
    small = ground arith
