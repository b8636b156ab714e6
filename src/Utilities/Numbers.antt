-- ===== src/Utilities/Numbers.antt =====
-- What the program uses of `strtol` and `atoi`, and `is_number` of utils/utilities.c. A `long` has
-- 64 bits and an `int` 32; a number that no `long` holds is cut to the nearest one, with ERANGE.
use file_storage_server.Base.{
  ℕ, zero, suc, ◌+◌, ◌*◌, ◌%◌, ◌^◌, ◌-◌, Bool, true, false, ◌&&◌, ◌||◌, Option, none, some, [], ◌∷◌,
  ltb, leb, ◌==◌, if◌then◌else◌,
}
use file_storage_server.Base.Int.{ℤ, pos, negsuc}
use file_storage_server.Utilities.{CString}

abbrev pub is_digit : ℕ → Bool
is_digit c = leb 48 c && leb c 57

abbrev pub is_space : ℕ → Bool
is_space c = c == 32 || (leb 9 c && leb c 13)

unfoldable pub skip_spaces : CString → CString
skip_spaces [] = []
skip_spaces (c ∷ cs) = let rest = skip_spaces cs in if is_space c then rest else c ∷ cs

-- The number that the digits at the front continue, and what follows them.
unfoldable pub digits : ℕ → CString → ℕ × CString
digits n [] = (n, [])
digits n (c ∷ cs) = elim (is_digit c) [ true ↦ digits (n * 10 + (c - 48)) cs | false ↦ (n, c ∷ cs) ]

pub record Number : Type 0 where
  pub value : ℤ
  pub rest : CString
  pub in_range : Bool

abbrev pub negate : ℕ → ℤ
negate zero = pos 0
negate (suc n) = negsuc n

-- A sign and digits; with no digit, `rest` is the whole text `s`.
unfoldable pub signed : Bool → CString → CString → Number
unfolding digits
signed minus s [] = record { value = pos 0; rest = s; in_range = true }
signed minus s (c ∷ cs) =
    let (n, more) = digits 0 (c ∷ cs) in
    if is_digit c
    then (if minus
        then (if ltb (2 ^ 63) n
            then record { value = negate (2 ^ 63); rest = more; in_range = false }
            else record { value = negate n; rest = more; in_range = true })
        else (if leb (2 ^ 63) n
            then record { value = pos (2 ^ 63 - 1); rest = more; in_range = false }
            else record { value = pos n; rest = more; in_range = true }))
    else record { value = pos 0; rest = s; in_range = true }

-- `strtol(s, &e, 10)`
unfoldable pub strtol : CString → Number
unfolding signed skip_spaces
strtol s = elim (skip_spaces s) [
  | [] ↦ record { value = pos 0; rest = s; in_range = true }
  | c ∷ cs ↦
      if c == 45
      then signed true s cs
      else if c == 43
      then signed false s cs
      else signed false s (c ∷ cs)
]

-- A `long` cut to an `int`.
unfoldable pub to_int : ℤ → ℤ
to_int (pos n) =
    let low = n % 2 ^ 32 in if ltb low (2 ^ 31) then pos low else negsuc (2 ^ 32 - 1 - low)
to_int (negsuc n) =
    let low = n % 2 ^ 32 in if ltb low (2 ^ 31) then negsuc low else pos (2 ^ 32 - 1 - low)

-- `atoi`, as the C library has it: `strtol` cut to an `int`.
unfoldable pub atoi : CString → ℤ
unfolding strtol to_int
atoi s = to_int (strtol s).value

-- The code, and what is stored in `*n`, if anything. `none` is NULL.
unfoldable pub is_number : Option CString → ℤ × Option ℤ
unfolding strtol
is_number none = (pos 1, none)
is_number (some []) = (pos 1, none)
is_number (some (c ∷ cs)) =
    let val = strtol (c ∷ cs) in
    if val.in_range
    then elim val.rest [ [] ↦ (pos 0, some val.value) | c' ∷ cs' ↦ (pos 1, none) ]
    else (pos 2, none)
