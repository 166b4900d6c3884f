-- ===== src/Text.antt =====
-- The methods of Python's `str` that the service calls, on native texts. `lower` is exact on ASCII
-- letters and leaves every other character alone; `strip` removes the ASCII white space.
use Prim.Native.Char.{Char, code}
use Prim.Native.String
use mxtng_auth_services.Common.{
  ℕ, zero, suc, ◌-◌, ◌/◌, ◌%◌, String, Bool, false, ◌&&◌, ◌||◌, List, [], ◌∷◌, leb, ltb, ◌==◌,
  if◌then◌else◌,
}

-- `str.maketrans(from, to)` applied to one character.
unfoldable pub translate : String → String → Char → Char
translate (String.◌∷◌ a from) (String.◌∷◌ b to) c =
    if code a == code c then b else translate from to c
translate _ _ c = c

unfoldable pub lower_char : Char → Char
unfolding translate
lower_char = translate "ABCDEFGHIJKLMNOPQRSTUVWXYZ" "abcdefghijklmnopqrstuvwxyz"

unfoldable pub lower : String → String
unfolding lower_char
lower String.[] = String.[]
lower (String.◌∷◌ c s) = String.◌∷◌ (lower_char c) (lower s)

unfoldable pub is_space : Char → Bool
is_space c = let n = code c in (leb 9 n && leb n 13) || (leb 28 n && leb n 32)

unfoldable pub lstrip : String → String
unfolding is_space
lstrip String.[] = String.[]
lstrip (String.◌∷◌ c s) = if is_space c then lstrip s else String.◌∷◌ c s

-- A character in front of a stripped text: a space is dropped when nothing follows it.
unfoldable pub keep_before : Char → String → String
unfolding is_space
keep_before c String.[] = if is_space c then String.[] else String.◌∷◌ c String.[]
keep_before c (String.◌∷◌ d t) = String.◌∷◌ c (String.◌∷◌ d t)

unfoldable pub rstrip : String → String
unfolding keep_before
rstrip String.[] = String.[]
rstrip (String.◌∷◌ c s) = keep_before c (rstrip s)

unfoldable pub strip : String → String
unfolding lstrip rstrip
strip s = rstrip (lstrip s)

-- `s[:n]`
unfoldable pub take : ℕ → String → String
take zero s = String.[]
take (suc n) String.[] = String.[]
take (suc n) (String.◌∷◌ c s) = String.◌∷◌ c (take n s)

-- `len(s)`
unfoldable pub count_chars : String → ℕ
count_chars String.[] = 0
count_chars (String.◌∷◌ c s) = suc (count_chars s)

-- `c in s`
unfoldable pub has_char : ℕ → String → Bool
has_char n String.[] = false
has_char n (String.◌∷◌ c s) = code c == n || has_char n s

unfoldable pub concat : List String → String
concat [] = String.[]
concat (s ∷ ss) = String.◌++◌ s (concat ss)

-- The digit of a number below ten.
unfoldable pub digit : ℕ → String
digit n =
    if n == 0
    then "0"
    else if n == 1
    then "1"
    else if n == 2
    then "2"
    else if n == 3
    then "3"
    else if n == 4
    then "4"
    else if n == 5
    then "5"
    else if n == 6
    then "6"
    else if n == 7
    then "7"
    else if n == 8
    then "8"
    else "9"

-- The decimal digits of a number, put in front of `tail`; a number has fewer digits than itself.
unfoldable pub show_from : ℕ → ℕ → String → String
unfolding digit
show_from zero n tail = tail
show_from (suc fuel) n tail =
    let rest = show_from fuel (n / 10) (String.◌++◌ (digit (n % 10)) tail) in
    if ltb n 10 then String.◌++◌ (digit n) tail else rest

-- `str(n)`
unfoldable pub show : ℕ → String
unfolding show_from
show n = show_from (suc n) n ""

unfoldable pub zeros : ℕ → String → String
zeros zero s = s
zeros (suc n) s = String.◌++◌ "0" (zeros n s)

-- `s.zfill(width)` of a text with no sign
unfoldable pub zfill : ℕ → String → String
unfolding zeros count_chars
zfill width s = zeros (width - count_chars s) s

-- What stands before and after the first `c`: `s.partition(c)` without its middle part.
unfoldable pub before : ℕ → String → String
before n String.[] = String.[]
before n (String.◌∷◌ c s) =
    let rest = before n s in if code c == n then String.[] else String.◌∷◌ c rest

unfoldable pub after : ℕ → String → String
after n String.[] = String.[]
after n (String.◌∷◌ c s) = let rest = after n s in if code c == n then s else rest

-- `s * n`
unfoldable pub repeat : ℕ → String → String
repeat zero s = String.[]
repeat (suc n) s = String.◌++◌ s (repeat n s)
