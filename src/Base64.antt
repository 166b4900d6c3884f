-- ===== src/Base64.antt =====
-- Python's `int.to_bytes` and `base64.urlsafe_b64encode`, as signer.py uses them, and a decoder of
-- the texts that they make.
pub mod RoundTrip
use Prim.Native.Char.{Char, code}
use Prim.Native.String
use mxtng_auth_services.Common.{
  ℕ, zero, suc, ◌+◌, ◌-◌, ◌*◌, ◌/◌, ◌%◌, String, Bool, List, [], ◌∷◌, ◌++◌, ◌==◌, ◌&&◌, leb,
  if◌then◌else◌,
}

-- `v.bit_length()`: a number has at most as many bits as its value.
unfoldable pub bits_from : ℕ → ℕ → ℕ
bits_from zero v = 0
bits_from (suc fuel) v = let rest = bits_from fuel (v / 2) in if v == 0 then 0 else suc rest

unfoldable pub bit_length : ℕ → ℕ
unfolding bits_from
bit_length v = bits_from v v

-- `v.to_bytes(length, "big")` of a number that fits.
unfoldable pub to_bytes : ℕ → ℕ → List ℕ
to_bytes zero v = []
to_bytes (suc length) v = to_bytes length (v / 256) ++ (v % 256) ∷ []

-- `int.from_bytes(bs, "big")`, after the number that was read before.
unfoldable pub from_bytes : ℕ → List ℕ → ℕ
from_bytes acc [] = acc
from_bytes acc (b ∷ bs) = from_bytes (acc * 256 + b) bs

abbrev pub alphabet : String
alphabet = "ABCDEFGHIJKLMNOPQRSTUVWXYZabcdefghijklmnopqrstuvwxyz0123456789-_"

unfoldable pub char_at : String → ℕ → Char
char_at String.[] n = "="
char_at (String.◌∷◌ c s) zero = c
char_at (String.◌∷◌ c s) (suc n) = char_at s n

-- The character of six bits.
unfoldable pub symbol : ℕ → Char
unfolding char_at
symbol n = char_at alphabet n

abbrev pub pad : Char
pad = "="

-- Three bytes are four symbols; what is left over is padded.
unfoldable pub urlsafe_b64encode : List ℕ → String
unfolding symbol
urlsafe_b64encode [] = String.[]
urlsafe_b64encode (a ∷ []) =
    String.◌∷◌ (symbol (a / 4))
      (String.◌∷◌ (symbol (a % 4 * 16)) (String.◌∷◌ pad (String.◌∷◌ pad String.[])))
urlsafe_b64encode (a ∷ b ∷ []) = String.◌∷◌ (symbol (a / 4)) (
    String.◌∷◌ (symbol (a % 4 * 16 + b / 16))
      (String.◌∷◌ (symbol (b % 16 * 4)) (String.◌∷◌ pad String.[])))
urlsafe_b64encode (a ∷ b ∷ c ∷ rest) = String.◌∷◌ (symbol (a / 4)) (
    String.◌∷◌ (symbol (a % 4 * 16 + b / 16)) (
      String.◌∷◌ (symbol (b % 16 * 4 + c / 64))
        (String.◌∷◌ (symbol (c % 64)) (urlsafe_b64encode rest))))

abbrev pub is_pad : Char → Bool
is_pad c = code c == code pad

-- A character in front of a text that lost its padding.
unfoldable pub keep_symbol : Char → String → String
keep_symbol c String.[] = if is_pad c then String.[] else String.◌∷◌ c String.[]
keep_symbol c (String.◌∷◌ d s) = String.◌∷◌ c (String.◌∷◌ d s)

-- `.rstrip(b"=")`
unfoldable pub rstrip_pad : String → String
unfolding keep_symbol
rstrip_pad String.[] = String.[]
rstrip_pad (String.◌∷◌ c s) = keep_symbol c (rstrip_pad s)

abbrev pub between : ℕ → ℕ → ℕ → Bool
between low high n = leb low n && leb n high

-- The six bits of a character, by the table of RFC 4648, section 5: capitals, small letters, digits,
-- and then `-` and `_`.
unfoldable pub sextet : Char → ℕ
sextet c =
    let n = code c in
    if between 65 90 n
    then n - 65
    else if between 97 122 n
    then n - 71
    else if between 48 57 n
    then n + 4
    else if n == 45
    then 62
    else if n == 95
    then 63
    else 64

abbrev pub first_byte : Char → Char → ℕ
first_byte a b = sextet a * 4 + sextet b / 16

abbrev pub second_byte : Char → Char → ℕ
second_byte b c = (sextet b % 16) * 16 + sextet c / 4

abbrev pub third_byte : Char → Char → ℕ
third_byte c d = (sextet c % 4) * 64 + sextet d

-- The bytes of a text without padding.
unfoldable pub urlsafe_b64decode : String → List ℕ
urlsafe_b64decode (String.◌∷◌ a (String.◌∷◌ b (String.◌∷◌ c (String.◌∷◌ d rest)))) =
    first_byte a b ∷ second_byte b c ∷ third_byte c d ∷ urlsafe_b64decode rest
urlsafe_b64decode (String.◌∷◌ a (String.◌∷◌ b (String.◌∷◌ c String.[]))) =
    first_byte a b ∷ second_byte b c ∷ []
urlsafe_b64decode (String.◌∷◌ a (String.◌∷◌ b String.[])) = first_byte a b ∷ []
urlsafe_b64decode _ = []
