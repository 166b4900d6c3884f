-- ===== src/Base64/RoundTrip.antt =====
-- The encoder and the decoder undo one another.
use native.Mathlib.Nat.{pow-suc, pow-le-pow_right}
use mxtng_auth_services.Common.{
  all_below, below, ℕ, zero, suc, ◌+◌, ◌*◌, ◌/◌, ◌%◌, ◌^◌, ◌≤◌, ◌<◌, String, Bool, true, false, not,
  ◌&&◌, ◌≡◌, ◌∙◌, ap, refl, List, [], ◌∷◌, ◌++◌, ◌==◌, arith, All, All-append, if◌then◌else◌,
  Bool-cases, inl, inr,
}
use mxtng_auth_services.Base64.{
  symbol, sextet, is_pad, keep_symbol, rstrip_pad, urlsafe_b64encode, urlsafe_b64decode, first_byte,
  second_byte, third_byte, bits_from, bit_length, to_bytes, from_bytes,
}

is_good : ℕ → Bool
is_good n = (sextet (symbol n) == n) && not (is_pad (symbol n))

symbols-good : all_below 64 is_good ≡ true
unfolding is_good sextet symbol
symbols-good = refl

sextet-symbol : (n : ℕ) → n < 64 → sextet (symbol n) ≡ n
unfolding is_good
sextet-symbol n h = let good = below 64 n is_good symbols-good h in ground arith

symbol-no_pad : (n : ℕ) → n < 64 → is_pad (symbol n) ≡ false
unfolding is_good
symbol-no_pad n h = let good = below 64 n is_good symbols-good h in ground arith

abbrev IsByte : ℕ → Type 0
IsByte b = b < 256

-- A symbol in front of the text is kept.
keep : (n : ℕ) (s : String) → n < 64 → keep_symbol (symbol n) s ≡ String.◌∷◌ (symbol n) s
unfolding keep_symbol
keep n String.[] h = rw (symbol-no_pad n h) refl
keep n (String.◌∷◌ d s) h = refl

keep_last :
    (n : ℕ)
    → n < 64
    → (if is_pad (symbol n) then String.[] else String.◌∷◌ (symbol n) String.[])
      ≡ String.◌∷◌ (symbol n) String.[]
keep_last n h = rw (symbol-no_pad n h) refl

first : (a x : ℕ) → a < 256 → x < 64 → x / 16 ≡ a % 4 → first_byte (symbol (a / 4)) (symbol x) ≡ a
first a x ha hx e = rw (sextet-symbol (a / 4) (omega arith), sextet-symbol x hx, e) (omega arith)

second :
    (b x y : ℕ)
    → b < 256
    → x < 64
    → y < 64
    → x % 16 ≡ b / 16
    → y / 4 ≡ b % 16
    → second_byte (symbol x) (symbol y) ≡ b
second b x y hb hx hy e e' = rw (sextet-symbol x hx, sextet-symbol y hy, e, e') (omega arith)

third : (c y : ℕ) → c < 256 → y < 64 → y % 4 ≡ c / 64 → third_byte (symbol y) (symbol (c % 64)) ≡ c
third c y hc hy e = rw (sextet-symbol y hy, sextet-symbol (c % 64) (omega arith), e) (omega arith)

-- The decoder reads the bytes back.
decode-encode :
    (bs : List ℕ) → All IsByte bs → urlsafe_b64decode (rstrip_pad (urlsafe_b64encode bs)) ≡ bs
unfolding urlsafe_b64encode urlsafe_b64decode rstrip_pad
decode-encode [] h = refl
decode-encode (a ∷ []) h =
    let ha : a < 256 = h.0 in
    let x = a % 4 * 16 in
    ap (λ s. urlsafe_b64decode (keep_symbol (symbol (a / 4)) s)) (keep_last x (omega arith))
    ∙ (ap (λ n. n ∷ []) (first a x ha (omega arith) (omega arith)))
decode-encode (a ∷ b ∷ []) h =
    let ha : a < 256 = h.0 in
    let hb : b < 256 = h.1.0 in
    let x = a % 4 * 16 + b / 16 in
    let y = b % 16 * 4 in
    ap (λ s. urlsafe_b64decode (keep_symbol (symbol (a / 4)) (keep_symbol (symbol x) s)))
      (keep_last y (omega arith))
    ∙ rw
        (
          first a x ha (omega arith) (omega arith),
          second b x y hb (omega arith) (omega arith) (omega arith) (omega arith),
        )
        refl
decode-encode (a ∷ b ∷ c ∷ rest) h =
    let ha : a < 256 = h.0 in
    let hb : b < 256 = h.1.0 in
    let hc : c < 256 = h.1.1.0 in
    let x = a % 4 * 16 + b / 16 in
    let y = b % 16 * 4 + c / 64 in
    rw
      (
        keep (c % 64) (rstrip_pad (urlsafe_b64encode rest)) (omega arith),
        first a x ha (omega arith) (omega arith),
        second b x y hb (omega arith) (omega arith) (omega arith) (omega arith),
        third c y hc (omega arith) (omega arith),
        decode-encode rest h.1.1.1,
      )
      refl

to_bytes-IsByte : (n v : ℕ) → All IsByte (to_bytes n v)
unfolding to_bytes
to_bytes-IsByte zero v = tt
to_bytes-IsByte (suc n) v =
    All-append IsByte (to_bytes n (v / 256)) (v % 256 ∷ []) (to_bytes-IsByte n (v / 256))
      (omega arith, tt)

from_bytes-append :
    (acc b : ℕ) (bs : List ℕ) → from_bytes acc (bs ++ b ∷ []) ≡ from_bytes acc bs * 256 + b
unfolding from_bytes
from_bytes-append acc b [] = refl
from_bytes-append acc b (x ∷ bs) = from_bytes-append (acc * 256 + x) b bs

from_bytes-to_bytes : (n v : ℕ) → v < 256 ^ n → from_bytes 0 (to_bytes n v) ≡ v
unfolding to_bytes from_bytes
from_bytes-to_bytes zero v h = omega arith
from_bytes-to_bytes (suc n) v h =
    let less : v < 256 ^ n * 256 = rw (← pow-suc 256 n) h in
    let rest = from_bytes-to_bytes n (v / 256) (omega arith) in
    rw (from_bytes-append 0 (v % 256) (to_bytes n (v / 256)), rest) (omega arith)

bits-bound : (fuel v : ℕ) → v ≤ fuel → v < 2 ^ bits_from fuel v
unfolding bits_from
bits-bound zero v h = omega arith
bits-bound (suc fuel) v h = elim (Bool-cases (v == 0)) [
  | inl e ↦ rw e (ground arith)
  | inr e ↦
      let rest = bits-bound fuel (v / 2) (ground arith) in
      rw (e, pow-suc 2 (bits_from fuel (v / 2))) (omega arith)
]

power_of_byte : (m : ℕ) → 2 ^ suc (suc (suc (suc (suc (suc (suc (suc m))))))) ≡ 2 ^ m * 256
power_of_byte m =
    let p1 = pow-suc 2 m in
    let p2 = pow-suc 2 (suc m) in
    let p3 = pow-suc 2 (suc (suc m)) in
    let p4 = pow-suc 2 (suc (suc (suc m))) in
    let p5 = pow-suc 2 (suc (suc (suc (suc m)))) in
    let p6 = pow-suc 2 (suc (suc (suc (suc (suc m))))) in
    let p7 = pow-suc 2 (suc (suc (suc (suc (suc (suc m)))))) in
    let p8 = pow-suc 2 (suc (suc (suc (suc (suc (suc (suc m))))))) in omega arith

power_of_bytes : (n : ℕ) → 2 ^ (8 * n) ≡ 256 ^ n
power_of_bytes zero = refl
power_of_bytes (suc n) =
    let more : 8 * suc n ≡ suc (suc (suc (suc (suc (suc (suc (suc (8 * n)))))))) = omega arith in
    rw (more, power_of_byte (8 * n), power_of_bytes n, pow-suc 256 n) refl

-- A number is less than what its bytes can hold.
fits : (v : ℕ) → v < 256 ^ ((bit_length v + 7) / 8)
unfolding bit_length
fits v =
    let n = (bit_length v + 7) / 8 in
    let few : bit_length v ≤ 8 * n = omega arith in
    let bound = bits-bound v v (omega arith) in
    let more : 2 ^ bit_length v ≤ 2 ^ (8 * n) = pow-le-pow_right (omega arith) few in
    rw (← power_of_bytes n) (omega arith)

-- A number is read back from the text of its minimal big-endian bytes.
pub decode-b64 :
    (v : ℕ)
    → from_bytes 0
        (urlsafe_b64decode (rstrip_pad (urlsafe_b64encode (to_bytes ((bit_length v + 7) / 8) v))))
      ≡ v
decode-b64 v =
    let n = (bit_length v + 7) / 8 in
    rw (decode-encode (to_bytes n v) (to_bytes-IsByte n v)) (from_bytes-to_bytes n v (fits v))
