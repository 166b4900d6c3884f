-- ===== src/Common/Rows.antt =====
-- Rows of a table: the queries and updates by a test that the services send to the database.
use Prim.Native.Nat.{ℕ, suc, ◌+◌, ◌≤◌}
use mathlib.Core.Logic.{inl, inr}
use mathlib.Core.Path.{◌≡◌, refl, subst}
use mathlib.Core.Bool.{Bool, true, false, ◌||◌}
use mathlib.Core.Option.{Option, none, some}
use mathlib.Core.List.{List, [], ◌∷◌, ◌++◌}
use native.Mathlib.Omega.{arith}
use mxtng_auth_services.Common.Tests.{if◌then◌else◌, Bool-cases}

module _ {ℓ} {A : Type ℓ} where
  -- The first row that passes the test, in the order of insertion.
  abbrev pub find? : (A → Bool) → List A → Option A
  find? p [] = none
  find? p (x ∷ xs) = if p x then some x else find? p xs

  abbrev pub any : (A → Bool) → List A → Bool
  any p [] = false
  any p (x ∷ xs) = p x || any p xs

  abbrev pub select : (A → Bool) → List A → List A
  select p [] = []
  select p (x ∷ xs) = let rest = select p xs in if p x then x ∷ rest else rest

  -- `UPDATE … WHERE`
  abbrev pub update : (A → Bool) → (A → A) → List A → List A
  update p f [] = []
  update p f (x ∷ xs) = (if p x then f x else x) ∷ update p f xs

  -- The number of rows that pass the test.
  abbrev pub count : (A → Bool) → List A → ℕ
  count p [] = 0
  count p (x ∷ xs) = if p x then suc (count p xs) else count p xs

  abbrev pub length : List A → ℕ
  length [] = 0
  length (x ∷ xs) = suc (length xs)

  pub count-append : (p : A → Bool) (xs ys : List A) → count p (xs ++ ys) ≡ count p xs + count p ys
  count-append p [] ys = omega arith
  count-append p (x ∷ xs) ys = ground (arith, count-append p xs ys)

module _ {ℓ} {A : Type ℓ} where
  -- Every row has the property.
  abbrev pub All {κ} : (A → Type κ) → List A → Type κ
  All P [] = Unit
  All P (x ∷ xs) = P x × All P xs

  pub All-mono {κ μ} :
      (P : A → Type κ) (Q : A → Type μ) (xs : List A) → ((x : A) → P x → Q x) → All P xs → All Q xs
  All-mono P Q [] f h = tt
  All-mono P Q (x ∷ xs) f h = (f x h.0, All-mono P Q xs f h.1)

  pub All-append {κ} : (P : A → Type κ) (xs ys : List A) → All P xs → All P ys → All P (xs ++ ys)
  All-append P [] ys h k = k
  All-append P (x ∷ xs) ys h k = (h.0, All-append P xs ys h.1 k)

  pub All-update {κ} :
      (P : A → Type κ) (p : A → Bool) (f : A → A) (xs : List A)
      → ((x : A) → P x → P (f x))
      → All P xs
      → All P (update p f xs)
  All-update P p f [] k h = tt
  All-update P p f (x ∷ xs) k h = elim (Bool-cases (p x)) [
    | inl e ↦ (rw e (k x h.0), All-update P p f xs k h.1)
    | inr e ↦ (rw e h.0, All-update P p f xs k h.1)
  ]

  -- The row that is found passes the test and has what every row has.
  pub All-find? {κ} :
      (P : A → Type κ) (p : A → Bool) (xs : List A) (x : A)
      → All P xs
      → find? p xs ≡ some x
      → (p x ≡ true) × P x
  All-find? P p [] x h e = cc
  All-find? P p (y ∷ xs) x h e = elim (Bool-cases (p y)) [
    | inl hit ↦ let here : y ≡ x = ground arith in (rw (← here) hit, subst P here h.0)
    | inr miss ↦ All-find? P p xs x h.1 (ground arith)
  ]

  pub find?-test : (p : A → Bool) (xs : List A) (x : A) → find? p xs ≡ some x → p x ≡ true
  find?-test p [] x e = cc
  find?-test p (y ∷ xs) x e = ground (arith, find?-test p xs x)

  pub any-find? : (p : A → Bool) (xs : List A) (x : A) → find? p xs ≡ some x → any p xs ≡ true
  any-find? p [] x e = cc
  any-find? p (y ∷ xs) x e = ground (arith, any-find? p xs x)

  pub find?-none : (p : A → Bool) (xs : List A) → find? p xs ≡ none → any p xs ≡ false
  find?-none p [] e = refl
  find?-none p (y ∷ xs) e = ground (arith, find?-none p xs)

  pub any-append : (p : A → Bool) (xs ys : List A) → any p (xs ++ ys) ≡ (any p xs || any p ys)
  any-append p [] ys = refl
  any-append p (x ∷ xs) ys = ground (arith, any-append p xs ys)

  pub any-update :
      (q p : A → Bool) (f : A → A) (xs : List A)
      → ((x : A) → q (f x) ≡ q x)
      → any q (update p f xs) ≡ any q xs
  any-update q p f [] k = refl
  any-update q p f (x ∷ xs) k = ground (arith, any-update q p f xs k, k x)

  pub count-update :
      (q p : A → Bool) (f : A → A) (xs : List A)
      → ((x : A) → q (f x) ≡ q x)
      → count q (update p f xs) ≡ count q xs
  count-update q p f [] k = refl
  count-update q p f (x ∷ xs) k = ground (arith, count-update q p f xs k, k x)

  pub count-update-le :
      (q p : A → Bool) (f : A → A) (xs : List A)
      → ((x : A) → q (f x) ≡ true → q x ≡ true)
      → count q (update p f xs) ≤ count q xs
  count-update-le q p f [] k = omega arith
  count-update-le q p f (x ∷ xs) k = ground (arith, count-update-le q p f xs k, k x)

  -- Every row that passed the test no longer does.
  pub count-update_self :
      (q : A → Bool) (f : A → A) (xs : List A)
      → ((x : A) → q (f x) ≡ false)
      → count q (update q f xs) ≡ 0
  count-update_self q f [] k = refl
  count-update_self q f (x ∷ xs) k = ground (arith, count-update_self q f xs k, k x)

module _ {ℓ} {A : Type ℓ} where
  -- The row that was found is found again after an update of it that keeps its key.
  pub find?-update :
      (p q : A → Bool) (f : A → A) (xs : List A) (x : A)
      → ((y : A) → p (f y) ≡ p y)
      → find? p xs ≡ some x
      → q x ≡ true
      → find? p (update q f xs) ≡ some (f x)
  find?-update p q f [] x same e hit = cc
  find?-update p q f (y ∷ ys) x same e hit = elim (Bool-cases (p y)) [
    | inl here ↦ let eq : y ≡ x = ground arith in rw (eq, hit, same x, ← eq, here) refl
    | inr miss ↦
        let rest = find?-update p q f ys x same (ground arith) hit in
        elim (Bool-cases (q y)) [ inl u ↦ rw (u, same y, miss) rest | inr u ↦ rw (u, miss) rest ]
  ]
