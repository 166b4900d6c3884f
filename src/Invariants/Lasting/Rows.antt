-- ===== src/Invariants/Lasting/Rows.antt =====
-- A table that only grows at its end, while each row of it changes within a relation.
use mxtng_auth_services.Common.{
  ◌≡◌, refl, Bool, some, List, [], ◌∷◌, ◌++◌, inl, inr, Bool-cases, subst, find?, update, arith,
}

abbrev pub Grows : {A : Type 0} → (A → A → Type 0) → List A → List A → Type 0
Grows R [] ys = Unit
Grows R (x ∷ xs) [] = ⊥
Grows R (x ∷ xs) (y ∷ ys) = R x y × Grows R xs ys

module _ {A : Type 0} (R : A → A → Type 0) where
  pub Grows-refl : ((x : A) → R x x) → (xs : List A) → Grows R xs xs
  Grows-refl r [] = tt
  Grows-refl r (x ∷ xs) = (r x, Grows-refl r xs)

  pub Grows-trans :
      ((x y z : A) → R x y → R y z → R x z)
      → (xs ys zs : List A) → Grows R xs ys
      → Grows R ys zs
      → Grows R xs zs
  Grows-trans t [] ys zs h k = tt
  Grows-trans t (x ∷ xs) [] zs h k = absurd h
  Grows-trans t (x ∷ xs) (y ∷ ys) [] h k = absurd k
  Grows-trans t (x ∷ xs) (y ∷ ys) (z ∷ zs) h k = (t x y z h.0 k.0, Grows-trans t xs ys zs h.1 k.1)

  pub Grows-append : ((x : A) → R x x) → (xs ys : List A) → Grows R xs (xs ++ ys)
  Grows-append r [] ys = tt
  Grows-append r (x ∷ xs) ys = (r x, Grows-append r xs ys)

  pub Grows-update :
      ((x : A) → R x x)
      → (p : A → Bool) (f : A → A) → ((x : A) → R x (f x))
      → (xs : List A) → Grows R xs (update p f xs)
  Grows-update r p f k [] = tt
  Grows-update r p f k (x ∷ xs) = elim (Bool-cases (p x)) [
    | inl e ↦ rw e (k x, Grows-update r p f k xs)
    | inr e ↦ rw e (r x, Grows-update r p f k xs)
  ]

  -- The first row with a key that never changes is found again.
  pub Grows-find? :
      (p : A → Bool)
      → ((x y : A) → R x y → p y ≡ p x)
      → (xs ys : List A) (x : A) → Grows R xs ys
      → find? p xs ≡ some x
      → (y : A) × (find? p ys ≡ some y) × R x y
  Grows-find? p same [] ys x h e = cc
  Grows-find? p same (a ∷ xs) [] x h e = absurd h
  Grows-find? p same (a ∷ xs) (b ∷ ys) x h e = elim (Bool-cases (p a)) [
    | inl hit ↦
        let here : a ≡ x = ground arith in
        rw (same a b h.0, hit) (b, refl, subst (λ v. R v b) here h.0)
    | inr miss ↦
        let (y, found, r) = Grows-find? p same xs ys x h.1 (ground arith) in
        rw (same a b h.0, miss) (y, found, r)
  ]
