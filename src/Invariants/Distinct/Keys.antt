-- ===== src/Invariants/Distinct/Keys.antt =====
-- A column with no value twice.
use mxtng_auth_services.Common.{
  String, ◌≡◌, ◌∙◌, sym, refl, Bool, true, false, ◌&&◌, none, some, List, [], ◌∷◌, ◌++◌, inl, inr,
  arith, Bool-cases, find?, any, update, str_eq, eq_iff,
}

module _ {A : Type 0} (key : A → String) where
  abbrev pub has : String → A → Bool
  has k x = str_eq (key x) k

  abbrev pub Distinct : List A → Type 0
  Distinct [] = Unit
  Distinct (x ∷ xs) = (any (has (key x)) xs ≡ false) × Distinct xs

  any-has-append :
      (k : String) (xs : List A) (t : A)
      → any (has k) xs ≡ false
      → str_eq (key t) k ≡ false
      → any (has k) (xs ++ t ∷ []) ≡ false
  any-has-append k [] t h e = rw e refl
  any-has-append k (x ∷ xs) t h e = ground (arith, any-has-append k xs t)

  other-key : (x t : A) → str_eq (key x) (key t) ≡ false → str_eq (key t) (key x) ≡ false
  other-key x t h = elim (Bool-cases (str_eq (key t) (key x))) [
    | inl e ↦
        let same = (eq_iff (key t) (key x)).0 e in cc (h, (eq_iff (key x) (key t)).1 (sym same))
    | inr e ↦ e
  ]

  pub Distinct-append :
      (xs : List A) (t : A) → Distinct xs → any (has (key t)) xs ≡ false → Distinct (xs ++ t ∷ [])
  Distinct-append [] t d h = (refl, tt)
  Distinct-append (x ∷ xs) t d h = (
    any-has-append (key x) xs t d.0 (other-key x t (ground arith)),
    Distinct-append xs t d.1 (ground arith),
  )

  any-has-update :
      (k : String) (p : A → Bool) (f : A → A)
      → ((x : A) → key (f x) ≡ key x)
      → (xs : List A) → any (has k) (update p f xs) ≡ any (has k) xs
  any-has-update k p f same [] = refl
  any-has-update k p f same (x ∷ xs) = elim (Bool-cases (p x)) [
    | inl e ↦ rw (e, same x, any-has-update k p f same xs) refl
    | inr e ↦ rw (e, any-has-update k p f same xs) refl
  ]

  pub Distinct-update :
      (p : A → Bool) (f : A → A)
      → ((x : A) → key (f x) ≡ key x)
      → (xs : List A) → Distinct xs
      → Distinct (update p f xs)
  Distinct-update p f same [] d = tt
  Distinct-update p f same (x ∷ xs) d =
      let rest = any-has-update (key x) p f same xs ∙ d.0 in
      elim (Bool-cases (p x)) [
        | inl e ↦ rw (e, same x) (rest, Distinct-update p f same xs d.1)
        | inr e ↦ rw e (rest, Distinct-update p f same xs d.1)
      ]

  any-none :
      (k : String) (q : A → Bool) (xs : List A)
      → any (has k) xs ≡ false
      → any (λ t. has k t && q t) xs ≡ false
  any-none k q [] h = refl
  any-none k q (x ∷ xs) h = ground (arith, any-none k q xs)

  -- The row with a key is the only one that a test with that key can pass.
  pub any-found :
      (k : String) (q : A → Bool) (xs : List A) (x : A)
      → Distinct xs
      → find? (has k) xs ≡ some x
      → any (λ t. has k t && q t) xs ≡ q x
  any-found k q [] x d e = cc
  any-found k q (y ∷ ys) x d e = elim (Bool-cases (has k y)) [
    | inl here ↦
        let same : y ≡ x = ground arith in
        let rest : any (λ t. has k t && q t) ys ≡ false =
          any-none k q ys (rw ((eq_iff (key y) k).0 here) at d.0) in
        rw (here, rest, same) (elim (Bool-cases (q x)) [ inl e ↦ rw e refl | inr e ↦ rw e refl ])
    | inr miss ↦ rw miss (any-found k q ys x d.1 (ground arith))
  ]

  pub any-missing :
      (k : String) (q : A → Bool) (xs : List A)
      → find? (has k) xs ≡ none
      → any (λ t. has k t && q t) xs ≡ false
  any-missing k q [] e = refl
  any-missing k q (y ∷ ys) e = ground (arith, any-missing k q ys)

-- An update that no row passes.
pub update-none :
    {A : Type 0} (p : A → Bool) (f : A → A) (xs : List A) → any p xs ≡ false → update p f xs ≡ xs
update-none p f [] h = refl
update-none p f (x ∷ xs) h = ground (arith, update-none p f xs)

-- After an update of the rows with a test, none of them passes it if the update fails the test.
pub any-update_self :
    {A : Type 0} (q : A → Bool) (p : A → Bool) (f : A → A)
    → ((x : A) → (q (f x) ≡ false))
    → ((x : A) → q x ≡ true → p x ≡ true)
    → (xs : List A) → any q (update p f xs) ≡ false
any-update_self q p f dead covers [] = refl
any-update_self q p f dead covers (x ∷ xs) =
    ground (arith, any-update_self q p f dead covers xs, dead x, covers x)
