-- ===== src/History/Growth.antt =====
-- Arrays that are written to in place and at their end.

use tik_tok_jam.Base.{
  ◌≡◌, Bool, true, false, some, List, [], ◌∷◌, map, find, push, modify_first, modify_all, arith,
  Bool-cases, inl, inr, if◌then◌else◌,
}

module _ {A : Type 0} (R : A → A → Type 0) where
  -- Each element is where it was, changed at most as `R` says, and more may follow.
  abbrev pub Grows : List A → List A → Type 0
  Grows [] ys = Unit
  Grows (x ∷ xs) [] = ⊥
  Grows (x ∷ xs) (y ∷ ys) = R x y × Grows xs ys

module _ {A : Type 0} (R : A → A → Type 0) (same : (x : A) → R x x) where
  pub Grows-refl : (xs : List A) → Grows R xs xs
  Grows-refl [] = tt
  Grows-refl (x ∷ xs) = (same x, Grows-refl xs)

  pub Grows-push : (xs : List A) (x : A) → Grows R xs (push xs x)
  Grows-push [] x = tt
  Grows-push (y ∷ xs) x = (same y, Grows-push xs x)

  module _ (f : A → A) (keeps : (x : A) → R x (f x)) where
    if-R : (b : Bool) (x : A) → R x (if b then f x else x)
    if-R true x = keeps x
    if-R false x = same x

    pub Grows-modify_all : (p : A → Bool) (xs : List A) → Grows R xs (modify_all p f xs)
    Grows-modify_all p [] = tt
    Grows-modify_all p (x ∷ xs) = (if-R (p x) x, Grows-modify_all p xs)

    pub Grows-map : (xs : List A) → Grows R xs (map f xs)
    Grows-map [] = tt
    Grows-map (x ∷ xs) = (keeps x, Grows-map xs)

    pub Grows-modify_first : (p : A → Bool) (xs : List A) → Grows R xs (modify_first p f xs)
    Grows-modify_first p [] = tt
    Grows-modify_first p (x ∷ xs) = elim (Bool-cases (p x)) [
      | inl hit ↦ rw hit (keeps x, Grows-refl xs)
      | inr miss ↦ rw miss (same x, Grows-modify_first p xs)
    ]

module _ {A : Type 0} (R : A → A → Type 0) (join : (x y z : A) → R x y → R y z → R x z) where
  pub Grows-trans : (xs ys zs : List A) → Grows R xs ys → Grows R ys zs → Grows R xs zs
  Grows-trans [] ys zs h k = tt
  Grows-trans (x ∷ xs) [] zs h k = absurd h
  Grows-trans (x ∷ xs) (y ∷ ys) [] h k = absurd k
  Grows-trans (x ∷ xs) (y ∷ ys) (z ∷ zs) h k = (join x y z h.0 k.0, Grows-trans xs ys zs h.1 k.1)

-- A search by a test that the changes do not affect finds the same element, changed.
pub find-Grows :
    {A : Type 0} (R : A → A → Type 0) (p : A → Bool)
    → ((x y : A) → R x y → p y ≡ p x)
    → (xs ys : List A) (x : A) → Grows R xs ys
    → find p xs ≡ some x
    → (y : A) × (find p ys ≡ some y) × R x y
find-Grows R p blind [] ys x h e = absurd (cc)
find-Grows R p blind (a ∷ xs) [] x h e = absurd h
find-Grows R p blind (a ∷ xs) (b ∷ ys) x h e = elim (Bool-cases (p a)) [
  | inl hit ↦
      let same : a ≡ x = ground (arith, hit) in
      (b, ground (arith, hit, blind a b h.0), rw same at h.0)
  | inr miss ↦
      let (y, found, r) = find-Grows R p blind xs ys x h.1 (ground (arith, miss)) in
      (y, ground (arith, miss, found, blind a b h.0), r)
]
