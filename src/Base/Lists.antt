-- ===== src/Base/Lists.antt =====
-- The array methods that the source calls, over a Boolean test.
use Prim.Native.Nat.{ℕ, zero, suc, ◌-◌}
use mathlib.Core.Path.{◌≡◌, refl}
use mathlib.Core.Bool.{Bool, false, ◌||◌}
use mathlib.Core.Option.{Option, none, some}
use mathlib.Core.List.{List, [], ◌∷◌, ◌++◌}
use native.Mathlib.Omega.{arith}
use tik_tok_jam.Base.Tests.{Eq, ◌==◌, if◌then◌else◌}

module _ {ℓ} {A : Type ℓ} where
  abbrev pub length : List A → ℕ
  length [] = 0
  length (x ∷ xs) = suc (length xs)

  abbrev pub drop : ℕ → List A → List A
  drop zero xs = xs
  drop (suc n) [] = []
  drop (suc n) (x ∷ xs) = drop n xs

  abbrev pub push : List A → A → List A
  push xs x = xs ++ x ∷ []

  abbrev pub at_last : List A → Option A
  at_last [] = none
  at_last (x ∷ []) = some x
  at_last (x ∷ y ∷ xs) = at_last (y ∷ xs)

  pub length-push : (xs : List A) (x : A) → length (push xs x) ≡ suc (length xs)
  length-push [] x = refl
  length-push (y ∷ xs) x = omega (arith, length-push xs x)

  pub length-drop : (n : ℕ) (xs : List A) → length (drop n xs) ≡ length xs - n
  length-drop zero xs = omega arith
  length-drop (suc n) [] = omega arith
  length-drop (suc n) (x ∷ xs) = omega (arith, length-drop n xs)

module _ {ℓ} {A : Type ℓ} (p : A → Bool) where
  abbrev pub find : List A → Option A
  find [] = none
  find (x ∷ xs) = if p x then some x else find xs

  abbrev pub any : List A → Bool
  any [] = false
  any (x ∷ xs) = p x || any xs

  abbrev pub filter : List A → List A
  filter [] = []
  filter (x ∷ xs) = let rest = filter xs in if p x then x ∷ rest else rest

  -- What a write to the object that `find` returned does to the array.
  abbrev pub modify_first : (A → A) → List A → List A
  modify_first f [] = []
  modify_first f (x ∷ xs) = let rest = modify_first f xs in if p x then f x ∷ xs else x ∷ rest

  -- A loop that writes to each object that passes a test.
  abbrev pub modify_all : (A → A) → List A → List A
  modify_all f [] = []
  modify_all f (x ∷ xs) = (if p x then f x else x) ∷ modify_all f xs

module _ {A : Type 0} ⦃e : Eq A⦄ where
  abbrev pub includes : List A → A → Bool
  includes [] a = false
  includes (x ∷ xs) a = x == a || includes xs a

  -- `[...new Set(xs)]` keeps the first of each value.
  unfoldable pub unique_from : List A → List A → List A
  unique_from seen [] = []
  unique_from seen (x ∷ xs) =
      let skipped = unique_from seen xs in
      let taken = unique_from (x ∷ seen) xs in if includes seen x then skipped else x ∷ taken

  unfoldable pub unique : List A → List A
  unfolding unique_from
  unique xs = unique_from [] xs

module _ {ℓ κ} {A : Type ℓ} (P : A → Type κ) where
  abbrev pub All : List A → Type κ
  All [] = Unit
  All (x ∷ xs) = P x × All xs

-- `toSorted` by a comparison: `before a b` where `a` may stand before `b`. Like the engine's sort it
-- is stable.
module _ {ℓ} {A : Type ℓ} (before : A → A → Bool) where
  unfoldable pub insert_sorted : A → List A → List A
  insert_sorted x [] = x ∷ []
  insert_sorted x (y ∷ ys) =
      let rest = insert_sorted x ys in if before x y then x ∷ y ∷ ys else y ∷ rest

  unfoldable pub sort_by : List A → List A
  unfolding insert_sorted
  sort_by [] = []
  sort_by (x ∷ xs) = insert_sorted x (sort_by xs)
