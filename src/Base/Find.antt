-- ===== src/Base/Find.antt =====
-- How `find`, `any`, `filter` and `includes` answer after an array was written to.
use mathlib.Core.Option
use mathlib.Core.Path.{◌≡◌, refl}
use mathlib.Core.Bool.{Bool, true}
use mathlib.Core.Option.{Option, none, some}
use mathlib.Core.List.{List, [], ◌∷◌}
use native.Mathlib.Omega.{arith}
use tik_tok_jam.Base.Tests.{if◌then◌else◌}
use tik_tok_jam.Base.Lists.{find, modify_first, modify_all, push}

module _ {A : Type 0} (p : A → Bool) where
  pub find_passes : (xs : List A) (x : A) → find p xs ≡ some x → p x ≡ true
  find_passes [] x h = cc
  find_passes (y ∷ xs) x h = ground (arith, find_passes xs x)

  pub find-push :
      (xs : List A) (x : A) → find p xs ≡ none → p x ≡ true → find p (push xs x) ≡ some x
  find-push [] x h k = ground arith
  find-push (y ∷ xs) x h k = ground (arith, find-push xs x)

  -- A write that the test does not see is seen through `find`.
  pub find-modify_all :
      (q : A → Bool) (f : A → A)
      → ((x : A) → p (f x) ≡ p x)
      → (xs : List A)
      → find p (modify_all q f xs) ≡ Option.map (λ x. if q x then f x else x) (find p xs)
  find-modify_all q f keep [] = refl
  find-modify_all q f keep (x ∷ xs) = ground (arith, keep x, find-modify_all q f keep xs)

  pub find-modify_first :
      (f : A → A)
      → ((x : A) → p (f x) ≡ p x)
      → (xs : List A) → find p (modify_first p f xs) ≡ Option.map f (find p xs)
  find-modify_first f keep [] = refl
  find-modify_first f keep (x ∷ xs) = ground (arith, keep x, find-modify_first f keep xs)
