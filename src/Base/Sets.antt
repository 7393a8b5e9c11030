-- ===== src/Base/Sets.antt =====
-- Lists read as sets: what `includes` answers for the lists that the code makes.
use mathlib.Core.List.{◌++◌}
use mathlib.Core.Path.{◌≡◌, refl}
use mathlib.Core.Bool.{Bool, true, ◌&&◌, ◌||◌}
use mathlib.Core.List.{List, [], ◌∷◌}
use native.Mathlib.Omega.{arith}
use tik_tok_jam.Base.Tests.{Eq, ◌==◌}
use tik_tok_jam.Base.Lists.{filter, includes, unique, unique_from}

module _ {A : Type 0} ⦃e : Eq A⦄ where
  pub includes-append :
      (xs ys : List A) (a : A) → includes (xs ++ ys) a ≡ includes xs a || includes ys a
  includes-append [] ys a = refl
  includes-append (x ∷ xs) ys a = ground (arith, includes-append xs ys a)

  -- Equal values pass the same tests.
  same_test : (p : A → Bool) (x a : A) → (x == a) ≡ true → p x ≡ p a
  same_test p x a h = cc (e.sound x a h)

  pub includes-filter :
      (p : A → Bool) (xs : List A) (a : A) → includes (filter p xs) a ≡ includes xs a && p a
  includes-filter p [] a = refl
  includes-filter p (x ∷ xs) a = ground (arith, includes-filter p xs a, same_test p x a)

  includes-unique_from :
      (seen xs : List A) (a : A)
      → includes (unique_from seen xs) a || includes seen a ≡ includes xs a || includes seen a
  unfolding unique_from
  includes-unique_from seen [] a = refl
  includes-unique_from seen (x ∷ xs) a = ground (
    arith,
    includes-unique_from seen xs a,
    includes-unique_from (x ∷ seen) xs a,
    same_test (includes seen) x a,
  )

  pub includes-unique : (xs : List A) (a : A) → includes (unique xs) a ≡ includes xs a
  unfolding unique
  includes-unique xs a = ground (arith, includes-unique_from [] xs a)
