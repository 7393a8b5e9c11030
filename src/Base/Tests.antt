-- ===== src/Base/Tests.antt =====
-- Boolean tests, the conditional and the equality that the other modules compare by.
use Prim.Native.Nat.{ℕ, ◌≤◌, ◌<◌, compare, Ordering}
use Prim.Native.String.{String}
use mathlib.Core.Path.{◌≡◌, refl}
use mathlib.Core.Logic.{◌⊎◌, inl, inr}
use mathlib.Core.Bool.{Bool, true, false}
use mathlib.Core.Option.{Option, none, some}
use native.Mathlib.Omega.{arith}
use text.Mathlib.Text.{◌==◌ as str_eq}
use text.Mathlib.TextEquality.{eq_iff}

abbrev pub ltb : ℕ → ℕ → Bool
ltb a b = elim (compare a b) [ Ordering.lt ↦ true | _ ↦ false ]

abbrev pub leb : ℕ → ℕ → Bool
leb a b = elim (compare a b) [ Ordering.gt ↦ false | _ ↦ true ]

abbrev pub nat_eq : ℕ → ℕ → Bool
nat_eq a b = elim (compare a b) [ Ordering.eq ↦ true | _ ↦ false ]

infix 1 if◌then◌else◌
abbrev pub if◌then◌else◌ {ℓ} : {A : Type ℓ} → Bool → A → A → A
if true then x else y = x
if false then x else y = y

-- Equality by `===`, at each type that the code compares.
pub record Eq (A : Type 0) : Type 0 where
  pub same : A → A → Bool
  pub sound : (a b : A) → same a b ≡ true → a ≡ b
  pub same_self : (a : A) → same a a ≡ true

infix 50 ◌==◌
abbrev pub ◌==◌ : {A : Type 0} ⦃e : Eq A⦄ → A → A → Bool
◌==◌ ⦃e⦄ = e.same

pub nat_eq_sound : (a b : ℕ) → nat_eq a b ≡ true → a ≡ b
nat_eq_sound a b h = ground arith

pub nat_eq_self : (a : ℕ) → nat_eq a a ≡ true
nat_eq_self a = ground arith

instance abbrev pub Eq-ℕ : Eq ℕ
Eq-ℕ = record { same = nat_eq; sound = nat_eq_sound; same_self = nat_eq_self }

pub str_eq_sound : (a b : String) → str_eq a b ≡ true → a ≡ b
str_eq_sound a b h = (eq_iff a b).0 h

pub str_eq_self : (a : String) → str_eq a a ≡ true
str_eq_self a = (eq_iff a a).1 refl

instance abbrev pub Eq-String : Eq String
Eq-String = record { same = str_eq; sound = str_eq_sound; same_self = str_eq_self }

-- `a === b` where both may be null.
abbrev pub option_same : {A : Type 0} → Eq A → Option A → Option A → Bool
option_same e none none = true
option_same e none (some b) = false
option_same e (some a) none = false
option_same e (some a) (some b) = e.same a b

pub option_sound : {A : Type 0} (e : Eq A) (a b : Option A) → option_same e a b ≡ true → a ≡ b
option_sound e none none h = refl
option_sound e none (some b) h = cc
option_sound e (some a) none h = cc
option_sound e (some a) (some b) h = cc (e.sound a b h)

pub option_self : {A : Type 0} (e : Eq A) (a : Option A) → option_same e a a ≡ true
option_self e none = refl
option_self e (some a) = e.same_self a

instance abbrev pub Eq-Option : {A : Type 0} ⦃e : Eq A⦄ → Eq (Option A)
Eq-Option ⦃e⦄ = record { same = option_same e; sound = option_sound e; same_self = option_self e }

pub Bool-cases : (b : Bool) → (b ≡ true) ⊎ (b ≡ false)
Bool-cases true = inl refl
Bool-cases false = inr refl

pub Option-cases {ℓ} : {A : Type ℓ} (o : Option A) → (o ≡ none) ⊎ ((a : A) × (o ≡ some a))
Option-cases none = inl refl
Option-cases (some a) = inr (a, refl)

pub ltb→lt : (a b : ℕ) → ltb a b ≡ true → a < b
ltb→lt a b h = ground arith

pub leb→le : (a b : ℕ) → leb a b ≡ true → a ≤ b
leb→le a b h = ground arith
