-- ===== src/Action/Cases.antt =====
-- A computed answer, with the equation kept.
use tik_tok_jam.Base.{◌≡◌, refl, ◌⊎◌, inl, inr}
use tik_tok_jam.Action.{Result, ok, err, Exception}

pub Result-cases :
    {A : Type 0} (r : Result A) → ((a : A) × (r ≡ ok a)) ⊎ ((e : Exception) × (r ≡ err e))
Result-cases (ok a) = inl (a, refl)
Result-cases (err e) = inr (e, refl)
