-- ===== src/Kube/Exec/Keeps.antt =====
-- Invariants of code that calls clusters, one rule for each way to build it.
use kro_lab.Prelude.{Bool, true, false, Option, List, [], ◌∷◌, String, ℤ, if◌then◌else◌}
use kro_lab.Kube.Error.{Error, Result, ok, err}
use kro_lab.Kube.Exec.{
  Exec, pure, raise, lift, attempt, wrap, each, finish, tolerate, run, Outcome, ◌>>=◌,
}

-- `m` keeps `P`, whether it fails or not.
pub record Keeps {ℓ} {W A : Type ℓ} (P : W → Type ℓ) (m : Exec W A) : Type ℓ where
  pub at : (w : W) → P w → P (m w).1

module _ {ℓ} {W A : Type ℓ} {P : W → Type ℓ} where
  pub Keeps-pure : (a : A) → Keeps P (pure a)
  unfolding pure
  Keeps-pure a = record { at = λ w h. h }

  pub Keeps-raise : (e : Error) → Keeps P (raise {A = A} e)
  unfolding raise
  Keeps-raise e = record { at = λ w h. h }

  pub Keeps-lift : (r : Result A) → Keeps P (lift r)
  unfolding lift
  Keeps-lift r = record { at = λ w h. h }

  pub Keeps-attempt : (m : Exec W A) → Keeps P m → Keeps P (attempt m)
  unfolding attempt
  Keeps-attempt m k = record { at = λ w h. k.at w h }

  pub Keeps-wrap : (text : String) (m : Exec W A) → Keeps P m → Keeps P (wrap text m)
  unfolding wrap
  Keeps-wrap text m k = record { at = λ w h. k.at w h }

  pub Keeps-if : (b : Bool) (m n : Exec W A) → Keeps P m → Keeps P n → Keeps P (if b then m else n)
  Keeps-if true m n km kn = km
  Keeps-if false m n km kn = kn

module _ {ℓ} {W A B : Type ℓ} {P : W → Type ℓ} where
  Keeps-continue :
      (r : Result A) (f : A → Exec W B) → ((a : A) → Keeps P (f a)) → Keeps P (lift r >>= f)
  unfolding ◌>>=◌
  Keeps-continue (ok a) f k = record { at = λ w h. (k a).at w h }
  Keeps-continue (err e) f k = record { at = λ w h. h }

  pub Keeps-bind :
      (m : Exec W A) (f : A → Exec W B) → Keeps P m → ((a : A) → Keeps P (f a)) → Keeps P (m >>= f)
  unfolding ◌>>=◌
  Keeps-bind m f km kf = record {
    at = λ w h. let (r, w') = m w in (Keeps-continue r f kf).at w' (km.at w h);
  }

module _ {ℓ} {W A B : Type ℓ} {P : W → Type ℓ} (f : A → Exec W B) (done : B) where
  pub Keeps-each : (xs : List A) → ((a : A) → Keeps P (f a)) → Keeps P (each f done xs)
  unfolding each
  Keeps-each [] k = Keeps-pure done
  Keeps-each (x ∷ xs) k = Keeps-bind (f x) (λ _. each f done xs) (k x) (λ _. Keeps-each xs k)

module _ {W A : Type 0} {P : W → Type 0} where
  pub Keeps-finish : (after : Option ℤ) (m : Exec W A) → Keeps P m → Keeps P (finish after m)
  unfolding finish
  Keeps-finish after m k = record { at = λ w h. k.at w h }

module _ {W : Type 0} {P : W → Type 0} where
  pub Keeps-tolerate :
      (test : Error → Bool) (explain : Error → Error) (m : Exec W (Unit {0}))
      → Keeps P m
      → Keeps P (tolerate test explain m)
  unfolding tolerate
  Keeps-tolerate test explain m k = record { at = λ w h. k.at w h }

pub ruleset keeps_rules = (
  Keeps-pure, Keeps-raise, Keeps-lift, Keeps-attempt, Keeps-wrap, Keeps-if, Keeps-bind, Keeps-each,
  Keeps-finish, Keeps-tolerate,
)

pub Keeps-run :
    {W : Type 0} {P : W → Type 0} (b : Exec W Outcome) → Keeps P b → (w : W) → P w → P (run b w).1
unfolding run
Keeps-run b k w h = k.at w h
