-- ===== src/Kube/Exec.antt =====
-- Code that calls clusters: it may fail, and what it did before a failure stays done.
pub mod Keeps
pub mod Inversion
pub mod Requeues
use kro_lab.Prelude.{String, Bool, true, false, if◌then◌else◌, List, [], ◌∷◌, Option, some, none, ℤ}
use kro_lab.Kube.Error.{Error, Result, ok, err, wrapped}

abbrev pub Exec {ℓ} : Type ℓ → Type ℓ → Type ℓ
Exec W A = W → Result A × W

abbrev pub wrap_result {ℓ} : {A : Type ℓ} → String → Result A → Result A
wrap_result text (ok a) = ok a
wrap_result text (err e) = err (wrapped text e)

module _ {ℓ} {W A : Type ℓ} where
  unfoldable pub pure : A → Exec W A
  pure a w = (ok a, w)

  unfoldable pub raise : Error → Exec W A
  raise e w = (err e, w)

  unfoldable pub lift : Result A → Exec W A
  lift r w = (r, w)

  abbrev caught : Result A × W → Result (Result A) × W
  caught (r, w) = (ok r, w)

  -- The error of a call as a value, for code that looks at it.
  unfoldable pub attempt : Exec W A → Exec W (Result A)
  attempt m w = caught (m w)

  -- if err != nil { return fmt.Errorf("text: %w", err) }
  unfoldable pub wrap : String → Exec W A → Exec W A
  wrap text m w = let (r, w') = m w in (wrap_result text r, w')

module _ {ℓ} {W A B : Type ℓ} where
  abbrev pub continue : Result A → (A → Exec W B) → Exec W B
  continue (ok a) f w = f a w
  continue (err e) f w = (err e, w)

  infixl 10 ◌>>=◌ ◌>>◌
  unfoldable pub ◌>>=◌ : Exec W A → (A → Exec W B) → Exec W B
  unfolding pure raise lift attempt wrap
  ◌>>=◌ m f w = let (r, w') = m w in continue r f w'

  abbrev pub ◌>>◌ : Exec W A → Exec W B → Exec W B
  m >> n = m >>= λ _. n

abbrev pub tolerated : (Error → Bool) → (Error → Error) → Result (Unit {0}) → Result (Unit {0})
tolerated test explain (ok u) = ok u
tolerated test explain (err e) = if test e then ok tt else err (explain e)

module _ {W : Type 0} where
  -- An error that passes the test is no error; any other one is returned as `explain` wraps it.
  unfoldable pub tolerate : (Error → Bool) → (Error → Error) → Exec W (Unit {0}) → Exec W (Unit {0})
  tolerate test explain m w = let (r, w') = m w in (tolerated test explain r, w')

-- `for _, x := range xs { if err := f(x); err != nil { return err } }`
module _ {ℓ} {W A : Type ℓ} {B : Type ℓ} (f : A → Exec W B) (done : B) where
  unfoldable pub each : List A → Exec W B
  each [] = pure done
  each (x ∷ xs) = f x >> each xs

-- What a reconciler returns: reconcile.Result's RequeueAfter, if it is set, and the error.
pub record Outcome : Type 0 where
  pub requeue_after : Option ℤ
  pub error : Option Error

abbrev pub outcome_of : Result Outcome → Outcome
outcome_of (ok o) = o
outcome_of (err e) = record { requeue_after = none; error = some e }

abbrev pub error_of {ℓ} : {A : Type ℓ} → Result A → Option Error
error_of (ok a) = none
error_of (err e) = some e

module _ {W A : Type 0} where
  -- return reconcile.Result{RequeueAfter: …}, err
  unfoldable pub finish : Option ℤ → Exec W A → Exec W Outcome
  finish after m w =
      let (r, w') = m w in (ok (record { requeue_after = after; error = error_of r }), w')

-- The whole reconciler: an error that ends the body comes back beside the zero Result.
unfoldable pub run {ℓ} : {W : Type ℓ} → (W → Result Outcome × W) → W → Outcome × W
run m w = let (r, w') = m w in (outcome_of r, w')
