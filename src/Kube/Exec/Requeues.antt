-- ===== src/Kube/Exec/Requeues.antt =====
-- Bodies of a reconciler that ask for a later run whenever they end without an error.
use kro_lab.Prelude.{◌≡◌, refl, Bool, true, false, some, none, ℤ, if◌then◌else◌}
use kro_lab.Kube.Error.{Error, Result, ok, err}
use kro_lab.Kube.Exec.{Exec, pure, raise, finish, continue, Outcome, outcome_of, ◌>>=◌}

-- A body that ends without an error asks for a run after `d`.
pub record Requeues {W : Type 0} (d : ℤ) (b : Exec W Outcome) : Type 0 where
  pub at : (w : W) → (outcome_of (b w).0).error ≡ none → (outcome_of (b w).0).requeue_after ≡ some d

module _ {W : Type 0} {d : ℤ} where
  pub Requeues-raise : (e : Error) → Requeues {W = W} d (raise e)
  unfolding raise
  Requeues-raise e = record { at = λ w h. cc }

  pub Requeues-finish : {A : Type 0} (m : Exec W A) → Requeues d (finish (some d) m)
  unfolding finish
  Requeues-finish m = record { at = λ w h. refl }

  pub Requeues-pure : (o : Outcome) → o.requeue_after ≡ some d → Requeues {W = W} d (pure o)
  unfolding pure
  Requeues-pure o e = record { at = λ w h. e }

  pub Requeues-if :
      (b : Bool) (x y : Exec W Outcome)
      → Requeues d x
      → Requeues d y
      → Requeues d (if b then x else y)
  Requeues-if true x y h k = h
  Requeues-if false x y h k = k

module _ {W A : Type 0} {d : ℤ} where
  pub Requeues-bind :
      (m : Exec W A) (f : A → Exec W Outcome) → ((a : A) → Requeues d (f a)) → Requeues d (m >>= f)
  unfolding ◌>>=◌
  Requeues-bind m f k = record { at = λ w. go (m w).0 (m w).1 }
    where
      go :
          (r : Result A) (v : W)
          → (outcome_of (continue r f v).0).error ≡ none
          → (outcome_of (continue r f v).0).requeue_after ≡ some d
      go (ok a) v h = (k a).at v h
      go (err e) v h = cc

pub ruleset requeue_rules = (Requeues-raise, Requeues-finish, Requeues-if, Requeues-bind)
