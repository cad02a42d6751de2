-- ===== src/Kube/Exec/Inversion.antt =====
-- What a run that succeeded says about its parts.
use kro_lab.Prelude.{String, ◌≡◌, refl, Bool, true, List, [], ◌∷◌, arith, ap, ◌⊎◌, inl, inr}
use kro_lab.Kube.Error.{Error, Result, ok, err}
use kro_lab.Kube.Exec.{Exec, pure, lift, wrap, each, tolerate, tolerated, ◌>>=◌}

module _ {W A B : Type 0} where
  pub bind-eq_ok :
      (m : Exec W A) (f : A → Exec W B) (w w' : W) (b : B)
      → (m >>= f) w ≡ (ok b, w')
      → (a : A) × (v : W) × (m w ≡ (ok a, v)) × (f a v ≡ (ok b, w'))
  unfolding ◌>>=◌
  bind-eq_ok m f w w' b = go (m w) refl
    where
      go :
          (p : Result A × W)
          → m w ≡ p
          → (m >>= f) w ≡ (ok b, w')
          → (a : A) × (v : W) × (m w ≡ (ok a, v)) × (f a v ≡ (ok b, w'))
      go (ok a, v) e h = (a, v, e, rw e at h)
      go (err x, v) e h = cc (rw e at h)

  -- The same for a goal `T`, so that each part is a variable of what follows.
  pub bind-then :
      {T : Type 0} (m : Exec W A) (f : A → Exec W B) (w w' : W) (b : B)
      → (m >>= f) w ≡ (ok b, w')
      → ((a : A) (v : W) → m w ≡ (ok a, v) → f a v ≡ (ok b, w') → T)
      → T
  bind-then m f w w' b h go = let (a, v, first, rest) = bind-eq_ok m f w w' b h in go a v first rest

module _ {W A : Type 0} where
  pub wrap-eq_ok :
      (text : String) (m : Exec W A) (w w' : W) (a : A)
      → wrap text m w ≡ (ok a, w')
      → m w ≡ (ok a, w')
  unfolding wrap
  wrap-eq_ok text m w w' a h = ground arith

  pub lift-eq_ok : (r : Result A) (w w' : W) (a : A) → lift r w ≡ (ok a, w') → (r ≡ ok a) × (w ≡ w')
  unfolding lift
  lift-eq_ok r w w' a h = (ap (λ (p : Result A × W). p.0) h, ap (λ (p : Result A × W). p.1) h)

  pub each-cons_eq_ok :
      (f : A → Exec W (Unit {0})) (x : A) (xs : List A) (w w' : W)
      → each f tt (x ∷ xs) w ≡ (ok tt, w')
      → (v : W) × (f x w ≡ (ok tt, v)) × (each f tt xs v ≡ (ok tt, w'))
  unfolding each
  each-cons_eq_ok f x xs w w' h =
      let (u, v, e, k) = bind-eq_ok (f x) (λ _. each f tt xs) w w' tt h in (v, e, k)

  pub each-nil_eq_ok :
      (f : A → Exec W (Unit {0})) (w w' : W) → each f tt [] w ≡ (ok tt, w') → w ≡ w'
  unfolding each pure
  each-nil_eq_ok f w w' h = ap (λ (p : Result (Unit {0}) × W). p.1) h

-- A tolerated call succeeds if the call does, or if its error passes the test.
abbrev pub Tolerated : (Error → Bool) → Result (Unit {0}) → Type 0
Tolerated test r = (r ≡ ok tt) ⊎ ((e : Error) × (r ≡ err e) × (test e ≡ true))

module _ (test : Error → Bool) (explain : Error → Error) where
  tolerated-eq_ok : (r : Result (Unit {0})) → tolerated test explain r ≡ ok tt → Tolerated test r
  tolerated-eq_ok (ok u) h = inl refl
  tolerated-eq_ok (err e) h = inr (e, refl, ground arith)

  pub tolerate-eq_ok :
      {W : Type 0} (m : Exec W (Unit {0})) (w w' : W)
      → tolerate test explain m w ≡ (ok tt, w')
      → Tolerated test (m w).0 × ((m w).1 ≡ w')
  unfolding tolerate
  tolerate-eq_ok {W} m w w' h = (
    tolerated-eq_ok (m w).0 (ap (λ (p : Result (Unit {0}) × W). p.0) h),
    ap (λ (p : Result (Unit {0}) × W). p.1) h,
  )
