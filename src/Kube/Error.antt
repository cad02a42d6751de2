-- ===== src/Kube/Error.antt =====
-- Go errors as the controllers make, wrap and test them.
use kro_lab.Prelude.{String, Bool, true, false, if◌then◌else◌}

-- What an API server answers instead of a result, as far as the code tells the answers apart.
pub data Reason : Type 0 where
  not_found already_exists other : Reason

pub data Error : Type 0 where
  -- an error of an API call
  api : Reason → Error
  -- multicluster.ErrClusterNotFound
  cluster_not_found : Error
  message : String → Error
  -- fmt.Errorf("…: %w", err)
  wrapped : String → Error → Error
  -- reconcile.TerminalError
  terminal : Error → Error
  -- a run-time panic, which the controller's worker recovers
  panicked : Error

-- apierrors.IsNotFound looks through the chain of wrapped errors.
unfoldable pub is_not_found : Error → Bool
is_not_found (api not_found) = true
is_not_found (wrapped text e) = is_not_found e
is_not_found (terminal e) = is_not_found e
is_not_found _ = false

unfoldable pub is_already_exists : Error → Bool
is_already_exists (api already_exists) = true
is_already_exists (wrapped text e) = is_already_exists e
is_already_exists (terminal e) = is_already_exists e
is_already_exists _ = false

-- errors.Is(err, multicluster.ErrClusterNotFound)
unfoldable pub is_cluster_not_found : Error → Bool
is_cluster_not_found cluster_not_found = true
is_cluster_not_found (wrapped text e) = is_cluster_not_found e
is_cluster_not_found (terminal e) = is_cluster_not_found e
is_cluster_not_found _ = false

pub data Result {ℓ} (A : Type ℓ) : Type ℓ where
  ok : A → Result A
  err : Error → Result A

-- client.IgnoreNotFound of the error of a call.
unfoldable pub ignore_not_found : Result (Unit {0}) → Result (Unit {0})
unfolding is_not_found
ignore_not_found (ok u) = ok u
ignore_not_found (err e) = if is_not_found e then ok tt else err e
