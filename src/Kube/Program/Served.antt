-- ===== src/Kube/Program/Served.antt =====
-- When a main program exits with the status 0.
use kro_lab.Prelude.{◌≡◌, refl, ap, arith}
use kro_lab.Kube.Error.{Result, ok, err}
use kro_lab.Kube.Program.{Runtime, Started, exit_status, serve_or_exit}

exit_status-zero :
    {W : Type 0} (r : Result (Unit {0}) × W) (w : W) → exit_status r ≡ (0, w) → r ≡ (ok tt, w)
exit_status-zero {W} (ok u, v) w h = ap (λ (x : W). (ok tt, x)) (ground arith)
exit_status-zero (err e, v) w h = ground arith

module _ {W Config : Type 0} (rt : Runtime W Config) where
  -- The program was started, and its manager ended without an error.
  pub served :
      (r : Result (Started rt) × W) (w : W)
      → serve_or_exit rt r ≡ (0, w)
      → (s : Started rt) × (v : W) × (r ≡ (ok s, v))
        × (rt.serve s.manager s.provider s.poll_interval v ≡ (ok tt, w))
  unfolding serve_or_exit
  served (err e, v) w h = ground arith
  served (ok s, v) w h = (s, v, refl, exit_status-zero _ w h)
