-- ===== src/Kube/Program.antt =====
-- What the main programs of the two controllers call of client-go, controller-runtime and
-- multicluster-runtime, and what they build.
pub mod Served
use kro_lab.Prelude.{ℕ, String, Option, ℤ, pos, ltb_int, if◌then◌else◌}
use kro_lab.Kube.Error.{Result, ok, err, panicked}
use kro_lab.Kube.Exec.{Exec}
use kro_lab.Provider.{Provider}

-- schema.GroupVersionKind
pub record Kind : Type 0 where
  pub group : String
  pub version : String
  pub kind : String

-- Whose objects a controller watches: those of the hub, or those of every engaged cluster.
pub data Place : Type 0 where
  on_hub on_spokes : Place

-- Named(name).For(object)
pub record Watch : Type 0 where
  pub name : String
  pub kind : Kind
  pub place : Place

-- RequestReconciler and StatusReconciler; not all of them have a reader of the hub.
pub record Reconciler (Client Manager Config : Type 0) : Type 0 where
  pub hub : Client
  pub hub_reader : Option Client
  pub clusters : Manager
  pub config : Config

-- The calls, over a world `W`.
pub record Runtime (W Config : Type 0) : Type 1 where
  pub Scheme : Type 0
  pub HubConfig : Type 0
  pub Client : Type 0
  pub Manager : Type 0
  pub Cluster : Type 0
  pub Index : Type 0
  -- a new scheme with corev1 added to it
  pub core_scheme : Exec W Scheme
  -- clientcmd.BuildConfigFromFlags of no URL and this path
  pub build_config : String → Exec W HubConfig
  pub new_client : HubConfig → Scheme → Exec W Client
  -- mcmanager.New, with the address of the metrics if it is set
  pub new_manager : HubConfig → Provider Cluster Index → Scheme → Option String → Exec W Manager
  -- GetClient and GetAPIReader of the local manager
  pub client_of : Manager → Client
  pub reader_of : Manager → Client
  pub complete : Manager → Watch → Reconciler Client Manager Config → Exec W (Unit {0})
  -- Start of the local manager until the context is done, with the polls of the provider beside it
  pub serve : Manager → Provider Cluster Index → ℤ → Exec W (Unit {0})

-- What main has built once nothing but the manager's end makes it exit.
pub record Started {W Config : Type 0} (rt : Runtime W Config) : Type 0 where
  pub config : Config
  -- the provider, the client that it lists with, and the time between its polls
  pub provider : Provider rt.Cluster rt.Index
  pub hub_client : rt.Client
  pub poll_interval : ℤ
  pub manager : rt.Manager

-- time.NewTicker panics at an interval that is not positive.
unfoldable pub new_ticker : ℤ → Result ℤ
new_ticker interval = if ltb_int (pos 0) interval then ok interval else err panicked

abbrev pub exit_status : {W : Type 0} → Result (Unit {0}) × W → ℕ × W
exit_status (ok u, w) = (0, w)
exit_status (err e, w) = (1, w)

module _ {W Config : Type 0} (rt : Runtime W Config) where
  -- main from its second half on: os.Exit(1) if there is an error.
  unfoldable pub serve_or_exit : Result (Started rt) × W → ℕ × W
  serve_or_exit (err e, w) = (1, w)
  serve_or_exit (ok s, w) = exit_status (rt.serve s.manager s.provider s.poll_interval w)
