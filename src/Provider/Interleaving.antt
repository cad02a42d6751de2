-- ===== src/Provider/Interleaving.antt =====
-- provider.go under concurrency: IndexField and discover run in goroutines of their own, and the lock
-- makes one step of what each does between taking and releasing it.
pub mod Waiting
pub mod Indexed
use kro_lab.Prelude.{ℕ, zero, suc, String, Bool, true, false, List, [], ◌∷◌, ◌++◌}
use kro_lab.Provider.{Provider, clusters_of, disengage_cluster, store}

module _ (Cluster Index : Type 0) where
  -- The calls GetFieldIndexer().IndexField that a goroutine has still to make, one after the other.
  -- IndexField stops at an error, discover goes on.
  pub record Calls : Type 0 where
    pub stops : Bool
    pub waiting : List (Cluster × Index)

  pub record Shared : Type 0 where
    pub provider : Provider Cluster Index
    pub running : List Calls
    -- the calls that succeeded, and those that failed or were given up behind one that failed
    pub indexed : List (Cluster × Index)
    pub given_up : List (Cluster × Index)

  -- What one of the goroutines does next. A call ends well or badly.
  pub data Event : Type 0 where
    register : Index → Event
    publish : String → String → Cluster → Event
    withdraw : String → Event
    call : ℕ → Bool → Event

  -- Calls that ended: those that went well, and those that did not.
  pub record Progress : Type 0 where
    pub left : List Calls
    pub done : List (Cluster × Index)
    pub lost : List (Cluster × Index)

module _ {Cluster Index : Type 0} where
  abbrev pub pairs_with : Index → List Cluster → List (Cluster × Index)
  pairs_with i [] = []
  pairs_with i (c ∷ cs) = (c, i) ∷ pairs_with i cs

  abbrev pub pairs_of : Cluster → List Index → List (Cluster × Index)
  pairs_of c [] = []
  pairs_of c (i ∷ is) = (c, i) ∷ pairs_of c is

  -- The next call of a goroutine, in front of the other goroutines.
  unfoldable pub next_call :
      Bool → Bool → List (Cluster × Index) → List (Calls Cluster Index) → Progress Cluster Index
  next_call well stops [] others = record { left = others; done = []; lost = [] }
  next_call true stops (pair ∷ rest) others = record {
    left = record { stops = stops; waiting = rest } ∷ others;
    done = pair ∷ [];
    lost = [];
  }
  next_call false true (pair ∷ rest) others = record {
    left = others;
    done = [];
    lost = pair ∷ rest;
  }
  next_call false false (pair ∷ rest) others = record {
    left = record { stops = false; waiting = rest } ∷ others;
    done = [];
    lost = pair ∷ [];
  }

  unfoldable pub advance : ℕ → Bool → List (Calls Cluster Index) → Progress Cluster Index
  unfolding next_call
  advance k well [] = record { left = []; done = []; lost = [] }
  advance zero well (g ∷ others) = next_call well g.stops g.waiting others
  advance (suc k) well (g ∷ others) =
      let p = advance k well others in record p { left = g ∷ p.left }

  -- `order` is the order in which IndexField ranges over the clusters.
  module _ (order : List Cluster → List Cluster) where
    -- Under the lock, IndexField keeps the index and copies the clusters, and discover stores a new
    -- cluster and copies the indexes.
    unfoldable pub step : Event Cluster Index → Shared Cluster Index → Shared Cluster Index
    unfolding store disengage_cluster advance
    step (register i) s = record s {
      provider = record s.provider { indexes = s.provider.indexes ++ (i ∷ []) };
      running =
          record { stops = true; waiting = pairs_with i (order (clusters_of s.provider.clusters)) }
          ∷ s.running;
    }
    step (publish name key c) s = record s {
      provider = store name key c s.provider;
      running = record { stops = false; waiting = pairs_of c s.provider.indexes } ∷ s.running;
    }
    step (withdraw name) s = record s { provider = disengage_cluster name s.provider }
    step (call k well) s =
        let p = advance k well s.running in
        record s {
          running = p.left;
          indexed = p.done ++ s.indexed;
          given_up = p.lost ++ s.given_up;
        }

    unfoldable pub run_events :
        List (Event Cluster Index) → Shared Cluster Index → Shared Cluster Index
    unfolding step
    run_events [] s = s
    run_events (e ∷ es) s = run_events es (step e s)

  -- Before the first goroutine runs.
  abbrev pub at_rest : Provider Cluster Index → Shared Cluster Index
  at_rest p = record { provider = p; running = []; indexed = []; given_up = [] }
