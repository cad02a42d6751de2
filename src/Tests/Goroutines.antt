-- ===== src/Tests/Goroutines.antt =====
-- Goroutines of the provider: a cluster, a new index, a second cluster while the calls of the index
-- are under way, and a call that fails.
use mathlib.Core.List.{Memᴰ}
use kro_lab.Prelude.{ℕ, ◌≡◌, ◌⊎◌, refl, true, false, List, [], ◌∷◌, String}
use kro_lab.Prelude.Dict.{insert, lookup}
use kro_lab.Provider.{new_provider}
use kro_lab.Provider.Interleaving.{Shared, Event, register, publish, call, run_events, at_rest}
use kro_lab.Provider.Interleaving.Indexed.{run_events_indexed}

abbrev whole : List ℕ → List ℕ
whole cs = cs

-- The cluster 8 comes between the registration of the index and the calls for it. The goroutine of
-- the cluster 8 is in front of that of the index.
abbrev events : List (Event ℕ String)
events =
    publish "eu" "1268" 7
    ∷ register "phase"
    ∷ publish "us" "1270" 8
    ∷ call 1 true
    ∷ call 0 true
    ∷ []

abbrev ended : List (Event ℕ String) → Shared ℕ String
ended es = run_events whole es (at_rest (new_provider "/tokens"))

all_indexed : (ended events).indexed ≡ (8, "phase") ∷ (7, "phase") ∷ []
unfolding run_events new_provider insert
all_indexed = refl

-- The call for the first of two clusters fails, so the other one is given up.
abbrev failing : List (Event ℕ String)
failing = publish "eu" "1268" 7 ∷ publish "us" "1270" 8 ∷ register "phase" ∷ call 0 false ∷ []

gives_up_rest : (ended failing).given_up ≡ (7, "phase") ∷ (8, "phase") ∷ []
unfolding run_events new_provider insert
gives_up_rest = refl

run_events_indexed_example :
    Memᴰ (7, "phase") (ended events).indexed ⊎ Memᴰ (7, "phase") (ended events).given_up
unfolding run_events new_provider insert lookup
run_events_indexed_example =
    run_events_indexed whole (λ cs c h. h) events "/tokens" "eu" 7 "phase" refl refl
      (Memᴰ.tail (Memᴰ.head refl))
