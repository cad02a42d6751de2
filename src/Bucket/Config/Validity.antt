-- ===== src/Bucket/Config/Validity.antt =====
-- Which configurations of the bucket controller are accepted.
use mathlib.Core.Path.{subst}
use kro_lab.Prelude.{
  sym, String, ◌≡◌, refl, ◌≢◌, true, ◌↔◌, arith, eq_iff, eq-false_of_ne, pos, ltb_int,
}
use kro_lab.Prelude.Dict.{Dict}
use kro_lab.Kube.Error.{Result, ok, err}
use kro_lab.Selector.{parse_selector}
use kro_lab.Bucket.Config.{Config, Flags, check_config, unchecked, with_selector, config_of_flags}

-- What the switch lets pass.
pub record IsValid (c : Config) : Type 0 where
  pub region_label : c.region_label ≢ ""
  pub storage_class : c.storage_class ≢ ""
  pub requeues_later : ltb_int (pos 0) c.requeue_interval ≡ true
  pub cleans_later : ltb_int (pos 0) c.cleanup_interval ≡ true
  pub polls_later : ltb_int (pos 0) c.poll_interval ≡ true

check_config-eq_ok : (c d : Config) → check_config c ≡ ok d → (c ≡ d) × IsValid c
unfolding check_config
check_config-eq_ok c d h = (
  ground arith,
  record {
    region_label = λ e. ground (arith, eq_iff c.region_label "");
    storage_class = λ e. ground (arith, eq_iff c.storage_class "");
    requeues_later = ground arith;
    cleans_later = ground arith;
    polls_later = ground arith;
  },
)

check_config-valid : (c : Config) → IsValid c → check_config c ≡ ok c
unfolding check_config
check_config-valid c h =
    rw
      (
        eq-false_of_ne c.region_label "" h.region_label,
        eq-false_of_ne c.storage_class "" h.storage_class,
        h.requeues_later,
        h.cleans_later,
        h.polls_later,
      )
      refl

with_selector-eq_ok :
    (f : Flags) (r : Result (Dict String)) (c : Config)
    → with_selector f r ≡ ok c
    → (selector : Dict String) × (r ≡ ok selector) × (check_config (unchecked f selector) ≡ ok c)
with_selector-eq_ok f (ok selector) c h = (selector, refl, h)
with_selector-eq_ok f (err e) c h = cc

-- The configuration `c` holds the flags, with the selector that is read from its text, and is valid.
abbrev pub Configures : Flags → Config → Type 0
Configures f c =
    (parse_selector f.cluster_selector ≡ ok c.cluster_selector)
    × (unchecked f c.cluster_selector ≡ c)
    × IsValid c

Configures-of_ok : (f : Flags) (c : Config) → config_of_flags f ≡ ok c → Configures f c
unfolding config_of_flags
Configures-of_ok f c h =
    let (selector, read, checked) = with_selector-eq_ok f (parse_selector f.cluster_selector) c h in
    let (same, valid) = check_config-eq_ok (unchecked f selector) c checked in
    subst (λ (d : Config). Configures f d) same (read, refl, valid)

ok-of_Configures : (f : Flags) (c : Config) → Configures f c → config_of_flags f ≡ ok c
unfolding config_of_flags
ok-of_Configures f c (read, same, valid) =
    rw read (subst (λ (d : Config). check_config d ≡ ok c) (sym same) (check_config-valid c valid))

-- The values of the flags give the configuration `c` of the bucket controller exactly if the text of
-- the selector is read as its selector, it holds the other values as they are, region label and
-- storage class are not empty, and the three intervals are positive.
pub bucket_config_of_flags_iff :
    (f : Flags) (c : Config) → (config_of_flags f ≡ ok c) ↔ Configures f c
bucket_config_of_flags_iff f c = (Configures-of_ok f c, ok-of_Configures f c)
