-- ===== src/Selector/Roundtrip.antt =====
-- A selector that is written as a text is read back as it was.
use Prim.Native.Char.{code}
use Prim.Native.String.{[], ◌∷◌}
use mathlib.Core.List.{List}
use text.Mathlib.TextLemmas.{cons-append, nil-append}
use kro_lab.Prelude.{
  ℕ, String, ◌<>◌, ◌≡◌, ◌≢◌, refl, ◌∙◌, ap, Bool, false, ◌||◌, some, nat_eq, ◌==◌, arith,
  eq-false_of_ne, All,
}
use kro_lab.Prelude.Dict.{Dict, insert}
use kro_lab.Kube.Error.{ok}
use kro_lab.Selector.{comma_code, equals_code, split_on, cut_at, read_pairs, parse_selector}

abbrev pub has_char : ℕ → String → Bool
has_char sep [] = false
has_char sep (c ∷ s) = nat_eq (code c) sep || has_char sep s

pub cut_at-append :
    (k v : String)
    → has_char equals_code k ≡ false
    → cut_at equals_code (k <> "=" <> v) ≡ some (k, v)
unfolding cut_at
cut_at-append [] v h = rw (nil-append, cons-append, nil-append) refl
cut_at-append (c ∷ k) v h = rw cons-append (ground (arith, cut_at-append k v))

split_on-last :
    (s : String) → has_char comma_code s ≡ false → split_on comma_code s ≡ List.◌∷◌ s List.[]
unfolding split_on
split_on-last [] h = refl
split_on-last (c ∷ s) h = ground (arith, split_on-last s)

split_on-append :
    (s t : String)
    → has_char comma_code s ≡ false
    → split_on comma_code (s <> "," <> t) ≡ List.◌∷◌ s (split_on comma_code t)
unfolding split_on
split_on-append [] t h = rw (nil-append, cons-append, nil-append) refl
split_on-append (c ∷ s) t h = rw cons-append (ground (arith, split_on-append s t))

-- strings.Join with commas.
abbrev pub join : List String → String
join List.[] = ""
join (List.◌∷◌ w List.[]) = w
join (List.◌∷◌ w (List.◌∷◌ v ws)) = w <> "," <> join (List.◌∷◌ v ws)

abbrev NoComma : String → Type 0
NoComma w = has_char comma_code w ≡ false

split_on-join :
    (w : String) (ws : List String)
    → All NoComma (List.◌∷◌ w ws)
    → split_on comma_code (join (List.◌∷◌ w ws)) ≡ List.◌∷◌ w ws
split_on-join w List.[] h = split_on-last w h.0
split_on-join w (List.◌∷◌ v ws) h =
    split_on-append w (join (List.◌∷◌ v ws)) h.0 ∙ ap (λ vs. List.◌∷◌ w vs) (split_on-join v ws h.1)

-- An entry that a text can hold: the key is not empty and has no separator, the value no comma.
pub record IsEntry (e : String × String) : Type 0 where
  pub key : e.0 ≢ ""
  pub key_equals : has_char equals_code e.0 ≡ false
  pub key_comma : has_char comma_code e.0 ≡ false
  pub value_comma : has_char comma_code e.1 ≡ false

abbrev pub entry_text : String × String → String
entry_text (k, v) = k <> "=" <> v

abbrev pub entry_texts : List (String × String) → List String
entry_texts List.[] = List.[]
entry_texts (List.◌∷◌ e es) = List.◌∷◌ (entry_text e) (entry_texts es)

-- The map after the entries, in their order: a later value of a key takes the place of an earlier.
abbrev pub inserted : Dict String → List (String × String) → Dict String
inserted d List.[] = d
inserted d (List.◌∷◌ (k, v) es) = inserted (insert k v d) es

has_char-append :
    (sep : ℕ) (s t : String) → has_char sep (s <> t) ≡ (has_char sep s || has_char sep t)
has_char-append sep [] t = rw nil-append refl
has_char-append sep (c ∷ s) t = rw cons-append (ground (arith, has_char-append sep s t))

entry-NoComma : (e : String × String) → IsEntry e → NoComma (entry_text e)
entry-NoComma (k, v) h = ground (
  arith,
  has_char-append comma_code k ("=" <> v),
  has_char-append comma_code "=" v,
  h.key_comma,
  h.value_comma,
)

entries-NoComma : (es : List (String × String)) → All IsEntry es → All NoComma (entry_texts es)
entries-NoComma List.[] h = tt
entries-NoComma (List.◌∷◌ e es) h = (entry-NoComma e h.0, entries-NoComma es h.1)

read_pairs-pair :
    (pair : String) (pairs : List String) (d : Dict String) (k v : String)
    → cut_at equals_code pair ≡ some (k, v)
    → (k == "") ≡ false
    → read_pairs (List.◌∷◌ pair pairs) d ≡ read_pairs pairs (insert k v d)
unfolding read_pairs
read_pairs-pair pair pairs d k v h e = rw (read_pairs, h, e) refl

read_pairs-entries :
    (es : List (String × String)) (d : Dict String)
    → All IsEntry es
    → read_pairs (entry_texts es) d ≡ ok (inserted d es)
unfolding read_pairs
read_pairs-entries List.[] d h = refl
read_pairs-entries (List.◌∷◌ (k, v) es) d h =
    let e : IsEntry (k, v) = h.0 in
    read_pairs-pair (entry_text (k, v)) (entry_texts es) d k v (cut_at-append k v e.key_equals)
      (eq-false_of_ne k "" e.key)
    ∙ read_pairs-entries es (insert k v d) h.1

join-ne_empty :
    (k v : String) (es : List (String × String))
    → k ≢ ""
    → join (entry_texts (List.◌∷◌ (k, v) es)) ≢ ""
join-ne_empty [] v es h e = h refl
join-ne_empty (c ∷ k) v List.[] h e = cc (rw cons-append at e)
join-ne_empty (c ∷ k) v (List.◌∷◌ f es) h e = cc (rw (cons-append, cons-append) at e)

-- A list of entries, written as `key=value` with commas between them, is read back as the map that
-- holds them, the later value where a key comes twice, if keys are not empty and have no `=` or
-- comma, and values have no comma.
pub parse_selector-join :
    (es : List (String × String))
    → All IsEntry es
    → parse_selector (join (entry_texts es)) ≡ ok (inserted List.[] es)
unfolding parse_selector
parse_selector-join List.[] h = refl
parse_selector-join (List.◌∷◌ (k, v) es) h =
    let e : IsEntry (k, v) = h.0 in
    rw
      (
        eq-false_of_ne (join (entry_texts (List.◌∷◌ (k, v) es))) "" (join-ne_empty k v es e.key),
        split_on-join (entry_text (k, v)) (entry_texts es) (entries-NoComma (List.◌∷◌ (k, v) es) h),
      )
      (read_pairs-entries (List.◌∷◌ (k, v) es) List.[] h)
