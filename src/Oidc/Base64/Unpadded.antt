-- ===== src/Oidc/Base64/Unpadded.antt =====
-- What padding does to base64URLDecode: the text is read as one without padding.
use kro_lab.Prelude.{
  ℕ, zero, suc, ◌≤◌, ◌%◌, ◌≡◌, refl, sym, true, false, Option, none, some, Option-cases, List, [],
  ◌∷◌, ◌++◌, ◌≢◌, nat_eq, length, arith, inl, inr, All, Bool-cases,
}
use mathlib.Core.List.{append-nil}
use kro_lab.Oidc.Base64.{
  Symbol, digit, line_break, padding, corrupt, symbol, Quantum, empty, one, two, three, after_digit,
  completed, end_text, end_padding, ended, skip_breaks, prepend, decode, url_decode, raw_url_decode,
  trim_padding, pad, base64_url_decode, either,
}

-- The text has no padding character.
abbrev pub IsBare : List ℕ → Type 0
IsBare = All (λ c. c ≢ 61)

-- The bytes of a text that its reader may refuse.
abbrev pub or_no_bytes : Option (List ℕ) → List ℕ
or_no_bytes (some raw) = raw
or_no_bytes none = []

symbol-padding : (c : ℕ) → c ≢ 61 → symbol c ≢ padding
unfolding symbol
symbol-padding c h e = ground arith

-- n padding characters.
abbrev pub padding_of : ℕ → List ℕ
padding_of zero = []
padding_of (suc n) = 61 ∷ padding_of n

end_text-padding_of :
    (q : Quantum) (n : ℕ) (b : List ℕ)
    → n ≤ 2
    → decode true q (padding_of n) ≡ some b
    → end_text false q ≡ some b
unfolding decode end_text end_padding ended skip_breaks symbol
end_text-padding_of empty zero b h e = e
end_text-padding_of empty (suc n) b h e = absurd (ground arith)
end_text-padding_of (one x) zero b h e = absurd (ground arith)
end_text-padding_of (one x) (suc n) b h e = absurd (ground arith)
end_text-padding_of (two x y) zero b h e = absurd (ground arith)
end_text-padding_of (two x y) (suc zero) b h e = absurd (ground arith)
end_text-padding_of (two x y) (suc (suc zero)) b h e = e
end_text-padding_of (two x y) (suc (suc (suc n))) b h e = absurd (omega arith)
end_text-padding_of (three x y z) zero b h e = absurd (ground arith)
end_text-padding_of (three x y z) (suc zero) b h e = e
end_text-padding_of (three x y z) (suc (suc n)) b h e = absurd (ground arith)

prepend-some :
    (bytes b : List ℕ) (o : Option (List ℕ))
    → prepend bytes o ≡ some b
    → (r : List ℕ) × (o ≡ some r) × (some (bytes ++ r) ≡ some b)
unfolding prepend
prepend-some bytes b none e = absurd (ground arith)
prepend-some bytes b (some r) e = (r, refl, e)

-- What the padded decoder reads, the other one reads without the padding.
decode-unpadded :
    (s : List ℕ) (q : Quantum) (n : ℕ) (b : List ℕ)
    → IsBare s
    → n ≤ 2
    → decode true q (s ++ padding_of n) ≡ some b
    → decode false q s ≡ some b
unfolding decode
decode-unpadded [] q n b bare h e = end_text-padding_of q n b h e
decode-unpadded (c ∷ s) q n b bare h e =
    go (λ q r f. decode-unpadded s q n r bare.1 h f) (symbol c) refl
  where
    go :
        ((q : Quantum) (r : List ℕ)
          → decode true q (s ++ padding_of n) ≡ some r
          → decode false q s ≡ some r)
        → (x : Symbol) → symbol c ≡ x
        → decode false q (c ∷ s) ≡ some b
    go rest (digit d) i =
        let (r, f, g) = prepend-some (completed q d) b _ (rw (decode, i) at e) in
        rw (decode, i, rest (after_digit q d) r f) g
    go rest line_break i = rw (decode, i) (rest q b (rw (decode, i) at e))
    go rest padding i = absurd (symbol-padding c bare.0 i)
    go rest corrupt i = absurd (ground arith)

pub trim_padding-bare : (s : List ℕ) → IsBare s → trim_padding s ≡ s
unfolding trim_padding
trim_padding-bare [] h = refl
trim_padding-bare (c ∷ []) h = ground arith
trim_padding-bare (c ∷ d ∷ s) h = rw (trim_padding-bare (d ∷ s) h.1) refl

trim_padding-padding_of : (n : ℕ) → trim_padding (padding_of n) ≡ []
unfolding trim_padding
trim_padding-padding_of zero = refl
trim_padding-padding_of (suc n) = rw (trim_padding-padding_of n) refl

-- Trimming takes back what padding added.
pub trim_padding-append : (s : List ℕ) (n : ℕ) → trim_padding (s ++ padding_of n) ≡ trim_padding s
unfolding trim_padding
trim_padding-append [] n = trim_padding-padding_of n
trim_padding-append (c ∷ s) n = rw (trim_padding-append s n) refl

pad-padding_of : (s : List ℕ) → (n : ℕ) × (n ≤ 2) × (pad s ≡ s ++ padding_of n)
unfolding pad
pad-padding_of s = elim (Bool-cases (nat_eq (length s % 4) 2)) [
  | inl half ↦ (2, omega arith, rw half refl)
  | inr other ↦ elim (Bool-cases (nat_eq (length s % 4) 3)) [
    | inl most ↦ (1, omega arith, rw (other, most) refl)
    | inr rest ↦ (0, omega arith, rw (other, rest) (sym (append-nil s)))
  ]
]

either_decoder :
    (t : List ℕ) (n : ℕ)
    → IsBare t
    → n ≤ 2
    → trim_padding t ≡ t
    → either (t ++ padding_of n) ≡ or_no_bytes (raw_url_decode t)
unfolding either url_decode raw_url_decode
either_decoder t n h small e = elim (Option-cases (decode true empty (t ++ padding_of n))) [
  | inl failed ↦
      rw (either, url_decode, failed, trim_padding-append t n, e) (go (decode false empty t))
  | inr (b, found) ↦ rw (either, url_decode, found, decode-unpadded t empty n b h small found) refl
]
  where
    go : (o : Option (List ℕ)) → elim o [ some raw ↦ raw | none ↦ [] ] ≡ or_no_bytes o
    go none = refl
    go (some raw) = refl

-- Where the trimmed text has no padding character inside, the padding and the first of the two
-- decoders make no difference: the result is what the unpadded decoder reads, or no bytes.
pub base64_url_decode_unpadded :
    (s : List ℕ)
    → IsBare (trim_padding s)
    → base64_url_decode s ≡ or_no_bytes (raw_url_decode (trim_padding s))
unfolding base64_url_decode
base64_url_decode_unpadded s h =
    let (n, small, e) = pad-padding_of (trim_padding s) in
    rw e (either_decoder (trim_padding s) n h small (trim_padding-bare _ h))
