-- ===== src/Oidc/Base64/Bounds.antt =====
-- What base64URLDecode returns are bytes.
use kro_lab.Prelude.{
  ℕ, ◌<◌, Bool, true, false, Option, none, some, List, [], ◌∷◌, ◌++◌, nat_eq, if◌then◌else◌, arith,
  inl, inr, All, Bool-cases,
}
use kro_lab.Oidc.Base64.{
  Symbol, digit, line_break, padding, corrupt, symbol, Quantum, empty, one, two, three, after_digit,
  completed, end_text, end_padding, ended, skip_breaks, partial_bytes, prepend, decode, url_decode,
  raw_url_decode, trim_padding, pad, either, base64_url_decode, byte_0, byte_1, byte_2,
}

abbrev pub IsBytes : List ℕ → Type 0
IsBytes = All (λ b. b < 256)

-- What is read, if anything is, consists of bytes.
abbrev AreBytes : Option (List ℕ) → Type 0
AreBytes none = Unit
AreBytes (some bytes) = IsBytes bytes

partial_bytes-IsBytes : (q : Quantum) → IsBytes (partial_bytes q)
unfolding partial_bytes byte_0 byte_1
partial_bytes-IsBytes empty = tt
partial_bytes-IsBytes (one a) = tt
partial_bytes-IsBytes (two a b) = (omega arith, tt)
partial_bytes-IsBytes (three a b c) = (omega arith, (omega arith, tt))

completed-IsBytes : (q : Quantum) (d : ℕ) → IsBytes (completed q d)
unfolding completed byte_0 byte_1 byte_2
completed-IsBytes empty d = tt
completed-IsBytes (one a) d = tt
completed-IsBytes (two a b) d = tt
completed-IsBytes (three a b c) d = (omega arith, (omega arith, (omega arith, tt)))

append-IsBytes : (xs ys : List ℕ) → IsBytes xs → IsBytes ys → IsBytes (xs ++ ys)
append-IsBytes [] ys h k = k
append-IsBytes (x ∷ xs) ys h k = (h.0, append-IsBytes xs ys h.1 k)

prepend-AreBytes :
    (xs : List ℕ) (o : Option (List ℕ)) → IsBytes xs → AreBytes o → AreBytes (prepend xs o)
unfolding prepend
prepend-AreBytes xs none h k = tt
prepend-AreBytes xs (some ys) h k = append-IsBytes xs ys h k

end_text-AreBytes : (padded : Bool) (q : Quantum) → AreBytes (end_text padded q)
unfolding end_text
end_text-AreBytes padded empty = tt
end_text-AreBytes padded (one a) = tt
end_text-AreBytes true (two a b) = tt
end_text-AreBytes true (three a b c) = tt
end_text-AreBytes false (two a b) = partial_bytes-IsBytes (two a b)
end_text-AreBytes false (three a b c) = partial_bytes-IsBytes (three a b c)

ended-AreBytes : (bytes s : List ℕ) → IsBytes bytes → AreBytes (ended bytes s)
unfolding ended
ended-AreBytes bytes s h = go (skip_breaks s)
  where
    go : (r : List ℕ) → AreBytes (elim r [ [] ↦ some bytes | _ ↦ none ])
    go [] = h
    go (c ∷ r) = tt

end_padding-AreBytes : (q : Quantum) (s : List ℕ) → AreBytes (end_padding q s)
unfolding end_padding
end_padding-AreBytes empty s = tt
end_padding-AreBytes (one a) s = tt
end_padding-AreBytes (two a b) s = go (skip_breaks s)
  where
    go :
        (r : List ℕ)
        → AreBytes (elim r [
          | [] ↦ none
          | c ∷ r ↦ if nat_eq c 61 then ended (partial_bytes (two a b)) r else none
        ])
    go [] = tt
    go (c ∷ r) = elim (Bool-cases (nat_eq c 61)) [
      | inl last ↦ rw last (ended-AreBytes _ r (partial_bytes-IsBytes (two a b)))
      | inr other ↦ rw other tt
    ]
end_padding-AreBytes (three a b c) s = ended-AreBytes _ s (partial_bytes-IsBytes (three a b c))

decode-AreBytes : (padded : Bool) (s : List ℕ) (q : Quantum) → AreBytes (decode padded q s)
unfolding decode
decode-AreBytes padded [] q = end_text-AreBytes padded q
decode-AreBytes padded (c ∷ s) q = go (symbol c) (decode-AreBytes padded s)
  where
    go :
        (x : Symbol)
        → ((q : Quantum) → AreBytes (decode padded q s))
        → AreBytes (elim x [
          | digit d ↦ prepend (completed q d) (decode padded (after_digit q d) s)
          | line_break ↦ decode padded q s
          | padding ↦ if padded then end_padding q s else none
          | corrupt ↦ none
        ])
    go (digit d) rest = prepend-AreBytes _ _ (completed-IsBytes q d) (rest (after_digit q d))
    go line_break rest = rest q
    go padding rest = elim (Bool-cases padded) [
      | inl strict ↦ rw strict (end_padding-AreBytes q s)
      | inr lax ↦ rw lax tt
    ]
    go corrupt rest = tt

pub base64_url_decode-IsBytes : (s : List ℕ) → IsBytes (base64_url_decode s)
unfolding base64_url_decode either url_decode raw_url_decode
base64_url_decode-IsBytes s =
    go _ _ (decode-AreBytes true (pad (trim_padding s)) empty)
      (decode-AreBytes false (trim_padding (pad (trim_padding s))) empty)
  where
    go :
        (o r : Option (List ℕ))
        → AreBytes o
        → AreBytes r
        → IsBytes (elim o [ some raw ↦ raw | none ↦ elim r [ some raw ↦ raw | none ↦ [] ] ])
    go (some raw) r h k = h
    go none (some raw) h k = k
    go none none h k = tt
