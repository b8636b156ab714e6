-- ===== src/Utilities/Tokens.antt =====
-- What the program uses of `strtok`: the next token, and what a further call with NULL goes on from.
use file_storage_server.Base.{
  ℕ, zero, suc, ◌≤◌, ◌≡◌, ◌<◌, refl, sym, ap, ◌∙◌, ◌⊎◌, inl, inr, Bool-cases, arith, length, false,
  Option, none, some, List, [], ◌∷◌, ◌==◌, if◌then◌else◌,
}
use file_storage_server.Utilities.{CString}

-- The bytes up to the next separator, and those behind it.
unfoldable pub cut : ℕ → CString → CString × CString
cut sep [] = ([], [])
cut sep (c ∷ cs) =
    let (token, rest) = cut sep cs in if c == sep then ([], cs) else (c ∷ token, rest)

unfoldable pub skip : ℕ → CString → CString
skip sep [] = []
skip sep (c ∷ cs) = let rest = skip sep cs in if c == sep then rest else c ∷ cs

-- `strtok` with one separator. Separators in front are skipped; NULL if nothing else is left.
unfoldable pub strtok : ℕ → CString → Option CString × CString
unfolding cut skip
strtok sep s = elim (skip sep s) [
  | [] ↦ (none, [])
  | c ∷ cs ↦ let (token, rest) = cut sep (c ∷ cs) in (some token, rest)
]

-- The tokens that a loop on `strtok` visits, on fuel: each round takes a byte at least, so the
-- length of the text is enough.
unfoldable pub tokens : ℕ → ℕ → CString → List CString
tokens zero sep s = []
tokens (suc fuel) sep s =
    let (token, rest) = strtok sep s in
    let more = tokens fuel sep rest in elim token [ none ↦ [] | some path ↦ path ∷ more ]

-- Reference: the parts between separators, and those of them that are not empty.
abbrev pub split : ℕ → CString → List CString
split sep [] = [] ∷ []
split sep (c ∷ cs) = if c == sep then [] ∷ split sep cs else extend c (split sep cs)
  where
    extend : ℕ → List CString → List CString
    extend c [] = []
    extend c (part ∷ parts) = (c ∷ part) ∷ parts

abbrev pub filled : List CString → List CString
filled [] = []
filled ([] ∷ parts) = filled parts
filled ((c ∷ part) ∷ parts) = (c ∷ part) ∷ filled parts

module _ (sep : ℕ) where
  -- The first part is what `cut` gives, and the other parts are those of the rest.
  split-cut :
      (s : CString)
      → (parts : List CString) × (split sep s ≡ (cut sep s).0 ∷ parts)
        × (filled parts ≡ filled (split sep (cut sep s).1))
  unfolding cut
  split-cut [] = ([], refl, refl)
  split-cut (c ∷ cs) = elim (Bool-cases (c == sep)) [
    | inl hit ↦ (split sep cs, ground (arith, hit), ground (arith, hit))
    | inr miss ↦ let (parts, e, f) = split-cut cs in (parts, rw (miss, e), ground (arith, miss, f))
  ]

  skip-split : (s : CString) → filled (split sep (skip sep s)) ≡ filled (split sep s)
  unfolding skip
  skip-split [] = refl
  skip-split (c ∷ cs) = elim (Bool-cases (c == sep)) [
    | inl hit ↦ rw hit (skip-split cs)
    | inr miss ↦ rw (miss, miss)
  ]

  -- What `skip` leaves is no longer than the text, and does not start with a separator.
  skip-cases :
      (s : CString)
      → (skip sep s ≡ [])
        ⊎ ((c : ℕ) × (cs : CString) × (skip sep s ≡ c ∷ cs)
            × ((c == sep) ≡ false)
            × (length cs < length s))
  unfolding skip
  skip-cases [] = inl refl
  skip-cases (c ∷ cs) = elim (Bool-cases (c == sep)) [
    | inr miss ↦ inr (c, cs, rw miss, miss, omega arith)
    | inl hit ↦ elim (skip-cases cs) [
      | inl e ↦ inl (rw hit e)
      | inr (c', cs', e, miss, less) ↦ inr (c', cs', rw hit e, miss, omega arith)
    ]
  ]

  cut-length : (s : CString) → length (cut sep s).1 ≤ length s
  unfolding cut
  cut-length [] = omega arith
  cut-length (c ∷ cs) = ground (arith, cut-length cs)

  -- With at least as much fuel as the text has bytes, a loop on `strtok` visits the parts between
  -- separators that are not empty, in their order.
  pub tokens-split :
      (fuel : ℕ) (s : CString) → length s ≤ fuel → tokens fuel sep s ≡ filled (split sep s)
  unfolding tokens strtok
  tokens-split zero [] h = refl
  tokens-split zero (c ∷ cs) h = absurd (omega arith)
  tokens-split (suc fuel) s h = elim (skip-cases s) [
    | inl e ↦ rw (tokens, strtok, e) (ap (λ x. filled (split sep x)) (sym e) ∙ skip-split s)
    | inr (c, cs, e, miss, less) ↦
        let (parts, shape, others) = split-cut (c ∷ cs) in
        let short : length (cut sep cs).1 ≤ fuel = omega (arith, cut-length cs) in
        let more : tokens fuel sep (cut sep cs).1 ≡ filled (split sep (cut sep cs).1) =
          tokens-split fuel (cut sep cs).1 short in
        let whole : filled (split sep s) ≡ filled (split sep (c ∷ cs)) =
          sym (skip-split s) ∙ ap (λ x. filled (split sep x)) e in
        let want : Option CString × CString = (some (c ∷ (cut sep cs).0), (cut sep cs).1) in
        let token : strtok sep s ≡ want = rw (strtok, e, cut) (ground (arith, miss)) in
        ground (arith, token, more, whole, shape, others, miss)
  ]
