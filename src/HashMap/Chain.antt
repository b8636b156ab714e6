-- ===== src/HashMap/Chain.antt =====
-- One bucket: what the loops of `hash_map_get` and `hash_map_insert` do to a chain.
use file_storage_server.Base.{
  ◌≡◌, refl, ◌↔◌, ◌⊎◌, inl, inr, true, Option, none, some, List, [], ◌∷◌, arith, All, if◌then◌else◌,
  Bool-cases, Option-cases,
}
use file_storage_server.Outcome.{ok, fault, Outcome-cases}
use file_storage_server.HashMap.{Entry, KeyOps, value_of, find_entry, write_entry}

module _ {K Key V : Type 0} (env : KeyOps K Key) where
  -- Every key pointer of the chain can be followed.
  abbrev pub IsReadable : List (Entry K V) → Type 0
  IsReadable = All (λ e. (k : Key) × (env.read e.key ≡ some k))

  pub find_entry-total :
      (es : List (Entry K V)) (key : Key)
      → IsReadable es
      → (r : Option (Entry K V)) × (find_entry env es key ≡ ok r)
  unfolding find_entry
  find_entry-total [] key h = (none, refl)
  find_entry-total (e ∷ es) key h = elim (Bool-cases (env.key_cmp h.0.0 key)) [
    | inl hit ↦ (some e, ground arith)
    | inr miss ↦ let (r, q) = find_entry-total es key h.1 in (r, ground arith)
  ]

  -- Writing the value that is found changes nothing.
  pub write-find :
      (es : List (Entry K V)) (key : Key) (p : K) (e : Entry K V)
      → find_entry env es key ≡ ok (some e)
      → write_entry env es p e.value key ≡ ok es
  unfolding find_entry write_entry
  write-find [] key p e h = cc
  write-find (x ∷ es) key p e h = ground (arith, write-find es key p e)

  -- A walk that ends for a lookup ends for a write.
  pub write-total :
      (es : List (Entry K V)) (key : Key) (p : K) (v : V) (r : Option (Entry K V))
      → find_entry env es key ≡ ok r
      → (es' : List (Entry K V)) × (write_entry env es p v key ≡ ok es')
  unfolding find_entry write_entry
  write-total [] key p v r h = (record { key = p; value = v } ∷ [], refl)
  write-total (e ∷ es) key p v r h = elim (Option-cases (env.read e.key)) [
    | inl dangling ↦ absurd (ground arith)
    | inr (k, q) ↦ elim (Bool-cases (env.key_cmp k key)) [
      | inl hit ↦ (record e { value = v } ∷ es, ground arith)
      | inr miss ↦ let (es', w) = write-total es key p v r (ground arith) in (e ∷ es', ground arith)
    ]
  ]

module _ {K Key V : Type 0} (env : KeyOps K Key)
    (cmp_iff : (a b : Key) → (env.key_cmp a b ≡ true) ↔ (a ≡ b)) where
  -- After a write the loop finds the new value under the key, and under any other what it found.
  pub find-write :
      (es : List (Entry K V)) (k j : Key) (p : K) (v : V) (es' : List (Entry K V))
      → env.read p ≡ some k
      → write_entry env es p v k ≡ ok es'
      → value_of (find_entry env es' j)
        ≡ (if env.key_cmp k j then ok (some v) else value_of (find_entry env es j))
  unfolding find_entry write_entry
  find-write [] k j p v es' r h = ground arith
  find-write (e ∷ es) k j p v es' r h = elim (Option-cases (env.read e.key)) [
    | inl dangling ↦ ground arith
    | inr (k', q) ↦ elim (Outcome-cases (write_entry env es p v k)) [
      | inl (rest, w) ↦
          ground (arith, find-write es k j p v rest r w, cmp_iff k' k, cmp_iff k' j, cmp_iff k j)
      | inr other ↦ ground (arith, cmp_iff k' k, cmp_iff k' j, cmp_iff k j)
    ]
  ]

module _ {K Key V : Type 0} (old new : KeyOps K Key)
    (cmp_same : (a b : Key) → new.key_cmp a b ≡ old.key_cmp a b)
    (read_more : (p : K) (k : Key) → old.read p ≡ some k → new.read p ≡ some k) where
  -- A walk that follows only live pointers ends as before when more pointers are live.
  pub find_entry_mono :
      (es : List (Entry K V)) (key : Key) (r : Option (Entry K V))
      → find_entry old es key ≡ ok r
      → find_entry new es key ≡ ok r
  unfolding find_entry
  find_entry_mono [] key r h = h
  find_entry_mono (e ∷ es) key r h = elim (Option-cases (old.read e.key)) [
    | inl dangling ↦ absurd (ground arith)
    | inr (k, q) ↦ ground (arith, read_more e.key k q, cmp_same k key, find_entry_mono es key r)
  ]

module _ {K Key V : Type 0} (old new : KeyOps K Key)
    (cmp_same : (a b : Key) → new.key_cmp a b ≡ old.key_cmp a b)
    (read_less : (p : K) → (new.read p ≡ none) ⊎ (new.read p ≡ old.read p)) where
  -- A walk that found an entry finds it again, or follows a pointer that has died since.
  pub find_entry-dead :
      (es : List (Entry K V)) (key : Key) (x : Entry K V)
      → find_entry old es key ≡ ok (some x)
      → (find_entry new es key ≡ fault) ⊎ (find_entry new es key ≡ ok (some x))
  unfolding find_entry
  find_entry-dead [] key x h = absurd (ground arith)
  find_entry-dead (e ∷ es) key x h = elim (Option-cases (old.read e.key)) [
    | inl dangling ↦ absurd (ground arith)
    | inr (k, q) ↦ elim (Bool-cases (old.key_cmp k key)) [
      | inl hit ↦ ground (arith, read_less e.key, cmp_same k key)
      | inr miss ↦
          let later = find_entry-dead es key x (ground arith) in
          ground (arith, read_less e.key, cmp_same k key, later)
    ]
  ]
