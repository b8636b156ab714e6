-- ===== src/HashMap/Placed.antt =====
-- Every entry stands in the bucket of its key, and its key pointer is live.
use file_storage_server.Base.{
  ℕ, ◌%◌, ◌≡◌, refl, sym, ap, ◌∙◌, ◌≢◌, Option, none, some, List, [], ◌∷◌, arith, ◌==◌, All, inl,
  inr, if◌then◌else◌, get_or, set, get_or-replicate, get_or-set_self, get_or-set_ne, length,
  Bool-cases, Option-cases, ==_iff, ◌<◌, subst,
}
use file_storage_server.Base.Int.{pos, ◌-ℤ◌}
use file_storage_server.Outcome.{ok, Outcome-cases}
use file_storage_server.HashMap.{
  Entry, HashMap, KeyOps, slot, find_entry, write_entry, hash_map_create, hash_map_get,
  hash_map_insert,
}
use file_storage_server.HashMap.Chain.{find_entry-total, IsReadable}
use file_storage_server.HashMap.Laws.{IsSized, slot-lt}

module _ {K Key V : Type 0} where
  -- The chain of bucket `i` of `n`.
  abbrev pub IsHome : KeyOps K Key → ℕ → ℕ → List (Entry K V) → Type 0
  IsHome env n i = All (λ e. (k : Key) × (env.read e.key ≡ some k) × (env.hash_function k % n ≡ i))

  pub record IsPlaced (env : KeyOps K Key) (m : HashMap K V) : Type 0 where
    pub home : (i : ℕ) → IsHome env m.n_buckets i (get_or m.buckets i [])

  pub create-IsPlaced :
      (env : KeyOps K Key) (n : ℕ) → IsPlaced env (hash_map_create {K = K} {V = V} n)
  unfolding hash_map_create
  create-IsPlaced env n = record {
    home = λ i. subst (IsHome env n i) (sym (get_or-replicate {A = List (Entry K V)} n i [])) tt;
  }

  IsHome-IsReadable :
      (env : KeyOps K Key) (n i : ℕ) (es : List (Entry K V)) → IsHome env n i es → IsReadable env es
  IsHome-IsReadable env n i [] h = tt
  IsHome-IsReadable env n i (e ∷ es) h = ((h.0.0, h.0.1), IsHome-IsReadable env n i es h.1)

  -- No lookup of a placed map follows a dangling pointer.
  pub get-total :
      (env : KeyOps K Key) (m : HashMap K V) (key : Key)
      → IsSized m
      → IsPlaced env m
      → (r : Option V) × (hash_map_get env m key ≡ ok r)
  unfolding hash_map_get
  get-total env m key z w =
      let i = slot env m key in
      let (found, e) =
        find_entry-total env (get_or m.buckets i []) key
          (IsHome-IsReadable env m.n_buckets i (get_or m.buckets i []) (w.home i)) in
      elim (Option-cases found) [
        | inl h ↦ (none, ground (arith, z.some_bucket))
        | inr (x, h) ↦ (some x.value, ground (arith, z.some_bucket))
      ]

  write_entry-IsHome :
      (env : KeyOps K Key) (n : ℕ) (es : List (Entry K V)) (p : K) (v : V) (k : Key)
      (es' : List (Entry K V))
      → env.read p ≡ some k
      → IsHome env n (env.hash_function k % n) es
      → write_entry env es p v k ≡ ok es'
      → IsHome env n (env.hash_function k % n) es'
  unfolding write_entry
  write_entry-IsHome env n [] p v k es' r h e =
      let entry : Entry K V = record { key = p; value = v } in
      let same : entry ∷ [] ≡ es' = ground arith in
      subst (IsHome env n (env.hash_function k % n)) same ((k, r, refl), tt)
  write_entry-IsHome env n (x ∷ es) p v k es' r h e = elim (Bool-cases (env.key_cmp h.0.0 k)) [
    | inl hit ↦
        let same : record x { value = v } ∷ es ≡ es' = ground arith in
        subst (IsHome env n (env.hash_function k % n)) same h
    | inr miss ↦ elim (Outcome-cases (write_entry env es p v k)) [
      | inl (rest, q) ↦
          let same : x ∷ rest ≡ es' = ground arith in
          subst (IsHome env n (env.hash_function k % n)) same
            (h.0, write_entry-IsHome env n es p v k rest r h.1 q)
      | inr other ↦ absurd (ground arith)
    ]
  ]

  -- Writing a chain into its bucket keeps a map placed.
  set-IsHome :
      (env : KeyOps K Key) (m : HashMap K V) (i : ℕ) (b : List (Entry K V))
      → IsPlaced env m
      → i < length m.buckets
      → IsHome env m.n_buckets i b
      → (j : ℕ) → IsHome env m.n_buckets j (get_or (set m.buckets i b) j [])
  set-IsHome env m i b w lt h j = elim (Bool-cases (i == j)) [
    | inl same ↦
        let e : i ≡ j = (==_iff i j).0 same in
        subst (λ t. IsHome env m.n_buckets t (get_or (set m.buckets i b) t [])) e
          (subst (IsHome env m.n_buckets i) (sym (get_or-set_self m.buckets i b [] lt)) h)
    | inr other ↦
        subst (IsHome env m.n_buckets j)
          (sym (get_or-set_ne m.buckets i j b [] (λ e. ground (arith, e, other)))) (w.home j)
  ]

  pub insert-IsPlaced :
      (env : KeyOps K Key) (m : HashMap K V) (p : K) (v : V) (k : Key) (m' : HashMap K V)
      → IsSized m
      → IsPlaced env m
      → env.read p ≡ some k
      → hash_map_insert env m p v ≡ ok m'
      → IsPlaced env m'
  unfolding hash_map_insert
  insert-IsPlaced env m p v k m' z w r h =
      elim (Outcome-cases (write_entry env (get_or m.buckets (slot env m k) []) p v k)) [
        | inl (b, q) ↦
            let home = set-IsHome env m (slot env m k) b w (slot-lt env m z k) (
              write_entry-IsHome env m.n_buckets (get_or m.buckets (slot env m k) []) p v k b r
                (w.home (slot env m k)) q) in
            let n : m'.n_buckets ≡ m.n_buckets = ground (arith, z.some_bucket) in
            let bs : m'.buckets ≡ set m.buckets (slot env m k) b = ground (arith, z.some_bucket) in
            record { home = λ j. rw (n, bs) (home j) }
        | inr other ↦ absurd (ground (arith, z.some_bucket))
      ]

-- Two ways to follow pointers: `new` still reads the keys whose hash is not that of `k`.
module _ {K Key V : Type 0} (old new : KeyOps K Key) (n i : ℕ)
    (same_hash : (k : Key) → new.hash_function k ≡ old.hash_function k)
    (same_cmp : (a b : Key) → new.key_cmp a b ≡ old.key_cmp a b)
    (agree : (x : K) (k : Key)
      → old.read x ≡ some k
      → old.hash_function k % n ≡ i
      → new.read x ≡ some k) where
  pub IsHome-agree : (es : List (Entry K V)) → IsHome old n i es → IsHome new n i es
  IsHome-agree [] h = tt
  IsHome-agree (e ∷ es) h = (
    (h.0.0, agree e.key h.0.0 h.0.1 h.0.2, ap (λ x. x % n) (same_hash h.0.0) ∙ h.0.2),
    IsHome-agree es h.1,
  )

  find_entry-agree :
      (es : List (Entry K V)) (key : Key)
      → IsHome old n i es
      → find_entry new es key ≡ find_entry old es key
  unfolding find_entry
  find_entry-agree [] key h = refl
  find_entry-agree (e ∷ es) key h =
      ground (
        arith,
        h.0.1,
        agree e.key h.0.0 h.0.1 h.0.2,
        same_cmp h.0.0 key,
        find_entry-agree es key h.1,
      )

module _ {K Key V : Type 0} (old new : KeyOps K Key) (m : HashMap K V) (k : Key) (z : IsSized m)
    (w : IsPlaced old m) (same_hash : (k' : Key) → new.hash_function k' ≡ old.hash_function k')
    (same_cmp : (a b : Key) → new.key_cmp a b ≡ old.key_cmp a b)
    (agree : (x : K) (k' : Key)
      → old.read x ≡ some k'
      → slot old m k' ≢ slot old m k
      → new.read x ≡ some k') where
  -- The map after a removal, when pointers to keys of the emptied bucket may have died.
  abbrev pub emptied : HashMap K V
  emptied = record m { n_entries = m.n_entries -ℤ pos 1; buckets = set m.buckets (slot old m k) [] }

  pub emptied-IsPlaced : IsPlaced new emptied
  emptied-IsPlaced = record {
    home = λ j. elim (Bool-cases (slot old m k == j)) [
      | inl same ↦
          let e : slot old m k ≡ j = (==_iff _ j).0 same in
          subst (λ t. IsHome new m.n_buckets t (get_or (set m.buckets (slot old m k) []) t [])) e
            (subst (IsHome new m.n_buckets (slot old m k))
              (sym (get_or-set_self m.buckets (slot old m k) [] [] (slot-lt old m z k))) tt)
      | inr other ↦
          subst (IsHome new m.n_buckets j)
            (sym (get_or-set_ne m.buckets (slot old m k) j [] [] (λ e. ground (arith, e, other))))
            (IsHome-agree old new m.n_buckets j same_hash same_cmp
              (λ x k' r h. agree x k' r (λ e. ground (arith, h, e, other))) (get_or m.buckets j [])
              (w.home j))
    ];
  }

  pub get-emptied :
      (j : Key)
      → hash_map_get new emptied j
        ≡ (if slot old m k == slot old m j then ok none else hash_map_get old m j)
  unfolding hash_map_get find_entry
  get-emptied j = elim (Bool-cases (slot old m k == slot old m j)) [
    | inl same ↦
        let e : slot new m j ≡ slot old m k =
          ap (λ x. x % m.n_buckets) (same_hash j) ∙ sym ((==_iff _ _).0 same) in
        let gone : get_or (set m.buckets (slot old m k) []) (slot new m j) [] ≡ [] =
          ap (λ x. get_or (set m.buckets (slot old m k) []) x []) e
          ∙ get_or-set_self m.buckets (slot old m k) [] [] (slot-lt old m z k) in
        rw (z.some_bucket, gone, same)
    | inr other ↦ ground (
      arith,
      z.some_bucket,
      same_hash j,
      get_or-set_ne m.buckets (slot old m k) (slot old m j) [] [],
      find_entry-agree old new m.n_buckets (slot old m j) same_hash same_cmp
          (λ x k' r h. agree x k' r (λ e. ground (arith, h, e, other)))
          (get_or m.buckets (slot old m j) []) j (w.home (slot old m j)),
    )
  ]
