-- ===== src/HashMap/Whole.antt =====
-- The calls of utils/hash_map.c that go through a whole map.
use file_storage_server.Base.{
  ℕ, zero, suc, ◌≡◌, refl, sym, none, some, List, [], ◌∷◌, ◌++◌, map, length, arith, IsIn, here,
  there, left-IsIn, right-IsIn, map-IsIn, subst, inl, inr, Bool-cases, Option-cases, get_or,
  replicate,
}
use file_storage_server.Outcome.{ok, Outcome-cases}
use file_storage_server.HashMap.{
  Entry, HashMap, KeyOps, slot, find_entry, entries_of, hash_map_create, hash_map_get,
  hash_map_destroy,
}
use file_storage_server.HashMap.Laws.{IsSized, get-eq-find}

module _ {K V : Type 0} where
  entries-total :
      (n : ℕ) (buckets : List (List (Entry K V)))
      → length buckets ≡ n
      → (es : List (Entry K V)) × (entries_of n buckets ≡ ok es)
        × ((i : ℕ) (e : Entry K V) → IsIn e (get_or buckets i []) → IsIn e es)
  unfolding entries_of
  entries-total zero [] h = ([], refl, λ i e m. m)
  entries-total zero (b ∷ bs) h = absurd (omega (arith, h))
  entries-total (suc n) [] h = absurd (omega (arith, h))
  entries-total (suc n) (b ∷ bs) h =
      let (es, run, all) = entries-total n bs (omega (arith, h)) in
      (b ++ es, rw (run, entries_of) refl, both es all)
    where
      both :
          (es : List (Entry K V))
          → ((i : ℕ) (e : Entry K V) → IsIn e (get_or bs i []) → IsIn e es)
          → (i : ℕ) (e : Entry K V) → IsIn e (get_or (b ∷ bs) i [])
          → IsIn e (b ++ es)
      both es all zero e m = left-IsIn es m
      both es all (suc i) e m = right-IsIn b (all i e m)

  find-IsIn :
      {Key : Type 0} (env : KeyOps K Key) (es : List (Entry K V)) (key : Key) (x : Entry K V)
      → find_entry env es key ≡ ok (some x)
      → IsIn x es
  unfolding find_entry
  find-IsIn env [] key x h = absurd (ground arith)
  find-IsIn env (e ∷ es) key x h = elim (Option-cases (env.read e.key)) [
    | inl dangling ↦ absurd (ground arith)
    | inr (k, q) ↦ elim (Bool-cases (env.key_cmp k key)) [
      | inl hit ↦
          let same : x ≡ e = ground (arith, h, q, hit) in
          subst (λ t. IsIn t (e ∷ es)) (sym same) here
      | inr miss ↦ there (find-IsIn env es key x (ground (arith, h, q, miss)))
    ]
  ]

  -- Where a lookup finds a value, `hash_map_destroy` frees it.
  pub destroy-get :
      {Key : Type 0} (env : KeyOps K Key) (m : HashMap K V) (key : Key) (v : V)
      → IsSized m
      → hash_map_get env m key ≡ ok (some v)
      → (vs : List V) × (hash_map_destroy m ≡ ok vs) × IsIn v vs
  unfolding hash_map_destroy
  destroy-get env m key v z g =
      let (es, run, all) = entries-total m.n_buckets m.buckets z.sized in
      let chain = get_or m.buckets (slot env m key) [] in
      elim (Outcome-cases (find_entry env chain key)) [
        | inl (none, e) ↦ absurd (ground (arith, g, get-eq-find env m z key, e))
        | inl (some x, e) ↦
            let value : x.value ≡ v = ground (arith, g, get-eq-find env m z key, e) in
            (
              map (λ e. e.value) es,
              rw (run, hash_map_destroy) refl,
              subst (λ t. IsIn t (map (λ e. e.value) es)) value
                  (map-IsIn (λ e. e.value) (all (slot env m key) x (find-IsIn env chain key x e))),
            )
        | inr other ↦ absurd (ground (arith, g, get-eq-find env m z key))
      ]

  entries-create : (n : ℕ) → entries_of n (replicate {A = List (Entry K V)} n []) ≡ ok []
  unfolding entries_of
  entries-create zero = refl
  entries-create (suc n) = rw (entries-create n) refl

-- A new map frees nothing.
pub destroy-create :
    (K V : Type 0) (n : ℕ) → hash_map_destroy (hash_map_create {K = K} {V = V} n) ≡ ok []
unfolding hash_map_destroy hash_map_create
destroy-create K V n = rw (entries-create {K = K} {V = V} n) refl
