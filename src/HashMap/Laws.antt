-- ===== src/HashMap/Laws.antt =====
-- What a lookup finds after `hash_map_create`, `hash_map_insert` and `hash_map_remove`.
use file_storage_server.Base.{
  ℕ, ◌%◌, ◌<◌, ◌≡◌, ◌↔◌, inl, inr, true, false, Option, none, some, List, [], arith, ◌==◌,
  if◌then◌else◌, get_or, set, length, length-set, length-replicate, get_or-set_self, get_or-set_ne,
  set-get_or, get_or-replicate, Bool-cases, Option-cases, ==_iff,
}
use file_storage_server.Base.Int.{pos, ◌+ℤ◌, ◌-ℤ◌}
use file_storage_server.Outcome.{ok, Outcome-cases}
use file_storage_server.HashMap.{
  Entry, HashMap, KeyOps, slot, value_of, find_entry, write_entry, hash_map_create, hash_map_get,
  hash_map_insert, hash_map_remove,
}
use file_storage_server.HashMap.Chain.{write-find, write-total, find-write, find_entry_mono}

-- The array has as many buckets as `n_buckets` says, and at least one.
pub record IsSized {K V : Type 0} (m : HashMap K V) : Type 0 where
  pub some_bucket : (m.n_buckets == 0) ≡ false
  pub sized : length m.buckets ≡ m.n_buckets

pub create-IsSized : {K V : Type 0} (n : ℕ) → 0 < n → IsSized {K = K} {V = V} (hash_map_create n)
unfolding hash_map_create
create-IsSized n h = record { some_bucket = ground arith; sized = length-replicate n [] }

-- A new map finds nothing.
pub get-create :
    {K Key V : Type 0} (env : KeyOps K Key) (n : ℕ) (key : Key)
    → 0 < n
    → hash_map_get env (hash_map_create {K = K} {V = V} n) key ≡ ok none
unfolding hash_map_get hash_map_create find_entry
get-create {K} {V} env n key h =
    let e : (n == 0) ≡ false = ground arith in
    ground (arith, e, get_or-replicate {A = List (Entry K V)} n (env.hash_function key % n) [])

module _ {K Key V : Type 0} (env : KeyOps K Key) (m : HashMap K V) (z : IsSized m) where
  pub slot-lt : (key : Key) → slot env m key < length m.buckets
  slot-lt key = ground (arith, z.sized)

  pub get-eq-find :
      (key : Key)
      → hash_map_get env m key
        ≡ value_of (find_entry env (get_or m.buckets (slot env m key) []) key)
  unfolding hash_map_get
  get-eq-find key = rw z.some_bucket

  -- Inserting the value that a lookup finds leaves the buckets alone, but counts an entry.
  pub insert-get :
      (key : Key) (p : K) (v : V)
      → env.read p ≡ some key
      → hash_map_get env m key ≡ ok (some v)
      → hash_map_insert env m p v ≡ ok (record m { n_entries = m.n_entries +ℤ pos 1 })
  unfolding hash_map_insert
  insert-get key p v r g = elim (Outcome-cases (find_entry env chain key)) [
    | inl (none, e) ↦ absurd (ground (arith, g, get-eq-find key, e))
    | inl (some x, e) ↦ ground (
      arith,
      z.some_bucket,
      get-eq-find key,
      write-find env chain key p x e,
      set-get_or m.buckets (slot env m key) [],
    )
    | inr other ↦ absurd (ground (arith, g, get-eq-find key))
  ]
    where
      chain : List (Entry K V)
      chain = get_or m.buckets (slot env m key) []

  pub insert-total :
      (key : Key) (p : K) (v : V) (r : Option V)
      → env.read p ≡ some key
      → hash_map_get env m key ≡ ok r
      → (m' : HashMap K V) × (hash_map_insert env m p v ≡ ok m')
  unfolding hash_map_insert
  insert-total key p v r e g = elim (Outcome-cases (find_entry env chain key)) [
    | inl (x, h) ↦
        let (b, q) = write-total env chain key p v x h in
        (
          record m { n_entries = m.n_entries +ℤ pos 1; buckets = set m.buckets (slot env m key) b },
          ground (arith, z.some_bucket, q),
        )
    | inr other ↦ absurd (ground (arith, g, get-eq-find key))
  ]
    where
      chain : List (Entry K V)
      chain = get_or m.buckets (slot env m key) []

  -- What `hash_map_remove` does to a key that a lookup finds: its whole bucket is emptied.
  pub remove-get :
      (key : Key) (v : V)
      → hash_map_get env m key ≡ ok (some v)
      → hash_map_remove env m key
        ≡ ok (
          some v,
          record m {
            n_entries = m.n_entries -ℤ pos 1;
            buckets = set m.buckets (slot env m key) [];
          },
        )
  unfolding hash_map_remove hash_map_get
  remove-get key v g = ground (arith, g, z.some_bucket)

  pub remove-get_none :
      (key : Key) → hash_map_get env m key ≡ ok none → hash_map_remove env m key ≡ ok (none, m)
  unfolding hash_map_remove hash_map_get
  remove-get_none key g = ground (arith, g, z.some_bucket)

  -- In a map with buckets whose comparison decides equality, after an insertion at a live key
  -- pointer that returns: a lookup of that key gives the new value, and every other lookup what it
  -- gave.
  pub get-insert :
      (k j : Key) (p : K) (v : V) (m' : HashMap K V)
      → ((a b : Key) → (env.key_cmp a b ≡ true) ↔ (a ≡ b))
      → env.read p ≡ some k
      → hash_map_insert env m p v ≡ ok m'
      → hash_map_get env m' j ≡ (if env.key_cmp k j then ok (some v) else hash_map_get env m j)
  unfolding hash_map_insert hash_map_get
  get-insert k j p v m' cmp_iff r h = elim (Outcome-cases (write_entry env chain p v k)) [
    | inl (b, w) ↦ elim (Bool-cases (slot env m k == slot env m j)) [
      | inl same ↦
          let e : slot env m k ≡ slot env m j = (==_iff _ _).0 same in
          ground (
            arith,
            z.some_bucket,
            w,
            e,
            find-write env cmp_iff chain k j p v b r w,
            get_or-set_self m.buckets (slot env m k) b [] (slot-lt k),
          )
      | inr other ↦ ground (
        arith,
        z.some_bucket,
        w,
        cmp_iff k j,
        get_or-set_ne m.buckets (slot env m k) (slot env m j) b [],
      )
    ]
    | inr other ↦ absurd (ground (arith, z.some_bucket))
  ]
    where
      chain : List (Entry K V)
      chain = get_or m.buckets (slot env m k) []

  -- In a map with buckets, after a removal that found a value: a lookup of any key of the same
  -- bucket finds nothing, that of a key of another bucket gives what it gave.
  pub get-remove :
      (k j : Key) (v : V) (m' : HashMap K V)
      → hash_map_remove env m k ≡ ok (some v, m')
      → hash_map_get env m' j
        ≡ (if slot env m k == slot env m j then ok none else hash_map_get env m j)
  unfolding hash_map_remove hash_map_get find_entry
  get-remove k j v m' h = elim (Outcome-cases (find_entry env chain k)) [
    | inl (some x, e) ↦ elim (Bool-cases (slot env m k == slot env m j)) [
      | inl same ↦ ground (
        arith,
        z.some_bucket,
        get_or-set_self m.buckets (slot env m k) [] [] (slot-lt k),
        get_or-set_self m.buckets (slot env m j) [] [] (slot-lt j),
      )
      | inr other ↦
          ground (arith, z.some_bucket, get_or-set_ne m.buckets (slot env m k) (slot env m j) [] [])
    ]
    | inl (none, e) ↦ absurd (ground (arith, z.some_bucket))
    | inr other ↦ absurd (ground (arith, z.some_bucket))
  ]
    where
      chain : List (Entry K V)
      chain = get_or m.buckets (slot env m k) []

  pub insert-IsSized :
      (p : K) (v : V) (m' : HashMap K V) → hash_map_insert env m p v ≡ ok m' → IsSized m'
  unfolding hash_map_insert
  insert-IsSized p v m' h = elim (Option-cases (env.read p)) [
    | inl e ↦ absurd (ground arith)
    | inr (k, e) ↦
        let chain : List (Entry K V) = get_or m.buckets (slot env m k) [] in
        elim (Outcome-cases (write_entry env chain p v k)) [
          | inl (b, w) ↦ record {
            some_bucket = ground (arith, z.some_bucket);
            sized = ground (arith, z.some_bucket, z.sized, length-set m.buckets (slot env m k) b);
          }
          | inr other ↦ absurd (ground (arith, z.some_bucket))
        ]
  ]

  pub remove-IsSized :
      (k : Key) (r : Option V) (m' : HashMap K V)
      → hash_map_remove env m k ≡ ok (r, m')
      → IsSized m'
  unfolding hash_map_remove
  remove-IsSized k r m' h = record {
    some_bucket = ground (arith, z.some_bucket);
    sized = ground (arith, z.some_bucket, z.sized, length-set m.buckets (slot env m k) []);
  }

-- A lookup that succeeds does so, with the same result, when more pointers are live.
pub get_mono :
    {K Key V : Type 0} (old new : KeyOps K Key) (m : HashMap K V) (key : Key) (r : Option V)
    → IsSized m
    → new.hash_function key ≡ old.hash_function key
    → ((a b : Key) → new.key_cmp a b ≡ old.key_cmp a b)
    → ((p : K) (k : Key) → old.read p ≡ some k → new.read p ≡ some k)
    → hash_map_get old m key ≡ ok r
    → hash_map_get new m key ≡ ok r
unfolding hash_map_get
get_mono {K} {V} old new m key r z same_hash cmp_same read_more h =
    elim (Outcome-cases (find_entry old chain key)) [
      | inl (x, e) ↦ ground (
        arith,
        z.some_bucket,
        same_hash,
        find_entry_mono old new cmp_same read_more chain key x e,
      )
      | inr other ↦ absurd (ground (arith, z.some_bucket))
    ]
  where
    chain : List (Entry K V)
    chain = get_or m.buckets (slot old m key) []
