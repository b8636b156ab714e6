-- ===== src/HashMap.antt =====
-- utils/hash_map.h and utils/hash_map.c: a chained hash map whose keys are pointers. `read` gives
-- the key behind a pointer, or `none` for a dangling one, which a comparison must not follow.
-- Allocation is taken to succeed. A call that frees an entry returns the value that `free_value`
-- is applied to; `free_key` is the library's no-op in every map of the program.
pub mod Chain
pub mod Laws
pub mod Placed
pub mod Whole
use file_storage_server.Base.{
  ℕ, zero, suc, ◌+◌, ◌%◌, Bool, Option, none, some, List, [], ◌∷◌, ◌==◌, if◌then◌else◌, get_or, set,
  replicate, ltb, leb, length, map, ◌++◌,
}
use file_storage_server.Base.Int.{ℤ, pos, negsuc, ◌+ℤ◌, ◌-ℤ◌}
use file_storage_server.Outcome.{Outcome, ok, fault, blocked, and_then}

pub record Entry (K V : Type 0) : Type 0 where
  pub key : K
  pub value : V

pub record HashMap (K V : Type 0) : Type 0 where
  pub n_buckets : ℕ
  pub n_entries : ℤ
  pub buckets : List (List (Entry K V))

-- What `hash_map_create` is given, and how a key pointer is followed.
pub record KeyOps (K Key : Type 0) : Type 0 where
  pub read : K → Option Key
  pub hash_function : Key → ℕ
  pub key_cmp : Key → Key → Bool

unfoldable pub hash_map_create : {K V : Type 0} → ℕ → HashMap K V
hash_map_create n = record { n_buckets = n; n_entries = pos 0; buckets = replicate n [] }

-- `entry->value`, or NULL where the walk found no entry.
abbrev pub value_of : {K V : Type 0} → Outcome (Option (Entry K V)) → Outcome (Option V)
value_of (ok none) = ok none
value_of (ok (some entry)) = ok (some entry.value)
value_of fault = fault
value_of blocked = blocked

module _ {K Key V : Type 0} (env : KeyOps K Key) where
  -- `hash_function(key) % n_buckets`
  abbrev pub slot : HashMap K V → Key → ℕ
  slot m key = env.hash_function key % m.n_buckets

  abbrev pub bucket : HashMap K V → Key → List (Entry K V)
  bucket m key = get_or m.buckets (slot m key) []

  -- The loop of `hash_map_get`, over the entries that it has not reached.
  unfoldable pub find_entry : List (Entry K V) → Key → Outcome (Option (Entry K V))
  find_entry [] key = ok none
  find_entry (entry ∷ rest) key =
      let more = find_entry rest key in
      elim (env.read entry.key) [
        | none ↦ fault
        | some k ↦ if env.key_cmp k key then ok (some entry) else more
      ]

  unfoldable pub hash_map_get : HashMap K V → Key → Outcome (Option V)
  hash_map_get m key = if m.n_buckets == 0 then fault else value_of (find_entry (bucket m key) key)

  -- The loop of `hash_map_insert` and the write that follows it: a value is replaced, or an entry
  -- is linked behind the last one.
  unfoldable pub write_entry : List (Entry K V) → K → V → Key → Outcome (List (Entry K V))
  write_entry [] key value k = ok (record { key = key; value = value } ∷ [])
  write_entry (entry ∷ rest) key value k =
      let more = and_then (write_entry rest key value k) (λ rest'. ok (entry ∷ rest')) in
      elim (env.read entry.key) [
        | none ↦ fault
        | some k' ↦ if env.key_cmp k' k then ok (record entry { value = value } ∷ rest) else more
      ]

  -- `n_entries` goes up by one on a replacement too.
  unfoldable pub hash_map_insert : HashMap K V → K → V → Outcome (HashMap K V)
  hash_map_insert m key value = elim (env.read key) [
    | none ↦ fault
    | some k ↦
        if m.n_buckets == 0
        then fault
        else and_then (write_entry (bucket m k) key value k) (λ b.
          ok (record m { n_entries = m.n_entries +ℤ pos 1; buckets = set m.buckets (slot m k) b }))
  ]

  -- After the entry is unlinked the code stores NULL as the bucket, and the chain is lost.
  unfoldable pub hash_map_remove : HashMap K V → Key → Outcome (Option V × HashMap K V)
  hash_map_remove m key =
      if m.n_buckets == 0
      then fault
      else and_then (find_entry (bucket m key) key) (λ found. elim found [
        | none ↦ ok (none, m)
        | some entry ↦ ok (
          some entry.value,
          record m { n_entries = m.n_entries -ℤ pos 1; buckets = set m.buckets (slot m key) [] },
        )
      ])

  -- What `print_key` and `print_value` get for the entries of a bucket.
  unfoldable pub print_entries : List (Entry K V) → Outcome (List (Key × V))
  print_entries [] = ok []
  print_entries (entry ∷ rest) =
      let more = print_entries rest in
      elim (env.read entry.key) [
        | none ↦ fault
        | some k ↦ and_then more (λ lines. ok ((k, entry.value) ∷ lines))
      ]

module _ {K V : Type 0} where
  -- The entries that a loop over `n` buckets meets, where it does not leave the array.
  unfoldable pub entries_of : ℕ → List (List (Entry K V)) → Outcome (List (Entry K V))
  entries_of zero buckets = ok []
  entries_of (suc n) [] = fault
  entries_of (suc n) (chain ∷ buckets) =
      and_then (entries_of n buckets) (λ entries. ok (chain ++ entries))

  -- `hash_map_destroy`: the values that `free_value` is applied to, in order.
  unfoldable pub hash_map_destroy : HashMap K V → Outcome (List V)
  unfolding entries_of
  hash_map_destroy m =
      and_then (entries_of m.n_buckets m.buckets) (λ entries. ok (map (λ e. e.value) entries))

  -- The index `n_buckets` passes the test, and is read behind the array.
  unfoldable pub hash_map_get_entry : HashMap K V → ℤ → Outcome (List (Entry K V))
  hash_map_get_entry m (negsuc n) = ok []
  hash_map_get_entry m (pos index) =
      if ltb m.n_buckets index
      then ok []
      else if leb (length m.buckets) index
      then fault
      else ok (get_or m.buckets index [])

-- `hash_map_dump`: the pairs that are printed.
unfoldable pub hash_map_dump :
    {K Key V : Type 0} → KeyOps K Key → HashMap K V → Outcome (List (Key × V))
unfolding entries_of print_entries
hash_map_dump env m = and_then (entries_of m.n_buckets m.buckets) (print_entries env)
