-- ===== src/LinkedList/Search.antt =====
-- `list_find` and `list_remove_tail`.
use file_storage_server.Base.{
  ℕ, suc, ◌+◌, ◌-◌, ◌<◌, ◌≡◌, refl, ap, ◌≢◌, subst, ◌∙◌, ◌⊎◌, inl, inr, true, false, Option, none,
  some, List, [], ◌∷◌, ◌++◌, arith, ◌==◌, length, length-append, map, map-append, Bool, Bool-cases,
  take,
}
use file_storage_server.Base.Int.{pos, negsuc}
use file_storage_server.Outcome.{ok}
use file_storage_server.LinkedList.{
  Ptr, Node, LinkedList, last_addr, split_last, list_remove_tail, find_from, list_find,
}
use file_storage_server.LinkedList.Chain.{contents, has, IsDistinct, IsWf}
use file_storage_server.LinkedList.Remove.{find_by}

module _ {A : Type 0} (cmp : A → A → Bool) (x : A) where
  -- The index at which a walk from `from` stops.
  find_from-find_by :
      (from : ℕ) (ns : List (Node A))
      → ((find_from cmp from ns x ≡ negsuc 0) × (find_by cmp (map (λ n. n.content) ns) x ≡ none))
        ⊎ ((i : ℕ) × (find_from cmp from ns x ≡ pos (from + i))
            × (i < length ns)
            × (find_by cmp (take i (map (λ n. n.content) ns)) x ≡ none)
            × (find_by cmp (take (suc i) (map (λ n. n.content) ns)) x
                ≡ find_by cmp (map (λ n. n.content) ns) x)
            × (find_by cmp (map (λ n. n.content) ns) x ≢ none))
  unfolding find_from
  find_from-find_by from [] = inl (refl, refl)
  find_from-find_by from (n ∷ ns) = elim (Bool-cases (cmp n.content x)) [
    | inl hit ↦ inr (0, rw hit (ap pos (omega arith)), omega arith, refl, rw hit, rw hit (λ e. cc))
    | inr miss ↦ elim (find_from-find_by (from + 1) ns) [
      | inl (e, f) ↦ inl (rw miss e, rw miss f)
      | inr (i, e, lt, before, upto, found) ↦ inr (
        suc i,
        rw miss (e ∙ ap pos (omega arith)),
        omega arith,
        rw miss before,
        rw miss upto,
        rw miss found,
      )
    ]
  ]

  -- `list_find` returns -1 exactly when no entry compares equal, and otherwise the index of the
  -- first entry that does.
  pub find-first :
      (l : LinkedList A)
      → ((list_find cmp l x ≡ negsuc 0) × (find_by cmp (contents l) x ≡ none))
        ⊎ ((i : ℕ) × (list_find cmp l x ≡ pos i)
            × (i < length l.chain)
            × (find_by cmp (take i (contents l)) x ≡ none)
            × (find_by cmp (take (suc i) (contents l)) x ≡ find_by cmp (contents l) x)
            × (find_by cmp (contents l) x ≢ none))
  unfolding list_find
  find-first l = elim (find_from-find_by 0 l.chain) [
    | inl (e, f) ↦ inl (e, f)
    | inr (i, e, lt, before, upto, found) ↦
        inr (i, e ∙ ap pos (omega arith), lt, before, upto, found)
  ]

module _ {A : Type 0} where
  -- The parts of a chain that `split_last` gives.
  split-append :
      (n : Node A) (ns : List (Node A)) → n ∷ ns ≡ (split_last n ns).0 ++ (split_last n ns).1 ∷ []
  unfolding split_last
  split-append n [] = refl
  split-append n (m ∷ ns) = ap (λ t. n ∷ t) (split-append m ns)

  IsDistinct-front : (ns ms : List (Node A)) → IsDistinct (ns ++ ms) → IsDistinct ns
  IsDistinct-front [] ms d = tt
  IsDistinct-front (n ∷ ns) ms d = (out n.addr ns (d.0), IsDistinct-front ns ms d.1)
    where
      out : (p : Ptr) (xs : List (Node A)) → has p (xs ++ ms) ≡ false → has p xs ≡ false
      out p [] h = refl
      out p (y ∷ ys) h = ground (arith, out p ys)

  remove_tail-chain :
      (size : ℕ) (tail : Option Ptr) (n : Node A) (ns : List (Node A))
      → let l : LinkedList A = record { length = size; chain = n ∷ ns; tail = tail } in
        IsWf l
        → (x : A) × (xs : List A) × (l' : LinkedList A) × (list_remove_tail l ≡ ok (some x, l'))
          × (contents l ≡ xs ++ x ∷ [])
          × (contents l' ≡ xs)
          × IsWf l'
  unfolding list_remove_tail
  remove_tail-chain size tail n [] w =
      let e₀ : (size == 0) ≡ false = ground (arith, w.counted) in
      let e₁ : (size == 1) ≡ true = ground (arith, w.counted) in
      (
        n.content,
        [],
        record { length = size - 1; chain = []; tail = none },
        rw (e₀, e₁),
        refl,
        refl,
        record { counted = omega (arith, w.counted); ends = λ ne. absurd (ne refl); distinct = tt },
      )
  remove_tail-chain size tail n (m ∷ ms) w =
      let e₀ : (size == 0) ≡ false = ground (arith, w.counted) in
      let e₁ : (size == 1) ≡ false = ground (arith, w.counted) in
      let front : List (Node A) = (split_last n (m ∷ ms)).0 in
      let last : Node A = (split_last n (m ∷ ms)).1 in
      let parts : n ∷ m ∷ ms ≡ front ++ last ∷ [] = split-append n (m ∷ ms) in
      (
        last.content,
        map (λ n'. n'.content) front,
        record { length = size - 1; chain = front; tail = last_addr front },
        rw (e₀, e₁),
        ap (map (λ n'. n'.content)) parts ∙ map-append (λ n'. n'.content) front (last ∷ []),
        refl,
        record {
          counted = omega (arith, w.counted, ap length parts, length-append front (last ∷ []));
          ends = λ _. refl;
          distinct = IsDistinct-front front (last ∷ []) (subst IsDistinct parts w.distinct);
        },
      )

  -- On a well-formed list that is not empty `list_remove_tail` returns the last entry and leaves a
  -- well-formed list of the others; on an empty one it returns NULL.
  pub remove_tail-last :
      (l : LinkedList A)
      → IsWf l
      → (0 < l.length
          → (x : A) × (xs : List A) × (l' : LinkedList A) × (list_remove_tail l ≡ ok (some x, l'))
            × (contents l ≡ xs ++ x ∷ [])
            × (contents l' ≡ xs)
            × IsWf l')
        × (l.length ≡ 0 → list_remove_tail l ≡ ok (none, l))
  unfolding list_remove_tail
  remove_tail-last l w = go l.length l.tail l.chain w
    where
      go :
          (size : ℕ) (tail : Option Ptr) (ns : List (Node A))
          → let l' : LinkedList A = record { length = size; chain = ns; tail = tail } in
            IsWf l'
            → (0 < size
                → (x : A) × (xs : List A) × (l'' : LinkedList A) × (list_remove_tail l'
                    ≡ ok (some x, l''))
                  × (contents l' ≡ xs ++ x ∷ [])
                  × (contents l'' ≡ xs)
                  × IsWf l'')
              × (size ≡ 0 → list_remove_tail l' ≡ ok (none, l'))
      go size tail [] v = (λ h. absurd (omega (arith, v.counted)), λ h. refl)
      go size tail (n ∷ ns) v =
          (λ h. remove_tail-chain size tail n ns v, λ h. absurd (omega (arith, v.counted)))
