-- ===== src/LinkedList/Remove.antt =====
-- `list_remove_head`, `list_remove_tail` and `list_remove_element` against sequences.
use file_storage_server.Base.{
  ℕ, suc, ◌<◌, ◌≡◌, refl, sym, subst, ◌∙◌, ap, ◌≢◌, Bool, true, false, Option, none, some, List, [],
  ◌∷◌, arith, ◌==◌, if◌then◌else◌, length, map, inl, inr, Bool-cases,
}
use file_storage_server.Base.Int.{ℤ, pos, negsuc}
use file_storage_server.LinkedList.{
  Ptr, Node, LinkedList, last_addr, list_remove_head, unlink, tail_after, list_remove_element,
}
use file_storage_server.LinkedList.Chain.{contents, has, IsDistinct, IsWf, last-cons}

-- The first entry of a sequence, and what follows it.
abbrev pub first {ℓ} : {A : Type ℓ} → List A → Option A
first [] = none
first (x ∷ xs) = some x

abbrev pub rest {ℓ} : {A : Type ℓ} → List A → List A
rest [] = []
rest (x ∷ xs) = xs

-- The first entry that compares equal, and the sequence without it.
abbrev pub find_by {ℓ} : {A : Type ℓ} → (A → A → Bool) → List A → A → Option A
find_by cmp [] x = none
find_by cmp (y ∷ ys) x = if cmp y x then some y else find_by cmp ys x

abbrev pub erase_by {ℓ} : {A : Type ℓ} → (A → A → Bool) → List A → A → List A
erase_by cmp [] x = []
erase_by cmp (y ∷ ys) x = if cmp y x then ys else y ∷ erase_by cmp ys x

module _ {A : Type 0} where
  remove_head-chain :
      (n : ℕ) (tail : Option Ptr) (ns : List (Node A))
      → let l : LinkedList A = record { length = n; chain = ns; tail = tail } in
        IsWf l
        → (list_remove_head l).0 ≡ first (contents l)
          × (contents (list_remove_head l).1 ≡ rest (contents l))
          × IsWf (list_remove_head l).1
  unfolding list_remove_head
  remove_head-chain n tail [] w = (refl, refl, w)
  remove_head-chain n tail (x ∷ []) w =
      let e₀ : (n == 0) ≡ false = ground (arith, w.counted) in
      let e₁ : (n == 1) ≡ true = ground (arith, w.counted) in
      rw (e₀, e₁)
        (
          refl,
          refl,
          record {
            counted = omega (arith, w.counted);
            ends = λ ne. absurd (ne refl);
            distinct = tt;
          },
        )
  remove_head-chain n tail (x ∷ y ∷ ns) w =
      let e₀ : (n == 0) ≡ false = ground (arith, w.counted) in
      let e₁ : (n == 1) ≡ false = ground (arith, w.counted) in
      rw (e₀, e₁)
        (
          refl,
          refl,
          record {
            counted = omega (arith, w.counted);
            ends = λ _. w.ends (λ e. cc) ∙ last-cons x (y ∷ ns) (omega arith);
            distinct = w.distinct.1;
          },
        )

  -- On a well-formed list `list_remove_head` returns the first entry, or NULL if there is none, and
  -- leaves a well-formed list of the others.
  pub remove_head-first :
      (l : LinkedList A)
      → IsWf l
      → ((list_remove_head l).0 ≡ first (contents l))
        × (contents (list_remove_head l).1 ≡ rest (contents l))
        × IsWf (list_remove_head l).1
  remove_head-first l w = remove_head-chain l.length l.tail l.chain w

module _ {A : Type 0} (cmp : A → A → Bool) (x : A) where
  hits_first : List (Node A) → Bool
  hits_first [] = false
  hits_first (n ∷ ns) = cmp n.content x

  -- What `unlink` gives for a chain.
  abbrev Unlinked : List (Node A) → Option (A × List (Node A) × Bool) → Type 0
  Unlinked ns none =
      (find_by cmp (map (λ n. n.content) ns) x ≡ none)
      × (erase_by cmp (map (λ n. n.content) ns) x ≡ map (λ n. n.content) ns)
  Unlinked ns (some (a, ns', last)) =
      (find_by cmp (map (λ n. n.content) ns) x ≡ some a)
      × (map (λ n. n.content) ns' ≡ erase_by cmp (map (λ n. n.content) ns) x)
      × (length ns ≡ suc (length ns'))
      × ((p : Ptr) → has p ns ≡ false → has p ns' ≡ false)
      × (IsDistinct ns → IsDistinct ns')
      × (last ≡ false → (0 < length ns') × (last_addr ns' ≡ last_addr ns))
      × (last ≡ true → hits_first ns ≡ true → ns' ≡ [])

  Unlinked-hit :
      (n : Node A) (ns : List (Node A))
      → cmp n.content x ≡ true
      → Unlinked (n ∷ ns) (some (n.content, ns, elim ns [ [] ↦ true | n' ∷ ns' ↦ false ]))
  unfolding hits_first
  Unlinked-hit n [] hit =
      (rw hit, rw hit, refl, λ p h. refl, λ d. tt, λ e. absurd (ground (arith, e)), λ _ _. refl)
  Unlinked-hit n (m ∷ ns) hit = (
    rw hit,
    rw hit,
    refl,
    λ p h. ground arith,
    λ d. d.1,
    λ e. (omega arith, sym (last-cons n (m ∷ ns) (omega arith))),
    λ e _. absurd (ground (arith, e)),
  )

  Unlinked-miss :
      (n : Node A) (ns : List (Node A)) (o : Option (A × List (Node A) × Bool))
      → cmp n.content x ≡ false
      → Unlinked ns o
      → Unlinked (n ∷ ns) (elim o [ none ↦ none | some (a, ns', last) ↦ some (a, n ∷ ns', last) ])
  unfolding hits_first
  Unlinked-miss n ns none miss (f, e) = (rw miss f, rw miss (ap (λ t. n.content ∷ t) e))
  Unlinked-miss n ns (some (a, ns', last)) miss (f, e, len, out, dist, inner, sole) = (
    rw miss f,
    rw miss (ap (λ t. n.content ∷ t) e),
    omega arith,
    λ p h. ground (arith, out p),
    λ d. (out n.addr d.0, dist d.1),
    λ h.
        let (some_left, same) = inner h in
        (omega arith, last-cons n ns' some_left ∙ same ∙ sym (last-cons n ns (omega arith))),
    λ _ h. absurd (ground (arith, h, miss)),
  )

  abbrev step : Node A → List (Node A) → Bool → Option (A × List (Node A) × Bool)
  step n ns b =
      if b
      then some (n.content, ns, elim ns [ [] ↦ true | n' ∷ ns' ↦ false ])
      else elim (unlink cmp ns x) [ none ↦ none | some (a, ns', last) ↦ some (a, n ∷ ns', last) ]

  unlink-Unlinked : (ns : List (Node A)) → Unlinked ns (unlink cmp ns x)
  unfolding unlink
  unlink-Unlinked [] = (refl, refl)
  unlink-Unlinked (n ∷ ns) = elim (Bool-cases (cmp n.content x)) [
    | inl hit ↦ subst (λ b. Unlinked (n ∷ ns) (step n ns b)) (sym hit) (Unlinked-hit n ns hit)
    | inr miss ↦
        subst (λ b. Unlinked (n ∷ ns) (step n ns b)) (sym miss)
          (Unlinked-miss n ns (unlink cmp ns x) miss (unlink-Unlinked ns))
  ]

  tail-ends :
      (n : ℕ) (tail : Option Ptr) (ns ns' : List (Node A)) (last : Bool)
      → (ns ≢ [] → tail ≡ last_addr ns)
      → (last ≡ false → (0 < length ns') × (last_addr ns' ≡ last_addr ns))
      → (last ≡ true → hits_first ns ≡ true → ns' ≡ [])
      → length ns ≡ suc (length ns')
      → ns' ≢ []
      → tail_after cmp (record { length = n; chain = ns; tail = tail }) x ns' last ≡ last_addr ns'
  unfolding tail_after hits_first
  tail-ends n tail [] ns' last ends inner sole len ne = absurd (omega (arith, len))
  tail-ends n tail (m ∷ ms) ns' true ends inner sole len ne = elim (Bool-cases (cmp m.content x)) [
    | inl hit ↦ absurd (ne (sole refl hit))
    | inr miss ↦ rw miss
  ]
  tail-ends n tail (m ∷ ms) ns' false ends inner sole len ne = elim (Bool-cases (cmp m.content x)) [
    | inl hit ↦ rw hit (ends (λ e. cc) ∙ sym (inner refl).1)
    | inr miss ↦ rw miss (ends (λ e. cc) ∙ sym (inner refl).1)
  ]

  -- What `list_remove_element` returns and leaves, for what `unlink` gives.
  abbrev pub Removed : LinkedList A → ℤ × Option A × LinkedList A → Type 0
  Removed l (code, freed, l') =
      (freed ≡ find_by cmp (contents l) x)
      × (code ≡ (elim (find_by cmp (contents l) x) [ none ↦ negsuc 0 | some a ↦ pos 0 ]))
      × (contents l' ≡ erase_by cmp (contents l) x)
      × IsWf l'

  -- On a well-formed list `list_remove_element` frees the first entry that compares equal, leaves a
  -- well-formed list of the others in their order, and returns 0; with no such entry it returns -1
  -- and leaves the list as it is.
  pub remove_element-erase : (l : LinkedList A) → IsWf l → Removed l (list_remove_element cmp l x)
  unfolding list_remove_element
  remove_element-erase l w = go (unlink cmp l.chain x) refl (unlink-Unlinked l.chain)
    where
      go :
          (o : Option (A × List (Node A) × Bool))
          → unlink cmp l.chain x ≡ o
          → Unlinked l.chain o
          → Removed l (list_remove_element cmp l x)
      go none e (f, same) = rw (e, list_remove_element) (sym f, rw f, sym same, w)
      go (some (a, chain', last)) e (f, same, len, out, dist, inner, sole) =
          rw (e, list_remove_element)
            (
              sym f,
              rw f,
              same,
              record {
                counted = omega (arith, w.counted, len);
                ends = tail-ends l.length l.tail l.chain chain' last w.ends inner sole len;
                distinct = dist w.distinct;
              },
            )
