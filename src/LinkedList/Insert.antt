-- ===== src/LinkedList/Insert.antt =====
-- `list_insert_tail`, `list_insert_head` and `list_insert_at_index` against sequences.
use file_storage_server.Base.{
  ℕ, zero, suc, ◌+◌, ◌<◌, ◌≤◌, ◌≡◌, refl, sym, ◌∙◌, ◌≢◌, false, none, some, List, [], ◌∷◌, ◌++◌,
  arith, ◌==◌, length, length-append, map, map-append, ap, ap₂, take, drop, inl, inr, Bool-cases,
}
use file_storage_server.Base.Int.{pos, negsuc}
use file_storage_server.Outcome.{ok, fault}
use file_storage_server.LinkedList.{
  Ptr, Node, LinkedList, node, link_tail, last_addr, list_create, insert_walk, list_insert_tail,
  list_insert_head, list_insert_at_index,
}
use file_storage_server.LinkedList.Chain.{
  contents, has, IsWf, length-contents, last-cons, last-append, IsDistinct-append, link-last,
}

module _ {A : Type 0} where
  -- The list with a new last node.
  abbrev pub appended : LinkedList A → Ptr → A → LinkedList A
  appended l fresh x = record {
    length = l.length + 1;
    chain = l.chain ++ node fresh x ∷ [];
    tail = some fresh;
  }

  pub create-IsWf : IsWf {A = A} list_create
  unfolding list_create
  create-IsWf = record { counted = refl; ends = λ ne. absurd (ne refl); distinct = tt }

  pub appended-IsWf :
      (l : LinkedList A) (fresh : Ptr) (x : A)
      → IsWf l
      → has fresh l.chain ≡ false
      → IsWf (appended l fresh x)
  appended-IsWf l fresh x w h = record {
    counted = omega (arith, w.counted, length-append l.chain (node fresh x ∷ []));
    ends = λ _. sym (last-append l.chain (node fresh x));
    distinct = IsDistinct-append l.chain (node fresh x) w.distinct h;
  }

  nonempty-last : (ns : List (Node A)) → 0 < length ns → (p : Ptr) × (last_addr ns ≡ some p)
  unfolding last_addr
  nonempty-last [] h = absurd (omega arith)
  nonempty-last (n ∷ []) h = (n.addr, refl)
  nonempty-last (n ∷ n' ∷ ns) h = nonempty-last (n' ∷ ns) (omega arith)

  nonempty-ne : (ns : List (Node A)) → 0 < length ns → ns ≢ []
  nonempty-ne [] h = absurd (omega arith)
  nonempty-ne (n ∷ ns) h = λ e. cc

  link_tail-append :
      (l : LinkedList A) (fresh : Ptr) (x : A)
      → IsWf l
      → 0 < l.length
      → link_tail l (node fresh x) ≡ ok (pos 0, appended l fresh x)
  unfolding link_tail
  link_tail-append l fresh x w h =
      let some_node : 0 < length l.chain = omega (arith, w.counted) in
      let (p, e) = nonempty-last l.chain some_node in
      ground (
        arith,
        e,
        w.ends (nonempty-ne l.chain some_node),
        link-last l.chain p (node fresh x) e w.distinct,
      )

  zero-chain : (ns : List (Node A)) → length ns ≡ 0 → ns ≡ []
  zero-chain [] h = refl
  zero-chain (n ∷ ns) h = absurd (omega arith)

  -- On a well-formed list `list_insert_tail` adds the data at the end and keeps the list well
  -- formed, given a fresh address for the node.
  insert_tail-append :
      (l : LinkedList A) (fresh : Ptr) (x : A)
      → IsWf l
      → has fresh l.chain ≡ false
      → (l' : LinkedList A) × (list_insert_tail l fresh x ≡ ok (pos 0, l'))
        × (contents l' ≡ contents l ++ x ∷ [])
        × IsWf l'
  unfolding list_insert_tail
  insert_tail-append l fresh x w h = (
    appended l fresh x,
    elim (Bool-cases (l.length == 0)) [
      | inl e ↦
          let none_left : l.chain ≡ [] = zero-chain l.chain (ground (arith, w.counted)) in
          ground (arith, none_left)
      | inr e ↦ rw e (link_tail-append l fresh x w (ground arith))
    ],
    map-append (λ n. n.content) l.chain (node fresh x ∷ []),
    appended-IsWf l fresh x w h,
  )

  -- `list_insert_head` puts the data in front, and keeps a list well formed that is not empty.
  insert_head-cons :
      (l : LinkedList A) (fresh : Ptr) (x : A)
      → IsWf l
      → 0 < l.length
      → has fresh l.chain ≡ false
      → (contents (list_insert_head l fresh x).1 ≡ x ∷ contents l)
        × IsWf (list_insert_head l fresh x).1
  unfolding list_insert_head
  insert_head-cons l fresh x w some_data h =
      let some_node : 0 < length l.chain = omega (arith, w.counted) in
      (
        refl,
        record {
          counted = omega (arith, w.counted);
          ends = λ _.
              w.ends (nonempty-ne l.chain some_node)
              ∙ sym (last-cons (node fresh x) l.chain some_node);
          distinct = (h, w.distinct);
        },
      )

  -- On an empty list `list_insert_head` leaves `tail` NULL, and the next `list_insert_tail` writes
  -- through it.
  insert_tail-after_head :
      (l : LinkedList A) (fresh fresh' : Ptr) (x y : A)
      → l.tail ≡ none
      → list_insert_tail (list_insert_head l fresh x).1 fresh' y ≡ fault
  unfolding list_insert_head list_insert_tail link_tail
  insert_tail-after_head l fresh fresh' x y h = ground arith

  walk-take-drop :
      (ns : List (Node A)) (i : ℕ) (new : Node A)
      → map (λ n. n.content) (insert_walk ns i new)
        ≡ take i (map (λ n. n.content) ns) ++ new.content ∷ drop i (map (λ n. n.content) ns)
  unfolding insert_walk
  walk-take-drop ns zero new = refl
  walk-take-drop [] (suc i) new = refl
  walk-take-drop (n ∷ ns) (suc i) new = ap (λ t. n.content ∷ t) (walk-take-drop ns i new)

  take-all : (xs : List A) (i : ℕ) → i ≡ length xs → (take i xs ≡ xs) × (drop i xs ≡ [])
  take-all [] zero h = (refl, refl)
  take-all [] (suc i) h = (refl, refl)
  take-all (x ∷ xs) zero h = absurd (omega arith)
  take-all (x ∷ xs) (suc i) h = let (t, d) = take-all xs i (omega arith) in (ap (λ r. x ∷ r) t, d)

  -- At an index within the list `list_insert_at_index` puts the data before the old entry there;
  -- past the end it refuses and changes nothing.
  pub insert_at_index-take-drop :
      (l : LinkedList A) (fresh : Ptr) (x : A) (i : ℕ)
      → IsWf l
      → (i ≤ l.length
          → (l' : LinkedList A) × (list_insert_at_index l fresh x (pos i) ≡ ok (pos 0, l'))
            × (contents l' ≡ take i (contents l) ++ x ∷ drop i (contents l))
            × (l'.length ≡ l.length + 1))
        × (l.length < i → list_insert_at_index l fresh x (pos i) ≡ ok (negsuc 0, l))
  unfolding list_insert_at_index
  insert_at_index-take-drop l fresh x zero w = (
    λ h. (
      record l { length = l.length + 1; chain = node fresh x ∷ l.chain },
      ground arith,
      refl,
      refl,
    ),
    λ h. absurd (omega arith),
  )
  insert_at_index-take-drop l fresh x (suc i) w = (
    λ h. elim (Bool-cases (suc i == l.length)) [
      | inl last ↦
          let (t, d) =
            take-all (contents l) (suc i) (ground (arith, length-contents l, w.counted)) in
          (
            appended l fresh x,
            ground (arith, link_tail-append l fresh x w),
            map-append (λ n. n.content) l.chain (node fresh x ∷ [])
                ∙ sym (ap₂ (λ a b. a ++ x ∷ b) t d),
            refl,
          )
      | inr inner ↦ (
        record l { length = l.length + 1; chain = insert_walk l.chain (suc i) (node fresh x) },
        ground arith,
        walk-take-drop l.chain (suc i) (node fresh x),
        refl,
      )
    ],
    λ h. ground arith,
  )
