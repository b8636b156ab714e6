-- ===== src/LinkedList/Chain.antt =====
-- Well-formed lists: the length and the tail fit the chain, and no address occurs twice.
use file_storage_server.Base.{
  suc, ◌<◌, ◌≡◌, refl, ap, ◌≢◌, ◌||◌, Bool, true, false, some, List, [], ◌∷◌, ◌++◌, arith, ◌==◌,
  length, map,
}
use file_storage_server.LinkedList.{Ptr, Node, LinkedList, link, last_addr}

module _ {A : Type 0} where
  -- The data that the list holds, in order.
  abbrev pub contents : LinkedList A → List A
  contents l = map (λ n. n.content) l.chain

  abbrev pub has : Ptr → List (Node A) → Bool
  has p [] = false
  has p (n ∷ ns) = (n.addr == p) || has p ns

  abbrev pub IsDistinct : List (Node A) → Type 0
  IsDistinct [] = Unit {0}
  IsDistinct (n ∷ ns) = (has n.addr ns ≡ false) × IsDistinct ns

  pub record IsWf (l : LinkedList A) : Type 0 where
    pub counted : l.length ≡ length l.chain
    pub ends : l.chain ≢ [] → l.tail ≡ last_addr l.chain
    pub distinct : IsDistinct l.chain

  pub last-append : (ns : List (Node A)) (n : Node A) → last_addr (ns ++ n ∷ []) ≡ some n.addr
  unfolding last_addr
  last-append [] n = refl
  last-append (m ∷ []) n = refl
  last-append (m ∷ m' ∷ ns) n = last-append (m' ∷ ns) n

  pub IsDistinct-append :
      (ns : List (Node A)) (n : Node A)
      → IsDistinct ns
      → has n.addr ns ≡ false
      → IsDistinct (ns ++ n ∷ [])
  IsDistinct-append [] n d h = (refl, tt)
  IsDistinct-append (m ∷ ns) n d h =
      (ground (arith, has-append m.addr ns), IsDistinct-append ns n d.1 (ground arith))
    where
      has-append :
          (p : Ptr) (xs : List (Node A)) → has p (xs ++ n ∷ []) ≡ (has p xs || (n.addr == p))
      has-append p [] = ground arith
      has-append p (x ∷ xs) = ground (arith, has-append p xs)

  pub last-has : (ns : List (Node A)) (p : Ptr) → last_addr ns ≡ some p → has p ns ≡ true
  unfolding last_addr
  last-has [] p h = cc
  last-has (n ∷ []) p h = ground arith
  last-has (n ∷ n' ∷ ns) p h = ground (arith, last-has (n' ∷ ns) p)

  -- Linking behind the last node of a chain without repetition adds the new node at the end.
  pub link-last :
      (ns : List (Node A)) (p : Ptr) (new : Node A)
      → last_addr ns ≡ some p
      → IsDistinct ns
      → link ns p new ≡ some (ns ++ new ∷ [])
  unfolding link last_addr
  link-last [] p new h d = cc
  link-last (n ∷ []) p new h d = ground arith
  link-last (n ∷ n' ∷ ns) p new h d =
      ground (arith, link-last (n' ∷ ns) p new h d.1, last-has (n' ∷ ns) p h)

  pub length-contents : (l : LinkedList A) → length (contents l) ≡ length l.chain
  length-contents l = go l.chain
    where
      go : (ns : List (Node A)) → length (map (λ n. n.content) ns) ≡ length ns
      go [] = refl
      go (n ∷ ns) = ap suc (go ns)

  pub last-cons :
      (n : Node A) (ns : List (Node A)) → 0 < length ns → last_addr (n ∷ ns) ≡ last_addr ns
  unfolding last_addr
  last-cons n [] h = absurd (omega arith)
  last-cons n (m ∷ ns) h = refl
