-- ===== src/LinkedList.antt =====
-- utils/linked_list.h and utils/linked_list.c: a singly linked list with a cached length and a tail
-- pointer. A list is the chain of nodes that `head` leads to, each with its address, the field
-- `length` and the field `tail`, which need not fit the chain. `fresh` is the address that `calloc`
-- returns, which is taken to succeed, and the handle of a list is taken not to be NULL. A call that
-- frees a node's data returns the data.
pub mod Chain
pub mod Insert
pub mod Remove
pub mod Search
use file_storage_server.Base.{
  ℕ, zero, suc, ◌+◌, ◌-◌, ◌≡◌, Bool, true, false, ◌||◌, Option, none, some, List, [], ◌∷◌, ◌==◌,
  ltb, if◌then◌else◌, map,
}
use file_storage_server.Base.Int.{ℤ, pos, negsuc}
use file_storage_server.Outcome.{Outcome, ok, fault, and_then}

abbrev pub Ptr : Type 0
Ptr = ℕ

pub record Node (A : Type 0) : Type 0 where
  pub addr : Ptr
  pub content : A

pub record LinkedList (A : Type 0) : Type 0 where
  pub length : ℕ
  pub chain : List (Node A)
  pub tail : Option Ptr

module _ {A : Type 0} where
  abbrev pub node : Ptr → A → Node A
  node p x = record { addr = p; content = x }

  unfoldable pub list_create : LinkedList A
  list_create = record { length = 0; chain = []; tail = none }

  -- `list_destroy` applies `free_fun` to these, in this order.
  unfoldable pub list_destroy : LinkedList A → List A
  list_destroy l = map (λ n. n.content) l.chain

  -- `tail->next = new`: what followed the tail is cut off. `none` if no node has the address.
  unfoldable pub link : List (Node A) → Ptr → Node A → Option (List (Node A))
  link [] p new = none
  link (n ∷ ns) p new =
      let more : Option (List (Node A)) = elim (link ns p new) [
        | none ↦ none
        | some ns' ↦ some (n ∷ ns')
      ] in
      if n.addr == p then some (n ∷ new ∷ []) else more

  -- The branch of `list_insert_tail` and of `list_insert_at_index` for a list with a tail.
  unfoldable pub link_tail : LinkedList A → Node A → Outcome (ℤ × LinkedList A)
  link_tail l new = elim l.tail [
    | none ↦ fault
    | some p ↦ elim (link l.chain p new) [
      | none ↦ fault
      | some chain' ↦
          ok (pos 0, record { length = l.length + 1; chain = chain'; tail = some new.addr })
    ]
  ]

  unfoldable pub list_insert_tail : LinkedList A → Ptr → A → Outcome (ℤ × LinkedList A)
  unfolding link_tail
  list_insert_tail l fresh x =
      if l.length == 0
      then ok
          (pos 0, record { length = l.length + 1; chain = node fresh x ∷ []; tail = some fresh })
      else link_tail l (node fresh x)

  -- `tail` is not set here, not even on an empty list.
  unfoldable pub list_insert_head : LinkedList A → Ptr → A → ℤ × LinkedList A
  list_insert_head l fresh x =
      (pos 0, record l { length = l.length + 1; chain = node fresh x ∷ l.chain })

  -- The walk to the node before `index`, and the two writes behind it.
  unfoldable pub insert_walk : List (Node A) → ℕ → Node A → List (Node A)
  insert_walk ns zero new = new ∷ ns
  insert_walk [] (suc i) new = new ∷ []
  insert_walk (n ∷ ns) (suc i) new = n ∷ insert_walk ns i new

  unfoldable pub list_insert_at_index : LinkedList A → Ptr → A → ℤ → Outcome (ℤ × LinkedList A)
  unfolding link_tail insert_walk
  list_insert_at_index l fresh x (negsuc i) = ok (negsuc 0, l)
  list_insert_at_index l fresh x (pos i) =
      if ltb l.length i
      then ok (negsuc 0, l)
      else if i == 0
      then ok (pos 0, record l { length = l.length + 1; chain = node fresh x ∷ l.chain })
      else if i == l.length
      then link_tail l (node fresh x)
      else ok
          (pos 0, record l { length = l.length + 1; chain = insert_walk l.chain i (node fresh x) })

  unfoldable pub list_is_empty : LinkedList A → Bool
  list_is_empty l = elim l.chain [ [] ↦ true | n ∷ ns ↦ l.length == 0 ]

  unfoldable pub list_remove_head : LinkedList A → Option A × LinkedList A
  list_remove_head l = elim l.chain [
    | [] ↦ (none, l)
    | n ∷ ns ↦
        if l.length == 0
        then (none, l)
        else if l.length == 1
        then (some n.content, record { length = l.length - 1; chain = []; tail = none })
        else (some n.content, record l { length = l.length - 1; chain = ns })
  ]

  -- The last node of `n ∷ ns`, and the nodes before it.
  unfoldable pub split_last : Node A → List (Node A) → List (Node A) × Node A
  split_last n [] = ([], n)
  split_last n (n' ∷ ns) = let (front, last) = split_last n' ns in (n ∷ front, last)

  unfoldable pub last_addr : List (Node A) → Option Ptr
  last_addr [] = none
  last_addr (n ∷ []) = some n.addr
  last_addr (n ∷ n' ∷ ns) = last_addr (n' ∷ ns)

  -- `prev->next = NULL; list->tail = prev;` is a write through NULL if there is no node before.
  unfoldable pub list_remove_tail : LinkedList A → Outcome (Option A × LinkedList A)
  unfolding split_last last_addr
  list_remove_tail l = elim l.chain [
    | [] ↦ ok (none, l)
    | n ∷ ns ↦
        let (front, last) = split_last n ns in
        if l.length == 0
        then ok (none, l)
        else if l.length == 1
        then ok (some last.content, record { length = l.length - 1; chain = []; tail = none })
        else elim front [
          | [] ↦ fault
          | f ∷ fs ↦ ok (
            some last.content,
            record { length = l.length - 1; chain = f ∷ fs; tail = last_addr (f ∷ fs) },
          )
        ]
  ]

module _ {A : Type 0} (cmp : A → A → Bool) where
  -- The walk of `list_remove_element`: the data of the first node that compares equal, the chain
  -- without that node, and whether the node was the last one.
  unfoldable pub unlink : List (Node A) → A → Option (A × List (Node A) × Bool)
  unlink [] x = none
  unlink (n ∷ ns) x =
      let more : Option (A × List (Node A) × Bool) = elim (unlink ns x) [
        | none ↦ none
        | some (a, ns', last) ↦ some (a, n ∷ ns', last)
      ] in
      let last : Bool = elim ns [ [] ↦ true | n' ∷ ns' ↦ false ] in
      if cmp n.content x then some (n.content, ns, last) else more

  -- `tail` moves only if a node stands before the one that goes, and none behind it.
  unfoldable pub tail_after : LinkedList A → A → List (Node A) → Bool → Option Ptr
  unfolding last_addr
  tail_after l x chain' last = elim l.chain [
    | [] ↦ l.tail
    | n ∷ ns ↦ if cmp n.content x then l.tail else if last then last_addr chain' else l.tail
  ]

  unfoldable pub list_remove_element : LinkedList A → A → ℤ × Option A × LinkedList A
  unfolding unlink tail_after
  list_remove_element l x = elim (unlink l.chain x) [
    | none ↦ (negsuc 0, none, l)
    | some (a, chain', last) ↦ (
      pos 0,
      some a,
      record { length = l.length - 1; chain = chain'; tail = tail_after l x chain' last },
    )
  ]

  unfoldable pub find_from : ℕ → List (Node A) → A → ℤ
  find_from index [] x = negsuc 0
  find_from index (n ∷ ns) x =
      let more = find_from (index + 1) ns x in if cmp n.content x then pos index else more

  unfoldable pub list_find : LinkedList A → A → ℤ
  unfolding find_from
  list_find l x = find_from 0 l.chain x
