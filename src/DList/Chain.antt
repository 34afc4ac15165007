-- ===== src/DList/Chain.antt =====
-- Which list a chain of doubly linked nodes stands for, and what leaves a chain alone.
use tlpiexer.Prelude.{
  ◌≡◌, ◌≢◌, refl, Bool, false, ◌||◌, none, some, List, [], ◌∷◌, Option, arith, ◌==◌, ok,
}
use tlpiexer.DList.{Ptr, null, Node, node, Heap, write, load, set_next, set_prev, set_item, release}

-- The address and the item of each node, in order.
abbrev pub Cells : Type 0 → Type 0
Cells A = List (Ptr × A)

module _ {A : Type 0} where
  abbrev pub items : Cells A → List A
  items [] = []
  items ((p, x) ∷ xs) = x ∷ items xs

  abbrev pub has : Ptr → Cells A → Bool
  has a [] = false
  has a ((p, x) ∷ xs) = (a == p) || has a xs

  -- The first address of a chain that ends at `stop`.
  abbrev pub head_or : Ptr → Cells A → Ptr
  head_or stop [] = stop
  head_or stop ((p, x) ∷ xs) = p

  -- The last address of a chain that `prev` stands before.
  abbrev pub last_or : Ptr → Cells A → Ptr
  last_or prev [] = prev
  last_or prev ((p, x) ∷ xs) = last_or p xs

  -- The cells are nodes of `h`, at distinct addresses, linked both ways; `prev` stands before the
  -- first and `stop` behind the last.
  abbrev pub Chain : Heap A → Ptr → Ptr → Cells A → Type 0
  Chain h prev stop [] = Unit {0}
  Chain h prev stop ((p, x) ∷ xs) =
      (p ≢ null)
      × (h p ≡ some (node x (head_or stop xs) prev))
      × (has p xs ≡ false)
      × Chain h p stop xs

  pub load-ok : (h : Heap A) (p : Ptr) {n : Node A} → p ≢ null → h p ≡ some n → load h p ≡ ok n
  unfolding load
  load-ok h p ne e = ground arith

  pub set_next-ok :
      (h : Heap A) (p q : Ptr) {n : Node A}
      → p ≢ null
      → h p ≡ some n
      → set_next h p q ≡ ok (write h p (some (record n { next = q })))
  unfolding set_next
  set_next-ok h p q ne e = rw (load-ok h p ne e)

  pub set_prev-ok :
      (h : Heap A) (p q : Ptr) {n : Node A}
      → p ≢ null
      → h p ≡ some n
      → set_prev h p q ≡ ok (write h p (some (record n { prev = q })))
  unfolding set_prev
  set_prev-ok h p q ne e = rw (load-ok h p ne e)

  pub set_item-ok :
      (h : Heap A) (p : Ptr) (x : A) {n : Node A}
      → p ≢ null
      → h p ≡ some n
      → set_item h p x ≡ ok (write h p (some (record n { item = x })))
  unfolding set_item
  set_item-ok h p x ne e = rw (load-ok h p ne e)

  pub release-ok :
      (h : Heap A) (p : Ptr) {n : Node A}
      → p ≢ null
      → h p ≡ some n
      → release h p ≡ ok (write h p none)
  unfolding release
  release-ok h p ne e = rw (load-ok h p ne e)

  pub write_self : (h : Heap A) (p : Ptr) (c : Option (Node A)) → write h p c p ≡ c
  unfolding write
  write_self h p c = ground arith

  pub write_ne : (h : Heap A) (p a : Ptr) (c : Option (Node A)) → a ≢ p → write h p c a ≡ h a
  unfolding write
  write_ne h p a c ne = ground arith

  -- A chain survives a write outside its own addresses.
  pub Chain-write :
      (h : Heap A) (prev stop a : Ptr) (c : Option (Node A)) (xs : Cells A)
      → has a xs ≡ false
      → Chain h prev stop xs
      → Chain (write h a c) prev stop xs
  unfolding write
  Chain-write h prev stop a c [] out s = tt
  Chain-write h prev stop a c ((p, x) ∷ xs) out (ne, e, fresh, s) =
      (ne, ground arith, fresh, Chain-write h p stop a c xs (ground arith) s)

  pub not-has_of_none :
      (h : Heap A) (prev stop a : Ptr) (xs : Cells A)
      → h a ≡ none
      → Chain h prev stop xs
      → has a xs ≡ false
  not-has_of_none h prev stop a [] free s = refl
  not-has_of_none h prev stop a ((p, x) ∷ xs) free (ne, e, fresh, s) =
      ground (arith, not-has_of_none h p stop a xs free s)

  pub head_or-ne-null :
      (h : Heap A) (prev p : Ptr) (x : A) (xs : Cells A)
      → Chain h prev null ((p, x) ∷ xs)
      → (head_or null ((p, x) ∷ xs) == null) ≡ false
  head_or-ne-null h prev p x xs s = ground arith
