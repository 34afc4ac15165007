-- ===== src/DList.antt =====
-- Doubly linked nodes on an explicit heap, as `struct item_ll` (src/lib/59-04-llist.c) and
-- `struct tree_elem` (src/imp/30-02.c) link them. `DList.Chain` says which list the nodes stand for.
pub mod Chain
pub mod Surgery
pub mod Push
pub mod Append
pub mod Unlink
pub mod Find
use tlpiexer.Prelude.{
  ℕ, zero, suc, Bool, out_of_fuel, Option, none, some, ◌==◌, if◌then◌else◌, Run, ok, fault, ◌>>=◌,
}

abbrev pub Ptr : Type 0
Ptr = ℕ

abbrev pub null : Ptr
null = 0

-- A node: what the list is for, and the two links.
pub record Node (A : Type 0) : Type 0 where
  pub item : A
  pub next : Ptr
  pub prev : Ptr

abbrev pub node : {A : Type 0} → A → Ptr → Ptr → Node A
node x q p = record { item = x; next = q; prev = p }

abbrev pub Heap : Type 0 → Type 0
Heap A = Ptr → Option (Node A)

module _ {A : Type 0} where
  unfoldable pub write : Heap A → Ptr → Option (Node A) → Heap A
  write h p c a = if a == p then c else h a

  -- `*p`: a fault at `NULL` and at an address that holds no node
  unfoldable pub load : Heap A → Ptr → Run (Node A)
  load h p = if p == null then fault else elim (h p) [ none ↦ fault | some n ↦ ok n ]

  -- `p->next = q`
  unfoldable pub set_next : Heap A → Ptr → Ptr → Run (Heap A)
  set_next h p q = load h p >>= λ n. ok (write h p (some (record n { next = q })))

  -- `p->prev = q`
  unfoldable pub set_prev : Heap A → Ptr → Ptr → Run (Heap A)
  set_prev h p q = load h p >>= λ n. ok (write h p (some (record n { prev = q })))

  -- `p->item = x`
  unfoldable pub set_item : Heap A → Ptr → A → Run (Heap A)
  set_item h p x = load h p >>= λ n. ok (write h p (some (record n { item = x })))

  -- `free(p)` of a node
  unfoldable pub release : Heap A → Ptr → Run (Heap A)
  release h p = load h p >>= λ n. ok (write h p none)

  -- `for (p = first; p != NULL; p = p->next) if (test) break;`: where the walk stops
  unfoldable pub find : ℕ → (A → Bool) → Heap A → Ptr → Run Ptr
  find zero t h p = out_of_fuel
  find (suc f) t h p =
      if p == null
      then ok null
      else (load h p >>= λ n. if t n.item then ok p else find f t h n.next)
