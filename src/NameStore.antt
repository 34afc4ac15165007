-- ===== src/NameStore.antt =====
-- The name-value server of exercise 59-04: the list of src/lib/59-04-llist.c and
-- include/tlpiexer/59-04-llist.h. The child modules hold its abstract view, the proofs and the server.
pub mod Spec
pub mod Holds
pub mod Refine
pub mod Update
pub mod Remove
pub mod Free
pub mod Names
pub mod Server
pub mod Round
pub mod Session
pub mod Reached
pub mod Client
pub mod Talk
pub mod Shown
mod Tests
use tlpiexer.Prelude.{
  ℕ, zero, suc, Bool, not, some, ◌==◌, if◌then◌else◌, Run, ok, out_of_fuel, ◌>>=◌,
}
use tlpiexer.CText.{Bytes, same_str, strcpy}
use tlpiexer.DList.{
  Ptr, null, Node, node, Heap, write, load, set_next, set_prev, set_item, release, find,
}

abbrev pub el_perm : ℕ
el_perm = 1

abbrev pub el_exist : ℕ
el_exist = 2

abbrev pub el_noext : ℕ
el_noext = 3

abbrev pub ll_name_len : ℕ
ll_name_len = 16

abbrev pub ll_value_len : ℕ
ll_value_len = 32

abbrev pub ll_usrname_len : ℕ
ll_usrname_len = 32

-- `struct item_nv`: three arrays of the lengths above
pub record ItemNv : Type 0 where
  pub name : Bytes
  pub value : Bytes
  pub own : Bytes

-- `struct llist`, the nodes of `struct item_ll` that it reaches, and the global `lerrno`
pub record Store : Type 0 where
  pub heap : Heap ItemNv
  pub first : Ptr
  pub size : ℕ
  pub lerrno : ℕ

-- FN_OK and FN_ER
pub data Ret : Type 0 where
  fn_ok fn_er : Ret

-- `strncmp(litem->nv.name, item->name, sizeof(item->name)) == 0`
unfoldable pub same_name : Bytes → ItemNv → Bool
same_name name it = same_str ll_name_len it.name name

-- `strncmp(litem->nv.own, item->own, sizeof(item->own)) == 0`
unfoldable pub same_own : Bytes → ItemNv → Bool
same_own own it = same_str ll_usrname_len it.own own

unfoldable pub ll_init : Store → Ret × Store
ll_init s = (fn_ok, record s { first = null; size = 0 })

-- The loop of `ll_free`: `item->next` is read after `free(item)`.
unfoldable pub free_loop : ℕ → Heap ItemNv → Ptr → Run (Heap ItemNv)
free_loop zero h p = out_of_fuel
free_loop (suc f) h p =
    if p == null then ok h else (release h p >>= λ h'. load h' p >>= λ n. free_loop f h' n.next)

unfoldable pub ll_free : ℕ → Store → Run (Ret × Store)
ll_free fuel s = free_loop fuel s.heap s.first >>= λ h. ok (fn_ok, record s { heap = h })

-- The part of `ll_add` behind its search; `fresh` is what `malloc` returns. Until one of the two
-- branches sets it, the `next` of the new node has no value that is read.
unfoldable pub add_node : Ptr → Store → ItemNv → Run (Ret × Store)
add_node fresh s item =
    if fresh == null
    then ok (fn_er, s)
    else let h = write s.heap fresh (some (node item null null)) in
      if s.first == null
      then (set_next h fresh null >>= λ h'. ok (fn_ok, record s { heap = h'; first = fresh }))
      else (set_next h fresh s.first >>= λ h'.
          set_prev h' s.first fresh >>= λ h''. ok (fn_ok, record s { heap = h''; first = fresh }))

unfoldable pub ll_add : ℕ → Ptr → Store → ItemNv → Run (Ret × Store)
ll_add fuel fresh s item = find fuel (same_name item.name) s.heap s.first >>= λ litem.
    if not (litem == null)
    then ok (fn_er, record s { lerrno = el_exist })
    else add_node fresh s item

-- The item that the caller passes in is overwritten.
unfoldable pub ll_get : ℕ → Store → ItemNv → Run (Ret × ItemNv × Store)
ll_get fuel s item = find fuel (same_name item.name) s.heap s.first >>= λ litem.
    if litem == null
    then ok (fn_er, item, record s { lerrno = el_noext })
    else (load s.heap litem >>= λ n. ok (fn_ok, n.item, s))

-- The part of `ll_set` behind its search, at the node that it found
unfoldable pub set_value : Store → Ptr → ItemNv → Run (Ret × Store)
set_value s litem item = load s.heap litem >>= λ n.
    if not (same_own item.own n.item)
    then ok (fn_er, record s { lerrno = el_perm })
    else (strcpy ll_value_len n.item.value item.value >>= λ v.
        set_item s.heap litem (record (n.item) { value = v }) >>= λ h.
        ok (fn_ok, record s { heap = h }))

unfoldable pub ll_set : ℕ → Store → ItemNv → Run (Ret × Store)
ll_set fuel s item = find fuel (same_name item.name) s.heap s.first >>= λ litem.
    if litem == null then ok (fn_er, record s { lerrno = el_noext }) else set_value s litem item

-- Unlinking a node whose `prev` is `NULL`: the heap and the new `list->first`
unfoldable pub remove_first : Heap ItemNv → Node ItemNv → Run (Heap ItemNv × Ptr)
remove_first h n =
    if n.next == null then ok (h, n.next) else (set_prev h n.next null >>= λ h'. ok (h', n.next))

-- Unlinking a node whose `prev` is not `NULL`
unfoldable pub remove_other : Heap ItemNv → Node ItemNv → Run (Heap ItemNv)
remove_other h n =
    set_next h n.prev n.next >>= λ h'. if n.next == null then ok h' else set_prev h' n.next n.prev

-- The part of `ll_del` behind its test of the owner
unfoldable pub remove_node : Store → Ptr → Node ItemNv → Run (Ret × Store)
remove_node s litem n =
    (if n.prev == null
      then remove_first s.heap n
      else (remove_other s.heap n >>= λ h. ok (h, s.first)))
    >>= λ (h, first). release h litem >>= λ h'. ok (fn_ok, record s { heap = h'; first = first })

unfoldable pub ll_del : ℕ → Store → ItemNv → Run (Ret × Store)
ll_del fuel s item = find fuel (same_name item.name) s.heap s.first >>= λ litem.
    if litem == null
    then ok (fn_er, record s { lerrno = el_noext })
    else (load s.heap litem >>= λ n.
        if not (same_own item.own n.item)
        then ok (fn_er, record s { lerrno = el_perm })
        else remove_node s litem n)
