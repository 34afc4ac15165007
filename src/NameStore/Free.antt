-- ===== src/NameStore/Free.antt =====
-- `ll_free` of src/lib/59-04-llist.c, and `ll_add` without memory.
use tlpiexer.Prelude.{
  ℕ, suc, ◌<◌, ◌≡◌, sym, ◌≢◌, ◌⊎◌, inl, inr, none, List, [], ◌∷◌, arith, length, ok, fault,
}
use tlpiexer.DList.{Ptr, null, Heap, write, load, find}
use tlpiexer.DList.Chain.{Cells, items, head_or, Chain, release-ok}
use tlpiexer.NameStore.{
  ItemNv, Store, fn_ok, fn_er, ll_add, ll_free, free_loop, same_name, add_node,
}
use tlpiexer.NameStore.Spec.{lookup}
use tlpiexer.NameStore.Holds.{Holds, Located, nowhere, here, find-Located}
use tlpiexer.NameStore.Refine.{not_null}

-- Reading a node that was given back.
load-freed : (h : Heap ItemNv) (p : Ptr) → load (write h p none) p ≡ fault
unfolding load write
load-freed h p = ground arith

-- On nodes that are a list `ll_free` returns if the list is empty; on every other it reads the
-- `next` of a node that it has just given back.
pub ll_free-faults :
    (fuel : ℕ) (s : Store) (xs : List ItemNv)
    → Holds s xs
    → ((xs ≡ []) × (ll_free (suc fuel) s ≡ ok (fn_ok, s)))
      ⊎ ((xs ≢ []) × (ll_free (suc fuel) s ≡ fault))
unfolding ll_free free_loop
ll_free-faults fuel s xs h = go h.cells h.chain h.start h.same
  where
    go :
        (cells : Cells ItemNv)
        → Chain s.heap null null cells
        → s.first ≡ head_or null cells
        → items cells ≡ xs
        → ((xs ≡ []) × (ll_free (suc fuel) s ≡ ok (fn_ok, s)))
          ⊎ ((xs ≢ []) × (ll_free (suc fuel) s ≡ fault))
    go [] c start same = inl (sym same, rw start)
    go ((p, x) ∷ cells) c start same = inr (
      λ e. cc (same, e),
      rw (start, not_null c.0, release-ok s.heap p c.0 c.1, load-freed s.heap p),
    )

-- On nodes that are a list shorter than the fuel, where `malloc` gives NULL, `ll_add` of a new
-- name returns FN_ER and leaves all as it is, `lerrno` too.
pub ll_add-no_memory :
    (fuel : ℕ) (s : Store) (it : ItemNv) (xs : List ItemNv)
    → Holds s xs
    → length xs < fuel
    → lookup it.name xs ≡ none
    → ll_add fuel null s it ≡ ok (fn_er, s)
unfolding ll_add add_node
ll_add-no_memory fuel s it xs h enough gone =
    let (p, found, at) = find-Located fuel s it.name xs h enough in go p found at
  where
    go :
        (p : Ptr)
        → find fuel (same_name it.name) s.heap s.first ≡ ok p
        → Located s it.name xs p
        → ll_add fuel null s it ≡ ok (fn_er, s)
    go p found (here us x vs pne w st got _ _) = cc (got, gone)
    go p found (nowhere e got) = rw (found, e)
