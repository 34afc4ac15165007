-- ===== src/KeyList.antt =====
-- The "tree" of src/imp/30-02.c: a doubly linked list of keys with pointers to values, under one mutex.
-- A call that would wait for the mutex for ever is `none`.
pub mod Spec
pub mod Add
pub mod Cut
pub mod Delete
mod Tests
use tlpiexer.Prelude.{
  ℕ, zero, suc, Bool, true, false, not, ◌&&◌, Option, none, some, List, [], ◌∷◌, ◌++◌, ◌==◌,
  if◌then◌else◌, Run, ok, fault, out_of_fuel, ◌>>=◌,
}
use tlpiexer.CText.{Bytes, strcmp_eq}
use tlpiexer.DList.{Ptr, null, Node, node, Heap, write, load, set_next, set_prev, find}

-- What an element holds besides its links: the text of its key, and the pointer to its value.
pub record Entry : Type 0 where
  pub key : Bytes
  pub value : Ptr

-- `struct tree`, the elements that it reaches, the mutex, and the entries whose two pointers have
-- been given to `free`
pub record Tree : Type 0 where
  pub heap : Heap Entry
  pub first : Ptr
  pub last : Ptr
  pub locked : Bool
  pub freed : List Entry

-- RET_SUCCESS, RET_FAILURE, and the 1 of `tree_look`
pub data Ret : Type 0 where
  ret_success ret_failure not_found : Ret

abbrev pub has_key : Bytes → Entry → Bool
has_key k e = strcmp_eq e.key k

-- `mutex_ok` says whether `pthread_mutex_init` does not return -1.
unfoldable pub tree_init : Bool → Tree → Ret × Tree
tree_init false t = (ret_failure, t)
tree_init true t = (ret_success, record t { first = null; last = null; locked = false })

-- `pthread_mutex_lock`, and what the call does under the lock.
unfoldable pub with_lock {ℓ} : {A : Type ℓ} → Tree → (Tree → Run A) → Run (Option A)
with_lock t body =
    if t.locked then ok none else (body (record t { locked = true }) >>= λ a. ok (some a))

-- The part of `tree_add` behind its search, with the mutex held; `fresh` is what `malloc` returns.
unfoldable pub append_elem : Ptr → Tree → Entry → Run (Ret × Tree)
append_elem fresh t e =
    if fresh == null
    then ok (ret_failure, t)
    else let h = write t.heap fresh (some (node e null null)) in
      if t.first == null
      then ok (ret_success, record t { heap = h; first = fresh; last = fresh; locked = false })
      else (set_next h t.last fresh >>= λ h'. set_prev h' fresh t.last >>= λ h''.
          ok (ret_success, record t { heap = h''; last = fresh; locked = false }))

unfoldable pub tree_add : ℕ → Ptr → Tree → Entry → Run (Option (Ret × Tree))
tree_add fuel fresh t e = with_lock t λ t. find fuel (has_key e.key) t.heap t.first >>= λ elem.
    if not (elem == null) then ok (ret_failure, t) else append_elem fresh t e

-- The three cases of `tree_del`, one after the other, at an element with the links of `n`.
unfoldable pub cut_first : Tree → Node Entry → Run Tree
cut_first t n =
    if not (n.prev == null)
    then ok t
    else if n.next == null
    then ok (record t { first = n.next })
    else (set_prev t.heap n.next null >>= λ h. ok (record t { heap = h; first = n.next }))

unfoldable pub cut_last : Tree → Node Entry → Run Tree
cut_last t n =
    if not (n.next == null)
    then ok t
    else if n.prev == null
    then ok (record t { last = n.prev })
    else (set_next t.heap n.prev null >>= λ h. ok (record t { heap = h; last = n.prev }))

unfoldable pub cut_middle : Tree → Node Entry → Run Tree
cut_middle t n =
    if not (n.prev == null) && not (n.next == null)
    then (set_next t.heap n.prev n.next >>= λ h.
        set_prev h n.next n.prev >>= λ h'. ok (record t { heap = h' }))
    else ok t

unfoldable pub cut : Tree → Node Entry → Run Tree
unfolding cut_first cut_last cut_middle
cut t n = cut_first t n >>= λ t1.
    cut_last t1 n >>= λ t2. cut_middle t2 n >>= λ t3. ok (record t3 { freed = n.item ∷ t3.freed })

-- The loop of `tree_del`, which goes on behind an element that it has taken out; the element's own
-- memory is not given back.
unfoldable pub del_loop : ℕ → Tree → Ptr → Bytes → Bool → Run (Tree × Bool)
del_loop zero t elem k del = out_of_fuel
del_loop (suc f) t elem k del =
    if elem == null
    then ok (t, del)
    else (load t.heap elem >>= λ n.
        if not (strcmp_eq n.item.key k)
        then del_loop f t n.next k del
        else (cut t n >>= λ t'.
            if n.prev == null
            then ok (t', true)
            else (load t'.heap n.prev >>= λ m. del_loop f t' m.next k true)))

unfoldable pub tree_del : ℕ → Tree → Bytes → Run (Option (Ret × Tree))
tree_del fuel t k = with_lock t λ t. del_loop fuel t t.first k false >>= λ (t', del).
    ok ((if del then ret_success else ret_failure), record t' { locked = false })

-- `value` is what `*value` holds before the call, and the pointer in the result what it holds after.
unfoldable pub tree_look : ℕ → Tree → Bytes → Ptr → Run (Option (Ret × Ptr × Tree))
tree_look fuel t k value =
    if not (value == null)
    then ok (some (ret_failure, value, t))
    else with_lock t λ t. find fuel (has_key k) t.heap t.first >>= λ elem.
        (if elem == null then ok value else (load t.heap elem >>= λ n. ok n.item.value)) >>= λ v.
        ok ((if v == null then not_found else ret_success), v, record t { locked = false })
