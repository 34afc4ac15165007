-- ===== src/KeyList/Add.antt =====
-- `tree_add` and `tree_look` of src/imp/30-02.c.
use tlpiexer.Prelude.{
  ℕ, ◌<◌, ◌≡◌, ◌≢◌, refl, sym, true, false, Option, none, some, List, [], ◌∷◌, ◌++◌, arith,
  if◌then◌else◌, ok, length, Returns, Returns-bind, ◌==◌,
}
use tlpiexer.CText.{Bytes}
use tlpiexer.DList.{Ptr, null, find}
use tlpiexer.DList.Chain.{Cells, items, head_or, last_or, Chain, load-ok, write_self}
use tlpiexer.DList.Surgery.{last_or-append}
use tlpiexer.DList.Append.{append_next, append_prev, Chain-appended}
use tlpiexer.DList.Find.{items-append}
use tlpiexer.KeyList.{
  Entry, Tree, Ret, ret_success, ret_failure, not_found, has_key, with_lock, append_elem, tree_add,
  tree_del, tree_look,
}
use tlpiexer.KeyList.Spec.{lookup, Holds, Located, nowhere, here, find-Located, lookup-present}

pub not_null : {p : Ptr} → p ≢ null → (p == null) ≡ false
not_null ne = ground arith

-- A call under the lock that succeeds leaves the mutex free, and the list `xs`.
pub record Done (xs : List Entry) (freed : List Entry) (out : Option (Ret × Tree)) : Type 0 where
  pub tree : Tree
  pub returned : out ≡ some (ret_success, tree)
  pub free : tree.locked ≡ false
  pub holds : Holds tree xs
  pub log : tree.freed ≡ freed

append_elem-cells :
    (fresh : Ptr) (t : Tree) (e : Entry) (cells : Cells Entry)
    → fresh ≢ null
    → t.heap fresh ≡ none
    → Chain t.heap null null cells
    → t.first ≡ head_or null cells
    → t.last ≡ last_or null cells
    → Returns (λ a. Done (items cells ++ e ∷ []) t.freed (some a)) (append_elem fresh t e)
unfolding append_elem
append_elem-cells fresh t e [] ne unused c start end =
    rw (not_null ne, start)
      record {
        tree = _;
        returned = refl;
        free = refl;
        holds = record {
          cells = (fresh, e) ∷ [];
          chain = (ne, write_self t.heap fresh _, refl, tt);
          start = refl;
          end = refl;
          same = refl;
        };
        log = refl;
      }
append_elem-cells fresh t e ((p, z) ∷ xs) ne unused c start end =
    rw
      (
        not_null ne,
        start,
        not_null c.0,
        end,
        append_next t.heap fresh p e z xs ne unused c,
        append_prev t.heap fresh p e z xs ne unused c,
      )
      record {
        tree = _;
        returned = refl;
        free = refl;
        holds = record {
          cells = ((p, z) ∷ xs) ++ (fresh, e) ∷ [];
          chain = Chain-appended t.heap fresh p e z xs ne unused c;
          start = refl;
          end = sym (last_or-append null ((p, z) ∷ xs) ((fresh, e) ∷ []));
          same = items-append ((p, z) ∷ xs) ((fresh, e) ∷ []);
        };
        log = refl;
      }

-- What `tree_look` returns, and leaves in `*value`.
abbrev pub found_value : Option Entry → Ret × Ptr
found_value none = (not_found, null)
found_value (some x) = ((if x.value == null then not_found else ret_success), x.value)

module _ (fuel : ℕ) (t : Tree) (xs : List Entry) (h : Holds t xs) (enough : length xs < fuel)
    (free : t.locked ≡ false) where
  held : Holds (record t { locked = true }) xs
  held = record { cells = h.cells; chain = h.chain; start = h.start; end = h.end; same = h.same }

  -- With the mutex free and elements that are a list shorter than the fuel, and with an unused
  -- address from `malloc`, `tree_add` of a new key adds the entry at the end and gives the mutex
  -- back.
  pub tree_add-new :
      (fresh : Ptr) (e : Entry)
      → fresh ≢ null
      → t.heap fresh ≡ none
      → lookup e.key xs ≡ none
      → Returns (Done (xs ++ e ∷ []) t.freed) (tree_add fuel fresh t e)
  unfolding tree_add with_lock
  tree_add-new fresh e ne unused gone =
      let (p, found, at) = find-Located fuel (record t { locked = true }) e.key xs held enough in
      go p found at
    where
      go :
          (p : Ptr)
          → find fuel (has_key e.key) t.heap t.first ≡ ok p
          → Located (record t { locked = true }) e.key xs p
          → Returns (Done (xs ++ e ∷ []) t.freed) (tree_add fuel fresh t e)
      go p found (nowhere null_there _) =
          rw (free, found, null_there, ← h.same)
            (Returns-bind (λ a. Done (items h.cells ++ e ∷ []) t.freed (some a))
              (Done (items h.cells ++ e ∷ []) t.freed) _ _
              (append_elem-cells fresh (record t { locked = true }) e h.cells ne unused h.chain
                h.start h.end)
              (λ a d. d))
      go p found (here us x vs pne w m hit same _ _) =
          cc (gone, same, lookup-present e.key x hit (items vs) (items us) m)

  -- With the mutex free and elements that are a list shorter than the fuel, `tree_add` of a key
  -- that is there fails, changes nothing and keeps the mutex: every later call of `tree_add`,
  -- `tree_del` and `tree_look` waits for ever.
  pub tree_add-blocks :
      (fresh : Ptr) (e x : Entry)
      → lookup e.key xs ≡ some x
      → (tree_add fuel fresh t e ≡ ok (some (ret_failure, record t { locked = true })))
        × ((f : ℕ) (q : Ptr) (e' : Entry) → tree_add f q (record t { locked = true }) e' ≡ ok none)
        × ((f : ℕ) (k : Bytes) → tree_del f (record t { locked = true }) k ≡ ok none)
        × ((f : ℕ) (k : Bytes) → tree_look f (record t { locked = true }) k null ≡ ok none)
  unfolding tree_add tree_del tree_look with_lock
  tree_add-blocks fresh e x there =
      let (p, found, at) = find-Located fuel (record t { locked = true }) e.key xs held enough in
      (go p found at, λ f q e'. refl, λ f k. refl, λ f k. refl)
    where
      go :
          (p : Ptr)
          → find fuel (has_key e.key) t.heap t.first ≡ ok p
          → Located (record t { locked = true }) e.key xs p
          → tree_add fuel fresh t e ≡ ok (some (ret_failure, record t { locked = true }))
      go p found (nowhere _ gone) = cc (gone, there)
      go p found (here us y vs pne w m hit same _ _) = rw (free, found, not_null pne)

  -- With the mutex free and elements that are a list shorter than the fuel, `tree_look` into a
  -- pointer that is NULL gives the pointer of the first entry of the key, or says 1 if there is
  -- none or its pointer is NULL; the list stays as it is, and the mutex is given back.
  pub tree_look-lookup :
      (k : Bytes)
      → tree_look fuel t k null
        ≡ ok (
            some (
              (found_value (lookup k xs)).0,
              (found_value (lookup k xs)).1,
              record t { locked = false },
            ))
  unfolding tree_look with_lock
  tree_look-lookup k =
      let (p, found, at) = find-Located fuel (record t { locked = true }) k xs held enough in
      go p found at
    where
      go :
          (p : Ptr)
          → find fuel (has_key k) t.heap t.first ≡ ok p
          → Located (record t { locked = true }) k xs p
          → tree_look fuel t k null
            ≡ ok (
                some (
                  (found_value (lookup k xs)).0,
                  (found_value (lookup k xs)).1,
                  record t { locked = false },
                ))
      go p found (nowhere e gone) = rw (free, found, e, gone)
      go p found (here us x vs pne w m hit same _ _) = rw (
        free,
        found,
        not_null pne,
        load-ok t.heap p pne w.holds,
        ← same,
        lookup-present k x hit (items vs) (items us) m,
      )
