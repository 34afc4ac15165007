-- ===== src/NameStore/Refine.antt =====
-- `ll_add` and `ll_get` of src/lib/59-04-llist.c against `NameStore.Spec`.
use tlpiexer.Prelude.{
  ℕ, ◌<◌, ◌≡◌, refl, ◌≢◌, false, none, List, [], ◌∷◌, arith, length, ok, Returns, ◌==◌,
}
use tlpiexer.DList.{Ptr, null, find}
use tlpiexer.DList.Chain.{Cells, items, head_or, Chain, load-ok, set_next-ok, write_self}
use tlpiexer.DList.Push.{push_next, push_prev, Chain-pushed}
use tlpiexer.NameStore.{
  ItemNv, Store, Ret, fn_ok, fn_er, same_name, el_exist, ll_add, add_node, ll_get,
}
use tlpiexer.NameStore.Spec.{Reply, reply, add, get, add-none, add-some, get-none, get-some}
use tlpiexer.NameStore.Holds.{Holds, Located, nowhere, here, find-Located}

-- The call's result and the store that it leaves are those of a reply.
pub record Answers (r : Reply) (out : Ret × Store) : Type 0 where
  pub ret : out.0 ≡ r.ret
  pub errno : out.1.lerrno ≡ r.errno
  pub holds : Holds out.1 r.items

pub not_null : {p : Ptr} → p ≢ null → (p == null) ≡ false
not_null ne = ground arith

pub refused :
    (s : Store) (xs : List ItemNv) (e : ℕ)
    → Holds s xs
    → Answers (reply fn_er e xs) (fn_er, record s { lerrno = e })
refused s xs e h = record {
  ret = refl;
  errno = refl;
  holds = record { cells = h.cells; chain = h.chain; start = h.start; same = h.same };
}

-- The new node goes in front, whether or not there is a list behind it.
add_node-cells :
    (fresh : Ptr) (s : Store) (it : ItemNv) (cells : Cells ItemNv)
    → fresh ≢ null
    → s.heap fresh ≡ none
    → Chain s.heap null null cells
    → s.first ≡ head_or null cells
    → Returns (Answers (reply fn_ok s.lerrno (it ∷ items cells))) (add_node fresh s it)
unfolding add_node
add_node-cells fresh s it [] ne unused c start =
    rw (not_null ne, start, set_next-ok _ fresh null ne (write_self s.heap fresh _))
      record {
        ret = refl;
        errno = refl;
        holds = record {
          cells = (fresh, it) ∷ [];
          chain = (ne, write_self _ fresh _, refl, tt);
          start = refl;
          same = refl;
        };
      }
add_node-cells fresh s it ((b, y) ∷ ys) ne unused c start =
    rw
      (
        not_null ne,
        start,
        not_null c.0,
        push_next s.heap fresh b it y ys ne unused c,
        push_prev s.heap fresh b it y ys ne unused c,
      )
      record {
        ret = refl;
        errno = refl;
        holds = record {
          cells = (fresh, it) ∷ (b, y) ∷ ys;
          chain = Chain-pushed s.heap fresh b it y ys ne unused c;
          start = refl;
          same = refl;
        };
      }

-- On nodes that are a list shorter than the fuel, with an unused address from `malloc`, `ll_add`
-- returns: it adds an item of a new name in front, and refuses a name that is there with
-- EL_EXIST.
pub ll_add-refines :
    (fuel : ℕ) (fresh : Ptr) (s : Store) (it : ItemNv) (xs : List ItemNv)
    → Holds s xs
    → length xs < fuel
    → fresh ≢ null
    → s.heap fresh ≡ none
    → Returns (Answers (add it s.lerrno xs)) (ll_add fuel fresh s it)
unfolding ll_add
ll_add-refines fuel fresh s it xs h enough ne unused =
    let (p, found, at) = find-Located fuel s it.name xs h enough in go p found at
  where
    go :
        (p : Ptr)
        → find fuel (same_name it.name) s.heap s.first ≡ ok p
        → Located s it.name xs p
        → Returns (Answers (add it s.lerrno xs)) (ll_add fuel fresh s it)
    go p found (here us x vs pne w st got _ _) =
        rw (found, not_null pne, add-some it s.lerrno xs x got) (refused s xs el_exist h)
    go p found (nowhere e got) =
        rw (found, e, add-none it s.lerrno xs got, ← h.same)
          (add_node-cells fresh s it h.cells ne unused h.chain h.start)

abbrev pub delivered : Store → Ret × ItemNv × ℕ → Ret × ItemNv × Store
delivered s (ret, out, e) = (ret, out, record s { lerrno = e })

-- On nodes that are a list shorter than the fuel `ll_get` copies the first item of the name out,
-- or says EL_NOEXT and leaves the caller's item; the list stays as it is.
pub ll_get-refines :
    (fuel : ℕ) (s : Store) (it : ItemNv) (xs : List ItemNv)
    → Holds s xs
    → length xs < fuel
    → ll_get fuel s it ≡ ok (delivered s (get it s.lerrno xs))
unfolding ll_get
ll_get-refines fuel s it xs h enough =
    let (p, found, at) = find-Located fuel s it.name xs h enough in go p found at
  where
    go :
        (p : Ptr)
        → find fuel (same_name it.name) s.heap s.first ≡ ok p
        → Located s it.name xs p
        → ll_get fuel s it ≡ ok (delivered s (get it s.lerrno xs))
    go p found (here us x vs pne w st got _ _) =
        rw (found, not_null pne, get-some it s.lerrno xs x got, load-ok s.heap p pne w.holds)
    go p found (nowhere e got) = rw (found, e, get-none it s.lerrno xs got)
