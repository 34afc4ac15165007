-- ===== src/NameStore/Remove.antt =====
-- `ll_del` of src/lib/59-04-llist.c against `NameStore.Spec`.
use tlpiexer.Prelude.{
  ℕ, ◌<◌, ◌≡◌, refl, sym, ◌∙◌, List, [], ◌∷◌, ◌++◌, length, ok, Returns, Bool-cases, inl, inr, Run,
}
use tlpiexer.DList.{Ptr, null, node, Node, Heap, find}
use tlpiexer.DList.Chain.{
  Cells, items, head_or, last_or, Chain, load-ok, set_next-ok, set_prev-ok, release-ok, write_ne,
}
use tlpiexer.DList.Surgery.{Chain-Last, ne_of_head, ne_of_has, Apart-mem}
use tlpiexer.DList.Unlink.{Between, relink_first, relink_last, relink_middle, Chain-release}
use tlpiexer.NameStore.{
  ItemNv, Store, Ret, fn_ok, same_name, same_own, el_perm, el_noext, remove_node, ll_del,
  remove_first, remove_other,
}
use tlpiexer.NameStore.Spec.{reply, delete, delete-none, delete-own, delete-perm}
use tlpiexer.DList.Find.{items-append}
use tlpiexer.NameStore.Holds.{Holds, Located, nowhere, here, find-Located}
use tlpiexer.NameStore.Refine.{Answers, not_null, refused}

abbrev Dropped : Store → Cells ItemNv → Cells ItemNv → Run (Ret × Store) → Type 0
Dropped s us vs = Returns (Answers (reply fn_ok s.lerrno (items us ++ items vs)))

-- Where the chain of the remaining nodes is known, so is the answer.
dropped :
    (s : Store) (h : Heap ItemNv) (first : Ptr) (us vs : Cells ItemNv)
    → Chain h null null (us ++ vs)
    → first ≡ head_or null (us ++ vs)
    → Answers
        (reply fn_ok s.lerrno (items us ++ items vs))
        (fn_ok, record s { heap = h; first = first })
dropped s h first us vs c start = record {
  ret = refl;
  errno = refl;
  holds = record { cells = us ++ vs; chain = c; start = start; same = items-append us vs };
}

module _ (s : Store) (p : Ptr) (x : ItemNv) where
  abbrev at : Ptr → Ptr → Node ItemNv
  at next prev = node x next prev

  remove_only : Between s.heap [] p x [] → Dropped s [] [] (remove_node s p (at null null))
  unfolding remove_node remove_first
  remove_only w = rw (release-ok s.heap p w.ne_null w.holds) (dropped s _ null [] [] tt refl)

  module _ (b : Ptr) (y : ItemNv) (ys : Cells ItemNv) where
    remove_head :
        Between s.heap [] p x ((b, y) ∷ ys)
        → Dropped s [] ((b, y) ∷ ys) (remove_node s p (at b null))
    unfolding remove_node remove_first
    remove_head w =
        rw
          (
            not_null w.back.0,
            set_prev-ok s.heap b null w.back.0 w.back.1,
            release-ok _ p w.ne_null
                (write_ne s.heap b p _ (λ e. ne_of_head b y ys w.not_back (sym e)) ∙ w.holds),
          )
          (dropped s _ b [] ((b, y) ∷ ys)
            (Chain-release s.heap _ [] p x ((b, y) ∷ ys) w (relink_first s.heap p b x y ys w)) refl)

  module _ (q : Ptr) (z : ItemNv) (us : Cells ItemNv) where
    remove_last :
        (w : Between s.heap ((q, z) ∷ us) p x [])
        → s.first ≡ q
        → Dropped s ((q, z) ∷ us) [] (remove_node s p (at null (last_or q us)))
    unfolding remove_node remove_other
    remove_last w start =
        let end = Chain-Last s.heap null p null q z us w.front in
        rw
          (
            not_null end.ne_null,
            set_next-ok s.heap (last_or q us) null end.ne_null end.holds,
            release-ok _ p w.ne_null (
                write_ne s.heap (last_or q us) p _ (ne_of_has ((q, z) ∷ us) w.not_front end.inside)
                ∙ w.holds),
          )
          (dropped s _ s.first ((q, z) ∷ us) []
            (Chain-release s.heap _ ((q, z) ∷ us) p x [] w (relink_last s.heap q p z x us w)) start)

    module _ (b : Ptr) (y : ItemNv) (ys : Cells ItemNv) where
      remove_middle :
          (w : Between s.heap ((q, z) ∷ us) p x ((b, y) ∷ ys))
          → s.first ≡ q
          → Dropped s ((q, z) ∷ us) ((b, y) ∷ ys) (remove_node s p (at b (last_or q us)))
      unfolding remove_node remove_other
      remove_middle w start =
          let end = Chain-Last s.heap null p b q z us w.front in
          let out = Apart-mem (last_or q us) ((q, z) ∷ us) ((b, y) ∷ ys) w.apart end.inside in
          rw
            (
              not_null end.ne_null,
              set_next-ok s.heap (last_or q us) b end.ne_null end.holds,
              not_null w.back.0,
              set_prev-ok _ b (last_or q us) w.back.0
                  (write_ne s.heap (last_or q us) b _ (ne_of_head b y ys out) ∙ w.back.1),
              release-ok _ p w.ne_null (
                  write_ne _ b p _ (λ e. ne_of_head b y ys w.not_back (sym e))
                  ∙ write_ne s.heap (last_or q us) p _
                      (ne_of_has ((q, z) ∷ us) w.not_front end.inside)
                  ∙ w.holds),
            )
            (dropped s _ s.first ((q, z) ∷ us) ((b, y) ∷ ys)
              (Chain-release s.heap _ ((q, z) ∷ us) p x ((b, y) ∷ ys) w
                (relink_middle s.heap q p b z x y us ys w))
              start)

-- Whatever stands on either side of the node.
remove_node-drops :
    (s : Store) (p : Ptr) (x : ItemNv) (us vs : Cells ItemNv)
    → Between s.heap us p x vs
    → s.first ≡ head_or null (us ++ (p, x) ∷ vs)
    → Dropped s us vs (remove_node s p (node x (head_or null vs) (last_or null us)))
remove_node-drops s p x [] [] w start = remove_only s p x w
remove_node-drops s p x [] ((b, y) ∷ ys) w start = remove_head s p x b y ys w
remove_node-drops s p x ((q, z) ∷ us) [] w start = remove_last s p x q z us w start
remove_node-drops s p x ((q, z) ∷ us) ((b, y) ∷ ys) w start =
    remove_middle s p x q z us b y ys w start

-- On nodes that are a list shorter than the fuel `ll_del` returns: it drops the first item of the
-- name if the owners agree, says EL_PERM if they do not and EL_NOEXT if there is none.
pub ll_del-refines :
    (fuel : ℕ) (s : Store) (it : ItemNv) (xs : List ItemNv)
    → Holds s xs
    → length xs < fuel
    → Returns (Answers (delete it s.lerrno xs)) (ll_del fuel s it)
unfolding ll_del
ll_del-refines fuel s it xs h enough =
    let (p, found, at) = find-Located fuel s it.name xs h enough in go p found at
  where
    go :
        (p : Ptr)
        → find fuel (same_name it.name) s.heap s.first ≡ ok p
        → Located s it.name xs p
        → Returns (Answers (delete it s.lerrno xs)) (ll_del fuel s it)
    go p found (here us x vs pne w st got _ gone) = elim (Bool-cases (same_own it.own x)) [
      | inl own ↦
          rw
            (
              found,
              not_null pne,
              load-ok s.heap p pne w.holds,
              own,
              delete-own it s.lerrno xs x got own,
              gone,
            )
            (remove_node-drops s p x us vs w st)
      | inr other ↦
          rw
            (
              found,
              not_null pne,
              load-ok s.heap p pne w.holds,
              other,
              delete-perm it s.lerrno xs x got other,
            )
            (refused s xs el_perm h)
    ]
    go p found (nowhere e got) =
        rw (found, e, delete-none it s.lerrno xs got) (refused s xs el_noext h)
