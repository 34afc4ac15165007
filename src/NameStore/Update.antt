-- ===== src/NameStore/Update.antt =====
-- `ll_set` of src/lib/59-04-llist.c against `NameStore.Spec`.
use tlpiexer.Prelude.{
  ℕ, ◌<◌, ◌≡◌, refl, ◌∙◌, ◌≢◌, true, false, List, [], ◌∷◌, ◌++◌, arith, length, ok, fault, Returns,
  Bool-cases, inl, inr,
}
use tlpiexer.CText.{strcpy}
use tlpiexer.DList.{Ptr, null, find}
use tlpiexer.DList.Chain.{Cells, items, head_or, load-ok, set_item-ok}
use tlpiexer.DList.Unlink.{Between, replace_item}
use tlpiexer.NameStore.{
  ItemNv, Store, fn_ok, fn_er, same_name, same_own, el_perm, el_noext, set_value, ll_set,
}
use tlpiexer.NameStore.Spec.{
  Reply, reply, update, terminated, overruns, overruns-own, overruns-perm, overruns-none, stored,
  update-none, update-own, update-perm,
}
use tlpiexer.DList.Find.{items-append}
use tlpiexer.NameStore.Holds.{Holds, Located, nowhere, here, find-Located}
use tlpiexer.NameStore.Refine.{Answers, refused, not_null}

set_value-perm :
    (s : Store) (it x : ItemNv) (p : Ptr) (us vs : Cells ItemNv) {r : Reply}
    → p ≢ null
    → Between s.heap us p x vs
    → same_own it.own x ≡ false
    → Answers r (fn_er, record s { lerrno = el_perm })
    → Returns (Answers r) (set_value s p it)
unfolding set_value
set_value-perm s it x p us vs pne w other answer = rw (load-ok s.heap p pne w.holds, other) answer

-- The value is copied over the old one, at the same node.
set_value-refines :
    (s : Store) (it x : ItemNv) (p : Ptr) (us vs : Cells ItemNv)
    → p ≢ null
    → Between s.heap us p x vs
    → s.first ≡ head_or null (us ++ (p, x) ∷ vs)
    → same_own it.own x ≡ true
    → terminated it ≡ true
    → Returns
        (Answers (reply fn_ok s.lerrno (items us ++ stored x it ∷ items vs)))
        (set_value s p it)
unfolding set_value strcpy stored terminated
set_value-refines s it x p us vs pne w st own fits =
    rw (load-ok s.heap p pne w.holds, own, fits, set_item-ok s.heap p _ pne w.holds)
      record {
        ret = refl;
        errno = refl;
        holds = record {
          cells = us ++ (p, stored x it) ∷ vs;
          chain = replace_item s.heap us p x (stored x it) vs w;
          start = st ∙ head_or-same us;
          same = items-append us ((p, stored x it) ∷ vs);
        };
      }
  where
    head_or-same :
        (us : Cells ItemNv)
        → head_or null (us ++ (p, x) ∷ vs) ≡ head_or null (us ++ (p, stored x it) ∷ vs)
    head_or-same [] = refl
    head_or-same ((q, z) ∷ us) = refl

-- On nodes that are a list shorter than the fuel `ll_set` returns, unless it would copy a value
-- with no end: it changes the value of the first item of the name if the owners agree, says
-- EL_PERM if they do not and EL_NOEXT if there is none.
pub ll_set-refines :
    (fuel : ℕ) (s : Store) (it : ItemNv) (xs : List ItemNv)
    → Holds s xs
    → length xs < fuel
    → overruns it xs ≡ false
    → Returns (Answers (update it s.lerrno xs)) (ll_set fuel s it)
unfolding ll_set
ll_set-refines fuel s it xs h enough fits =
    let (p, found, at) = find-Located fuel s it.name xs h enough in go p found at
  where
    go :
        (p : Ptr)
        → find fuel (same_name it.name) s.heap s.first ≡ ok p
        → Located s it.name xs p
        → Returns (Answers (update it s.lerrno xs)) (ll_set fuel s it)
    go p found (here us x vs pne w st got swap _) = elim (Bool-cases (same_own it.own x)) [
      | inl own ↦
          rw (found, not_null pne, update-own it s.lerrno xs x got own, swap (stored x it))
            (set_value-refines s it x p us vs pne w st own
              (ground (arith, overruns-own it s.lerrno xs x got own)))
      | inr other ↦
          rw (found, not_null pne, update-perm it s.lerrno xs x got other)
            (set_value-perm s it x p us vs pne w other (refused s xs el_perm h))
    ]
    go p found (nowhere e got) =
        rw (found, e, update-none it s.lerrno xs got) (refused s xs el_noext h)

-- On nodes that are a list shorter than the fuel, an update by the owner whose value fills its
-- array with no NUL runs past it in `strcpy`.
pub ll_set-overruns :
    (fuel : ℕ) (s : Store) (it : ItemNv) (xs : List ItemNv)
    → Holds s xs
    → length xs < fuel
    → overruns it xs ≡ true
    → ll_set fuel s it ≡ fault
unfolding ll_set set_value strcpy terminated
ll_set-overruns fuel s it xs h enough long =
    let (p, found, at) = find-Located fuel s it.name xs h enough in go p found at
  where
    go :
        (p : Ptr)
        → find fuel (same_name it.name) s.heap s.first ≡ ok p
        → Located s it.name xs p
        → ll_set fuel s it ≡ fault
    go p found (here us x vs pne w st got swap _) = elim (Bool-cases (same_own it.own x)) [
      | inl own ↦
          let over : terminated it ≡ false =
            ground (arith, overruns-own it s.lerrno xs x got own) in
          rw (found, not_null pne, load-ok s.heap p pne w.holds, own, over)
      | inr other ↦ cc (long, overruns-perm it s.lerrno xs x got other)
    ]
    go p found (nowhere e got) = cc (long, overruns-none it s.lerrno xs got)
