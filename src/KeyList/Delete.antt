-- ===== src/KeyList/Delete.antt =====
-- `tree_del` of src/imp/30-02.c.
use tlpiexer.Prelude.{
  ℕ, zero, suc, ◌<◌, ◌+◌, ◌-◌, ◌≡◌, refl, sym, ap, subst, ◌∙◌, Bool, true, false, none, some, List,
  [], ◌∷◌, ◌++◌, arith, if◌then◌else◌, ok, length, Returns, Returns-bind, ◌==◌, ◌>>=◌,
  length-append,
}
use tlpiexer.CText.{Bytes}
use tlpiexer.DList.{Ptr, null, load}
use tlpiexer.DList.Chain.{Cells, items, head_or, last_or, Chain, load-ok}
use tlpiexer.DList.Surgery.{Chain-Last, Chain-split}
use tlpiexer.DList.Unlink.{Between, Between-Chain}
use tlpiexer.DList.Find.{items-append, Missed, length-items}
use tlpiexer.KeyList.{Entry, Tree, ret_failure, has_key, with_lock, del_loop, tree_del}
use tlpiexer.KeyList.Spec.{
  lookup, erase, Distinct, Holds, Located, nowhere, here, find-Located, lookup-present,
  erase-present, Distinct-behind, Missed-lookup,
}
use tlpiexer.KeyList.Add.{Done, not_null}
use tlpiexer.KeyList.Cut.{Cut, cut-Cut}

-- The walk of `tree_del` over elements that have another key.
walk :
    (us vs : Cells Entry) (t : Tree) (k : Bytes) (prev : Ptr) (g f : ℕ) (del : Bool)
    → g ≡ length us + f
    → Chain t.heap prev null (us ++ vs)
    → Missed (has_key k) (items us)
    → del_loop g t (head_or null (us ++ vs)) k del ≡ del_loop f t (head_or null vs) k del
unfolding del_loop
walk [] vs t k prev g f del e c m =
    let e' : g ≡ f = omega arith in ap (λ n. del_loop n t (head_or null vs) k del) e'
walk ((p, x) ∷ us) vs t k prev zero f del e c (miss, m) = absurd (omega arith)
walk ((p, x) ∷ us) vs t k prev (suc g) f del e c (miss, m) =
    rw (not_null c.0, load-ok t.heap p c.0 c.1, miss) (walk us vs t k p g f del (omega arith) c.3 m)

-- Where no element has the key the walk changes nothing.
walk_past :
    (us : Cells Entry) (t : Tree) (k : Bytes) (prev : Ptr) (g : ℕ) (del : Bool)
    → length us < g
    → Chain t.heap prev null us
    → Missed (has_key k) (items us)
    → del_loop g t (head_or null us) k del ≡ ok (t, del)
unfolding del_loop
walk_past us t k prev zero del enough c m = absurd (omega arith)
walk_past [] t k prev (suc g) del enough c m = refl
walk_past ((p, x) ∷ us) t k prev (suc g) del enough c (miss, m) =
    rw (not_null c.0, load-ok t.heap p c.0 c.1, miss) (walk_past us t k p g del (omega arith) c.3 m)

-- Behind the element the loop goes on from the one before it, and finds nothing more.
resume :
    (f : ℕ) (t t' : Tree) (k : Bytes) (us vs : Cells Entry) (x : Entry)
    → Cut t us x vs t'
    → Missed (has_key k) (items vs)
    → length vs < f
    → (if last_or null us == null
        then ok (t', true)
        else (load t'.heap (last_or null us) >>= λ m. del_loop f t' m.next k true))
      ≡ ok (t', true)
resume f t t' k [] vs x c m enough = refl
resume f t t' k ((q, z) ∷ us) vs x c m enough =
    let (front, back, apart) = Chain-split t'.heap null null ((q, z) ∷ us) vs c.chain in
    let end = Chain-Last t'.heap null (head_or null vs) null q z us front in
    rw (not_null end.ne_null, load-ok t'.heap (last_or q us) end.ne_null end.holds, end.ends)
      (walk_past vs t' k (last_or q us) f true enough back m)

-- From the element on, the loop cuts it out and ends.
loop_at :
    (f : ℕ) (t : Tree) (k : Bytes) (p : Ptr) (us : Cells Entry) (x : Entry) (vs : Cells Entry)
    → Between t.heap us p x vs
    → has_key k x ≡ true
    → t.first ≡ head_or null (us ++ (p, x) ∷ vs)
    → t.last ≡ last_or null (us ++ (p, x) ∷ vs)
    → Missed (has_key k) (items vs)
    → length vs < f
    → Returns (λ (t', del). Cut t us x vs t' × (del ≡ true)) (del_loop (suc f) t p k false)
unfolding del_loop
loop_at f t k p us x vs w hit start end m enough =
    rw (not_null w.ne_null, load-ok t.heap p w.ne_null w.holds, hit)
      (Returns-bind (Cut t us x vs) (λ (t', del). Cut t us x vs t' × (del ≡ true)) _ _
        (cut-Cut t p x us vs w start end)
        (λ t' c. rw (resume f t t' k us vs x c m enough) (c, refl)))

-- The rounds left at an element with `us` elements before it and `vs` behind.
spare : (us vs fuel : ℕ) → us + suc vs < fuel → (f : ℕ) × (fuel ≡ us + suc f) × (vs < f)
spare us vs fuel enough = (fuel - suc us, omega arith, omega arith)

module _ (fuel : ℕ) (t : Tree) (xs : List Entry) (h : Holds t xs) (enough : length xs < fuel)
    (free : t.locked ≡ false) where
  held : Holds (record t { locked = true }) xs
  held = record { cells = h.cells; chain = h.chain; start = h.start; end = h.end; same = h.same }

  -- With the mutex free and elements that are a list of distinct keys shorter than the fuel,
  -- `tree_del` of a key that is there returns: it takes out its entry, gives the two pointers to
  -- `free`, and gives the mutex back.
  pub tree_del-erase :
      (k : Bytes) (x : Entry)
      → Distinct xs
      → lookup k xs ≡ some x
      → Returns (Done (erase k xs) (x ∷ t.freed)) (tree_del fuel t k)
  unfolding tree_del with_lock
  tree_del-erase k x d there =
      let (p, found, at) = find-Located fuel (record t { locked = true }) k xs held enough in
      go p at
    where
      go :
          (p : Ptr)
          → Located (record t { locked = true }) k xs p
          → Returns (Done (erase k xs) (x ∷ t.freed)) (tree_del fuel t k)
      go p (nowhere _ gone) = absurd cc
      go p (here us y vs pne w m hit same start end) =
          let (f, split, room) = spare (length us) (length vs) fuel (
            let e = ap length same in
            let a = length-append (items us) (y ∷ items vs) in
            let l = length-items us in let r = length-items vs in omega arith) in
          let behind =
            Distinct-behind k y hit (items vs) (items us) (subst Distinct (sym same) d) in
          let to =
            ap (λ q. del_loop fuel (record t { locked = true }) q k false) start
            ∙ walk us ((p, y) ∷ vs) (record t { locked = true }) k null fuel (suc f) false split
                (Between-Chain t.heap us p y vs w) m in
          let one : y ≡ x = cc (there, same, lookup-present k y hit (items vs) (items us) m) in
          let left = sym (ap (erase k) same) ∙ erase-present k y hit (items vs) (items us) m in
          rw (free, to)
            (Returns-bind (λ r. Done (erase k xs) (x ∷ t.freed) (some r))
              (Done (erase k xs) (x ∷ t.freed)) _ _
              (Returns-bind (λ r. Cut (record t { locked = true }) us y vs r.0 × (r.1 ≡ true))
                (λ r. Done (erase k xs) (x ∷ t.freed) (some r)) _ _
                (loop_at f (record t { locked = true }) k p us y vs w hit start end behind room)
                (λ r c. record {
                  tree = record r.0 { locked = false };
                  returned = rw (c.1) refl;
                  free = refl;
                  holds = record {
                    cells = us ++ vs;
                    chain = c.0.chain;
                    start = c.0.start;
                    end = c.0.end;
                    same = items-append us vs ∙ sym left;
                  };
                  log = c.0.freed ∙ ap (λ z. z ∷ t.freed) one;
                }))
              (λ r d. d))

  -- With the mutex free and elements that are a list shorter than the fuel, `tree_del` of a key
  -- that no entry has fails and changes nothing, and gives the mutex back.
  pub tree_del-missing :
      (k : Bytes)
      → lookup k xs ≡ none
      → tree_del fuel t k ≡ ok (some (ret_failure, record t { locked = false }))
  unfolding tree_del with_lock
  tree_del-missing k gone =
      let past =
        walk_past h.cells (record t { locked = true }) k null fuel false
          (let l = length-items h.cells in let e = ap length h.same in omega arith) h.chain
          (subst (Missed (has_key k)) (sym h.same) (Missed-lookup k xs gone)) in
      rw (free, ap (λ p. del_loop fuel (record t { locked = true }) p k false) h.start ∙ past)
