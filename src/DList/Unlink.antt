-- ===== src/DList/Unlink.antt =====
-- Taking one node out of a chain, in the three places where it may stand.
use tlpiexer.Prelude.{
  Bool, ◌||◌, ◌∙◌, arith, subst, sym, append-nil, ◌≡◌, ◌≢◌, false, none, some, [], ◌∷◌, ◌++◌,
}
use tlpiexer.DList.{Ptr, null, node, Heap, write}
use tlpiexer.DList.Chain.{Cells, has, head_or, last_or, Chain, Chain-write, write_self}
use tlpiexer.DList.Surgery.{
  Apart, Apart-snoc, Apart-mem, Apart-head, has-append, Chain-split, Chain-join, Chain-Last,
  Chain-first,
}

module _ {A : Type 0} where
  -- A node `a` that stands between the chains `xs` and `ys`.
  pub record Between (h : Heap A) (xs : Cells A) (a : Ptr) (x : A) (ys : Cells A) : Type 0 where
    pub front : Chain h null a xs
    pub ne_null : a ≢ null
    pub holds : h a ≡ some (node x (head_or null ys) (last_or null xs))
    pub back : Chain h a null ys
    pub not_front : has a xs ≡ false
    pub not_back : has a ys ≡ false
    pub apart : Apart xs ys

  pub Chain-Between :
      (h : Heap A) (xs : Cells A) (a : Ptr) (x : A) (ys : Cells A)
      → Chain h null null (xs ++ (a, x) ∷ ys)
      → Between h xs a x ys
  Chain-Between h xs a x ys s =
      let (front, mid, apart) = Chain-split h null null xs ((a, x) ∷ ys) s in
      record {
        front = front;
        ne_null = mid.0;
        holds = mid.1;
        back = mid.3;
        not_front = (Apart-head xs a x ys apart).0;
        not_back = mid.2;
        apart = (Apart-head xs a x ys apart).1;
      }

  pub Between-Chain :
      (h : Heap A) (xs : Cells A) (a : Ptr) (x : A) (ys : Cells A)
      → Between h xs a x ys
      → Chain h null null (xs ++ (a, x) ∷ ys)
  Between-Chain h xs a x ys w =
      Chain-join h null null xs ((a, x) ∷ ys) w.front (w.ne_null, w.holds, w.not_back, w.back)
        (Apart-snoc xs a x ys w.not_front w.apart)

  -- The node comes first: its successor loses its `prev`.
  pub relink_first :
      (h : Heap A) (a b : Ptr) (x y : A) (ys : Cells A)
      → Between h [] a x ((b, y) ∷ ys)
      → Chain (write h b (some (node y (head_or null ys) null))) null null ((b, y) ∷ ys)
  relink_first h a b x y ys w = Chain-first h a null null b y ys w.back

  -- The node comes last: its predecessor loses its `next`.
  pub relink_last :
      (h : Heap A) (p a : Ptr) (z x : A) (xs : Cells A) (w : Between h ((p, z) ∷ xs) a x [])
      → Chain
          (write h
            (last_or p xs)
            (some (record (Chain-Last h null a null p z xs w.front).last { next = null })))
          null
          null
          (((p, z) ∷ xs) ++ [])
  relink_last h p a z x xs w =
      subst (Chain _ null null) (sym (append-nil ((p, z) ∷ xs)))
        (Chain-Last h null a null p z xs w.front).relinked

  -- The node stands between two others, which are joined.
  pub relink_middle :
      (h : Heap A) (p a b : Ptr) (z x y : A) (xs ys : Cells A)
      (w : Between h ((p, z) ∷ xs) a x ((b, y) ∷ ys))
      → Chain
          (write
            (write h
              (last_or p xs)
              (some (record (Chain-Last h null a b p z xs w.front).last { next = b })))
            b
            (some (node y (head_or null ys) (last_or p xs))))
          null
          null
          (((p, z) ∷ xs) ++ (b, y) ∷ ys)
  relink_middle h p a b z x y xs ys w =
      let end = Chain-Last h null a b p z xs w.front in
      let h1 = write h (last_or p xs) (some (record end.last { next = b })) in
      let out = Apart-mem (last_or p xs) ((p, z) ∷ xs) ((b, y) ∷ ys) w.apart end.inside in
      let back1 = Chain-write h a null (last_or p xs) _ ((b, y) ∷ ys) out w.back in
      let back2 = Chain-first h1 a null (last_or p xs) b y ys back1 in
      let clear = (Apart-head ((p, z) ∷ xs) b y ys w.apart).0 in
      let front2 = Chain-write h1 null b b _ ((p, z) ∷ xs) clear end.relinked in
      Chain-join _ null null ((p, z) ∷ xs) ((b, y) ∷ ys) front2 back2 w.apart

  -- The node itself is given back.
  pub Chain-release :
      (h g : Heap A) (us : Cells A) (a : Ptr) (x : A) (vs : Cells A)
      → Between h us a x vs
      → Chain g null null (us ++ vs)
      → Chain (write g a none) null null (us ++ vs)
  Chain-release h g us a x vs w c =
      Chain-write g null null a none (us ++ vs)
        (has-append a us vs ∙ or_false (has a us) (has a vs) w.not_front w.not_back) c
    where
      or_false : (p q : Bool) → p ≡ false → q ≡ false → (p || q) ≡ false
      or_false p q e f = ground arith

  -- Another item at the same address, under the same links.
  pub replace_item :
      (h : Heap A) (xs : Cells A) (a : Ptr) (x x' : A) (ys : Cells A)
      → Between h xs a x ys
      → Chain
          (write h a (some (node x' (head_or null ys) (last_or null xs))))
          null
          null
          (xs ++ (a, x') ∷ ys)
  replace_item h xs a x x' ys w =
      Chain-join _ null null xs ((a, x') ∷ ys) (Chain-write h null a a _ xs w.not_front w.front)
        (w.ne_null, write_self h a _, w.not_back, Chain-write h a null a _ ys w.not_back w.back)
        (Apart-snoc xs a x' ys w.not_front w.apart)
