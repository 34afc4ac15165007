-- ===== src/DList/Surgery.antt =====
-- Cutting a chain in two, joining two, and changing the links at its ends.
use tlpiexer.Prelude.{◌≡◌, refl, true, false, ◌||◌, some, [], ◌∷◌, ◌++◌, arith, ◌∙◌, ap, ◌≢◌}
use tlpiexer.DList.{Ptr, null, Node, node, Heap, write}
use tlpiexer.DList.Chain.{Cells, has, head_or, last_or, Chain, Chain-write, write_self, write_ne}

module _ {A : Type 0} where
  abbrev pub Apart : Cells A → Cells A → Type 0
  Apart [] ys = Unit {0}
  Apart ((p, x) ∷ xs) ys = (has p ys ≡ false) × Apart xs ys

  pub has-append : (a : Ptr) (xs ys : Cells A) → has a (xs ++ ys) ≡ (has a xs || has a ys)
  has-append a [] ys = refl
  has-append a ((p, x) ∷ xs) ys = ground (arith, has-append a xs ys)

  pub head_or-append :
      (stop : Ptr) (xs ys : Cells A) → head_or stop (xs ++ ys) ≡ head_or (head_or stop ys) xs
  head_or-append stop [] ys = refl
  head_or-append stop ((p, x) ∷ xs) ys = refl

  pub last_or-append :
      (prev : Ptr) (xs ys : Cells A) → last_or prev (xs ++ ys) ≡ last_or (last_or prev xs) ys
  last_or-append prev [] ys = refl
  last_or-append prev ((p, x) ∷ xs) ys = last_or-append p xs ys

  -- A chain of `xs ++ ys` is a chain of `xs` that ends where one of `ys` begins.
  pub Chain-split :
      (h : Heap A) (prev stop : Ptr) (xs ys : Cells A)
      → Chain h prev stop (xs ++ ys)
      → Chain h prev (head_or stop ys) xs × Chain h (last_or prev xs) stop ys × Apart xs ys
  Chain-split h prev stop [] ys s = (tt, s, tt)
  Chain-split h prev stop ((p, x) ∷ xs) ys (ne, e, fresh, s) =
      let (front, back, apart) = Chain-split h p stop xs ys s in
      (
        (ne, rw (← head_or-append stop xs ys) e, ground (arith, has-append p xs ys), front),
        back,
        (ground (arith, has-append p xs ys), apart),
      )

  pub Chain-join :
      (h : Heap A) (prev stop : Ptr) (xs ys : Cells A)
      → Chain h prev (head_or stop ys) xs
      → Chain h (last_or prev xs) stop ys
      → Apart xs ys
      → Chain h prev stop (xs ++ ys)
  Chain-join h prev stop [] ys front back apart = back
  Chain-join h prev stop ((p, x) ∷ xs) ys (ne, e, fresh, s) back (out, apart) = (
    ne,
    rw (head_or-append stop xs ys) e,
    ground (arith, has-append p xs ys),
    Chain-join h p stop xs ys s back apart,
  )

  pub Apart-mem : (a : Ptr) (xs ys : Cells A) → Apart xs ys → has a xs ≡ true → has a ys ≡ false
  Apart-mem a [] ys apart i = cc
  Apart-mem a ((p, x) ∷ xs) ys (out, apart) i = ground (arith, Apart-mem a xs ys apart)

  pub Apart-head :
      (xs : Cells A) (b : Ptr) (y : A) (ys : Cells A)
      → Apart xs ((b, y) ∷ ys)
      → (has b xs ≡ false) × Apart xs ys
  Apart-head [] b y ys apart = (refl, tt)
  Apart-head ((p, x) ∷ xs) b y ys (out, apart) =
      let (rest, apart') = Apart-head xs b y ys apart in (ground arith, (ground arith, apart'))

  has-last_or : (p : Ptr) (x : A) (xs : Cells A) → has (last_or p xs) ((p, x) ∷ xs) ≡ true
  has-last_or p x [] = ground arith
  has-last_or p x ((q, y) ∷ xs) = ground (arith, has-last_or q y xs)

  pub ne_of_has : {a p : Ptr} (xs : Cells A) → has p xs ≡ false → has a xs ≡ true → p ≢ a
  ne_of_has xs out i e = cc (ap (λ t. has t xs) e, out, i)

  -- The last node of a chain, and the chain once that node's `next` is `q`.
  pub record Last (h : Heap A) (prev stop q p : Ptr) (x : A) (xs : Cells A) : Type 0 where
    pub last : Node A
    pub ne_null : last_or p xs ≢ null
    pub holds : h (last_or p xs) ≡ some last
    pub ends : last.next ≡ stop
    pub inside : has (last_or p xs) ((p, x) ∷ xs) ≡ true
    pub relinked :
        Chain (write h (last_or p xs) (some (record last { next = q }))) prev q ((p, x) ∷ xs)

  pub Chain-Last :
      (h : Heap A) (prev stop q p : Ptr) (x : A) (xs : Cells A)
      → Chain h prev stop ((p, x) ∷ xs)
      → Last h prev stop q p x xs
  Chain-Last h prev stop q p x [] (ne, e, fresh, s) = record {
    last = node x stop prev;
    ne_null = ne;
    holds = e;
    ends = refl;
    inside = ground arith;
    relinked = (ne, write_self h p _, refl, tt);
  }
  Chain-Last h prev stop q p x ((r, y) ∷ xs) (ne, e, fresh, s) =
      let end = Chain-Last h p stop q r y xs s in
      record {
        last = end.last;
        ne_null = end.ne_null;
        holds = end.holds;
        ends = end.ends;
        inside = ground (arith, end.inside);
        relinked = (
          ne,
          write_ne h (last_or r xs) p _ (ne_of_has ((r, y) ∷ xs) fresh end.inside) ∙ e,
          fresh,
          end.relinked,
        );
      }

  -- The chain once its first node's `prev` is `q`.
  pub Chain-first :
      (h : Heap A) (prev stop q p : Ptr) (x : A) (xs : Cells A)
      → Chain h prev stop ((p, x) ∷ xs)
      → Chain (write h p (some (node x (head_or stop xs) q))) q stop ((p, x) ∷ xs)
  Chain-first h prev stop q p x xs (ne, e, fresh, s) =
      (ne, write_self h p _, fresh, Chain-write h p stop p _ xs fresh s)

  pub Apart-snoc :
      (xs : Cells A) (b : Ptr) (y : A) (ys : Cells A)
      → has b xs ≡ false
      → Apart xs ys
      → Apart xs ((b, y) ∷ ys)
  Apart-snoc [] b y ys out apart = tt
  Apart-snoc ((p, x) ∷ xs) b y ys out (out', apart) =
      (ground arith, Apart-snoc xs b y ys (ground arith) apart)

  pub ne_of_head : {a : Ptr} (b : Ptr) (y : A) (ys : Cells A) → has a ((b, y) ∷ ys) ≡ false → b ≢ a
  ne_of_head b y ys out e = ground arith
