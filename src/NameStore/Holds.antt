-- ===== src/NameStore/Holds.antt =====
-- Which list of items the nodes of a store stand for, and what the walk by name finds in it.
use tlpiexer.Prelude.{
  ℕ, ◌<◌, ◌≡◌, refl, sym, ap, subst, ◌∙◌, ◌≢◌, true, none, some, List, [], ◌∷◌, ◌++◌, arith, length,
  ok,
}
use tlpiexer.CText.{Bytes}
use tlpiexer.DList.{Ptr, null, find}
use tlpiexer.DList.Chain.{Cells, items, head_or, Chain}
use tlpiexer.DList.Unlink.{Between, Chain-Between}
use tlpiexer.DList.Find.{Missed, Hit, absent, present, find-Hit, items-append, length-items}
use tlpiexer.NameStore.{ItemNv, Store, same_name}
use tlpiexer.NameStore.Spec.{lookup, replace, erase}

-- The list reachable from `first` is `xs`, linked both ways.
pub record Holds (s : Store) (xs : List ItemNv) : Type 0 where
  pub cells : Cells ItemNv
  pub chain : Chain s.heap null null cells
  pub start : s.first ≡ head_or null cells
  pub same : items cells ≡ xs

pub Holds-errno :
    (s : Store) (xs : List ItemNv) (e : ℕ) → Holds s xs → Holds (record s { lerrno = e }) xs
Holds-errno s xs e h = record { cells = h.cells; chain = h.chain; start = h.start; same = h.same }

module _ (k : Bytes) where
  pub lookup-Missed : (xs : List ItemNv) → Missed (same_name k) xs → lookup k xs ≡ none
  unfolding lookup
  lookup-Missed [] m = refl
  lookup-Missed (x ∷ xs) (miss, m) = ground (arith, lookup-Missed xs m)

  module _ (x : ItemNv) (hit : same_name k x ≡ true) (ys : List ItemNv) where
    pub lookup-present :
        (xs : List ItemNv) → Missed (same_name k) xs → lookup k (xs ++ x ∷ ys) ≡ some x
    unfolding lookup
    lookup-present [] m = ground arith
    lookup-present (z ∷ xs) (miss, m) = ground (arith, lookup-present xs m)

    pub replace-present :
        (y : ItemNv) (xs : List ItemNv)
        → Missed (same_name k) xs
        → replace k y (xs ++ x ∷ ys) ≡ xs ++ y ∷ ys
    unfolding replace
    replace-present y [] m = ground arith
    replace-present y (z ∷ xs) (miss, m) = ground (arith, replace-present y xs m)

    pub erase-present :
        (xs : List ItemNv) → Missed (same_name k) xs → erase k (xs ++ x ∷ ys) ≡ xs ++ ys
    unfolding erase
    erase-present [] m = ground arith
    erase-present (z ∷ xs) (miss, m) = ground (arith, erase-present xs m)

-- The walk by name: it returns, and says where the first item of that name is.
pub data Located (s : Store) (k : Bytes) (xs : List ItemNv) (p : Ptr) : Type 0 where
  nowhere : p ≡ null → lookup k xs ≡ none → Located s k xs p
  here :
      (us : Cells ItemNv) (x : ItemNv) (vs : Cells ItemNv)
      → p ≢ null
      → Between s.heap us p x vs
      → s.first ≡ head_or null (us ++ (p, x) ∷ vs)
      → lookup k xs ≡ some x
      → ((y : ItemNv) → replace k y xs ≡ items us ++ y ∷ items vs)
      → erase k xs ≡ items us ++ items vs
      → Located s k xs p

Hit-Located :
    (s : Store) (k : Bytes) (cells : Cells ItemNv) (p : Ptr)
    → Chain s.heap null null cells
    → s.first ≡ head_or null cells
    → Hit (same_name k) s.heap cells p
    → Located s k (items cells) p
Hit-Located s k cells p c st (absent e m) = nowhere e (lookup-Missed k _ m)
Hit-Located s k cells p c st (present us x vs e ne hit m) =
    subst (λ l. Located s k l p) (sym (ap items e ∙ items-append us ((p, x) ∷ vs)))
      (here us x vs ne (Chain-Between s.heap us p x vs (subst (Chain s.heap null null) e c))
        (st ∙ ap (head_or null) e) (lookup-present k x hit (items vs) (items us) m)
        (λ y. replace-present k x hit (items vs) y (items us) m)
        (erase-present k x hit (items vs) (items us) m))

pub find-Located :
    (fuel : ℕ) (s : Store) (k : Bytes) (xs : List ItemNv)
    → Holds s xs
    → length xs < fuel
    → (p : Ptr) × (find fuel (same_name k) s.heap s.first ≡ ok p) × Located s k xs p
find-Located fuel s k xs h enough =
    let room = subst (λ l. length l < fuel) (sym h.same) enough in
    let (p, found, at) =
      find-Hit (same_name k) fuel s.heap null h.cells h.chain
        (omega (arith, length-items h.cells)) in
    (
      p,
      ap (find fuel (same_name k) s.heap) h.start ∙ found,
      subst (λ l. Located s k l p) h.same (Hit-Located s k h.cells p h.chain h.start at),
    )
