-- ===== src/KeyList/Spec.antt =====
-- What the list of src/imp/30-02.c promises, over a plain list of entries, and which list the elements
-- of a tree stand for.
use tlpiexer.Prelude.{
  ℕ, ◌<◌, ◌≡◌, ◌≢◌, refl, sym, ap, subst, ◌∙◌, true, Option, none, some, List, [], ◌∷◌, ◌++◌, arith,
  if◌then◌else◌, ok, length,
}
use tlpiexer.CText.{Bytes, strcmp_eq_iff}
use tlpiexer.DList.{Ptr, null, find}
use tlpiexer.DList.Chain.{Cells, items, head_or, last_or, Chain}
use tlpiexer.DList.Unlink.{Between, Chain-Between}
use tlpiexer.DList.Find.{Missed, Hit, absent, present, find-Hit, items-append, length-items}
use tlpiexer.KeyList.{Entry, Tree, has_key}

unfoldable pub lookup : Bytes → List Entry → Option Entry
lookup k [] = none
lookup k (x ∷ xs) = if has_key k x then some x else lookup k xs

unfoldable pub erase : Bytes → List Entry → List Entry
erase k [] = []
erase k (x ∷ xs) = if has_key k x then xs else x ∷ erase k xs

-- No two entries have one key.
abbrev pub Distinct : List Entry → Type 0
Distinct [] = Unit {0}
Distinct (x ∷ xs) = (lookup x.key xs ≡ none) × Distinct xs

-- The elements from `first` to `last` are `xs`, linked both ways.
pub record Holds (t : Tree) (xs : List Entry) : Type 0 where
  pub cells : Cells Entry
  pub chain : Chain t.heap null null cells
  pub start : t.first ≡ head_or null cells
  pub end : t.last ≡ last_or null cells
  pub same : items cells ≡ xs

module _ (k : Bytes) where
  pub lookup-Missed : (xs : List Entry) → Missed (has_key k) xs → lookup k xs ≡ none
  unfolding lookup
  lookup-Missed [] m = refl
  lookup-Missed (x ∷ xs) (miss, m) = ground (arith, lookup-Missed xs m)

  pub Missed-lookup : (xs : List Entry) → lookup k xs ≡ none → Missed (has_key k) xs
  unfolding lookup
  Missed-lookup [] h = tt
  Missed-lookup (x ∷ xs) h = (ground arith, Missed-lookup xs (ground arith))

  module _ (x : Entry) (hit : has_key k x ≡ true) (ys : List Entry) where
    pub lookup-present :
        (xs : List Entry) → Missed (has_key k) xs → lookup k (xs ++ x ∷ ys) ≡ some x
    unfolding lookup
    lookup-present [] m = ground arith
    lookup-present (z ∷ xs) (miss, m) = ground (arith, lookup-present xs m)

    pub erase-present :
        (xs : List Entry) → Missed (has_key k) xs → erase k (xs ++ x ∷ ys) ≡ xs ++ ys
    unfolding erase
    erase-present [] m = ground arith
    erase-present (z ∷ xs) (miss, m) = ground (arith, erase-present xs m)

    -- Where keys are distinct, none of the entries behind has the key too.
    pub Distinct-behind : (xs : List Entry) → Distinct (xs ++ x ∷ ys) → Missed (has_key k) ys
    Distinct-behind [] (new, d) =
        Missed-lookup ys (subst (λ j. lookup j ys ≡ none) ((strcmp_eq_iff x.key k).0 hit) new)
    Distinct-behind (z ∷ xs) (new, d) = Distinct-behind xs d

-- Where the first entry of a key is.
pub data Located (t : Tree) (k : Bytes) (xs : List Entry) (p : Ptr) : Type 0 where
  nowhere : p ≡ null → lookup k xs ≡ none → Located t k xs p
  here :
      (us : Cells Entry) (x : Entry) (vs : Cells Entry)
      → p ≢ null
      → Between t.heap us p x vs
      → Missed (has_key k) (items us)
      → has_key k x ≡ true
      → items us ++ x ∷ items vs ≡ xs
      → t.first ≡ head_or null (us ++ (p, x) ∷ vs)
      → t.last ≡ last_or null (us ++ (p, x) ∷ vs)
      → Located t k xs p

pub find-Located :
    (fuel : ℕ) (t : Tree) (k : Bytes) (xs : List Entry)
    → Holds t xs
    → length xs < fuel
    → (p : Ptr) × (find fuel (has_key k) t.heap t.first ≡ ok p) × Located t k xs p
find-Located fuel t k xs h enough =
    let room = subst (λ l. length l < fuel) (sym h.same) enough in
    let (p, found, at) =
      find-Hit (has_key k) fuel t.heap null h.cells h.chain (omega (arith, length-items h.cells)) in
    (p, ap (find fuel (has_key k) t.heap) h.start ∙ found, go p at)
  where
    go : (p : Ptr) → Hit (has_key k) t.heap h.cells p → Located t k xs p
    go p (absent e m) = nowhere e (lookup-Missed k xs (subst (Missed (has_key k)) h.same m))
    go p (present us x vs e ne hit m) =
        here us x vs ne (Chain-Between t.heap us p x vs (subst (Chain t.heap null null) e h.chain))
          m hit (sym (items-append us ((p, x) ∷ vs)) ∙ ap items (sym e) ∙ h.same)
          (h.start ∙ ap (head_or null) e) (h.end ∙ ap (last_or null) e)
