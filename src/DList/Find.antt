-- ===== src/DList/Find.antt =====
-- Where the walk over a chain stops.
use tlpiexer.Prelude.{
  ℕ, zero, suc, ◌<◌, ◌≡◌, ◌≢◌, refl, Bool, true, false, [], ◌∷◌, ◌++◌, List, arith, length, ok,
  Bool-cases, inl, inr, ap,
}
use tlpiexer.DList.{Ptr, null, Heap, find}
use tlpiexer.DList.Chain.{
  Cells, items, head_or, Chain, load-ok, head_or-ne-null as head_or-not-null,
}

pub items-append : {A : Type 0} (xs ys : Cells A) → items (xs ++ ys) ≡ items xs ++ items ys
items-append [] ys = refl
items-append ((p, x) ∷ xs) ys = ap (λ l. x ∷ l) (items-append xs ys)

pub length-items : {A : Type 0} (xs : Cells A) → length (items xs) ≡ length xs
length-items [] = refl
length-items ((p, x) ∷ xs) = ap suc (length-items xs)

module _ {A : Type 0} (t : A → Bool) where
  -- No item passes the test.
  abbrev pub Missed : List A → Type 0
  Missed [] = Unit {0}
  Missed (x ∷ xs) = (t x ≡ false) × Missed xs

  -- The walk goes past every cell, or stops at the first that passes the test.
  pub data Hit (h : Heap A) (cells : Cells A) : Ptr → Type 0 where
    absent : {p : Ptr} → p ≡ null → Missed (items cells) → Hit h cells p
    present :
        {p : Ptr} (xs : Cells A) (x : A) (ys : Cells A)
        → cells ≡ xs ++ (p, x) ∷ ys
        → p ≢ null
        → t x ≡ true
        → Missed (items xs)
        → Hit h cells p

  Hit-cons :
      {h : Heap A} (p : Ptr) (x : A) (xs : Cells A) {q : Ptr}
      → t x ≡ false
      → Hit h xs q
      → Hit h ((p, x) ∷ xs) q
  Hit-cons p x xs miss (absent e m) = absent e (miss, m)
  Hit-cons p x xs miss (present us a bs e ne hit m) =
      present ((p, x) ∷ us) a bs (ap (λ l. (p, x) ∷ l) e) ne hit (miss, m)

  -- With fuel for one round more than there are nodes the walk returns, and finds the first match.
  pub find-Hit :
      (fuel : ℕ) (h : Heap A) (prev : Ptr) (cells : Cells A)
      → Chain h prev null cells
      → length cells < fuel
      → (p : Ptr) × (find fuel t h (head_or null cells) ≡ ok p) × Hit h cells p
  unfolding find
  find-Hit zero h prev cells s enough = absurd (omega arith)
  find-Hit (suc f) h prev [] s enough = (null, refl, absent refl tt)
  find-Hit (suc f) h prev ((p, x) ∷ xs) (ne, e, fresh, s) enough = elim (Bool-cases (t x)) [
    | inl hit ↦ (
      p,
      rw (head_or-not-null h prev p x xs (ne, e, fresh, s), load-ok h p ne e, hit),
      present [] x xs refl ne hit tt,
    )
    | inr miss ↦
        let (q, found, at) = find-Hit f h p xs s (omega arith) in
        (
          q,
          rw (head_or-not-null h prev p x xs (ne, e, fresh, s), load-ok h p ne e, miss) found,
          Hit-cons p x xs miss at,
        )
  ]
