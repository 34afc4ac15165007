-- ===== src/DList/Append.antt =====
-- A new node behind a chain.
use tlpiexer.Prelude.{◌≡◌, ◌≢◌, refl, ◌∙◌, false, none, some, [], ◌∷◌, ◌++◌, arith, ok}
use tlpiexer.DList.{Ptr, null, node, Heap, write, set_next, set_prev}
use tlpiexer.DList.Chain.{
  Cells, has, last_or, Chain, Chain-write, write_self, write_ne, set_next-ok, set_prev-ok,
  not-has_of_none,
}
use tlpiexer.DList.Surgery.{Apart, Chain-Last, Chain-join, ne_of_has}

module _ {A : Type 0} where
  Apart-single : (xs : Cells A) (a : Ptr) (x : A) → has a xs ≡ false → Apart xs ((a, x) ∷ [])
  Apart-single [] a x out = tt
  Apart-single ((p, z) ∷ xs) a x out = (ground arith, Apart-single xs a x (ground arith))

  module _ (h : Heap A) (fresh p : Ptr) (x z : A) (xs : Cells A) (ne : fresh ≢ null)
      (unused : h fresh ≡ none) (s : Chain h null null ((p, z) ∷ xs)) where
    outside : has fresh ((p, z) ∷ xs) ≡ false
    outside = not-has_of_none h null null fresh ((p, z) ∷ xs) unused s

    abbrev pub made : Heap A
    made = write h fresh (some (node x null null))

    pub made-Chain : Chain made null null ((p, z) ∷ xs)
    made-Chain = Chain-write h null null fresh _ ((p, z) ∷ xs) outside s

    abbrev pub linked : Heap A
    linked =
        write made (last_or p xs)
          (some (record (Chain-Last made null null fresh p z xs made-Chain).last { next = fresh }))

    apart_last : fresh ≢ last_or p xs
    apart_last =
        ne_of_has ((p, z) ∷ xs) outside (Chain-Last made null null fresh p z xs made-Chain).inside

    pub append_next : set_next made (last_or p xs) fresh ≡ ok linked
    append_next =
        let end = Chain-Last made null null fresh p z xs made-Chain in
        set_next-ok made (last_or p xs) fresh end.ne_null end.holds

    abbrev pub appended : Heap A
    appended = write linked fresh (some (node x null (last_or p xs)))

    pub append_prev : set_prev linked fresh (last_or p xs) ≡ ok appended
    append_prev =
        set_prev-ok linked fresh (last_or p xs) ne
          (write_ne made (last_or p xs) fresh _ apart_last ∙ write_self h fresh _)

    pub Chain-appended : Chain appended null null (((p, z) ∷ xs) ++ (fresh, x) ∷ [])
    Chain-appended =
        let end = Chain-Last made null null fresh p z xs made-Chain in
        Chain-join appended null null ((p, z) ∷ xs) ((fresh, x) ∷ [])
          (Chain-write linked null fresh fresh _ ((p, z) ∷ xs) outside end.relinked)
          (ne, write_self linked fresh _, refl, tt) (Apart-single ((p, z) ∷ xs) fresh x outside)
