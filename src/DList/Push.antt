-- ===== src/DList/Push.antt =====
-- A new node in front of a chain.
use tlpiexer.Prelude.{◌≡◌, ◌≢◌, ◌∙◌, sym, false, none, some, ◌∷◌, ok}
use tlpiexer.DList.{Ptr, null, node, Heap, write, set_next, set_prev}
use tlpiexer.DList.Chain.{
  Cells, has, head_or, Chain, Chain-write, write_self, write_ne, set_next-ok, set_prev-ok,
  not-has_of_none,
}
use tlpiexer.DList.Surgery.{Chain-first, ne_of_head}

module _ {A : Type 0} (h : Heap A) (fresh b : Ptr) (x y : A) (ys : Cells A) where
  -- The heap once the node at `fresh` is linked before `b`.
  abbrev pub pushed : Heap A
  pushed =
      write (write (write h fresh (some (node x null null))) fresh (some (node x b null))) b
        (some (node y (head_or null ys) fresh))

  module _ (ne : fresh ≢ null) (unused : h fresh ≡ none) (s : Chain h null null ((b, y) ∷ ys)) where
    outside : has fresh ((b, y) ∷ ys) ≡ false
    outside = not-has_of_none h null null fresh ((b, y) ∷ ys) unused s

    pub push_next :
        set_next (write h fresh (some (node x null null))) fresh b
        ≡ ok (write (write h fresh (some (node x null null))) fresh (some (node x b null)))
    push_next = set_next-ok _ fresh b ne (write_self h fresh _)

    pub push_prev :
        set_prev
          (write (write h fresh (some (node x null null))) fresh (some (node x b null)))
          b
          fresh
        ≡ ok pushed
    push_prev = set_prev-ok _ b fresh s.0 (
        write_ne _ fresh b _ (ne_of_head b y ys outside)
        ∙ write_ne h fresh b _ (ne_of_head b y ys outside)
        ∙ s.1)

    pub Chain-pushed : Chain pushed null null ((fresh, x) ∷ (b, y) ∷ ys)
    Chain-pushed = (
      ne,
      write_ne _ b fresh _ (λ e. ne_of_head b y ys outside (sym e)) ∙ write_self _ fresh _,
      outside,
      Chain-first _ null null fresh b y ys (
          Chain-write _ null null fresh _ ((b, y) ∷ ys) outside
            (Chain-write h null null fresh _ ((b, y) ∷ ys) outside s)),
    )
