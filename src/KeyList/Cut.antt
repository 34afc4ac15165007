-- ===== src/KeyList/Cut.antt =====
-- Taking one element out, as `tree_del` of src/imp/30-02.c does it.
use tlpiexer.Prelude.{◌≡◌, refl, sym, ◌∙◌, [], ◌∷◌, ◌++◌, Returns}
use tlpiexer.DList.{Ptr, null, node}
use tlpiexer.DList.Chain.{Cells, head_or, last_or, Chain, set_next-ok, set_prev-ok, write_ne}
use tlpiexer.DList.Surgery.{last_or-append, Chain-Last, ne_of_head, Apart-mem}
use tlpiexer.DList.Unlink.{Between, relink_first, relink_last, relink_middle}
use tlpiexer.KeyList.{Entry, Tree, cut}
use tlpiexer.KeyList.Add.{not_null}

-- The tree without the element `x` between `us` and `vs`.
pub record Cut (t : Tree) (us : Cells Entry) (x : Entry) (vs : Cells Entry) (t' : Tree)
    : Type 0 where
  pub chain : Chain t'.heap null null (us ++ vs)
  pub start : t'.first ≡ head_or null (us ++ vs)
  pub end : t'.last ≡ last_or null (us ++ vs)
  pub locked : t'.locked ≡ t.locked
  pub freed : t'.freed ≡ x ∷ t.freed

module _ (t : Tree) (p : Ptr) (x : Entry) where
  cut_only : Between t.heap [] p x [] → Returns (Cut t [] x []) (cut t (node x null null))
  unfolding cut
  cut_only w = record { chain = tt; start = refl; end = refl; locked = refl; freed = refl }

  module _ (b : Ptr) (y : Entry) (ys : Cells Entry) where
    cut_head :
        Between t.heap [] p x ((b, y) ∷ ys)
        → t.last ≡ last_or b ys
        → Returns (Cut t [] x ((b, y) ∷ ys)) (cut t (node x b null))
    unfolding cut
    cut_head w end =
        rw (not_null w.back.0, set_prev-ok t.heap b null w.back.0 w.back.1)
          record {
            chain = relink_first t.heap p b x y ys w;
            start = refl;
            end = end;
            locked = refl;
            freed = refl;
          }

  module _ (q : Ptr) (z : Entry) (us : Cells Entry) where
    cut_end :
        Between t.heap ((q, z) ∷ us) p x []
        → t.first ≡ q
        → Returns (Cut t ((q, z) ∷ us) x []) (cut t (node x null (last_or q us)))
    unfolding cut
    cut_end w start =
        let end = Chain-Last t.heap null p null q z us w.front in
        rw (not_null end.ne_null, set_next-ok t.heap (last_or q us) null end.ne_null end.holds)
          record {
            chain = relink_last t.heap q p z x us w;
            start = start;
            end = sym (last_or-append null ((q, z) ∷ us) []);
            locked = refl;
            freed = refl;
          }

    module _ (b : Ptr) (y : Entry) (ys : Cells Entry) where
      cut_inner :
          Between t.heap ((q, z) ∷ us) p x ((b, y) ∷ ys)
          → t.first ≡ q
          → t.last ≡ last_or b ys
          → Returns (Cut t ((q, z) ∷ us) x ((b, y) ∷ ys)) (cut t (node x b (last_or q us)))
      unfolding cut
      cut_inner w start last =
          let end = Chain-Last t.heap null p b q z us w.front in
          let out = Apart-mem (last_or q us) ((q, z) ∷ us) ((b, y) ∷ ys) w.apart end.inside in
          rw
            (
              not_null end.ne_null,
              not_null w.back.0,
              set_next-ok t.heap (last_or q us) b end.ne_null end.holds,
              set_prev-ok _ b (last_or q us) w.back.0
                  (write_ne t.heap (last_or q us) b _ (ne_of_head b y ys out) ∙ w.back.1),
            )
            record {
              chain = relink_middle t.heap q p b z x y us ys w;
              start = start;
              end = last ∙ sym (last_or-append null ((q, z) ∷ us) ((b, y) ∷ ys));
              locked = refl;
              freed = refl;
            }

pub cut-Cut :
    (t : Tree) (p : Ptr) (x : Entry) (us vs : Cells Entry)
    → Between t.heap us p x vs
    → t.first ≡ head_or null (us ++ (p, x) ∷ vs)
    → t.last ≡ last_or null (us ++ (p, x) ∷ vs)
    → Returns (Cut t us x vs) (cut t (node x (head_or null vs) (last_or null us)))
cut-Cut t p x [] [] w start end = cut_only t p x w
cut-Cut t p x [] ((b, y) ∷ ys) w start end = cut_head t p x b y ys w end
cut-Cut t p x ((q, z) ∷ us) [] w start end = cut_end t p x q z us w start
cut-Cut t p x ((q, z) ∷ us) ((b, y) ∷ ys) w start end =
    cut_inner t p x q z us b y ys w start
      (end ∙ last_or-append null ((q, z) ∷ us) ((p, x) ∷ (b, y) ∷ ys))
