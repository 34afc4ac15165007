-- ===== src/KeyList/Tests.antt =====
-- Runs of the list of src/imp/30-02.c.
use tlpiexer.Prelude.{
  refl, false, none, some, List, [], ◌∷◌, ◌++◌, arith, Returns, if◌then◌else◌, ◌==◌,
}
use tlpiexer.CText.{Bytes}
use tlpiexer.DList.{null, node}
use tlpiexer.KeyList.{Entry, Tree, tree_add, tree_del}
use tlpiexer.KeyList.Spec.{lookup, erase, Holds}
use tlpiexer.KeyList.Add.{Done, tree_add-new}
use tlpiexer.KeyList.Delete.{tree_del-erase}

abbrev entry_a : Entry
entry_a = record { key = 97 ∷ []; value = 40 }

abbrev entry_b : Entry
entry_b = record { key = 98 ∷ []; value = 41 }

-- A tree of the two elements at the addresses 10 and 11
abbrev pair : Tree
pair = record {
  heap = λ p.
      if p == 10
      then some (node entry_a 11 null)
      else if p == 11
      then some (node entry_b null 10)
      else none;
  first = 10;
  last = 11;
  locked = false;
  freed = [];
}

abbrev entries : List Entry
entries = entry_a ∷ entry_b ∷ []

pair-Holds : Holds pair entries
pair-Holds = record {
  cells = (10, entry_a) ∷ (11, entry_b) ∷ [];
  chain = ((λ e. omega arith), refl, refl, ((λ e. omega arith), refl, refl, tt));
  start = refl;
  end = refl;
  same = refl;
}

abbrev entry_c : Entry
entry_c = record { key = 99 ∷ []; value = 42 }

tree_add-new_example : Returns (Done (entries ++ entry_c ∷ []) []) (tree_add 3 12 pair entry_c)
unfolding lookup tlpiexer.CText.strcmp_eq
tree_add-new_example =
    tree_add-new 3 pair entries pair-Holds (omega arith) refl 12 entry_c (λ e. omega arith) refl
      refl

tree_del-erase_example :
    Returns (Done (erase (98 ∷ []) entries) (entry_b ∷ [])) (tree_del 3 pair (98 ∷ []))
unfolding lookup tlpiexer.CText.strcmp_eq
tree_del-erase_example =
    tree_del-erase 3 pair entries pair-Holds (omega arith) refl (98 ∷ []) entry_b (refl, (refl, tt))
      refl
