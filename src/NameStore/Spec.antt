-- ===== src/NameStore/Spec.antt =====
-- What the list of src/lib/59-04-llist.c promises, over a plain list of items.
use tlpiexer.Prelude.{
  ℕ, ◌≡◌, Bool, true, false, not, ◌&&◌, Option, none, some, List, [], ◌∷◌, ◌++◌, if◌then◌else◌, ltb,
  length, drop, ◌+◌,
}
use tlpiexer.CText.{Bytes, c_str}
use tlpiexer.NameStore.{
  ItemNv, Ret, fn_ok, fn_er, same_name, same_own, el_perm, el_exist, el_noext, ll_value_len,
}

-- The first item under a name.
unfoldable pub lookup : Bytes → List ItemNv → Option ItemNv
lookup k [] = none
lookup k (x ∷ xs) = if same_name k x then some x else lookup k xs

-- The list with the first item under a name replaced, or dropped.
unfoldable pub replace : Bytes → ItemNv → List ItemNv → List ItemNv
replace k y [] = []
replace k y (x ∷ xs) = if same_name k x then y ∷ xs else x ∷ replace k y xs

unfoldable pub erase : Bytes → List ItemNv → List ItemNv
erase k [] = []
erase k (x ∷ xs) = if same_name k x then xs else x ∷ erase k xs

-- What an operation returns, leaves in `lerrno` and leaves in the list.
pub record Reply : Type 0 where
  pub ret : Ret
  pub errno : ℕ
  pub items : List ItemNv

abbrev pub reply : Ret → ℕ → List ItemNv → Reply
reply r e xs = record { ret = r; errno = e; items = xs }

-- The value array after `strcpy` of a terminated string.
unfoldable pub stored : ItemNv → ItemNv → ItemNv
stored old it =
    let v = c_str ll_value_len it.value in
    record old { value = v ++ 0 ∷ drop (length v + 1) old.value }

-- The value of the item ends within its array.
unfoldable pub terminated : ItemNv → Bool
terminated it = ltb (length (c_str ll_value_len it.value)) ll_value_len

-- An update that copies a value with no end.
unfoldable pub overruns : ItemNv → List ItemNv → Bool
overruns it xs = elim (lookup it.name xs) [
  | none ↦ false
  | some old ↦ same_own it.own old && not (terminated it)
]

unfoldable pub add : ItemNv → ℕ → List ItemNv → Reply
add it e xs = elim (lookup it.name xs) [
  | none ↦ reply fn_ok e (it ∷ xs)
  | some _ ↦ reply fn_er el_exist xs
]

unfoldable pub update : ItemNv → ℕ → List ItemNv → Reply
update it e xs = elim (lookup it.name xs) [
  | none ↦ reply fn_er el_noext xs
  | some old ↦
      if same_own it.own old
      then reply fn_ok e (replace it.name (stored old it) xs)
      else reply fn_er el_perm xs
]

unfoldable pub delete : ItemNv → ℕ → List ItemNv → Reply
delete it e xs = elim (lookup it.name xs) [
  | none ↦ reply fn_er el_noext xs
  | some old ↦
      if same_own it.own old then reply fn_ok e (erase it.name xs) else reply fn_er el_perm xs
]

-- What `ll_get` returns, leaves in the caller's item and leaves in `lerrno`.
unfoldable pub get : ItemNv → ℕ → List ItemNv → Ret × ItemNv × ℕ
get it e xs = elim (lookup it.name xs) [ none ↦ (fn_er, it, el_noext) | some x ↦ (fn_ok, x, e) ]

module _ (it : ItemNv) (e : ℕ) (xs : List ItemNv) where
  module _ (gone : lookup it.name xs ≡ none) where
    pub add-none : add it e xs ≡ reply fn_ok e (it ∷ xs)
    unfolding add
    add-none = rw (gone, add)

    pub get-none : get it e xs ≡ (fn_er, it, el_noext)
    unfolding get
    get-none = rw (gone, get)

    pub update-none : update it e xs ≡ reply fn_er el_noext xs
    unfolding update
    update-none = rw (gone, update)

    pub overruns-none : overruns it xs ≡ false
    unfolding overruns
    overruns-none = rw (gone, overruns)

    pub delete-none : delete it e xs ≡ reply fn_er el_noext xs
    unfolding delete
    delete-none = rw (gone, delete)

  module _ (x : ItemNv) (got : lookup it.name xs ≡ some x) where
    pub add-some : add it e xs ≡ reply fn_er el_exist xs
    unfolding add
    add-some = rw (got, add)

    pub get-some : get it e xs ≡ (fn_ok, x, e)
    unfolding get
    get-some = rw (got, get)

    pub update-own :
        same_own it.own x ≡ true → update it e xs ≡ reply fn_ok e (replace it.name (stored x it) xs)
    unfolding update
    update-own own = rw (got, update) (rw own)

    pub update-perm : same_own it.own x ≡ false → update it e xs ≡ reply fn_er el_perm xs
    unfolding update
    update-perm own = rw (got, update) (rw own)

    pub overruns-own : same_own it.own x ≡ true → overruns it xs ≡ not (terminated it)
    unfolding overruns
    overruns-own own = rw (got, overruns) (rw own)

    pub overruns-perm : same_own it.own x ≡ false → overruns it xs ≡ false
    unfolding overruns
    overruns-perm own = rw (got, overruns) (rw own)

    pub delete-own : same_own it.own x ≡ true → delete it e xs ≡ reply fn_ok e (erase it.name xs)
    unfolding delete
    delete-own own = rw (got, delete) (rw own)

    pub delete-perm : same_own it.own x ≡ false → delete it e xs ≡ reply fn_er el_perm xs
    unfolding delete
    delete-perm own = rw (got, delete) (rw own)
