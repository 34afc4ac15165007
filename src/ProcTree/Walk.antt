-- ===== src/ProcTree/Walk.antt =====
-- Which lines `ptree` of src/imp/12-02.c prints, and in which order.
use tlpiexer.Prelude.{ℕ, suc, ◌≡◌, ◌≢◌, ◌<◌, List, [], ◌∷◌, ◌++◌, ◌⊎◌}
use tlpiexer.ProcTree.{PInfo, Line}

abbrev pub In : {A : Type 0} → A → List A → Type 0
In x [] = ⊥
In x (y ∷ ys) = (x ≡ y) ⊎ In x ys

-- `e` has `parent` as its parent.
abbrev pub Child : PInfo → PInfo → Type 0
Child parent e = (e.ppid ≡ parent.pid) × (e.pid ≢ parent.pid)

-- Trees side by side: a process, what is below it, and those behind it.
pub data Forest : Type 0 where
  end : Forest
  tree : PInfo → Forest → Forest → Forest

-- The trees of the children of `parent` among the processes `es` are these, in the order of `es`, with the
-- whole list looked through for what is below each.
pub data Below (list : List PInfo) : PInfo → List PInfo → Forest → Type 0 where
  nothing : {parent : PInfo} → Below list parent [] end
  other :
      {parent e : PInfo} {es : List PInfo} {f : Forest}
      → ¬ (Child parent e)
      → Below list parent es f
      → Below list parent (e ∷ es) f
  child :
      {parent e : PInfo} {es : List PInfo} {sub f : Forest}
      → Child parent e
      → Below list e list sub
      → Below list parent es f
      → Below list parent (e ∷ es) (tree e sub f)

-- A forest drawn from the level `level` on: each process, then what is below it a level further in.
unfoldable pub drawn : ℕ → Forest → List Line
drawn level end = []
drawn level (tree e sub f) = (level, e) ∷ (drawn (suc level) sub ++ drawn level f)

-- The lines are those of what is below `p`, at the level `k`.
abbrev pub Draws : List PInfo → ℕ → PInfo → List PInfo → List Line → Type 0
Draws list k p es lines = (f : Forest) × Below list p es f × (lines ≡ drawn k f)

-- The lines are that of `p`, and behind it those of what is below it.
abbrev pub DrawsTree : List PInfo → ℕ → PInfo → List Line → Type 0
DrawsTree list k p lines = (f : Forest) × Below list p list f × (lines ≡ (k, p) ∷ drawn (suc k) f)

-- Every process of the list has a parent with a smaller number, and a number below the bound.
abbrev pub Ordered : ℕ → List PInfo → Type 0
Ordered bound [] = Unit {0}
Ordered bound (e ∷ list) = ((e.ppid < e.pid) × (e.pid < bound)) × Ordered bound list
