-- ===== src/RealPath/Links.antt =====
-- The links that `realpath_x` of src/imp/18-03.c follows.
use tlpiexer.Prelude.{
  ℕ, zero, suc, ◌≡◌, ◌<◌, refl, ◌≢◌, true, false, some, List, [], ◌∷◌, ◌++◌, arith, ok, out_of_fuel,
}
use tlpiexer.CText.{Bytes}
use tlpiexer.RealPath.{slash, is_at, Calls, follow, solve_links, realpath_x}
use tlpiexer.RealPath.Parts.{NoSlash}
use tlpiexer.RealPath.Resolve.{Part, AllParts, spell, resolve, joined}
use tlpiexer.RealPath.Whole.{solve_dot-resolve}

-- A path that does not begin with a slash
abbrev pub Relative : Bytes → Type 0
Relative [] = Unit {0}
Relative (c ∷ path) = c ≢ slash

Relative-is_at : (path : Bytes) → Relative path → is_at path 0 slash ≡ false
Relative-is_at [] r = refl
Relative-is_at (c ∷ path) r = ground arith

-- So many links lead from a path to another that is no link: one whose contents begin with a slash leads to
-- them, another to its contents in the directory that it stands in.
pub data Leads (calls : Calls) : ℕ → Bytes → Bytes → Type 0 where
  no_link : {path : Bytes} → calls.lstat path ≡ some false → Leads calls zero path path
  to_absolute :
      {n : ℕ} {path end : Bytes} (target : Bytes)
      → calls.lstat path ≡ some true
      → calls.readlink path ≡ some (slash ∷ target)
      → Leads calls n (slash ∷ target) end
      → Leads calls (suc n) path end
  to_relative :
      {n : ℕ} {path end : Bytes} (target : Bytes)
      → calls.lstat path ≡ some true
      → calls.readlink path ≡ some target
      → Relative target
      → Leads calls n (calls.dirname path ++ slash ∷ target) end
      → Leads calls (suc n) path end

solve_links-Leads :
    (fuel : ℕ) (calls : Calls) {n : ℕ} {path end : Bytes}
    → Leads calls n path end
    → n < fuel
    → solve_links fuel calls path ≡ ok (some end)
unfolding solve_links
solve_links-Leads zero calls l enough = absurd (omega arith)
solve_links-Leads (suc f) calls (no_link is) enough = rw (solve_links, is)
solve_links-Leads (suc f) calls (to_absolute target is got l) enough =
    rw (solve_links, is, got) (solve_links-Leads f calls l (omega arith))
solve_links-Leads (suc f) calls (to_relative target is got r l) enough =
    rw (solve_links, is, got, Relative-is_at target r) (solve_links-Leads f calls l (omega arith))

-- Where links lead from an absolute path to one of names of three bytes and more, `.`, `..` and doubled
-- slashes, with a last part without a slash, `realpath_x` gives the directory that the parts lead to and the
-- last part; it has enough fuel with one more than there are links.
pub realpath_x-Leads :
    (fuel : ℕ) (calls : Calls) {n : ℕ} (path : Bytes) (ps : List Part) (last : Bytes)
    (st : List Bytes)
    → is_at path 0 slash ≡ true
    → Leads calls n path (slash ∷ (spell ps ++ last))
    → n < fuel
    → AllParts ps
    → NoSlash last
    → resolve ps [] ≡ some st
    → realpath_x fuel calls path ≡ ok (some (joined st ++ last))
unfolding realpath_x
realpath_x-Leads fuel calls path ps last st absolute l enough all clean leads = rw (
  realpath_x,
  absolute,
  solve_links-Leads fuel calls l enough,
  solve_dot-resolve ps last all clean,
  leads,
)

-- Paths each of which is a link to one of them.
abbrev pub Circle : Calls → (Bytes → Type 0) → Type 0
Circle calls P =
    (path : Bytes)
    → P path
    → (contents : Bytes) × (calls.lstat path ≡ some true)
      × (calls.readlink path ≡ some contents)
      × P (follow calls path contents)

solve_links-Circle :
    (fuel : ℕ) (calls : Calls) (P : Bytes → Type 0) (path : Bytes)
    → Circle calls P
    → P path
    → solve_links fuel calls path ≡ out_of_fuel
unfolding solve_links
solve_links-Circle zero calls P path circle h = refl
solve_links-Circle (suc f) calls P path circle h =
    let (contents, is, got, next) = circle path h in
    rw (solve_links, is, got)
      (solve_links-Circle f calls P (follow calls path contents) circle next)

-- On links that lead to one another for ever, `realpath_x` does not end: no fuel is enough.
pub realpath_x-Circle :
    (fuel : ℕ) (calls : Calls) (P : Bytes → Type 0) (path : Bytes)
    → is_at path 0 slash ≡ true
    → Circle calls P
    → P path
    → realpath_x fuel calls path ≡ out_of_fuel
unfolding realpath_x
realpath_x-Circle fuel calls P path absolute circle h =
    rw (realpath_x, absolute, solve_links-Circle fuel calls P path circle h)
