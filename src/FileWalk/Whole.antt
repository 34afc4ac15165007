-- ===== src/FileWalk/Whole.antt =====
-- Whole walks of `nftw` of src/imp/18-08.c.
use Prim.Native.Nat.{max}
use tlpiexer.Prelude.{ℕ, ◌+◌, ◌≡◌, Bool, true, false, some, List, [], ◌∷◌, ◌++◌, if◌then◌else◌}
use tlpiexer.CText.{Bytes}
use tlpiexer.FileWalk.{Dirent, FileSystem, Flags, Visit, visit_of}
use tlpiexer.FileWalk.Events.{Forest}
use tlpiexer.FileWalk.Order.{Listed, device}

-- A directory with these entries, which are this forest.
pub record Opens (fs : FileSystem) (flags : Flags) (c d : Bytes) (f : Forest) : Type 0 where
  pub dev : ℕ
  pub entries : List Dirent
  pub on : device fs flags c d ≡ some dev
  pub opens : fs.opendir c d ≡ some (record { entries = entries; broken = false })
  pub closes : fs.closedir d ≡ true
  pub listed : Listed fs flags c d dev entries f

-- Every file and folder, a folder before or behind what is below it.
unfoldable pub in_order : Bool → ℕ → Forest → List Visit
in_order depth level Forest.end = []
in_order depth level (Forest.file de rest) = visit_of de de.d_type level ∷ in_order depth level rest
in_order depth level (Forest.folder de mode sub rest) =
    let below = in_order depth (level + 1) sub in
    let v = visit_of de mode level in
    (if depth then below ++ v ∷ [] else v ∷ below) ++ in_order depth level rest

-- The levels of folders.
unfoldable pub height : Forest → ℕ
height Forest.end = 0
height (Forest.file de rest) = height rest
height (Forest.folder de mode sub rest) = max (height sub + 1) (height rest)
