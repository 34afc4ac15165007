-- ===== src/FileWalk/Tests.antt =====
-- Walks of `nftw` of src/imp/18-08.c over a directory with a file and a folder.
use tlpiexer.Prelude.{
  ◌≡◌, refl, Bool, true, false, none, some, List, [], ◌∷◌, ◌==◌, not, if◌then◌else◌,
}
use tlpiexer.CText.{Bytes, strcmp_eq}
use tlpiexer.FileWalk.{
  Dirent, Listing, FileSystem, Flags, Visit, Process, visit_of, entry_path, visit_dir, walk_entries,
  looked, fwalk, nftw,
}
use tlpiexer.FileWalk.Events.{Forest}

abbrev entry : Bytes → Dirent
entry name = record { name = name; d_type = 8 }

abbrev top : Bytes
top = 100 ∷ []

-- "d/s"
abbrev below : Bytes
below = 100 ∷ 47 ∷ 115 ∷ []

abbrev listing : List Dirent → Listing
listing es = record { entries = es; broken = false }

-- "d" holds ".", the file "a" and the folder "s", which holds the file "b".
abbrev files : FileSystem
files = record {
  stat = λ cwd path. some 1;
  opendir = λ cwd path.
      if strcmp_eq path top
      then some (listing (entry (46 ∷ []) ∷ entry (97 ∷ []) ∷ entry (115 ∷ []) ∷ []))
      else some (listing (entry (98 ∷ []) ∷ []));
  getcwd = λ cwd. true;
  chdir = λ cwd path. some path;
  realpath = λ cwd path. none;
  lstat = λ cwd path. some (record { is_dir = strcmp_eq path below; st_mode = 3; st_dev = 1 });
  closedir = λ path. true;
  errno_behind = λ call path e. e;
}

abbrev forest : Forest
forest =
    Forest.file (entry (97 ∷ []))
      (Forest.folder (entry (115 ∷ [])) 3 (Forest.file (entry (98 ∷ [])) Forest.end) Forest.end)

abbrev depth_first : Flags
depth_first = record { ftw_chdir = false; ftw_depth = true; ftw_mount = true; ftw_phys = true }

abbrev start : Process
start = record { cwd = 47 ∷ []; opened = 0; visits = []; errno = 0 }

-- The callback refuses a folder.
abbrev files_only : Visit → Bool
files_only v = not (v.type == 3)

-- "a", then "b" a level below, then the folder "s" behind it
visited :
    (nftw files depth_first (λ v. true) 9 top start).1.visits
    ≡ visit_of (entry (97 ∷ [])) 8 0
      ∷ visit_of (entry (98 ∷ [])) 8 1
      ∷ visit_of (entry (115 ∷ [])) 3 0
      ∷ []
unfolding fwalk walk_entries visit_dir looked entry_path strcmp_eq
visited = refl

-- The source's `nfd` 0 allows no folder; the directories stay open.
too_deep_stops : (nftw files depth_first (λ v. true) 1 top start).0 ≡ false
unfolding fwalk walk_entries visit_dir looked entry_path strcmp_eq
too_deep_stops = refl

-- A call that succeeds and sets `errno` all the same, as the callback's `printf` may, makes the walk fail behind
-- the last entry.
left_errno_stops :
    (nftw (record files { errno_behind = λ call path e. 25 }) depth_first (λ v. true) 9 top start).0
    ≡ false
unfolding fwalk walk_entries visit_dir looked entry_path strcmp_eq
left_errno_stops = refl
