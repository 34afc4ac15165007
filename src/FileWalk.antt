-- ===== src/FileWalk.antt =====
-- `nftw` and `fwalk` of src/imp/18-08.c. Paths are taken to be shorter than PATH_MAX. What `errno` holds behind
-- a walk that failed is not given.
pub mod Events
pub mod Rounds
pub mod Order
pub mod Whole
mod Tests
use tlpiexer.Prelude.{
  ℕ, zero, suc, ◌+◌, ◌-◌, Bool, true, false, not, ◌&&◌, ◌||◌, Option, none, some, List, [], ◌∷◌,
  ◌++◌, ◌==◌, if◌then◌else◌,
}
use tlpiexer.CText.{Bytes, strcmp_eq}

-- `struct dirent`: the name and `d_type`.
pub record Dirent : Type 0 where
  pub name : Bytes
  pub d_type : ℕ

abbrev pub dt_lnk : ℕ
dt_lnk = 10

-- `struct stat`
pub record Status : Type 0 where
  pub is_dir : Bool
  pub st_mode : ℕ
  pub st_dev : ℕ

-- What `readdir` gives of a directory, and whether it then fails, with an `errno` that is not 0; at the end it
-- leaves `errno` alone.
pub record Listing : Type 0 where
  pub entries : List Dirent
  pub broken : Bool

-- The calls whose effect on `errno` is still there when it is tested.
pub data Call : Type 0 where
  read_next : Call
  resolved : Call
  looked_at : Call
  called_back : Call
  closed : Call
  changed_back : Call

-- The calls of the system, by the working directory and the path; `none` is an error;
-- and what `errno` holds behind a call that succeeds, of the callback too, from what it held before.
pub record FileSystem : Type 0 where
  pub stat : Bytes → Bytes → Option ℕ
  pub opendir : Bytes → Bytes → Option Listing
  pub getcwd : Bytes → Bool
  pub chdir : Bytes → Bytes → Option Bytes
  pub realpath : Bytes → Bytes → Option Bytes
  pub lstat : Bytes → Bytes → Option Status
  pub closedir : Bytes → Bool
  pub errno_behind : Call → Bytes → ℕ → ℕ

-- FTW_CHDIR, FTW_DEPTH, FTW_MOUNT and FTW_PHYS
pub record Flags : Type 0 where
  pub ftw_chdir : Bool
  pub ftw_depth : Bool
  pub ftw_mount : Bool
  pub ftw_phys : Bool

-- What the callback is told: the name, the type, and the level.
pub record Visit : Type 0 where
  pub path : Bytes
  pub type : ℕ
  pub level : ℕ

abbrev pub visit_of : Dirent → ℕ → ℕ → Visit
visit_of de type level = record { path = de.name; type = type; level = level }

-- The process: its working directory, the directories that it has open, the calls of the callback, and
-- `errno`.
pub record Process : Type 0 where
  pub cwd : Bytes
  pub opened : ℕ
  pub visits : List Visit
  pub errno : ℕ

-- A call that succeeds.
abbrev pub behind : FileSystem → Call → Bytes → Process → Process
behind fs call path p = record p { errno = fs.errno_behind call path p.errno }

-- A call of the callback, which `ok` decides by what it is told.
abbrev pub report : FileSystem → (Visit → Bool) → Visit → Process → Bool × Process
report fs ok v p = (ok v, behind fs called_back v.path (record p { visits = p.visits ++ v ∷ [] }))

abbrev pub is_dots : Bytes → Bool
is_dots name = strcmp_eq name (46 ∷ []) || strcmp_eq name (46 ∷ 46 ∷ [])

-- The path of an entry, resolved if it is a link that is to be followed.
unfoldable pub entry_path : FileSystem → Flags → Bytes → Bytes → Dirent → Option Bytes
entry_path fs flags cwd dirpath de =
    let fpath = if flags.ftw_chdir then de.name else dirpath ++ 47 ∷ de.name in
    if de.d_type == dt_lnk
    then if flags.ftw_phys then some fpath else fs.realpath cwd fpath
    else some fpath

-- The process behind the calls for an entry: `readdir`, `realpath` where a link is followed, and `lstat`.
unfoldable pub looked : FileSystem → Flags → Bytes → Dirent → Bytes → Process → Process
looked fs flags dirpath de fpath p =
    let p1 = behind fs read_next dirpath p in
    if (de.d_type == dt_lnk) && not flags.ftw_phys
    then behind fs looked_at fpath (behind fs resolved de.name p1)
    else behind fs looked_at fpath p1

-- The entry of a directory, with `walk` for what is below it.
unfoldable pub visit_dir :
    FileSystem
    → Flags
    → (Visit → Bool)
    → (Process → Bool × Process)
    → Visit
    → Process
    → Bool × Process
visit_dir fs flags ok walk v p =
    let (go1, p1) = if flags.ftw_depth then (true, p) else report fs ok v p in
    let (go2, p2) = walk p1 in
    if go1
    then if go2 then if flags.ftw_depth then report fs ok v p2 else (true, p2) else (false, p2)
    else (false, p1)

-- The loop over the entries of a directory on device `dev`; `walk` is `fwalk` a level below.
unfoldable pub walk_entries :
    FileSystem
    → Flags
    → (Visit → Bool)
    → (Bytes → Process → Bool × Process)
    → Bytes
    → ℕ
    → ℕ
    → List Dirent
    → Process
    → Bool × Process
walk_entries fs flags ok walk dirpath level dev [] p = (true, p)
walk_entries fs flags ok walk dirpath level dev (de ∷ es) p =
    let rest = λ (p' : Process). walk_entries fs flags ok walk dirpath level dev es p' in
    if is_dots de.name
    then rest (behind fs read_next dirpath p)
    else elim (entry_path fs flags p.cwd dirpath de) [
      | none ↦ (false, p)
      | some fpath ↦ elim (fs.lstat p.cwd fpath) [
        | none ↦ (false, p)
        | some status ↦
            let p' = looked fs flags dirpath de fpath p in
            let (go, p'') =
              if status.is_dir
              then visit_dir fs flags ok (walk fpath) (visit_of de status.st_mode level) p'
              else report fs ok (visit_of de de.d_type level) p' in
            if flags.ftw_mount && not (status.st_dev == dev)
            then rest p'
            else if go
            then rest p''
            else (false, p'')
      ]
    ]

-- `nfd` is one more than the source's, and 0 where that is negative.
unfoldable pub fwalk :
    FileSystem → Flags → (Visit → Bool) → ℕ → ℕ → Bytes → Process → Bool × Process
fwalk fs flags ok zero level dirpath p = (false, p)
fwalk fs flags ok (suc nfd) level dirpath p =
    elim (if flags.ftw_mount then fs.stat p.cwd dirpath else some 0) [
      | none ↦ (false, p)
      | some dev ↦ elim (fs.opendir p.cwd dirpath) [
        | none ↦ (false, p)
        | some listing ↦
            let p1 = record p { opened = p.opened + 1 } in
            if not (fs.getcwd p.cwd)
            then (false, p1)
            else elim (if flags.ftw_chdir then fs.chdir p.cwd dirpath else some p.cwd) [
              | none ↦ (false, p1)
              | some cwd ↦
                  let (go, p2) =
                    walk_entries fs flags ok (fwalk fs flags ok nfd (level + 1)) dirpath level dev
                      listing.entries (record p1 { cwd = cwd; errno = 0 }) in
                  let p3 = behind fs closed dirpath (record p2 { opened = p2.opened - 1 }) in
                  if not go || (listing.broken || not (p2.errno == 0)) || not (fs.closedir dirpath)
                  then (false, p2)
                  else if flags.ftw_chdir
                  then (elim (fs.chdir p3.cwd p.cwd) [
                    | none ↦ (false, p3)
                    | some back ↦ (true, behind fs changed_back p.cwd (record p3 { cwd = back }))
                  ])
                  else (true, p3)
            ]
      ]
    ]

abbrev pub nftw : FileSystem → Flags → (Visit → Bool) → ℕ → Bytes → Process → Bool × Process
nftw fs flags ok nfd dirpath p = fwalk fs flags ok nfd 0 dirpath p
