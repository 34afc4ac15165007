-- ===== src/FileWalk/Order.antt =====
-- The order in which `nftw` of src/imp/18-08.c reports a tree of files, without FTW_CHDIR.
use tlpiexer.Prelude.{
  ℕ, zero, suc, ◌+◌, ◌-◌, ◌≡◌, refl, sym, ap, ◌∙◌, Bool, true, false, ◌&&◌, Option, some, List, [],
  ◌∷◌, ◌==◌, append-nil, if◌then◌else◌, arith,
}
use tlpiexer.CText.{Bytes}
use tlpiexer.FileWalk.{
  Dirent, Status, FileSystem, Flags, Visit, Process, Call, read_next, report, visit_of, is_dots,
  entry_path, behind, walk_entries, fwalk,
}
use tlpiexer.FileWalk.Events.{
  Forest, Event, Quiet, told, too_deep, events, run, Did, Did-nothing, Did-report, Did-append,
  visit_dir-Did,
}
use tlpiexer.FileWalk.Rounds.{elsewhere, closed_again, round-foreign, round-file, round-folder}

-- The device of a directory, where it is asked for.
abbrev pub device : FileSystem → Flags → Bytes → Bytes → Option ℕ
device fs flags cwd path = if flags.ftw_mount then fs.stat cwd path else some 0

-- Entries of the directory `d` on the device `dev`, from the working directory `c`, and the files and
-- folders that they are: every call for them succeeds, `.` and `..` are passed over, and so is what
-- lies on another device under FTW_MOUNT.
pub data Listed (fs : FileSystem) (flags : Flags) (c : Bytes)
    : Bytes → ℕ → List Dirent → Forest → Type 0 where
  none_left : {d : Bytes} {dev : ℕ} → Listed fs flags c d dev [] Forest.end
  dots :
      {d : Bytes} {dev : ℕ} {de : Dirent} {es : List Dirent} {f : Forest}
      → is_dots de.name ≡ true
      → Listed fs flags c d dev es f
      → Listed fs flags c d dev (de ∷ es) f
  foreign :
      {d : Bytes} {dev : ℕ} {de : Dirent} {es : List Dirent} {f : Forest} (path : Bytes)
      (status : Status)
      → is_dots de.name ≡ false
      → entry_path fs flags c d de ≡ some path
      → fs.lstat c path ≡ some status
      → elsewhere flags status dev ≡ true
      → Listed fs flags c d dev es f
      → Listed fs flags c d dev (de ∷ es) f
  a_file :
      {d : Bytes} {dev : ℕ} {de : Dirent} {es : List Dirent} {f : Forest} (path : Bytes)
      (status : Status)
      → is_dots de.name ≡ false
      → entry_path fs flags c d de ≡ some path
      → fs.lstat c path ≡ some status
      → elsewhere flags status dev ≡ false
      → status.is_dir ≡ false
      → Listed fs flags c d dev es f
      → Listed fs flags c d dev (de ∷ es) (Forest.file de f)
  a_folder :
      {d : Bytes} {dev : ℕ} {de : Dirent} {es below : List Dirent} {f sub : Forest} (path : Bytes)
      (status : Status) (dev' : ℕ)
      → is_dots de.name ≡ false
      → entry_path fs flags c d de ≡ some path
      → fs.lstat c path ≡ some status
      → elsewhere flags status dev ≡ false
      → status.is_dir ≡ true
      → device fs flags c path ≡ some dev'
      → fs.opendir c path ≡ some (record { entries = below; broken = false })
      → fs.closedir path ≡ true
      → Listed fs flags c path dev' below sub
      → Listed fs flags c d dev es f
      → Listed fs flags c d dev (de ∷ es) (Forest.folder de status.st_mode sub f)

module _ (fs : FileSystem) (flags : Flags) (ok : Visit → Bool) (c : Bytes)
    (stays : flags.ftw_chdir ≡ false) (known : fs.getcwd c ≡ true) (quiet : Quiet fs) where
  -- One call of `fwalk` is its loop with one more directory open.
  fwalk-loop :
      (n level : ℕ) (d : Bytes) (dev : ℕ) (es : List Dirent) (p : Process)
      → p.cwd ≡ c
      → device fs flags c d ≡ some dev
      → fs.opendir c d ≡ some (record { entries = es; broken = false })
      → fs.closedir d ≡ true
      → fwalk fs flags ok (suc n) level d p ≡ (
          let (go, p') =
            walk_entries fs flags ok
              (fwalk fs flags ok n (level + 1))
              d
              level
              dev
              es
              (record p { opened = p.opened + 1; errno = 0 }) in
          if go && (p'.errno == 0)
          then (true, behind fs Call.closed d (record p' { opened = p'.opened - 1 }))
          else (false, p'))
  unfolding fwalk
  fwalk-loop n level d dev es p here on opens closes =
      let on' = ap (λ k. device fs flags k d) here ∙ on in
      let opens' = ap (λ k. fs.opendir k d) here ∙ opens in
      let known' = ap fs.getcwd here ∙ known in
      rw (fwalk, on', opens', known') (simp (stays, closes) (ground arith))

  pub fwalk-Did :
      (n level : ℕ) (d : Bytes) (dev : ℕ) (es : List Dirent) (todo : List Event) (p : Process)
      → p.cwd ≡ c
      → device fs flags c d ≡ some dev
      → fs.opendir c d ≡ some (record { entries = es; broken = false })
      → fs.closedir d ≡ true
      → ((q : Process)
          → q.cwd ≡ c
          → Did ok q todo
              (walk_entries fs flags ok (fwalk fs flags ok n (level + 1)) d level dev es q))
      → Did ok p todo (fwalk fs flags ok (suc n) level d p)
  fwalk-Did n level d dev es todo p here on opens closes loop =
      rw (fwalk-loop n level d dev es p here on opens closes) (
        closed_again fs quiet p d _ todo
          (loop (record p { opened = p.opened + 1; errno = 0 }) here))

  -- A call of `fwalk` that may be too deep.
  pub fwalk-below :
      (n level : ℕ) (d : Bytes) (dev : ℕ) (es : List Dirent) (sub : Forest) (p : Process)
      → p.cwd ≡ c
      → device fs flags c d ≡ some dev
      → fs.opendir c d ≡ some (record { entries = es; broken = false })
      → fs.closedir d ≡ true
      → ((m : ℕ) (q : Process)
          → q.cwd ≡ c
          → Did ok q
              (events flags.ftw_depth m level sub)
              (walk_entries fs flags ok (fwalk fs flags ok m (level + 1)) d level dev es q))
      → Did ok p
          (elim n [ zero ↦ too_deep ∷ [] | suc m ↦ events flags.ftw_depth m level sub ])
          (fwalk fs flags ok n level d p)
  unfolding fwalk run
  fwalk-below zero level d dev es sub p here on opens closes loop = record {
    result = refl;
    visits = sym (append-nil p.visits);
    cwd = refl;
    opened = λ h. cc;
    errno = λ h z. cc;
  }
  fwalk-below (suc n) level d dev es sub p here on opens closes loop =
      fwalk-Did n level d dev es _ p here on opens closes (loop n)

  pub walk_entries-Did :
      {d : Bytes} {dev : ℕ} {es : List Dirent} {f : Forest} (n level : ℕ) (p : Process)
      → p.cwd ≡ c
      → Listed fs flags c d dev es f
      → Did ok p
          (events flags.ftw_depth n level f)
          (walk_entries fs flags ok (fwalk fs flags ok n (level + 1)) d level dev es p)
  unfolding events walk_entries
  walk_entries-Did n level p here none_left = Did-nothing ok p
  walk_entries-Did {d} n level p here (dots yes' l) =
      rw (yes', quiet read_next d p.errno) (walk_entries-Did n level p here l)
  walk_entries-Did {d} {dev} {f} n level p here (foreign {de} {es} path status is named at away l) =
      let named' = ap (λ k. entry_path fs flags k d de) here ∙ named in
      let at' = ap (λ k. fs.lstat k path) here ∙ at in
      rw
        (round-foreign fs flags ok (fwalk fs flags ok n (level + 1)) d level dev de es p is named'
          at' quiet away)
        (walk_entries-Did n level p here l)
  walk_entries-Did {d} {dev} n level p here
        (a_file {de} {es} path status is named at near plain l) =
      let named' = ap (λ k. entry_path fs flags k d de) here ∙ named in
      let at' = ap (λ k. fs.lstat k path) here ∙ at in
      let v = visit_of de de.d_type level in
      rw
        (round-file fs flags ok (fwalk fs flags ok n (level + 1)) d level dev de es p is named' at'
          quiet near plain)
        (Did-append ok p (told v ∷ []) _ (report fs ok v p) _ (Did-report fs ok p v quiet)
          (walk_entries-Did n level _ here l))
  walk_entries-Did {d} {dev} n level p here
        (a_folder {de} {es} path status dev' is named at near dir on opens closes sub l) =
      let named' = ap (λ k. entry_path fs flags k d de) here ∙ named in
      let at' = ap (λ k. fs.lstat k path) here ∙ at in
      let v = visit_of de status.st_mode level in
      let walk = fwalk fs flags ok n (level + 1) in
      let folder' = visit_dir-Did fs flags ok (walk path) v p _ quiet (λ q same.
        fwalk-below n (level + 1) path dev' _ _ q (same ∙ here) on opens closes
          (λ m r at_c. walk_entries-Did m (level + 1) r at_c sub)) in
      rw (round-folder fs flags ok walk d level dev de es p is named' at' quiet near dir)
        (Did-append ok p _ _ _ _ folder' (walk_entries-Did n level _ (folder'.cwd ∙ here) l))
