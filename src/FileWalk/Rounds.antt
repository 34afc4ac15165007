-- ===== src/FileWalk/Rounds.antt =====
-- One round of the loop of `fwalk` in src/imp/18-08.c, where calls that succeed leave `errno` alone.
use tlpiexer.Prelude.{
  ℕ, ◌+◌, ◌-◌, ◌≡◌, refl, sym, ◌∙◌, Bool, true, false, not, ◌&&◌, some, List, ◌∷◌, ◌==◌,
  if◌then◌else◌, arith, Bool-cases, inl, inr,
}
use tlpiexer.CText.{Bytes}
use tlpiexer.FileWalk.{
  Dirent, Status, FileSystem, Flags, Visit, Process, Call, read_next, resolved, looked_at, report,
  visit_of, is_dots, entry_path, behind, looked, visit_dir, walk_entries, dt_lnk,
}
use tlpiexer.FileWalk.Events.{Event, Quiet, Did}

-- Whether FTW_MOUNT leaves an entry out.
abbrev pub elsewhere : Flags → Status → ℕ → Bool
elsewhere flags status dev = flags.ftw_mount && not (status.st_dev == dev)

-- The directory is closed again.
pub closed_again :
    {ok : Visit → Bool} (fs : FileSystem) (quiet : Quiet fs) (p : Process) (path : Bytes)
    (o : Bool × Process) (todo : List Event)
    → Did ok (record p { opened = p.opened + 1; errno = 0 }) todo o
    → Did ok p todo (
        if o.0 && (o.1.errno == 0)
        then (true, behind fs Call.closed path (record (o.1) { opened = o.1.opened - 1 }))
        else (false, o.1))
closed_again fs quiet p path o todo d = elim (Bool-cases o.0) [
  | inl go ↦
      let zero_left = d.errno go refl in
      rw (go, zero_left)
        record {
          result = sym go ∙ d.result;
          visits = d.visits;
          cwd = d.cwd;
          opened = λ _. omega (arith, d.opened go);
          errno = λ _ z. quiet Call.closed path 0;
        }
  | inr stop ↦ rw stop record {
    result = sym stop ∙ d.result;
    visits = d.visits;
    cwd = d.cwd;
    opened = λ h. cc;
    errno = λ h z. cc;
  }
]

-- The calls for an entry leave the process as it was.
looked-same :
    (fs : FileSystem) (flags : Flags) (d : Bytes) (de : Dirent) (path : Bytes) (p : Process)
    → Quiet fs
    → looked fs flags d de path p ≡ p
unfolding looked
looked-same fs flags d de path p quiet =
    elim (Bool-cases ((de.d_type == dt_lnk) && not flags.ftw_phys)) [
      | inl follows ↦ rw (
        follows,
        quiet read_next d p.errno,
        quiet resolved de.name p.errno,
        quiet looked_at path p.errno,
      )
      | inr plain ↦ rw (plain, quiet read_next d p.errno, quiet looked_at path p.errno)
    ]

-- One round of the loop at an entry that is not passed over.
module _ (fs : FileSystem) (flags : Flags) (ok : Visit → Bool)
    (walk : Bytes → Process → Bool × Process) (d : Bytes) (level dev : ℕ) (de : Dirent)
    (es : List Dirent) (p : Process) {path : Bytes} {status : Status} (is : is_dots de.name ≡ false)
    (named : entry_path fs flags p.cwd d de ≡ some path) (at : fs.lstat p.cwd path ≡ some status)
    (quiet : Quiet fs) where
  pub round-foreign :
      elsewhere flags status dev ≡ true
      → walk_entries fs flags ok walk d level dev (de ∷ es) p
        ≡ walk_entries fs flags ok walk d level dev es p
  unfolding walk_entries
  round-foreign away = rw (is, named, at, away, looked-same fs flags d de path p quiet)

  pub round-file :
      elsewhere flags status dev ≡ false
      → status.is_dir ≡ false
      → walk_entries fs flags ok walk d level dev (de ∷ es) p ≡ (
          let (go, p') = report fs ok (visit_of de de.d_type level) p in
          if go then walk_entries fs flags ok walk d level dev es p' else (false, p'))
  unfolding walk_entries
  round-file near plain =
      rw (is, named, at, near, looked-same fs flags d de path p quiet) (rw plain)

  pub round-folder :
      elsewhere flags status dev ≡ false
      → status.is_dir ≡ true
      → walk_entries fs flags ok walk d level dev (de ∷ es) p ≡ (
          let (go, p') = visit_dir fs flags ok (walk path) (visit_of de status.st_mode level) p in
          if go then walk_entries fs flags ok walk d level dev es p' else (false, p'))
  unfolding walk_entries
  round-folder near dir = rw (is, named, at, near, looked-same fs flags d de path p quiet) (rw dir)
