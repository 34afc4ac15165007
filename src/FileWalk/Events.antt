-- ===== src/FileWalk/Events.antt =====
-- What a walk of src/imp/18-08.c is to report, over a tree of files.
use tlpiexer.CText.{Bytes}
use tlpiexer.Prelude.{
  ℕ, zero, suc, ◌+◌, ◌≡◌, refl, sym, ap, ◌∙◌, Bool, true, false, List, [], ◌∷◌, ◌++◌, append_assoc,
  append-nil, if◌then◌else◌, Bool-cases, inl, inr,
}
use tlpiexer.FileWalk.{
  Dirent, Visit, Process, Flags, FileSystem, Call, called_back, report, visit_of, visit_dir,
}

-- The files below a directory, in the order of `readdir`; a folder with its mode and what is below it.
pub data Forest : Type 0 where
  end : Forest
  file : Dirent → Forest → Forest
  folder : Dirent → ℕ → Forest → Forest → Forest

pub data Event : Type 0 where
  told : Visit → Event
  too_deep : Event

-- A folder's own visit, before or behind what is below it.
abbrev pub around : Bool → Event → List Event → List Event
around depth e below = if depth then below ++ e ∷ [] else e ∷ below

-- What happens on a walk that may go `n` levels further down.
unfoldable pub events : Bool → ℕ → ℕ → Forest → List Event
events depth n level end = []
events depth n level (file de rest) = told (visit_of de de.d_type level) ∷ events depth n level rest
events depth n level (folder de mode sub rest) =
    let below : List Event = elim n [
      | zero ↦ too_deep ∷ []
      | suc m ↦ events depth m (level + 1) sub
    ] in
    around depth (told (visit_of de mode level)) below ++ events depth n level rest

-- The events up to the first that stops the walk: whether none does, and the visits made.
unfoldable pub run : (Visit → Bool) → List Event → Bool × List Visit
run ok [] = (true, [])
run ok (too_deep ∷ es) = (false, [])
run ok (told v ∷ es) = let (go, vs) = run ok es in if ok v then (go, v ∷ vs) else (false, v ∷ [])

pub run-go :
    (ok : Visit → Bool) (a b : List Event)
    → (run ok a).0 ≡ true
    → run ok (a ++ b) ≡ ((run ok b).0, (run ok a).1 ++ (run ok b).1)
unfolding run
run-go ok [] b h = refl
run-go ok (too_deep ∷ a) b h = cc
run-go ok (told v ∷ a) b h = elim (Bool-cases (ok v)) [
  | inl go ↦ rw (go, run-go ok a b (rw go at h))
  | inr stop ↦ cc (rw stop at h)
]

pub run-stop :
    (ok : Visit → Bool) (a b : List Event) → (run ok a).0 ≡ false → run ok (a ++ b) ≡ run ok a
unfolding run
run-stop ok [] b h = cc
run-stop ok (too_deep ∷ a) b h = refl
run-stop ok (told v ∷ a) b h = elim (Bool-cases (ok v)) [
  | inl go ↦ rw (go, run-stop ok a b (rw go at h))
  | inr stop ↦ rw stop
]

-- A part of a walk did these events, and no more; the working directory is `c` behind it, and if it
-- goes on no directory is left open and an `errno` of 0 is still 0.
pub record Did (ok : Visit → Bool) (p : Process) (es : List Event) (out : Bool × Process)
    : Type 0 where
  pub result : out.0 ≡ (run ok es).0
  pub visits : out.1.visits ≡ p.visits ++ (run ok es).1
  pub cwd : out.1.cwd ≡ p.cwd
  pub opened : out.0 ≡ true → out.1.opened ≡ p.opened
  pub errno : out.0 ≡ true → p.errno ≡ 0 → out.1.errno ≡ 0

-- A call that succeeds leaves `errno` alone.
abbrev pub Quiet : FileSystem → Type 0
Quiet fs = (call : Call) (path : Bytes) (e : ℕ) → fs.errno_behind call path e ≡ e

pub Did-nothing : (ok : Visit → Bool) (p : Process) → Did ok p [] (true, p)
unfolding run
Did-nothing ok p = record {
  result = refl;
  visits = sym (append-nil p.visits);
  cwd = refl;
  opened = λ _. refl;
  errno = λ _ z. z;
}

pub Did-report :
    (fs : FileSystem) (ok : Visit → Bool) (p : Process) (v : Visit)
    → Quiet fs
    → Did ok p (told v ∷ []) (report fs ok v p)
unfolding run
Did-report fs ok p v quiet = record {
  result = elim (Bool-cases (ok v)) [ inl go ↦ rw go | inr stop ↦ rw stop ];
  visits = elim (Bool-cases (ok v)) [ inl go ↦ rw go | inr stop ↦ rw stop ];
  cwd = refl;
  opened = λ _. refl;
  errno = λ _ z. quiet called_back v.path p.errno ∙ z;
}

-- One part, then another unless the first stops the walk.
pub Did-append :
    (ok : Visit → Bool) (p : Process) (a b : List Event) (out next : Bool × Process)
    → Did ok p a out
    → Did ok out.1 b next
    → Did ok p (a ++ b) (if out.0 then next else (false, out.1))
Did-append ok p a b out next d e = elim (Bool-cases out.0) [
  | inl go ↦
      let r = run-go ok a b (sym d.result ∙ go) in
      rw go record {
        result = e.result ∙ sym (ap (λ o. o.0) r);
        visits =
            e.visits
            ∙ ap (λ l. l ++ (run ok b).1) d.visits
            ∙ append_assoc p.visits (run ok a).1 (run ok b).1
            ∙ sym (ap (λ o. p.visits ++ o.1) r);
        cwd = e.cwd ∙ d.cwd;
        opened = λ h. e.opened h ∙ d.opened go;
        errno = λ h z. e.errno h (d.errno go z);
      }
  | inr stop ↦
      let r = run-stop ok a b (sym d.result ∙ stop) in
      rw stop record {
        result = sym (sym d.result ∙ stop) ∙ sym (ap (λ o. o.0) r);
        visits = d.visits ∙ sym (ap (λ o. p.visits ++ o.1) r);
        cwd = d.cwd;
        opened = λ h. cc;
        errno = λ h z. cc;
      }
]

passed : (o : Bool × Process) → (if o.0 then (true, o.1) else (false, o.1)) ≡ o
passed (true, p) = refl
passed (false, p) = refl

-- A folder: its own visit and the walk below it.
pub visit_dir-Did :
    (fs : FileSystem) (flags : Flags) (ok : Visit → Bool) (walk : Process → Bool × Process)
    (v : Visit) (p : Process) (below : List Event)
    → Quiet fs
    → ((q : Process) → q.cwd ≡ p.cwd → Did ok q below (walk q))
    → Did ok p (around flags.ftw_depth (told v) below) (visit_dir fs flags ok walk v p)
unfolding visit_dir
visit_dir-Did fs flags ok walk v p below quiet did = elim (Bool-cases flags.ftw_depth) [
  | inl last ↦
      simp last
        (Did-append ok p below (told v ∷ []) (walk p) _ (did p refl) (Did-report fs ok _ v quiet))
  | inr first ↦
      let q : Process = (report fs ok v p).1 in
      let d =
        Did-append ok p (told v ∷ []) below (report fs ok v p) (walk q) (Did-report fs ok p v quiet)
          (did q refl) in
      simp (first, passed (walk q)) d
]
