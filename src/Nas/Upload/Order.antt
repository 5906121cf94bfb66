-- ===== src/Nas/Upload/Order.antt =====
-- The order of the requests of an upload (internal/nas/lftp.go).
use sftp_relay.Base.{
  Text, List, [], ◌∷◌, true, false, none, some, ◌++◌, append_assoc, subst, ◌≡◌, refl, sym, ap, ◌∙◌,
  ◌⊎◌, inl, inr, Error, Option-cases,
}
use sftp_relay.Base.Splitting.{join}
use sftp_relay.Nas.Workspace.{GenFile, owner_runs}
use sftp_relay.Nas.Upload.{
  Action, make_dirs, set_mode, create, write, close, History, Answers, Outcome, attempt, attempt_on,
  abandon, lost, write_file, write_files, write_workspace,
}

abbrev Among : GenFile → List GenFile → Type 0
Among f [] = ⊥
Among f (g ∷ gs) = (f ≡ g) ⊎ Among f gs

-- The directory was made private before.
abbrev IsPrivate : Text → History → Type 0
IsPrivate dir [] = ⊥
IsPrivate dir (e ∷ h) = (e ≡ (set_mode dir owner_runs, true)) ⊎ IsPrivate dir h

-- Just before, a file of the workspace was created under this name and got its mode.
abbrev IsReady : Text → List GenFile → Text → Text → History → Type 0
IsReady dir files p body h =
    (f : GenFile) × (before : History) × Among f files
    × (p ≡ join dir f.name)
    × (body ≡ f.body)
    × (h ≡ (set_mode p f.mode, true) ∷ (create p, true) ∷ before)
    × IsPrivate dir before

-- Nothing is written into a file before its mode is set, in a directory that is private.
abbrev pub IsSecured : Text → List GenFile → History → Type 0
IsSecured dir files [] = Unit
IsSecured dir files ((write p body, r) ∷ h) = IsReady dir files p body h × IsSecured dir files h
IsSecured dir files ((make_dirs p, r) ∷ h) = IsSecured dir files h
IsSecured dir files ((set_mode p m, r) ∷ h) = IsSecured dir files h
IsSecured dir files ((create p, r) ∷ h) = IsSecured dir files h
IsSecured dir files ((close p, r) ∷ h) = IsSecured dir files h

module _ (answers : Answers) (dir : Text) (files : List GenFile) where
  -- What the requests that are left have to keep.
  abbrev Keeps : (History → Outcome) → Type 0
  Keeps next =
      (h : History) → IsPrivate dir h → IsSecured dir files h → IsSecured dir files (next h).1

  IsSecured-abandon :
      (p : Text) (h : History) → IsSecured dir files h → IsSecured dir files (abandon answers p h).1
  IsSecured-abandon p h s = elim (Option-cases (answers h (close p))) [
    | inl n ↦ rw n s
    | inr (e, n) ↦ rw n s
  ]

  IsSecured-write_file :
      (f : GenFile) (next : History → Outcome)
      → Among f files
      → Keeps next
      → Keeps (write_file answers dir f next)
  unfolding write_file
  IsSecured-write_file f next among keeps h private s =
      let p = join dir f.name in
      let h₁ : History = (create p, true) ∷ h in
      let h₂ : History = (set_mode p f.mode, true) ∷ h₁ in
      let ready : IsReady dir files p f.body h₂ = (f, h, among, refl, refl, refl, private) in
      elim (Option-cases (answers h (create p))) [
        | inr (e, n) ↦ rw n s
        | inl n₁ ↦ elim (Option-cases (answers h₁ (set_mode p f.mode))) [
          | inr (e, n) ↦ rw (n₁, n) (IsSecured-abandon p ((set_mode p f.mode, false) ∷ h₁) s)
          | inl n₂ ↦ elim (Option-cases (answers h₂ (write p f.body))) [
            | inr (e, n) ↦
                rw (n₁, n₂, n) (IsSecured-abandon p ((write p f.body, false) ∷ h₂) (ready, s))
            | inl n₃ ↦
                let h₃ : History = (write p f.body, true) ∷ h₂ in
                elim (Option-cases (answers h₃ (close p))) [
                  | inr (e, n) ↦ rw (n₁, n₂, n₃, n) (ready, s)
                  | inl n₄ ↦
                      rw (n₁, n₂, n₃, n₄)
                        (keeps ((close p, true) ∷ h₃) (inr (inr (inr (inr private)))) (ready, s))
                ]
          ]
        ]
      ]

  -- All the files of a part of the list are among the files.
  abbrev AllAmong : List GenFile → Type 0
  AllAmong [] = Unit
  AllAmong (f ∷ fs) = Among f files × AllAmong fs

  IsSecured-write_files : (fs : List GenFile) → AllAmong fs → Keeps (write_files answers dir fs)
  unfolding write_files
  IsSecured-write_files [] among h private s = s
  IsSecured-write_files (f ∷ fs) (a, as_) h private s =
      IsSecured-write_file f (write_files answers dir fs) a (IsSecured-write_files fs as_) h private
        s

Among-more : (f : GenFile) (gs fs : List GenFile) → Among f fs → Among f (gs ++ fs)
Among-more f [] fs a = a
Among-more f (g ∷ gs) fs a = inr (Among-more f gs fs a)

AllAmong-rest :
    (answers : Answers) (dir : Text) (gs fs : List GenFile) → AllAmong answers dir (gs ++ fs) fs
AllAmong-rest answers dir gs [] = tt
AllAmong-rest answers dir gs (f ∷ fs) = (
  Among-more f gs (f ∷ fs) (inl refl),
  subst (λ all. AllAmong answers dir all fs) (append_assoc gs (f ∷ []) fs)
      (AllAmong-rest answers dir (gs ++ f ∷ []) fs),
)

-- Whatever the server answers, nothing is written into a file before the file was created under its
-- name and got its mode, one right after the other, in a directory that was made private before; and
-- what is written is the body of that file.
pub write_workspace-IsSecured :
    (answers : Answers) (dir : Text) (files : List GenFile)
    → IsSecured dir files (write_workspace answers dir files []).1
unfolding write_workspace
write_workspace-IsSecured answers dir files =
    let h₁ : History = (make_dirs dir, true) ∷ [] in
    let h₂ : History = (set_mode dir owner_runs, true) ∷ h₁ in
    elim (Option-cases (answers [] (make_dirs dir))) [
      | inr (e, n) ↦ rw n tt
      | inl n₁ ↦ elim (Option-cases (answers h₁ (set_mode dir owner_runs))) [
        | inr (e, n) ↦ rw (n₁, n) tt
        | inl n₂ ↦
            rw (n₁, n₂)
              (IsSecured-write_files answers dir files files (AllAmong-rest answers dir [] files) h₂
                (inl refl) tt)
      ]
    ]

-- What was done to each file, newest first, after `h`.
abbrev pub uploaded : Text → List GenFile → History → History
uploaded dir [] h = h
uploaded dir (f ∷ fs) h =
    let p = join dir f.name in
    uploaded dir fs
      ((close p, true) ∷ (write p f.body, true) ∷ (set_mode p f.mode, true) ∷ (create p, true) ∷ h)

attempt_ok :
    (answers : Answers) (a : Action) (next : History → Outcome) (h h' : History)
    → attempt answers a next h ≡ (none, h')
    → next ((a, true) ∷ h) ≡ (none, h')
attempt_ok answers a next h h' e = elim (Option-cases (answers h a)) [
  | inl n ↦ rw n at e
  | inr (x, n) ↦ cc (ap (λ o. o.0) (rw n at e))
]

abandon_fails :
    (answers : Answers) (p : Text) (h : History) → (e : Error) × ((abandon answers p h).0 ≡ some e)
abandon_fails answers p h = elim (Option-cases (answers h (close p))) [
  | inl n ↦ (lost answers, rw n refl)
  | inr (e, n) ↦ (e, rw n refl)
]

attempt_on_ok :
    (answers : Answers) (p : Text) (a : Action) (next : History → Outcome) (h h' : History)
    → attempt_on answers p a next h ≡ (none, h')
    → next ((a, true) ∷ h) ≡ (none, h')
attempt_on_ok answers p a next h h' e = elim (Option-cases (answers h a)) [
  | inl n ↦ rw n at e
  | inr (x, n) ↦
      let (y, fails) = abandon_fails answers p ((a, false) ∷ h) in
      cc (sym fails ∙ ap (λ o. o.0) (rw n at e))
]

write_files-uploaded :
    (answers : Answers) (dir : Text) (fs : List GenFile) (h h' : History)
    → write_files answers dir fs h ≡ (none, h')
    → h' ≡ uploaded dir fs h
unfolding write_files write_file
write_files-uploaded answers dir [] h h' e = sym (ap (λ o. o.1) e)
write_files-uploaded answers dir (f ∷ fs) h h' e =
    let p = join dir f.name in
    let rest = write_files answers dir fs in
    let closed = attempt answers (close p) rest in
    let written = attempt_on answers p (write p f.body) closed in
    let h₁ : History = (create p, true) ∷ h in
    let h₂ : History = (set_mode p f.mode, true) ∷ h₁ in
    let h₃ : History = (write p f.body, true) ∷ h₂ in
    let e₁ =
      attempt_ok answers (create p) (attempt_on answers p (set_mode p f.mode) written) h h' e in
    let e₂ = attempt_on_ok answers p (set_mode p f.mode) written h₁ h' e₁ in
    let e₃ = attempt_on_ok answers p (write p f.body) closed h₂ h' e₂ in
    let e₄ = attempt_ok answers (close p) rest h₃ h' e₃ in
    write_files-uploaded answers dir fs ((close p, true) ∷ h₃) h' e₄

-- An upload that reports no error has made every request, in order, and each succeeded: no failure of
-- the server is swallowed, however the error of a close shadows another.
pub write_workspace-uploaded :
    (answers : Answers) (dir : Text) (files : List GenFile) (h h' : History)
    → write_workspace answers dir files h ≡ (none, h')
    → h' ≡ uploaded dir files ((set_mode dir owner_runs, true) ∷ (make_dirs dir, true) ∷ h)
unfolding write_workspace
write_workspace-uploaded answers dir files h h' e =
    let rest = write_files answers dir files in
    let made : History = (make_dirs dir, true) ∷ h in
    let e₁ =
      attempt_ok answers (make_dirs dir) (attempt answers (set_mode dir owner_runs) rest) h h' e in
    let e₂ = attempt_ok answers (set_mode dir owner_runs) rest made h' e₁ in
    write_files-uploaded answers dir files ((set_mode dir owner_runs, true) ∷ made) h' e₂
