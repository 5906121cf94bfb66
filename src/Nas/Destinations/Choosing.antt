-- ===== src/Nas/Destinations/Choosing.antt =====
-- What a destination that is validated, made or offered may be (internal/nas/nas.go).
use sftp_relay.Base.{
  Text, List, [], ◌∷◌, ◌++◌, map, keep, Bool, true, Option, none, some, text_eq, trim_space, Error,
  Result, ok, err, result_cases, ok_injective, ◌≡◌, refl, sym, ap, ◌∙◌, subst, Bool-cases, inl, inr,
  All, All-imp, has_prefix,
}
use sftp_relay.Base.Path.{absolute, root, clean}
use sftp_relay.Base.Path.Names.{IsName, clean-absolute, rooted-absolute, absolute-injective}
use sftp_relay.Base.Splitting.{join}
use sftp_relay.Base.Splitting.Joining.{join-IsName}
use sftp_relay.Base.Sorting.{All-sort_by}
use sftp_relay.Nas.Path.{is_empty, normalise, check_path}
use sftp_relay.Nas.Path.Checking.{IsInside, IsInside-more, normalise-IsName}
use sftp_relay.Nas.Path.Acceptance.{check_path-IsInside}
use sftp_relay.Nas.Client.{Session, Client, Wire, with_session}
use sftp_relay.Nas.Client.Retrying.{with_session_ok}
use sftp_relay.Nas.Destinations.{
  Info, Space, Remote, Listing, Made, decided, roots, entry_in, root_entries, with_space, check_on,
  checked, validate, listed, list_on, name_below, presented, presented_result, browsed,
  root_listing, browse,
}

decided_ok : (o : Option (Result Text)) (a : Text) → decided o ≡ ok a → o ≡ some (ok a)
decided_ok none a h = cc
decided_ok (some r) a h = ap some h

-- One more name below a path that is inside is inside.
IsInside-join :
    (nfc : Text → Text) (rs : List Text) (d name : Text)
    → IsName name
    → IsInside nfc rs d
    → IsInside nfc rs (join d name)
IsInside-join nfc rs d name n i =
    let names = i.below ++ i.base_names in
    let rooted : has_prefix d root ≡ true =
      ap (λ t. has_prefix t root) i.at ∙ rooted-absolute names in
    let (st, cleaned, plain, joined) = join-IsName d name rooted n in
    let same : st ≡ names =
      absolute-injective st names plain i.plain
        (sym cleaned ∙ ap clean i.at ∙ clean-absolute names i.plain) in
    record {
      base = i.base;
      is_root = i.is_root;
      base_names = i.base_names;
      below = name ∷ i.below;
      base_at = i.base_at;
      at = joined ∙ ap (λ t. absolute (name ∷ t)) same;
      plain = (n, i.plain);
    }

-- The names in a listing of the server are names that a directory can hold.
abbrev pub HasNames : (Session → Remote) → Type 0
HasNames remote =
    (s : Session) (d : Text) (infos : List Info)
    → (remote s).read_dir d ≡ ok infos
    → All (λ i. IsName i.name) infos

module _ (nfc lower : Text → Text) (is_broken : Error → Bool) (remote : Session → Remote) where
  checked-IsInside :
      (rs : List Text) (w w' : Wire) (c : Client) (made : Made) (x : Result Text) (d : Text)
      (c' : Client) (made' : Made)
      → checked nfc lower is_broken remote rs w w' c made x ≡ (ok d, c', made')
      → IsInside nfc rs d
  checked-IsInside rs w w' c made (err e) d c' made' h = cc (ap (λ y. y.0) h)
  checked-IsInside rs w w' c made (ok clean) d c' made' h =
      let (s, m, _, ran) =
        with_session_ok is_broken (check_on nfc lower is_broken remote clean rs) (λ m. Unit {0})
          (λ s r u. tt) w w' c made d c' made' tt h in
      check_path-IsInside nfc clean rs (some (remote s).real_path) d
        (decided_ok (check_path nfc clean rs (some (remote s).real_path)) d (ap (λ y. y.0) ran))

  -- A destination that `Validate` returns lies inside one of the roots of the settings, whatever the
  -- server answers and however often the connection breaks.
  pub validate-IsInside :
      (p : Text) (w w' : Wire) (c : Client) (made : Made) (d : Text) (c' : Client) (made' : Made)
      → validate nfc lower is_broken remote p w w' c made ≡ (ok d, c', made')
      → IsInside nfc (roots c.db) d
  unfolding validate
  validate-IsInside p w w' c made d c' made' h =
      checked-IsInside (roots c.db) w w' c made (decided (check_path nfc p (roots c.db) none)) d c'
        made' h

  abbrev Offers : List Text → Listing → Type 0
  Offers rs l = All (λ e. IsInside nfc rs e.path) l.entries

  entries-IsInside :
      (rs : List Text) (d : Text) (infos : List Info)
      → IsInside nfc rs d
      → All (λ i. IsName i.name) infos
      → All (λ e. IsInside nfc rs e.path) (map (entry_in d) (keep (λ i. i.is_dir) infos))
  entries-IsInside rs d [] inside h = tt
  entries-IsInside rs d (i ∷ is) inside (h, hs) = elim (Bool-cases i.is_dir) [
    | inl e ↦ rw e (IsInside-join nfc rs d i.name h inside, entries-IsInside rs d is inside hs)
    | inr e ↦ rw e (entries-IsInside rs d is inside hs)
  ]

  root_entries-IsInside :
      (rs : List Text)
      → All (λ e. IsInside nfc rs e.path) (root_entries nfc lower is_broken remote rs)
  unfolding root_entries
  root_entries-IsInside [] = tt
  root_entries-IsInside (r ∷ rs) =
      let rest =
        All-imp (λ e. IsInside nfc rs e.path) (λ e. IsInside nfc (r ∷ rs) e.path)
          (λ e k. IsInside-more nfc r rs e.path k) (root_entries nfc lower is_broken remote rs)
          (root_entries-IsInside rs) in
      elim (result_cases (normalise nfc r)) [
        | inr (e, bad) ↦ rw bad rest
        | inl (cleaned, good) ↦
            let (st, at, plain) = normalise-IsName nfc r cleaned good in
            rw good (
              record {
                base = r;
                is_root = inl refl;
                base_names = st;
                below = [];
                base_at = good ∙ ap ok at;
                at = at;
                plain = plain;
              },
              rest,
            )
      ]

  with_space-entries : (o : Option Space) (l : Listing) → (with_space o l).entries ≡ l.entries
  with_space-entries none l = refl
  with_space-entries (some s) l = refl

  listed-IsInside :
      (rs : List Text) (d : Text) (space : Option Space) (r : Result (List Info)) (l : Listing)
      → IsInside nfc rs d
      → ((infos : List Info) → r ≡ ok infos → All (λ i. IsName i.name) infos)
      → listed nfc lower is_broken remote d space r ≡ ok l
      → Offers rs l
  listed-IsInside rs d space (err e) l inside named h = cc
  listed-IsInside rs d space (ok infos) l inside named h =
      let bare : Listing = record {
        path = d;
        parent = [];
        entries = map (entry_in d) (keep (λ i. i.is_dir) infos);
        free_bytes = 0;
        total_bytes = 0;
      } in
      subst (Offers rs) (ok_injective (with_space space bare) l h) (
        subst (All (λ e. IsInside nfc rs e.path)) (sym (with_space-entries space bare))
          (entries-IsInside rs d infos inside (named infos refl)))

  presented-IsInside :
      (rs : List Text) (x : Result Listing × Client × Made) (l : Listing) (c' : Client)
      (made' : Made)
      → ((bare : Listing) → x.0 ≡ ok bare → Offers rs bare)
      → presented_result nfc lower is_broken remote rs x ≡ (ok l, c', made')
      → Offers rs l
  presented-IsInside rs (err e, c, made) l c' made' inside h = cc (ap (λ y. y.0) h)
  presented-IsInside rs (ok bare, c, made) l c' made' inside h =
      subst (Offers rs)
        (ok_injective (presented nfc lower is_broken remote rs bare) l (ap (λ y. y.0) h))
        (All-sort_by (name_below nfc lower is_broken remote) (λ e. IsInside nfc rs e.path)
          bare.entries (inside bare refl))

  module _ (named : HasNames remote) where
    listing-IsInside :
        (rs : List Text) (d : Text) (w w' : Wire) (c : Client) (made : Made) (bare : Listing)
        → IsInside nfc rs d
        → (with_session is_broken (list_on nfc lower is_broken remote d) w w' c made).0 ≡ ok bare
        → Offers rs bare
    listing-IsInside rs d w w' c made bare inside h =
        let x = with_session is_broken (list_on nfc lower is_broken remote d) w w' c made in
        let (s, _, _, ran) =
          with_session_ok is_broken (list_on nfc lower is_broken remote d) (λ m. Unit {0})
            (λ s r u. tt) w w' c made bare x.1 x.2 tt (ap (λ r. (r, x.1, x.2)) h) in
        listed-IsInside rs d ((remote s).stat_vfs d) ((remote s).read_dir d) bare inside (named s d)
          (ap (λ y. y.0) ran)

    browsed-IsInside :
        (rs : List Text) (w w' : Wire) (x : Result Text × Client × Made) (l : Listing) (c' : Client)
        (made' : Made)
        → ((d : Text) → x.0 ≡ ok d → IsInside nfc rs d)
        → browsed nfc lower is_broken remote rs w w' x ≡ (ok l, c', made')
        → Offers rs l
    browsed-IsInside rs w w' (err e, c, made) l c' made' inside h = cc (ap (λ y. y.0) h)
    browsed-IsInside rs w w' (ok d, c, made) l c' made' inside h =
        presented-IsInside rs
          (with_session is_broken (list_on nfc lower is_broken remote d) w w' c made) l c' made'
          (λ bare e. listing-IsInside rs d w w' c made bare (inside d refl) e) h

    -- Every destination that `Browse` offers lies inside one of the roots, whether it lists the roots
    -- or a directory below one, if the server lists names that a directory can hold.
    pub browse-IsInside :
        (p : Text) (w₁ w₂ w₃ w₄ : Wire) (c : Client) (made : Made) (l : Listing) (c' : Client)
        (made' : Made)
        → browse nfc lower is_broken remote p w₁ w₂ w₃ w₄ c made ≡ (ok l, c', made')
        → All (λ e. IsInside nfc (roots c.db) e.path) l.entries
    unfolding browse
    browse-IsInside p w₁ w₂ w₃ w₄ c made l c' made' h =
        let rs = roots c.db in
        let x = validate nfc lower is_broken remote p w₁ w₂ c made in
        elim (Bool-cases (is_empty rs)) [
          | inl e ↦ cc (ap (λ y. y.0) (rw e at h))
          | inr e ↦ elim (Bool-cases (text_eq (trim_space p) [])) [
            | inl b ↦
                subst (Offers rs)
                  (ok_injective (root_listing nfc lower is_broken remote rs) l
                    (ap (λ y. y.0) (rw (e, b) at h)))
                  (root_entries-IsInside rs)
            | inr b ↦
                browsed-IsInside rs w₃ w₄ x l c' made'
                  (λ d v. validate-IsInside p w₁ w₂ c made d x.1 x.2 (ap (λ r. (r, x.1, x.2)) v))
                  (rw (e, b) at h)
          ]
        ]
