-- ===== src/Api/Browsing/Parents.antt =====
-- The way up from a directory of a server (internal/api/api.go).
use sftp_relay.Base.{
  ℕ, Text, List, [], ◌∷◌, ◌++◌, true, false, some, text_eq, text_eq_iff, if◌then◌else◌, codes,
  has_prefix, All, Result, ok, err, ◌≡◌, refl, sym, ap, ◌∙◌, Bool-cases, inl, inr,
}
use sftp_relay.Base.Path.{root, slash, clean, absolute, path_of, pieces, enter_all}
use sftp_relay.Base.Path.Names.{IsName, clean-IsName, clean_from, absolute-injective, rooted_path}
use sftp_relay.Db.Rows.{Server, Database}
use sftp_relay.Db.Servers.{get_server}
use sftp_relay.Sftp.{Conn, clean_path}
use sftp_relay.Sftp.Pool.{Pool, World}
use sftp_relay.Sftp.Listing.{Entry, Remote, list}
use sftp_relay.Api.{Reply, entries_body, write_err}
use sftp_relay.Api.Browsing.{parent_path, entries_reply, browse_found, browse_server_handler}

-- The directory above names, and nothing above the root.
abbrev pub above : List Text → Text
above [] = []
above (s ∷ st) = absolute st

clean_path-IsName : (p : Text) → (st : List Text) × (clean_path p ≡ absolute st) × All IsName st
unfolding clean_path path_of
clean_path-IsName p = elim (Bool-cases (text_eq p [])) [
  | inl e ↦ ([], rw e refl, tt)
  | inr e ↦ elim (Bool-cases (has_prefix p root)) [
    | inl r ↦ let c = clean-IsName p r in (c.0, rw (e, r) c.1, c.2)
    | inr r ↦ let c = clean-IsName (slash ∷ p) refl in (c.0, rw (e, r) c.1, c.2)
  ]
]

text_eq-root :
    (s : Text) (st : List Text) → All IsName (s ∷ st) → text_eq (absolute (s ∷ st)) root ≡ false
unfolding path_of
text_eq-root s st h = elim (Bool-cases (text_eq (absolute (s ∷ st)) root)) [
  | inr e ↦ e
  | inl e ↦ cc (absolute-injective (s ∷ st) [] h tt ((text_eq_iff (absolute (s ∷ st)) root).0 e))
]

clean_path-clean : (p : Text) → has_prefix p root ≡ true → clean_path p ≡ clean p
unfolding clean_path
clean_path-clean [] h = cc
clean_path-clean (c ∷ p) h = ap (λ b. clean (if b then c ∷ p else slash ∷ c ∷ p)) h

enter_back :
    (s : Text) (st : List Text) → IsName s → enter_all true (s ∷ st) (pieces (codes "..")) ≡ st
unfolding enter_all pieces
enter_back s st n = rw (n.not_back) refl

clean_path-back :
    (s : Text) (st : List Text)
    → All IsName (s ∷ st)
    → clean_path (absolute (s ∷ st) ++ codes "/..") ≡ absolute st
clean_path-back s st h =
    clean_path-clean (absolute (s ∷ st) ++ codes "/..") (rooted_path (s ∷ st) (codes ".."))
    ∙ clean_from (s ∷ st) (codes "..") h
    ∙ ap absolute (enter_back s st h.0)

parent_path-absolute :
    (lower : Text → Text) (remote : Conn → Remote) (st : List Text)
    → All IsName st
    → parent_path lower remote (absolute st) ≡ above st
unfolding parent_path
parent_path-absolute lower remote [] h = refl
parent_path-absolute lower remote (s ∷ st) h = rw (text_eq-root s st h) (clean_path-back s st h)

-- The parts of the reply of a listing.
abbrev pub Shows : Reply → Text → Text → Type 0
Shows r dir parent = (es : List Entry) × (r.body ≡ entries_body dir parent es)

module _ (lower : Text → Text) (remote : Conn → Remote) where
  entries_reply_shown :
      (d : Text) (x : Result (List Entry) × Pool × Database) (dir parent : Text)
      → Shows (entries_reply lower remote d x).0 dir parent
      → (d ≡ dir) × (parent_path lower remote d ≡ parent)
  unfolding write_err
  entries_reply_shown d (err e, p, db) dir parent (es, h) = cc
  entries_reply_shown d (ok fs, p, db) dir parent (es, h) = (cc, cc)

  browse_found_shown :
      (w : World) (path : Text) (p : Pool) (db : Database) (r : Result Server) (dir parent : Text)
      → Shows (browse_found lower remote w path p db r).0 dir parent
      → (q : Text) × (clean_path q ≡ dir) × (parent_path lower remote (clean_path q) ≡ parent)
  unfolding write_err
  browse_found_shown w path p db (err e) dir parent (es, h) = cc
  browse_found_shown w path p db (ok s) dir parent h =
      let q = if text_eq path [] then s.default_remote_path else path in
      let (one, two) =
        entries_reply_shown (clean_path q) (list lower remote w s (clean_path q) p db) dir parent
          h in
      (q, one, two)

  -- A directory that `browseServer` shows is absolute and made of names, without `.` or `..`, whatever
  -- path was asked for; and its parent is the path without the last name, which for the root is none.
  pub browse_server-IsName :
      (w : World) (id : ℕ) (path : Text) (p : Pool) (db : Database) (dir parent : Text)
      → Shows (browse_server_handler lower remote w (some id) path p db).0 dir parent
      → (st : List Text) × (dir ≡ absolute st) × All IsName st × (parent ≡ above st)
  unfolding browse_server_handler
  browse_server-IsName w id path p db dir parent h =
      let (q, one, two) = browse_found_shown w path p db (get_server id db) dir parent h in
      let (st, cleaned, names) = clean_path-IsName q in
      (
        st,
        sym one ∙ cleaned,
        names,
        sym two
            ∙ ap (parent_path lower remote) cleaned
            ∙ parent_path-absolute lower remote st names,
      )
