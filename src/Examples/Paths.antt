-- ===== src/Examples/Paths.antt =====
-- Destinations under one share (internal/nas/path.go).
use sftp_relay.Base.{
  none, some, List, [], ◌∷◌, ◌≡◌, refl, Text, codes, All, external, Result, ok, err, inl, inr,
  text_eq, trim_space, trim_left, if◌then◌else◌,
}
use sftp_relay.Base.Path.{absolute, clean, dir, dir_part, pieces, enter_all, path_of, trim_slash}
use sftp_relay.Base.Path.Names.{IsName}
use sftp_relay.Nas.Path.{Resolver, normalise, contained, check_path, walk_up}
use sftp_relay.Nas.Path.Checking.{IsInside}
use sftp_relay.Nas.Path.Acceptance.{check_path-IsInside, check_path_ends, check_path_resolved}

abbrev pub same_text : Text → Text
same_text t = t

abbrev shares : List Text
shares = codes "relative" ∷ codes "/m/" ∷ []

abbrev in_share : List Text
in_share = codes "f" ∷ codes "m" ∷ []

abbrev share_name : List Text
share_name = codes "m" ∷ []

in_share-IsName : All IsName in_share
in_share-IsName = (
  record { not_skipped = refl; not_back = refl; no_slash = (refl, tt) },
  (record { not_skipped = refl; not_back = refl; no_slash = (refl, tt) }, tt),
)

-- Only the share itself is there.
abbrev pub follow : Resolver
follow p = if text_eq p (codes "/m") then ok (codes "/m") else err (external (codes "no such file"))

accepted : check_path same_text (codes " /m/x/../f") shares none ≡ some (ok (codes "/m/f"))
unfolding check_path trim_space trim_left clean path_of pieces enter_all contained trim_slash
accepted = refl

check_path-IsInside_example : IsInside same_text shares (codes "/m/f")
check_path-IsInside_example =
    check_path-IsInside same_text (codes " /m/x/../f") shares none (codes "/m/f") accepted

check_path_ends_example :
    (r : Result Text) × (check_path same_text (codes "/m/a/b/c") shares (some follow) ≡ some r)
check_path_ends_example = check_path_ends same_text (codes "/m/a/b/c") shares (some follow)

share_is_clean : normalise same_text (codes "/m") ≡ ok (codes "/m")
unfolding normalise trim_space trim_left clean path_of pieces enter_all
share_is_clean = refl

share_is_accepted : check_path same_text (codes "/m") shares (some follow) ≡ some (ok (codes "/m"))
unfolding check_path trim_space trim_left clean path_of pieces enter_all contained trim_slash
share_is_accepted = refl

check_path_resolved_example :
    (normalise same_text (codes "/m") ≡ ok (codes "/m")) × IsInside same_text shares (codes "/m")
check_path_resolved_example =
    check_path_resolved same_text (codes "/m") shares follow (codes "/m") (codes "/m") (codes "/m")
      share_is_clean refl share_is_accepted

new_is_clean : normalise same_text (codes "/m/f") ≡ ok (absolute in_share)
unfolding normalise trim_space trim_left clean path_of pieces enter_all
new_is_clean = refl

new_is_not_there : follow (absolute in_share) ≡ err (external (codes "no such file"))
unfolding path_of
new_is_not_there = refl

new_is_accepted :
    check_path same_text (codes "/m/f") shares (some follow) ≡ some (ok (codes "/m/f"))
unfolding check_path trim_space trim_left clean path_of pieces enter_all contained trim_slash
    walk_up dir dir_part
new_is_accepted = refl

cleaned_spaces : normalise same_text (codes " /m/x/../f") ≡ ok (codes "/m/f")
unfolding normalise trim_space trim_left clean path_of pieces enter_all
cleaned_spaces = refl

share_normalised : normalise same_text (codes "/m/") ≡ ok (absolute share_name)
unfolding normalise trim_space trim_left clean path_of pieces enter_all
share_normalised = refl

IsInside-share : IsInside same_text shares (codes "/m/f")
unfolding path_of
IsInside-share = record {
  base = codes "/m/";
  is_root = inr (inl refl);
  base_names = share_name;
  below = codes "f" ∷ [];
  base_at = share_normalised;
  at = refl;
  plain = in_share-IsName;
}
