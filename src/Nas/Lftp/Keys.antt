-- ===== src/Nas/Lftp/Keys.antt =====
-- The keys that ssh gets (internal/nas/lftp.go).
use sftp_relay.Base.{
  ℕ, false, [], ◌∷◌, ◌++◌, ◌==◌, ◌≡◌, refl, ap, ◌∙◌, Bool-cases, inl, inr, Text, All, All-append,
}
use sftp_relay.Nas.Lftp.{
  line_feed, carriage_return, unix_lines, returns_to_feeds, unless_feed, trim_feeds, normalize_pem,
}

abbrev pub IsPlain : ℕ → Type 0
IsPlain c = (c == carriage_return) ≡ false

returns_to_feeds-IsPlain : (b : Text) → All IsPlain (returns_to_feeds b)
unfolding returns_to_feeds
returns_to_feeds-IsPlain [] = tt
returns_to_feeds-IsPlain (c ∷ b) = elim (Bool-cases (c == carriage_return)) [
  | inl e ↦ rw e (refl, returns_to_feeds-IsPlain b)
  | inr e ↦ rw e (e, returns_to_feeds-IsPlain b)
]

unless_feed-IsPlain : (c : ℕ) (b : Text) → IsPlain c → All IsPlain b → All IsPlain (unless_feed c b)
unless_feed-IsPlain c [] h k = elim (Bool-cases (c == line_feed)) [
  | inl e ↦ rw e tt
  | inr e ↦ rw e (h, tt)
]
unless_feed-IsPlain c (d ∷ b) h k = (h, k)

trim_feeds-IsPlain : (b : Text) → All IsPlain b → All IsPlain (trim_feeds b)
unfolding trim_feeds
trim_feeds-IsPlain [] h = tt
trim_feeds-IsPlain (c ∷ b) (h, hs) =
    unless_feed-IsPlain c (trim_feeds b) h (trim_feeds-IsPlain b hs)

-- A text without carriage returns is left as it is.
unix_lines_plain : (b : Text) → All IsPlain b → unix_lines b ≡ b
unfolding unix_lines
unix_lines_plain [] h = refl
unix_lines_plain (c ∷ b) (h, hs) = rw h (ap (λ r. c ∷ r) (unix_lines_plain b hs))

returns_plain : (b : Text) → All IsPlain b → returns_to_feeds b ≡ b
unfolding returns_to_feeds
returns_plain [] h = refl
returns_plain (c ∷ b) (h, hs) = rw h (ap (λ r. c ∷ r) (returns_plain b hs))

-- A feed behind a text that is trimmed is trimmed again.
unless_feed_again :
    (c : ℕ) (b : Text)
    → trim_feeds (b ++ line_feed ∷ []) ≡ b
    → trim_feeds (unless_feed c b ++ line_feed ∷ []) ≡ unless_feed c b
unfolding trim_feeds
unless_feed_again c [] h = elim (Bool-cases (c == line_feed)) [
  | inl e ↦ rw e refl
  | inr e ↦ rw (e, e) refl
]
unless_feed_again c (d ∷ b) h = ap (unless_feed c) h

trim_feeds_again : (b : Text) → trim_feeds (trim_feeds b ++ line_feed ∷ []) ≡ trim_feeds b
unfolding trim_feeds
trim_feeds_again [] = refl
trim_feeds_again (c ∷ b) = unless_feed_again c (trim_feeds b) (trim_feeds_again b)

-- The key that is written holds no carriage return, and normalising it a second time changes nothing.
pub normalize_pem-IsPlain :
    (b : Text) → All IsPlain (normalize_pem b) × (normalize_pem (normalize_pem b) ≡ normalize_pem b)
unfolding normalize_pem
normalize_pem-IsPlain b =
    let t = trim_feeds (returns_to_feeds (unix_lines b)) in
    let plain =
      All-append IsPlain t (line_feed ∷ [])
        (trim_feeds-IsPlain (returns_to_feeds (unix_lines b))
          (returns_to_feeds-IsPlain (unix_lines b)))
        (refl, tt) in
    (
      plain,
      ap (λ x. trim_feeds (returns_to_feeds x) ++ line_feed ∷ [])
            (unix_lines_plain (t ++ line_feed ∷ []) plain)
          ∙ ap (λ x. trim_feeds x ++ line_feed ∷ []) (returns_plain (t ++ line_feed ∷ []) plain)
          ∙ ap (λ x. x ++ line_feed ∷ []) (trim_feeds_again (returns_to_feeds (unix_lines b))),
    )
