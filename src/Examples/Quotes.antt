-- ===== src/Examples/Quotes.antt =====
-- A path with quotes, and a key from a browser form (internal/nas/lftp.go).
use sftp_relay.Base.{Text, [], ◌∷◌, some, false, ◌≡◌, codes}
use sftp_relay.Nas.Lftp.{sh_quote}
use sftp_relay.Nas.Lftp.Quoting.{sh_word, sh_word-sh_quote}

sh_word-sh_quote_example :
    sh_word false (sh_quote (codes "it's; rm -rf")) ≡ some (codes "it's; rm -rf")
sh_word-sh_quote_example = sh_word-sh_quote (codes "it's; rm -rf")

abbrev pasted : Text
pasted = b'k' ∷ 13 ∷ 10 ∷ b'e' ∷ 13 ∷ 10 ∷ 10 ∷ []
