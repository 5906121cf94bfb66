-- ===== src/Jobs/View/Percent.antt =====
-- The percentage of internal/jobs/view.go.
use native.Mathlib.Nat.{le-div_iff_mul-le, div-mul-le_self, le_trans}
use sftp_relay.Base.{ℕ, ◌*◌, ◌/◌, ◌^◌, ◌≤◌, ◌<◌, ◌≡◌, arith, min}
use sftp_relay.Base.Int.{ℤ, pos, ◌≤ℤ◌, mul64, quot, mul64_exact}
use sftp_relay.Db.Rows.{Job}
use sftp_relay.Jobs.State.{status_done, terminal}
use sftp_relay.Jobs.View.{percent, view_of}

-- A percentage is never above 100, whatever the counts, a wrapped product included.
pub percent-le : (done total : ℤ) → percent done total ≤ℤ pos 100
unfolding percent
percent-le done total = ground arith

div_mono : (a b t : ℕ) → 0 < t → a ≤ b → a / t ≤ b / t
div_mono a b t pos_t h = (le-div_iff_mul-le pos_t).1 (le_trans (div-mul-le_self a t) h)

-- With counts whose product by 100 fits an int64 the percentage is exact, and stops at 100.
pub percent_exact :
    (done total : ℕ)
    → 0 < total
    → done * 100 < 2 ^ 63
    → percent (pos done) (pos total) ≡ pos (min (done * 100 / total) 100)
unfolding percent quot
percent_exact done total h fits = rw (mul64_exact done 100 fits) (ground arith)

-- The view of a done job shows 100; of any other, the percentage of its counts.
pub percent-view_of :
    (j : Job)
    → ((j.status ≡ status_done) → (view_of j).percent ≡ pos 100) × ((view_of j).percent ≤ℤ pos 100)
unfolding view_of terminal
percent-view_of j = (λ e. rw e, ground (arith, percent-le j.transferred_bytes j.total_bytes))

-- Below the int64 range more bytes never show a smaller percentage.
pub percent_mono :
    (d e total : ℕ)
    → 0 < total
    → d ≤ e
    → e * 100 < 2 ^ 63
    → percent (pos d) (pos total) ≤ℤ percent (pos e) (pos total)
percent_mono d e total h le fits =
    rw (percent_exact d total h (omega arith), percent_exact e total h fits)
      (omega (arith, div_mono (d * 100) (e * 100) total h (omega arith)))

-- Where the product by 100 passes the int64 range, the percentage of a job with bytes already
-- there is at most zero.
pub percent_wraps :
    (done total : ℕ)
    → 0 < total
    → 2 ^ 63 ≤ done * 100
    → done * 100 < 2 ^ 64
    → percent (pos done) (pos total) ≤ℤ pos 0
unfolding percent quot mul64
percent_wraps done total h f k = ground arith
