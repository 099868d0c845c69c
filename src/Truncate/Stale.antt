-- ===== src/Truncate/Stale.antt =====
-- programs/truncate.c: a file that is there, handled while `errno` is still set from another.
use punchcardos.Prelude.{
  ℕ, ◌≡◌, refl, ap, ◌∙◌, true, false, some, none, Bytes, [], str_eq, str_eq_iff, take_nil, arith,
  ◌-◌,
}
use punchcardos.Sys.{returns, exit_success}
use punchcardos.Truncate.{
  Host, Disk, put_file, set_errno, zeros, resize, to, new_size, set_size, resize_file,
  create_or_keep, stat_file, do_truncate,
}

-- Nothing is refused.
pub record IsOpen (h : Host) (name : Bytes) : Type 0 where
  pub stat_allowed : h.stat_denied name ≡ false
  pub open_allowed : h.open_denied name ≡ false
  pub truncate_allowed : h.truncate_denied name ≡ false

str_eq_refl : (s : Bytes) → str_eq s s ≡ true
str_eq_refl s = (str_eq_iff s s).1 refl

resize_nil : (n : ℕ) → resize n [] ≡ zeros n
resize_nil n = let m : n - 0 ≡ n = omega arith in rw (take_nil, m) refl

set_size-there :
    (h : Host) (name bs : Bytes) (n : ℕ) (d : Disk)
    → IsOpen h name
    → d.file name ≡ some bs
    → set_size h name (to n) d ≡ (returns exit_success, put_file name (resize n bs) d)
unfolding set_size
set_size-there h name bs n d o f = rw (f, set_size) (rw o.truncate_allowed refl)

-- With `errno` at `ENOENT`, the size is made from 0, and the file emptied first.
from_nothing :
    (h : Host) (name bs : Bytes) (op size n blocks : ℕ) (d : Disk)
    → IsOpen h name
    → new_size op size 0 ≡ to n
    → create_or_keep h name op size false blocks bs (set_errno true d)
      ≡ (returns exit_success, put_file name (zeros n) (put_file name [] (set_errno true d)))
unfolding create_or_keep resize_file
from_nothing h name bs op size n blocks d o r =
    let d' : Disk = put_file name [] (set_errno true d) in
    let there : d'.file name ≡ some [] = rw (str_eq_refl name) refl in
    rw (o.open_allowed, create_or_keep, r)
      (set_size-there h name [] n d' o there
        ∙ ap (λ bs. (returns exit_success, put_file name bs d')) (resize_nil n))

missing :
    (h : Host) (garbage : ℕ) (name : Bytes) (op size n : ℕ) (d : Disk)
    → IsOpen h name
    → d.file name ≡ none
    → new_size op size 0 ≡ to n
    → do_truncate h garbage name op size false false d
      ≡ (returns exit_success, put_file name (zeros n) (put_file name [] (set_errno true d)))
unfolding do_truncate stat_file
missing h garbage name op size n d o f r =
    rw (o.stat_allowed, do_truncate, f) (from_nothing h name [] op size n garbage d o r)

present :
    (h : Host) (garbage : ℕ) (name content : Bytes) (op size n : ℕ) (d : Disk)
    → IsOpen h name
    → d.file name ≡ some content
    → new_size op size 0 ≡ to n
    → do_truncate h garbage name op size false false (set_errno true d)
      ≡ (returns exit_success, put_file name (zeros n) (put_file name [] (set_errno true d)))
unfolding do_truncate stat_file
present h garbage name content op size n d o f r =
    rw (o.stat_allowed, do_truncate, f)
      (from_nothing h name content op size n (h.block_size name) d o r)

-- After a file that was missing has been created, a file that is there loses all its contents: it
-- holds NULs alone, as many as the operand makes of the size 0.
do_truncate-stale :
    (h : Host) (garbage : ℕ) (new old content : Bytes) (op size n : ℕ) (d : Disk)
    → IsOpen h new
    → IsOpen h old
    → str_eq old new ≡ false
    → d.file new ≡ none
    → d.file old ≡ some content
    → new_size op size 0 ≡ to n
    → (do_truncate h garbage old op size false false
          (do_truncate h garbage new op size false false d).1).1.file
        old
      ≡ some (zeros n)
do_truncate-stale h garbage new old content op size n d o p s f g r =
    let d' : Disk = put_file new (zeros n) (put_file new [] (set_errno true d)) in
    let there : d'.file old ≡ some content = rw s g in
    let first = missing h garbage new op size n d o f r in
    let second = present h garbage old content op size n d' p there r in
    ap (λ q. (do_truncate h garbage old op size false false q.1).1.file old) first
    ∙ ap (λ q. q.1.file old) second
    ∙ rw (str_eq_refl old) refl
