-- ===== src/Grep/Search/Result.antt =====
-- programs/grep.c: what `grep` returns and writes for a file that one read gives.
use punchcardos.Grep.Plain.{is_plain, folded, match-plain, both_left, both_right}
use punchcardos.Grep.Search.{
  Flags, go_on, scanned, judge, line_found, after_shown, lines_loop, terminated, rounds, status,
  after_scan, grep_loop, grep,
}
use punchcardos.Grep.{contains}
use punchcardos.Prelude.{
  ℕ, zero, suc, ◌<◌, ◌≤◌, ◌≡◌, ◌≢◌, refl, ◌∙◌, ap, Bool, true, false, ◌||◌, some, Bytes, List, [],
  ◌∷◌, ◌++◌, append-nil, append_assoc, length, length-append, arith, Bool-cases, inl, inr,
}
use punchcardos.Sys.{returns, Output, open_output, got}
use punchcardos.Grep.Search.Lines.{
  is_line, are_lines, lines_text, is_wanted, wanted, listed, is_any, find_line-newline,
  find_line-end, is_line-has_no_nul, shown, judge-wanted, or_true, or_false,
}

line_found-wanted :
    (fs : Flags) (re r rest w : Bytes) (any : Bool)
    → is_plain re ≡ true
    → is_line r ≡ true
    → line_found (some re) fs r rest any (open_output w)
      ≡ go_on (any || is_wanted fs re r) (open_output (w ++ shown fs (is_wanted fs re r) r))
unfolding line_found is_wanted
line_found-wanted fs re r rest w any p l =
    ap (judge fs r any (open_output w))
      (match-plain fs.fixed fs.caseign re r rest p (is_line-has_no_nul r l))
    ∙ judge-wanted fs r w any (contains (folded fs.caseign re) (folded fs.caseign r))

listed-cons :
    (fs : Flags) (re r : Bytes) (rs : List Bytes)
    → listed fs (wanted fs re (r ∷ rs))
      ≡ shown fs (is_wanted fs re r) r ++ listed fs (wanted fs re rs)
unfolding listed wanted lines_text
listed-cons fs re r rs = elim (Bool-cases (is_wanted fs re r)) [
  | inl e ↦
      rw e (elim (Bool-cases fs.quiet) [ inl q ↦ rw q refl | inr q ↦ rw (q, append_assoc) refl ])
  | inr e ↦ rw e refl
]

is_any-cons :
    (fs : Flags) (re r : Bytes) (rs : List Bytes) (any : Bool)
    → (any || is_any (wanted fs re (r ∷ rs)))
      ≡ ((any || is_wanted fs re r) || is_any (wanted fs re rs))
unfolding wanted
is_any-cons fs re r rs any = elim (Bool-cases (is_wanted fs re r)) [
  | inl e ↦ rw (e, or_true any) refl
  | inr e ↦ rw (e, or_false any) refl
]

listed-nil : (fs : Flags) → listed fs [] ≡ []
unfolding listed lines_text
listed-nil fs = elim (Bool-cases fs.quiet) [ inl q ↦ rw q refl | inr q ↦ rw q refl ]

-- The loop over the lines of the buffer.
lines_loop-wanted :
    (fs : Flags) (re : Bytes) (rs : List Bytes) (last : Bytes) (fuel : ℕ) (moved any : Bool)
    (w : Bytes)
    → is_plain re ≡ true
    → are_lines rs ≡ true
    → is_line last ≡ true
    → length rs < fuel
    → (moved' : Bool) × (lines_loop fuel
          (some re)
          fs
          (lines_text rs (last ++ 0 ∷ []))
          moved
          any
          (open_output w)
        ≡ scanned moved'
            (last ++ 0 ∷ [])
            (any || is_any (wanted fs re rs))
            (open_output (w ++ listed fs (wanted fs re rs))))
unfolding lines_loop lines_text are_lines after_shown wanted
lines_loop-wanted fs re rs last zero moved any w p a l f = absurd (omega arith)
lines_loop-wanted fs re [] last (suc fuel) moved any w p a l f = (
  moved,
  rw (find_line-end last l, lines_loop) (rw (or_false any, listed-nil fs, append-nil) refl),
)
lines_loop-wanted fs re (r ∷ rs) last (suc fuel) moved any w p a l f =
    let (m, more) =
      lines_loop-wanted fs re rs last fuel true (any || is_wanted fs re r)
        (w ++ shown fs (is_wanted fs re r) r) p (both_right (is_line r) (are_lines rs) a) l
        (omega arith) in
    let l' : is_line r ≡ true = both_left (is_line r) (are_lines rs) a in
    (
      m,
      rw (find_line-newline r (lines_text rs (last ++ 0 ∷ [])) l', lines_loop)
          (rw
            (
              line_found-wanted fs re r (lines_text rs (last ++ 0 ∷ [])) w any p l',
              is_any-cons fs re r rs any,
              listed-cons fs re r rs,
              ← append_assoc w (shown fs (is_wanted fs re r) r) (listed fs (wanted fs re rs)),
            )
            more),
    )

terminated-lines_text :
    (rs : List Bytes) (last : Bytes)
    → terminated (lines_text rs last) ≡ lines_text rs (last ++ 0 ∷ [])
unfolding terminated lines_text
terminated-lines_text [] last = refl
terminated-lines_text (r ∷ rs) last =
    append_assoc r (b'\n' ∷ lines_text rs last) (0 ∷ [])
    ∙ ap (λ t. r ++ b'\n' ∷ t) (terminated-lines_text rs last)

rounds-length : (bs : Bytes) → rounds bs ≡ suc (length bs)
unfolding rounds
rounds-length [] = refl
rounds-length (b ∷ bs) = ap suc (rounds-length bs)

length-lines_text : (rs : List Bytes) (end : Bytes) → length rs ≤ length (lines_text rs end)
unfolding lines_text
length-lines_text [] end = omega arith
length-lines_text (r ∷ rs) end =
    omega (arith, length-lines_text rs end, length-append r (b'\n' ∷ lines_text rs end))

terminated-rounds :
    (rs : List Bytes) (last : Bytes) → length rs < rounds (terminated (lines_text rs last))
unfolding terminated
terminated-rounds rs last = omega (
  arith,
  rounds-length (lines_text rs last ++ 0 ∷ []),
  length-append (lines_text rs last) (0 ∷ []),
  length-lines_text rs last,
)

-- The answer of `grep` on one read, from how the loop over its lines ends.
one_read :
    (pattern : Bytes) (fs : Flags) (content p : Bytes) (moved any : Bool) (o o' : Output)
    → content ≢ []
    → lines_loop (rounds (terminated content)) (some pattern) fs (terminated content) false false o
      ≡ scanned moved p any o'
    → grep (some pattern) fs (got content ∷ []) o
      ≡ record { result = returns (status any); stdin = []; out = o' }
unfolding grep grep_loop after_scan
one_read pattern fs [] p moved any o o' n h = absurd (n refl)
one_read pattern fs (b ∷ bs) p moved any o o' n h = rw h refl

lines_text-some : (r : Bytes) (rs : List Bytes) (last : Bytes) → lines_text (r ∷ rs) last ≢ []
unfolding lines_text
lines_text-some [] rs last e = ground arith
lines_text-some (c ∷ r) rs last e = ground arith

-- On a file that one read gives, of lines and perhaps an unfinished one behind them, `grep` for a
-- pattern without special characters writes the lines in which the pattern stands, in order (with `-v`
-- those in which it does not, with `-q` nothing), and returns 0 if there is one and 1 if not. The
-- unfinished line plays no part.
pub grep-wanted :
    (fs : Flags) (re r : Bytes) (rs : List Bytes) (last w : Bytes)
    → is_plain re ≡ true
    → are_lines (r ∷ rs) ≡ true
    → is_line last ≡ true
    → grep (some re) fs (got (lines_text (r ∷ rs) last) ∷ []) (open_output w) ≡ record {
      result = returns (status (is_any (wanted fs re (r ∷ rs))));
      stdin = [];
      out = open_output (w ++ listed fs (wanted fs re (r ∷ rs)));
    }
grep-wanted fs re r rs last w p a l =
    let text : Bytes = lines_text (r ∷ rs) last in
    let fuel : ℕ = rounds (terminated text) in
    let (m, e) =
      lines_loop-wanted fs re (r ∷ rs) last fuel false false w p a l
        (terminated-rounds (r ∷ rs) last) in
    one_read re fs text (last ++ 0 ∷ []) m (is_any (wanted fs re (r ∷ rs))) (open_output w)
      (open_output (w ++ listed fs (wanted fs re (r ∷ rs)))) (lines_text-some r rs last)
      (ap (λ t. lines_loop fuel (some re) fs t false false (open_output w))
          (terminated-lines_text (r ∷ rs) last)
        ∙ e)
