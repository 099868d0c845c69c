-- ===== src/Cmp/Compare.antt =====
-- programs/cmp.c: what the loop of `cmp` finds out about two files.
use punchcardos.Cmp.{
  Store, store_set, read_byte, read_event, Report, Verdict, same, differ, at_end, second_byte,
  cmp_loop, stdin_only, Files, verdict, two_files, compare_sizes,
}
use punchcardos.Prelude.{
  ℕ, zero, suc, ◌+◌, ◌<◌, ◌≡◌, ◌≢◌, refl, ◌∙◌, sym, ap, false, some, Bytes, List, [], ◌∷◌, ◌++◌,
  ◌==◌, if◌then◌else◌, length, arith, Bool-cases, inl, inr, ==_ne, ==_refl, str_eq, codes,
}
use punchcardos.Sys.{ByteEvent, byte}

-- The reads of a file that can be read to its end.
unfoldable pub bytes_of : Bytes → List ByteEvent
bytes_of [] = []
bytes_of (b ∷ bs) = byte b ∷ bytes_of bs

pub length-bytes_of : (bs : Bytes) → length (bytes_of bs) ≡ length bs
unfolding bytes_of
length-bytes_of [] = refl
length-bytes_of (b ∷ bs) = ap suc (length-bytes_of bs)

-- What one byte that both files have makes of the report.
abbrev step : ℕ → ℕ → Report → Report
step a b r =
    if a == b'\n'
    then record { c1 = a; c2 = b; line = r.line + 1; byte = r.byte + 1 }
    else record { c1 = a; c2 = b; line = r.line; byte = r.byte + 1 }

-- The two texts side by side.
unfoldable pub compared : Bytes → Bytes → Report → Verdict
compared [] [] r = same
compared [] (b ∷ ys) r = differ (record r { c2 = b })
compared (a ∷ xs) [] r = differ (record r { c1 = a; byte = r.byte + 1 })
compared (a ∷ xs) (b ∷ ys) r =
    let more = compared xs ys (step a b r) in
    if a == b then more else differ (record r { c1 = a; c2 = b; byte = r.byte + 1 })

read_byte-first :
    (fd : ℕ) (es : List ByteEvent) (s : Store) → s fd ≡ es → read_byte fd s ≡ read_event fd es s
read_byte-first fd es s h = ap (λ l. read_event fd l s) h

store_set-same : (fd : ℕ) (es : List ByteEvent) (s : Store) → store_set fd es s fd ≡ es
store_set-same fd es s = rw (==_refl fd) refl

store_set-other : (fd k : ℕ) (es : List ByteEvent) (s : Store) → k ≢ fd → store_set fd es s k ≡ s k
store_set-other fd k es s n = rw (==_ne k fd n) refl

-- From two descriptors that differ, the loop compares the two texts.
pub cmp_loop-compared :
    (xs ys : Bytes) (fuel fd1 fd2 : ℕ) (s : Store) (r : Report)
    → length xs < fuel
    → fd1 ≢ fd2
    → s fd1 ≡ bytes_of xs
    → s fd2 ≡ bytes_of ys
    → cmp_loop fuel fd1 fd2 s r ≡ compared xs ys r
unfolding cmp_loop bytes_of compared at_end second_byte
cmp_loop-compared xs ys zero fd1 fd2 s r f n h k = absurd (omega arith)
cmp_loop-compared [] [] (suc fuel) fd1 fd2 s r f n h k =
    let e1 = read_byte-first fd1 [] s h in
    rw (e1, cmp_loop) (rw (e1, read_byte-first fd2 [] s k) refl)
cmp_loop-compared [] (b ∷ ys) (suc fuel) fd1 fd2 s r f n h k =
    let e1 = read_byte-first fd1 [] s h in
    rw (e1, cmp_loop) (rw (e1, read_byte-first fd2 (bytes_of (b ∷ ys)) s k) refl)
cmp_loop-compared (a ∷ xs) [] (suc fuel) fd1 fd2 s r f n h k =
    let s' : Store = store_set fd1 (bytes_of xs) s in
    let k' : s' fd2 ≡ [] = store_set-other fd1 fd2 (bytes_of xs) s (λ e. n (sym e)) ∙ k in
    let e1 = read_byte-first fd1 (bytes_of (a ∷ xs)) s h in
    rw (e1, cmp_loop) (rw (e1, read_byte-first fd2 [] s' k') refl)
cmp_loop-compared (a ∷ xs) (b ∷ ys) (suc fuel) fd1 fd2 s r f n h k =
    let s' : Store = store_set fd1 (bytes_of xs) s in
    let k' : s' fd2 ≡ byte b ∷ bytes_of ys =
      store_set-other fd1 fd2 (bytes_of xs) s (λ e. n (sym e)) ∙ k in
    let e1 = read_byte-first fd1 (bytes_of (a ∷ xs)) s h in
    rw (e1, cmp_loop)
      (rw (e1, read_byte-first fd2 (bytes_of (b ∷ ys)) s' k')
        (elim (Bool-cases (a == b)) [
          | inl e ↦
              let s'' : Store = store_set fd2 (bytes_of ys) s' in
              let h' : s'' fd1 ≡ bytes_of xs =
                store_set-other fd2 fd1 (bytes_of ys) s' n ∙ store_set-same fd1 (bytes_of xs) s in
              rw e (
                cmp_loop-compared xs ys fuel fd1 fd2 s'' (step a b r) (omega arith) n h'
                  (store_set-same fd2 (bytes_of ys) s'))
          | inr e ↦ rw e refl
        ]))

pub compared_refl : (xs : Bytes) (r : Report) → compared xs xs r ≡ same
unfolding compared
compared_refl [] r = refl
compared_refl (x ∷ xs) r = rw (==_refl x, compared_refl xs (step x x r)) refl

pub compared-same : (xs ys : Bytes) (r : Report) → compared xs ys r ≡ same → xs ≡ ys
unfolding compared
compared-same [] [] r h = refl
compared-same [] (b ∷ ys) r h = ground arith
compared-same (a ∷ xs) [] r h = ground arith
compared-same (a ∷ xs) (b ∷ ys) r h = ground (arith, compared-same xs ys (step a b r))

-- The newlines of a text.
unfoldable pub newlines : Bytes → ℕ
newlines [] = 0
newlines (b ∷ bs) = if b == b'\n' then suc (newlines bs) else newlines bs

-- The report of the first difference, behind a common beginning.
abbrev pub difference : Bytes → ℕ → ℕ → Report → Report
difference p a b r = record {
  c1 = a;
  c2 = b;
  line = r.line + newlines p;
  byte = r.byte + length p + 1;
}

differ_eq :
    {a b l l' m m' : ℕ}
    → l ≡ l'
    → m ≡ m'
    → differ (record { c1 = a; c2 = b; line = l; byte = m })
      ≡ differ (record { c1 = a; c2 = b; line = l'; byte = m' })
differ_eq {a = a} {b = b} e f = λ i. differ (record { c1 = a; c2 = b; line = e i; byte = f i })

pub compared-difference :
    (p xs ys : Bytes) (a b : ℕ) (r : Report)
    → a ≢ b
    → compared (p ++ a ∷ xs) (p ++ b ∷ ys) r ≡ differ (difference p a b r)
unfolding compared newlines
compared-difference [] xs ys a b r n = rw (==_ne a b n) (differ_eq (omega arith) (omega arith))
compared-difference (c ∷ p) xs ys a b r n =
    rw (==_refl c, compared-difference p xs ys a b (step c c r) n)
      (elim (Bool-cases (c == b'\n')) [
        | inl e ↦ rw e (differ_eq (omega arith) (omega arith))
        | inr e ↦ rw e (differ_eq (omega arith) (omega arith))
      ])

-- Two named files that can be read, with the sizes that `stat` gives.
pub record Opened (fs : Files) (file1 file2 xs ys : Bytes) : Type 0 where
  pub named : str_eq file2 (codes "-") ≡ false
  pub first_file : fs.open_file file1 ≡ some (bytes_of xs)
  pub second_file : fs.open_file file2 ≡ some (bytes_of ys)
  pub first_size : fs.size_of file1 ≡ some (length xs)
  pub second_size : fs.size_of file2 ≡ some (length ys)

pub verdict-sizes :
    (fs : Files) (file1 file2 xs ys : Bytes) (r : Report)
    → Opened fs file1 file2 xs ys
    → verdict fs file1 file2 r ≡ (if length xs == length ys then compared xs ys r else differ r)
unfolding verdict two_files compare_sizes
verdict-sizes fs file1 file2 xs ys r o =
    rw (o.named, o.first_file, o.second_file, o.first_size, o.second_size)
      (elim (Bool-cases (length xs == length ys)) [
        | inl e ↦ rw e (
            cmp_loop-compared xs ys (suc (length (bytes_of xs))) 3 4
              (store_set 4 (bytes_of ys) (store_set 3 (bytes_of xs) (stdin_only fs))) r
              (omega (arith, length-bytes_of xs)) (ground arith) refl refl)
        | inr e ↦ rw e refl
      ])
