-- ===== src/Timeconst/Emit/Whole.antt =====
-- The whole of timeconst.h, and programs/bc4linux.c from its input on.
use punchcardos.Prelude.{
  ℕ, zero, suc, ◌-◌, ◌≤◌, ◌<◌, ◌≡◌, refl, ◌∙◌, true, false, Option, some, Bytes, [], ◌∷◌, ◌++◌,
  append_assoc, length, length-append, take, until_nul, deref, is_digit, codes, arith, lt→ltb_false,
}
use punchcardos.Sys.{got, open_output, returns, exit_success}
use punchcardos.Timeconst.Adjust.{gcd_pos}
use punchcardos.Timeconst.Bounds.{IsNormal, fmuls-IsNormal}
use punchcardos.Timeconst.Decimal.Print.{AllDigits, itoa-IsDecimal}
use punchcardos.Timeconst.Decimal.Scan.{atoi-itoa}
use punchcardos.Timeconst.Decimal.{int_max, itoa, atoi}
use punchcardos.Timeconst.Emit.Text.{
  Writes, Writes-put, compute-some, factor_text, Writes-factor, ratio_text, Writes-ratio,
}
use punchcardos.Timeconst.Emit.{
  Run, compute, ◌>>=◌, ◌>>◌, finish, header, footer, timeconst, start, main,
}
use punchcardos.Timeconst.Gcd.{gcd}
use punchcardos.Timeconst.Fixed.{fmuls}

-- The step writes `text` and the program ends with the status `n`.
record Finishes (m : Run ℕ) (n : ℕ) (text : Bytes) : Type 0 where
  on_open : (w : Bytes) → m (open_output w) ≡ (returns n, open_output (w ++ text))

module _ {m : Run (Unit {0})} {t : Bytes} {n : ℕ} where
  Finishes-last : Writes m t → Finishes (m >> finish n) n t
  unfolding ◌>>◌
  Finishes-last h = record { on_open = λ w. rw (h.on_open w) }

  Finishes-seq :
      {k : Run ℕ} {u : Bytes} → Writes m t → Finishes k n u → Finishes (m >> k) n (t ++ u)
  unfolding ◌>>◌
  Finishes-seq h hk = record {
    on_open = λ w. rw (h.on_open w) (rw (hk.on_open (w ++ t)) (rw append_assoc));
  }

-- The shifts of the four conversions.
pub record Shifts (hz s t u v : ℕ) : Type 0 where
  pub msec : IsNormal 1_000 hz s
  pub msec_back : IsNormal hz 1_000 t
  pub usec : IsNormal 1_000_000 hz u
  pub usec_back : IsNormal hz 1_000_000 v

-- timeconst.h for the frequency `hz` with these shifts.
abbrev pub file_text : ℕ → ℕ → ℕ → ℕ → ℕ → Bytes
file_text hz s t u v =
    header
    ++ (factor_text (codes "HZ_TO_MSEC") s 1_000 hz
        ++ (factor_text (codes "MSEC_TO_HZ") t hz 1_000
            ++ (ratio_text (codes "HZ_TO_MSEC") (codes "MSEC_TO_HZ") 1_000 hz (gcd hz 1_000)
                  (codes "\n\n")
                ++ (factor_text (codes "HZ_TO_USEC") u 1_000_000 hz
                    ++ (factor_text (codes "USEC_TO_HZ") v hz 1_000_000
                        ++ (ratio_text (codes "HZ_TO_USEC") (codes "USEC_TO_HZ") 1_000_000 hz
                              (gcd hz 1_000_000) (codes "\n")
                            ++ (ratio_text (codes "HZ_TO_NSEC") (codes "NSEC_TO_HZ") 1_000_000_000
                                  hz (gcd hz 1_000_000_000) (codes "\n")
                                ++ footer)))))))

Finishes-compute :
    (f : ℕ → Run ℕ) {o : Option ℕ} {v n : ℕ} {t : Bytes}
    → o ≡ some v
    → Finishes (f v) n t
    → Finishes (compute o >>= f) n t
Finishes-compute f e h = rw (e, compute-some) h

module _ (hz : ℕ) (pos : 0 < hz) (bound : hz ≤ int_max) where
  timeconst-Finishes :
      (s t u v : ℕ)
      → Shifts hz s t u v
      → fmuls 32 1_000 hz ≡ some s
      → fmuls 32 hz 1_000 ≡ some t
      → fmuls 32 1_000_000 hz ≡ some u
      → fmuls 32 hz 1_000_000 ≡ some v
      → Finishes (timeconst hz) exit_success (file_text hz s t u v)
  unfolding timeconst
  timeconst-Finishes s t u v i es et eu ev =
      let cd = gcd_pos hz 1_000 (omega arith) in
      let cd' = gcd_pos hz 1_000_000 (omega arith) in
      let cd'' = gcd_pos hz 1_000_000_000 (omega arith) in
      Finishes-compute _ es (
        Finishes-seq (Writes-put header (omega arith)) (
          Finishes-seq (Writes-factor _ s 1_000 hz pos (omega arith) i.msec) (
            Finishes-compute _ et (
              Finishes-seq (Writes-factor _ t hz 1_000 (omega arith) (omega arith) i.msec_back) (
                Finishes-seq
                  (Writes-ratio _ _ _ 1_000 hz _ cd (omega arith) (omega arith) (omega arith))
                  (Finishes-compute _ eu (
                    Finishes-seq (Writes-factor _ u 1_000_000 hz pos (omega arith) i.usec) (
                      Finishes-compute _ ev (
                        Finishes-seq
                          (Writes-factor _ v hz 1_000_000 (omega arith) (omega arith) i.usec_back)
                          (Finishes-seq
                            (Writes-ratio _ _ _ 1_000_000 hz _ cd' (omega arith) (omega arith)
                              (omega arith))
                            (Finishes-seq
                              (Writes-ratio _ _ _ 1_000_000_000 hz _ cd'' (omega arith)
                                (omega arith) (omega arith))
                              (Finishes-last (Writes-put footer (omega arith))))))))))))))

-- The run succeeds and has written the whole file behind `w`, with four normal shifts.
pub record WritesFile (hz : ℕ) (run : Run ℕ) (w : Bytes) : Type 0 where
  pub msec_shift : ℕ
  pub msec_back_shift : ℕ
  pub usec_shift : ℕ
  pub usec_back_shift : ℕ
  pub shifts : Shifts hz msec_shift msec_back_shift usec_shift usec_back_shift
  pub result : run (open_output w) ≡ (
    returns exit_success,
    open_output (w ++ file_text hz msec_shift msec_back_shift usec_shift usec_back_shift),
  )

-- For every frequency from 1 to 2^31 - 1, and an output that takes everything, `timeconst` writes
-- the whole file with four normal shifts, and succeeds.
pub timeconst-file : (hz : ℕ) → 0 < hz → hz ≤ int_max → (w : Bytes) → WritesFile hz (timeconst hz) w
timeconst-file hz pos bound w =
    let s = fmuls-IsNormal 1_000 hz (omega arith) (omega arith) pos (omega arith) in
    let t = fmuls-IsNormal hz 1_000 pos (omega arith) (omega arith) (omega arith) in
    let u = fmuls-IsNormal 1_000_000 hz (omega arith) (omega arith) pos (omega arith) in
    let v = fmuls-IsNormal hz 1_000_000 pos (omega arith) (omega arith) (omega arith) in
    let i : Shifts hz s.shift t.shift u.shift v.shift = record {
      msec = s.normal;
      msec_back = t.normal;
      usec = u.normal;
      usec_back = v.normal;
    } in
    record {
      msec_shift = s.shift;
      msec_back_shift = t.shift;
      usec_shift = u.shift;
      usec_back_shift = v.shift;
      shifts = i;
      result =
          (timeconst-Finishes hz pos bound s.shift t.shift u.shift v.shift i s.found t.found u.found
              v.found).on_open
            w;
    }

-- A string of digits in front of a buffer is seen whole by the string functions.
until_nul-digits :
    (k : ℕ) (s rest : Bytes)
    → AllDigits s
    → length s ≤ k
    → until_nul (take k (s ++ rest)) ≡ s ++ until_nul (take (k - length s) rest)
unfolding until_nul
until_nul-digits k [] rest a h = let e : k - 0 ≡ k = omega arith in rw e
until_nul-digits zero (c ∷ s) rest a h = absurd (omega arith)
until_nul-digits (suc k) (c ∷ s) rest a h =
    let e : suc k - suc (length s) ≡ k - length s = omega arith in
    rw e (ground (arith, until_nul-digits k s rest))

deref-until_nul :
    (k : ℕ) (rest : Bytes)
    → is_digit (deref rest) ≡ false
    → is_digit (deref (until_nul (take k rest))) ≡ false
unfolding until_nul
deref-until_nul zero rest h = refl
deref-until_nul (suc k) [] h = refl
deref-until_nul (suc k) (c ∷ rest) h = ground arith

main_got : (bs : Bytes) → 0 < length bs → main true (got bs) ≡ start (atoi (until_nul (take 99 bs)))
unfolding main
main_got [] h = elim h [ ]
main_got (c ∷ bs) h = refl

main-start :
    (hz : ℕ) (rest : Bytes)
    → hz ≤ int_max
    → is_digit (deref rest) ≡ false
    → main true (got (itoa hz ++ rest)) ≡ start (some hz)
main-start hz rest h stop =
    let d = itoa-IsDecimal hz (omega arith) in
    let some_bytes : 0 < length (itoa hz ++ rest) = rw length-append (omega (arith, d.nonempty)) in
    main_got (itoa hz ++ rest) some_bytes
    ∙ rw (until_nul-digits 99 (itoa hz) rest d.digits (omega (arith, d.size)))
        (rw (atoi-itoa hz _ h (deref-until_nul (99 - length (itoa hz)) rest stop)))

-- When the caller of `read` finds the count of the system call, and the output takes everything: fed a
-- decimal frequency of 2 to 2^31 - 1, with anything but a digit behind it, the program writes the
-- whole file with four normal shifts and succeeds.
pub main-file :
    (hz : ℕ) (rest : Bytes)
    → 2 ≤ hz
    → hz ≤ int_max
    → is_digit (deref rest) ≡ false
    → (w : Bytes) → WritesFile hz (main true (got (itoa hz ++ rest))) w
unfolding start
main-file hz rest two bound stop w =
    rw (main-start hz rest bound stop, lt→ltb_false hz 2 two)
      (timeconst-file hz (omega arith) bound w)
