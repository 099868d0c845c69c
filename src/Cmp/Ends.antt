-- ===== src/Cmp/Ends.antt =====
-- programs/cmp.c: the rounds of the loop of `cmp`.
use punchcardos.Cmp.{
  ReadByte, end_of_file, char, read_error, Store, store_set, read_byte, read_event, Report, Verdict,
  trouble, out_of_rounds, at_end, second_byte, cmp_loop,
}
use punchcardos.Prelude.{
  ℕ, zero, suc, sym, ◌+◌, ◌<◌, ◌≤◌, ◌≡◌, ◌≢◌, refl, ap, ◌∙◌, List, [], ◌∷◌, ◌==◌, length, arith,
  Bool-cases, inl, inr, ==_iff, ==_refl,
}
use punchcardos.Sys.{ByteEvent, byte, failed}

-- Setting a descriptor to a shorter rest makes no descriptor longer.
store_set-shorter :
    (fd k : ℕ) (es : List ByteEvent) (s : Store)
    → length es < length (s fd)
    → length (store_set fd es s k) ≤ length (s k)
store_set-shorter fd k es s h = elim (Bool-cases (k == fd)) [
  | inl q ↦ let e : k ≡ fd = (==_iff k fd).0 q in rw q (omega (arith, h, ap (λ j. length (s j)) e))
  | inr q ↦ rw q (omega arith)
]

read_event-shorter :
    (fd k : ℕ) (es : List ByteEvent) (s : Store)
    → s fd ≡ es
    → length ((read_event fd es s).1 k) ≤ length (s k)
read_event-shorter fd k [] s e = omega arith
read_event-shorter fd k (byte b ∷ es) s e = store_set-shorter fd k es s (omega (arith, ap length e))
read_event-shorter fd k (failed ∷ es) s e = store_set-shorter fd k es s (omega (arith, ap length e))

at_end-ends : (b : ReadByte) (r : Report) → at_end b r ≢ out_of_rounds
unfolding at_end
at_end-ends (char b) r e = ground arith
at_end-ends end_of_file r e = ground arith
at_end-ends read_error r e = ground arith

second_byte-ends :
    (b : ReadByte) (r : Report) (again : Report → Verdict)
    → ((r' : Report) → again r' ≢ out_of_rounds)
    → second_byte b r again ≢ out_of_rounds
unfolding second_byte
second_byte-ends read_error r again h e = ground arith
second_byte-ends end_of_file r again h e = ground arith
second_byte-ends (char b) r again h e = elim (Bool-cases (r.c1 == b)) [
  | inl q ↦ h _ (rw q at e)
  | inr q ↦ ground arith
]

round-ends :
    (fuel fd1 fd2 : ℕ) (es : List ByteEvent) (s : Store) (r : Report)
    → s fd1 ≡ es
    → length (s fd1) < suc fuel
    → ((s' : Store) (r' : Report)
        → length (s' fd1) < fuel
        → cmp_loop fuel fd1 fd2 s' r' ≢ out_of_rounds)
    → cmp_loop (suc fuel) fd1 fd2 s r ≢ out_of_rounds
unfolding cmp_loop
round-ends fuel fd1 fd2 [] s r e h again x =
    let e1 : read_byte fd1 s ≡ read_event fd1 [] s = ap (λ l. read_event fd1 l s) e in
    let step : cmp_loop (suc fuel) fd1 fd2 s r ≡ at_end (read_byte fd2 s).0 r =
      rw (e1, cmp_loop) (rw e1 refl) in
    at_end-ends (read_byte fd2 s).0 r (sym step ∙ x)
round-ends fuel fd1 fd2 (failed ∷ es) s r e h again x =
    let e1 : read_byte fd1 s ≡ read_event fd1 (failed ∷ es) s = ap (λ l. read_event fd1 l s) e in
    let step : cmp_loop (suc fuel) fd1 fd2 s r ≡ trouble = rw (e1, cmp_loop) refl in
    let no : trouble ≡ out_of_rounds = sym step ∙ x in ground arith
round-ends fuel fd1 fd2 (byte a ∷ es) s r e h again x =
    let e1 : read_byte fd1 s ≡ read_event fd1 (byte a ∷ es) s = ap (λ l. read_event fd1 l s) e in
    let s' : Store = store_set fd1 es s in
    let r' : Report = record { c1 = a; c2 = r.c2; line = r.line; byte = r.byte + 1 } in
    let step : cmp_loop (suc fuel) fd1 fd2 s r
        ≡ second_byte (read_byte fd2 s').0 r' (cmp_loop fuel fd1 fd2 (read_byte fd2 s').1) =
      rw (e1, cmp_loop) (rw e1 refl) in
    let set : s' fd1 ≡ es = rw (==_refl fd1) refl in
    let fewer : length ((read_byte fd2 s').1 fd1) < fuel =
      omega (arith, read_event-shorter fd2 fd1 (s' fd2) s' refl, ap length set, ap length e, h) in
    second_byte-ends (read_byte fd2 s').0 r' (cmp_loop fuel fd1 fd2 (read_byte fd2 s').1)
      (λ r''. again (read_byte fd2 s').1 r'' fewer) (sym step ∙ x)

-- Whatever two descriptors give, also one that is both and reads that fail, the loop ends: one round
-- more than there are reads of the first is enough.
pub cmp_loop-ends :
    (fuel fd1 fd2 : ℕ) (s : Store) (r : Report)
    → length (s fd1) < fuel
    → cmp_loop fuel fd1 fd2 s r ≢ out_of_rounds
cmp_loop-ends zero fd1 fd2 s r h = absurd (omega arith)
cmp_loop-ends (suc fuel) fd1 fd2 s r h =
    round-ends fuel fd1 fd2 (s fd1) s r refl h (cmp_loop-ends fuel fd1 fd2)
