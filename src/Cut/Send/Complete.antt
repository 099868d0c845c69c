-- ===== src/Cut/Send/Complete.antt =====
-- The output of `safe_write` of programs/cut.c when it returns.
use punchcardos.Cut.Send.{Sent, sent, failed, safe_write_loop, safe_write}
use punchcardos.Prelude.{
  ℕ, zero, suc, ◌+◌, ◌≤◌, ◌<◌, ◌≡◌, refl, sym, ◌∙◌, ap, ◌⊎◌, inl, inr, Bytes, List, [], ◌∷◌, ◌++◌,
  append-nil, append_assoc, length, take, drop, drop_all, drop-length-take, length-take,
  length-drop, take_all, take-append-drop, take-length-take, arith,
}
use punchcardos.Sys.{WriteEvent, accept, interrupt, refuse, Output, write}

-- An output that may be slow or interrupted, but always takes something in the end.
abbrev pub Patient : List WriteEvent → Type 0
Patient [] = Unit {0}
Patient (accept zero ∷ es) = ⊥
Patient (accept (suc k) ∷ es) = Patient es
Patient (interrupt ∷ es) = Patient es
Patient (refuse ∷ es) = ⊥

abbrev pub out : Bytes → List WriteEvent → Output
out w es = record { written = w; events = es }

-- The loop has written all of `rest`, and has used up `used` of the events.
pub record IsComplete (total : ℕ) (rest : Bytes) (o : Output) (r : Sent × Output) : Type 0 where
  pub used : ℕ
  pub all_sent : r.0 ≡ sent (total + length rest)
  pub written : r.1.written ≡ o.written ++ rest
  pub events : r.1.events ≡ drop used o.events

loop-IsComplete :
    (es : List WriteEvent) (f total : ℕ) (rest w : Bytes)
    → Patient es
    → suc (length es) < f
    → IsComplete total rest (out w es) (safe_write_loop f total rest (out w es))
unfolding safe_write_loop write
loop-IsComplete es zero total rest w p h = absurd (omega arith)
loop-IsComplete es (suc f) total [] w p h = record {
  used = 0;
  all_sent = ap sent (omega arith);
  written = sym (append-nil w);
  events = refl;
}
loop-IsComplete [] (suc zero) total (c ∷ rest) w p h = absurd (omega arith)
loop-IsComplete [] (suc (suc f)) total (c ∷ rest) w p h =
    rw (drop_all rest, safe_write_loop)
      (record { used = 0; all_sent = refl; written = refl; events = refl })
loop-IsComplete (accept zero ∷ es) (suc f) total (c ∷ rest) w p h = absurd p
loop-IsComplete (accept (suc k) ∷ es) (suc f) total (c ∷ rest) w p h =
    let ih =
      loop-IsComplete es f (total + suc (length (take k rest))) (drop k rest) (w ++ c ∷ take k rest)
        p (omega arith) in
    rw drop-length-take (record {
      used = suc ih.used;
      all_sent = ih.all_sent ∙ ap sent (omega (arith, length-take k rest, length-drop k rest));
      written =
          ih.written
          ∙ append_assoc w (c ∷ take k rest) (drop k rest)
          ∙ ap (λ (t : Bytes). w ++ c ∷ t) (take-append-drop k rest);
      events = ih.events;
    })
loop-IsComplete (interrupt ∷ es) (suc f) total (c ∷ rest) w p h =
    let ih = loop-IsComplete es f total (c ∷ rest) w p (omega arith) in
    record { used = suc ih.used; all_sent = ih.all_sent; written = ih.written; events = ih.events }
loop-IsComplete (refuse ∷ es) (suc f) total (c ∷ rest) w p h = absurd p

-- An output that takes something at every call that is not interrupted is given the whole buffer,
-- however short the writes are, and the count is that of the buffer.
pub safe_write-IsComplete :
    (buf : Bytes) (o : Output) → Patient o.events → IsComplete 0 buf o (safe_write buf o)
unfolding safe_write
safe_write-IsComplete buf o p =
    loop-IsComplete o.events (suc (suc (length o.events))) 0 buf o.written p (omega arith)

-- What the loop has written is the beginning of `rest`; a count that it returns is the true one,
-- and the rounds do not run out.
pub record IsPrefixSent (total : ℕ) (rest : Bytes) (o : Output) (r : Sent × Output) : Type 0 where
  pub taken : ℕ
  pub in_buffer : taken ≤ length rest
  pub written : r.1.written ≡ o.written ++ take taken rest
  pub answer : (r.0 ≡ sent (total + taken)) ⊎ (r.0 ≡ failed)

shift_answer :
    {r : Sent} (total n k : ℕ)
    → (r ≡ sent (total + suc n + k)) ⊎ (r ≡ failed)
    → (r ≡ sent (total + suc (n + k))) ⊎ (r ≡ failed)
shift_answer total n k (inl e) = inl (e ∙ ap sent (omega arith))
shift_answer total n k (inr e) = inr e

loop-IsPrefixSent :
    (es : List WriteEvent) (f total : ℕ) (rest w : Bytes)
    → suc (length es) < f
    → IsPrefixSent total rest (out w es) (safe_write_loop f total rest (out w es))
unfolding safe_write_loop write
loop-IsPrefixSent es zero total rest w h = absurd (omega arith)
loop-IsPrefixSent es (suc f) total [] w h = record {
  taken = 0;
  in_buffer = omega arith;
  written = sym (append-nil w);
  answer = inl (ap sent (omega arith));
}
loop-IsPrefixSent [] (suc zero) total (c ∷ rest) w h = absurd (omega arith)
loop-IsPrefixSent [] (suc (suc f)) total (c ∷ rest) w h =
    rw (drop_all rest, safe_write_loop)
      (record {
        taken = suc (length rest);
        in_buffer = omega arith;
        written = ap (λ (t : Bytes). w ++ c ∷ t) (sym (take_all (length rest) rest (omega arith)));
        answer = inl refl;
      })
loop-IsPrefixSent (accept zero ∷ es) (suc f) total (c ∷ rest) w h = record {
  taken = 0;
  in_buffer = omega arith;
  written = refl;
  answer = inl (ap sent (omega arith));
}
loop-IsPrefixSent (accept (suc k) ∷ es) (suc f) total (c ∷ rest) w h =
    let ih =
      loop-IsPrefixSent es f (total + suc (length (take k rest))) (drop k rest)
        (w ++ c ∷ take k rest) (omega arith) in
    rw drop-length-take (record {
      taken = suc (length (take k rest) + ih.taken);
      in_buffer = omega (arith, ih.in_buffer, length-take k rest, length-drop k rest);
      written =
          ih.written
          ∙ append_assoc w (c ∷ take k rest) (take ih.taken (drop k rest))
          ∙ ap (λ (t : Bytes). w ++ c ∷ t) (take-length-take k ih.taken rest);
      answer = shift_answer total (length (take k rest)) ih.taken ih.answer;
    })
loop-IsPrefixSent (interrupt ∷ es) (suc f) total (c ∷ rest) w h =
    let ih = loop-IsPrefixSent es f total (c ∷ rest) w (omega arith) in
    record { taken = ih.taken; in_buffer = ih.in_buffer; written = ih.written; answer = ih.answer }
loop-IsPrefixSent (refuse ∷ es) (suc f) total (c ∷ rest) w h = record {
  taken = 0;
  in_buffer = omega arith;
  written = sym (append-nil w);
  answer = inr refl;
}

-- Whatever the output does, `safe_write` ends, has written a beginning of the buffer, and returns
-- the length of that beginning or -1.
pub safe_write-IsPrefixSent : (buf : Bytes) (o : Output) → IsPrefixSent 0 buf o (safe_write buf o)
unfolding safe_write
safe_write-IsPrefixSent buf o =
    loop-IsPrefixSent o.events (suc (suc (length o.events))) 0 buf o.written (omega arith)
