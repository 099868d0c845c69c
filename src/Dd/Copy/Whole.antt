-- ===== src/Dd/Copy/Whole.antt =====
-- programs/dd.c: the copying loop against what the reads give.
use punchcardos.Dd.Copy.{
  Records, count_in, count_out, Copied, write_block, wants_more, rounds, after_block, copy_loop,
}
use punchcardos.Prelude.{
  ℕ, zero, suc, ◌<◌, ◌≡◌, refl, ap, ◌∙◌, sym, Bool, true, false, some, none, Option, Bytes, List,
  [], ◌∷◌, ◌++◌, append-nil, append_assoc, length, take, drop, drop_all, drop-length-take,
  take-append-drop, arith, inl, inr, Bool-cases,
}
use punchcardos.Sys.{ReadEvent, got, failed, WriteEvent, accept, interrupt, refuse, Output, write}

-- How the writes of a block end: `rest` is what has not been written.
record BlockEnd (w bs : Bytes) (c : Option (Bool × (Records × Output))) : Type 0 where
  ok : Bool
  records : Records
  out : Output
  ended : c ≡ some (ok, (records, out))
  rest : Bytes
  split : out.written ++ rest ≡ w ++ bs
  all : ok ≡ true → rest ≡ []

abbrev output : Bytes → List WriteEvent → Output
output w es = record { written = w; events = es }

stopped :
    (bs w : Bytes) (es : List WriteEvent) (r : Records)
    → BlockEnd w bs (some (false, (r, output w es)))
stopped bs w es r = record {
  ok = false;
  records = r;
  out = output w es;
  ended = refl;
  rest = bs;
  split = refl;
  all = λ e. ground arith;
}

done :
    (w : Bytes) (es : List WriteEvent) (r : Records) → BlockEnd w [] (some (true, (r, output w es)))
done w es r = record {
  ok = true;
  records = r;
  out = output w es;
  ended = refl;
  rest = [];
  split = refl;
  all = λ e. refl;
}

-- Every call of `write` uses an event up or writes all that is left, so that the rounds are enough.
write_block-BlockEnd :
    (block : ℕ) (es : List WriteEvent) (bs w : Bytes) (r : Records) (fuel : ℕ)
    → length es < fuel
    → BlockEnd w bs (write_block fuel block bs r (output w es))
unfolding write_block write
write_block-BlockEnd block es bs w r zero f = absurd (omega arith)
write_block-BlockEnd block es [] w r (suc fuel) f = done w es r
write_block-BlockEnd block [] (b ∷ bs) w r (suc fuel) f =
    rw (drop_all bs, write_block)
      (record {
        ok = true;
        records = count_out block (length (b ∷ bs)) r;
        out = output (w ++ b ∷ bs) [];
        ended = refl;
        rest = [];
        split = rw append-nil refl;
        all = λ e. refl;
      })
write_block-BlockEnd block (interrupt ∷ es) (b ∷ bs) w r (suc fuel) f = stopped (b ∷ bs) w es r
write_block-BlockEnd block (refuse ∷ es) (b ∷ bs) w r (suc fuel) f = stopped (b ∷ bs) w es r
write_block-BlockEnd block (accept k ∷ es) (b ∷ bs) w r (suc fuel) f =
    let n : ℕ = length (take k (b ∷ bs)) in
    let e =
      write_block-BlockEnd block es (drop n (b ∷ bs)) (w ++ take k (b ∷ bs)) (count_out block n r)
        fuel (omega arith) in
    record {
      ok = e.ok;
      records = e.records;
      out = e.out;
      ended = e.ended;
      rest = e.rest;
      split =
          e.split
          ∙ append_assoc w (take k (b ∷ bs)) (drop n (b ∷ bs))
          ∙ ap (λ t. w ++ (take k (b ∷ bs) ++ t)) (drop-length-take k (b ∷ bs))
          ∙ ap (λ t. w ++ t) (take-append-drop k (b ∷ bs));
      all = e.all;
    }

-- What reading gives before the end or an error.
unfoldable pub read_content : List ReadEvent → Bytes
read_content [] = []
read_content (failed ∷ es) = []
read_content (got [] ∷ es) = []
read_content (got (b ∷ bs) ∷ es) = (b ∷ bs) ++ read_content es

-- How the copy ends: `rest` is what has been read, or would be, and is not written.
pub record CopyEnd (limit : Option ℕ) (w content : Bytes) (c : Option Copied) : Type 0 where
  pub result : Copied
  pub ended : c ≡ some result
  pub rest : Bytes
  pub split : result.out.written ++ rest ≡ w ++ content
  pub all : limit ≡ none → result.failed_flag ≡ false → rest ≡ []

CopyEnd-of :
    (limit : Option ℕ) (w content : Bytes) (c c' : Option Copied)
    → c ≡ c'
    → CopyEnd limit w content c'
    → CopyEnd limit w content c
CopyEnd-of limit w content c c' e x = record {
  result = x.result;
  ended = e ∙ x.ended;
  rest = x.rest;
  split = x.split;
  all = x.all;
}

at_end :
    (limit : Option ℕ) (w : Bytes) (ws : List WriteEvent) (r : Records)
    → CopyEnd limit w [] (some (record { failed_flag = false; records = r; out = output w ws }))
at_end limit w ws r = record {
  result = record { failed_flag = false; records = r; out = output w ws };
  ended = refl;
  rest = [];
  split = refl;
  all = λ l f. refl;
}

rounds-length : (ws : List WriteEvent) → length ws < rounds ws
unfolding rounds
rounds-length [] = omega arith
rounds-length (e ∷ ws) = omega (arith, rounds-length ws)

at_limit :
    (limit : Option ℕ) (w content : Bytes) (ws : List WriteEvent) (r : Records)
    → wants_more limit r ≡ false
    → CopyEnd limit w content
        (some (record { failed_flag = false; records = r; out = output w ws }))
unfolding wants_more
at_limit none w content ws r q = ground arith
at_limit (some n) w content ws r q = record {
  result = record { failed_flag = false; records = r; out = output w ws };
  ended = refl;
  rest = content;
  split = refl;
  all = λ l f. ground arith;
}

block_then :
    (limit : Option ℕ) (ok : Bool) (r : Records) (o : Output) (rest bs w content : Bytes)
    (again : Records → Output → Option Copied)
    → o.written ++ rest ≡ w ++ bs
    → (ok ≡ true → rest ≡ [])
    → CopyEnd limit o.written content (again r o)
    → CopyEnd limit w (bs ++ content) (after_block (some (ok, (r, o))) again)
unfolding after_block
block_then limit true r o rest bs w content again s a c =
    let written : o.written ≡ w ++ bs =
      sym (append-nil o.written) ∙ ap (λ t. o.written ++ t) (sym (a refl)) ∙ s in
    record {
      result = c.result;
      ended = c.ended;
      rest = c.rest;
      split = c.split ∙ ap (λ t. t ++ content) written ∙ append_assoc w bs content;
      all = c.all;
    }
block_then limit false r o rest bs w content again s a c = record {
  result = record { failed_flag = true; records = r; out = o };
  ended = refl;
  rest = rest ++ content;
  split =
      sym (append_assoc o.written rest content)
      ∙ ap (λ t. t ++ content) s
      ∙ append_assoc w bs content;
  all = λ l f. ground arith;
}

-- Whatever the reads and the writes give, the copy ends. What has been written then is a first part of
-- what the reads give before the end or an error; and all of it, if no write failed and no count is set.
pub copy_loop-CopyEnd :
    (block : ℕ) (limit : Option ℕ) (es : List ReadEvent) (r : Records) (w : Bytes)
    (ws : List WriteEvent)
    → CopyEnd limit w (read_content es) (copy_loop block limit es r (output w ws))
unfolding copy_loop read_content after_block
copy_loop-CopyEnd block limit [] r w ws = at_end limit w ws r
copy_loop-CopyEnd block limit (failed ∷ es) r w ws = at_end limit w ws r
copy_loop-CopyEnd block limit (got [] ∷ es) r w ws = at_end limit w ws r
copy_loop-CopyEnd block limit (got (b ∷ bs) ∷ es) r w ws = elim (Bool-cases (wants_more limit r)) [
  | inr q ↦
      CopyEnd-of limit w (b ∷ bs ++ read_content es) _ _ (rw (q, copy_loop) refl)
        (at_limit limit w (b ∷ bs ++ read_content es) ws r q)
  | inl q ↦
      let e =
        write_block-BlockEnd block ws (b ∷ bs) w (count_in block (length (b ∷ bs)) r) (rounds ws)
          (rounds-length ws) in
      let again : Records → Output → Option Copied = λ r' o'. copy_loop block limit es r' o' in
      CopyEnd-of limit w (b ∷ bs ++ read_content es) _ _
        (rw (q, copy_loop) (ap (λ c. after_block c again) e.ended))
        (block_then limit e.ok e.records e.out e.rest (b ∷ bs) w (read_content es) again e.split
          e.all (copy_loop-CopyEnd block limit es e.records e.out.written e.out.events))
]
