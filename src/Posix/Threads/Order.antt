-- ===== src/Posix/Threads/Order.antt =====
-- The octets that the consumer gets, in the order in which the producer put them
-- (src/lib/platform/posix/kfifo.h: kfifo_put and kfifo_get in two threads).
use ludlc.Prelude.{
  ℕ, suc, ◌+◌, ◌%◌, ◌<◌, ◌≡◌, ◌≢◌, refl, ◌∙◌, ap, sym, false, List, [], ◌∷◌, ◌++◌, append_assoc,
  append-nil, leb, ==-refl, arith, u32, update,
}
use mathlib.Core.Path.{subst}
use ludlc.Posix.Kfifo.{Kfifo, index_sub, kfifo_len}
use ludlc.Posix.Kfifo.Queue.{contents, IsKfifo}
use ludlc.Posix.Kfifo.Refine.{len_more, len_suc, get_contents}
use ludlc.Posix.Threads.{
  PutPc, put_idle, put_called, put_loaded_in, put_loaded, put_stored, GetPc, get_idle, get_called,
  get_loaded_in, get_loaded, get_read, PutMove, call_put, load_in_put, load_out_put, found_full,
  store_octet, store_in, GetMove, call_get, load_in_get, load_out_get, found_empty, read_octet,
  store_out, TwoThreads, ThreadStep, produce, consume, ThreadReach, started, later,
}
use ludlc.Posix.Threads.Invariant.{
  PutAt, GetAt, with_octet, stored-contents, stored-head, published-contents,
}

-- What a step of the producer keeps, with the consumer at `g`.
record PutKept (fifo f : Kfifo) (p : PutPc) (g : GetPc) (out : List ℕ) : Type 0 where
  kept : IsKfifo f
  put_at : PutAt f p
  get_at : GetAt f g
  contents_is : contents f ≡ contents fifo ++ out

-- What a step of the consumer keeps, with the producer at `p`.
record GetKept (fifo f : Kfifo) (p : PutPc) (g : GetPc) (out : List ℕ) : Type 0 where
  kept : IsKfifo f
  put_at : PutAt f p
  get_at : GetAt f g
  contents_is : contents fifo ≡ out ++ contents f

same_put :
    {fifo : Kfifo} {g : GetPc} (p : PutPc)
    → IsKfifo fifo
    → GetAt fifo g
    → PutAt fifo p
    → PutKept fifo fifo p g []
same_put {fifo} p h at a = record {
  kept = h;
  put_at = a;
  get_at = at;
  contents_is = sym (append-nil (contents fifo));
}

same_get :
    {fifo : Kfifo} {p : PutPc} (g : GetPc)
    → IsKfifo fifo
    → PutAt fifo p
    → GetAt fifo g
    → GetKept fifo fifo p g []
same_get g h at a = record { kept = h; put_at = at; get_at = a; contents_is = refl }

stored-GetAt :
    (fifo : Kfifo) (val : ℕ) (g : GetPc)
    → IsKfifo fifo
    → kfifo_len fifo < fifo.size
    → GetAt fifo g
    → GetAt (with_octet fifo val) g
stored-GetAt fifo val get_idle h room a = tt
stored-GetAt fifo val get_called h room a = tt
stored-GetAt fifo val (get_loaded_in i) h room a = a
stored-GetAt fifo val (get_loaded i o) h room a = a
stored-GetAt fifo val (get_read o v) h room (a, one, e) =
    (a, one, stored-head fifo val h room one ∙ e)

abbrev published : Kfifo → Kfifo
published fifo = record fifo { in_index = u32 (fifo.in_index + 1) }

published-len :
    (fifo : Kfifo)
    → IsKfifo fifo
    → kfifo_len fifo < fifo.size
    → kfifo_len (published fifo) ≡ kfifo_len fifo + 1
published-len fifo h room =
    len_more fifo.in_index fifo.out_index h.in_to h.out_to (omega (arith, room, h.size_to))

published-GetAt :
    (fifo : Kfifo) (g : GetPc)
    → kfifo_len (published fifo) ≡ kfifo_len fifo + 1
    → GetAt fifo g
    → GetAt (published fifo) g
published-GetAt fifo get_idle e a = tt
published-GetAt fifo get_called e a = tt
published-GetAt fifo (get_loaded_in i) e (w, l) = (w, omega (arith, e, l))
published-GetAt fifo (get_loaded i o) e (w, a, l) = (w, a, omega (arith, e, l))
published-GetAt fifo (get_read o v) e (a, one, v_is) = (a, omega (arith, e, one), v_is)

store-PutKept :
    {fifo : Kfifo} {g : GetPc} (val i o : ℕ)
    → IsKfifo fifo
    → GetAt fifo g
    → PutAt fifo (put_loaded val i o)
    → leb fifo.size (index_sub i o) ≡ false
    → PutKept fifo (with_octet fifo val) (put_stored val i) g []
store-PutKept {fifo} {g} val i o h at (i_is, len_to) free =
    let room : kfifo_len fifo < fifo.size = ground (arith, free, len_to) in
    record {
      kept = record {
        divides = h.divides;
        size_from = h.size_from;
        size_to = h.size_to;
        in_to = h.in_to;
        out_to = h.out_to;
        len_to = h.len_to;
      };
      put_at = (i_is, room, rw (==-refl (fifo.in_index % fifo.size)) refl);
      get_at = stored-GetAt fifo val g h room at;
      contents_is = stored-contents fifo val h room ∙ sym (append-nil (contents fifo));
    }

publish-PutKept :
    {fifo : Kfifo} {g : GetPc} (val i : ℕ)
    → IsKfifo fifo
    → GetAt fifo g
    → PutAt fifo (put_stored val i)
    → PutKept fifo (published fifo) put_idle g (val ∷ [])
publish-PutKept {fifo} {g} val i h at (i_is, room, val_is) =
    let len_is = published-len fifo h room in
    record {
      kept = record {
        divides = h.divides;
        size_from = h.size_from;
        size_to = h.size_to;
        in_to = omega arith;
        out_to = h.out_to;
        len_to = omega (arith, len_is, room);
      };
      put_at = tt;
      get_at = published-GetAt fifo g len_is at;
      contents_is = published-contents fifo h room ∙ ap (λ v. contents fifo ++ (v ∷ [])) val_is;
    }

-- A step of the producer.
put-PutKept :
    {fifo f : Kfifo} {p q : PutPc} {out : List ℕ} (g : GetPc)
    → IsKfifo fifo
    → PutAt fifo p
    → GetAt fifo g
    → PutMove fifo p f q out
    → PutKept fifo f q g out
put-PutKept g h a at (call_put val) = same_put (put_called val) h at tt
put-PutKept {fifo} g h a at (load_in_put val) = same_put (put_loaded_in val fifo.in_index) h at refl
put-PutKept {fifo} g h a at (load_out_put val i) =
    same_put (put_loaded val i fifo.out_index) h at
      (a, omega (arith, ap (λ j. index_sub j fifo.out_index) a))
put-PutKept g h a at (found_full val i o e) = same_put put_idle h at tt
put-PutKept {fifo} g h a at (store_octet val i o e) =
    subst
      (λ j.
        PutKept fifo (record fifo { octets = update fifo.octets (j % fifo.size) val })
          (put_stored val i) g [])
      (sym a.0) (store-PutKept val i o h at a e)
put-PutKept {fifo} g h a at (store_in val i) =
    subst (λ j. PutKept fifo (record fifo { in_index = u32 (j + 1) }) put_idle g (val ∷ []))
      (sym a.0) (publish-PutKept val i h at a)

abbrev released : Kfifo → Kfifo
released fifo = record fifo { out_index = u32 (fifo.out_index + 1) }

released-PutAt :
    (fifo : Kfifo) (p : PutPc)
    → kfifo_len fifo ≡ suc (kfifo_len (released fifo))
    → PutAt fifo p
    → PutAt (released fifo) p
released-PutAt fifo put_idle e a = tt
released-PutAt fifo (put_called val) e a = tt
released-PutAt fifo (put_loaded_in val i) e a = a
released-PutAt fifo (put_loaded val i o) e (a, l) = (a, omega (arith, e, l))
released-PutAt fifo (put_stored val i) e (a, l, v) = (a, omega (arith, e, l), v)

release-GetKept :
    {fifo : Kfifo} {p : PutPc} (o val : ℕ)
    → IsKfifo fifo
    → PutAt fifo p
    → GetAt fifo (get_read o val)
    → GetKept fifo (released fifo) p get_idle (val ∷ [])
release-GetKept {fifo} {p} o val h at (o_is, one, val_is) = record {
  kept = record {
    divides = h.divides;
    size_from = h.size_from;
    size_to = h.size_to;
    in_to = h.in_to;
    out_to = omega arith;
    len_to = omega (arith, len_suc fifo h more, h.len_to);
  };
  put_at = released-PutAt fifo p (len_suc fifo h more) at;
  get_at = tt;
  contents_is = get_contents fifo h more ∙ ap (λ v. v ∷ contents (released fifo)) val_is;
}
  where
    more : fifo.in_index ≢ fifo.out_index
    more e = absurd (omega (arith, e, one, h.out_to))

-- A step of the consumer.
get-GetKept :
    {fifo f : Kfifo} {g q : GetPc} {out : List ℕ} (p : PutPc)
    → IsKfifo fifo
    → PutAt fifo p
    → GetAt fifo g
    → GetMove fifo g f q out
    → GetKept fifo f p q out
get-GetKept p h at a call_get = same_get get_called h at tt
get-GetKept {fifo} p h at a load_in_get =
    same_get (get_loaded_in fifo.in_index) h at (h.in_to, omega arith)
get-GetKept {fifo} p h at a (load_out_get i) =
    same_get (get_loaded i fifo.out_index) h at (a.0, refl, a.1)
get-GetKept p h at a (found_empty i o e) = same_get get_idle h at tt
get-GetKept {fifo} p h at a (read_octet i o e) =
    same_get (get_read o (fifo.octets (o % fifo.size))) h at (
      a.1,
      ground (arith, e, a.0, a.1, a.2, h.out_to),
      ap (λ j. fifo.octets (j % fifo.size)) (sym a.1),
    )
get-GetKept {fifo} p h at a (store_out o val) =
    subst (λ j. GetKept fifo (record fifo { out_index = u32 (j + 1) }) p get_idle (val ∷ []))
      (sym a.0) (release-GetKept o val h at a)

-- What holds after any steps from a queue with the octets `before`.
record Ordered (before : List ℕ) (s : TwoThreads) : Type 0 where
  kept : IsKfifo s.fifo
  put_at : PutAt s.fifo s.producer
  get_at : GetAt s.fifo s.consumer
  in_order : before ++ s.put_log ≡ s.got_log ++ contents s.fifo

step-Ordered :
    {before : List ℕ} {s t : TwoThreads} → Ordered before s → ThreadStep s t → Ordered before t
step-Ordered {before} {s} h (produce {fifo} {pc} {out} move) =
    let k = put-PutKept s.consumer h.kept h.put_at h.get_at move in
    record {
      kept = k.kept;
      put_at = k.put_at;
      get_at = k.get_at;
      in_order =
          sym (append_assoc before s.put_log out)
          ∙ ap (λ xs. xs ++ out) h.in_order
          ∙ append_assoc s.got_log (contents s.fifo) out
          ∙ ap (λ xs. s.got_log ++ xs) (sym k.contents_is);
    }
step-Ordered {before} {s} h (consume {fifo} {pc} {out} move) =
    let k = get-GetKept s.producer h.kept h.put_at h.get_at move in
    record {
      kept = k.kept;
      put_at = k.put_at;
      get_at = k.get_at;
      in_order =
          h.in_order
          ∙ ap (λ xs. s.got_log ++ xs) k.contents_is
          ∙ sym (append_assoc s.got_log out (contents fifo));
    }

reach-Ordered :
    {fifo : Kfifo} {s : TwoThreads} → IsKfifo fifo → ThreadReach fifo s → Ordered (contents fifo) s
reach-Ordered {fifo} h started = record {
  kept = h;
  put_at = tt;
  get_at = tt;
  in_order = append-nil (contents fifo);
}
reach-Ordered h (later r move) = step-Ordered (reach-Ordered h r) move

-- One thread calls kfifo_put and one kfifo_get, again and again, on a queue whose size divides 2^32 and
-- which holds no more than that; each load and each store of the two may come at any time between those
-- of the other. Whatever their order, the octets that were in the queue and those of the calls of
-- kfifo_put that returned true are, in this order, the octets that kfifo_get gave and those that are in
-- the queue: none is lost, doubled, changed or overtaken. And the queue is one of that kind still.
pub got_in_order :
    {s : TwoThreads} (fifo : Kfifo)
    → IsKfifo fifo
    → ThreadReach fifo s
    → (contents fifo ++ s.put_log ≡ s.got_log ++ contents s.fifo) × IsKfifo s.fifo
got_in_order fifo h r = let k = reach-Ordered h r in (k.in_order, k.kept)
