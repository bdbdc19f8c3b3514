-- ===== src/Framing/Hdlc/Decode.antt =====
-- What the escaping decoder stores of octets that were escaped (src/lib/ludlc_hdlc.c:
-- ludlc_hdlc_dec_feed).
use Prim.Native.Nat.{bit_xor}
use ludlc.Prelude.{
  ℕ, ◌+◌, ◌%◌, ◌^◌, ◌≤◌, ◌<◌, ◌≡◌, refl, ◌∙◌, ap, sym, true, false, ◌||◌, ◌==◌, ==_iff, Option,
  List, [], ◌∷◌, ◌++◌, append_assoc, append-nil, arith, Bool-cases, inl, inr, length, length-append,
  update,
}
use ludlc.Core.State.{Stats}
use ludlc.Framing.Stored.{Stored, Stored-snoc}
use ludlc.Framing.Csum.{CsumAlg, csum_add}
use ludlc.Framing.Hdlc.{sof, esc, mask, Hdec, dec_payload, dec_esc, dec_octet, dec_feed, Fed}
use ludlc.Framing.Hdlc.Escape.{hide, escape}

-- More octets taken before.
abbrev pub taken_after : ℕ → Fed → Fed
taken_after n fed = record fed { taken = (fed.taken + n) }

-- The decoder with one octet more.
abbrev pub stored : Option CsumAlg → ℕ → Hdec → Hdec
stored alg c d = record d {
  payload = update d.payload d.size c;
  size = (d.size + 1) % 2 ^ 16;
  csum = csum_add alg d.csum c;
  state = dec_payload;
}

octet-plain :
    (alg : Option CsumAlg) (c : ℕ) (d : Hdec) (st : Stats)
    → (c == sof || c == esc) ≡ false
    → d.state ≡ dec_payload
    → d.size < d.payload_cap
    → dec_octet alg c d st ≡ (stored alg c d, st, false)
unfolding dec_octet
octet-plain alg c d st h e fits = ground (arith, h, e, fits)

octet-esc :
    (alg : Option CsumAlg) (d : Hdec) (st : Stats)
    → d.state ≡ dec_payload
    → dec_octet alg esc d st ≡ (record d { state = dec_esc }, st, false)
unfolding dec_octet
octet-esc alg d st e = ground (arith, e)

octet-masked :
    (alg : Option CsumAlg) (c : ℕ) (d : Hdec) (st : Stats)
    → (c == sof || c == esc) ≡ true
    → d.size < d.payload_cap
    → dec_octet alg (bit_xor c mask) (record d { state = dec_esc }) st ≡ (stored alg c d, st, false)
unfolding dec_octet
octet-masked alg c d st h fits = elim (Bool-cases (c == sof)) [
  | inl e ↦ rw ((==_iff c sof).0 e) (ground (arith, fits))
  | inr e ↦ rw ((==_iff c esc).0 (ground (arith, h, e))) (ground (arith, fits))
]

pub taken_twice :
    (n m : ℕ) (fed : Fed) → taken_after n (taken_after m fed) ≡ taken_after (n + m) fed
taken_twice n m fed = ap (λ k. record fed { taken = k }) (omega arith)

pub feed-step :
    (alg : Option CsumAlg) (c : ℕ) (d d₁ : Hdec) (st st₁ : Stats) (ys : List ℕ)
    → dec_octet alg c d st ≡ (d₁, st₁, false)
    → dec_feed alg d st (c ∷ ys) ≡ taken_after 1 (dec_feed alg d₁ st₁ ys)
unfolding dec_feed
feed-step alg c d d₁ st st₁ ys e = rw e refl

feed_hide :
    (alg : Option CsumAlg) (c : ℕ) (d : Hdec) (st : Stats) (ys : List ℕ)
    → d.state ≡ dec_payload
    → d.size < d.payload_cap
    → dec_feed alg d st (hide c ++ ys)
      ≡ taken_after (length (hide c)) (dec_feed alg (stored alg c d) st ys)
unfolding hide
feed_hide alg c d st ys e fits = elim (Bool-cases (c == sof || c == esc)) [
  | inl h ↦ rw h (
      feed-step alg esc d (record d { state = dec_esc }) st st _ (octet-esc alg d st e)
      ∙ ap (taken_after 1) (
          feed-step alg (bit_xor c mask) _ (stored alg c d) st st ys
            (octet-masked alg c d st h fits))
      ∙ taken_twice 1 1 (dec_feed alg (stored alg c d) st ys))
  | inr h ↦ rw h (feed-step alg c d (stored alg c d) st st ys (octet-plain alg c d st h e fits))
]

-- The decoder with all of some octets more.
unfoldable pub stored_all : Option CsumAlg → List ℕ → Hdec → Hdec
stored_all alg [] d = d
stored_all alg (c ∷ cs) d = stored_all alg cs (stored alg c d)

-- A decoder that is in a frame, with the octets `pre` so far, and the checksum of them from `start`.
pub record Holds (alg : Option CsumAlg) (start cap : ℕ) (pre : List ℕ) (d : Hdec) : Type 0 where
  pub in_frame : d.state ≡ dec_payload
  pub room : d.payload_cap ≡ cap
  pub stored : Stored alg start pre d.payload d.size d.csum

stored-Holds :
    {alg : Option CsumAlg} {start cap : ℕ} {pre : List ℕ} (c : ℕ) (d : Hdec)
    → Holds alg start cap pre d
    → length pre < cap
    → cap < 2 ^ 16
    → Holds alg start cap (pre ++ (c ∷ [])) (stored alg c d)
stored-Holds {alg} {start} {cap} {pre} c d h fits small = record {
  in_frame = refl;
  room = h.room;
  stored = Stored-snoc c h.stored (omega arith);
}

pub stored_all-Holds :
    {alg : Option CsumAlg} {start cap : ℕ} (xs pre : List ℕ) (d : Hdec)
    → Holds alg start cap pre d
    → length pre + length xs ≤ cap
    → cap < 2 ^ 16
    → Holds alg start cap (pre ++ xs) (stored_all alg xs d)
unfolding stored_all
stored_all-Holds {alg} {start} {cap} [] pre d h fits small = rw (append-nil pre) h
stored_all-Holds {alg} {start} {cap} (x ∷ xs) pre d h fits small =
    rw (sym (append_assoc pre (x ∷ []) xs)) (
      stored_all-Holds xs (pre ++ (x ∷ [])) (stored alg x d)
        (stored-Holds x d h (omega arith) small) (rw (length-append pre (x ∷ [])) (omega arith))
        small)

pub feed-escape :
    {alg : Option CsumAlg} {start cap : ℕ} (xs pre : List ℕ) (d : Hdec) (st : Stats) (ys : List ℕ)
    → Holds alg start cap pre d
    → length pre + length xs ≤ cap
    → cap < 2 ^ 16
    → dec_feed alg d st (escape xs ++ ys)
      ≡ taken_after (length (escape xs)) (dec_feed alg (stored_all alg xs d) st ys)
unfolding escape stored_all
feed-escape {alg} [] pre d st ys h fits small =
    ap (λ k. record (dec_feed alg d st ys) { taken = k }) (omega arith)
feed-escape {alg} (x ∷ xs) pre d st ys h fits small =
    ap (dec_feed alg d st) (append_assoc (hide x) (escape xs) ys)
    ∙ feed_hide alg x d st (escape xs ++ ys) h.in_frame
        (rw (h.stored.length_is, h.room) (omega arith))
    ∙ ap (taken_after (length (hide x))) (
        feed-escape xs (pre ++ (x ∷ [])) (stored alg x d) st ys
          (stored-Holds x d h (omega arith) small) (rw (length-append pre (x ∷ [])) (omega arith))
          small)
    ∙ taken_twice (length (hide x)) (length (escape xs)) _
    ∙ ap (λ n. taken_after n (dec_feed alg (stored_all alg xs (stored alg x d)) st ys))
        (sym (length-append (hide x) (escape xs)))
