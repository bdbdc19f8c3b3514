-- ===== src/Framing/Cobs/Codes.antt =====
-- The code octets in the zero-stuffing decoder (src/lib/ludlc_cobs.c: ludlc_cobs_dec_feed).
use ludlc.Prelude.{
  ℕ, suc, ◌+◌, ◌-◌, ◌^◌, ◌≤◌, ◌<◌, ◌≡◌, ◌≢◌, refl, ◌∙◌, ap, sym, true, false, not, ◌&&◌, ◌==◌,
  ne→==-false, Option, List, [], ◌∷◌, ◌++◌, append_assoc, append-nil, arith, Bool-cases, inl, inr,
  if◌then◌else◌, length, length-append,
}
use ludlc.Core.State.{Stats}
use ludlc.Framing.Csum.{CsumAlg}
use ludlc.Framing.Cobs.{delimiter, Cdec, cdec_code, cdec_octet, cdec_feed}
use ludlc.Framing.Cobs.Decode.{
  CobsHolds, kept, kept-CobsHolds, store_byte-fits, Ran, cfeed-step, ctaken_after, ctaken_twice,
}

-- The zero that a code octet brings: the one that ended the group before.
abbrev pub lead_of : Cdec → List ℕ
lead_of d = if d.started && not (d.code == 0xff) then delimiter ∷ [] else []

pub octet-code :
    (alg : Option CsumAlg) (c : ℕ) (d : Cdec) (st : Stats)
    → c ≢ 0
    → d.over ≡ false
    → d.left ≡ 0
    → cdec_octet alg c d st ≡ (cdec_code alg c d, st, false)
unfolding cdec_octet
octet-code alg c d st h o l = rw (ne→==-false c 0 h, o, l) refl

with_code :
    {alg : Option CsumAlg} {start cap : ℕ} {pre : List ℕ} (c n : ℕ) (d : Cdec)
    → CobsHolds alg start cap pre d
    → CobsHolds alg start cap pre (record d { code = c; left = n; started = true })
with_code c n d h = record { stored = h.stored; room = h.room; not_over = h.not_over }

pub code-CobsHolds :
    {alg : Option CsumAlg} {start cap : ℕ} {pre : List ℕ} (c : ℕ) (d : Cdec)
    → CobsHolds alg start cap pre d
    → length pre + length (lead_of d) ≤ cap
    → cap < 2 ^ 16
    → CobsHolds alg start cap (pre ++ lead_of d) (cdec_code alg c d)
code-CobsHolds {alg} {start} {cap} {pre} c d h fits small =
    elim (Bool-cases (d.started && not (d.code == 0xff))) [
      | inr e ↦ rw (e, append-nil pre) (with_code c (c - 1) d h)
      | inl e ↦
          let room = one_room e in
          rw (e, store_byte-fits alg delimiter d (rw (h.stored.length_is, h.room) room))
            (with_code c (c - 1) (kept alg delimiter d) (kept-CobsHolds delimiter d h room small))
    ]
  where
    one_room : (d.started && not (d.code == 0xff)) ≡ true → length pre < cap
    one_room e = omega (arith, fits, ap (λ t. length (if t then delimiter ∷ [] else [])) e)

pub Ran-append :
    {alg : Option CsumAlg} {start cap : ℕ} {pre pre₁ wire wire₁ : List ℕ} {d : Cdec} {st : Stats}
    (r : Ran alg start cap pre wire d st)
    → Ran alg start cap pre₁ wire₁ r.dec st
    → Ran alg start cap pre₁ (wire ++ wire₁) d st
Ran-append {alg} {start} {cap} {pre} {pre₁} {wire} {wire₁} {d} {st} r q = record {
  dec = q.dec;
  holds = q.holds;
  none_left = q.none_left;
  fed = λ ys.
      ap (cdec_feed alg d st) (append_assoc wire wire₁ ys)
      ∙ r.fed (wire₁ ++ ys)
      ∙ ap (ctaken_after (length wire)) (q.fed ys)
      ∙ ctaken_twice (length wire) (length wire₁) (cdec_feed alg q.dec st ys)
      ∙ ap (λ n. ctaken_after n (cdec_feed alg q.dec st ys)) (sym (length-append wire wire₁));
}

pub Ran-cons :
    {alg : Option CsumAlg} {start cap : ℕ} {pre wire : List ℕ} {st : Stats} (c : ℕ) (d : Cdec)
    → c ≢ 0
    → d.over ≡ false
    → d.left ≡ 0
    → Ran alg start cap pre wire (cdec_code alg c d) st
    → Ran alg start cap pre (c ∷ wire) d st
Ran-cons {alg} {start} {cap} {pre} {wire} {st} c d h o l r = record {
  dec = r.dec;
  holds = r.holds;
  none_left = r.none_left;
  fed = λ ys.
      cfeed-step alg c d (cdec_code alg c d) st st (wire ++ ys) (octet-code alg c d st h o l)
      ∙ ap (ctaken_after 1) (r.fed ys)
      ∙ ctaken_twice 1 (length wire) (cdec_feed alg r.dec st ys)
      ∙ ap (λ n. ctaken_after n (cdec_feed alg r.dec st ys)) {y = suc (length wire)} (omega arith);
}
