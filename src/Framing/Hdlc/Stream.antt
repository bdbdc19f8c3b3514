-- ===== src/Framing/Hdlc/Stream.antt =====
-- The octets of a stream, however they are cut into calls of ludlc_hdlc_dec_feed
-- (src/lib/ludlc_hdlc.c).
use ludlc.Prelude.{
  ℕ, ◌+◌, ◌≡◌, refl, ◌∙◌, ap, sym, false, Option, List, [], ◌∷◌, ◌++◌, arith, Bool-cases, inl, inr,
  if◌then◌else◌,
}
use ludlc.Core.State.{Stats}
use ludlc.Framing.Csum.{CsumAlg}
use ludlc.Framing.Hdlc.{Hdec, dec_octet, dec_feed, Fed}
use ludlc.Framing.Hdlc.Decode.{taken_after}

-- A call, then another that gets the octets that follow, if there is no packet yet.
abbrev pub then_feed : Option CsumAlg → Fed → List ℕ → Fed
then_feed alg fed ys =
    if fed.done then fed else taken_after fed.taken (dec_feed alg fed.dec fed.stats ys)

then_after :
    (alg : Option CsumAlg) (fed : Fed) (ys : List ℕ)
    → taken_after 1 (then_feed alg fed ys) ≡ then_feed alg (taken_after 1 fed) ys
then_after alg fed ys = elim (Bool-cases fed.done) [
  | inl e ↦ rw e refl
  | inr e ↦ rw e (taken_again fed.taken (dec_feed alg fed.dec fed.stats ys))
]
  where
    taken_again :
        (n : ℕ) (rest : Fed) → taken_after 1 (taken_after n rest) ≡ taken_after (n + 1) rest
    taken_again n rest = ap (λ k. record rest { taken = k }) (omega arith)

feed-append :
    (alg : Option CsumAlg) (d : Hdec) (st : Stats) (xs ys : List ℕ)
    → dec_feed alg d st (xs ++ ys) ≡ then_feed alg (dec_feed alg d st xs) ys
unfolding dec_feed
feed-append alg d st [] ys = ap (λ k. record (dec_feed alg d st ys) { taken = k }) (omega arith)
feed-append alg d st (x ∷ xs) ys = elim (Bool-cases (dec_octet alg x d st).2) [
  | inl e ↦ rw e refl
  | inr e ↦
      rw (e, feed-append alg (dec_octet alg x d st).0 (dec_octet alg x d st).1 xs ys)
        (then_after alg (dec_feed alg (dec_octet alg x d st).0 (dec_octet alg x d st).1 xs) ys)
]

-- A port that calls the decoder again and again until there is a packet, with the octets it has each
-- time.
unfoldable pub dec_calls : Option CsumAlg → Hdec → Stats → List (List ℕ) → Fed
dec_calls alg d st [] = record { dec = d; stats = st; taken = 0; done = false }
dec_calls alg d st (src ∷ srcs) =
    let fed = dec_feed alg d st src in
    let rest = dec_calls alg fed.dec fed.stats srcs in
    if fed.done then fed else taken_after fed.taken rest

unfoldable pub joined : List (List ℕ) → List ℕ
joined [] = []
joined (src ∷ srcs) = src ++ joined srcs

-- Octets that are handed to ludlc_hdlc_dec_feed in any pieces, until one completes a packet, leave the same
-- decoder, counters, number of octets taken and answer as all of them in one call.
pub dec_calls-joined :
    (alg : Option CsumAlg) (d : Hdec) (st : Stats) (srcs : List (List ℕ))
    → dec_calls alg d st srcs ≡ dec_feed alg d st (joined srcs)
unfolding dec_calls joined dec_feed
dec_calls-joined alg d st [] = refl
dec_calls-joined alg d st (src ∷ srcs) =
    ap
      (λ rest.
        if (dec_feed alg d st src).done
        then (dec_feed alg d st src)
        else taken_after (dec_feed alg d st src).taken rest)
      (dec_calls-joined alg (dec_feed alg d st src).dec (dec_feed alg d st src).stats srcs)
    ∙ sym (feed-append alg d st src (joined srcs))
