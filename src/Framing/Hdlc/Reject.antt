-- ===== src/Framing/Hdlc/Reject.antt =====
-- The frames that the escaping decoder drops (src/lib/ludlc_hdlc.c: ludlc_hdlc_dec_feed).
use ludlc.Prelude.{
  ℕ, ◌+◌, ◌≤◌, ◌<◌, ◌≡◌, ◌⊎◌, refl, ◌∙◌, ap, sym, true, false, leb, ◌==◌, Option, none, some, List,
  [], ◌∷◌, ◌++◌, arith, inl, inr, if◌then◌else◌, length,
}
use mathlib.Core.Path.{subst}
use ludlc.Core.State.{Stats}
use ludlc.Framing.Counters.{count_rx_packet, count_bad_csum, count_dropped}
use ludlc.Framing.Csum.{
  CsumAlg, csum_run, csum_start, csum_rx_ok, frame_min_sz, framed, start_again,
}
use ludlc.Framing.Hdlc.{sof, Hdec, dec_octet, dec_feed, dec_prep, dec_restart}
use ludlc.Framing.Hdlc.Escape.{escape}
use ludlc.Framing.Hdlc.Sent.{frame}
use ludlc.Framing.Hdlc.Decode.{Holds, stored_all, stored_all-Holds, feed-escape, feed-step}
use ludlc.Framing.Hdlc.Received.{Received, body-Received, taken_after-Received, restart-Holds}
use ludlc.Framing.Hdlc.RoundTrip.{Fits, frame_octets, length-frame, sof-prepared}

-- What the end of a frame that is no packet counts: a checksum that fails, or too few octets.
abbrev pub count_reject : Option CsumAlg → List ℕ → Stats → Stats
count_reject alg xs st =
    if leb (frame_min_sz alg) (length xs)
    then count_bad_csum st
    else if length xs == 0
    then st
    else count_dropped st

close-reject :
    (alg : Option CsumAlg) (xs : List ℕ) (d : Hdec) (st : Stats)
    → d.size ≡ length xs
    → (csum_rx_ok alg d.csum ≡ false) ⊎ (length xs < frame_min_sz alg)
    → dec_octet alg sof d st ≡ (dec_restart alg d, count_reject alg xs st, false)
unfolding dec_octet
close-reject none xs d st e (inl h) = ground (arith, e, h)
close-reject (some alg) xs d st e (inl h) = ground (arith, e, h)
close-reject none xs d st e (inr h) = ground (arith, e, h)
close-reject (some alg) xs d st e (inr h) = ground (arith, e, h)

any_start :
    (alg : Option CsumAlg) (sum : ℕ) (xs : List ℕ)
    → csum_rx_ok alg (csum_run alg (csum_start alg sum) xs)
      ≡ csum_rx_ok alg (csum_run alg (csum_start alg 0) xs)
any_start none sum xs = refl
any_start (some alg) sum xs = refl

-- The frame after one that is dropped, in a decoder that has begun the first.
after_reject :
    (alg : Option CsumAlg) (start : ℕ) (xs packet : List ℕ) (d : Hdec) (st : Stats) (ys : List ℕ)
    → Holds alg start d.payload_cap [] d
    → start ≡ csum_start alg start
    → length xs ≤ d.payload_cap
    → (csum_rx_ok alg (csum_run alg (csum_start alg 0) xs) ≡ false) ⊎ (length xs < frame_min_sz alg)
    → Fits alg d.payload_cap packet
    → Received packet
        (length (frame alg packet true) + length (escape xs))
        (count_rx_packet (count_reject alg xs st))
        (dec_feed alg d st (escape xs ++ (frame alg packet true ++ ys)))
after_reject alg start xs packet d st ys h again fits bad f =
    let d₁ = stored_all alg xs d in
    let h₁ = stored_all-Holds xs [] d h (omega (arith, fits)) f.cap_width in
    let st₁ = count_reject alg xs st in
    rw
      (
        feed-escape xs [] d st (frame alg packet true ++ ys) h (omega (arith, fits)) f.cap_width,
        frame_octets alg packet ys,
        feed-step alg sof d₁ (dec_restart alg d₁) st st₁ (escape (framed alg packet) ++ (sof ∷ ys))
            (close-reject alg xs d₁ st h₁.stored.length_is (bad_at bad)),
        sym (length-frame alg packet),
      )
      (taken_after-Received (length (escape xs)) _ (
        taken_after-Received 1 _ (
          body-Received alg packet (dec_restart alg d₁) st₁ ys
            (restart-Holds alg d.payload_cap d₁ h₁.room) (start_again alg d₁.csum) f.checked
            f.are_octets f.from_two f.in_cap f.cap_width)))
  where
    bad_at :
        (csum_rx_ok alg (csum_run alg (csum_start alg 0) xs) ≡ false)
          ⊎ (length xs < frame_min_sz alg)
        → (csum_rx_ok alg (stored_all alg xs d).csum ≡ false) ⊎ (length xs < frame_min_sz alg)
    bad_at (inl b) = inl (
        ap (csum_rx_ok alg)
          (stored_all-Holds xs [] d h (omega (arith, fits)) f.cap_width).stored.sum_is
        ∙ ap (λ c. csum_rx_ok alg (csum_run alg c xs)) again
        ∙ any_start alg start xs
        ∙ b)
    bad_at (inr b) = inr b

-- Octets between two frame octets whose checksum fails, or which are too few for a packet, and which fit
-- the decoder's buffer, are counted once as a bad checksum or as dropped (none at all is not counted);
-- and the frame that comes next, if it fits and its checksum keeps what its documentation says, is
-- received, whatever follows.
pub dec_feed-rejects :
    (alg : Option CsumAlg) (xs packet : List ℕ) (d : Hdec) (buf : ℕ → ℕ) (cap : ℕ) (st : Stats)
    (ys : List ℕ)
    → length xs ≤ cap
    → (csum_rx_ok alg (csum_run alg (csum_start alg 0) xs) ≡ false) ⊎ (length xs < frame_min_sz alg)
    → Fits alg cap packet
    → Received packet
        (length (sof ∷ escape xs) + length (frame alg packet true))
        (count_rx_packet (count_reject alg xs st))
        (dec_feed alg
          (dec_prep alg d buf cap)
          st
          ((sof ∷ escape xs) ++ (frame alg packet true ++ ys)))
unfolding dec_prep
dec_feed-rejects alg xs packet d buf cap st ys fits bad f =
    let d₁ = dec_prep alg d buf cap in
    subst
      (λ n.
        Received packet n (count_rx_packet (count_reject alg xs st))
          (dec_feed alg d₁ st ((sof ∷ escape xs) ++ (frame alg packet true ++ ys))))
      {x = length (frame alg packet true) + length (escape xs) + 1} (omega arith)
      (rw
        (feed-step alg sof d₁ (dec_restart alg d₁) st st
          (escape xs ++ (frame alg packet true ++ ys)) (sof-prepared alg d buf cap st))
        (taken_after-Received 1 _ (
          after_reject alg (csum_start alg d₁.csum) xs packet (dec_restart alg d₁) st ys
            (restart-Holds alg cap d₁ refl) (start_again alg d₁.csum) fits bad f)))
