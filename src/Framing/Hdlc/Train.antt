-- ===== src/Framing/Hdlc/Train.antt =====
-- Frames that follow one another, one octet between two of them (src/lib/ludlc_hdlc.c).
use ludlc.Prelude.{
  ℕ, zero, suc, ◌+◌, ◌≡◌, refl, ◌∙◌, ap, ap₂, sym, true, false, Option, List, [], ◌∷◌, ◌++◌, All,
  append_assoc, append-nil, arith, if◌then◌else◌, length, length-append, drop,
}
use ludlc.Core.State.{Stats}
use ludlc.Framing.Counters.{count_rx_packet}
use ludlc.Framing.Octets.{octets}
use ludlc.Framing.Csum.{CsumAlg, framed, start_again}
use ludlc.Framing.Hdlc.{sof, Hdec, dec_payload, dec_feed, dec_prep}
use ludlc.Framing.Hdlc.Escape.{escape}
use ludlc.Framing.Hdlc.Sent.{frame}
use ludlc.Framing.Hdlc.Received.{Received, body-Received, prep-Holds}
use ludlc.Framing.Hdlc.RoundTrip.{Fits, frame_octets, prepared-Received}

-- Frames in a train: the octet that starts a frame ends the one before.
unfoldable pub train : Option CsumAlg → List (List ℕ) → List ℕ
train alg [] = []
train alg (packet ∷ []) = frame alg packet true
train alg (packet ∷ next ∷ packets) = frame alg packet false ++ train alg (next ∷ packets)

-- A port that gives the decoder a buffer for each packet.
unfoldable pub receive_packets :
    Option CsumAlg → (ℕ → ℕ) → ℕ → ℕ → Hdec → Stats → List ℕ → List (List ℕ)
receive_packets alg buf cap zero d st src = []
receive_packets alg buf cap (suc n) d st src =
    let fed = dec_feed alg (dec_prep alg d buf cap) st src in
    let rest = receive_packets alg buf cap n fed.dec fed.stats (drop fed.taken src) in
    if fed.done then (octets fed.dec.payload 0 fed.dec.size ∷ rest) else []

bodies : Option CsumAlg → List (List ℕ) → List ℕ
bodies alg [] = []
bodies alg (packet ∷ packets) = escape (framed alg packet) ++ (sof ∷ bodies alg packets)

train-bodies :
    (alg : Option CsumAlg) (packet : List ℕ) (packets : List (List ℕ))
    → train alg (packet ∷ packets) ≡ sof ∷ bodies alg (packet ∷ packets)
unfolding train bodies
train-bodies alg packet [] = refl
train-bodies alg packet (next ∷ packets) =
    ap₂ (λ xs zs. (sof ∷ xs) ++ zs) (append-nil (escape (framed alg packet)))
      (train-bodies alg next packets)

receive_packets-step :
    {packet : List ℕ} {n : ℕ} {st₁ : Stats} (alg : Option CsumAlg) (buf : ℕ → ℕ) (cap k : ℕ)
    (d : Hdec) (st : Stats) (src : List ℕ)
    → Received packet n st₁ (dec_feed alg (dec_prep alg d buf cap) st src)
    → receive_packets alg buf cap (suc k) d st src
      ≡ packet
        ∷ receive_packets alg buf cap k
            (dec_feed alg (dec_prep alg d buf cap) st src).dec
            (dec_feed alg (dec_prep alg d buf cap) st src).stats
            (drop n src)
unfolding receive_packets
receive_packets-step alg buf cap k d st src r = rw (r.done, r.taken, r.size, r.stored_octets) refl

drop-length : (xs ys : List ℕ) → drop (length xs) (xs ++ ys) ≡ ys
drop-length [] ys = refl
drop-length (x ∷ xs) ys = drop-length xs ys

drop_body : (xs ys : List ℕ) (c : ℕ) → drop (1 + length xs) (xs ++ (c ∷ ys)) ≡ ys
drop_body xs ys c =
    ap (λ n. drop n (xs ++ (c ∷ ys))) {y = length (xs ++ (c ∷ []))}
      (rw (length-append xs (c ∷ [])) (omega arith))
    ∙ ap (drop (length (xs ++ (c ∷ [])))) (sym (append_assoc xs (c ∷ []) ys))
    ∙ drop-length (xs ++ (c ∷ [])) ys

-- A packet whose first octet is the decoder's next.
next_body :
    (alg : Option CsumAlg) (buf : ℕ → ℕ) (cap : ℕ) (packet : List ℕ) (d : Hdec) (st : Stats)
    (ys : List ℕ)
    → Fits alg cap packet
    → d.state ≡ dec_payload
    → Received packet
        (1 + length (escape (framed alg packet)))
        (count_rx_packet st)
        (dec_feed alg (dec_prep alg d buf cap) st (escape (framed alg packet) ++ (sof ∷ ys)))
unfolding dec_prep
next_body alg buf cap packet d st ys f e =
    body-Received alg packet (dec_prep alg d buf cap) st ys (prep-Holds alg d buf cap e)
      (start_again alg d.csum) f.checked f.are_octets f.from_two f.in_cap f.cap_width

-- The packets that follow.
receive_bodies :
    (alg : Option CsumAlg) (buf : ℕ → ℕ) (cap : ℕ) (packets : List (List ℕ)) (d : Hdec) (st : Stats)
    (ys : List ℕ)
    → All (Fits alg cap) packets
    → d.state ≡ dec_payload
    → receive_packets alg buf cap (length packets) d st (bodies alg packets ++ ys) ≡ packets
unfolding receive_packets bodies
receive_bodies alg buf cap [] d st ys f e = refl
receive_bodies alg buf cap (packet ∷ packets) d st ys f e =
    let body = escape (framed alg packet) in
    let rest = bodies alg packets ++ ys in
    let r = next_body alg buf cap packet d st rest f.0 e in
    rw (append_assoc body (sof ∷ bodies alg packets) ys) (
      receive_packets-step alg buf cap (length packets) d st (body ++ (sof ∷ rest)) r
      ∙ ap (λ ps. packet ∷ ps)
          (ap (receive_packets alg buf cap (length packets) _ _) (drop_body body rest sof)
            ∙ receive_bodies alg buf cap packets _ _ ys f.1 r.in_frame))

-- Packets whose frames follow one another, so that the octet that starts a frame ends the one before, are
-- all received, in order, by a decoder in any state that is given a buffer for each; each packet has two
-- or more octets and fits the buffer (of fewer than 2^16 octets) with its checksum, and the checksum keeps
-- what its documentation says.
pub receive_packets-train :
    (alg : Option CsumAlg) (buf : ℕ → ℕ) (cap : ℕ) (packets : List (List ℕ)) (d : Hdec) (st : Stats)
    (ys : List ℕ)
    → All (Fits alg cap) packets
    → receive_packets alg buf cap (length packets) d st (train alg packets ++ ys) ≡ packets
unfolding bodies receive_packets
receive_packets-train alg buf cap [] d st ys f = refl
receive_packets-train alg buf cap (packet ∷ packets) d st ys f =
    let rest = bodies alg packets ++ ys in
    let r = prepared-Received alg packet d buf cap st rest f.0 in
    ap (receive_packets alg buf cap (suc (length packets)) d st) (
      ap (λ xs. xs ++ ys) (train-bodies alg packet packets)
      ∙ ap (λ xs. sof ∷ xs)
          (append_assoc (escape (framed alg packet)) (sof ∷ bodies alg packets) ys)
      ∙ sym (frame_octets alg packet rest))
    ∙ receive_packets-step alg buf cap (length packets) d st (frame alg packet true ++ rest) r
    ∙ ap (λ ps. packet ∷ ps)
        (ap (receive_packets alg buf cap (length packets) _ _)
            (drop-length (frame alg packet true) rest)
          ∙ receive_bodies alg buf cap packets _ _ ys f.1 r.in_frame)
