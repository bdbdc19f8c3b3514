-- ===== src/Framing/Raw/RoundTrip.antt =====
-- A raw frame from one end of a link to the other (src/lib/ludlc_raw.c), whatever room each call of the
-- encoder has, and however its octets are cut into calls of the decoder.
use ludlc.Prelude.{
  ℕ, ◌+◌, ◌-◌, ◌^◌, ◌≤◌, ◌<◌, ◌≡◌, refl, ◌∙◌, ap, ap₂, sym, Bool, true, false, ltb, ltb→lt, Option,
  none, some, List, [], ◌∷◌, ◌++◌, append_assoc, arith, Bool-cases, inl, inr, if◌then◌else◌, length,
  length-append, take, drop, length-drop, get_or,
}
use mathlib.Core.Path.{subst}
use ludlc.Core.State.{Stats}
use ludlc.Framing.Counters.{count_rx_packet}
use ludlc.Framing.Octets.{octets, octets-prefix}
use ludlc.Framing.Filling.{total}
use ludlc.Framing.Csum.{
  CsumAlg, csum_octets, csum_run, csum_start, csum_rx_ok, framed, framed-ok, length-framed,
  start_again,
}
use ludlc.Framing.Hdlc.Sent.{packet_at}
use ludlc.Framing.Hdlc.Stream.{joined}
use ludlc.Framing.Hdlc.RoundTrip.{Fits}
use ludlc.Framing.Raw.{
  Renc, renc_idle, renc_prep, renc_calls, raw_wire_len, Rdec, rdec_idle, rdec_prep, rdec_copy,
  rdec_feed, rdec_close, Rfed,
}
use ludlc.Framing.Raw.Sent.{IsRawPacket, length-raw, renc_calls-framed}
use ludlc.Framing.Raw.Decode.{RawHolds, copy-RawHolds, feed_part, feed_last}

-- A call of ludlc_raw_dec_feed that ends with a packet, after `n` octets.
pub record RawReceived (packet : List ℕ) (n : ℕ) (st : Stats) (fed : Rfed) : Type 0 where
  pub done : fed.done ≡ true
  pub taken : fed.taken ≡ n
  pub stats : fed.stats ≡ st
  pub size : fed.dec.size ≡ length packet
  pub stored_octets : octets fed.dec.payload 0 (length packet) ≡ packet

-- A port that calls the decoder again and again until there is a packet, with the octets it has each
-- time.
unfoldable pub rdec_calls : Option CsumAlg → Rdec → Stats → List (List ℕ) → Rfed
rdec_calls alg d st [] = record { dec = d; stats = st; taken = 0; done = false }
rdec_calls alg d st (src ∷ srcs) =
    let fed = rdec_feed alg d st src in
    let rest = rdec_calls alg fed.dec fed.stats srcs in
    if fed.done then fed else record rest { taken = (rest.taken + fed.taken) }

-- The first octets of two lists that are one.
same_prefix :
    (xs zs rem ys : List ℕ)
    → xs ++ zs ≡ rem ++ ys
    → length xs ≤ length rem
    → (rem ≡ xs ++ drop (length xs) rem) × (zs ≡ drop (length xs) rem ++ ys)
same_prefix [] zs rem ys e h = (refl, e)
same_prefix (x ∷ xs) zs [] ys e h = absurd (omega (arith, h))
same_prefix (x ∷ xs) zs (r ∷ rem) ys e h =
    let ih = same_prefix xs zs rem ys (ap (drop 1) e) (omega (arith, h)) in
    (ap₂ (λ y ws. y ∷ ws) (sym (ap (λ l. get_or l 0 0) e)) ih.0, ih.1)

prefix_taken : (rem xs : List ℕ) → take (length rem) (rem ++ xs) ≡ rem
prefix_taken [] xs = refl
prefix_taken (r ∷ rem) xs = ap (λ ws. r ∷ ws) (prefix_taken rem xs)

-- The end of a good frame.
raw-close :
    (alg : Option CsumAlg) (n : ℕ) (d : Rdec) (st : Stats)
    → csum_octets alg + 2 ≤ d.size
    → csum_rx_ok alg d.csum ≡ true
    → rdec_close alg n d st ≡ record {
      dec = record d { state = rdec_idle; size = (d.size - csum_octets alg) };
      stats = count_rx_packet st;
      taken = n;
      done = true;
    }
raw-close none n d st long ok = ground (arith, long)
raw-close (some alg) n d st long ok = ground (arith, long, ok)

close-RawReceived :
    {start : ℕ} (alg : Option CsumAlg) (packet : List ℕ) (n left : ℕ) (d : Rdec) (st : Stats)
    → RawHolds alg start left (framed alg packet) d
    → 2 ≤ length packet
    → csum_rx_ok alg (csum_run alg start (framed alg packet)) ≡ true
    → RawReceived packet n (count_rx_packet st) (rdec_close alg n d st)
close-RawReceived alg packet n left d st h two ok =
    rw
      (raw-close alg n d st (omega (arith, h.stored.length_is, length-framed alg packet))
        (ap (csum_rx_ok alg) h.stored.sum_is ∙ ok))
      record {
        done = refl;
        taken = refl;
        stats = refl;
        size = omega (arith, h.stored.length_is, length-framed alg packet);
        stored_octets = octets-prefix d.payload 0 packet _ h.stored.octets_are;
      }

with_left :
    {alg : Option CsumAlg} {start left : ℕ} {pre : List ℕ} (n : ℕ) (d : Rdec)
    → RawHolds alg start left pre d
    → RawHolds alg start n pre (record d { sz = n })
with_left n d h = record { in_frame = h.in_frame; stored = h.stored; wanted = refl }

more_taken :
    {packet : List ℕ} {n k : ℕ} {st : Stats} (m : ℕ) (fed : Rfed)
    → RawReceived packet n st fed
    → n + m ≡ k
    → RawReceived packet k st (record fed { taken = (fed.taken + m) })
more_taken m fed r e = record {
  done = r.done;
  taken = ap (λ i. i + m) r.taken ∙ e;
  stats = r.stats;
  size = r.size;
  stored_octets = r.stored_octets;
}

stopped :
    {packet : List ℕ} {n : ℕ} {st : Stats} (fed rest : Rfed)
    → RawReceived packet n st fed
    → RawReceived packet n st (if fed.done then fed else rest)
stopped {packet} {n} {st} fed rest r =
    subst (λ b. RawReceived packet n st (if b then fed else rest)) (sym r.done) r

module _ (alg : Option CsumAlg) (start : ℕ) (packet ys : List ℕ) (two : 2 ≤ length packet)
    (small : length (framed alg packet) < 2 ^ 16)
    (ok : csum_rx_ok alg (csum_run alg start (framed alg packet)) ≡ true) where
  -- The call that gets the frame's last octet.
  last-RawReceived :
      (pre rem src zs : List ℕ) (d : Rdec) (st : Stats)
      → RawHolds alg start (length rem) pre d
      → pre ++ rem ≡ framed alg packet
      → src ++ zs ≡ rem ++ ys
      → length rem ≤ length src
      → RawReceived packet (length rem) (count_rx_packet st) (rdec_feed alg d st src)
  last-RawReceived pre rem src zs d st h e cut many =
      rw
        (
          feed_last d st src h many,
          ap (take (length rem)) (same_prefix rem ys src zs (sym cut) many).0 ∙ prefix_taken rem _,
        )
        (close-RawReceived alg packet (length rem) 0 (rdec_copy alg rem (record d { sz = 0 })) st
          (subst (λ xs. RawHolds alg start 0 xs (rdec_copy alg rem (record d { sz = 0 }))) e
            (copy-RawHolds rem pre (record d { sz = 0 }) (with_left 0 d h)
              (omega (arith, small, ap length e, length-append pre rem))))
          two ok)

  calls-RawReceived :
      (srcs : List (List ℕ)) (pre rem : List ℕ) (d : Rdec) (st : Stats)
      → RawHolds alg start (length rem) pre d
      → pre ++ rem ≡ framed alg packet
      → joined srcs ≡ rem ++ ys
      → 1 ≤ length rem
      → RawReceived packet (length rem) (count_rx_packet st) (rdec_calls alg d st srcs)
  unfolding rdec_calls joined
  calls-RawReceived [] pre rem d st h e cut one =
      absurd (omega (arith, one, ap length cut, length-append rem ys))
  calls-RawReceived (src ∷ srcs) pre rem d st h e cut one =
      elim (Bool-cases (ltb (length src) (length rem))) [
        | inr f ↦
            stopped _ _
              (last-RawReceived pre rem src (joined srcs) d st h e cut (ground (arith, f)))
        | inl f ↦ rw (feed_part d st src h (ltb→lt (length src) (length rem) f)) (
            more_taken (length src) _
              (calls-RawReceived srcs (pre ++ src) (drop (length src) rem)
                (rdec_copy alg src (record d { sz = (length rem - length src) })) st
                (part_held (ltb→lt (length src) (length rem) f))
                (append_assoc pre src (drop (length src) rem)
                  ∙ ap (λ xs. pre ++ xs) (sym (parted (ltb→lt (length src) (length rem) f)).0)
                  ∙ e)
                (parted (ltb→lt (length src) (length rem) f)).1
                (rw (length-drop (length src) rem)
                  (omega (arith, ltb→lt (length src) (length rem) f))))
              (rw (length-drop (length src) rem)
                (omega (arith, ltb→lt (length src) (length rem) f))))
      ]
    where
      parted :
          length src < length rem
          → (rem ≡ src ++ drop (length src) rem) × (joined srcs ≡ drop (length src) rem ++ ys)
      parted few = same_prefix src (joined srcs) rem ys cut (omega (arith, few))

      part_held :
          length src < length rem
          → RawHolds alg start
              (length (drop (length src) rem))
              (pre ++ src)
              (rdec_copy alg src (record d { sz = (length rem - length src) }))
      part_held few =
          copy-RawHolds src pre (record d { sz = (length rem - length src) })
            (rw (length-drop (length src) rem) (with_left (length rem - length src) d h))
            (omega (arith, few, small, ap length e, length-append pre rem))

prepared-RawHolds :
    (alg : Option CsumAlg) (d : Rdec) (buf : ℕ → ℕ) (n : ℕ)
    → 1 ≤ n
    → RawHolds alg (csum_start alg d.csum) n [] (rdec_prep alg d buf n)
unfolding rdec_prep octets csum_run
prepared-RawHolds alg d buf n one = record {
  in_frame = ground (arith, one);
  stored = record { length_is = refl; octets_are = refl; sum_is = refl };
  wanted = refl;
}

-- A packet that the raw encoder sends, idle before, with any room in each call (more in all than
-- framing_raw_wire_len says), and whose octets, and any that follow, are handed on in any pieces to a
-- decoder for which that length was announced, is received: the same octets, that length taken, and one
-- more packet counted. The packet has a header and two or more octets, its length with the checksum is
-- below 2^16, and the checksum keeps what its documentation says.
pub renc_calls-rdec_calls :
    (mem : ℕ → ℕ) (alg : Option CsumAlg) (s : Renc) (hdr hdr_sz payload pay_sz : ℕ)
    (send_eof : Bool) (rooms : List ℕ) (d : Rdec) (buf : ℕ → ℕ) (st : Stats) (srcs : List (List ℕ))
    (ys : List ℕ)
    → s.state ≡ renc_idle
    → IsRawPacket alg hdr hdr_sz
    → raw_wire_len alg hdr_sz pay_sz < total rooms
    → Fits alg (raw_wire_len alg hdr_sz pay_sz) (packet_at mem hdr hdr_sz payload pay_sz)
    → joined srcs
      ≡ (renc_calls mem alg rooms (renc_prep s hdr hdr_sz payload pay_sz send_eof)).0 ++ ys
    → RawReceived
        (packet_at mem hdr hdr_sz payload pay_sz)
        (raw_wire_len alg hdr_sz pay_sz)
        (count_rx_packet st)
        (rdec_calls alg (rdec_prep alg d buf (raw_wire_len alg hdr_sz pay_sz)) st srcs)
renc_calls-rdec_calls mem alg s hdr hdr_sz payload pay_sz send_eof rooms d buf st srcs ys e h enough
      f cut =
    let packet = packet_at mem hdr hdr_sz payload pay_sz in
    let start = csum_start alg d.csum in
    rw (sym (length-raw mem alg hdr hdr_sz payload pay_sz)) (
      calls-RawReceived alg start packet ys f.from_two
        (omega (arith, length-raw mem alg hdr hdr_sz payload pay_sz, f.cap_width))
        (framed-ok alg start packet f.checked f.are_octets (start_again alg d.csum)) srcs []
        (framed alg packet) (rdec_prep alg d buf (length (framed alg packet))) st
        (prepared-RawHolds alg d buf (length (framed alg packet))
          (omega (arith, length-framed alg packet, f.from_two)))
        refl
        (cut
          ∙ ap (λ xs. xs ++ ys)
              (renc_calls-framed mem alg s hdr hdr_sz payload pay_sz send_eof rooms e h enough).0)
        (omega (arith, length-framed alg packet, f.from_two)))
