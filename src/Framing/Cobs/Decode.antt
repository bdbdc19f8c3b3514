-- ===== src/Framing/Cobs/Decode.antt =====
-- What the zero-stuffing decoder stores of a packet's groups (src/lib/ludlc_cobs.c: ludlc_cobs_dec_feed).
use ludlc.Prelude.{
  ℕ, suc, ◌+◌, ◌-◌, ◌%◌, ◌^◌, ◌≤◌, ◌<◌, ◌≡◌, ◌≢◌, refl, ◌∙◌, ap, sym, false, lt→ltb, ◌==◌, Option,
  List, [], ◌∷◌, ◌++◌, All, append_assoc, append-nil, arith, length, length-append, update,
}
use ludlc.Core.State.{Stats}
use ludlc.Framing.Stored.{Stored, Stored-snoc}
use ludlc.Framing.Csum.{CsumAlg, csum_add}
use ludlc.Framing.Cobs.{Cdec, store_byte, cdec_octet, cdec_feed, Cfed}

-- A decoder that has the octets `pre` of a frame, with the checksum of them from `start`.
pub record CobsHolds (alg : Option CsumAlg) (start cap : ℕ) (pre : List ℕ) (d : Cdec) : Type 0 where
  pub room : d.payload_cap ≡ cap
  pub stored : Stored alg start pre d.payload d.size d.csum
  pub not_over : d.over ≡ false

-- More octets taken before.
abbrev pub ctaken_after : ℕ → Cfed → Cfed
ctaken_after n fed = record fed { taken = fed.taken + n }

pub ctaken_twice :
    (n m : ℕ) (fed : Cfed) → ctaken_after n (ctaken_after m fed) ≡ ctaken_after (n + m) fed
ctaken_twice n m fed = ap (λ k. record fed { taken = k }) (omega arith)

-- The decoder with one octet more.
abbrev pub kept : Option CsumAlg → ℕ → Cdec → Cdec
kept alg c d = record d {
  payload = update d.payload d.size c;
  size = (d.size + 1) % 2 ^ 16;
  csum = csum_add alg d.csum c;
}

pub store_byte-fits :
    (alg : Option CsumAlg) (c : ℕ) (d : Cdec)
    → d.size < d.payload_cap
    → store_byte alg c d ≡ kept alg c d
store_byte-fits alg c d fits = rw (lt→ltb d.size d.payload_cap fits) refl

pub kept-CobsHolds :
    {alg : Option CsumAlg} {start cap : ℕ} {pre : List ℕ} (c : ℕ) (d : Cdec)
    → CobsHolds alg start cap pre d
    → length pre < cap
    → cap < 2 ^ 16
    → CobsHolds alg start cap (pre ++ (c ∷ [])) (kept alg c d)
kept-CobsHolds {alg} {start} {cap} {pre} c d h fits small = record {
  room = h.room;
  stored = Stored-snoc c h.stored (omega arith);
  not_over = h.not_over;
}

pub cfeed-step :
    (alg : Option CsumAlg) (c : ℕ) (d d₁ : Cdec) (st st₁ : Stats) (ys : List ℕ)
    → cdec_octet alg c d st ≡ (d₁, st₁, false)
    → cdec_feed alg d st (c ∷ ys) ≡ ctaken_after 1 (cdec_feed alg d₁ st₁ ys)
unfolding cdec_feed
cfeed-step alg c d d₁ st st₁ ys e = rw e refl

octet-data :
    (alg : Option CsumAlg) (c : ℕ) (d : Cdec) (st : Stats)
    → (c == 0) ≡ false
    → d.over ≡ false
    → d.left ≢ 0
    → d.size < d.payload_cap
    → cdec_octet alg c d st ≡ (record (kept alg c d) { left = d.left - 1 }, st, false)
unfolding cdec_octet
octet-data alg c d st h o l fits = ground (arith, h, o, l, fits)

-- What octets of the stream leave: a decoder that has `pre`, with nothing left of its group.
pub record Ran (alg : Option CsumAlg) (start cap : ℕ) (pre wire : List ℕ) (d : Cdec) (st : Stats)
    : Type 0 where
  pub dec : Cdec
  pub holds : CobsHolds alg start cap pre dec
  pub none_left : dec.left ≡ 0
  pub fed :
      (ys : List ℕ)
      → cdec_feed alg d st (wire ++ ys) ≡ ctaken_after (length wire) (cdec_feed alg dec st ys)

no_octets_fed :
    (alg : Option CsumAlg) (d : Cdec) (st : Stats) (ys : List ℕ)
    → cdec_feed alg d st ys ≡ ctaken_after 0 (cdec_feed alg d st ys)
no_octets_fed alg d st ys = ap (λ k. record (cdec_feed alg d st ys) { taken = k }) (omega arith)

-- The octets of a group.
pub feed_run :
    {alg : Option CsumAlg} {start cap : ℕ} (run pre : List ℕ) (d : Cdec) (st : Stats)
    → CobsHolds alg start cap pre d
    → All (λ x. (x == 0) ≡ false) run
    → d.left ≡ length run
    → length pre + length run ≤ cap
    → cap < 2 ^ 16
    → (r : Ran alg start cap (pre ++ run) run d st) × (r.dec.code ≡ d.code)
      × (r.dec.started ≡ d.started)
feed_run {alg} [] pre d st h nz l fits small = (
  record {
    dec = d;
    holds = rw (append-nil pre) h;
    none_left = l;
    fed = λ ys. no_octets_fed alg d st ys;
  },
  refl,
  refl,
)
feed_run {alg} {start} {cap} (x ∷ run) pre d st h nz l fits small =
    let d₁ = record (kept alg x d) { left = d.left - 1 } in
    let (r, code, started) =
      feed_run run (pre ++ (x ∷ [])) d₁ st
        (with_left (d.left - 1) (kept alg x d) (kept-CobsHolds x d h (omega arith) small)) nz.1
        (omega (arith, l)) (rw (length-append pre (x ∷ [])) (omega arith)) small in
    (
      record {
        dec = r.dec;
        holds = rw (sym (append_assoc pre (x ∷ []) run)) r.holds;
        none_left = r.none_left;
        fed = λ ys.
            cfeed-step alg x d d₁ st st (run ++ ys) (
              octet-data alg x d st nz.0 h.not_over (λ e. absurd (omega (arith, e, l)))
                (rw (h.stored.length_is, h.room) (omega arith)))
            ∙ ap (ctaken_after 1) (r.fed ys)
            ∙ ctaken_twice 1 (length run) _
            ∙ ap (λ n. ctaken_after n (cdec_feed alg r.dec st ys)) {y = suc (length run)}
                (omega arith);
      },
      code,
      started,
    )
  where
    with_left :
        {pre : List ℕ} (n : ℕ) (d : Cdec)
        → CobsHolds alg start cap pre d
        → CobsHolds alg start cap pre (record d { left = n })
    with_left n d h = record { stored = h.stored; room = h.room; not_over = h.not_over }
