-- ===== src/Framing/Raw/Encode.antt =====
-- What the raw encoder still has to write (src/lib/ludlc_raw.c: ludlc_raw_enc_fill).
use ludlc.Prelude.{
  ℕ, suc, ◌+◌, ◌-◌, ◌/◌, ◌%◌, ◌≤◌, ◌≡◌, ◌≢◌, ◌⊎◌, min, refl, ◌∙◌, ap, ap₂, sym, true, false, not,
  Option, none, some, List, [], ◌∷◌, ◌++◌, ◌==◌, ne→==-false, if◌then◌else◌, append_assoc,
  append-nil, arith, Bool-cases, inl, inr,
}
use ludlc.Framing.Octets.{octets, length-octets, no_octets, octets-split}
use ludlc.Framing.Filling
use ludlc.Framing.Csum.{
  CsumAlg, csum_start, csum_run, csum_run-append, wire_octets, wire_octets-step, trailer,
  framed_from,
}
use ludlc.Framing.Raw.{
  Renc, RencFsm, renc_idle, renc_data, renc_csum, renc_busy, renc_run, renc_start, renc_shift,
  renc_close, renc_round, renc_at,
}

abbrev raw_pending_at : (ℕ → ℕ) → Option CsumAlg → RencFsm → Renc → List ℕ
raw_pending_at mem alg renc_idle s =
    if s.hdr_size == 0
    then []
    else framed_from alg (csum_start alg s.csum)
        (octets mem s.hdr s.hdr_size ++ octets mem s.payload s.payload_size)
raw_pending_at mem alg renc_data s =
    framed_from alg s.csum (octets mem s.ptr s.sz ++ octets mem s.payload s.payload_size)
raw_pending_at mem alg renc_csum s = wire_octets s.sz s.csum

-- What the encoder still has to write.
abbrev pub raw_pending : (ℕ → ℕ) → Option CsumAlg → Renc → List ℕ
raw_pending mem alg s = raw_pending_at mem alg s.state s

-- The state after a run that ends with `sz` octets of it left.
abbrev ran : Option CsumAlg → Renc → Renc
ran alg s =
    if not (s.sz == 0)
    then s
    else if not (s.payload_size == 0)
    then record s { ptr = s.payload; sz = s.payload_size; payload_size = 0 }
    else renc_close alg s

close-pending :
    (mem : ℕ → ℕ) (alg : Option CsumAlg) (s : Renc)
    → raw_pending mem alg (renc_close alg s) ≡ trailer alg s.csum
unfolding wire_octets
close-pending mem none s = refl
close-pending mem (some alg) s = refl

ran-pending :
    (mem : ℕ → ℕ) (alg : Option CsumAlg) (s : Renc)
    → raw_pending mem alg (ran alg (record s { state = renc_data }))
      ≡ framed_from alg s.csum (octets mem s.ptr s.sz ++ octets mem s.payload s.payload_size)
unfolding csum_run
ran-pending mem alg s = elim (Bool-cases (s.sz == 0)) [
  | inr e ↦ rw e refl
  | inl e ↦ elim (Bool-cases (s.payload_size == 0)) [
    | inr f ↦
        rw (e, f)
          (ap (framed_from alg s.csum) (
            ap (λ xs. octets mem s.payload s.payload_size ++ xs) (no_octets mem s.payload 0 refl)
            ∙ append-nil (octets mem s.payload s.payload_size)
            ∙ ap (λ xs. xs ++ octets mem s.payload s.payload_size)
                (sym (no_octets mem s.ptr s.sz (ground (arith, e))))))
    | inl f ↦
        rw (e, f)
          (close-pending mem alg (record s { state = renc_data })
            ∙ ap (framed_from alg s.csum) (
                sym (
                  ap₂ (λ xs ys. xs ++ ys) (no_octets mem s.ptr s.sz (ground (arith, e)))
                    (no_octets mem s.payload s.payload_size (ground (arith, f))))))
  ]
]

framed_from-append :
    (alg : Option CsumAlg) (sum : ℕ) (xs ys : List ℕ)
    → framed_from alg sum (xs ++ ys) ≡ xs ++ framed_from alg (csum_run alg sum xs) ys
framed_from-append alg sum xs ys =
    ap (λ c. (xs ++ ys) ++ trailer alg c) (csum_run-append alg sum xs ys)
    ∙ append_assoc xs ys (trailer alg (csum_run alg (csum_run alg sum xs) ys))

-- The octets behind those that a run wrote.
run-pending :
    (mem : ℕ → ℕ) (alg : Option CsumAlg) (room : ℕ) (s : Renc)
    → framed_from alg s.csum (octets mem s.ptr s.sz ++ octets mem s.payload s.payload_size)
      ≡ (renc_run mem alg room (record s { state = renc_data })).0
        ++ raw_pending mem alg (renc_run mem alg room (record s { state = renc_data })).1
run-pending mem alg room s =
    let len = min room s.sz in
    let out = octets mem s.ptr len in
    let rest = octets mem (s.ptr + len) (s.sz - len) in
    let pay = octets mem s.payload s.payload_size in
    ap (λ xs. framed_from alg s.csum (xs ++ pay))
      (ap (octets mem s.ptr) (omega arith) ∙ octets-split mem s.ptr len (s.sz - len))
    ∙ ap (framed_from alg s.csum) (append_assoc out rest pay)
    ∙ framed_from-append alg s.csum out (rest ++ pay)
    ∙ ap (λ xs. out ++ xs)
        (sym (
          ran-pending mem alg
            (record s { ptr = s.ptr + len; csum = csum_run alg s.csum out; sz = s.sz - len })))

abbrev RawPhase : RencFsm → ℕ → Type 0
RawPhase renc_idle sz = Unit
RawPhase renc_data sz = 1 ≤ sz
RawPhase renc_csum sz = 1 ≤ sz

abbrev pub RawWidth : Option CsumAlg → Type 0
RawWidth none = Unit {0}
RawWidth (some alg) = 1 ≤ alg.octets

-- An encoder with a packet in memory, or none.
pub record IsRawLoaded (alg : Option CsumAlg) (s : Renc) : Type 0 where
  pub hdr_some : (s.hdr_size ≡ 0) ⊎ (s.hdr ≢ 0)
  pub width : RawWidth alg
  pub phase : RawPhase s.state s.sz

run-IsRawLoaded :
    (mem : ℕ → ℕ) (alg : Option CsumAlg) (room : ℕ) (s : Renc)
    → (s.hdr_size ≡ 0) ⊎ (s.hdr ≢ 0)
    → RawWidth alg
    → IsRawLoaded alg (renc_run mem alg room (record s { state = renc_data })).1
run-IsRawLoaded mem none room s h w = ground (arith, h)
run-IsRawLoaded mem (some alg) room s h w = ground (arith, h, w)

run-Rounded :
    (mem : ℕ → ℕ) (alg : Option CsumAlg) (room : ℕ) (s : Renc)
    → (s.hdr_size ≡ 0) ⊎ (s.hdr ≢ 0)
    → RawWidth alg
    → 1 ≤ s.sz
    → Filling.Rounded renc_busy
        (raw_pending mem alg)
        (IsRawLoaded alg)
        (suc room)
        (record s { state = renc_data })
        (renc_run mem alg (suc room) (record s { state = renc_data }))
run-Rounded mem alg room s h w z = record {
  wrote = run-pending mem alg (suc room) s;
  fits = rw (length-octets mem s.ptr (min (suc room) s.sz)) (omega arith);
  loaded = run-IsRawLoaded mem alg (suc room) s h w;
  last = λ e. absurd (omega (arith, e, length-octets mem s.ptr (min (suc room) s.sz), z));
}

start-Rounded :
    (mem : ℕ → ℕ) (alg : Option CsumAlg) (room : ℕ) (s : Renc)
    → renc_busy (record s { state = renc_idle }) ≡ true
    → IsRawLoaded alg (record s { state = renc_idle })
    → Filling.Rounded renc_busy
        (raw_pending mem alg)
        (IsRawLoaded alg)
        (suc room)
        (record s { state = renc_idle })
        (renc_start mem alg (suc room) (record s { state = renc_idle }))
start-Rounded mem alg room s b l =
    rw (started.0, ne→==-false s.hdr 0 started.1)
      record {
        wrote = ap (λ t. if t then [] else whole) started.0 ∙ r.wrote;
        fits = r.fits;
        loaded = r.loaded;
        last = r.last;
      }
  where
    started : ((s.hdr_size == 0) ≡ false) × (s.hdr ≢ 0)
    started = ground (arith, b, l.hdr_some)

    first : Renc
    first = record s {
      csum = csum_start alg s.csum;
      ptr = s.hdr;
      sz = s.hdr_size;
      state = renc_data;
    }

    whole : List ℕ
    whole =
        framed_from alg (csum_start alg s.csum)
          (octets mem s.hdr s.hdr_size ++ octets mem s.payload s.payload_size)

    r :
        Filling.Rounded renc_busy
          (raw_pending mem alg)
          (IsRawLoaded alg)
          (suc room)
          first
          (renc_run mem alg (suc room) first)
    r = run-Rounded mem alg room first l.hdr_some l.width (ground (arith, b))

shift-pending :
    (mem : ℕ → ℕ) (alg : Option CsumAlg) (s : Renc)
    → wire_octets (s.sz - 1) (s.csum / 256)
      ≡ raw_pending mem alg (renc_shift (record s { state = renc_csum })).1
unfolding wire_octets
shift-pending mem alg s = elim (Bool-cases (s.sz - 1 == 0)) [
  | inl e ↦ rw e (ap (λ n. wire_octets n (s.csum / 256)) {y = 0} (ground (arith, e)))
  | inr e ↦ rw e refl
]

shift-Rounded :
    (mem : ℕ → ℕ) (alg : Option CsumAlg) (room : ℕ) (s : Renc)
    → IsRawLoaded alg (record s { state = renc_csum })
    → Filling.Rounded renc_busy
        (raw_pending mem alg)
        (IsRawLoaded alg)
        (suc room)
        (record s { state = renc_csum })
        (renc_shift (record s { state = renc_csum }))
shift-Rounded mem alg room s l = record {
  wrote =
      wire_octets-step s.sz s.csum (omega (arith, l.phase))
      ∙ ap (λ xs. s.csum % 256 ∷ xs) (shift-pending mem alg s);
  fits = omega arith;
  loaded = ground (arith, l.hdr_some, l.width, l.phase);
  last = λ e. absurd (omega (arith, e));
}

raw_at-Rounded :
    (mem : ℕ → ℕ) (alg : Option CsumAlg) (f : RencFsm) (room : ℕ) (s : Renc)
    → renc_busy (record s { state = f }) ≡ true
    → IsRawLoaded alg (record s { state = f })
    → Filling.Rounded renc_busy
        (raw_pending mem alg)
        (IsRawLoaded alg)
        (suc room)
        (record s { state = f })
        (renc_at f mem alg (suc room) (record s { state = f }))
raw_at-Rounded mem alg renc_idle room s b l = start-Rounded mem alg room s b l
raw_at-Rounded mem alg renc_data room s b l = run-Rounded mem alg room s l.hdr_some l.width l.phase
raw_at-Rounded mem alg renc_csum room s b l = shift-Rounded mem alg room s l

pub raw_round-Rounded :
    (mem : ℕ → ℕ) (alg : Option CsumAlg) (room : ℕ) (s : Renc)
    → renc_busy s ≡ true
    → IsRawLoaded alg s
    → Filling.Rounded renc_busy
        (raw_pending mem alg)
        (IsRawLoaded alg)
        (suc room)
        s
        (renc_round mem alg (suc room) s)
raw_round-Rounded mem alg room s b l = raw_at-Rounded mem alg s.state room s b l

pub raw_idle-pending :
    (mem : ℕ → ℕ) (alg : Option CsumAlg) (s : Renc)
    → renc_busy s ≡ false
    → raw_pending mem alg s ≡ []
raw_idle-pending mem alg s b = idle_at s.state s b
  where
    idle_at :
        (f : RencFsm) (s : Renc)
        → renc_busy (record s { state = f }) ≡ false
        → raw_pending mem alg (record s { state = f }) ≡ []
    idle_at renc_idle s b = ground (arith, b)
    idle_at renc_data s b = absurd (ground (arith, b))
    idle_at renc_csum s b = absurd (ground (arith, b))
