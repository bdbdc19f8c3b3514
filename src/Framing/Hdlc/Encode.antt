-- ===== src/Framing/Hdlc/Encode.antt =====
-- What the escaping encoder still has to write (src/lib/ludlc_hdlc.c: ludlc_hdlc_enc_fill).
use ludlc.Prelude.{
  ℕ, ◌+◌, ◌-◌, ◌≤◌, ◌≡◌, ◌≢◌, refl, ◌∙◌, ap, ap₂, sym, Bool, false, Option, none, some, List, [],
  ◌∷◌, ◌++◌, ◌==◌, if◌then◌else◌, append_assoc, append-nil, arith, Bool-cases, inl, inr,
}
use ludlc.Framing.Octets.{octets, octets-step, no_octets}
use ludlc.Framing.Csum.{CsumAlg, csum_start, csum_add, csum_run, wire_octets, trailer, framed_from}
use ludlc.Framing.Hdlc.{
  sof, Henc, HencFsm, enc_idle, enc_data, enc_csum, enc_check_send_eof, enc_esc, enc_advance,
  enc_close, enc_busy, put_octet, less,
}
use ludlc.Framing.Hdlc.Escape.{hide, escape}

abbrev pub eof : Bool → List ℕ
eof b = if b then sof ∷ [] else []

module _ (mem : ℕ → ℕ) (alg : Option CsumAlg) where
  -- The octets that the encoder reads from a state of its machine that is no escape.
  abbrev pub pending_plain : HencFsm → Henc → List ℕ
  pending_plain enc_idle s =
      if s.hdr_size == 0
      then []
      else sof
        ∷ (escape (
              framed_from alg (csum_start alg s.csum)
                (octets mem s.hdr s.hdr_size ++ octets mem s.payload s.payload_size))
            ++ eof s.send_eof)
  pending_plain enc_data s =
      escape (framed_from alg s.csum (octets mem s.ptr s.sz ++ octets mem s.payload s.payload_size))
      ++ eof s.send_eof
  pending_plain enc_csum s = escape (wire_octets s.sz s.csum) ++ eof s.send_eof
  pending_plain enc_check_send_eof s = eof s.send_eof
  pending_plain enc_esc s = []

  abbrev pub pending_at : HencFsm → Henc → List ℕ
  pending_at enc_idle s = pending_plain enc_idle s
  pending_at enc_data s = pending_plain enc_data s
  pending_at enc_csum s = pending_plain enc_csum s
  pending_at enc_check_send_eof s = pending_plain enc_check_send_eof s
  pending_at enc_esc s = s.esc_data ∷ pending_plain s.esc_state s

  -- What the encoder still has to write.
  abbrev pub pending : Henc → List ℕ
  pending s = pending_at s.state s

-- A segment or a checksum that is being sent has octets left.
abbrev pub SizeOk : HencFsm → ℕ → Type 0
SizeOk enc_idle sz = ⊥
SizeOk enc_data sz = (1 ≤ sz) × (sz ≤ 255)
SizeOk enc_csum sz = (1 ≤ sz) × (sz ≤ 255)
SizeOk enc_check_send_eof sz = Unit
SizeOk enc_esc sz = ⊥

abbrev pub PhaseOk : HencFsm → HencFsm → ℕ → Type 0
PhaseOk enc_idle back sz = Unit
PhaseOk enc_data back sz = SizeOk enc_data sz
PhaseOk enc_csum back sz = SizeOk enc_csum sz
PhaseOk enc_check_send_eof back sz = Unit
PhaseOk enc_esc back sz = SizeOk back sz

abbrev pub WidthOk : Option CsumAlg → Type 0
WidthOk none = Unit {0}
WidthOk (some alg) = (1 ≤ alg.octets) × (alg.octets ≤ 255)

-- An encoder with a packet in memory, or none.
pub record IsLoaded (alg : Option CsumAlg) (s : Henc) : Type 0 where
  pub hdr_some : s.hdr ≢ 0
  pub hdr_bound : s.hdr_size ≤ 255
  pub payload_bound : s.payload_size ≤ 255
  pub width : WidthOk alg
  pub phase : PhaseOk s.state s.esc_state s.sz

abbrev pub write : Option ℕ → List ℕ → List ℕ
write none out = out
write (some c) out = c ∷ out

-- What one round does.
pub record Rounded (mem : ℕ → ℕ) (alg : Option CsumAlg) (s : Henc) (out : Option ℕ × Henc)
    : Type 0 where
  pub wrote : pending mem alg s ≡ write out.0 (pending mem alg out.1)
  pub loaded : IsLoaded alg out.1
  pub last : out.0 ≡ none → enc_busy out.1 ≡ false

-- The choice of an octet's form.
pub put_octet-pending :
    (mem : ℕ → ℕ) (alg : Option CsumAlg) (c : ℕ) (f : HencFsm) (s : Henc)
    → pending_plain mem alg f s ≡ pending_at mem alg f s
    → write
        (put_octet c (record s { state = f })).0
        (pending mem alg (put_octet c (record s { state = f })).1)
      ≡ hide c ++ pending_at mem alg f s
unfolding hide
put_octet-pending mem alg c enc_idle s e = ground arith
put_octet-pending mem alg c enc_data s e = ground arith
put_octet-pending mem alg c enc_csum s e = ground arith
put_octet-pending mem alg c enc_check_send_eof s e = ground arith
put_octet-pending mem alg c enc_esc s e = ground (arith, e)

-- The encoder after an octet of a segment.
abbrev pub advanced : (ℕ → ℕ) → Option CsumAlg → Henc → Henc
advanced mem alg s = enc_advance mem alg (record s { state = enc_data })

close-pending :
    (mem : ℕ → ℕ) (alg : Option CsumAlg) (s : Henc)
    → pending_plain mem alg (enc_close alg s).state (enc_close alg s)
      ≡ escape (trailer alg s.csum) ++ eof s.send_eof
unfolding escape wire_octets
close-pending mem none s = refl
close-pending mem (some alg) s = refl

-- The octets behind the one being sent.
advance-pending :
    (mem : ℕ → ℕ) (alg : Option CsumAlg) (s : Henc)
    → 1 ≤ s.sz
    → s.sz ≤ 255
    → pending_plain mem alg (advanced mem alg s).state (advanced mem alg s)
      ≡ escape (
          framed_from alg
            (csum_add alg s.csum (mem s.ptr))
            (octets mem (s.ptr + 1) (s.sz - 1) ++ octets mem s.payload s.payload_size))
        ++ eof s.send_eof
unfolding csum_run
advance-pending mem alg s one top = elim (Bool-cases (less s.sz == 0)) [
  | inr e ↦ rw e (
      ap (λ n. behind (octets mem (s.ptr + 1) n ++ octets mem s.payload s.payload_size))
        (omega arith))
  | inl e ↦ elim (Bool-cases (s.payload_size == 0)) [
    | inr f ↦
        rw (e, f)
          (ap behind (
            ap (λ xs. octets mem s.payload s.payload_size ++ xs) (no_octets mem s.payload 0 refl)
            ∙ append-nil (octets mem s.payload s.payload_size)
            ∙ ap (λ xs. xs ++ octets mem s.payload s.payload_size)
                (sym (no_octets mem (s.ptr + 1) (s.sz - 1) (ground (arith, e))))))
    | inl f ↦
        rw (e, f)
          (close-pending mem alg _
            ∙ ap behind (
                sym (
                  ap₂ (λ xs ys. xs ++ ys) (no_octets mem (s.ptr + 1) (s.sz - 1) (ground (arith, e)))
                    (no_octets mem s.payload s.payload_size (ground (arith, f))))))
  ]
]
  where
    behind : List ℕ → List ℕ
    behind xs = escape (framed_from alg (csum_add alg s.csum (mem s.ptr)) xs) ++ eof s.send_eof

-- The state after an octet of a segment is no escape.
pub advance-plain :
    (mem : ℕ → ℕ) (alg : Option CsumAlg) (s : Henc)
    → pending_plain mem alg (advanced mem alg s).state (advanced mem alg s)
      ≡ pending_at mem alg (advanced mem alg s).state (advanced mem alg s)
advance-plain mem none s = ground arith
advance-plain mem (some alg) s = ground arith

-- The whole of what is pending in a segment.
pub data-pending :
    (mem : ℕ → ℕ) (alg : Option CsumAlg) (s : Henc)
    → 1 ≤ s.sz
    → s.sz ≤ 255
    → pending_plain mem alg enc_data s
      ≡ hide (mem s.ptr) ++ pending_at mem alg (advanced mem alg s).state (advanced mem alg s)
unfolding escape csum_run
data-pending mem alg s one top =
    ap
      (λ xs.
        escape (framed_from alg s.csum (xs ++ octets mem s.payload s.payload_size))
        ++ eof s.send_eof)
      (octets-step mem s.ptr s.sz (omega arith))
    ∙ append_assoc (hide (mem s.ptr)) _ (eof s.send_eof)
    ∙ ap (λ xs. hide (mem s.ptr) ++ xs)
        (sym (advance-pending mem alg s one top) ∙ advance-plain mem alg s)
