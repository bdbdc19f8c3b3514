-- ===== src/Framing/Hdlc/Round.antt =====
-- One round of the loop of ludlc_hdlc_enc_fill against what the encoder has to write.
use ludlc.Prelude.{
  ℕ, ◌-◌, ◌/◌, ◌%◌, ◌≤◌, ◌≡◌, ◌≢◌, refl, ◌∙◌, ap, sym, true, false, Option, none, some, [], ◌++◌,
  ◌==◌, append_assoc, arith, Bool-cases, inl, inr,
}
use ludlc.Framing.Csum.{CsumAlg, wire_octets, wire_octets-step}
use ludlc.Framing.Hdlc.{
  Henc, HencFsm, enc_idle, enc_data, enc_csum, enc_check_send_eof, enc_esc, enc_at, enc_round,
  enc_shift, enc_busy, put_octet, less,
}
use ludlc.Framing.Hdlc.Escape.{hide, escape}
use ludlc.Framing.Hdlc.Encode.{
  pending, pending_at, pending_plain, eof, IsLoaded, Rounded, SizeOk, put_octet-pending,
  data-pending, advance-plain, advanced,
}

put_octet-some : (c : ℕ) (s : Henc) → (put_octet c s).0 ≢ none
put_octet-some c s e = ground (arith, e)

put_octet-IsLoaded :
    {alg : Option CsumAlg} (c : ℕ) (s : Henc)
    → IsLoaded alg s
    → SizeOk s.state s.sz
    → IsLoaded alg (put_octet c s).1
put_octet-IsLoaded c s l z =
    ground (arith, l.hdr_some, l.hdr_bound, l.payload_bound, l.width, l.phase, z)

advanced-SizeOk :
    (mem : ℕ → ℕ) (alg : Option CsumAlg) (s : Henc)
    → IsLoaded alg (record s { state = enc_data })
    → SizeOk (advanced mem alg s).state (advanced mem alg s).sz
advanced-SizeOk mem none s l = ground (arith, l.payload_bound, l.phase)
advanced-SizeOk mem (some alg) s l = ground (arith, l.payload_bound, l.phase, l.width)

advanced-IsLoaded :
    (mem : ℕ → ℕ) (alg : Option CsumAlg) (s : Henc)
    → IsLoaded alg (record s { state = enc_data })
    → IsLoaded alg (advanced mem alg s)
advanced-IsLoaded mem none s l = ground (arith, l.hdr_some, l.hdr_bound, l.payload_bound, l.phase)
advanced-IsLoaded mem (some alg) s l =
    ground (arith, l.hdr_some, l.hdr_bound, l.payload_bound, l.width, l.phase)

round_data :
    (mem : ℕ → ℕ) (alg : Option CsumAlg) (s : Henc)
    → IsLoaded alg (record s { state = enc_data })
    → Rounded mem alg
        (record s { state = enc_data })
        (enc_at enc_data mem alg (record s { state = enc_data }))
round_data mem alg s l = record {
  wrote =
      data-pending mem alg s l.phase.0 l.phase.1
      ∙ sym (
          put_octet-pending mem alg (mem s.ptr) (advanced mem alg s).state (advanced mem alg s)
            (advance-plain mem alg s));
  loaded =
      put_octet-IsLoaded (mem s.ptr) (advanced mem alg s) (advanced-IsLoaded mem alg s l)
        (advanced-SizeOk mem alg s l);
  last = λ e. absurd (put_octet-some (mem s.ptr) (advanced mem alg s) e);
}

-- The encoder after an octet of the checksum.
abbrev shifted : Henc → Henc
shifted s = enc_shift (record s { state = enc_csum })

shift-SizeOk :
    {alg : Option CsumAlg} (s : Henc)
    → IsLoaded alg (record s { state = enc_csum })
    → SizeOk (shifted s).state (shifted s).sz
shift-SizeOk s l = ground (arith, l.phase)

shift-IsLoaded :
    {alg : Option CsumAlg} (s : Henc)
    → IsLoaded alg (record s { state = enc_csum })
    → IsLoaded alg (shifted s)
shift-IsLoaded s l = ground (arith, l.hdr_some, l.hdr_bound, l.payload_bound, l.width, l.phase)

shift-plain :
    (mem : ℕ → ℕ) (alg : Option CsumAlg) (s : Henc)
    → pending_plain mem alg (shifted s).state (shifted s)
      ≡ pending_at mem alg (shifted s).state (shifted s)
shift-plain mem alg s = ground arith

-- The octets of the checksum behind the one being sent.
shift-pending :
    (mem : ℕ → ℕ) (alg : Option CsumAlg) (s : Henc)
    → 1 ≤ s.sz
    → s.sz ≤ 255
    → escape (wire_octets (s.sz - 1) (s.csum / 256)) ++ eof s.send_eof
      ≡ pending_plain mem alg (shifted s).state (shifted s)
unfolding wire_octets escape
shift-pending mem alg s one top = elim (Bool-cases (less s.sz == 0)) [
  | inl e ↦ rw e (
      ap (λ n. escape (wire_octets n (s.csum / 256)) ++ eof s.send_eof) {y = 0} (ground (arith, e)))
  | inr e ↦ rw e (ap (λ n. escape (wire_octets n (s.csum / 256)) ++ eof s.send_eof) (omega arith))
]

csum-pending :
    (mem : ℕ → ℕ) (alg : Option CsumAlg) (s : Henc)
    → 1 ≤ s.sz
    → s.sz ≤ 255
    → pending_plain mem alg enc_csum s
      ≡ hide (s.csum % 256) ++ pending_at mem alg (shifted s).state (shifted s)
unfolding escape
csum-pending mem alg s one top =
    ap (λ xs. escape xs ++ eof s.send_eof) (wire_octets-step s.sz s.csum (omega arith))
    ∙ append_assoc (hide (s.csum % 256)) _ (eof s.send_eof)
    ∙ ap (λ xs. hide (s.csum % 256) ++ xs) (shift-pending mem alg s one top ∙ shift-plain mem alg s)

round_csum :
    (mem : ℕ → ℕ) (alg : Option CsumAlg) (s : Henc)
    → IsLoaded alg (record s { state = enc_csum })
    → Rounded mem alg
        (record s { state = enc_csum })
        (enc_at enc_csum mem alg (record s { state = enc_csum }))
round_csum mem alg s l = record {
  wrote =
      csum-pending mem alg s l.phase.0 l.phase.1
      ∙ sym (
          put_octet-pending mem alg (s.csum % 256) (shifted s).state (shifted s)
            (shift-plain mem alg s));
  loaded = put_octet-IsLoaded (s.csum % 256) (shifted s) (shift-IsLoaded s l) (shift-SizeOk s l);
  last = λ e. absurd (put_octet-some (s.csum % 256) (shifted s) e);
}

round_eof :
    (mem : ℕ → ℕ) (alg : Option CsumAlg) (s : Henc)
    → IsLoaded alg (record s { state = enc_check_send_eof })
    → Rounded mem alg
        (record s { state = enc_check_send_eof })
        (enc_at enc_check_send_eof mem alg (record s { state = enc_check_send_eof }))
round_eof mem alg s l = record {
  wrote = ground arith;
  loaded = ground (arith, l.hdr_some, l.hdr_bound, l.payload_bound, l.width);
  last = λ e. refl;
}

round_idle :
    (mem : ℕ → ℕ) (alg : Option CsumAlg) (s : Henc)
    → enc_busy (record s { state = enc_idle }) ≡ true
    → IsLoaded alg (record s { state = enc_idle })
    → Rounded mem alg
        (record s { state = enc_idle })
        (enc_at enc_idle mem alg (record s { state = enc_idle }))
round_idle mem alg s b l = record {
  wrote = ground (arith, b, l.hdr_some);
  loaded = ground (arith, b, l.hdr_some, l.hdr_bound, l.payload_bound, l.width);
  last = λ e. ground (arith, e);
}

round_esc :
    (mem : ℕ → ℕ) (alg : Option CsumAlg) (f : HencFsm) (s : Henc)
    → IsLoaded alg (record s { state = enc_esc; esc_state = f })
    → Rounded mem alg
        (record s { state = enc_esc; esc_state = f })
        (enc_at enc_esc mem alg (record s { state = enc_esc; esc_state = f }))
round_esc mem alg enc_idle s l = absurd l.phase
round_esc mem alg enc_data s l = record {
  wrote = refl;
  loaded = ground (arith, l.hdr_some, l.hdr_bound, l.payload_bound, l.width, l.phase);
  last = λ e. ground (arith, e);
}
round_esc mem alg enc_csum s l = record {
  wrote = refl;
  loaded = ground (arith, l.hdr_some, l.hdr_bound, l.payload_bound, l.width, l.phase);
  last = λ e. ground (arith, e);
}
round_esc mem alg enc_check_send_eof s l = record {
  wrote = refl;
  loaded = ground (arith, l.hdr_some, l.hdr_bound, l.payload_bound, l.width, l.phase);
  last = λ e. ground (arith, e);
}
round_esc mem alg enc_esc s l = absurd l.phase

-- Any round of an encoder that is busy.
round_at :
    (mem : ℕ → ℕ) (alg : Option CsumAlg) (f : HencFsm) (s : Henc)
    → enc_busy (record s { state = f }) ≡ true
    → IsLoaded alg (record s { state = f })
    → Rounded mem alg (record s { state = f }) (enc_at f mem alg (record s { state = f }))
round_at mem alg enc_idle s b l = round_idle mem alg s b l
round_at mem alg enc_data s b l = round_data mem alg s l
round_at mem alg enc_csum s b l = round_csum mem alg s l
round_at mem alg enc_check_send_eof s b l = round_eof mem alg s l
round_at mem alg enc_esc s b l = round_esc mem alg s.esc_state s l

pub enc_round-Rounded :
    (mem : ℕ → ℕ) (alg : Option CsumAlg) (s : Henc)
    → enc_busy s ≡ true
    → IsLoaded alg s
    → Rounded mem alg s (enc_round mem alg s)
enc_round-Rounded mem alg s b l = round_at mem alg s.state s b l

-- An encoder that is not busy has nothing to write.
pub idle-pending :
    (mem : ℕ → ℕ) (alg : Option CsumAlg) (s : Henc) → enc_busy s ≡ false → pending mem alg s ≡ []
idle-pending mem alg s b = idle_at s.state s b
  where
    idle_at :
        (f : HencFsm) (s : Henc)
        → enc_busy (record s { state = f }) ≡ false
        → pending mem alg (record s { state = f }) ≡ []
    idle_at enc_idle s b = ground (arith, b)
    idle_at enc_data s b = absurd (ground (arith, b))
    idle_at enc_csum s b = absurd (ground (arith, b))
    idle_at enc_check_send_eof s b = absurd (ground (arith, b))
    idle_at enc_esc s b = absurd (ground (arith, b))
