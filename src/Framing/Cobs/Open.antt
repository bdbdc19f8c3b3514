-- ===== src/Framing/Cobs/Open.antt =====
-- The zero-stuffing encoder opens a group (src/lib/ludlc_cobs.c: case cenc_idle and case cenc_code of
-- ludlc_cobs_enc_fill).
use ludlc.Prelude.{
  ℕ, suc, ◌+◌, ◌<◌, ◌≡◌, ◌≢◌, refl, ◌∙◌, ap, ap₂, sym, Bool, true, false, not, Option, List, [],
  ◌∷◌, ◌++◌, ◌==◌, if◌then◌else◌, append_assoc, append-nil, arith, Bool-cases, inl, inr, length,
  length-append, take_append, drop_append, u8, ne→==-false,
}
use ludlc.Framing.Octets.{octets, length-octets}
use ludlc.Framing.Filling
use ludlc.Framing.Csum.{CsumAlg, csum_start, wire_octets}
use ludlc.Framing.Cobs.{delimiter, block_max}
use ludlc.Framing.Cobs.Groups.{stuffed, run_of, rest_of, after_group, length-run_of}
use ludlc.Framing.Cobs.Unfold.{stuffed-step}
use ludlc.Framing.Cobs.Encode.{
  Cenc, CencFsm, cenc_idle, cenc_code, cenc_data, cenc_open, Scan, scan, scan_from, cenc_busy,
  cenc_start,
}
use ludlc.Framing.Cobs.Ahead.{
  ahead, whole, body_of, Scanning, scan_whole, unshifted, scan_ahead, body_none,
}
use ludlc.Framing.Cobs.Scan.{Scanned, stopped_on, scan-Scanned}
use ludlc.Framing.Cobs.Pending.{
  cenc_ahead, behind_group, group_left, cobs_pending, InGroup, IsCobsLoaded,
}

-- The weight of a state whose round may write nothing.
abbrev pub cfsm_weight : CencFsm → ℕ
cfsm_weight cenc_idle = 0
cfsm_weight cenc_code = 0
cfsm_weight cenc_data = 1

abbrev pub cenc_weight : Cenc → ℕ
cenc_weight s = cfsm_weight s.state

from-Scanning :
    (mem : ℕ → ℕ) (s : Cenc)
    → InGroup mem 0 false s
    → Scanning mem (body_of mem s.ptr s.sz s.payload s.payload_size) [] (scan_from s)
from-Scanning mem s h = record {
  body_done = λ a. omega (arith, h.body_done a);
  not_yet = h.not_yet;
  within = omega arith;
  seen_is =
      ap
        (λ v.
          ahead s.armed (body_of mem s.ptr s.sz s.payload s.payload_size)
            (wire_octets s.csum_left v))
        (sym (unshifted s.csum s.csum_left));
  passed = λ a. rw (body_none mem (scan_from s) (omega (arith, h.body_done a))) (omega arith);
}

abbrev wire_after : ℕ → List ℕ → List ℕ
wire_after r rest = if length rest == 0 then delimiter ∷ [] else stuffed (after_group r rest)

wire_after-zero :
    (r : ℕ) (rest ws : List ℕ)
    → r < block_max
    → rest ≡ delimiter ∷ ws
    → wire_after r rest ≡ stuffed ws
wire_after-zero r rest ws h e =
    ap (wire_after r) e
    ∙ rw
        (
          ne→==-false (suc (length ws)) 0 (λ f. absurd (omega (arith, f))),
          ne→==-false r block_max (λ f. absurd (omega (arith, f, h))),
        )
        refl

wire_after-full :
    (r : ℕ) (rest : List ℕ)
    → r ≡ block_max
    → wire_after r rest ≡ (if not (length rest == 0) then stuffed rest else delimiter ∷ [])
wire_after-full r rest h = elim (Bool-cases (length rest == 0)) [
  | inl e ↦ rw e refl
  | inr e ↦ rw (e, h) refl
]

-- What follows a group that was opened.
opened_behind :
    {mem : ℕ → ℕ} {alg : Option CsumAlg} {body xs : List ℕ} (t : Scan)
    → Scanned mem alg body [] block_max xs 0 t
    → wire_after (length (run_of block_max xs)) (rest_of block_max xs)
      ≡ behind_group alg t.delim
          (t.run == block_max)
          t.armed
          t.csum
          (stopped_on t ++ scan_ahead mem t)
opened_behind {mem} {alg} {body} {xs} t h =
    let run = run_of block_max xs in
    let rest = rest_of block_max xs in
    elim (Bool-cases t.delim) [
      | inl d ↦
          wire_after-zero (length run) rest (scan_whole mem alg t) (h.short d)
            (h.rest_is ∙ ap (λ b. (if b then delimiter ∷ [] else []) ++ scan_whole mem alg t) d)
          ∙ rw d refl
      | inr d ↦
          let rest_is =
            h.rest_is ∙ ap (λ b. (if b then delimiter ∷ [] else []) ++ scan_whole mem alg t) d in
          elim (Bool-cases (t.run == block_max)) [
            | inl f ↦
                wire_after-full (length run) rest (ground (arith, f, h.ran))
                ∙ ap (λ ws. if not (length ws == 0) then stuffed ws else delimiter ∷ []) rest_is
                ∙ rw (d, f) refl
            | inr f ↦
                ap (wire_after (length run)) {y = []} (elim (h.whole_run d) [
                  | inl k ↦ absurd (ground (arith, f, h.ran, k))
                  | inr k ↦ k
                ])
                ∙ rw (d, f) refl
          ]
    ]

-- A group's octets, cut where they end.
group_left-cut :
    (alg : Option CsumAlg) (run : ℕ) (delim full armed : Bool) (csum : ℕ) (xs ys zs : List ℕ)
    → run ≡ length ys
    → xs ≡ ys ++ zs
    → group_left alg run delim full armed csum xs ≡ ys ++ behind_group alg delim full armed csum zs
group_left-cut alg run delim full armed csum xs ys zs e f =
    ap₂ (λ r ws. group_left alg r delim full armed csum ws) {y = length ys + 0} (omega (arith, e)) f
    ∙ ap₂ (λ vs ws. vs ++ behind_group alg delim full armed csum ws)
        (take_append ys zs 0 ∙ append-nil ys) (drop_append ys zs 0)

pub length-body_of : (mem : ℕ → ℕ) (p n q m : ℕ) → length (body_of mem p n q m) ≡ n + m
length-body_of mem p n q m =
    length-append (octets mem p n) (octets mem q m)
    ∙ ap₂ (λ i j. i + j) (length-octets mem p n) (length-octets mem q m)

module _ (mem : ℕ → ℕ) (alg : Option CsumAlg) (s : Cenc) (h : InGroup mem 0 false s) where
  abbrev opened : Scan
  opened = scan mem alg block_max (scan_from s)

  abbrev group : List ℕ
  group = run_of block_max (scan_whole mem alg (scan_from s))

  scanned :
      Scanned mem alg
        (body_of mem s.ptr s.sz s.payload s.payload_size)
        []
        block_max
        (scan_whole mem alg (scan_from s))
        0
        opened
  scanned =
      scan-Scanned mem alg block_max (body_of mem s.ptr s.sz s.payload s.payload_size) []
        (scan_from s) refl refl (from-Scanning mem s h)

  opened_ahead :
      cenc_ahead mem (cenc_open mem alg s).1 ≡ group ++ (stopped_on opened ++ scan_ahead mem opened)
  opened_ahead =
      scanned.goes_on.seen_is ∙ append_assoc group (stopped_on opened) (scan_ahead mem opened)

  opened_wrote :
      stuffed (whole alg s.armed s.csum (cenc_ahead mem s))
      ≡ (cenc_open mem alg s).0 ++ cobs_pending mem alg (cenc_open mem alg s).1
  opened_wrote =
      ap
        (λ v. stuffed (
          whole alg s.armed s.csum (
            ahead s.armed (body_of mem s.ptr s.sz s.payload s.payload_size)
              (wire_octets s.csum_left v))))
        (sym (unshifted s.csum s.csum_left))
      ∙ stuffed-step (scan_whole mem alg (scan_from s))
      ∙ ap₂ (λ c ys. c ∷ (group ++ ys)) {y = u8 (opened.run + 1)}
          (omega (arith, scanned.ran, length-run_of block_max (scan_whole mem alg (scan_from s))))
          (opened_behind opened scanned)
      ∙ ap (λ ys. u8 (opened.run + 1) ∷ ys)
          (sym (
            group_left-cut alg opened.run opened.delim (opened.run == block_max) opened.armed
              opened.csum (cenc_ahead mem (cenc_open mem alg s).1) group _
              (omega (arith, scanned.ran)) opened_ahead))

  opened-InGroup : InGroup mem opened.run opened.delim (cenc_open mem alg s).1
  opened-InGroup =
      let long =
        ap length opened_ahead ∙ length-append group (stopped_on opened ++ scan_ahead mem opened) in
      record {
        body_done = λ a. omega (
          arith,
          scanned.goes_on.passed a,
          length-body_of mem s.ptr s.sz s.payload s.payload_size,
        );
        not_yet = scanned.goes_on.not_yet;
        enough = omega (arith, long, scanned.ran);
        zero_left = λ d. omega (
          arith,
          long,
          scanned.ran,
          ap (λ b. length ((if b then delimiter ∷ [] else []) ++ scan_ahead mem opened)) d,
        );
      }

pub code-Stepped :
    (mem : ℕ → ℕ) (alg : Option CsumAlg) (room : ℕ) (s : Cenc)
    → IsCobsLoaded mem (record s { state = cenc_code })
    → Filling.Stepped cenc_busy
        (cobs_pending mem alg)
        (IsCobsLoaded mem)
        cenc_weight
        (suc room)
        (record s { state = cenc_code })
        (cenc_open mem alg (record s { state = cenc_code }))
code-Stepped mem alg room s l = record {
  wrote = opened_wrote mem alg (record s { state = cenc_code }) l.phase;
  fits = omega arith;
  loaded = record {
    hdr_some = l.hdr_some;
    phase = opened-InGroup mem alg (record s { state = cenc_code }) l.phase;
  };
  goes_on = λ e f. absurd (omega (arith, e));
}

abbrev started : Option CsumAlg → Cenc → Cenc
started alg s = record s {
  ptr = s.hdr;
  sz = s.hdr_size;
  csum_left = 0;
  csum = csum_start alg s.csum;
  state = cenc_code;
}

started-IsCobsLoaded :
    (mem : ℕ → ℕ) (alg : Option CsumAlg) (s : Cenc)
    → s.armed ≡ false
    → s.hdr ≢ 0
    → IsCobsLoaded mem (started alg s)
started-IsCobsLoaded mem alg s a h = record {
  hdr_some = inr h;
  phase = record {
    body_done = λ f. absurd (ground (arith, a, f));
    not_yet = λ f. refl;
    enough = omega arith;
    zero_left = λ f. absurd (ground (arith, f));
  };
}

pub idle-Stepped :
    (mem : ℕ → ℕ) (alg : Option CsumAlg) (room : ℕ) (s : Cenc)
    → cenc_busy (record s { state = cenc_idle }) ≡ true
    → IsCobsLoaded mem (record s { state = cenc_idle })
    → Filling.Stepped cenc_busy
        (cobs_pending mem alg)
        (IsCobsLoaded mem)
        cenc_weight
        (suc room)
        (record s { state = cenc_idle })
        (cenc_start mem alg (record s { state = cenc_idle }))
idle-Stepped mem alg room s b l =
    let some : (s.hdr_size == 0) ≡ false = ground (arith, b) in
    let at : s.hdr ≢ 0 = ground (arith, b, l.hdr_some) in
    let r = code-Stepped mem alg room (started alg s) (started-IsCobsLoaded mem alg s l.phase at) in
    rw (some, ne→==-false s.hdr 0 at)
      record {
        wrote = rw (some, l.phase) refl ∙ r.wrote;
        fits = r.fits;
        loaded = r.loaded;
        goes_on = λ e f. absurd (omega (arith, e));
      }
