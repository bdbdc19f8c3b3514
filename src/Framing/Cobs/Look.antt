-- ===== src/Framing/Cobs/Look.antt =====
-- What one step of the scan of the zero-stuffing encoder takes (src/lib/ludlc_cobs.c: case cenc_code of
-- ludlc_cobs_enc_fill).
use ludlc.Prelude.{
  ℕ, ◌+◌, ◌-◌, ◌/◌, ◌*◌, ◌%◌, ◌^◌, ◌≤◌, ◌≡◌, refl, ◌∙◌, ap, ap₂, sym, true, false, Option, none,
  some, List, [], ◌∷◌, ◌++◌, ◌==◌, if◌then◌else◌, append_assoc, append-nil, arith, Bool-cases, inl,
  inr, length,
}
use mathlib.Core.Path.{subst}
use ludlc.Framing.Octets.{octets, octets-step, no_octets}
use ludlc.Framing.Csum.{
  CsumAlg, csum_add, csum_octets, csum_tx_final, csum_run, wire_octets, framed_from,
}
use ludlc.Framing.Cobs.Encode.{Scan, scan_arm, scan_csum, scan_octet}
use ludlc.Framing.Cobs.Ahead.{
  ahead, body_of, scan_whole, Scanning, unshifted, body_none, sum_ahead, csum_step,
}

-- A step of the scan takes the octets `cs`, one or none.
pub record Looked (mem : ℕ → ℕ) (alg : Option CsumAlg) (body seen cs : List ℕ) (t t₁ : Scan)
    : Type 0 where
  pub next : scan_whole mem alg t ≡ cs ++ scan_whole mem alg t₁
  pub goes_on : Scanning mem body (seen ++ cs) t₁
  pub same_run : t₁.run ≡ t.run
  pub same_delim : t₁.delim ≡ t.delim
  pub over : cs ≡ [] → scan_whole mem alg t₁ ≡ []

abbrev pub taken_of : Option ℕ → List ℕ
taken_of none = []
taken_of (some c) = c ∷ []

-- An octet of the header or the payload.
body-Looked :
    (mem : ℕ → ℕ) (alg : Option CsumAlg) (body seen : List ℕ) (t : Scan) (c p n q m : ℕ)
    → Scanning mem body seen t
    → t.armed ≡ false
    → body_of mem t.p t.sz t.pay t.pay_sz ≡ c ∷ body_of mem p n q m
    → Looked mem alg body seen
        (c ∷ [])
        t
        (record t { p = p; sz = n; pay = q; pay_sz = m; csum = csum_add alg t.csum c })
unfolding csum_run
body-Looked mem alg body seen t c p n q m h a step = record {
  next = rw a (ap (framed_from alg t.csum) step);
  goes_on = record {
    body_done = λ f. ground (arith, a, f);
    not_yet = h.not_yet;
    within = h.within;
    seen_is = rw a (
        ap (λ b. ahead b body (wire_octets t.csum_left t.csum)) (sym a)
        ∙ h.seen_is
        ∙ rw a (ap (λ xs. seen ++ xs) step)
        ∙ sym (append_assoc seen (c ∷ []) (body_of mem p n q m)));
    passed = h.passed;
  };
  same_run = refl;
  same_delim = refl;
  over = λ f. absurd (omega (arith, ap length f));
}

-- An octet of the checksum, or the frame's end.
csum-Looked :
    (mem : ℕ → ℕ) (alg : Option CsumAlg) (body seen : List ℕ) (t : Scan)
    → Scanning mem body seen t
    → t.armed ≡ true
    → Looked mem alg body seen (taken_of (scan_csum t).0) t (scan_csum t).1
unfolding wire_octets
csum-Looked mem alg body seen t h a =
    let sums = sum_ahead mem alg t a (h.body_done a) in
    let next_sums = sum_ahead mem alg (record t { cleft = t.cleft - 1 }) a (h.body_done a) in
    let left = t.csum / 2 ^ (8 * (t.csum_left - t.cleft)) in
    elim (Bool-cases (t.cleft == 0)) [
      | inl e ↦ rw e record {
        next = refl;
        goes_on = rw (append-nil seen) h;
        same_run = refl;
        same_delim = refl;
        over = λ _. sums.0 ∙ ap (λ n. wire_octets n left) {y = 0} (ground (arith, e));
      }
      | inr e ↦
          let step = csum_step (t.cleft) (t.csum_left) t.csum (ground (arith, e)) h.within in
          rw e record {
            next = sums.0 ∙ step ∙ ap (λ xs. left % 256 ∷ xs) (sym next_sums.0);
            goes_on = record {
              body_done = h.body_done;
              not_yet = h.not_yet;
              within = omega (arith, h.within);
              seen_is =
                  h.seen_is
                  ∙ ap (λ xs. seen ++ xs) (sums.1 ∙ step)
                  ∙ sym (append_assoc seen (left % 256 ∷ []) _)
                  ∙ ap (λ xs. (seen ++ (left % 256 ∷ [])) ++ xs) (sym next_sums.1);
              passed = h.passed;
            };
            same_run = refl;
            same_delim = refl;
            over = λ f. absurd (omega (arith, ap length f));
          }
    ]

all_seen :
    (mem : ℕ → ℕ) (body seen : List ℕ) (t : Scan)
    → Scanning mem body seen t
    → t.sz + t.pay_sz ≡ 0
    → t.armed ≡ false
    → body ≡ seen
all_seen mem body seen t h z a =
    ap (λ b. ahead b body (wire_octets t.csum_left t.csum)) (sym a)
    ∙ h.seen_is
    ∙ rw a (ap (λ xs. seen ++ xs) (body_none mem t z) ∙ append-nil seen)

abbrev armed_scan : Option CsumAlg → Scan → Scan
armed_scan alg t = record t {
  csum = csum_tx_final alg t.csum;
  cleft = csum_octets alg;
  csum_left = csum_octets alg;
  armed = true;
}

-- The body's end.
arm-Scanning :
    (mem : ℕ → ℕ) (alg : Option CsumAlg) (body seen : List ℕ) (t : Scan)
    → Scanning mem body seen t
    → length seen ≡ t.run
    → t.sz + t.pay_sz ≡ 0
    → t.armed ≡ false
    → Scanning mem body seen (armed_scan alg t)
unfolding wire_octets
arm-Scanning mem alg body seen t h ran z a =
    let v = csum_tx_final alg t.csum in
    let n = csum_octets alg in
    record {
      body_done = λ _. z;
      not_yet = λ f. absurd (ground (arith, f));
      within = omega arith;
      seen_is =
          ap₂ (λ xs w. xs ++ wire_octets n w) (all_seen mem body seen t h z a) (sym (unshifted v n))
          ∙ ap (λ xs. seen ++ (xs ++ wire_octets n (v / 2 ^ (8 * (n - n)))))
              (sym (body_none mem t z));
      passed = λ _. omega (arith, ran, ap length (all_seen mem body seen t h z a));
    }

arm-whole :
    (mem : ℕ → ℕ) (alg : Option CsumAlg) (t : Scan)
    → t.sz + t.pay_sz ≡ 0
    → t.armed ≡ false
    → scan_whole mem alg t ≡ scan_whole mem alg (armed_scan alg t)
unfolding csum_run
arm-whole mem alg t z a =
    rw (a, body_none mem t z)
      (ap (wire_octets (csum_octets alg))
        (sym (unshifted (csum_tx_final alg t.csum) (csum_octets alg))))

end-Looked :
    (mem : ℕ → ℕ) (alg : Option CsumAlg) (body seen : List ℕ) (t : Scan)
    → Scanning mem body seen t
    → length seen ≡ t.run
    → t.sz + t.pay_sz ≡ 0
    → Looked mem alg body seen
        (taken_of (scan_csum (scan_arm alg t)).0)
        t
        (scan_csum (scan_arm alg t)).1
end-Looked mem alg body seen t h ran z = elim (Bool-cases t.armed) [
  | inl a ↦
      at_arm t (ap (λ b. if b then t else armed_scan alg t) a) (csum-Looked mem alg body seen t h a)
  | inr a ↦ at_arm (armed_scan alg t) (ap (λ b. if b then t else armed_scan alg t) a) (
      armed_now a (
        csum-Looked mem alg body seen (armed_scan alg t)
          (arm-Scanning mem alg body seen t h ran z a) refl))
]
  where
    at_arm :
        (u : Scan)
        → scan_arm alg t ≡ u
        → Looked mem alg body seen (taken_of (scan_csum u).0) t (scan_csum u).1
        → Looked mem alg body seen
            (taken_of (scan_csum (scan_arm alg t)).0)
            t
            (scan_csum (scan_arm alg t)).1
    at_arm u e l =
        subst (λ w. Looked mem alg body seen (taken_of (scan_csum w).0) t (scan_csum w).1) (sym e) l

    armed_now :
        t.armed ≡ false
        → Looked mem alg body seen
            (taken_of (scan_csum (armed_scan alg t)).0)
            (armed_scan alg t)
            (scan_csum (armed_scan alg t)).1
        → Looked mem alg body seen
            (taken_of (scan_csum (armed_scan alg t)).0)
            t
            (scan_csum (armed_scan alg t)).1
    armed_now a l = record {
      next = arm-whole mem alg t z a ∙ l.next;
      goes_on = l.goes_on;
      same_run = l.same_run;
      same_delim = l.same_delim;
      over = l.over;
    }

-- One step of the scan.
pub octet-Looked :
    (mem : ℕ → ℕ) (alg : Option CsumAlg) (body seen : List ℕ) (t : Scan)
    → Scanning mem body seen t
    → length seen ≡ t.run
    → Looked mem alg body seen (taken_of (scan_octet mem alg t).0) t (scan_octet mem alg t).1
unfolding scan_octet octets
octet-Looked mem alg body seen t h ran = elim (Bool-cases (t.sz == 0)) [
  | inr e ↦ rw e (
      body-Looked mem alg body seen t (mem t.p) (t.p + 1) (t.sz - 1) t.pay t.pay_sz h
        (not_armed (ground (arith, e)))
        (ap (λ xs. xs ++ octets mem t.pay t.pay_sz) (octets-step mem t.p t.sz (ground (arith, e)))))
  | inl e ↦ rw e (elim (Bool-cases (t.pay_sz == 0)) [
    | inr f ↦ rw f (
        body-Looked mem alg body seen t (mem t.pay) t.p t.sz (t.pay + 1) (t.pay_sz - 1) h
          (not_armed (ground (arith, f)))
          (ap₂ (λ xs ys. xs ++ ys) (no_octets mem t.p t.sz (ground (arith, e)))
              (octets-step mem t.pay t.pay_sz (ground (arith, f)))
            ∙ ap (λ xs. mem t.pay ∷ (xs ++ octets mem (t.pay + 1) (t.pay_sz - 1)))
                (sym (no_octets mem t.p t.sz (ground (arith, e))))))
    | inl f ↦ rw f (end-Looked mem alg body seen t h ran (ground (arith, e, f)))
  ])
]
  where
    not_armed : 1 ≤ t.sz + t.pay_sz → t.armed ≡ false
    not_armed one = elim (Bool-cases t.armed) [
      | inl a ↦ absurd (omega (arith, one, h.body_done a))
      | inr a ↦ a
    ]
