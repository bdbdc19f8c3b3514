-- ===== src/Framing/Cobs/Scan.antt =====
-- The scan that opens a group in the zero-stuffing encoder, against the groups (src/lib/ludlc_cobs.c: case
-- cenc_code of ludlc_cobs_enc_fill).
use ludlc.Prelude.{
  ℕ, zero, suc, ◌+◌, ◌<◌, ◌≡◌, ◌⊎◌, refl, ◌∙◌, ap, sym, true, false, Option, none, some, List, [],
  ◌∷◌, ◌++◌, ◌==◌, if◌then◌else◌, append_assoc, append-nil, arith, Bool-cases, inl, inr, length,
  length-append,
}
use mathlib.Core.Path.{subst}
use ludlc.Framing.Csum.{CsumAlg}
use ludlc.Framing.Cobs.{delimiter}
use ludlc.Framing.Cobs.Groups.{run_of, rest_of, run_cons, run_stop, rest_cons, rest_stop}
use ludlc.Framing.Cobs.Encode.{Scan, scan_octet, scan_on, scan}
use ludlc.Framing.Cobs.Ahead.{Scanning, scan_whole}
use ludlc.Framing.Cobs.Look.{Looked, taken_of, octet-Looked}

-- The zero that the scan stopped on.
abbrev pub stopped_on : Scan → List ℕ
stopped_on t = if t.delim then delimiter ∷ [] else []

-- The scan for `n` octets more, with `xs` ahead and `run` octets behind it, leaves `t`.
pub record Scanned (mem : ℕ → ℕ) (alg : Option CsumAlg) (body seen : List ℕ) (n : ℕ) (xs : List ℕ)
    (run : ℕ) (t : Scan) : Type 0 where
  pub ran : t.run ≡ run + length (run_of n xs)
  pub rest_is : rest_of n xs ≡ stopped_on t ++ scan_whole mem alg t
  pub goes_on : Scanning mem body ((seen ++ run_of n xs) ++ stopped_on t) t
  pub short : t.delim ≡ true → length (run_of n xs) < n
  pub whole_run : t.delim ≡ false → (length (run_of n xs) ≡ n) ⊎ (rest_of n xs ≡ [])

more-Scanned :
    {mem : ℕ → ℕ} {alg : Option CsumAlg} {body seen : List ℕ} {n : ℕ} {xs : List ℕ} {run : ℕ}
    {t : Scan} (c : ℕ)
    → (c == 0) ≡ false
    → Scanned mem alg body (seen ++ (c ∷ [])) n xs (run + 1) t
    → Scanned mem alg body seen (suc n) (c ∷ xs) run t
more-Scanned {mem} {alg} {body} {seen} {n} {xs} {run} {t} c e s =
    let run_is = run_cons n c xs e in
    record {
      ran = omega (arith, s.ran, ap length run_is);
      rest_is = rest_cons n c xs e ∙ s.rest_is;
      goes_on =
          subst (λ ys. Scanning mem body (ys ++ stopped_on t) t)
            (append_assoc seen (c ∷ []) (run_of n xs) ∙ ap (λ ys. seen ++ ys) (sym run_is))
            s.goes_on;
      short = λ d. omega (arith, s.short d, ap length run_is);
      whole_run = λ d. elim (s.whole_run d) [
        | inl f ↦ inl (ap length run_is ∙ ap suc f)
        | inr f ↦ inr (rest_cons n c xs e ∙ f)
      ];
    }

zero-Scanned :
    {mem : ℕ → ℕ} {alg : Option CsumAlg} {body seen : List ℕ} {n c : ℕ} (t t₁ : Scan)
    → (c == 0) ≡ true
    → Looked mem alg body seen (c ∷ []) t t₁
    → Scanned mem alg body seen
        (suc n)
        (c ∷ scan_whole mem alg t₁)
        t.run
        (record t₁ { delim = true })
zero-Scanned {mem} {alg} {body} {seen} {n} {c} t t₁ e l =
    let xs = scan_whole mem alg t₁ in
    let run_is = run_stop n c xs e in
    let zero_is : c ≡ delimiter = ground (arith, e) in
    record {
      ran = omega (arith, l.same_run, ap length run_is);
      rest_is = rest_stop n c xs e ∙ ap (λ i. i ∷ xs) zero_is;
      goes_on = delim_set (
          subst (λ ys. Scanning mem body ys t₁)
            (ap (λ i. seen ++ (i ∷ [])) zero_is
              ∙ ap (λ ys. ys ++ (delimiter ∷ []))
                  (sym (append-nil seen) ∙ ap (λ ys. seen ++ ys) (sym run_is)))
            l.goes_on);
      short = λ d. omega (arith, ap length run_is);
      whole_run = λ d. absurd (ground (arith, d));
    }
  where
    delim_set :
        {ys : List ℕ} → Scanning mem body ys t₁ → Scanning mem body ys (record t₁ { delim = true })
    delim_set h = record {
      body_done = h.body_done;
      not_yet = h.not_yet;
      within = h.within;
      seen_is = h.seen_is;
      passed = h.passed;
    }

no_stop : (seen : List ℕ) (t : Scan) → t.delim ≡ false → seen ≡ (seen ++ []) ++ stopped_on t
no_stop seen t d = rw (d, append-nil (seen ++ [])) (sym (append-nil seen))

end-Scanned :
    {mem : ℕ → ℕ} {alg : Option CsumAlg} {body seen : List ℕ} {n : ℕ} (t t₁ : Scan)
    → t₁.delim ≡ false
    → scan_whole mem alg t₁ ≡ []
    → Looked mem alg body seen [] t t₁
    → Scanned mem alg body seen (suc n) [] t.run t₁
unfolding run_of rest_of
end-Scanned {mem} {alg} {body} {seen} {n} t t₁ d e l = record {
  ran = omega (arith, l.same_run);
  rest_is = rw (d, e) refl;
  goes_on = subst (λ ys. Scanning mem body ys t₁) (append-nil seen ∙ no_stop seen t₁ d) l.goes_on;
  short = λ f. absurd (ground (arith, d, f));
  whole_run = λ f. inr refl;
}

scan_on-Scanned :
    (mem : ℕ → ℕ) (alg : Option CsumAlg) (body seen : List ℕ) (n : ℕ) (t : Scan)
    (o : Option ℕ × Scan) (rest : Scan)
    → t.delim ≡ false
    → Looked mem alg body seen (taken_of o.0) t o.1
    → ((c : ℕ)
        → Looked mem alg body seen (c ∷ []) t o.1
        → Scanned mem alg body (seen ++ (c ∷ [])) n (scan_whole mem alg o.1) (t.run + 1) rest)
    → Scanned mem alg body seen (suc n) (scan_whole mem alg t) t.run (scan_on o rest)
scan_on-Scanned mem alg body seen n t (none, t₁) rest d l ih =
    subst (λ xs. Scanned mem alg body seen (suc n) xs t.run t₁) (sym (l.next ∙ l.over refl))
      (end-Scanned t t₁ (l.same_delim ∙ d) (l.over refl) l)
scan_on-Scanned mem alg body seen n t (some c, t₁) rest d l ih =
    subst (λ xs. Scanned mem alg body seen (suc n) xs t.run (scan_on (some c, t₁) rest))
      (sym l.next)
      (elim (Bool-cases (c == 0)) [
        | inl e ↦ rw e (zero-Scanned t t₁ e l)
        | inr e ↦ rw e (more-Scanned c e (ih c l))
      ])

pub scan-Scanned :
    (mem : ℕ → ℕ) (alg : Option CsumAlg) (n : ℕ) (body seen : List ℕ) (t : Scan)
    → t.delim ≡ false
    → length seen ≡ t.run
    → Scanning mem body seen t
    → Scanned mem alg body seen n (scan_whole mem alg t) t.run (scan mem alg n t)
unfolding scan run_of rest_of
scan-Scanned mem alg zero body seen t d ran h = record {
  ran = omega arith;
  rest_is = rw d refl;
  goes_on = subst (λ ys. Scanning mem body ys t) (no_stop seen t d) h;
  short = λ f. absurd (ground (arith, d, f));
  whole_run = λ f. inl refl;
}
scan-Scanned mem alg (suc n) body seen t d ran h =
    let o = scan_octet mem alg t in
    let t₁ = record o.1 { run = o.1.run + 1 } in
    scan_on-Scanned mem alg body seen n t o (scan mem alg n t₁) d
      (octet-Looked mem alg body seen t h ran)
      (λ c l.
        subst
          (λ r.
            Scanned mem alg body (seen ++ (c ∷ [])) n (scan_whole mem alg o.1) (r + 1)
              (scan mem alg n (record o.1 { run = o.1.run + 1 })))
          l.same_run
          (scan-Scanned mem alg n body (seen ++ (c ∷ [])) (record o.1 { run = o.1.run + 1 })
            (l.same_delim ∙ d) (omega (arith, length-append seen (c ∷ []), ran, l.same_run))
            (counted o.1 l.goes_on)))
  where
    counted :
        {ys : List ℕ} (u : Scan)
        → Scanning mem body ys u
        → Scanning mem body ys (record u { run = u.run + 1 })
    counted u k = record {
      body_done = k.body_done;
      not_yet = k.not_yet;
      within = k.within;
      seen_is = k.seen_is;
      passed = λ f. omega (arith, k.passed f);
    }
