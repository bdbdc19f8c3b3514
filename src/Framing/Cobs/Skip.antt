-- ===== src/Framing/Cobs/Skip.antt =====
-- What is left behind a group's octets in the zero-stuffing encoder (src/lib/ludlc_cobs.c: case cenc_data of
-- ludlc_cobs_enc_fill).
use ludlc.Prelude.{
  ℕ, ◌+◌, ◌-◌, ◌/◌, ◌≡◌, ◌≢◌, ◌⊎◌, refl, ◌∙◌, ap, sym, Bool, true, false, not, Option, none, some,
  List, [], ◌==◌, if◌then◌else◌, arith, Bool-cases, inl, inr, length, drop, ne→==-false,
}
use mathlib.Core.Path.{subst}
use ludlc.Framing.Octets.{octets}
use ludlc.Framing.Csum.{
  CsumAlg, csum_octets, wire_octets, wire_octets-step, length-wire_octets, length-framed_from,
}
use ludlc.Framing.Cobs.Encode.{Cenc, cenc_skip, cenc_more}
use ludlc.Framing.Cobs.Ahead.{ahead, whole, body_of}
use ludlc.Framing.Cobs.Pending.{cenc_ahead, InGroup}
use ludlc.Framing.Cobs.Open.{length-body_of}
use ludlc.Framing.Cobs.Parts.{Switched, switched, sent-InGroup, sum_only, on_switch, copy-split}

armed_length :
    (mem : ℕ → ℕ) (alg : Option CsumAlg) (s : Cenc)
    → s.armed ≡ true
    → s.sz + s.payload_size ≡ 0
    → length (whole alg s.armed s.csum (cenc_ahead mem s)) ≡ s.csum_left
armed_length mem alg s a empty =
    ap (λ b. length (whole alg b s.csum (cenc_ahead mem s))) a
    ∙ ap length (sum_only mem s a empty)
    ∙ length-wire_octets s.csum_left s.csum

body_length :
    (mem : ℕ → ℕ) (alg : Option CsumAlg) (s : Cenc)
    → s.armed ≡ false
    → length (whole alg s.armed s.csum (cenc_ahead mem s)) ≡ s.sz + s.payload_size + csum_octets alg
body_length mem alg s a =
    let body = body_of mem s.ptr s.sz s.payload s.payload_size in
    ap (λ b. length (whole alg b s.csum (ahead b body (wire_octets s.csum_left s.csum)))) a
    ∙ length-framed_from alg s.csum body
    ∙ ap (λ n. n + csum_octets alg) (length-body_of mem s.ptr s.sz s.payload s.payload_size)

armed_more :
    (alg : Option CsumAlg) (s : Cenc)
    → s.armed ≡ true
    → s.sz + s.payload_size ≡ 0
    → cenc_more alg s ≡ not (s.csum_left == 0)
armed_more alg s a empty = ground (arith, a, empty)

body_more :
    (alg : Option CsumAlg) (s : Cenc)
    → s.armed ≡ false
    → s.csum_left ≡ 0
    → cenc_more alg s ≡ not (s.sz + s.payload_size + csum_octets alg == 0)
body_more none s a z = ground (arith, a, z)
body_more (some alg) s a z = ground (arith, a, z)

-- Whether another group follows a full one: whether there is an octet left, the checksum's included.
pub more_left :
    (mem : ℕ → ℕ) (alg : Option CsumAlg) (delim : Bool) (s : Cenc)
    → InGroup mem 0 delim s
    → cenc_more alg s ≡ not (length (whole alg s.armed s.csum (cenc_ahead mem s)) == 0)
more_left mem alg delim s h = elim (Bool-cases s.armed) [
  | inl a ↦
      let empty : s.sz + s.payload_size ≡ 0 = omega (arith, h.body_done a) in
      armed_more alg s a empty ∙ ap (λ n. not (n == 0)) (sym (armed_length mem alg s a empty))
  | inr a ↦ body_more alg s a (h.not_yet a) ∙ ap (λ n. not (n == 0)) (sym (body_length mem alg s a))
]

-- The encoder behind the zero that is not sent.
pub record Skipped (mem : ℕ → ℕ) (alg : Option CsumAlg) (s s₁ : Cenc) : Type 0 where
  pub same_hdr : (s.hdr_size ≡ 0) ⊎ (s.hdr ≢ 0) → (s₁.hdr_size ≡ 0) ⊎ (s₁.hdr ≢ 0)
  pub left_is :
      whole alg s₁.armed s₁.csum (cenc_ahead mem s₁)
      ≡ whole alg s.armed s.csum (drop 1 (cenc_ahead mem s))
  pub in_group : InGroup mem 0 false s₁

body-Skipped :
    (mem : ℕ → ℕ) (alg : Option CsumAlg) (s : Cenc)
    → InGroup mem 0 true s
    → s.sz ≢ 0
    → Skipped mem alg s (record s { ptr = s.ptr + 1; sz = s.sz - 1 })
unfolding octets
body-Skipped mem alg s h more =
    let a = unarmed in
    record {
      same_hdr = λ x. x;
      left_is =
          ap (λ xs. whole alg s.armed s.csum (drop 1 xs))
            (sym (copy-split mem s 1 (omega (arith, more))));
      in_group = record {
        body_done = λ f. absurd (ground (arith, a, f));
        not_yet = h.not_yet;
        enough = omega arith;
        zero_left = λ f. absurd (ground (arith, f));
      };
    }
  where
    unarmed : s.armed ≡ false
    unarmed = elim (Bool-cases s.armed) [
      | inl f ↦ absurd (omega (arith, h.body_done f, more))
      | inr f ↦ f
    ]

whole_armed :
    (alg : Option CsumAlg) (armed : Bool) (csum : ℕ) (xs : List ℕ)
    → armed ≡ true
    → whole alg armed csum xs ≡ xs
whole_armed alg armed csum xs a = rw a refl

-- Behind the body only the checksum has a zero.
zero_in_sum :
    (mem : ℕ → ℕ) (s : Cenc)
    → InGroup mem 0 true s
    → s.sz + s.payload_size ≡ 0
    → (s.armed ≡ true) × (s.csum_left ≢ 0)
zero_in_sum mem s h empty = elim (Bool-cases s.armed) [
  | inl a ↦ (
    a,
    λ z. absurd (
        omega (
          arith,
          h.zero_left refl,
          ap length (sum_only mem s a empty),
          length-wire_octets s.csum_left s.csum,
          z,
        )),
  )
  | inr a ↦ absurd (omega (arith, h.zero_left refl, no_body a))
]
  where
    no_body : s.armed ≡ false → length (cenc_ahead mem s) ≡ 0
    no_body a = rw a (length-body_of mem s.ptr s.sz s.payload s.payload_size ∙ empty)

sum-Skipped :
    (mem : ℕ → ℕ) (alg : Option CsumAlg) (s : Cenc)
    → InGroup mem 0 true s
    → s.sz + s.payload_size ≡ 0
    → Skipped mem alg s (record s { csum = s.csum / 256; csum_left = s.csum_left - 1 })
sum-Skipped mem alg s h empty =
    let a = (zero_in_sum mem s h empty).0 in
    let left_some = (zero_in_sum mem s h empty).1 in
    let s₁ = record s { csum = s.csum / 256; csum_left = s.csum_left - 1 } in
    record {
      same_hdr = λ x. x;
      left_is =
          whole_armed alg s.armed (s.csum / 256) (cenc_ahead mem s₁) a
          ∙ sum_only mem s₁ a empty
          ∙ ap (drop 1) (sym (wire_octets-step s.csum_left s.csum left_some))
          ∙ ap (drop 1) (sym (sum_only mem s a empty))
          ∙ sym (whole_armed alg s.armed s.csum (drop 1 (cenc_ahead mem s)) a);
      in_group = record {
        body_done = λ f. omega (arith, empty);
        not_yet = λ f. absurd (ground (arith, a, f));
        enough = omega arith;
        zero_left = λ f. absurd (ground (arith, f));
      };
    }

pub skip-Skipped :
    (mem : ℕ → ℕ) (alg : Option CsumAlg) (s : Cenc)
    → InGroup mem 0 true s
    → Skipped mem alg s (cenc_skip s)
skip-Skipped mem alg s h =
    let w = switched mem s in
    let u = record s { ptr = w.p; sz = w.n; payload_size = w.m } in
    subst
      (λ v. Skipped mem alg s (
        if not (v.sz == 0)
        then record v { ptr = v.ptr + 1; sz = v.sz - 1 }
        else if not (v.csum_left == 0)
        then record v { csum = v.csum / 256; csum_left = v.csum_left - 1 }
        else v))
      (sym w.switch_is)
      (elim (Bool-cases (w.n == 0)) [
        | inr e ↦
            rw e (from_switched w _ (body-Skipped mem alg u (u_in_group w) (ground (arith, e))))
        | inl e ↦
            let empty : w.n + w.m ≡ 0 = ground (arith, e, w.header_first) in
            rw (e, ne→==-false s.csum_left 0 (zero_in_sum mem u (u_in_group w) empty).1)
              (from_switched w _ (sum-Skipped mem alg u (u_in_group w) empty))
      ])
  where
    u_in_group :
        (w : Switched mem s)
        → InGroup mem 0 true (record s { ptr = w.p; sz = w.n; payload_size = w.m })
    u_in_group w =
        sent-InGroup (record s { ptr = w.p; sz = w.n; payload_size = w.m }) [] h
          (sym (on_switch mem s w)) (omega arith) (λ a. omega (arith, h.body_done a, w.same_length))
          h.not_yet

    from_switched :
        (w : Switched mem s) (s₁ : Cenc)
        → Skipped mem alg (record s { ptr = w.p; sz = w.n; payload_size = w.m }) s₁
        → Skipped mem alg s s₁
    from_switched w s₁ k = record {
      same_hdr = k.same_hdr;
      left_is = k.left_is ∙ ap (λ xs. whole alg s.armed s.csum (drop 1 xs)) (on_switch mem s w);
      in_group = k.in_group;
    }
