-- ===== src/Framing/Cobs/Parts.antt =====
-- What moves where the zero-stuffing encoder stands in the frame (src/lib/ludlc_cobs.c: case cenc_data of
-- ludlc_cobs_enc_fill).
use ludlc.Prelude.{
  ℕ, ◌+◌, ◌-◌, ◌≤◌, ◌≡◌, ◌≢◌, ◌⊎◌, refl, ◌∙◌, ap, ap₂, sym, Bool, true, false, Option, List, ◌++◌,
  ◌==◌, append_assoc, append-nil, arith, Bool-cases, inl, inr, length, length-append, take, drop,
  take_append, drop_append,
}
use ludlc.Framing.Octets.{octets, octets-split, no_octets}
use ludlc.Framing.Csum.{CsumAlg, wire_octets, length-wire_octets}
use ludlc.Framing.Cobs.Encode.{Cenc, cenc_data, cenc_switch}
use ludlc.Framing.Cobs.Ahead.{ahead, body_of}
use ludlc.Framing.Cobs.Pending.{cenc_ahead, behind_group, group_left, InGroup}
use ludlc.Framing.Cobs.Open.{length-body_of}

-- What is left to send in an open group.
abbrev pub group_pending : (ℕ → ℕ) → Option CsumAlg → Cenc → List ℕ
group_pending mem alg s = group_left alg s.run s.delim s.full s.armed s.csum (cenc_ahead mem s)

pub record IsSending (mem : ℕ → ℕ) (s : Cenc) : Type 0 where
  pub hdr_some : (s.hdr_size ≡ 0) ⊎ (s.hdr ≢ 0)
  pub in_data : s.state ≡ cenc_data
  pub in_group : InGroup mem s.run s.delim s

-- From the header on to the payload nothing is lost.
pub record Switched (mem : ℕ → ℕ) (s : Cenc) : Type 0 where
  pub p : ℕ
  pub n : ℕ
  pub m : ℕ
  pub switch_is : cenc_switch s ≡ record s { ptr = p; sz = n; payload_size = m }
  pub same_body : body_of mem p n s.payload m ≡ body_of mem s.ptr s.sz s.payload s.payload_size
  pub same_length : n + m ≡ s.sz + s.payload_size
  pub header_first : n ≡ 0 → m ≡ 0

pub switched : (mem : ℕ → ℕ) (s : Cenc) → Switched mem s
unfolding octets
switched mem s = elim (Bool-cases (s.sz == 0)) [
  | inr e ↦ record {
    p = s.ptr;
    n = s.sz;
    m = s.payload_size;
    switch_is = rw e refl;
    same_body = refl;
    same_length = refl;
    header_first = λ f. absurd (ground (arith, e, f));
  }
  | inl e ↦ elim (Bool-cases (s.payload_size == 0)) [
    | inl f ↦ record {
      p = s.ptr;
      n = s.sz;
      m = s.payload_size;
      switch_is = rw (e, f) refl;
      same_body = refl;
      same_length = refl;
      header_first = λ _. ground (arith, f);
    }
    | inr f ↦ record {
      p = s.payload;
      n = s.payload_size;
      m = 0;
      switch_is = rw (e, f) refl;
      same_body =
          append-nil (octets mem s.payload s.payload_size)
          ∙ ap (λ xs. xs ++ octets mem s.payload s.payload_size)
              (sym (no_octets mem s.ptr s.sz (ground (arith, e))));
      same_length = ground (arith, e);
      header_first = λ _. refl;
    }
  ]
]

pub behind_group-csum :
    (alg : Option CsumAlg) (delim full armed : Bool) (csum csum₁ : ℕ) (xs : List ℕ)
    → (armed ≡ false → csum₁ ≡ csum)
    → behind_group alg delim full armed csum xs ≡ behind_group alg delim full armed csum₁ xs
behind_group-csum alg delim full armed csum csum₁ xs g = elim (Bool-cases armed) [
  | inl a ↦ rw a refl
  | inr a ↦ ap (λ c. behind_group alg delim full armed c xs) (sym (g a))
]

-- Octets that are sent are not pending any more.
pub sent_group :
    (alg : Option CsumAlg) (run n : ℕ) (delim full armed : Bool) (csum csum₁ : ℕ)
    (xs ys zs : List ℕ)
    → xs ≡ ys ++ zs
    → run ≡ length ys + n
    → (armed ≡ false → csum₁ ≡ csum)
    → group_left alg run delim full armed csum xs ≡ ys ++ group_left alg n delim full armed csum₁ zs
sent_group alg run n delim full armed csum csum₁ xs ys zs e f g =
    ap₂ (λ r ws. group_left alg r delim full armed csum ws) f e
    ∙ ap₂ (λ vs ws. vs ++ behind_group alg delim full armed csum ws) (take_append ys zs n)
        (drop_append ys zs n)
    ∙ append_assoc ys (take n zs) (behind_group alg delim full armed csum (drop n zs))
    ∙ ap (λ ws. ys ++ (take n zs ++ ws))
        (behind_group-csum alg delim full armed csum csum₁ (drop n zs) g)

pub ahead_append :
    (armed : Bool) (xs ys sum : List ℕ) → ahead armed (xs ++ ys) sum ≡ xs ++ ahead armed ys sum
ahead_append true xs ys sum = append_assoc xs ys sum
ahead_append false xs ys sum = refl

pub sent-InGroup :
    {mem : ℕ → ℕ} {run n : ℕ} {delim : Bool} {s : Cenc} (s₁ : Cenc) (ys : List ℕ)
    → InGroup mem run delim s
    → cenc_ahead mem s ≡ ys ++ cenc_ahead mem s₁
    → run ≡ length ys + n
    → (s₁.armed ≡ true → s₁.sz + s₁.payload_size ≤ n)
    → (s₁.armed ≡ false → s₁.csum_left ≡ 0)
    → InGroup mem n delim s₁
sent-InGroup {mem} {run} {n} {delim} {s} s₁ ys h e f done not_yet =
    let long = ap length e ∙ length-append ys (cenc_ahead mem s₁) in
    record {
      body_done = done;
      not_yet = not_yet;
      enough = omega (arith, long, f, h.enough);
      zero_left = λ d. omega (arith, long, f, h.zero_left d);
    }

pub copy-split :
    (mem : ℕ → ℕ) (s : Cenc) (len : ℕ)
    → len ≤ s.sz
    → cenc_ahead mem s
      ≡ octets mem s.ptr len
        ++ cenc_ahead mem (record s { ptr = s.ptr + len; sz = s.sz - len; run = s.run - len })
copy-split mem s len h =
    let sum = wire_octets s.csum_left s.csum in
    let pay = octets mem s.payload s.payload_size in
    let rest = octets mem (s.ptr + len) (s.sz - len) in
    ap (λ xs. ahead s.armed (xs ++ pay) sum)
      (ap (octets mem s.ptr) (omega (arith, h)) ∙ octets-split mem s.ptr len (s.sz - len))
    ∙ ap (λ xs. ahead s.armed xs sum) (append_assoc (octets mem s.ptr len) rest pay)
    ∙ ahead_append s.armed (octets mem s.ptr len) (rest ++ pay) sum

pub sum_only :
    (mem : ℕ → ℕ) (s : Cenc)
    → s.armed ≡ true
    → s.sz + s.payload_size ≡ 0
    → cenc_ahead mem s ≡ wire_octets s.csum_left s.csum
sum_only mem s a none =
    rw
      (
        a,
        no_octets mem s.ptr s.sz (omega (arith, none)),
        no_octets mem s.payload s.payload_size (omega (arith, none)),
      )
      refl

-- A group that goes on behind the body is of the checksum's octets.
pub sum_left :
    (mem : ℕ → ℕ) (s : Cenc)
    → IsSending mem s
    → s.sz + s.payload_size ≡ 0
    → s.run ≢ 0
    → (s.armed ≡ true) × (s.csum_left ≢ 0) × (cenc_ahead mem s ≡ wire_octets s.csum_left s.csum)
sum_left mem s l none some = elim (Bool-cases s.armed) [
  | inl a ↦
      let e = sum_only mem s a none in
      (
        a,
        λ z. absurd (
            omega (
              arith,
              l.in_group.enough,
              ap length e,
              length-wire_octets s.csum_left s.csum,
              z,
              some,
            )),
        e,
      )
  | inr a ↦ absurd (ground (arith, no_body a, l.in_group.enough, some))
]
  where
    no_body : s.armed ≡ false → length (cenc_ahead mem s) ≡ 0
    no_body a = rw a (length-body_of mem s.ptr s.sz s.payload s.payload_size ∙ none)

pub on_switch :
    (mem : ℕ → ℕ) (s : Cenc) (w : Switched mem s)
    → cenc_ahead mem (record s { ptr = w.p; sz = w.n; payload_size = w.m }) ≡ cenc_ahead mem s
on_switch mem s w = ap (λ xs. ahead s.armed xs (wire_octets s.csum_left s.csum)) w.same_body
