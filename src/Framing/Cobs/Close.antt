-- ===== src/Framing/Cobs/Close.antt =====
-- The end of a group in the zero-stuffing encoder (src/lib/ludlc_cobs.c: case cenc_data of
-- ludlc_cobs_enc_fill).
use ludlc.Prelude.{
  ℕ, suc, ◌≤◌, ◌<◌, ◌≡◌, ◌≢◌, ◌⊎◌, refl, ◌∙◌, ap, sym, Bool, true, false, not, ◌&&◌, ◌||◌, Option,
  List, ◌++◌, ◌==◌, if◌then◌else◌, append_assoc, arith, Bool-cases, inl, inr, length, length-append,
  leb,
}
use mathlib.Core.Path.{subst}
use ludlc.Framing.Filling
use ludlc.Framing.Csum.{CsumAlg}
use ludlc.Framing.Cobs.Groups.{stuffed}
use ludlc.Framing.Cobs.Encode.{
  Cenc, cenc_data, cenc_code, cenc_more, cenc_close, cenc_send, cenc_sending, cenc_group, cenc_busy,
}
use ludlc.Framing.Cobs.Ahead.{whole}
use ludlc.Framing.Cobs.Pending.{
  cenc_ahead, behind_group, group_left, CobsPhase, cobs_pending, cobs_pending_at, InGroup,
  IsCobsLoaded,
}
use ludlc.Framing.Cobs.Open.{cenc_weight}
use ludlc.Framing.Cobs.Parts.{group_pending, IsSending}
use ludlc.Framing.Cobs.Skip.{skip-Skipped, more_left}
use ludlc.Framing.Cobs.Send.{send-Filled}

-- What the end of a group does, with `s` behind its octets.
record Closed (mem : ℕ → ℕ) (alg : Option CsumAlg) (s : Cenc) (out : List ℕ × Cenc) : Type 0 where
  wrote :
      behind_group alg s.delim s.full s.armed s.csum (cenc_ahead mem s)
      ≡ out.0 ++ cobs_pending mem alg out.1
  fits : length out.0 ≤ 1
  loaded : IsCobsLoaded mem out.1
  light : cenc_weight out.1 ≡ 0

if_yes : {A : Type 0} {b : Bool} (x y : A) → b ≡ true → (if b then x else y) ≡ x
if_yes x y e = ap (λ c. if c then x else y) e

if_no : {A : Type 0} {b : Bool} (x y : A) → b ≡ false → (if b then x else y) ≡ y
if_no x y e = ap (λ c. if c then x else y) e

in_code :
    {mem : ℕ → ℕ} {n : ℕ} {delim : Bool} {s : Cenc}
    → InGroup mem n delim s
    → InGroup mem n delim (record s { state = cenc_code })
in_code h = record {
  body_done = h.body_done;
  not_yet = h.not_yet;
  enough = h.enough;
  zero_left = h.zero_left;
}

close-Closed :
    (mem : ℕ → ℕ) (alg : Option CsumAlg) (s : Cenc)
    → (s.hdr_size ≡ 0) ⊎ (s.hdr ≢ 0)
    → InGroup mem 0 s.delim s
    → Closed mem alg s (cenc_close alg s)
close-Closed mem alg s hdr h = elim (Bool-cases s.delim) [
  | inl d ↦
      let k = skip-Skipped mem alg s (subst (λ b. InGroup mem 0 b s) d h) in
      subst (Closed mem alg s) (sym (if_yes _ _ d)) record {
        wrote = if_yes _ _ d ∙ ap stuffed (sym k.left_is);
        fits = omega arith;
        loaded = record { hdr_some = k.same_hdr hdr; phase = in_code k.in_group };
        light = refl;
      }
  | inr d ↦ elim (Bool-cases (s.full && cenc_more alg s)) [
    | inl f ↦ subst (Closed mem alg s) (sym (if_no _ _ d ∙ if_yes _ _ f)) record {
      wrote = if_no _ _ d ∙ if_yes _ _ (another ∙ f);
      fits = omega arith;
      loaded = record { hdr_some = hdr; phase = in_code (subst (λ b. InGroup mem 0 b s) d h) };
      light = refl;
    }
    | inr f ↦ subst (Closed mem alg s) (sym (if_no _ _ d ∙ if_no _ _ f)) record {
      wrote = if_no _ _ d ∙ if_no _ _ (another ∙ f);
      fits = omega arith;
      loaded = record { hdr_some = inl refl; phase = refl };
      light = refl;
    }
  ]
]
  where
    another :
        (s.full && not (length (whole alg s.armed s.csum (cenc_ahead mem s)) == 0))
        ≡ (s.full && cenc_more alg s)
    another = ap (λ b. s.full && b) (sym (more_left mem alg s.delim s h))

data_pending :
    (mem : ℕ → ℕ) (alg : Option CsumAlg) (s : Cenc)
    → s.state ≡ cenc_data
    → cobs_pending mem alg s ≡ group_pending mem alg s
data_pending mem alg s e = ap (λ f. cobs_pending_at mem alg f s) e

sending-IsCobsLoaded : (mem : ℕ → ℕ) (s : Cenc) → IsSending mem s → IsCobsLoaded mem s
sending-IsCobsLoaded mem s l = record {
  hdr_some = l.hdr_some;
  phase = subst (λ f. CobsPhase mem f s) (sym l.in_data) l.in_group;
}

-- case cenc_data.
pub data-Stepped :
    (mem : ℕ → ℕ) (alg : Option CsumAlg) (room : ℕ) (s : Cenc)
    → IsCobsLoaded mem (record s { state = cenc_data })
    → Filling.Stepped cenc_busy
        (cobs_pending mem alg)
        (IsCobsLoaded mem)
        cenc_weight
        (suc room)
        (record s { state = cenc_data })
        (cenc_group mem alg (suc room) (record s { state = cenc_data }))
data-Stepped mem alg room s l =
    let out = cenc_send mem alg (suc room) s₀ in
    let end = cenc_close alg out.1 in
    elim (Bool-cases (not (out.1.run == 0) || leb (suc room) (length out.0))) [
      | inl e ↦
          subst
            (Filling.Stepped cenc_busy (cobs_pending mem alg) (IsCobsLoaded mem) cenc_weight
              (suc room) s₀)
            (sym (if_yes _ _ e))
            record {
              wrote =
                  f.wrote
                  ∙ ap (λ xs. out.0 ++ xs) (sym (data_pending mem alg out.1 f.loaded.in_data));
              fits = f.fits;
              loaded = sending-IsCobsLoaded mem out.1 f.loaded;
              goes_on = λ z _. absurd (ground (arith, e, f.full, z));
            }
      | inr e ↦
          subst
            (Filling.Stepped cenc_busy (cobs_pending mem alg) (IsCobsLoaded mem) cenc_weight
              (suc room) s₀)
            (sym (if_no _ _ e)) (ended out f (ground (arith, e)) (ground (arith, e)))
    ]
  where
    s₀ : Cenc
    s₀ = record s { state = cenc_data }

    f :
        Filling.Filled cenc_sending
          (group_pending mem alg)
          (IsSending mem)
          (suc room)
          s₀
          (cenc_send mem alg (suc room) s₀)
    f =
        send-Filled mem alg (suc room) s₀
          (record { hdr_some = l.hdr_some; in_data = refl; in_group = l.phase })

    ended :
        (out : List ℕ × Cenc)
        → Filling.Filled cenc_sending (group_pending mem alg) (IsSending mem) (suc room) s₀ out
        → out.1.run ≡ 0
        → length out.0 < suc room
        → Filling.Stepped cenc_busy
            (cobs_pending mem alg)
            (IsCobsLoaded mem)
            cenc_weight
            (suc room)
            s₀
            (out.0 ++ (cenc_close alg out.1).0, (cenc_close alg out.1).1)
    ended out g all few =
        let k =
          close-Closed mem alg out.1 g.loaded.hdr_some
            (subst (λ n. InGroup mem n out.1.delim out.1) all g.loaded.in_group) in
        let end = cenc_close alg out.1 in
        record {
          wrote =
              g.wrote
              ∙ ap (λ xs. out.0 ++ xs)
                  (ap
                      (λ n.
                        group_left alg n out.1.delim out.1.full out.1.armed out.1.csum
                          (cenc_ahead mem out.1))
                      all
                    ∙ k.wrote)
              ∙ sym (append_assoc out.0 end.0 (cobs_pending mem alg end.1));
          fits = omega (arith, few, k.fits, length-append out.0 end.0);
          loaded = k.loaded;
          goes_on = λ _ _. omega (arith, k.light);
        }
