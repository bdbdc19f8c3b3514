-- ===== src/Framing/Cobs/Send.antt =====
-- The zero-stuffing encoder sends a group's octets (src/lib/ludlc_cobs.c: case cenc_data of
-- ludlc_cobs_enc_fill).
use ludlc.Prelude.{
  ℕ, suc, ◌+◌, ◌-◌, ◌/◌, ◌%◌, ◌≡◌, ◌≢◌, refl, ◌∙◌, ap, sym, true, Option, List, [], ◌∷◌, ◌==◌,
  if◌then◌else◌, arith, min, Bool-cases, inl, inr, ne→==-false,
}
use mathlib.Core.Path.{subst}
use ludlc.Framing.Octets.{octets, length-octets}
use ludlc.Framing.Filling
use ludlc.Framing.Csum.{CsumAlg, wire_octets-step}
use ludlc.Framing.Cobs.Encode.{
  Cenc, cenc_rearm, cenc_shift, cenc_copy, cenc_send_round, cenc_sending, cenc_send,
}
use ludlc.Framing.Cobs.Pending.{cenc_ahead, group_left}
use ludlc.Framing.Cobs.Parts.{
  group_pending, IsSending, Switched, switched, sent_group, sent-InGroup, copy-split, sum_only,
  sum_left, on_switch,
}

-- Octets of the header or the payload.
copy-Rounded :
    (mem : ℕ → ℕ) (alg : Option CsumAlg) (room : ℕ) (s : Cenc)
    → cenc_sending s ≡ true
    → IsSending mem s
    → s.sz ≢ 0
    → Filling.Rounded cenc_sending
        (group_pending mem alg)
        (IsSending mem)
        (suc room)
        s
        (cenc_copy mem (suc room) s)
copy-Rounded mem alg room s b l some =
    let len = min (min s.run s.sz) (suc room) in
    let s₁ = record s { ptr = s.ptr + len; sz = s.sz - len; run = s.run - len } in
    let out = octets mem s.ptr len in
    let split = copy-split mem s len (omega arith) in
    let length_out = length-octets mem s.ptr len in
    record {
      wrote =
          sent_group alg s.run (s.run - len) s.delim s.full s.armed s.csum s.csum (cenc_ahead mem s)
            out (cenc_ahead mem s₁) split (omega (arith, length_out)) (λ _. refl);
      fits = omega (arith, length_out);
      loaded = record {
        hdr_some = l.hdr_some;
        in_data = l.in_data;
        in_group =
            sent-InGroup s₁ out l.in_group split (omega (arith, length_out))
              (λ a. omega (arith, l.in_group.body_done a)) l.in_group.not_yet;
      };
      last = λ e. absurd (ground (arith, e, length_out, some, b));
    }

-- An octet of the checksum.
shift-Rounded :
    (mem : ℕ → ℕ) (alg : Option CsumAlg) (room : ℕ) (s : Cenc)
    → cenc_sending s ≡ true
    → IsSending mem s
    → s.sz + s.payload_size ≡ 0
    → Filling.Rounded cenc_sending
        (group_pending mem alg)
        (IsSending mem)
        (suc room)
        s
        (cenc_shift (cenc_rearm alg s))
shift-Rounded mem alg room s b l none =
    let s₁ = record s { csum = s.csum / 256; csum_left = s.csum_left - 1; run = s.run - 1 } in
    let c = s.csum % 256 in
    let left = sum_left mem s l none (ground (arith, b)) in
    let split =
      left.2
      ∙ wire_octets-step s.csum_left s.csum left.1
      ∙ ap (λ xs. c ∷ xs) (sym (sum_only mem s₁ left.0 none)) in
    rw (ne→==-false s.csum_left 0 left.1) (
      rw (ne→==-false s.csum_left 0 left.1) record {
        wrote =
            sent_group alg s.run (s.run - 1) s.delim s.full s.armed s.csum (s.csum / 256)
              (cenc_ahead mem s) (c ∷ []) (cenc_ahead mem s₁) split (ground (arith, b))
              (λ f. absurd (ground (arith, left.0, f)));
        fits = omega arith;
        loaded = record {
          hdr_some = l.hdr_some;
          in_data = l.in_data;
          in_group =
              sent-InGroup s₁ (c ∷ []) l.in_group split (ground (arith, b))
                (λ a. omega (arith, none)) (λ f. absurd (ground (arith, left.0, f)));
        };
        last = λ e. absurd (omega (arith, e));
      })

-- One round of the loop of `case cenc_data`.
send-Rounded :
    (mem : ℕ → ℕ) (alg : Option CsumAlg) (room : ℕ) (s : Cenc)
    → cenc_sending s ≡ true
    → IsSending mem s
    → Filling.Rounded cenc_sending
        (group_pending mem alg)
        (IsSending mem)
        (suc room)
        s
        (cenc_send_round mem alg (suc room) s)
send-Rounded mem alg room s b l =
    let w = switched mem s in
    let u = record s { ptr = w.p; sz = w.n; payload_size = w.m } in
    subst
      (λ v.
        Filling.Rounded cenc_sending (group_pending mem alg) (IsSending mem) (suc room) s
          (if v.sz == 0 then cenc_shift (cenc_rearm alg v) else cenc_copy mem (suc room) v))
      (sym w.switch_is)
      (from_switched w _ (elim (Bool-cases (w.n == 0)) [
        | inl e ↦
            rw e (shift-Rounded mem alg room u b (u_loaded w) (ground (arith, e, w.header_first)))
        | inr e ↦ rw e (copy-Rounded mem alg room u b (u_loaded w) (ground (arith, e)))
      ]))
  where
    u_loaded :
        (w : Switched mem s) → IsSending mem (record s { ptr = w.p; sz = w.n; payload_size = w.m })
    u_loaded w = record {
      hdr_some = l.hdr_some;
      in_data = l.in_data;
      in_group =
          sent-InGroup (record s { ptr = w.p; sz = w.n; payload_size = w.m }) [] l.in_group
            (sym (on_switch mem s w)) (omega arith)
            (λ a. omega (arith, l.in_group.body_done a, w.same_length)) l.in_group.not_yet;
    }

    from_switched :
        (w : Switched mem s) (out : List ℕ × Cenc)
        → Filling.Rounded cenc_sending
            (group_pending mem alg)
            (IsSending mem)
            (suc room)
            (record s { ptr = w.p; sz = w.n; payload_size = w.m })
            out
        → Filling.Rounded cenc_sending (group_pending mem alg) (IsSending mem) (suc room) s out
    from_switched w out r = record {
      wrote =
          ap (group_left alg s.run s.delim s.full s.armed s.csum) (sym (on_switch mem s w))
          ∙ r.wrote;
      fits = r.fits;
      loaded = r.loaded;
      last = r.last;
    }

-- The loop of `case cenc_data`, in whatever room there is.
pub send-Filled :
    (mem : ℕ → ℕ) (alg : Option CsumAlg) (room : ℕ) (s : Cenc)
    → IsSending mem s
    → Filling.Filled cenc_sending
        (group_pending mem alg)
        (IsSending mem)
        room
        s
        (cenc_send mem alg room s)
send-Filled mem alg room s l =
    Filling.fill-Filled cenc_sending (cenc_send_round mem alg) (group_pending mem alg)
      (IsSending mem) (send-Rounded mem alg) room s l
