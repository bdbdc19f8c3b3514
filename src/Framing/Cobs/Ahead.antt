-- ===== src/Framing/Cobs/Ahead.antt =====
-- The octets that the scan of the zero-stuffing encoder has ahead of it (src/lib/ludlc_cobs.c: case
-- cenc_code of ludlc_cobs_enc_fill).
use ludlc.Prelude.{
  ℕ, suc, ◌+◌, ◌-◌, ◌/◌, ◌*◌, ◌%◌, ◌^◌, ◌≤◌, ◌≡◌, ◌≢◌, refl, ◌∙◌, ap, ap₂, Bool, true, false,
  Option, List, [], ◌∷◌, ◌++◌, if◌then◌else◌, arith, length,
}
use native.Mathlib.Nat.{div-div-eq-div-mul, div-one, two-pow-succ}
use ludlc.Framing.Octets.{octets, no_octets}
use ludlc.Framing.Csum.{CsumAlg, wire_octets, wire_octets-step, framed_from}
use ludlc.Framing.Cobs.Encode.{Scan}

-- A frame's octets from some place on, the checksum's among them once it is known.
abbrev pub ahead : Bool → List ℕ → List ℕ → List ℕ
ahead armed body sum = if armed then body ++ sum else body

-- The same with the checksum, which stands at `csum` before.
abbrev pub whole : Option CsumAlg → Bool → ℕ → List ℕ → List ℕ
whole alg armed csum xs = if armed then xs else framed_from alg csum xs

abbrev pub body_of : (ℕ → ℕ) → ℕ → ℕ → ℕ → ℕ → List ℕ
body_of mem p n q m = octets mem p n ++ octets mem q m

abbrev pub scan_ahead : (ℕ → ℕ) → Scan → List ℕ
scan_ahead mem t =
    ahead t.armed (body_of mem t.p t.sz t.pay t.pay_sz)
      (wire_octets t.cleft (t.csum / 2 ^ (8 * (t.csum_left - t.cleft))))

abbrev pub scan_whole : (ℕ → ℕ) → Option CsumAlg → Scan → List ℕ
scan_whole mem alg t = whole alg t.armed t.csum (scan_ahead mem t)

-- The scan from a place with the octets `body` ahead has seen the octets `seen`.
pub record Scanning (mem : ℕ → ℕ) (body seen : List ℕ) (t : Scan) : Type 0 where
  pub body_done : t.armed ≡ true → t.sz + t.pay_sz ≡ 0
  pub not_yet : t.armed ≡ false → t.csum_left ≡ 0
  pub within : t.cleft ≤ t.csum_left
  pub seen_is : ahead t.armed body (wire_octets t.csum_left t.csum) ≡ seen ++ scan_ahead mem t
  pub passed : t.armed ≡ true → length body ≤ t.run

octet_more : (k : ℕ) → 2 ^ k * 256 ≡ 2 ^ (k + 8)
octet_more k =
    unrolled ∙ ap (λ i. 2 ^ i) {x = suc (suc (suc (suc (suc (suc (suc (suc k)))))))} (omega arith)
  where
    unrolled : 2 ^ k * 256 ≡ 2 ^ suc (suc (suc (suc (suc (suc (suc (suc k)))))))
    unrolled = omega (arith, two-pow-succ)

pub shifted :
    (v n k : ℕ) → k ≢ 0 → k ≤ n → v / 2 ^ (8 * (n - k)) / 256 ≡ v / 2 ^ (8 * (n - (k - 1)))
shifted v n k one h =
    div-div-eq-div-mul v (2 ^ (8 * (n - k))) (2 ^ 8)
    ∙ ap (λ i. v / i)
        (octet_more (8 * (n - k))
          ∙ ap (λ i. 2 ^ i) {x = 8 * (n - k) + 8} {y = 8 * (n - (k - 1))} (omega (arith, one, h)))

pub unshifted : (v n : ℕ) → v / 2 ^ (8 * (n - n)) ≡ v
unshifted v n = ap (λ k. v / 2 ^ (8 * k)) {y = 0} (omega arith) ∙ div-one v

pub body_none :
    (mem : ℕ → ℕ) (t : Scan) → t.sz + t.pay_sz ≡ 0 → body_of mem t.p t.sz t.pay t.pay_sz ≡ []
body_none mem t e =
    ap₂ (λ xs ys. xs ++ ys) (no_octets mem t.p t.sz (omega (arith, e)))
      (no_octets mem t.pay t.pay_sz (omega (arith, e)))

-- Behind the body only the checksum's octets are left.
pub sum_ahead :
    (mem : ℕ → ℕ) (alg : Option CsumAlg) (t : Scan)
    → t.armed ≡ true
    → t.sz + t.pay_sz ≡ 0
    → (scan_whole mem alg t ≡ wire_octets t.cleft (t.csum / 2 ^ (8 * (t.csum_left - t.cleft))))
      × (scan_ahead mem t ≡ wire_octets t.cleft (t.csum / 2 ^ (8 * (t.csum_left - t.cleft))))
sum_ahead mem alg t a e = rw (a, body_none mem t e) (refl, refl)

pub csum_step :
    (k n v : ℕ)
    → k ≢ 0
    → k ≤ n
    → wire_octets k (v / 2 ^ (8 * (n - k)))
      ≡ (v / 2 ^ (8 * (n - k))) % 256 ∷ wire_octets (k - 1) (v / 2 ^ (8 * (n - (k - 1))))
csum_step k n v one h =
    wire_octets-step k (v / 2 ^ (8 * (n - k))) one
    ∙ ap (λ w. (v / 2 ^ (8 * (n - k))) % 256 ∷ wire_octets (k - 1) w) (shifted v n k one h)
