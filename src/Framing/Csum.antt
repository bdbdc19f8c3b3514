-- ===== src/Framing/Csum.antt =====
-- The checksum that a link runs (struct ludlc_csum of src/include/ludlc_proto.h; the ludlc_csum_*
-- functions of src/lib/include/ludlc_private.h, of a build that runs more than one). A NULL algorithm,
-- `none`, is a link without a checksum.
use ludlc.Prelude.{
  ℕ, zero, suc, ◌+◌, ◌-◌, ◌/◌, ◌%◌, ◌<◌, ◌≤◌, All, ◌≡◌, ◌≢◌, refl, ◌∙◌, ap, Bool, true, false,
  Option, none, some, List, [], ◌∷◌, ◌++◌, ◌==◌, ==-refl, length, length-append, arith,
}

-- struct ludlc_csum: the algorithm's code is the port's.
pub record CsumAlg : Type 0 where
  pub csum : ℕ → ℕ → ℕ
  pub to_wire : Option (ℕ → ℕ)
  pub init : ℕ
  pub verify : ℕ
  pub octets : ℕ

-- ludlc_csum_on.
abbrev pub csum_on : Option CsumAlg → Bool
csum_on none = false
csum_on (some _) = true

-- ludlc_csum_octets.
abbrev pub csum_octets : Option CsumAlg → ℕ
csum_octets none = 0
csum_octets (some alg) = alg.octets

-- ludlc_csum_tx_init and ludlc_csum_rx_init, where the checksum is on; else what stood there.
abbrev pub csum_start : Option CsumAlg → ℕ → ℕ
csum_start none old = old
csum_start (some alg) old = alg.init

-- ludlc_csum_tx and ludlc_csum_rx, where the checksum is on.
abbrev pub csum_add : Option CsumAlg → ℕ → ℕ → ℕ
csum_add none sum c = sum
csum_add (some alg) sum c = alg.csum sum c

abbrev pub apply_to_wire : Option (ℕ → ℕ) → ℕ → ℕ
apply_to_wire none sum = sum
apply_to_wire (some f) sum = f sum

-- ludlc_csum_tx_final, where the checksum is on.
abbrev pub csum_tx_final : Option CsumAlg → ℕ → ℕ
csum_tx_final none sum = sum
csum_tx_final (some alg) sum = apply_to_wire alg.to_wire sum

-- ludlc_csum_rx_ok, or that the checksum is off.
abbrev pub csum_rx_ok : Option CsumAlg → ℕ → Bool
csum_rx_ok none sum = true
csum_rx_ok (some alg) sum = sum == alg.verify

-- ludlc_frame_min_sz: a PING is two octets.
abbrev pub frame_min_sz : Option CsumAlg → ℕ
frame_min_sz alg = csum_octets alg + 2

-- The checksum after some octets.
unfoldable pub csum_run : Option CsumAlg → ℕ → List ℕ → ℕ
csum_run alg sum [] = sum
csum_run alg sum (c ∷ cs) = csum_run alg (csum_add alg sum c) cs

-- A value's octets as they are sent, the least significant first.
unfoldable pub wire_octets : ℕ → ℕ → List ℕ
wire_octets zero v = []
wire_octets (suc n) v = v % 256 ∷ wire_octets n (v / 256)

pub wire_octets-step : (n v : ℕ) → n ≢ 0 → wire_octets n v ≡ v % 256 ∷ wire_octets (n - 1) (v / 256)
unfolding wire_octets
wire_octets-step zero v h = absurd (h refl)
wire_octets-step (suc n) v h = ap (λ k. v % 256 ∷ wire_octets k (v / 256)) (omega arith)

-- What follows a frame's data on the wire.
abbrev pub trailer : Option CsumAlg → ℕ → List ℕ
trailer alg sum = wire_octets (csum_octets alg) (csum_tx_final alg sum)

-- Octets, and the checksum that follows them if it stands at `sum` before.
abbrev pub framed_from : Option CsumAlg → ℕ → List ℕ → List ℕ
framed_from alg sum xs = xs ++ trailer alg (csum_run alg sum xs)

-- A packet with its checksum.
abbrev pub framed : Option CsumAlg → List ℕ → List ℕ
framed alg packet = packet ++ trailer alg (csum_run alg (csum_start alg 0) packet)

pub framed-start :
    (alg : Option CsumAlg) (sum : ℕ) (xs : List ℕ)
    → framed_from alg (csum_start alg sum) xs ≡ framed alg xs
unfolding wire_octets
framed-start none sum xs = refl
framed-start (some alg) sum xs = refl

pub csum_run-append :
    (alg : Option CsumAlg) (sum : ℕ) (xs ys : List ℕ)
    → csum_run alg sum (xs ++ ys) ≡ csum_run alg (csum_run alg sum xs) ys
unfolding csum_run
csum_run-append alg sum [] ys = refl
csum_run-append alg sum (x ∷ xs) ys = csum_run-append alg (csum_add alg sum x) xs ys

pub csum_run-snoc :
    (alg : Option CsumAlg) (sum : ℕ) (xs : List ℕ) (c : ℕ)
    → csum_run alg sum (xs ++ (c ∷ [])) ≡ csum_add alg (csum_run alg sum xs) c
unfolding csum_run
csum_run-snoc alg sum xs c = csum_run-append alg sum xs (c ∷ [])

abbrev pub IsOctet : ℕ → Type 0
IsOctet c = c < 256

-- What the documentation of struct ludlc_csum says of an algorithm: over an intact frame, the
-- checksum's octets included, the receiver computes `verify`; and the checksum has from one octet up to
-- the register's eight.
pub record IsResidual (alg : CsumAlg) : Type 0 where
  pub residual :
      (packet : List ℕ)
      → All IsOctet packet
      → csum_run (some alg) alg.init (framed (some alg) packet) ≡ alg.verify
  pub octets_from : 1 ≤ alg.octets
  pub octets_to : alg.octets ≤ 8

abbrev pub IsChecked : Option CsumAlg → Type 0
IsChecked none = Unit {0}
IsChecked (some alg) = IsResidual alg

pub length-wire_octets : (n v : ℕ) → length (wire_octets n v) ≡ n
unfolding wire_octets
length-wire_octets zero v = refl
length-wire_octets (suc n) v = ap suc (length-wire_octets n (v / 256))

length-trailer : (alg : Option CsumAlg) (sum : ℕ) → length (trailer alg sum) ≡ csum_octets alg
length-trailer alg sum = length-wire_octets (csum_octets alg) (csum_tx_final alg sum)

pub length-framed_from :
    (alg : Option CsumAlg) (sum : ℕ) (xs : List ℕ)
    → length (framed_from alg sum xs) ≡ length xs + csum_octets alg
length-framed_from alg sum xs =
    length-append xs (trailer alg (csum_run alg sum xs))
    ∙ ap (λ n. length xs + n) (length-trailer alg (csum_run alg sum xs))

pub length-framed :
    (alg : Option CsumAlg) (packet : List ℕ)
    → length (framed alg packet) ≡ length packet + csum_octets alg
length-framed alg packet =
    length-append packet (trailer alg (csum_run alg (csum_start alg 0) packet))
    ∙ ap (λ n. length packet + n) (length-trailer alg (csum_run alg (csum_start alg 0) packet))

-- The checksum of a packet that came as it was sent.
pub framed-ok :
    (alg : Option CsumAlg) (start : ℕ) (packet : List ℕ)
    → IsChecked alg
    → All IsOctet packet
    → start ≡ csum_start alg start
    → csum_rx_ok alg (csum_run alg start (framed alg packet)) ≡ true
framed-ok none start packet h o e = refl
framed-ok (some alg) start packet h o e = rw (e, h.residual packet o) (==-refl alg.verify)

pub start_again :
    (alg : Option CsumAlg) (sum : ℕ) → csum_start alg sum ≡ csum_start alg (csum_start alg sum)
start_again none sum = refl
start_again (some alg) sum = refl
