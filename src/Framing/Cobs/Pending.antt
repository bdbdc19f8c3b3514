-- ===== src/Framing/Cobs/Pending.antt =====
-- What the zero-stuffing encoder still has to write (src/lib/ludlc_cobs.c: ludlc_cobs_enc_fill).
use ludlc.Prelude.{
  ℕ, ◌+◌, ◌≤◌, ◌<◌, ◌≡◌, ◌≢◌, ◌⊎◌, Bool, true, false, not, ◌&&◌, Option, List, [], ◌∷◌, ◌++◌, ◌==◌,
  if◌then◌else◌, length, take, drop,
}
use ludlc.Framing.Csum.{CsumAlg, csum_start, wire_octets, framed_from}
use ludlc.Framing.Cobs.{delimiter}
use ludlc.Framing.Cobs.Groups.{stuffed}
use ludlc.Framing.Cobs.Encode.{Cenc, CencFsm, cenc_idle, cenc_code, cenc_data}
use ludlc.Framing.Cobs.Ahead.{ahead, whole, body_of}

-- The frame's octets from where the encoder stands.
abbrev pub cenc_ahead : (ℕ → ℕ) → Cenc → List ℕ
cenc_ahead mem s =
    ahead s.armed (body_of mem s.ptr s.sz s.payload s.payload_size) (wire_octets s.csum_left s.csum)

-- What follows a group that is sent, with the octets `xs` of the frame behind it.
abbrev pub behind_group : Option CsumAlg → Bool → Bool → Bool → ℕ → List ℕ → List ℕ
behind_group alg delim full armed csum xs =
    if delim
    then stuffed (whole alg armed csum (drop 1 xs))
    else if full && not (length (whole alg armed csum xs) == 0)
    then stuffed (whole alg armed csum xs)
    else delimiter ∷ []

-- The same, of which `run` octets are still to be sent.
abbrev pub group_left : Option CsumAlg → ℕ → Bool → Bool → Bool → ℕ → List ℕ → List ℕ
group_left alg run delim full armed csum xs =
    take run xs ++ behind_group alg delim full armed csum (drop run xs)

abbrev pub cobs_pending_at : (ℕ → ℕ) → Option CsumAlg → CencFsm → Cenc → List ℕ
cobs_pending_at mem alg cenc_idle s =
    if s.hdr_size == 0
    then []
    else stuffed (
        framed_from alg (csum_start alg s.csum)
          (body_of mem s.hdr s.hdr_size s.payload s.payload_size))
cobs_pending_at mem alg cenc_code s = stuffed (whole alg s.armed s.csum (cenc_ahead mem s))
cobs_pending_at mem alg cenc_data s =
    group_left alg s.run s.delim s.full s.armed s.csum (cenc_ahead mem s)

-- What the encoder still has to write.
abbrev pub cobs_pending : (ℕ → ℕ) → Option CsumAlg → Cenc → List ℕ
cobs_pending mem alg s = cobs_pending_at mem alg s.state s

-- Between groups, or with `run` octets of a group to send.
pub record InGroup (mem : ℕ → ℕ) (run : ℕ) (delim : Bool) (s : Cenc) : Type 0 where
  pub body_done : s.armed ≡ true → s.sz + s.payload_size ≤ run
  pub not_yet : s.armed ≡ false → s.csum_left ≡ 0
  pub enough : run ≤ length (cenc_ahead mem s)
  pub zero_left : delim ≡ true → run < length (cenc_ahead mem s)

abbrev pub CobsPhase : (ℕ → ℕ) → CencFsm → Cenc → Type 0
CobsPhase mem cenc_idle s = s.armed ≡ false
CobsPhase mem cenc_code s = InGroup mem 0 false s
CobsPhase mem cenc_data s = InGroup mem s.run s.delim s

-- An encoder with a packet in memory, or none.
pub record IsCobsLoaded (mem : ℕ → ℕ) (s : Cenc) : Type 0 where
  pub hdr_some : (s.hdr_size ≡ 0) ⊎ (s.hdr ≢ 0)
  pub phase : CobsPhase mem s.state s
