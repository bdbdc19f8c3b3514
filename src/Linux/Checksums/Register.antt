-- ===== src/Linux/Checksums/Register.antt =====
-- A checksum that a module offers (src/lib/platform/linux/ludlc_csum.c: __ludlc_crc_register).
use ludlc.Prelude.{ℕ, Bool, not, ◌||◌, List, [], ◌∷◌, ◌++◌, ◌==◌, true, ltb, Bool-cases, inl, inr}
use ludlc.Linux.Checksums.{
  Node, Desc, crc_register, is_empty, is_known, max_csum_size, lookup_csum, csum_verifies,
}

-- The nodes are left alone, or one more stands behind them.
pub crc_register_nodes {ℓ} :
    (P : List Node → Type ℓ) (streq : List ℕ → List ℕ → Bool) (desc : ℕ → Desc) (csums : List ℕ)
    (nodes : List Node) (crc owner : ℕ) (room : Bool)
    → P nodes
    → P (nodes ++ (record { crc = crc; owner = owner; refs = 1; registered = true } ∷ []))
    → P (crc_register streq desc csums nodes crc owner room).0
unfolding crc_register
crc_register_nodes P streq desc csums nodes crc owner room h k =
    let d = desc crc in
    elim (Bool-cases (not d.computes || is_empty d.name)) [
      | inl a ↦ rw a h
      | inr a ↦ rw a (elim (Bool-cases (d.alg.octets == 0 || ltb max_csum_size d.alg.octets)) [
        | inl b ↦ rw b h
        | inr b ↦ rw b (elim (Bool-cases (csum_verifies d.alg)) [
          | inr v ↦ rw v h
          | inl v ↦ rw v (elim (Bool-cases room) [
            | inr r ↦ rw r h
            | inl r ↦
                rw r (elim (Bool-cases (is_known (lookup_csum streq desc csums nodes d.name))) [
                  | inl l ↦ rw l h
                  | inr l ↦ rw l k
                ])
          ])
        ])
      ])
    ]
