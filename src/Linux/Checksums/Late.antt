-- ===== src/Linux/Checksums/Late.antt =====
-- A descriptor that is registered while a link uses it (src/lib/platform/linux/ludlc_csum.c:
-- ludlc_csum_hold, __ludlc_crc_register, ludlc_csum_put).
use ludlc.Prelude.{
  ℕ, ◌≡◌, refl, ◌∙◌, ap, sym, Bool, true, none, some, List, [], ◌∷◌, ◌++◌, ◌==◌, ==-refl,
  Bool-cases, inl, inr, arith,
}
use ludlc.Linux.Checksums.{
  Node, Desc, csum_ok, node_of, change_node, put_back, drop_ref, csum_get, csum_put, put_node,
  crc_register,
}
use ludlc.Linux.Checksums.Nodes.{if_yes, if_no, node_of-snoc}
use ludlc.Linux.Checksums.Apart.{get-none}
use ludlc.Linux.Checksums.Checked.{register-new}

some-none : (node : Node) → some node ≡ none → ⊥
some-none node e = ground (arith, e)

-- The one reference of a node at the end is dropped.
drop-snoc :
    (nodes : List Node) (node : Node)
    → node_of nodes node.crc ≡ none
    → drop_ref node ≡ none
    → change_node drop_ref (nodes ++ (node ∷ [])) node.crc ≡ nodes
unfolding node_of change_node
drop-snoc [] node e d = if_yes _ _ (==-refl node.crc) ∙ ap (λ o. put_back o []) d
drop-snoc (n ∷ nodes) node e d = elim (Bool-cases (n.crc == node.crc)) [
  | inl g ↦ absurd (some-none n (sym (if_yes _ _ g) ∙ e))
  | inr g ↦ if_no _ _ g ∙ ap (λ ns. n ∷ ns) (drop-snoc nodes node (sym (if_no _ _ g) ∙ e) d)
]

put-snoc :
    (nodes : List Node) (node : Node)
    → node_of nodes node.crc ≡ none
    → drop_ref node ≡ none
    → csum_put (nodes ++ (node ∷ [])) (some node.crc) ≡ (nodes, some node.owner)
unfolding csum_put
put-snoc nodes node e d =
    ap (put_node (nodes ++ (node ∷ [])) node.crc)
      (node_of-snoc nodes node node.crc e ∙ if_yes _ _ (==-refl node.crc))
    ∙ ap (λ ns. (ns, some node.owner)) (drop-snoc nodes node e d)

module _ (streq : List ℕ → List ℕ → Bool) (desc : ℕ → Desc) where
  -- A link is given a descriptor that has no node, and then a module registers it with success. The
  -- link took no reference; but when it puts the descriptor, the module is released all the same, and
  -- the nodes are those from before the registration.
  pub csum_put-registered_late :
      (alive : ℕ → Bool) (csums : List ℕ) (nodes : List Node) (crc owner : ℕ) (room : Bool)
      → node_of nodes crc ≡ none
      → (crc_register streq desc csums nodes crc owner room).1 ≡ csum_ok
      → (csum_get alive nodes (some crc) ≡ (nodes, some crc))
        × (csum_put (crc_register streq desc csums nodes crc owner room).0 (some crc)
            ≡ (nodes, some owner))
  csum_put-registered_late alive csums nodes crc owner room e ok = (
    get-none alive nodes crc e,
    ap (λ ns. csum_put ns (some crc)) (register-new streq desc csums nodes crc owner room ok).1
        ∙ put-snoc nodes (record { crc = crc; owner = owner; refs = 1; registered = true }) e refl,
  )
