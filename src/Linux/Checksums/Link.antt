-- ===== src/Linux/Checksums/Link.antt =====
-- The checksum of a link (src/lib/platform/linux/ludlc_csum.c: ludlc_link_csum_set).
use ludlc.Prelude.{
  ℕ, ◌+◌, ◌≤◌, ◌≡◌, refl, ◌∙◌, ap, sym, ◌⊎◌, Bool, Option, none, some, List, [], ◌∷◌, ◌==◌,
  Bool-cases, inl, inr, if◌then◌else◌, arith,
}
use mathlib.Core.Path.{subst}
use ludlc.Linux.Checksums.{
  Node, Desc, CsumRet, csum_ok, csum_einval, csum_eopnotsupp, csum_enomem, csum_eexist, csum_enodev,
  node_of, change_node, put_back, add_ref, drop_ref, hold_node, put_node, csum_get, csum_put,
  csum_check, link_csum_drop, LinkSet, checked_link, held_link, link_csum_set,
}
use ludlc.Linux.Checksums.Nodes.{if_yes, if_no, and_then}
use ludlc.Linux.Checksums.Counted.{IsPositive}
use ludlc.Linux.Checksums.Calls.{Called, Called-positive, node_of-IsPositive}

drop-add :
    (node : Node) → 1 ≤ node.refs → drop_ref (record node { refs = node.refs + 1 }) ≡ some node
drop-add node h =
    ap (λ n. if n == 0 then none else some (record node { refs = n })) {y = node.refs} (omega arith)
    ∙ if_no none (some node) (ground (arith, h))

-- A reference that is taken and dropped changes nothing.
change-change :
    (nodes : List Node) (crc : ℕ)
    → IsPositive (node_of nodes crc)
    → change_node drop_ref (change_node add_ref nodes crc) crc ≡ nodes
unfolding change_node node_of
change-change [] crc h = refl
change-change (n ∷ nodes) crc h = elim (Bool-cases (n.crc == crc)) [
  | inl e ↦
      ap (λ ns. change_node drop_ref ns crc) (if_yes _ _ e)
      ∙ if_yes _ _ e
      ∙ ap (λ o. put_back o nodes) (drop-add n (subst IsPositive (if_yes _ _ e) h))
  | inr e ↦
      ap (λ ns. change_node drop_ref ns crc) (if_no _ _ e)
      ∙ if_no _ _ e
      ∙ ap (λ ns. n ∷ ns) (change-change nodes crc (subst IsPositive (if_no _ _ e) h))
]

node_of-add :
    (nodes : List Node) (csum : ℕ) (node : Node)
    → node_of nodes csum ≡ some node
    → node_of (change_node add_ref nodes csum) csum ≡ some (record node { refs = node.refs + 1 })
unfolding change_node node_of
node_of-add [] csum node e = absurd (ground (arith, e))
node_of-add (n ∷ nodes) csum node e = elim (Bool-cases (n.crc == csum)) [
  | inl g ↦
      ap (λ ns. node_of ns csum) (if_yes _ _ g)
      ∙ if_yes _ _ g
      ∙ ap (and_then add_ref) (sym (if_yes _ _ g) ∙ e)
  | inr g ↦
      ap (λ ns. node_of ns csum) (if_no _ _ g)
      ∙ if_no _ _ g
      ∙ node_of-add nodes csum node (sym (if_no _ _ g) ∙ e)
]

held-drop :
    (nodes : List Node) (csum : ℕ) (node : Node)
    → node_of nodes csum ≡ some node
    → IsPositive (node_of nodes csum)
    → (link_csum_drop (change_node add_ref nodes csum) (some csum)).0 ≡ nodes
unfolding link_csum_drop csum_put
held-drop nodes csum node e h =
    ap (λ o. (put_node (change_node add_ref nodes csum) csum o).0) (node_of-add nodes csum node e)
    ∙ change-change nodes csum h

unheld-drop :
    (nodes : List Node) (csum : ℕ)
    → node_of nodes csum ≡ none
    → (link_csum_drop nodes (some csum)).0 ≡ nodes
unfolding link_csum_drop csum_put
unheld-drop nodes csum e = ap (λ o. (put_node nodes csum o).0) e

-- What a call leaves, in a link without a checksum before: the checksum, or all as it was.
abbrev pub Chosen : List Node → ℕ → LinkSet → Type 0
Chosen nodes csum out =
    ((out.ret ≡ csum_ok) × (out.slot ≡ some csum))
    ⊎ (¬ (out.ret ≡ csum_ok) × ((out.nodes ≡ nodes) × (out.slot ≡ none)))

checked_link-Chosen :
    (nodes held : List Node) (csum : ℕ) (ret : CsumRet)
    → (link_csum_drop held (some csum)).0 ≡ nodes
    → Chosen nodes csum (checked_link ret held csum)
unfolding link_csum_drop
checked_link-Chosen nodes held csum csum_ok e = inl (refl, refl)
checked_link-Chosen nodes held csum csum_einval e = inr ((λ f. ground (arith, f)), (e, refl))
checked_link-Chosen nodes held csum csum_eopnotsupp e = inr ((λ f. ground (arith, f)), (e, refl))
checked_link-Chosen nodes held csum csum_enomem e = inr ((λ f. ground (arith, f)), (e, refl))
checked_link-Chosen nodes held csum csum_eexist e = inr ((λ f. ground (arith, f)), (e, refl))
checked_link-Chosen nodes held csum csum_enodev e = inr ((λ f. ground (arith, f)), (e, refl))

module _ (desc : ℕ → Desc) (alive : ℕ → Bool) where
  abbrev link_of : List Node → ℕ → Option Node → LinkSet
  link_of nodes csum o =
      let out = hold_node alive nodes csum o in
      held_link desc none (out.0, if out.1 then some csum else none)

  link_of-Chosen :
      (nodes : List Node) (csum : ℕ) (o : Option Node)
      → node_of nodes csum ≡ o
      → IsPositive (node_of nodes csum)
      → Chosen nodes csum (link_of nodes csum o)
  link_of-Chosen nodes csum none e h =
      checked_link-Chosen nodes nodes csum (csum_check (desc csum)) (unheld-drop nodes csum e)
  link_of-Chosen nodes csum (some node) e h = elim (Bool-cases (alive node.owner)) [
    | inl a ↦ rw a (
        checked_link-Chosen nodes (change_node add_ref nodes csum) csum (csum_check (desc csum))
          (held-drop nodes csum node e h))
    | inr a ↦ rw a (inr ((λ f. ground (arith, f)), (refl, refl)))
  ]

  -- After any calls, of any modules and links, in any order and with no rule for them, a link without a
  -- checksum asks for one by ludlc_link_csum_set, whatever the descriptor is and whether its module is
  -- alive or not. Either the call returns 0 and the link has the checksum, or it returns an error, the
  -- link has none, and every reference is as it was.
  pub link_csum_set-Chosen :
      (streq : List ℕ → List ℕ → Bool) (csums : List ℕ) {nodes : List Node} (csum : ℕ)
      → Called streq desc csums nodes
      → Chosen nodes csum (link_csum_set desc alive nodes none (some csum))
  unfolding link_csum_set csum_get
  link_csum_set-Chosen streq csums {nodes} csum called =
      link_of-Chosen nodes csum (node_of nodes csum) refl
        (node_of-IsPositive nodes csum (Called-positive streq desc csums called))
