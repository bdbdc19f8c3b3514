-- ===== src/Linux/Checksums/Calls.antt =====
-- Calls on the checksums with no rule for them (src/lib/platform/linux/ludlc_csum.c). Also a descriptor
-- that has two nodes is reached here.
use ludlc.Prelude.{
  ℕ, ◌-◌, ◌≤◌, sym, Bool, false, Option, none, some, List, [], ◌∷◌, ◌++◌, ◌==◌, All, Bool-cases,
  inl, inr, arith,
}
use mathlib.Core.Path.{subst}
use ludlc.Linux.Checksums.{
  Node, Desc, node_of, change_node, put_back, add_ref, drop_ref, csum_get, csum_put, put_node,
  hold_node, crc_register, crc_unregister,
}
use ludlc.Linux.Checksums.Nodes.{if_yes, if_no}
use ludlc.Linux.Checksums.Register.{crc_register_nodes}
use ludlc.Linux.Checksums.Counted.{IsPositive}

module _ (streq : List ℕ → List ℕ → Bool) (desc : ℕ → Desc) (csums : List ℕ) where
  -- The nodes that the calls leave: any descriptor is registered and unregistered at any time, and
  -- links ask for any and put any. ludlc_link_csum_set and ludlc_link_csum_drop make these calls.
  pub data Called : List Node → Type 0 where
    no_call : Called []
    register_called :
        {nodes : List Node} (crc owner : ℕ) (room : Bool)
        → Called nodes
        → Called (crc_register streq desc csums nodes crc owner room).0
    unregister_called :
        {nodes : List Node} (crc : ℕ) → Called nodes → Called (crc_unregister nodes crc)
    get_called :
        {nodes : List Node} (alive : ℕ → Bool) (slot : Option ℕ)
        → Called nodes
        → Called (csum_get alive nodes slot).0
    put_called :
        {nodes : List Node} (slot : Option ℕ) → Called nodes → Called (csum_put nodes slot).0

abbrev pub IsUsed : Node → Type 0
IsUsed node = 1 ≤ node.refs

pub node_of-IsPositive :
    (nodes : List Node) (crc : ℕ) → All IsUsed nodes → IsPositive (node_of nodes crc)
unfolding node_of
node_of-IsPositive [] crc h = tt
node_of-IsPositive (n ∷ nodes) crc h = elim (Bool-cases (n.crc == crc)) [
  | inl e ↦ subst IsPositive (sym (if_yes _ _ e)) h.0
  | inr e ↦ subst IsPositive (sym (if_no _ _ e)) (node_of-IsPositive nodes crc h.1)
]

put_back-IsUsed :
    (o : Option Node) (nodes : List Node)
    → IsPositive o
    → All IsUsed nodes
    → All IsUsed (put_back o nodes)
put_back-IsUsed none nodes p h = h
put_back-IsUsed (some n) nodes p h = (p, h)

change_node-IsUsed :
    (f : Node → Option Node) (nodes : List Node) (crc : ℕ)
    → ((n : Node) → IsUsed n → IsPositive (f n))
    → All IsUsed nodes
    → All IsUsed (change_node f nodes crc)
unfolding change_node
change_node-IsUsed f [] crc k h = tt
change_node-IsUsed f (n ∷ nodes) crc k h = elim (Bool-cases (n.crc == crc)) [
  | inl e ↦ subst (All IsUsed) (sym (if_yes _ _ e)) (put_back-IsUsed (f n) nodes (k n h.0) h.1)
  | inr e ↦ subst (All IsUsed) (sym (if_no _ _ e)) (h.0, change_node-IsUsed f nodes crc k h.1)
]

drop_ref-IsPositive : (n : Node) → IsPositive (drop_ref n)
drop_ref-IsPositive n = elim (Bool-cases (n.refs - 1 == 0)) [
  | inl e ↦ subst IsPositive (sym (if_yes none _ e)) tt
  | inr e ↦ subst IsPositive (sym (if_no none _ e)) (ground (arith, e))
]

snoc-IsUsed :
    (nodes : List Node) (n : Node) → IsUsed n → All IsUsed nodes → All IsUsed (nodes ++ (n ∷ []))
snoc-IsUsed [] n u h = (u, tt)
snoc-IsUsed (m ∷ nodes) n u h = (h.0, snoc-IsUsed nodes n u h.1)

unregister-IsUsed :
    (nodes : List Node) (crc : ℕ) → All IsUsed nodes → All IsUsed (crc_unregister nodes crc)
unfolding crc_unregister
unregister-IsUsed nodes crc =
    change_node-IsUsed (λ node. drop_ref (record node { registered = false })) nodes crc
      (λ n u. drop_ref-IsPositive (record n { registered = false }))

get-IsUsed :
    (alive : ℕ → Bool) (nodes : List Node) (slot : Option ℕ)
    → All IsUsed nodes
    → All IsUsed (csum_get alive nodes slot).0
unfolding csum_get
get-IsUsed alive nodes none h = h
get-IsUsed alive nodes (some csum) h = held (node_of nodes csum)
  where
    held : (o : Option Node) → All IsUsed (hold_node alive nodes csum o).0
    held none = h
    held (some node) = elim (Bool-cases (alive node.owner)) [
      | inl a ↦ rw a (change_node-IsUsed add_ref nodes csum (λ n u. omega (arith, u)) h)
      | inr a ↦ rw a h
    ]

put-IsUsed :
    (nodes : List Node) (slot : Option ℕ) → All IsUsed nodes → All IsUsed (csum_put nodes slot).0
unfolding csum_put
put-IsUsed nodes none h = h
put-IsUsed nodes (some csum) h = dropped (node_of nodes csum)
  where
    dropped : (o : Option Node) → All IsUsed (put_node nodes csum o).0
    dropped none = h
    dropped (some node) = change_node-IsUsed drop_ref nodes csum (λ n u. drop_ref-IsPositive n) h

module _ (streq : List ℕ → List ℕ → Bool) (desc : ℕ → Desc) (csums : List ℕ) where
  -- A node that is left has a reference.
  pub Called-positive : {nodes : List Node} → Called streq desc csums nodes → All IsUsed nodes
  Called-positive no_call = tt
  Called-positive (register_called {nodes} crc owner room c) =
      let h = Called-positive c in
      crc_register_nodes (All IsUsed) streq desc csums nodes crc owner room h
        (snoc-IsUsed nodes _ (omega arith) h)
  Called-positive (unregister_called {nodes} crc c) =
      unregister-IsUsed nodes crc (Called-positive c)
  Called-positive (get_called {nodes} alive slot c) =
      get-IsUsed alive nodes slot (Called-positive c)
  Called-positive (put_called {nodes} slot c) = put-IsUsed nodes slot (Called-positive c)
