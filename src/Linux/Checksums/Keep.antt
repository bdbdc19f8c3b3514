-- ===== src/Linux/Checksums/Keep.antt =====
-- What each call does to the references (src/lib/platform/linux/ludlc_csum.c).
use ludlc.Prelude.{
  ℕ, ◌+◌, ◌≤◌, ◌≡◌, refl, ◌∙◌, ap, sym, Bool, true, false, ◌&&◌, Option, none, some, List, [], ◌∷◌,
  ◌++◌, ◌==◌, Bool-cases, inl, inr, if◌then◌else◌, arith, ==-refl,
}
use mathlib.Core.Path.{subst}
use ludlc.Linux.Checksums.{
  Node, node_of, change_node, add_ref, drop_ref, csum_get, csum_put, put_node, hold_node,
  crc_unregister,
}
use ludlc.Linux.Checksums.Nodes.{node_of-snoc, snoc-Distinct, if_yes, if_no, equal}
use ludlc.Linux.Checksums.Counted.{
  Hold, holds, pins, refs_of, registration, owner_of, IsPositive, IsCounted, holding,
}
use ludlc.Linux.Checksums.Changed.{
  pins-le, changed-IsCounted, crc_or, drop_ref-crc, drop-Dropped, registered_counted,
}

pub unregister-IsCounted :
    {nodes : List Node} {held : List Hold} (node : Node)
    → IsCounted nodes held
    → node_of nodes node.crc ≡ some node
    → node.registered ≡ true
    → IsCounted (crc_unregister nodes node.crc) held
unfolding crc_unregister
unregister-IsCounted {nodes} {held} node h e r =
    let n = record node { registered = false } in
    let d =
      drop-Dropped n (holds node.crc held)
        (registered_counted node.crc node h e ∙ rw r (omega arith)) in
    changed-IsCounted (λ m. drop_ref (record m { registered = false })) node.crc node h
      (λ m o f. drop_ref-crc (record m { registered = false }) o f) e d.count d.positive
      (λ o p.
        d.owner (omega (arith, p, pins-le node.crc o held))
        ∙ sym (ap owner_of e)
        ∙ h.pinned node.crc o p)
      (λ c g. refl) (λ c o g. omega arith)

-- The last links' counts, without one link.
holds_without :
    (c : ℕ) (before after : List Hold) (h : Hold)
    → holds c (before ++ (h ∷ after)) ≡ holds c (before ++ after) + (if h.csum == c then 1 else 0)
unfolding holds
holds_without c [] after h = omega arith
holds_without c (b ∷ before) after h = omega (arith, holds_without c before after h)

pins_without :
    (c o : ℕ) (before after : List Hold) (h : Hold)
    → pins c o (before ++ (h ∷ after))
      ≡ pins c o (before ++ after) + (if h.csum == c && h.owner == o then 1 else 0)
unfolding pins
pins_without c o [] after h = omega arith
pins_without c o (b ∷ before) after h = omega (arith, pins_without c o before after h)

-- A checksum that is held has a node, of the module that the link pins.
pub held_node :
    {nodes : List Node} (before after : List Hold) (h : Hold)
    → IsCounted nodes (before ++ (h ∷ after))
    → (node : Node) × ((node_of nodes h.csum ≡ some node) × (node.owner ≡ h.owner))
held_node {nodes} before after h k =
    found (node_of nodes h.csum) refl
      (k.pinned h.csum h.owner (omega (arith, pins_without h.csum h.owner before after h, one_pin)))
  where
    one_pin : 1 ≤ (if h.csum == h.csum && h.owner == h.owner then 1 else 0)
    one_pin = rw (==-refl h.csum, ==-refl h.owner) (omega arith)

    found :
        (o : Option Node)
        → node_of nodes h.csum ≡ o
        → owner_of o ≡ some h.owner
        → (node : Node) × ((node_of nodes h.csum ≡ some node) × (node.owner ≡ h.owner))
    found none e f = absurd (ground (arith, f))
    found (some node) e f = (node, (e, ground (arith, f)))

pub put-IsCounted :
    {nodes : List Node} (before after : List Hold) (h : Hold)
    → IsCounted nodes (before ++ (h ∷ after))
    → IsCounted (csum_put nodes (some h.csum)).0 (before ++ after)
unfolding csum_put
put-IsCounted {nodes} before after h k =
    let (node, (e, owner)) = held_node before after h k in
    let d = drop-Dropped node (holds h.csum (before ++ after)) (
      registered_counted h.csum node k e
      ∙ ap (λ n. (if node.registered then 1 else 0) + n)
          (holds_without h.csum before after h
            ∙ ap (λ b. holds h.csum (before ++ after) + (if b then 1 else 0)) (==-refl h.csum))
      ∙ omega arith) in
    subst (λ o. IsCounted (put_node nodes h.csum o).0 (before ++ after)) (sym e)
      (changed-IsCounted drop_ref h.csum node k drop_ref-crc e d.count d.positive
        (λ o p.
          d.owner (omega (arith, p, pins-le h.csum o (before ++ after)))
          ∙ sym (ap owner_of e)
          ∙ k.pinned h.csum o (omega (arith, p, pins_without h.csum o before after h)))
        (λ c g. sym (
          holds_without c before after h
          ∙ ap (λ b. holds c (before ++ after) + (if b then 1 else 0)) g
          ∙ omega arith))
        (λ c o g. omega (arith, pins_without c o before after h)))

add-IsCounted :
    {nodes : List Node} {held : List Hold} (crc : ℕ) (node : Node)
    → IsCounted nodes held
    → node_of nodes crc ≡ some node
    → IsCounted (change_node add_ref nodes crc) (record { csum = crc; owner = node.owner } ∷ held)
unfolding holds pins
add-IsCounted {nodes} {held} crc node h e =
    changed-IsCounted add_ref crc node h (λ n m f. sym (ap (crc_or n.crc) f)) e
      (ap (λ n. n + 1) (registered_counted crc node h e) ∙ rw (==-refl crc) (omega arith))
      (omega arith)
      (λ o p. elim (Bool-cases (node.owner == o)) [
        | inl g ↦ ap some (equal node.owner o g)
        | inr g ↦ sym (ap owner_of e) ∙ h.pinned crc o (not_this o g p)
      ])
      (λ c g. rw g (omega arith)) (λ c o g. rw g (omega arith))
  where
    no_match : (o : ℕ) → (node.owner == o) ≡ false → (crc == crc && node.owner == o) ≡ false
    no_match o g = rw (==-refl crc) g

    not_this :
        (o : ℕ)
        → (node.owner == o) ≡ false
        → 1 ≤ (if crc == crc && node.owner == o then 1 else 0) + pins crc o held
        → 1 ≤ pins crc o held
    not_this o g p =
        omega (arith, subst (λ b. 1 ≤ (if b then 1 else 0) + pins crc o held) (no_match o g) p)

pub get-IsCounted :
    {nodes : List Node} {held : List Hold} (alive : ℕ → Bool) (crc : ℕ) (node : Node)
    → IsCounted nodes held
    → node_of nodes crc ≡ some node
    → IsCounted
        (csum_get alive nodes (some crc)).0
        (holding (csum_get alive nodes (some crc)).1 node.owner held)
unfolding csum_get
get-IsCounted {nodes} {held} alive crc node h e =
    subst
      (λ o.
        let out = hold_node alive nodes crc o in
        IsCounted out.0 (holding (if out.1 then some crc else none) node.owner held))
      (sym e)
      (elim (Bool-cases (alive node.owner)) [
        | inl a ↦ rw a (add-IsCounted crc node h e)
        | inr a ↦ rw a h
      ])

pub fresh-IsCounted :
    {nodes : List Node} {held : List Hold} (crc owner : ℕ)
    → IsCounted nodes held
    → node_of nodes crc ≡ none
    → IsCounted
        (nodes ++ (record { crc = crc; owner = owner; refs = 1; registered = true } ∷ []))
        held
fresh-IsCounted {nodes} {held} crc owner h e = record {
  distinct = snoc-Distinct nodes new e h.distinct;
  counted = λ c. elim (Bool-cases (crc == c)) [
    | inl g ↦
        ap refs_of (here c g)
        ∙ omega (arith, no_holds c g)
        ∙ sym (ap (λ o. registration o + holds c held) (here c g))
    | inr g ↦
        ap refs_of (there c g)
        ∙ h.counted c
        ∙ sym (ap (λ o. registration o + holds c held) (there c g))
  ];
  positive = λ c. elim (Bool-cases (crc == c)) [
    | inl g ↦ subst IsPositive (sym (here c g)) (omega arith)
    | inr g ↦ subst IsPositive (sym (there c g)) (h.positive c)
  ];
  pinned = λ c o p. elim (Bool-cases (crc == c)) [
    | inl g ↦ absurd (omega (arith, p, pins-le c o held, no_holds c g))
    | inr g ↦ ap owner_of (there c g) ∙ h.pinned c o p
  ];
}
  where
    new : Node
    new = record { crc = crc; owner = owner; refs = 1; registered = true }

    here : (c : ℕ) → (crc == c) ≡ true → node_of (nodes ++ (new ∷ [])) c ≡ some new
    here c g = node_of-snoc nodes new c e ∙ if_yes _ _ g

    there : (c : ℕ) → (crc == c) ≡ false → node_of (nodes ++ (new ∷ [])) c ≡ node_of nodes c
    there c g = node_of-snoc nodes new c e ∙ if_no _ _ g

    none_held : holds crc held ≡ 0
    none_held =
        omega (arith, ap (λ o. registration o + holds crc held) e, h.counted crc, ap refs_of e)

    no_holds : (c : ℕ) → (crc == c) ≡ true → holds c held ≡ 0
    no_holds c g = ap (λ i. holds i held) (sym (equal crc c g)) ∙ none_held
