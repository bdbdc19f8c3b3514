-- ===== src/Linux/Checksums/Changed.antt =====
-- A node whose references change (src/lib/platform/linux/ludlc_csum.c).
use ludlc.Prelude.{
  ℕ, ◌+◌, ◌-◌, ◌≤◌, ◌≡◌, ◌∙◌, ap, ap₂, sym, true, false, Option, none, some, List, [], ◌∷◌, ◌==◌,
  Bool-cases, inl, inr, if◌then◌else◌, arith,
}
use mathlib.Core.Path.{subst}
use ludlc.Linux.Checksums.{Node, node_of, change_node, drop_ref}
use ludlc.Linux.Checksums.Nodes.{
  Keeps, node_of-change, change-Distinct, and_then, if_yes, if_no, equal,
}
use ludlc.Linux.Checksums.Counted.{
  Hold, holds, pins, refs_of, registration, owner_of, IsPositive, IsCounted,
}

pub pins-le : (c o : ℕ) (held : List Hold) → pins c o held ≤ holds c held
unfolding pins holds
pins-le c o [] = omega arith
pins-le c o (h ∷ hs) = ground (arith, pins-le c o hs)

-- One node is changed, and the links that hold its checksum.
pub changed-IsCounted :
    {nodes : List Node} {held held₁ : List Hold} (f : Node → Option Node) (crc : ℕ) (node : Node)
    → IsCounted nodes held
    → Keeps f
    → node_of nodes crc ≡ some node
    → refs_of (f node) ≡ registration (f node) + holds crc held₁
    → IsPositive (f node)
    → ((o : ℕ) → 1 ≤ pins crc o held₁ → owner_of (f node) ≡ some o)
    → ((c : ℕ) → (crc == c) ≡ false → holds c held₁ ≡ holds c held)
    → ((c o : ℕ) → (crc == c) ≡ false → pins c o held₁ ≤ pins c o held)
    → IsCounted (change_node f nodes crc) held₁
changed-IsCounted {nodes} {held} {held₁} f crc node h k e count one owner same fewer = record {
  distinct = change-Distinct f nodes crc k h.distinct;
  counted = λ c. elim (Bool-cases (crc == c)) [
    | inl g ↦
        ap refs_of (here c g)
        ∙ count
        ∙ sym (ap₂ (λ o i. registration o + holds i held₁) (here c g) (sym (equal crc c g)))
    | inr g ↦
        ap refs_of (there c g)
        ∙ h.counted c
        ∙ sym (ap₂ (λ o n. registration o + n) (there c g) (same c g))
  ];
  positive = λ c. elim (Bool-cases (crc == c)) [
    | inl g ↦ subst IsPositive (sym (here c g)) one
    | inr g ↦ subst IsPositive (sym (there c g)) (h.positive c)
  ];
  pinned = λ c o p. elim (Bool-cases (crc == c)) [
    | inl g ↦
        ap owner_of (here c g) ∙ owner o (subst (λ i. 1 ≤ pins i o held₁) (sym (equal crc c g)) p)
    | inr g ↦ ap owner_of (there c g) ∙ h.pinned c o (omega (arith, p, fewer c o g))
  ];
}
  where
    here : (c : ℕ) → (crc == c) ≡ true → node_of (change_node f nodes crc) c ≡ f node
    here c g =
        node_of-change f nodes crc c k h.distinct
        ∙ if_yes _ _ g
        ∙ ap (and_then f) (ap (node_of nodes) (sym (equal crc c g)) ∙ e)

    there : (c : ℕ) → (crc == c) ≡ false → node_of (change_node f nodes crc) c ≡ node_of nodes c
    there c g = node_of-change f nodes crc c k h.distinct ∙ if_no _ _ g

abbrev pub crc_or : ℕ → Option Node → ℕ
crc_or c none = c
crc_or c (some node) = node.crc

pub drop_ref-crc : (n m : Node) → drop_ref n ≡ some m → m.crc ≡ n.crc
drop_ref-crc n m f = sym (ap (crc_or n.crc) f) ∙ elim (Bool-cases (n.refs - 1 == 0)) [
  | inl z ↦ ap (crc_or n.crc) (if_yes _ _ z)
  | inr z ↦ ap (crc_or n.crc) (if_no _ _ z)
]

-- A node after one reference of it is dropped, of which `k` are links'.
pub record Dropped (n : Node) (k : ℕ) : Type 0 where
  pub count : refs_of (drop_ref n) ≡ registration (drop_ref n) + k
  pub positive : IsPositive (drop_ref n)
  pub owner : 1 ≤ k → owner_of (drop_ref n) ≡ some n.owner

pub drop-Dropped :
    (n : Node) (k : ℕ) → n.refs ≡ (if n.registered then 1 else 0) + k + 1 → Dropped n k
drop-Dropped n k e = elim (Bool-cases (n.refs - 1 == 0)) [
  | inl z ↦
      let gone = if_yes none _ z in
      record {
        count =
            ap refs_of gone
            ∙ ap₂ (λ o i. registration o + i) {x = none} (sym gone) (sym (none_left z));
        positive = subst IsPositive (sym gone) tt;
        owner = λ one. absurd (omega (arith, one, none_left z));
      }
  | inr z ↦
      let stays = if_no none _ z in
      record {
        count = ap refs_of stays ∙ omega (arith, e) ∙ ap (λ o. registration o + k) (sym stays);
        positive = subst IsPositive (sym stays) (ground (arith, z));
        owner = λ one. ap owner_of stays;
      }
]
  where
    none_left : (n.refs - 1 == 0) ≡ true → k ≡ 0
    none_left z = ground (arith, z, e)

pub registered_counted :
    {nodes : List Node} {held : List Hold} (crc : ℕ) (node : Node)
    → IsCounted nodes held
    → node_of nodes crc ≡ some node
    → node.refs ≡ (if node.registered then 1 else 0) + holds crc held
registered_counted {nodes} {held} crc node h e =
    sym (ap refs_of e) ∙ h.counted crc ∙ ap (λ o. registration o + holds crc held) e
