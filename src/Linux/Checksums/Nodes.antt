-- ===== src/Linux/Checksums/Nodes.antt =====
-- The list of nodes, looked up and changed (src/lib/platform/linux/ludlc_csum.c: ludlc_csum_node_of).
use ludlc.Prelude.{
  ℕ, ◌≡◌, refl, ◌∙◌, ap, sym, Bool, true, false, Option, none, some, List, [], ◌∷◌, ◌++◌, ◌==◌,
  Bool-cases, inl, inr, if◌then◌else◌, arith,
}
use mathlib.Core.Path.{subst}
use ludlc.Linux.Checksums.{Node, node_of, change_node, put_back}

-- No descriptor has two nodes.
abbrev pub Distinct : List Node → Type 0
Distinct [] = Unit
Distinct (node ∷ nodes) = (node_of nodes node.crc ≡ none) × Distinct nodes

node_of_head :
    (node : Node) (nodes : List Node) (c : ℕ)
    → (node.crc == c) ≡ true
    → node_of (node ∷ nodes) c ≡ some node
unfolding node_of
node_of_head node nodes c e = rw e refl

node_of_tail :
    (node : Node) (nodes : List Node) (c : ℕ)
    → (node.crc == c) ≡ false
    → node_of (node ∷ nodes) c ≡ node_of nodes c
unfolding node_of
node_of_tail node nodes c e = rw e refl

nothing : (c : ℕ) → node_of [] c ≡ none
unfolding node_of
nothing c = refl

pub equal : (a b : ℕ) → (a == b) ≡ true → a ≡ b
equal a b e = ground (arith, e)

other : (a b c : ℕ) → (a == b) ≡ false → (a == c) ≡ true → (b == c) ≡ false
other a b c g e = ground (arith, g, e)

pub turned : (a b : ℕ) → (a == b) ≡ false → (b == a) ≡ false
turned a b e = ground (arith, e)

-- What a change keeps of a node.
abbrev pub Keeps : (Node → Option Node) → Type 0
Keeps f = (node m : Node) → f node ≡ some m → m.crc ≡ node.crc

abbrev pub and_then : (Node → Option Node) → Option Node → Option Node
and_then f none = none
and_then f (some node) = f node

pub if_yes : {A : Type 0} {b : Bool} (x y : A) → b ≡ true → (if b then x else y) ≡ x
if_yes x y e = ap (λ c. if c then x else y) e

pub if_no : {A : Type 0} {b : Bool} (x y : A) → b ≡ false → (if b then x else y) ≡ y
if_no x y e = ap (λ c. if c then x else y) e

node_of-put_back :
    (n : Node) (o : Option Node) (nodes : List Node) (c : ℕ)
    → ((m : Node) → o ≡ some m → m.crc ≡ n.crc)
    → node_of nodes n.crc ≡ none
    → node_of (put_back o nodes) c ≡ (if n.crc == c then o else node_of nodes c)
node_of-put_back n none nodes c same d = elim (Bool-cases (n.crc == c)) [
  | inl e ↦ ap (node_of nodes) (sym (equal n.crc c e)) ∙ d ∙ sym (if_yes none _ e)
  | inr e ↦ sym (if_no _ _ e)
]
node_of-put_back n (some m) nodes c same d = elim (Bool-cases (n.crc == c)) [
  | inl e ↦ node_of_head m nodes c (ap (λ i. i == c) (same m refl) ∙ e) ∙ sym (if_yes (some m) _ e)
  | inr e ↦ node_of_tail m nodes c (ap (λ i. i == c) (same m refl) ∙ e) ∙ sym (if_no _ _ e)
]

-- The node of the same descriptor is changed, no other is.
pub node_of-change :
    (f : Node → Option Node) (nodes : List Node) (crc c : ℕ)
    → Keeps f
    → Distinct nodes
    → node_of (change_node f nodes crc) c
      ≡ (if crc == c then and_then f (node_of nodes c) else node_of nodes c)
unfolding change_node
node_of-change f [] crc c k d = elim (Bool-cases (crc == c)) [
  | inl e ↦ nothing c ∙ sym (if_yes _ _ e ∙ ap (and_then f) (nothing c))
  | inr e ↦ sym (if_no _ _ e)
]
node_of-change f (n ∷ nodes) crc c k d =
    let ns = change_node f nodes crc in
    elim (Bool-cases (n.crc == crc)) [
      | inl g ↦
          let same = equal n.crc crc g in
          ap (λ xs. node_of xs c) (if_yes (put_back (f n) nodes) (n ∷ ns) g)
          ∙ node_of-put_back n (f n) nodes c (k n) d.0
          ∙ elim (Bool-cases (n.crc == c)) [
            | inl e ↦
                if_yes _ _ e
                ∙ sym (
                    if_yes _ _ (ap (λ i. i == c) (sym same) ∙ e)
                    ∙ ap (and_then f) (node_of_head n nodes c e))
            | inr e ↦
                if_no _ _ e
                ∙ sym (if_no _ _ (ap (λ i. i == c) (sym same) ∙ e) ∙ node_of_tail n nodes c e)
          ]
      | inr g ↦
          ap (λ xs. node_of xs c) (if_no (put_back (f n) nodes) (n ∷ ns) g)
          ∙ elim (Bool-cases (n.crc == c)) [
            | inl e ↦
                node_of_head n ns c e
                ∙ sym (if_no _ _ (other n.crc crc c g e) ∙ node_of_head n nodes c e)
            | inr e ↦
                node_of_tail n ns c e
                ∙ node_of-change f nodes crc c k d.1
                ∙ ap (λ o. if crc == c then and_then f o else o) (sym (node_of_tail n nodes c e))
          ]
    ]

-- A change adds no node.
pub change-none :
    (f : Node → Option Node) (nodes : List Node) (crc c : ℕ)
    → Keeps f
    → Distinct nodes
    → node_of nodes c ≡ none
    → node_of (change_node f nodes crc) c ≡ none
change-none f nodes crc c k d e = elim (Bool-cases (crc == c)) [
  | inl g ↦ node_of-change f nodes crc c k d ∙ if_yes _ _ g ∙ ap (and_then f) e
  | inr g ↦ node_of-change f nodes crc c k d ∙ if_no _ _ g ∙ e
]

pub change-Distinct :
    (f : Node → Option Node) (nodes : List Node) (crc : ℕ)
    → Keeps f
    → Distinct nodes
    → Distinct (change_node f nodes crc)
unfolding change_node
change-Distinct f [] crc k d = tt
change-Distinct f (n ∷ nodes) crc k d = elim (Bool-cases (n.crc == crc)) [
  | inl g ↦
      subst Distinct (sym (if_yes (put_back (f n) nodes) (n ∷ change_node f nodes crc) g))
        (put_back-Distinct (f n) (k n))
  | inr g ↦
      subst Distinct (sym (if_no (put_back (f n) nodes) (n ∷ change_node f nodes crc) g))
        (change-none f nodes crc n.crc k d.1 d.0, change-Distinct f nodes crc k d.1)
]
  where
    put_back-Distinct :
        (o : Option Node) → ((m : Node) → o ≡ some m → m.crc ≡ n.crc) → Distinct (put_back o nodes)
    put_back-Distinct none same = d.1
    put_back-Distinct (some m) same = (ap (node_of nodes) (same m refl) ∙ d.0, d.1)

apart :
    (n : Node) (nodes : List Node) (c : ℕ)
    → node_of (n ∷ nodes) c ≡ none
    → ((n.crc == c) ≡ false) × (node_of nodes c ≡ none)
apart n nodes c e = elim (Bool-cases (n.crc == c)) [
  | inl g ↦ absurd (clash n (sym (node_of_head n nodes c g) ∙ e))
  | inr g ↦ (g, sym (node_of_tail n nodes c g) ∙ e)
]
  where
    clash : (m : Node) → some m ≡ none → ⊥
    clash m f = ground (arith, f)

-- A node at the end.
pub node_of-snoc :
    (nodes : List Node) (node : Node) (c : ℕ)
    → node_of nodes node.crc ≡ none
    → node_of (nodes ++ (node ∷ [])) c ≡ (if node.crc == c then some node else node_of nodes c)
node_of-snoc [] node c e = elim (Bool-cases (node.crc == c)) [
  | inl g ↦ node_of_head node [] c g ∙ sym (if_yes _ _ g)
  | inr g ↦ node_of_tail node [] c g ∙ sym (if_no _ _ g)
]
node_of-snoc (n ∷ nodes) node c e = elim (Bool-cases (n.crc == c)) [
  | inl g ↦
      node_of_head n (nodes ++ (node ∷ [])) c g
      ∙ sym (
          if_no _ _ (other n.crc node.crc c (apart n nodes node.crc e).0 g)
          ∙ node_of_head n nodes c g)
  | inr g ↦
      node_of_tail n (nodes ++ (node ∷ [])) c g
      ∙ node_of-snoc nodes node c (apart n nodes node.crc e).1
      ∙ ap (λ o. if node.crc == c then some node else o) (sym (node_of_tail n nodes c g))
]

pub snoc-Distinct :
    (nodes : List Node) (node : Node)
    → node_of nodes node.crc ≡ none
    → Distinct nodes
    → Distinct (nodes ++ (node ∷ []))
snoc-Distinct [] node e d = (nothing node.crc, tt)
snoc-Distinct (n ∷ nodes) node e d =
    let a = apart n nodes node.crc e in
    (
      node_of-snoc nodes node n.crc a.1 ∙ if_no _ _ (turned n.crc node.crc a.0) ∙ d.0,
      snoc-Distinct nodes node a.1 d.1,
    )
