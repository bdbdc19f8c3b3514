-- ===== src/Linux/Checksums/Apart.antt =====
-- The checksums that links use without a node (src/lib/platform/linux/ludlc_csum.c: ludlc_csum_hold,
-- which lets them through).
use ludlc.Prelude.{
  ℕ, ◌+◌, ◌≤◌, ◌≡◌, ◌∙◌, ap, sym, Bool, true, false, Option, none, some, List, [], ◌∷◌, ◌++◌, ◌==◌,
  ==-refl, Bool-cases, inl, inr, if◌then◌else◌, arith,
}
use mathlib.Core.Path.{subst}
use ludlc.Linux.Checksums.{
  Node, Desc, node_of, add_ref, drop_ref, csum_get, csum_put, put_node, hold_node, crc_register,
  crc_unregister,
}
use ludlc.Linux.Checksums.Nodes.{Distinct, change-none, node_of-snoc, if_no, equal}
use ludlc.Linux.Checksums.Register.{crc_register_nodes}
use ludlc.Linux.Checksums.Changed.{crc_or, drop_ref-crc}
use ludlc.Linux.Checksums.Counted.{borrows, borrowing, IsApart}

node_of_unregister :
    (nodes : List Node) (crc c : ℕ)
    → Distinct nodes
    → node_of nodes c ≡ none
    → node_of (crc_unregister nodes crc) c ≡ none
unfolding crc_unregister
node_of_unregister nodes crc c =
    change-none (λ m. drop_ref (record m { registered = false })) nodes crc c
      (λ m o f. drop_ref-crc (record m { registered = false }) o f)

node_of_get :
    (alive : ℕ → Bool) (nodes : List Node) (crc c : ℕ)
    → Distinct nodes
    → node_of nodes c ≡ none
    → node_of (csum_get alive nodes (some crc)).0 c ≡ none
unfolding csum_get
node_of_get alive nodes crc c d e = held (node_of nodes crc)
  where
    held : (o : Option Node) → node_of (hold_node alive nodes crc o).0 c ≡ none
    held none = e
    held (some node) = elim (Bool-cases (alive node.owner)) [
      | inl a ↦ rw a (change-none add_ref nodes crc c (λ n m f. sym (ap (crc_or n.crc) f)) d e)
      | inr a ↦ rw a e
    ]

node_of_put :
    (nodes : List Node) (crc c : ℕ)
    → Distinct nodes
    → node_of nodes c ≡ none
    → node_of (csum_put nodes (some crc)).0 c ≡ none
unfolding csum_put
node_of_put nodes crc c d e = dropped (node_of nodes crc)
  where
    dropped : (o : Option Node) → node_of (put_node nodes crc o).0 c ≡ none
    dropped none = e
    dropped (some node) = change-none drop_ref nodes crc c drop_ref-crc d e

pub unregister-IsApart :
    {nodes : List Node} {borrowed : List ℕ} (crc : ℕ)
    → Distinct nodes
    → IsApart nodes borrowed
    → IsApart (crc_unregister nodes crc) borrowed
unregister-IsApart {nodes} crc d a = record {
  apart = λ c b. node_of_unregister nodes crc c d (a.apart c b);
}

pub get-IsApart :
    {nodes : List Node} {borrowed : List ℕ} (alive : ℕ → Bool) (crc : ℕ)
    → Distinct nodes
    → IsApart nodes borrowed
    → IsApart (csum_get alive nodes (some crc)).0 borrowed
get-IsApart {nodes} alive crc d a = record {
  apart = λ c b. node_of_get alive nodes crc c d (a.apart c b);
}

pub put-IsApart :
    {nodes : List Node} {borrowed : List ℕ} (crc : ℕ)
    → Distinct nodes
    → IsApart nodes borrowed
    → IsApart (csum_put nodes (some crc)).0 borrowed
put-IsApart {nodes} crc d a = record { apart = λ c b. node_of_put nodes crc c d (a.apart c b) }

-- A descriptor without a node is given and let go without a change.
pub get-none :
    (alive : ℕ → Bool) (nodes : List Node) (crc : ℕ)
    → node_of nodes crc ≡ none
    → csum_get alive nodes (some crc) ≡ (nodes, some crc)
unfolding csum_get
get-none alive nodes crc e =
    ap (λ o. let out = hold_node alive nodes crc o in (out.0, if out.1 then some crc else none)) e

pub put-none :
    (nodes : List Node) (crc : ℕ)
    → node_of nodes crc ≡ none
    → csum_put nodes (some crc) ≡ (nodes, none)
unfolding csum_put
put-none nodes crc e = ap (put_node nodes crc) e

pub borrow-IsApart :
    {nodes : List Node} {borrowed : List ℕ} (alive : ℕ → Bool) (crc : ℕ)
    → node_of nodes crc ≡ none
    → IsApart nodes borrowed
    → let out = csum_get alive nodes (some crc) in IsApart out.0 (borrowing out.1 borrowed)
unfolding borrows
borrow-IsApart {nodes} {borrowed} alive crc e a =
    subst (λ out. IsApart out.0 (borrowing out.1 borrowed)) (sym (get-none alive nodes crc e))
      record {
        apart = λ c b. elim (Bool-cases (crc == c)) [
          | inl g ↦ ap (node_of nodes) {x = c} {y = crc} (ground (arith, g)) ∙ e
          | inr g ↦
              a.apart c
                (omega (arith, subst (λ t. 1 ≤ (if t then 1 else 0) + borrows c borrowed) g b))
        ];
      }

borrows_without :
    (c : ℕ) (before after : List ℕ) (crc : ℕ)
    → borrows c (before ++ (crc ∷ after))
      ≡ borrows c (before ++ after) + (if crc == c then 1 else 0)
unfolding borrows
borrows_without c [] after crc = omega arith
borrows_without c (b ∷ before) after crc = omega (arith, borrows_without c before after crc)

-- What a link uses without a node has none.
pub borrowed_none :
    {nodes : List Node} (before after : List ℕ) (crc : ℕ)
    → IsApart nodes (before ++ (crc ∷ after))
    → node_of nodes crc ≡ none
borrowed_none before after crc a =
    a.apart crc (omega (arith, borrows_without crc before after crc, counts))
  where
    counts : 1 ≤ (if crc == crc then 1 else 0)
    counts = rw (==-refl crc) (omega arith)

pub put_borrowed-IsApart :
    {nodes : List Node} (before after : List ℕ) (crc : ℕ)
    → IsApart nodes (before ++ (crc ∷ after))
    → IsApart (csum_put nodes (some crc)).0 (before ++ after)
put_borrowed-IsApart {nodes} before after crc a =
    subst (λ out. IsApart out.0 (before ++ after))
      (sym (put-none nodes crc (borrowed_none before after crc a)))
      record { apart = λ c b. a.apart c (omega (arith, b, borrows_without c before after crc)) }

fresh-IsApart :
    {nodes : List Node} {borrowed : List ℕ} (node : Node)
    → node_of nodes node.crc ≡ none
    → IsApart nodes borrowed
    → borrows node.crc borrowed ≡ 0
    → IsApart (nodes ++ (node ∷ [])) borrowed
fresh-IsApart {nodes} {borrowed} node e a f = record {
  apart = λ c b. node_of-snoc nodes node c e ∙ elim (Bool-cases (node.crc == c)) [
    | inl g ↦ absurd (
        omega
          (arith, b, f, ap (λ i. borrows i borrowed) {x = node.crc} {y = c} (equal node.crc c g)))
    | inr g ↦ if_no _ _ g ∙ a.apart c b
  ];
}

module _ (streq : List ℕ → List ℕ → Bool) (desc : ℕ → Desc) (csums : List ℕ) where
  pub register-IsApart :
      {nodes : List Node} {borrowed : List ℕ} (crc owner : ℕ) (room : Bool)
      → node_of nodes crc ≡ none
      → IsApart nodes borrowed
      → borrows crc borrowed ≡ 0
      → IsApart (crc_register streq desc csums nodes crc owner room).0 borrowed
  register-IsApart {nodes} {borrowed} crc owner room e a f =
      crc_register_nodes (λ ns. IsApart ns borrowed) streq desc csums nodes crc owner room a
        (fresh-IsApart (record { crc = crc; owner = owner; refs = 1; registered = true }) e a f)
