-- ===== src/Linux/Checksums/Counted.antt =====
-- The references to the checksums (src/lib/platform/linux/ludlc_csum.c): those that links hold, and that
-- of a registration.
use ludlc.Prelude.{
  ℕ, ◌+◌, ◌≤◌, ◌≡◌, Bool, true, ◌&&◌, Option, none, some, List, [], ◌∷◌, ◌++◌, ◌==◌, if◌then◌else◌,
}
use ludlc.Linux.Checksums.{Node, Desc, node_of, csum_get, csum_put, crc_register, crc_unregister}
use ludlc.Linux.Checksums.Nodes.{Distinct}

-- A link that holds a checksum, and the module that it pins.
pub record Hold : Type 0 where
  pub csum : ℕ
  pub owner : ℕ

-- How many links hold the checksum `c`, and how many of them pin the module `o`.
unfoldable pub holds : ℕ → List Hold → ℕ
holds c [] = 0
holds c (h ∷ hs) = (if h.csum == c then 1 else 0) + holds c hs

unfoldable pub pins : ℕ → ℕ → List Hold → ℕ
pins c o [] = 0
pins c o (h ∷ hs) = (if h.csum == c && h.owner == o then 1 else 0) + pins c o hs

abbrev pub refs_of : Option Node → ℕ
refs_of none = 0
refs_of (some node) = node.refs

abbrev pub registration : Option Node → ℕ
registration none = 0
registration (some node) = if node.registered then 1 else 0

abbrev pub owner_of : Option Node → Option ℕ
owner_of none = none
owner_of (some node) = some node.owner

abbrev pub IsPositive : Option Node → Type 0
IsPositive none = Unit {0}
IsPositive (some node) = 1 ≤ node.refs

-- Every reference is a link's or the registration's.
pub record IsCounted (nodes : List Node) (held : List Hold) : Type 0 where
  pub distinct : Distinct nodes
  pub counted : (c : ℕ) → refs_of (node_of nodes c) ≡ registration (node_of nodes c) + holds c held
  pub positive : (c : ℕ) → IsPositive (node_of nodes c)
  pub pinned : (c o : ℕ) → 1 ≤ pins c o held → owner_of (node_of nodes c) ≡ some o

-- How many links were given `c` while it had no node.
unfoldable pub borrows : ℕ → List ℕ → ℕ
borrows c [] = 0
borrows c (b ∷ bs) = (if b == c then 1 else 0) + borrows c bs

-- What links use without a node keeps having none.
pub record IsApart (nodes : List Node) (borrowed : List ℕ) : Type 0 where
  pub apart : (c : ℕ) → 1 ≤ borrows c borrowed → node_of nodes c ≡ none

-- The checksums' nodes, the links that hold them, and the checksums that links use without a node.
pub record System : Type 0 where
  pub nodes : List Node
  pub held : List Hold
  pub borrowed : List ℕ

-- The link of a call of ludlc_csum_get that gives the checksum.
abbrev pub holding : Option ℕ → ℕ → List Hold → List Hold
holding none o held = held
holding (some c) o held = record { csum = c; owner = o } ∷ held

abbrev pub borrowing : Option ℕ → List ℕ → List ℕ
borrowing none bs = bs
borrowing (some c) bs = c ∷ bs

-- What a link was given, with the module that was pinned for it.
pub data Given (s : System) : ℕ → Option ℕ → Type 0 where
  pinned :
      (before after : List Hold) (h : Hold)
      → s.held ≡ before ++ (h ∷ after)
      → Given s h.csum (some h.owner)
  unpinned :
      (before after : List ℕ) (crc : ℕ) → s.borrowed ≡ before ++ (crc ∷ after) → Given s crc none

module _ (streq : List ℕ → List ℕ → Bool) (desc : ℕ → Desc) (csums : List ℕ) where
  -- Calls in any order, under the rules that keep a descriptor to one node: it is registered while it
  -- has no node and no link uses it, and unregistered while it is registered. A link asks for any
  -- descriptor, registered or not, and puts what it was given.
  pub data Step (s : System) : System → Type 0 where
    register :
        (crc owner : ℕ) (room : Bool)
        → node_of s.nodes crc ≡ none
        → borrows crc s.borrowed ≡ 0
        → Step s (record s { nodes = (crc_register streq desc csums s.nodes crc owner room).0 })
    unregister :
        (node : Node)
        → node_of s.nodes node.crc ≡ some node
        → node.registered ≡ true
        → Step s (record s { nodes = crc_unregister s.nodes node.crc })
    get :
        (alive : ℕ → Bool) (crc : ℕ) (node : Node)
        → node_of s.nodes crc ≡ some node
        → Step s (record s {
          nodes = (csum_get alive s.nodes (some crc)).0;
          held = holding (csum_get alive s.nodes (some crc)).1 node.owner s.held;
        })
    borrow :
        (alive : ℕ → Bool) (crc : ℕ)
        → node_of s.nodes crc ≡ none
        → Step s (record s {
          nodes = (csum_get alive s.nodes (some crc)).0;
          borrowed = borrowing (csum_get alive s.nodes (some crc)).1 s.borrowed;
        })
    put :
        (before after : List Hold) (h : Hold)
        → s.held ≡ before ++ (h ∷ after)
        → Step s (record s { nodes = (csum_put s.nodes (some h.csum)).0; held = before ++ after })
    put_borrowed :
        (before after : List ℕ) (crc : ℕ)
        → s.borrowed ≡ before ++ (crc ∷ after)
        → Step s (record s { nodes = (csum_put s.nodes (some crc)).0; borrowed = before ++ after })

  pub data Reach : System → Type 0 where
    loaded : Reach (record { nodes = []; held = []; borrowed = [] })
    later : {s t : System} → Reach s → Step s t → Reach t
