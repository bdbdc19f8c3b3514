-- ===== src/Linux/Checksums/Steps.antt =====
-- Modules and links that call on the checksums (src/lib/platform/linux/ludlc_csum.c).
use ludlc.Prelude.{ℕ, ◌≡◌, refl, ◌∙◌, ap, sym, Bool, Option, none, some, List, [], arith}
use mathlib.Core.Path.{subst}
use ludlc.Linux.Checksums.{Node, Desc, node_of, csum_put, put_node, crc_register}
use ludlc.Linux.Checksums.Counted.{
  Hold, holds, pins, IsCounted, System, Step, register, unregister, get, borrow, put, put_borrowed,
  Reach, loaded, later, IsApart, borrows, Given, pinned, unpinned,
}
use ludlc.Linux.Checksums.Keep.{
  unregister-IsCounted, held_node, put-IsCounted, get-IsCounted, fresh-IsCounted,
}
use ludlc.Linux.Checksums.Register.{crc_register_nodes}
use ludlc.Linux.Checksums.Apart.{
  register-IsApart, unregister-IsApart, get-IsApart, borrow-IsApart, put-IsApart,
  put_borrowed-IsApart, get-none, put-none, borrowed_none,
}

-- What the calls keep: the references that are links', and the checksums that need none.
record IsKept (s : System) : Type 0 where
  counts : IsCounted s.nodes s.held
  lends : IsApart s.nodes s.borrowed

module _ (streq : List ℕ → List ℕ → Bool) (desc : ℕ → Desc) (csums : List ℕ) where
  register-IsCounted :
      {nodes : List Node} {held : List Hold} (crc owner : ℕ) (room : Bool)
      → IsCounted nodes held
      → node_of nodes crc ≡ none
      → IsCounted (crc_register streq desc csums nodes crc owner room).0 held
  register-IsCounted {nodes} {held} crc owner room h e =
      crc_register_nodes (λ ns. IsCounted ns held) streq desc csums nodes crc owner room h
        (fresh-IsCounted crc owner h e)

  Step-IsKept : {s t : System} → IsKept s → Step streq desc csums s t → IsKept t
  Step-IsKept {s} h (register crc owner room e f) = record {
    counts = register-IsCounted crc owner room h.counts e;
    lends = register-IsApart streq desc csums crc owner room e h.lends f;
  }
  Step-IsKept {s} h (unregister node e r) = record {
    counts = unregister-IsCounted node h.counts e r;
    lends = unregister-IsApart node.crc h.counts.distinct h.lends;
  }
  Step-IsKept {s} h (get alive crc node e) = record {
    counts = get-IsCounted alive crc node h.counts e;
    lends = get-IsApart alive crc h.counts.distinct h.lends;
  }
  Step-IsKept {s} h (borrow alive crc e) = record {
    counts = subst (λ out. IsCounted out.0 s.held) (sym (get-none alive s.nodes crc e)) h.counts;
    lends = borrow-IsApart alive crc e h.lends;
  }
  Step-IsKept {s} h (put before after one e) = record {
    counts = put-IsCounted before after one (subst (IsCounted s.nodes) e h.counts);
    lends = put-IsApart one.csum h.counts.distinct h.lends;
  }
  Step-IsKept {s} h (put_borrowed before after crc e) =
      let a = subst (IsApart s.nodes) e h.lends in
      record {
        counts =
            subst (λ out. IsCounted out.0 s.held)
              (sym (put-none s.nodes crc (borrowed_none before after crc a))) h.counts;
        lends = put_borrowed-IsApart before after crc a;
      }

none-IsApart : IsApart [] []
unfolding borrows
none-IsApart = record { apart = λ c b. absurd (omega (arith, b)) }

none-IsCounted : IsCounted [] []
unfolding node_of holds pins
none-IsCounted = record {
  distinct = tt;
  counted = λ c. refl;
  positive = λ c. tt;
  pinned = λ c o p. absurd (omega (arith, p));
}

put-owner :
    (nodes : List Node) (csum o : ℕ) (node : Node)
    → node_of nodes csum ≡ some node
    → node.owner ≡ o
    → (csum_put nodes (some csum)).1 ≡ some o
unfolding csum_put
put-owner nodes csum o node e f = ap (λ n. (put_node nodes csum n).1) e ∙ ap some f

module _ (streq : List ℕ → List ℕ → Bool) (desc : ℕ → Desc) (csums : List ℕ) where
  -- Modules register checksums and unregister them, links ask for descriptors, registered or not, and
  -- put what they were given, in any order; a descriptor is registered only while it has no node and no
  -- link uses it, and unregistered only while it is registered. However long this goes on, each node
  -- has as many references as links that pinned its module, and one more while it is registered; it has
  -- one or more, so that it is freed when the last goes; no descriptor has two; a checksum that a link
  -- holds with its module has its node, of that module; and one that a link was given without a node
  -- has none as long as the link uses it.
  pub Reach-IsCounted :
      {s : System}
      → Reach streq desc csums s
      → IsCounted s.nodes s.held × IsApart s.nodes s.borrowed
  Reach-IsCounted loaded = (none-IsCounted, none-IsApart)
  Reach-IsCounted (later {s} r step) =
      let h = Reach-IsCounted r in
      let k = Step-IsKept streq desc csums (record { counts = h.0; lends = h.1 }) step in
      (k.counts, k.lends)

  -- After any calls in which a descriptor is registered only while it has no node and no link uses it,
  -- and unregistered only while it is registered, ludlc_csum_put of what a link was given releases
  -- exactly the module that was pinned for it: that of the node where the descriptor had one when the
  -- link was given it, and none where it had no node.
  pub csum_put-owner :
      {s : System} {csum : ℕ} {owner : Option ℕ}
      → Reach streq desc csums s
      → Given s csum owner
      → (csum_put s.nodes (some csum)).1 ≡ owner
  csum_put-owner {s} r (pinned before after h e) =
      let (node, (found, owner)) =
        held_node before after h (subst (IsCounted s.nodes) e (Reach-IsCounted r).0) in
      put-owner s.nodes h.csum h.owner node found owner
  csum_put-owner {s} r (unpinned before after crc e) =
      ap (λ out. out.1)
        (put-none s.nodes crc
          (borrowed_none before after crc (subst (IsApart s.nodes) e (Reach-IsCounted r).1)))
