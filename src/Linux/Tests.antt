-- ===== src/Linux/Tests.antt =====
-- A module that offers a checksum, and a link that holds it (src/lib/platform/linux/ludlc_csum.c).
use ludlc.Prelude.{ℕ, Bool, true, false, ◌&&◌, ◌==◌, ◌≡◌, refl, none, some, List, [], ◌∷◌, ◌++◌}
use ludlc.Framing.Csum.{csum_run, wire_octets}
use ludlc.Framing.Tests.{sum_alg, sum_alg-IsResidual}
use ludlc.Linux.Checksums.{
  Node, Desc, csum_ok, node_of, change_node, csum_get, csum_put, csum_check, csum_verifies,
  link_csum_set, lookup_csum, built_in, registered_as, crc_register, crc_unregister,
}
use ludlc.Linux.Checksums.Counted.{
  System, Hold, IsCounted, Reach, holding, loaded, later, register, get, borrow, borrowing, borrows,
  IsApart, pinned,
}
use ludlc.Linux.Checksums.Steps.{Reach-IsCounted, csum_put-owner}
use ludlc.Linux.Checksums.Calls.{Called, no_call, register_called, unregister_called, get_called}
use ludlc.Linux.Checksums.Late.{csum_put-registered_late}
use ludlc.Linux.Checksums.Link.{Chosen, link_csum_set-Chosen}
use ludlc.Linux.Checksums.Checked.{csum_check-passes, crc_register-lookup}

unfoldable same_name : List ℕ → List ℕ → Bool
same_name [] [] = true
same_name [] (_ ∷ _) = false
same_name (_ ∷ _) [] = false
same_name (x ∷ xs) (y ∷ ys) = x == y && same_name xs ys

abbrev test_desc : ℕ → Desc
test_desc csum = record { name = csum ∷ 0x63 ∷ []; computes = true; alg = sum_alg }

abbrev offered : System
offered = record {
  nodes = (crc_register same_name test_desc [] [] 7 3 true).0;
  held = [];
  borrowed = [];
}

abbrev test_node : Node
test_node = record { crc = 7; owner = 3; refs = 1; registered = true }

offered_node : node_of offered.nodes 7 ≡ some test_node
unfolding crc_register node_of lookup_csum built_in registered_as csum_verifies csum_run wire_octets
offered_node = refl

abbrev taken : System
taken = record {
  nodes = (csum_get (λ _. true) offered.nodes (some 7)).0;
  held = holding (csum_get (λ _. true) offered.nodes (some 7)).1 3 [];
  borrowed = [];
}

was_offered : Reach same_name test_desc [] offered
unfolding node_of borrows
was_offered = later loaded (register 7 3 true refl refl)

was_taken : Reach same_name test_desc [] taken
was_taken = later was_offered (get (λ _. true) 7 test_node offered_node)

abbrev test_hold : Hold
test_hold = record { csum = 7; owner = 3 }

taken_held : taken.held ≡ [] ++ (test_hold ∷ [])
unfolding csum_get crc_register node_of lookup_csum built_in registered_as csum_verifies csum_run
    wire_octets
taken_held = refl

-- Another link runs a checksum of its own, 9, that nothing has registered.
abbrev lent : System
lent = record {
  nodes = (csum_get (λ _. true) taken.nodes (some 9)).0;
  held = taken.held;
  borrowed = borrowing (csum_get (λ _. true) taken.nodes (some 9)).1 [];
}

unregistered : node_of taken.nodes 9 ≡ none
unfolding csum_get crc_register node_of change_node lookup_csum built_in registered_as csum_verifies
    csum_run wire_octets
unregistered = refl

was_lent : Reach same_name test_desc [] lent
was_lent = later was_taken (borrow (λ _. true) 9 unregistered)

Reach-IsCounted_example : IsCounted lent.nodes lent.held × IsApart lent.nodes lent.borrowed
Reach-IsCounted_example = Reach-IsCounted same_name test_desc [] was_lent

csum_put-owner_example : (csum_put lent.nodes (some 7)).1 ≡ some 3
csum_put-owner_example =
    csum_put-owner same_name test_desc [] was_lent (pinned [] [] test_hold taken_held)

-- Calls that leave two nodes for one descriptor.
abbrev doubled : List Node
doubled = (crc_register same_name test_desc [] (crc_unregister taken.nodes 7) 7 3 true).0

doubled-Called : Called same_name test_desc [] doubled
doubled-Called =
    register_called 7 3 true
      (unregister_called 7 (get_called (λ _. true) (some 7) (register_called 7 3 true no_call)))

link_csum_set-Chosen_example :
    Chosen doubled 7 (link_csum_set test_desc (λ _. true) doubled none (some 7))
link_csum_set-Chosen_example =
    link_csum_set-Chosen test_desc (λ _. true) same_name [] 7 doubled-Called

csum_check-passes_example : csum_check (test_desc 7) ≡ csum_ok
csum_check-passes_example = csum_check-passes (test_desc 7) refl sum_alg-IsResidual

own_name : same_name (7 ∷ 0x63 ∷ []) (7 ∷ 0x63 ∷ []) ≡ true
unfolding same_name
own_name = refl

registers : (crc_register same_name test_desc [] [] 7 3 true).1 ≡ csum_ok
unfolding crc_register lookup_csum built_in registered_as csum_verifies csum_run wire_octets
registers = refl

crc_register-lookup_example :
    (lookup_csum same_name test_desc [] [] (7 ∷ 0x63 ∷ []) ≡ none)
    × (lookup_csum same_name test_desc []
          (crc_register same_name test_desc [] [] 7 3 true).0
          (7 ∷ 0x63 ∷ [])
        ≡ some 7)
crc_register-lookup_example =
    crc_register-lookup same_name test_desc [] [] 7 3 true own_name registers

-- A descriptor that is registered again while a link holds it has two nodes. The next call of
-- ludlc_crc_unregister then frees the node of the link, and the other stays registered.
twice : crc_unregister doubled 7 ≡ test_node ∷ []
unfolding csum_get crc_register crc_unregister node_of change_node lookup_csum built_in
    registered_as csum_verifies csum_run wire_octets
twice = refl

-- A link runs 7 before it is registered.
csum_put-registered_late_example :
    (csum_get (λ _. true) [] (some 7) ≡ ([], some 7))
    × (csum_put (crc_register same_name test_desc [] [] 7 3 true).0 (some 7) ≡ ([], some 3))
unfolding node_of
csum_put-registered_late_example =
    csum_put-registered_late same_name test_desc (λ _. true) [] [] 7 3 true refl registers
