-- ===== src/Linux/Checksums.antt =====
-- The checksums that a link can name: those that are built in and those that other modules register, each
-- with its references (src/lib/platform/linux/ludlc_csum.c). A descriptor and a module are the numbers of
-- their addresses; `desc` gives what is at a descriptor. sysfs_streq is the kernel's, a parameter, and so
-- are try_module_get's answers; a module_put is told as the module that it releases.
pub mod Nodes
pub mod Counted
pub mod Changed
pub mod Register
pub mod Apart
pub mod Keep
pub mod Steps
pub mod Checked
pub mod Late
pub mod Calls
pub mod Link
use ludlc.Prelude.{
  ℕ, suc, ◌+◌, ◌-◌, Bool, true, false, not, ◌&&◌, ◌||◌, Option, none, some, List, [], ◌∷◌, ◌++◌,
  ltb, ◌==◌, if◌then◌else◌,
}
use ludlc.Framing.Csum.{CsumAlg, csum_run, csum_tx_final, wire_octets}

-- struct ludlc_csum with its name. `computes` is whether its function is not NULL.
pub record Desc : Type 0 where
  pub name : List ℕ
  pub computes : Bool
  pub alg : CsumAlg

-- struct ludlc_crc_node.
pub record Node : Type 0 where
  pub crc : ℕ
  pub owner : ℕ
  pub refs : ℕ
  pub registered : Bool

pub data CsumRet : Type 0 where
  csum_ok csum_einval csum_eopnotsupp csum_enomem csum_eexist csum_enodev : CsumRet

-- ludlc_csum_node_of.
unfoldable pub node_of : List Node → ℕ → Option Node
node_of [] crc = none
node_of (node ∷ nodes) crc = if node.crc == crc then some node else node_of nodes crc

-- The node that ludlc_csum_node_of finds is changed, or freed.
abbrev pub put_back : Option Node → List Node → List Node
put_back none nodes = nodes
put_back (some node) nodes = node ∷ nodes

unfoldable pub change_node : (Node → Option Node) → List Node → ℕ → List Node
change_node f [] crc = []
change_node f (node ∷ nodes) crc =
    let rest = change_node f nodes crc in
    if node.crc == crc then put_back (f node) nodes else (node ∷ rest)

-- refcount_inc and refcount_dec_and_test.
abbrev pub add_ref : Node → Option Node
add_ref node = some (record node { refs = node.refs + 1 })

abbrev pub drop_ref : Node → Option Node
drop_ref node =
    let left = node.refs - 1 in if left == 0 then none else some (record node { refs = left })

-- ludlc_csum_hold, where try_module_get answers `alive` of the owner.
abbrev pub hold_node : (ℕ → Bool) → List Node → ℕ → Option Node → List Node × Bool
hold_node alive nodes csum none = (nodes, true)
hold_node alive nodes csum (some node) =
    if not (alive node.owner) then (nodes, false) else (change_node add_ref nodes csum, true)

abbrev pub csum_hold : (ℕ → Bool) → List Node → ℕ → List Node × Bool
csum_hold alive nodes csum = hold_node alive nodes csum (node_of nodes csum)

-- ludlc_csum_get.
unfoldable pub csum_get : (ℕ → Bool) → List Node → Option ℕ → List Node × Option ℕ
csum_get alive nodes none = (nodes, none)
csum_get alive nodes (some csum) =
    let out = csum_hold alive nodes csum in (out.0, if out.1 then some csum else none)

-- ludlc_csum_put, with the module that it releases.
abbrev pub put_node : List Node → ℕ → Option Node → List Node × Option ℕ
put_node nodes csum none = (nodes, none)
put_node nodes csum (some node) = (change_node drop_ref nodes csum, some node.owner)

unfoldable pub csum_put : List Node → Option ℕ → List Node × Option ℕ
csum_put nodes none = (nodes, none)
csum_put nodes (some csum) = put_node nodes csum (node_of nodes csum)

abbrev pub is_known : Option ℕ → Bool
is_known none = false
is_known (some _) = true

-- LUDLC_CSUM_NONE, "none".
abbrev pub csum_none : List ℕ
csum_none = 0x6e ∷ 0x6f ∷ 0x6e ∷ 0x65 ∷ []

abbrev pub or_else : Option ℕ → Option ℕ → Option ℕ
or_else none y = y
or_else (some x) y = some x

module _ (streq : List ℕ → List ℕ → Bool) (desc : ℕ → Desc) where
  -- ludlc_lookup_csum.
  unfoldable pub built_in : List ℕ → List ℕ → Option ℕ
  built_in [] name = none
  built_in (csum ∷ csums) name =
      if streq name (desc csum).name then some csum else built_in csums name

  unfoldable pub registered_as : List Node → List ℕ → Option ℕ
  registered_as [] name = none
  registered_as (node ∷ nodes) name =
      if node.registered && streq name (desc node.crc).name
      then some node.crc
      else registered_as nodes name

  unfoldable pub lookup_csum : List ℕ → List Node → List ℕ → Option ℕ
  lookup_csum csums nodes name = or_else (built_in csums name) (registered_as nodes name)

  -- ludlc_crc_find.
  unfoldable pub crc_find : (ℕ → Bool) → List ℕ → List Node → Option (List ℕ) → List Node × Option ℕ
  crc_find alive csums nodes none = (nodes, none)
  crc_find alive csums nodes (some name) = csum_get alive nodes (lookup_csum csums nodes name)

  -- ludlc_crc_by_name: what it leaves in `*csum`, and what it returns.
  unfoldable pub crc_by_name :
      (ℕ → Bool) → List ℕ → List Node → Option (List ℕ) → List Node × Option ℕ × CsumRet
  crc_by_name alive csums nodes none = (nodes, none, csum_einval)
  crc_by_name alive csums nodes (some name) =
      let out = crc_find alive csums nodes (some name) in
      if streq name csum_none
      then (nodes, none, csum_ok)
      else (out.0, out.1, if is_known out.1 then csum_ok else csum_einval)

-- ludlc_csum_verifies on one of its two frames.
abbrev pub verifies_frame : CsumAlg → List ℕ → Bool
verifies_frame alg frame =
    let val = csum_run (some alg) alg.init frame in
    csum_run (some alg) val (wire_octets alg.octets (csum_tx_final (some alg) val)) == alg.verify

abbrev pub first_frame : List ℕ
first_frame = 0x00 ∷ 0x01 ∷ 0x02 ∷ 0x03 ∷ 0x04 ∷ 0x05 ∷ 0x06 ∷ []

abbrev pub second_frame : List ℕ
second_frame = 0xa5 ∷ 0x5a ∷ 0xff ∷ 0x00 ∷ 0x81 ∷ 0x7e ∷ 0x18 ∷ []

-- ludlc_csum_verifies.
unfoldable pub csum_verifies : CsumAlg → Bool
csum_verifies alg = verifies_frame alg first_frame && verifies_frame alg second_frame

-- LUDLC_MAX_CSUM_SIZE.
abbrev pub max_csum_size : ℕ
max_csum_size = 8

-- ludlc_csum_check.
unfoldable pub csum_check : Desc → CsumRet
csum_check d =
    if not d.computes
    then csum_einval
    else if d.alg.octets == 0 || ltb max_csum_size d.alg.octets
    then csum_eopnotsupp
    else if not (csum_verifies d.alg)
    then csum_einval
    else csum_ok

abbrev pub is_empty : List ℕ → Bool
is_empty [] = true
is_empty (_ ∷ _) = false

-- __ludlc_crc_register, where `room` is whether kzalloc gives a node.
unfoldable pub crc_register :
    (List ℕ → List ℕ → Bool) → (ℕ → Desc) → List ℕ → List Node → ℕ → ℕ → Bool → List Node × CsumRet
crc_register streq desc csums nodes crc owner room =
    let d = desc crc in
    if not d.computes || is_empty d.name
    then (nodes, csum_einval)
    else if d.alg.octets == 0 || ltb max_csum_size d.alg.octets
    then (nodes, csum_eopnotsupp)
    else if not (csum_verifies d.alg)
    then (nodes, csum_einval)
    else if not room
    then (nodes, csum_enomem)
    else if is_known (lookup_csum streq desc csums nodes d.name)
    then (nodes, csum_eexist)
    else (nodes ++ (record { crc = crc; owner = owner; refs = 1; registered = true } ∷ []), csum_ok)

-- ludlc_crc_unregister.
unfoldable pub crc_unregister : List Node → ℕ → List Node
crc_unregister nodes crc =
    change_node (λ node. drop_ref (record node { registered = false })) nodes crc

-- ludlc_link_csum_drop: the nodes, the slot, which is cleared, and the module that it releases.
unfoldable pub link_csum_drop : List Node → Option ℕ → List Node × Option ℕ × Option ℕ
link_csum_drop nodes slot = let out = csum_put nodes slot in (out.0, none, out.1)

-- What ludlc_link_csum_set leaves: the nodes, the slot, what it returns, and the module that it releases.
pub record LinkSet : Type 0 where
  pub nodes : List Node
  pub slot : Option ℕ
  pub ret : CsumRet
  pub released : Option ℕ

abbrev pub checked_link : CsumRet → List Node → ℕ → LinkSet
checked_link csum_ok nodes csum = record {
  nodes = nodes;
  slot = some csum;
  ret = csum_ok;
  released = none;
}
checked_link ret nodes csum =
    let out = link_csum_drop nodes (some csum) in
    record { nodes = out.0; slot = out.1; ret = ret; released = out.2 }

abbrev pub held_link : (ℕ → Desc) → Option ℕ → List Node × Option ℕ → LinkSet
held_link desc slot (nodes, none) = record {
  nodes = nodes;
  slot = slot;
  ret = csum_enodev;
  released = none;
}
held_link desc slot (nodes, some csum) = checked_link (csum_check (desc csum)) nodes csum

-- ludlc_link_csum_set.
unfoldable pub link_csum_set : (ℕ → Desc) → (ℕ → Bool) → List Node → Option ℕ → Option ℕ → LinkSet
link_csum_set desc alive nodes slot none = record {
  nodes = nodes;
  slot = none;
  ret = csum_ok;
  released = none;
}
link_csum_set desc alive nodes slot (some csum) =
    held_link desc slot (csum_get alive nodes (some csum))
