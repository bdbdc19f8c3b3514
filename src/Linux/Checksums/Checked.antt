-- ===== src/Linux/Checksums/Checked.antt =====
-- A descriptor that is offered (src/lib/platform/linux/ludlc_csum.c: ludlc_csum_check,
-- __ludlc_crc_register).
use ludlc.Prelude.{
  ℕ, ◌≡◌, refl, ◌∙◌, ap, ap₂, sym, Bool, true, false, not, ◌&&◌, ◌||◌, Option, none, some, List, [],
  ◌∷◌, ◌++◌, ◌==◌, ltb, All, Bool-cases, inl, inr, arith,
}
use ludlc.Framing.Csum.{IsResidual, framed-ok, csum_run-append, IsOctet}
use ludlc.Linux.Checksums.Nodes.{if_yes, if_no}
use ludlc.Linux.Checksums.{
  Desc, Node, csum_ok, csum_check, csum_verifies, verifies_frame, first_frame, second_frame,
  crc_register, lookup_csum, built_in, registered_as, or_else, is_known, is_empty, max_csum_size,
}

frame_verifies :
    (d : Desc) (frame : List ℕ)
    → IsResidual d.alg
    → All IsOctet frame
    → verifies_frame d.alg frame ≡ true
frame_verifies d frame h o =
    ap (λ v. v == d.alg.verify) (sym (csum_run-append (some d.alg) d.alg.init frame _))
    ∙ framed-ok (some d.alg) d.alg.init frame h o refl

first_octets : All IsOctet first_frame
first_octets = (
  omega arith,
  (omega arith, (omega arith, (omega arith, (omega arith, (omega arith, (omega arith, tt)))))),
)

second_octets : All IsOctet second_frame
second_octets = (
  omega arith,
  (omega arith, (omega arith, (omega arith, (omega arith, (omega arith, (omega arith, tt)))))),
)

-- A descriptor that has a function and does what the documentation of struct ludlc_csum says passes
-- ludlc_csum_check.
pub csum_check-passes : (d : Desc) → d.computes ≡ true → IsResidual d.alg → csum_check d ≡ csum_ok
unfolding csum_check csum_verifies
csum_check-passes d c h =
    rw
      (
        c,
        frame_verifies d first_frame h first_octets,
        frame_verifies d second_frame h second_octets,
      )
      (ground (arith, h.octets_from, h.octets_to))

not_none : {x : ℕ} → some x ≡ none → ⊥
not_none f = ground (arith, f)

module _ (streq : List ℕ → List ℕ → Bool) (desc : ℕ → Desc) where
  registered_as-snoc :
      (nodes : List Node) (node : Node) (name : List ℕ)
      → registered_as streq desc nodes name ≡ none
      → node.registered ≡ true
      → streq name (desc node.crc).name ≡ true
      → registered_as streq desc (nodes ++ (node ∷ [])) name ≡ some node.crc
  unfolding registered_as
  registered_as-snoc [] node name e r q = rw (r, q) refl
  registered_as-snoc (n ∷ nodes) node name e r q =
      elim (Bool-cases (n.registered && streq name (desc n.crc).name)) [
        | inl f ↦ absurd (not_none (sym (if_yes _ _ f) ∙ e))
        | inr f ↦ if_no _ _ f ∙ registered_as-snoc nodes node name (sym (if_no _ _ f) ∙ e) r q
      ]

  none_known : (x y : Option ℕ) → is_known (or_else x y) ≡ false → (x ≡ none) × (y ≡ none)
  none_known none none e = (refl, refl)
  none_known none (some y) e = absurd (ground (arith, e))
  none_known (some x) y e = absurd (ground (arith, e))

  pub register-new :
      (csums : List ℕ) (nodes : List Node) (crc owner : ℕ) (room : Bool)
      → (crc_register streq desc csums nodes crc owner room).1 ≡ csum_ok
      → (is_known (lookup_csum streq desc csums nodes (desc crc).name) ≡ false)
        × ((crc_register streq desc csums nodes crc owner room).0
            ≡ nodes ++ (record { crc = crc; owner = owner; refs = 1; registered = true } ∷ []))
  unfolding crc_register
  register-new csums nodes crc owner room =
      let d = desc crc in
      elim (Bool-cases (not d.computes || is_empty d.name)) [
        | inl a ↦ rw a (λ f. absurd (ground (arith, f)))
        | inr a ↦ rw a (elim (Bool-cases (d.alg.octets == 0 || ltb max_csum_size d.alg.octets)) [
          | inl b ↦ rw b (λ f. absurd (ground (arith, f)))
          | inr b ↦ rw b (elim (Bool-cases (csum_verifies d.alg)) [
            | inr v ↦ rw v (λ f. absurd (ground (arith, f)))
            | inl v ↦ rw v (elim (Bool-cases room) [
              | inr r ↦ rw r (λ f. absurd (ground (arith, f)))
              | inl r ↦
                  rw r (elim (Bool-cases (is_known (lookup_csum streq desc csums nodes d.name))) [
                    | inl l ↦ rw l (λ f. absurd (ground (arith, f)))
                    | inr l ↦ rw l (λ f. (refl, refl))
                  ])
            ])
          ])
        ])
      ]

  -- A name under which __ludlc_crc_register succeeds was free before, and is the descriptor's after, for
  -- ludlc_lookup_csum; a kernel is supposed whose sysfs_streq finds a name the same as itself.
  pub crc_register-lookup :
      (csums : List ℕ) (nodes : List Node) (crc owner : ℕ) (room : Bool)
      → streq (desc crc).name (desc crc).name ≡ true
      → (crc_register streq desc csums nodes crc owner room).1 ≡ csum_ok
      → (lookup_csum streq desc csums nodes (desc crc).name ≡ none)
        × (lookup_csum streq desc csums
              (crc_register streq desc csums nodes crc owner room).0
              (desc crc).name
            ≡ some crc)
  unfolding lookup_csum
  crc_register-lookup csums nodes crc owner room q e =
      let name = (desc crc).name in
      let new = register-new csums nodes crc owner room e in
      let free =
        none_known (built_in streq desc csums name) (registered_as streq desc nodes name) new.0 in
      (
        ap₂ or_else free.0 free.1,
        ap (λ ns. or_else (built_in streq desc csums name) (registered_as streq desc ns name)) new.1
            ∙ ap₂ or_else free.0 (
                registered_as-snoc nodes
                  (record { crc = crc; owner = owner; refs = 1; registered = true }) name free.1
                  refl q),
      )
