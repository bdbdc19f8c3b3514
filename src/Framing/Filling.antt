-- ===== src/Framing/Filling.antt =====
-- The loop of the framings' encoders, `while (n < dst_len && ludlc_*_enc_busy(fs))` (ludlc_hdlc_enc_fill
-- of src/lib/ludlc_hdlc.c, ludlc_raw_enc_fill of src/lib/ludlc_raw.c), and calls of it that follow one
-- another.
use ludlc.Prelude.{
  ℕ, zero, suc, ◌+◌, ◌-◌, ◌≤◌, ◌<◌, ◌≡◌, ◌⊎◌, refl, ◌∙◌, ap, sym, Bool, true, false, List, [], ◌∷◌,
  ◌++◌, append_assoc, append-nil, arith, Bool-cases, inl, inr, if◌then◌else◌, length, length-append,
}

module _ {S : Type 0} (busy : S → Bool) (round : ℕ → S → List ℕ × S) where
  -- The loop in `room` octets: `round` writes what one round does.
  unfoldable pub fill_loop : ℕ → ℕ → S → List ℕ × S
  fill_loop zero room s = ([], s)
  fill_loop (suc fuel) zero s = ([], s)
  fill_loop (suc fuel) (suc room) s =
      let out = round (suc room) s in
      let rest = fill_loop fuel (suc room - length out.0) out.1 in
      if busy s then (out.0 ++ rest.0, rest.1) else ([], s)

  -- The fuel is twice the room, and one: of two rounds that follow one another one writes an octet, or
  -- is the last.
  abbrev pub fill : ℕ → S → List ℕ × S
  fill room s = fill_loop (room + room + 1) room s

  -- A port that calls the encoder again and again, with the room it has each time.
  unfoldable pub fill_calls : List ℕ → S → List ℕ × S
  fill_calls [] s = ([], s)
  fill_calls (room ∷ rooms) s =
      let out = fill room s in let rest = fill_calls rooms out.1 in (out.0 ++ rest.0, rest.1)

unfoldable pub total : List ℕ → ℕ
total [] = 0
total (n ∷ ns) = n + total ns

-- What a round does, in an encoder that still has to write `pending`.
pub record Rounded {S : Type 0} (busy : S → Bool) (pending : S → List ℕ) (Loaded : S → Type 0)
    (room : ℕ) (s : S) (out : List ℕ × S) : Type 0 where
  pub wrote : pending s ≡ out.0 ++ pending out.1
  pub fits : length out.0 ≤ room
  pub loaded : Loaded out.1
  pub last : length out.0 ≡ 0 → busy out.1 ≡ false

-- The same, where a round that writes nothing brings the next, which does: `weight` is 1 before the
-- first of the two.
pub record Stepped {S : Type 0} (busy : S → Bool) (pending : S → List ℕ) (Loaded : S → Type 0)
    (weight : S → ℕ) (room : ℕ) (s : S) (out : List ℕ × S) : Type 0 where
  pub wrote : pending s ≡ out.0 ++ pending out.1
  pub fits : length out.0 ≤ room
  pub loaded : Loaded out.1
  pub goes_on : length out.0 ≡ 0 → busy out.1 ≡ true → weight out.1 < weight s

-- What it wrote into `room`, and what it still has to write.
pub record Filled {S : Type 0} (busy : S → Bool) (pending : S → List ℕ) (Loaded : S → Type 0)
    (room : ℕ) (s : S) (out : List ℕ × S) : Type 0 where
  pub wrote : pending s ≡ out.0 ++ pending out.1
  pub fits : length out.0 ≤ room
  pub full : busy out.1 ≡ true → length out.0 ≡ room
  pub loaded : Loaded out.1

module _ {S : Type 0} (busy : S → Bool) (round : ℕ → S → List ℕ × S) (pending : S → List ℕ)
    (Loaded : S → Type 0) (weight : S → ℕ) (light : (s : S) → weight s ≤ 1)
    (stepped : (room : ℕ) (s : S)
      → busy s ≡ true
      → Loaded s
      → Stepped busy pending Loaded weight (suc room) s (round (suc room) s)) where
  idle_loop : (fuel room : ℕ) (s : S) → busy s ≡ false → fill_loop busy round fuel room s ≡ ([], s)
  unfolding fill_loop
  idle_loop zero room s b = refl
  idle_loop (suc fuel) zero s b = refl
  idle_loop (suc fuel) (suc room) s b = rw b refl

  idle-Filled :
      (room : ℕ) (s : S)
      → busy s ≡ false ⊎ room ≡ 0
      → Loaded s
      → Filled busy pending Loaded room s ([], s)
  idle-Filled room s h l = record {
    wrote = refl;
    fits = omega arith;
    full = λ b. ground (arith, h, b);
    loaded = l;
  }

  Filled-append :
      (n m : ℕ) (s : S) (out rest : List ℕ × S)
      → pending s ≡ out.0 ++ pending out.1
      → length out.0 + m ≤ n
      → (busy rest.1 ≡ true → length out.0 + m ≡ n)
      → Filled busy pending Loaded m out.1 rest
      → Filled busy pending Loaded n s (out.0 ++ rest.0, rest.1)
  Filled-append n m s out rest w b full g = record {
    wrote = w ∙ ap (λ xs. out.0 ++ xs) g.wrote ∙ sym (append_assoc out.0 rest.0 _);
    fits = rw (length-append out.0 rest.0) (omega (arith, b, g.fits));
    full = λ c. length-append out.0 rest.0 ∙ ap (λ i. length out.0 + i) (g.full c) ∙ full c;
    loaded = g.loaded;
  }

  last_round :
      (room : ℕ) (s : S) (out : List ℕ × S)
      → busy out.1 ≡ false
      → Stepped busy pending Loaded weight room s out
      → Filled busy pending Loaded room s (out.0 ++ [], out.1)
  last_round room s out b r =
      rw (append-nil out.0) record {
        wrote = r.wrote;
        fits = r.fits;
        full = λ c. ground (arith, b, c);
        loaded = r.loaded;
      }

  loop-Filled :
      (fuel room : ℕ) (s : S)
      → room + room + weight s ≤ fuel
      → Loaded s
      → Filled busy pending Loaded room s (fill_loop busy round fuel room s)
  unfolding fill_loop
  loop-Filled zero room s h l = idle-Filled room s (inr (omega (arith, h))) l
  loop-Filled (suc fuel) zero s h l = idle-Filled zero s (inr refl) l
  loop-Filled (suc fuel) (suc room) s h l = elim (Bool-cases (busy s)) [
    | inr e ↦ rw e (idle-Filled (suc room) s (inl e) l)
    | inl e ↦ rw e (
        let out = round (suc room) s in
        let r = stepped room s e l in
        elim (Bool-cases (busy out.1)) [
          | inr f ↦
              rw (idle_loop fuel (suc room - length out.0) out.1 f)
                (last_round (suc room) s out f r)
          | inl f ↦
              Filled-append (suc room) (suc room - length out.0) s out _ r.wrote
                (omega (arith, r.fits)) (λ b. omega (arith, r.fits))
                (loop-Filled fuel (suc room - length out.0) out.1
                  (ground (arith, h, r.fits, light out.1, r.goes_on, f)) r.loaded)
        ])
  ]

  idle_calls : (rooms : List ℕ) (s : S) → busy s ≡ false → fill_calls busy round rooms s ≡ ([], s)
  unfolding fill_calls
  idle_calls [] s b = refl
  idle_calls (room ∷ rooms) s b =
      ap (λ out. let rest = fill_calls busy round rooms out.1 in (out.0 ++ rest.0, rest.1))
        (idle_loop (room + room + 1) room s b)
      ∙ idle_calls rooms s b

  pub step_fill-Filled :
      (room : ℕ) (s : S) → Loaded s → Filled busy pending Loaded room s (fill busy round room s)
  step_fill-Filled room s l = loop-Filled (room + room + 1) room s (omega (arith, light s)) l

  pub step_calls-Filled :
      (rooms : List ℕ) (s : S)
      → Loaded s
      → Filled busy pending Loaded (total rooms) s (fill_calls busy round rooms s)
  unfolding fill_calls total
  step_calls-Filled [] s l = idle-Filled 0 s (inr refl) l
  step_calls-Filled (room ∷ rooms) s l =
      let out = fill busy round room s in
      let rest = fill_calls busy round rooms out.1 in
      let f = step_fill-Filled room s l in
      Filled-append (room + total rooms) (total rooms) s out rest f.wrote (omega (arith, f.fits))
        (λ b. elim (Bool-cases (busy out.1)) [
          | inl e ↦ ap (λ i. i + total rooms) (f.full e)
          | inr e ↦ ground (arith, b, ap (λ r. busy r.1) (idle_calls rooms out.1 e) ∙ e)
        ])
        (step_calls-Filled rooms out.1 f.loaded)

module _ {S : Type 0} (busy : S → Bool) (round : ℕ → S → List ℕ × S) (pending : S → List ℕ)
    (Loaded : S → Type 0)
    (rounded : (room : ℕ) (s : S)
      → busy s ≡ true
      → Loaded s
      → Rounded busy pending Loaded (suc room) s (round (suc room) s)) where
  rounded-Stepped :
      (room : ℕ) (s : S)
      → busy s ≡ true
      → Loaded s
      → Stepped busy pending Loaded (λ _. 0) (suc room) s (round (suc room) s)
  rounded-Stepped room s b l =
      let r = rounded room s b l in
      record {
        wrote = r.wrote;
        fits = r.fits;
        loaded = r.loaded;
        goes_on = λ e f. ground (arith, r.last e, f);
      }

  pub fill-Filled :
      (room : ℕ) (s : S) → Loaded s → Filled busy pending Loaded room s (fill busy round room s)
  fill-Filled room s l =
      step_fill-Filled busy round pending Loaded (λ _. 0) (λ _. omega arith) rounded-Stepped room s
        l

  pub calls-Filled :
      (rooms : List ℕ) (s : S)
      → Loaded s
      → Filled busy pending Loaded (total rooms) s (fill_calls busy round rooms s)
  calls-Filled rooms s l =
      step_calls-Filled busy round pending Loaded (λ _. 0) (λ _. omega arith) rounded-Stepped rooms
        s l

cut_at :
    (xs ys out : List ℕ) (n : ℕ) (b : Bool)
    → xs ≡ out ++ ys
    → (b ≡ true → length out ≡ n)
    → (b ≡ false → ys ≡ [])
    → length xs < n
    → (out ≡ xs) × (b ≡ false)
cut_at xs ys out n true e full idle h =
    absurd (omega (arith, ap length e ∙ length-append out ys, full refl))
cut_at xs ys out n false e full idle h =
    (sym (e ∙ ap (λ zs. out ++ zs) (idle refl) ∙ append-nil out), refl)

-- With room for more than all of it, all of it is written.
pub Filled-all :
    {S : Type 0} {busy : S → Bool} {pending : S → List ℕ} {Loaded : S → Type 0} {room : ℕ} {s : S}
    {out : List ℕ × S} (xs : List ℕ)
    → Filled busy pending Loaded room s out
    → pending s ≡ xs
    → (busy out.1 ≡ false → pending out.1 ≡ [])
    → length xs < room
    → (out.0 ≡ xs) × (busy out.1 ≡ false)
Filled-all {S} {busy} {pending} {Loaded} {room} {s} {out} xs f e idle enough =
    cut_at xs (pending out.1) out.0 room (busy out.1) (sym e ∙ f.wrote) f.full idle enough
