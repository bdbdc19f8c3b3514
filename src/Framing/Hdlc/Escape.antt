-- ===== src/Framing/Hdlc/Escape.antt =====
-- How the escaping framing writes octets (src/lib/ludlc_hdlc.c).
use Prim.Native.Nat.{bit_xor}
use ludlc.Prelude.{
  ℕ, ◌≡◌, refl, sym, ◌∙◌, ap, ◌||◌, List, [], ◌∷◌, ◌++◌, ◌==◌, if◌then◌else◌, append_assoc,
}
use ludlc.Framing.Hdlc.{sof, esc, mask}

-- The form of one octet.
unfoldable pub hide : ℕ → List ℕ
hide c = if c == sof || c == esc then esc ∷ bit_xor c mask ∷ [] else c ∷ []

unfoldable pub escape : List ℕ → List ℕ
escape [] = []
escape (c ∷ cs) = hide c ++ escape cs

pub escape-append : (xs ys : List ℕ) → escape (xs ++ ys) ≡ escape xs ++ escape ys
unfolding escape
escape-append [] ys = refl
escape-append (c ∷ xs) ys =
    ap (λ zs. hide c ++ zs) (escape-append xs ys)
    ∙ sym (append_assoc (hide c) (escape xs) (escape ys))
