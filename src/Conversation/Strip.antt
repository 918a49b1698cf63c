-- ===== src/Conversation/Strip.antt =====
-- The parts of a text that `str.strip` takes apart.
use radio_broadcast_analysis.Prelude.{
  ℕ, ◌-◌, ◌≤◌, Bool, ◌&&◌, List, [], ◌∷◌, ◌++◌, ◌≡◌, refl, ap, inl, inr, arith, length, nat_Eq,
  string_Eq, Bool-cases,
}
use radio_broadcast_analysis.Conversation.Text.{is_empty, lstrip, rstrip}

module _ (is_space : ℕ → Bool) where
  -- A text is its leading blanks, its stripped part and its trailing blanks.
  pub rstrip-prefix : (t : List ℕ) → (tail : List ℕ) × (t ≡ rstrip is_space t ++ tail)
  unfolding rstrip
  rstrip-prefix [] = ([], refl)
  rstrip-prefix (c ∷ cs) =
      let (tail, e) = rstrip-prefix cs in
      elim (Bool-cases (is_empty (rstrip is_space cs) && is_space c)) [
        | inl blank ↦ (c ∷ cs, rw (blank))
        | inr kept ↦ (tail, rw (kept) (ap (◌∷◌ c) e))
      ]

  pub lstrip-suffix :
      (t : List ℕ)
      → (head : List ℕ) × (t ≡ head ++ lstrip is_space t)
        × (length head ≡ length t - length (lstrip is_space t))
        × (length (lstrip is_space t) ≤ length t)
  unfolding lstrip
  lstrip-suffix [] = ([], refl, refl, omega arith)
  lstrip-suffix (c ∷ cs) =
      let (head, e, n, le) = lstrip-suffix cs in
      elim (Bool-cases (is_space c)) [
        | inl blank ↦ (
          c ∷ head,
          rw (blank) (ap (◌∷◌ c) e),
          rw (blank) (omega (arith, n)),
          rw (blank) (omega arith),
        )
        | inr kept ↦ ([], rw (kept), rw (kept) (omega arith), rw (kept) (omega arith))
      ]
