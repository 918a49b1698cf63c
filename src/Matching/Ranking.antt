-- ===== src/Matching/Ranking.antt =====
-- The order in which `_deduplicate` takes the matches is total and transitive.
use radio_broadcast_analysis.Prelude.{
  String, true, false, ◌≡◌, ◌⊎◌, sym, ap, ◌∙◌, subst, inl, inr, arith, ◌==◌, if◌then◌else◌, nat_Eq,
  string_Eq, eq_iff, Bool-cases,
}
use radio_broadcast_analysis.Prelude.Text.{
  text_leb, text_leb_total, text_leb_trans, text_leb_antisym,
}
use radio_broadcast_analysis.Matching.Data.{KeywordMatch}
use radio_broadcast_analysis.Matching.Selection.{weight_leb, rank_leb}

weight_leb_total : (a b : KeywordMatch) → weight_leb a b ≡ false → weight_leb b a ≡ true
weight_leb_total a b h = ground arith

weight_leb_trans :
    (a b c : KeywordMatch) → weight_leb a b ≡ true → weight_leb b c ≡ true → weight_leb a c ≡ true
weight_leb_trans a b c h k = ground arith

text_leb_refl : (a : String) → text_leb a a ≡ true
text_leb_refl a = elim (Bool-cases (text_leb a a)) [ inl h ↦ h | inr h ↦ text_leb_total a a h ]

-- Within one keyword the rank is the weight.
pub rank_same : (a b : KeywordMatch) → a.keyword_id ≡ b.keyword_id → rank_leb a b ≡ weight_leb a b
unfolding rank_leb
rank_same a b e =
    ap (λ t. if t then weight_leb a b else text_leb a.keyword_id b.keyword_id)
      ((eq_iff a.keyword_id b.keyword_id).1 e)

-- Between two keywords it is the order of their ids.
rank_other :
    (a b : KeywordMatch)
    → (a.keyword_id == b.keyword_id) ≡ false
    → rank_leb a b ≡ text_leb a.keyword_id b.keyword_id
unfolding rank_leb
rank_other a b h = ap (λ t. if t then weight_leb a b else text_leb a.keyword_id b.keyword_id) h

ids :
    (a b : KeywordMatch) → (a.keyword_id ≡ b.keyword_id) ⊎ ((a.keyword_id == b.keyword_id) ≡ false)
ids a b = elim (Bool-cases (a.keyword_id == b.keyword_id)) [
  | inl h ↦ inl ((eq_iff a.keyword_id b.keyword_id).0 h)
  | inr h ↦ inr h
]

rank_text : (a b : KeywordMatch) → rank_leb a b ≡ true → text_leb a.keyword_id b.keyword_id ≡ true
rank_text a b h = elim (ids a b) [
  | inl e ↦ subst (λ t. text_leb a.keyword_id t ≡ true) e (text_leb_refl a.keyword_id)
  | inr n ↦ sym (rank_other a b n) ∙ h
]

different : (a b : String) → (a == b) ≡ false → (b == a) ≡ false
different a b h = grind (arith, eq_iff a b, eq_iff b a)

pub rank_leb_total : (a b : KeywordMatch) → rank_leb a b ≡ false → rank_leb b a ≡ true
rank_leb_total a b h = elim (ids a b) [
  | inl e ↦ rank_same b a (sym e) ∙ weight_leb_total a b (sym (rank_same a b e) ∙ h)
  | inr n ↦
      rank_other b a (different a.keyword_id b.keyword_id n)
      ∙ text_leb_total a.keyword_id b.keyword_id (sym (rank_other a b n) ∙ h)
]

pub rank_leb_trans :
    (a b c : KeywordMatch) → rank_leb a b ≡ true → rank_leb b c ≡ true → rank_leb a c ≡ true
rank_leb_trans a b c h k =
    let ab = rank_text a b h in
    let bc = rank_text b c k in
    elim (ids a c) [
      | inl ac ↦
          let e : a.keyword_id ≡ b.keyword_id =
            text_leb_antisym a.keyword_id b.keyword_id ab
              (subst (λ t. text_leb b.keyword_id t ≡ true) (sym ac) bc) in
          rank_same a c ac
          ∙ weight_leb_trans a b c (sym (rank_same a b e) ∙ h)
              (sym (rank_same b c (sym e ∙ ac)) ∙ k)
      | inr n ↦ rank_other a c n ∙ text_leb_trans a.keyword_id b.keyword_id c.keyword_id ab bc
    ]
