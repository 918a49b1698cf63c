-- ===== src/Matching/Kept.antt =====
-- Which of the overlapping matches `_deduplicate` keeps.
use radio_broadcast_analysis.Prelude.{
  ℕ, String, Bool, true, false, ◌&&◌, ◌||◌, Option, some, List, [], ◌∷◌, ◌++◌, ◌≡◌, refl, sym, ap,
  ◌∙◌, arith, ◌==◌, if◌then◌else◌, All, All-imp, nat_Eq, string_Eq, eq_iff, if_both, if_cases,
}
use radio_broadcast_analysis.Prelude.Dict.{Dict, get, put, get-put}
use radio_broadcast_analysis.Matching.Data.{KeywordMatch}
use radio_broadcast_analysis.Matching.Selection.{span, hits, is_taken, spans_of, keep_ranked}

abbrev pub Claimed : Type 0
Claimed = Dict String (List (ℕ × ℕ))

-- A kept match of the keyword has the place of `m`.
abbrev pub is_blocked : Claimed → KeywordMatch → Bool
is_blocked claimed m = is_taken m (spans_of (get claimed m.keyword_id))

abbrev pub after_keep : Claimed → KeywordMatch → Claimed
after_keep claimed m = put claimed m.keyword_id (spans_of (get claimed m.keyword_id) ++ span m ∷ [])

abbrev pub after_skip : Claimed → KeywordMatch → Claimed
after_skip claimed m = put claimed m.keyword_id (spans_of (get claimed m.keyword_id))

or_assoc : (a b c : Bool) → ((a || b) || c) ≡ (a || (b || c))
or_assoc true b c = refl
or_assoc false b c = refl

or_same : (q : Bool) {a b p : Bool} → a ≡ b → p ≡ true → (a || q) ≡ (b || (p && q))
or_same q {a} {b} {p} e h = ground (arith, e, h)

or_other : (q : Bool) {b p : Bool} → p ≡ false → b ≡ (b || (p && q))
or_other q {b} {p} h = ground (arith, h)

is_taken-append :
    (x : KeywordMatch) (spans : List (ℕ × ℕ)) (s : ℕ × ℕ)
    → is_taken x (spans ++ s ∷ []) ≡ (is_taken x spans || hits s x)
unfolding is_taken
is_taken-append x [] s = ground arith
is_taken-append x (t ∷ spans) s = ground (arith, is_taken-append x spans s)

spans_of-if :
    (b : Bool) (v : List (ℕ × ℕ)) (o : Option (List (ℕ × ℕ)))
    → spans_of (if b then some v else o) ≡ (if b then v else spans_of o)
spans_of-if true v o = refl
spans_of-if false v o = refl

spans-put :
    (d : Claimed) (k j : String) (v : List (ℕ × ℕ))
    → spans_of (get (put d k v) j) ≡ (if k == j then v else spans_of (get d j))
spans-put d k j v = ap spans_of (get-put d k j v) ∙ spans_of-if (k == j) v (get d j)

pub skip-blocked :
    (claimed : Claimed) (m x : KeywordMatch)
    → is_blocked (after_skip claimed m) x ≡ is_blocked claimed x
skip-blocked claimed m x =
    let k = m.keyword_id in
    let j = x.keyword_id in
    let spans = spans_of (get claimed k) in
    ap (is_taken x) (spans-put claimed k j spans)
    ∙ if_cases (λ (ss : List (ℕ × ℕ)). is_taken x ss ≡ is_blocked claimed x) (k == j) spans
        (spans_of (get claimed j))
        (λ h. ap (λ i. is_taken x (spans_of (get claimed i))) ((eq_iff k j).0 h)) (λ _. refl)

-- A match is blocked after `m` was kept if it was before, or if it overlaps `m`.
pub keep-blocked :
    (claimed : Claimed) (m x : KeywordMatch)
    → is_blocked (after_keep claimed m) x
      ≡ (is_blocked claimed x || (m.keyword_id == x.keyword_id && hits (span m) x))
keep-blocked claimed m x =
    let k = m.keyword_id in
    let j = x.keyword_id in
    let spans = spans_of (get claimed k) in
    let new = spans ++ span m ∷ [] in
    ap (is_taken x) (spans-put claimed k j new)
    ∙ if_cases
        (λ (ss : List (ℕ × ℕ)).
          is_taken x ss ≡ (is_blocked claimed x || (k == j && hits (span m) x)))
        (k == j) new (spans_of (get claimed j))
        (λ h.
          is_taken-append x spans (span m)
          ∙ or_same (hits (span m) x)
              (ap (λ i. is_taken x (spans_of (get claimed i))) ((eq_iff k j).0 h)) h)
        (λ h. or_other (hits (span m) x) h)

-- Two matches of one keyword that overlap.
abbrev pub clashes : KeywordMatch → KeywordMatch → Bool
clashes m x = m.keyword_id == x.keyword_id && hits (span m) x

-- No two of the matches overlap if they are of one keyword.
abbrev pub Separate : List KeywordMatch → Type 0
Separate [] = Unit
Separate (m ∷ ms) = All (λ x. clashes m x ≡ false) ms × Separate ms

or_false : {a b : Bool} → (a || b) ≡ false → (a ≡ false) × (b ≡ false)
or_false {a} {b} h = (ground (arith, h), ground (arith, h))

-- Nothing is kept where a place is taken.
keep_ranked-free :
    (claimed : Claimed) (ranked : List KeywordMatch)
    → All (λ x. is_blocked claimed x ≡ false) (keep_ranked claimed ranked)
unfolding keep_ranked
keep_ranked-free claimed [] = tt
keep_ranked-free claimed (m ∷ ranked) =
    if_cases (λ (ks : List KeywordMatch). All (λ x. is_blocked claimed x ≡ false) ks)
      (is_blocked claimed m) (keep_ranked (after_skip claimed m) ranked)
      (m ∷ keep_ranked (after_keep claimed m) ranked)
      (λ _.
        All-imp (λ x h. sym (skip-blocked claimed m x) ∙ h)
          (keep_ranked (after_skip claimed m) ranked)
          (keep_ranked-free (after_skip claimed m) ranked))
      (λ free. (
        free,
        All-imp (λ x h. (or_false (sym (keep-blocked claimed m x) ∙ h)).0)
            (keep_ranked (after_keep claimed m) ranked)
            (keep_ranked-free (after_keep claimed m) ranked),
      ))

pub keep_ranked-Separate :
    (claimed : Claimed) (ranked : List KeywordMatch) → Separate (keep_ranked claimed ranked)
unfolding keep_ranked
keep_ranked-Separate claimed [] = tt
keep_ranked-Separate claimed (m ∷ ranked) =
    if_both Separate (is_blocked claimed m) (keep_ranked (after_skip claimed m) ranked)
      (m ∷ keep_ranked (after_keep claimed m) ranked)
      (keep_ranked-Separate (after_skip claimed m) ranked)
      (
        All-imp (λ x h. (or_false (sym (keep-blocked claimed m x) ∙ h)).1)
            (keep_ranked (after_keep claimed m) ranked)
            (keep_ranked-free (after_keep claimed m) ranked),
        keep_ranked-Separate (after_keep claimed m) ranked,
      )
