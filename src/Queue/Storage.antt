-- ===== src/Queue/Storage.antt =====
-- What the operations do to the slots of `_in_flight`: the dict, its entries and their handles.
use radio_broadcast_analysis.Prelude.{
  ℕ, zero, suc, ◌+◌, ◌≤◌, ◌<◌, String, Bool, true, false, not, none, some, List, [], ◌∷◌, map, ◌≡◌,
  refl, inl, inr, arith, if◌then◌else◌, nat_eq, filterb, count, All, nat_Eq, string_Eq, Bool-cases,
  Option-cases,
}
use radio_broadcast_analysis.Prelude.Dict.{Dict, contains, put, pop, get}
use radio_broadcast_analysis.Queue.{
  Entry, Handle, handle_eq_iff, handle_Eq, values, handle_of, deliver, select, put_all, is_lapsed,
  surrender, set_visible,
}
use radio_broadcast_analysis.Queue.Selection.{count_seq}

-- A waiting entry has no handle; both counters number it alike.
abbrev pub Waiting : ℕ → Entry → Type 0
Waiting n e = (e.message_id ≡ e.sequence) × (e.sequence ≤ n) × (e.receipt_handle ≡ none)

-- An entry that was handed out stands under its own handle.
abbrev pub Delivered : ℕ → Entry → Type 0
Delivered n e =
    (e.message_id ≡ e.sequence) × (e.sequence ≤ n) × (e.receipt_handle ≡ some (handle_of e))

abbrev pub Flying : ℕ → Handle × Entry → Type 0
Flying n slot = Delivered n slot.1 × (slot.0 ≡ handle_of slot.1)

contains→count_seq :
    (n : ℕ) (h : Handle) (d : Dict Handle Entry)
    → All (Flying n) d
    → contains d h ≡ true
    → 0 < count_seq h.message (values d)
unfolding contains
contains→count_seq n h [] f c = absurd (cc)
contains→count_seq n h ((k, e) ∷ d) f c =
    ground (arith, handle_eq_iff k h, contains→count_seq n h d f.1)

count-put_fresh :
    (p : Entry → Bool) (d : Dict Handle Entry) (h : Handle) (e : Entry)
    → contains d h ≡ false
    → count p (values (put d h e)) ≡ count p (values d) + (if p e then 1 else 0)
unfolding contains put
count-put_fresh p [] h e c = ground arith
count-put_fresh p ((k, x) ∷ d) h e c = ground (arith, count-put_fresh p d h e)

Flying-put :
    (n : ℕ) (d : Dict Handle Entry) (e : Entry)
    → All (Flying n) d
    → Delivered n e
    → All (Flying n) (put d (handle_of e) e)
unfolding put
Flying-put n [] e f h = ((h, refl), tt)
Flying-put n ((k, x) ∷ d) e f h =
    ground (arith, handle_eq_iff k (handle_of e), Flying-put n d e f.1 h)

fresh :
    (n : ℕ) (d : Dict Handle Entry) (e : Entry)
    → All (Flying n) d
    → count_seq e.message_id (values d) ≡ 0
    → contains d (handle_of e) ≡ false
fresh n d e f h = elim (Bool-cases (contains d (handle_of e))) [
  | inl c ↦ absurd (omega (arith, contains→count_seq n (handle_of e) d f c))
  | inr c ↦ c
]

-- Entries whose numbers are not in flight are added, and nothing is overwritten.
pub put_all_lem :
    (n : ℕ) (p : Entry → Bool) (d : Dict Handle Entry) (es : List Entry)
    → All (Flying n) d
    → All (Delivered n) es
    → ((s : ℕ) → count_seq s (values d) + count_seq s es ≤ 1)
    → All (Flying n) (put_all d es)
      × (count p (values (put_all d es)) ≡ count p (values d) + count p es)
unfolding put_all
put_all_lem n p d [] f h u = (f, omega arith)
put_all_lem n p d (e ∷ es) f h u = ground (
  arith,
  count-put_fresh p d (handle_of e) e new,
  put_all_lem n p (put d (handle_of e) e) es (Flying-put n d e f h.0) h.1
      (λ s. ground (arith, u s, count-put_fresh (λ x. nat_eq x.sequence s) d (handle_of e) e new)),
)
  where
    new : contains d (handle_of e) ≡ false
    new = fresh n d e f (ground (arith, u e.sequence))

pub select-Delivered :
    (n v room : ℕ) (blocked : List String) (es : List Entry)
    → All (Waiting n) es
    → All (Delivered n) (select v room blocked es)
unfolding select deliver
select-Delivered n v zero b es h = tt
select-Delivered n v (suc r) b [] h = tt
select-Delivered n v (suc r) b (e ∷ es) h =
    ground
      (arith, select-Delivered n v (suc r) b es h.1, select-Delivered n v r (e.group_id ∷ b) es h.1)

-- Reclaiming moves slots to the waiting entries and loses none.
pub count-reclaim :
    (now s : ℕ) (d : Dict Handle Entry)
    → count_seq s (map surrender (filterb (is_lapsed now) d))
        + count_seq s (values (filterb (λ slot. not (is_lapsed now slot)) d))
      ≡ count_seq s (values d)
count-reclaim now s [] = omega arith
count-reclaim now s ((k, e) ∷ d) = ground (arith, count-reclaim now s d)

pub count-kept-le :
    (now : ℕ) (p : Entry → Bool) (d : Dict Handle Entry)
    → count p (values (filterb (λ slot. not (is_lapsed now slot)) d)) ≤ count p (values d)
count-kept-le now p [] = omega arith
count-kept-le now p ((k, e) ∷ d) = ground (arith, count-kept-le now p d)

pub surrender-Waiting :
    (now n : ℕ) (d : Dict Handle Entry)
    → All (Flying n) d
    → All (Waiting n) (map surrender (filterb (is_lapsed now) d))
surrender-Waiting now n [] f = tt
surrender-Waiting now n ((k, e) ∷ d) f = ground (arith, surrender-Waiting now n d f.1)

pub count-pop-le :
    (p : Entry → Bool) (d : Dict Handle Entry) (h : Handle)
    → count p (values (pop d h)) ≤ count p (values d)
unfolding pop
count-pop-le p [] h = omega arith
count-pop-le p ((k, e) ∷ d) h = ground (arith, count-pop-le p d h)

pub Flying-pop :
    (n : ℕ) (d : Dict Handle Entry) (h : Handle) → All (Flying n) d → All (Flying n) (pop d h)
unfolding pop
Flying-pop n [] h f = tt
Flying-pop n ((k, e) ∷ d) h f = ground (arith, Flying-pop n d h f.1)

pub Flying-mono : (m n : ℕ) (d : Dict Handle Entry) → m ≤ n → All (Flying m) d → All (Flying n) d
Flying-mono m n [] h f = tt
Flying-mono m n ((k, e) ∷ d) h f = ground (arith, Flying-mono m n d h f.1)

pub Waiting-mono : (m n : ℕ) (es : List Entry) → m ≤ n → All (Waiting m) es → All (Waiting n) es
Waiting-mono m n [] h f = tt
Waiting-mono m n (e ∷ es) h f = ground (arith, Waiting-mono m n es h f.1)

pub get-Flying :
    (n : ℕ) (d : Dict Handle Entry) (h : Handle) (e : Entry)
    → All (Flying n) d
    → get d h ≡ some e
    → Flying n (h, e)
unfolding get
get-Flying n [] h e f g = absurd (cc)
get-Flying n ((k, x) ∷ d) h e f g = ground (arith, handle_eq_iff k h, get-Flying n d h e f.1)

count-put_same :
    (p : Entry → Bool) (d : Dict Handle Entry) (h : Handle) (e e' : Entry)
    → get d h ≡ some e
    → p e' ≡ p e
    → count p (values (put d h e')) ≡ count p (values d)
unfolding get put
count-put_same p [] h e e' g same = absurd (cc)
count-put_same p ((k, x) ∷ d) h e e' g same = ground (arith, count-put_same p d h e e')

-- A new deadline moves no entry.
pub count-set_visible :
    (p : Entry → Bool) (d : Dict Handle Entry) (h : Handle) (v : ℕ)
    → ((e : Entry) → p (record e { visible_at = v }) ≡ p e)
    → count p (values (set_visible d h v (get d h))) ≡ count p (values d)
unfolding set_visible
count-set_visible p d h v same = elim (Option-cases (get d h)) [
  | inl e ↦ rw (e, set_visible)
  | inr (x, e) ↦
      rw (e, set_visible) (count-put_same p d h x (record x { visible_at = v }) e (same x))
]

pub Flying-set_visible :
    (n : ℕ) (d : Dict Handle Entry) (h : Handle) (v : ℕ)
    → All (Flying n) d
    → All (Flying n) (set_visible d h v (get d h))
unfolding set_visible
Flying-set_visible n d h v f = elim (Option-cases (get d h)) [
  | inl e ↦ rw (e, set_visible) f
  | inr (x, e) ↦
      let own = get-Flying n d h x f e in
      rw (e, set_visible, own.1) (Flying-put n d (record x { visible_at = v }) f own.0)
]
