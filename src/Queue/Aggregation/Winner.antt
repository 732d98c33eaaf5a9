-- ===== src/Queue/Aggregation/Winner.antt =====
-- The event that gives `_aggregate_events` its data.
use notipus.Base.{
  ℕ, ◌≤◌, ◌<◌, String, ◌≡◌, refl, ap, Bool-cases, inl, inr, false, List, [], ◌∷◌, ◌++◌, arith, ltb,
  All, str_eq, Option-cases, ltb→lt, ◌∙◌,
}
use notipus.Base.Json.{Fields, get, put, object, is_true, is_text, get-put_other}
use notipus.Queue.{PendingItem}
use notipus.Queue.Aggregation.{
  item_priority, compare_winner, pick_winner, aggregate_events, aggregate_winner, metadata_of,
  merge_payment_failure, merge_paid_invoice_metadata, fold_failure, add_failure, first_failure,
  add_billing_reason, first_billing_reason,
}

-- An item's priority is the highest, and the items before it have lower ones.
abbrev pub IsFirstMax : PendingItem → List PendingItem → List PendingItem → Type 0
IsFirstMax w before after =
    All (λ i. item_priority i < item_priority w) before
    × All (λ i. item_priority i ≤ item_priority w) after

abbrev pub Picks : List PendingItem → PendingItem → List PendingItem → Type 0
Picks items w others =
    (before : List PendingItem) × (after : List PendingItem) × (items ≡ before ++ (w ∷ after))
    × (others ≡ before ++ after)
    × IsFirstMax w before after

not_above : (m n : ℕ) → ltb m n ≡ false → n ≤ m
not_above m n h = ground arith

All-weaken :
    (m n : ℕ)
    → m ≤ n
    → (is : List PendingItem) → All (λ i. item_priority i ≤ m) is
    → All (λ i. item_priority i ≤ n) is
All-weaken m n h [] a = a
All-weaken m n h (i ∷ is) (p, a) = (omega (arith, p, h), All-weaken m n h is a)

All-through :
    (m n : ℕ) (before after : List PendingItem) (w : PendingItem)
    → item_priority w ≡ m
    → m ≤ n
    → All (λ i. item_priority i < m) before
    → All (λ i. item_priority i ≤ m) after
    → All (λ i. item_priority i ≤ n) (before ++ (w ∷ after))
All-through m n [] after w e h b a = (omega (arith, e, h), All-weaken m n h after a)
All-through m n (i ∷ before) after w e h (p, b) a =
    (omega (arith, p, h), All-through m n before after w e h b a)

abbrev pub PicksPair : List PendingItem → PendingItem × List PendingItem → Type 0
PicksPair items picked = Picks items picked.0 picked.1

compare_winner-Picks :
    (x : PendingItem) (items : List PendingItem) (picked : PendingItem × List PendingItem)
    → PicksPair items picked
    → PicksPair (x ∷ items) (compare_winner x items picked)
unfolding compare_winner
compare_winner-Picks x items (w, others) (before, after, e, o, (b, a)) =
    elim (Bool-cases (ltb (item_priority x) (item_priority w))) [
      | inl h ↦ rw h (
        x ∷ before,
        after,
        ap (λ is. x ∷ is) e,
        ap (λ is. x ∷ is) o,
        ((ltb→lt (item_priority x) (item_priority w) h, b), a),
      )
      | inr h ↦ rw h ([], items, refl, refl, (tt, covered h))
    ]
  where
    covered :
        ltb (item_priority x) (item_priority w) ≡ false
        → All (λ i. item_priority i ≤ item_priority x) items
    covered h = rw e (
        All-through (item_priority w) (item_priority x) before after w refl
          (not_above (item_priority x) (item_priority w) h) b a)

pub pick_winner-Picks :
    (x : PendingItem) (xs : List PendingItem) → PicksPair (x ∷ xs) (pick_winner x xs)
unfolding pick_winner
pick_winner-Picks x [] = ([], [], refl, refl, (tt, tt))
pick_winner-Picks x (y ∷ ys) =
    compare_winner-Picks x (y ∷ ys) (pick_winner y ys) (pick_winner-Picks y ys)

-- What the merges write is the metadata.
pub merge_payment_failure-other :
    (items : List PendingItem) (result : Fields) (k : String)
    → str_eq "metadata" k ≡ false
    → get k (merge_payment_failure items result) ≡ get k result
unfolding merge_payment_failure fold_failure
merge_payment_failure-other items result k h =
    elim (Bool-cases (is_text "payment_failure" (get "type" result))) [
      | inl failed ↦ rw failed
      | inr other ↦ rw other (elim (Option-cases (first_failure items)) [
        | inl absent ↦ rw absent
        | inr (e, found) ↦
            rw found
              (get-put_other "metadata" k (object (add_failure e (metadata_of result))) result h)
      ])
    ]

pub merge_paid_invoice_metadata-other :
    (items : List PendingItem) (result : Fields) (k : String)
    → str_eq "metadata" k ≡ false
    → get k (merge_paid_invoice_metadata items result) ≡ get k result
unfolding merge_paid_invoice_metadata
merge_paid_invoice_metadata-other items result k h =
    elim (Bool-cases (is_true (get "billing_reason" (metadata_of result)))) [
      | inl b ↦ rw b (get-put_other "metadata" k (object (metadata_of result)) result h)
      | inr b ↦ rw b (
          get-put_other "metadata" k
            (object (add_billing_reason (first_billing_reason items) (metadata_of result))) result
            h)
    ]

-- The aggregated event is, in every field but the metadata, the first of those events of the group
-- that have the highest priority; the others keep their order.
pub aggregate_first_max :
    (x : PendingItem) (xs : List PendingItem) (k : String)
    → str_eq "metadata" k ≡ false
    → PicksPair (x ∷ xs) (pick_winner x xs)
      × (get k (aggregate_events (x ∷ xs)).0 ≡ get k (pick_winner x xs).0.event_data)
unfolding aggregate_events aggregate_winner
aggregate_first_max x xs k h = (
  pick_winner-Picks x xs,
  merge_paid_invoice_metadata-other (x ∷ xs) (merge_payment_failure (x ∷ xs) own) k h
      ∙ merge_payment_failure-other (x ∷ xs) own k h
      ∙ get-put_other "metadata" k (object (metadata_of winner)) winner h,
)
  where
    winner : Fields
    winner = (pick_winner x xs).0.event_data

    own : Fields
    own = put "metadata" (object (metadata_of winner)) winner
