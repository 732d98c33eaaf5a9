-- ===== src/Queue/Process/Removal.antt =====
-- What `_remove_processed_items` takes from a pending list.
use notipus.Base.{and_left, and_right, ◌≡◌, refl, Bool, true, ◌&&◌, List, [], ◌∷◌, ◌++◌, All}
use notipus.Base.Json.{well_keyed_fields}
use notipus.Base.JsonEquality.{same_fields_refl}
use notipus.Queue.{PendingItem}
use notipus.Queue.Process.{same_item, remove_one, remove_all}

abbrev pub is_well_keyed : PendingItem → Bool
is_well_keyed i = well_keyed_fields i.event_data && well_keyed_fields i.customer_data

same_item_refl : (i : PendingItem) → is_well_keyed i ≡ true → same_item i i ≡ true
unfolding same_item
same_item_refl i h =
    rw (same_fields_refl i.event_data (and_left event customer h))
      (same_fields_refl i.customer_data (and_right event customer h))
  where
    event : Bool
    event = well_keyed_fields i.event_data

    customer : Bool
    customer = well_keyed_fields i.customer_data

-- Items that were appended during the delivery stay, in their order, and only they.
pub remove_all-appended :
    (processed appended : List PendingItem)
    → All (λ i. is_well_keyed i ≡ true) processed
    → remove_all processed (processed ++ appended) ≡ appended
unfolding remove_all remove_one
remove_all-appended [] appended h = refl
remove_all-appended (i ∷ is) appended (h, hs) =
    rw (same_item_refl i h) (remove_all-appended is appended hs)
