-- ===== src/Cli/App/Selection.antt =====
-- The selected rows of the client's tables.
use fez_meshcore_controller.Prelude.{
  List, Option, [], arith, get_elem?, if◌then◌else◌, is_empty, is_some, length, none, refl, some,
  suc, true, zero, ℕ, ◌<◌, ◌>>=◌, ◌∷◌, ◌≡◌, ◌⊎◌,
}
use fez_meshcore_controller.Cli.RepeaterFilter.{Display}
use fez_meshcore_controller.Cli.App.{
  App, next_row, prev_row, sorted_contacts, selected_contact, select_next_contact,
  select_prev_contact,
}
use fez_meshcore_controller.Cli.App.Filter.{toggle_selected_filter_row}

-- On a table of `n` rows, moving down and then up, or up and then down, gives back the selected
-- row.
rows_cycle :
    (n i : ℕ)
    → i < n
    → (prev_row n (next_row n (some i)) ≡ some i) × (next_row n (prev_row n (some i)) ≡ some i)
unfolding next_row prev_row
rows_cycle zero i h = absurd (omega arith)
rows_cycle (suc n) zero h = ground (arith, h)
rows_cycle (suc n) (suc i) h = ground (arith, h)

get_elem?-lt : {A : Type 0} (xs : List A) (i : ℕ) → i < length xs → is_some (get_elem? xs i) ≡ true
get_elem?-lt [] i h = absurd (omega arith)
get_elem?-lt (x ∷ xs) zero h = refl
get_elem?-lt (x ∷ xs) (suc i) h = get_elem?-lt xs i (omega arith)

-- The row that `o` selects, in a table of `n` rows.
abbrev IsRow : ℕ → Option ℕ → Type 0
IsRow n none = ⊥
IsRow n (some i) = i < n

next_row-IsRow : (n : ℕ) (o : Option ℕ) → 0 < n → IsRow n (next_row n o)
unfolding next_row
next_row-IsRow zero o h = absurd (omega arith)
next_row-IsRow (suc n) none h = h
next_row-IsRow (suc n) (some i) h = ground arith

prev_row-IsRow : (n : ℕ) (o : Option ℕ) → 0 < n → IsRow n o ⊎ (o ≡ none) → IsRow n (prev_row n o)
unfolding prev_row
prev_row-IsRow zero o h r = absurd (omega arith)
prev_row-IsRow (suc n) none h r = ground arith
prev_row-IsRow (suc n) (some zero) h r = ground arith
prev_row-IsRow (suc n) (some (suc i)) h r = ground (arith, r)

row_contact :
    {A : Type 0} (xs : List A) (o : Option ℕ)
    → IsRow (length xs) o
    → is_some (o >>= λ i. get_elem? xs i) ≡ true
row_contact xs none h = absurd h
row_contact xs (some i) h = get_elem?-lt xs i h

first_row :
    {A : Type 0} (xs : List A)
    → ((if is_empty xs then none else some 0) >>= λ i. get_elem? xs i) ≡ get_elem? xs 0
first_row [] = refl
first_row (x ∷ xs) = refl

module _ (v : Display) where
  -- When the table shows a repeater, moving down selects one that is in the table, also when the
  -- row selected before has gone; moving up does when no row, or one that is in the table, was
  -- selected.
  pub select_contact_valid :
      (app : App)
      → 0 < length (sorted_contacts v app)
      → IsRow (length (sorted_contacts v app)) app.contacts_state ⊎ (app.contacts_state ≡ none)
      → (is_some (selected_contact v (select_next_contact v app)) ≡ true)
        × (is_some (selected_contact v (select_prev_contact v app)) ≡ true)
  unfolding selected_contact select_next_contact select_prev_contact sorted_contacts
  select_contact_valid app h r = (
    row_contact (sorted_contacts v app) _ (next_row-IsRow _ app.contacts_state h),
    row_contact (sorted_contacts v app) _ (prev_row-IsRow _ app.contacts_state h r),
  )

  -- After a row of the filter's popup is toggled, a contact is selected when the table shows one,
  -- and it is the first.
  pub toggle_selected_filter_row_first :
      (app : App)
      → selected_contact v (toggle_selected_filter_row v app)
        ≡ get_elem? (sorted_contacts v (toggle_selected_filter_row v app)) 0
  unfolding selected_contact toggle_selected_filter_row sorted_contacts
  toggle_selected_filter_row_first app =
      first_row (sorted_contacts v (toggle_selected_filter_row v app))
