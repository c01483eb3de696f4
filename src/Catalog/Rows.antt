-- ===== src/Catalog/Rows.antt =====
-- The rows of a table, as a statement of SQL selects, changes and deletes them.
pub mod Laws
pub mod Finding
use bvault_app.Prelude.{
  ℕ, suc, Bool, true, false, not, ◌||◌, Option, some, none, List, [], ◌∷◌, ◌++◌, if◌then◌else◌,
}

module _ {A : Type 0} where
  unfoldable pub find_first : (A → Bool) → List A → Option A
  find_first p [] = none
  find_first p (r ∷ rs) = if p r then some r else find_first p rs

  unfoldable pub select : (A → Bool) → List A → List A
  select p [] = []
  select p (r ∷ rs) = let rest = select p rs in if p r then r ∷ rest else rest

  unfoldable pub delete_where : (A → Bool) → List A → List A
  unfolding select
  delete_where p rs = select (λ r. not (p r)) rs

  unfoldable pub update_where : (A → Bool) → (A → A) → List A → List A
  update_where p f [] = []
  update_where p f (r ∷ rs) = (if p r then f r else r) ∷ update_where p f rs

  unfoldable pub any : (A → Bool) → List A → Bool
  any p [] = false
  any p (r ∷ rs) = p r || any p rs

  unfoldable pub all : (A → Bool) → List A → Bool
  all p [] = true
  all p (r ∷ rs) = if p r then all p rs else false

  unfoldable pub insert_by : (A → A → Bool) → A → List A → List A
  insert_by before r [] = r ∷ []
  insert_by before r (s ∷ rs) = if before r s then r ∷ s ∷ rs else s ∷ insert_by before r rs

  -- `order by`; rows that compare equal stay in their order.
  unfoldable pub order_by : (A → A → Bool) → List A → List A
  unfolding insert_by
  order_by before [] = []
  order_by before (r ∷ rs) = insert_by before r (order_by before rs)
