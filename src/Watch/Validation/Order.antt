-- ===== src/Watch/Validation/Order.antt =====
-- What an accepted batch satisfies (watch/store_validation.py): its observations lie in the leased
-- window, belong to the station, and stand in strict order, so no identity stands twice.
use watershed_memory.Base.{
  ℕ, ◌≤◌, ◌≡◌, refl, Bool, true, Option, none, some, List, [], ◌∷◌, ok, arith, All, >>=-eq-ok,
}
use watershed_memory.Text.{Texts, text_lt}
use watershed_memory.Watch.Records.{MonitorConfig, PollLease}
use watershed_memory.Watch.Tables.{PageReceipt, Observation, SourceBatch}
use watershed_memory.Watch.Validation.{
  Identity, validate_scope, validate_pages, validate_identity, validate_item, validate_items,
  validate_batch, in_order, order_lt, order_of,
}

-- The observations lie in the leased window and belong to the registered station.
abbrev pub IsInScope : MonitorConfig → PollLease → Observation → Type 0
IsInScope config lease o =
    (o.station_id ≡ config.station_id) × (lease.start ≤ o.observed_at) × (o.observed_at ≤ lease.end)

text_lt_trans : (a b c : List ℕ) → text_lt a b ≡ true → text_lt b c ≡ true → text_lt a c ≡ true
unfolding text_lt
text_lt_trans [] [] c p q = cc
text_lt_trans a [] c p q = cc
text_lt_trans a (y ∷ b) [] p q = cc
text_lt_trans [] (y ∷ b) (z ∷ c) p q = refl
text_lt_trans (x ∷ a) (y ∷ b) (z ∷ c) p q = ground (arith, text_lt_trans a b c)

module _ (texts : Texts) where
  order_lt_trans :
      (a b c : Identity)
      → order_lt texts a b ≡ true
      → order_lt texts b c ≡ true
      → order_lt texts a c ≡ true
  unfolding order_lt
  order_lt_trans (t, s) (u, r) (v, q) p h =
      ground (arith, text_lt_trans (texts.chars s) (texts.chars r) (texts.chars q))

  -- The observation comes before all those of the list.
  abbrev pub IsBefore : Identity → List Observation → Type 0
  IsBefore i = All (λ later. order_lt texts i (order_of later) ≡ true)

  -- Each observation comes before all later ones.
  abbrev pub IsOrdered : List Observation → Type 0
  IsOrdered [] = Unit
  IsOrdered (o ∷ rest) = IsBefore (order_of o) rest × IsOrdered rest

  IsBefore-trans :
      (a b : Identity) (os : List Observation)
      → order_lt texts a b ≡ true
      → IsBefore b os
      → IsBefore a os
  IsBefore-trans a b [] p h = tt
  IsBefore-trans a b (o ∷ os) p h =
      (order_lt_trans a b (order_of o) p h.0, IsBefore-trans a b os p h.1)

module _ (texts : Texts) (bounded_value : Observation → Bool) (config : MonitorConfig)
    (lease : PollLease) (batch : SourceBatch) where
  validate_identity-IsInScope :
      (o : Observation)
      → validate_identity texts bounded_value config lease batch o ≡ ok tt
      → IsInScope config lease o
  unfolding validate_identity
  validate_identity-IsInScope o h = ground arith

  validate_items_split :
      (seen : List Identity) (previous : Option Identity) (o : Observation)
      (rest : List Observation)
      → validate_items texts bounded_value config lease batch seen previous (o ∷ rest) ≡ ok tt
      → (validate_identity texts bounded_value config lease batch o ≡ ok tt)
        × (in_order texts previous (order_of o) ≡ true)
        × (validate_items texts bounded_value config lease batch
              (order_of o ∷ seen)
              (some (order_of o))
              rest
            ≡ ok tt)
  unfolding validate_items validate_item
  validate_items_split seen previous o rest h = ground arith

  -- A loop that accepts has met its observations in strict order, after the previous one.
  validate_items-IsBefore :
      (seen : List Identity) (i : Identity) (os : List Observation)
      → validate_items texts bounded_value config lease batch seen (some i) os ≡ ok tt
      → IsBefore texts i os
  unfolding in_order
  validate_items-IsBefore seen i [] h = tt
  validate_items-IsBefore seen i (o ∷ os) h =
      let (identity, order, more) = validate_items_split seen (some i) o os h in
      (
        order,
        IsBefore-trans texts i (order_of o) os order
            (validate_items-IsBefore (order_of o ∷ seen) (order_of o) os more),
      )

  validate_items-IsOrdered :
      (seen : List Identity) (previous : Option Identity) (os : List Observation)
      → validate_items texts bounded_value config lease batch seen previous os ≡ ok tt
      → All (IsInScope config lease) os × IsOrdered texts os
  validate_items-IsOrdered seen previous [] h = (tt, tt)
  validate_items-IsOrdered seen previous (o ∷ os) h =
      let (identity, order, more) = validate_items_split seen previous o os h in
      let (scopes, ordered) =
        validate_items-IsOrdered (order_of o ∷ seen) (some (order_of o)) os more in
      (
        (validate_identity-IsInScope o identity, scopes),
        (validate_items-IsBefore (order_of o ∷ seen) (order_of o) os more, ordered),
      )

-- The observations of an accepted batch lie in the leased window and the station, in strict order
-- of time and series.
pub validate_batch-IsOrdered :
    (texts : Texts) (authority : MonitorConfig → PollLease → SourceBatch → ℕ → PageReceipt → Bool)
    (bounded_value : Observation → Bool) (batch : SourceBatch) (config : MonitorConfig)
    (lease : PollLease) (now : ℕ)
    → validate_batch texts authority bounded_value batch config lease now ≡ ok tt
    → (batch.start ≡ lease.start)
      × (batch.end ≡ lease.end)
      × All (IsInScope config lease) batch.observations
      × IsOrdered texts batch.observations
unfolding validate_batch
validate_batch-IsOrdered texts authority bounded_value batch config lease now h =
    let (_, scope, h1) = >>=-eq-ok (validate_scope batch config lease now) _ h in
    let (_, paged, h2) =
      >>=-eq-ok (validate_pages texts (authority config lease batch) batch [] 0 0 batch.pages) _
        h1 in
    let (scopes, ordered) =
      validate_items-IsOrdered texts bounded_value config lease batch [] none batch.observations
        h2 in
    (unfold validate_scope in ground arith, unfold validate_scope in ground arith, scopes, ordered)
