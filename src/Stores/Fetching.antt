-- ===== src/Stores/Fetching.antt =====
-- A value of a store with its loading flag and its error, and the request that fills it.
use arktion_sui_overflow.Prelude.{ℕ, ok, err, Option, none, Bool, some, false}
use arktion_sui_overflow.Stores.{Answer}

-- A value that is fetched.
pub record Fetched (A : Type 0) : Type 0 where
  pub value : Option A
  pub loading : Bool
  pub error : Option ℕ

abbrev pub not_fetched : {A : Type 0} → Fetched A
not_fetched = record { value = none; loading = false; error = none }

-- A `set` that shows the loading, the request, and a `set` with the answer or the message.
unfoldable pub fetch_value : {A : Type 0} → Answer A → Fetched A → Fetched A
fetch_value (ok a) f = record { value = some a; loading = false; error = none }
fetch_value (err message) f = record { value = f.value; loading = false; error = some message }
