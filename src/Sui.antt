-- ===== src/Sui.antt =====
-- The Move contracts that the backend calls as admin: ink_earning.move and badges.move, and the
-- transaction block that runs several calls or none. An address, an object and a digest are
-- numbers. A text that is only compared and tested for being empty is an Option, none for ''.
pub mod Keys
pub mod Walrus
unfoldable pub use Keys.*
use arktion_sui_overflow.Prelude.{
  ℕ, ◌+◌, Bool, true, false, not, ◌&&◌, Option, none, some, List, [], ◌∷◌, if◌then◌else◌, ◌==◌, ltb,
  is_some, find,
}

-- The abort codes of the two modules.
pub data Abort : Type 0 where
  invalid_trigger_type duplicate_idempotency_key : Abort
  invalid_category series_id_mismatch badge_already_minted : Abort

-- `EarningRecord`, which the user receives; its key is also the entry of the `EarningRegistry`.
pub record EarningRecord : Type 0 where
  pub idempotency_key : Key
  pub user : ℕ
  pub trigger_type : ℕ
  pub amount : ℕ

-- `BadgeKey`, an entry of the `BadgeRegistry`.
pub record BadgeKey : Type 0 where
  pub recipient : ℕ
  pub category : ℕ
  pub badge_type : ℕ
  pub series_id : Option ℕ

pub record Chain : Type 0 where
  pub records : List EarningRecord
  pub badges : List BadgeKey
  -- INK coins by owner
  pub coins : ℕ → ℕ

abbrev pub opt_eq : Option ℕ → Option ℕ → Bool
opt_eq none none = true
opt_eq (some a) (some b) = a == b
opt_eq _ _ = false

abbrev pub badge_key_eq : BadgeKey → BadgeKey → Bool
badge_key_eq a b =
    a.recipient == b.recipient
    && a.category == b.category
    && a.badge_type == b.badge_type
    && opt_eq a.series_id b.series_id

-- `dynamic_field::exists(&registry.id, idempotency_key)`
abbrev pub find_record : Key → List EarningRecord → Option EarningRecord
find_record key = find (λ r. key_eq r.idempotency_key key)

-- `get_amount_for_trigger`; none is an abort.
unfoldable pub get_amount_for_trigger : ℕ → Option ℕ
get_amount_for_trigger trigger =
    if trigger == 0
    then some 10
    else if trigger == 1
    then some 100
    else if trigger == 2
    then some 50
    else none

pub data Outcome : Type 0 where
  committed : Chain → Outcome
  aborted : Abort → Outcome

-- `ink_earning::earn`
unfoldable pub earn : ℕ → ℕ → Key → Chain → Outcome
unfolding get_amount_for_trigger
earn user trigger key c =
    if ltb 2 trigger
    then aborted invalid_trigger_type
    else if is_some (find_record key c.records)
    then aborted duplicate_idempotency_key
    else elim (get_amount_for_trigger trigger) [
      | none ↦ aborted invalid_trigger_type
      | some amount ↦ committed (record c {
        records =
            record { idempotency_key = key; user = user; trigger_type = trigger; amount = amount }
            ∷ c.records;
        coins = λ a. if a == user then c.coins a + amount else c.coins a;
      })
    ]

-- The series id is there exactly for the category of series lore.
abbrev pub series_matches : BadgeKey → Bool
series_matches key =
    if key.category == 2 then is_some key.series_id else not (is_some key.series_id)

-- `badges::mint`. CATEGORY_SERIES_LORE is 2 and CATEGORY_CONTRIBUTOR, the last one, is 4.
unfoldable pub mint_badge : BadgeKey → Chain → Outcome
mint_badge key c =
    if ltb 4 key.category
    then aborted invalid_category
    else if not (series_matches key)
    then aborted series_id_mismatch
    else if is_some (find (badge_key_eq key) c.badges)
    then aborted badge_already_minted
    else committed (record c { badges = key ∷ c.badges })

-- A call of a programmable transaction block.
pub data Command : Type 0 where
  earn_call : ℕ → ℕ → Key → Command
  badge_call : BadgeKey → Command

unfoldable pub run_command : Command → Chain → Outcome
unfolding earn mint_badge
run_command (earn_call user trigger key) c = earn user trigger key c
run_command (badge_call key) c = mint_badge key c

-- A block runs all its commands or leaves the chain as it was.
unfoldable pub run_block : List Command → Chain → Outcome
run_block [] c = committed c
run_block (command ∷ rest) c = elim (run_command command c) [
  | committed c' ↦ run_block rest c'
  | aborted a ↦ aborted a
]
