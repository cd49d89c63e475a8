-- ===== src/Authority/Consumption.antt =====
-- authority_consumption.py: `MemoryConsumptionStore`, a set of keys as a list without repetitions.
use Prim.Native.String.{◌++◌ as text_append}
use personal_secretary.Prelude.{
  ℕ, ◌+◌, String, Bool, true, false, ◌&&◌, ◌||◌, List, [], ◌∷◌, str_eq, if◌then◌else◌,
}

-- A namespace and an identifier.
abbrev pub ConsumptionKey : Type 0
ConsumptionKey = String × String

abbrev pub key_eq : ConsumptionKey → ConsumptionKey → Bool
key_eq k l = str_eq k.0 l.0 && str_eq k.1 l.1

unfoldable pub is_consumed : ConsumptionKey → List ConsumptionKey → Bool
is_consumed k [] = false
is_consumed k (l ∷ ls) = key_eq l k || is_consumed k ls

unfoldable pub any_consumed : List ConsumptionKey → List ConsumptionKey → Bool
any_consumed [] consumed = false
any_consumed (k ∷ ks) consumed = is_consumed k consumed || any_consumed ks consumed

-- `self._consumed.update(keys)`
unfoldable pub update : List ConsumptionKey → List ConsumptionKey → List ConsumptionKey
update [] consumed = consumed
update (k ∷ ks) consumed = update ks (if is_consumed k consumed then consumed else k ∷ consumed)

unfoldable pub consume : List ConsumptionKey → List ConsumptionKey → List ConsumptionKey × Bool
consume keys consumed =
    if any_consumed keys consumed then (consumed, false) else (update keys consumed, true)

unfoldable pub count_namespace : String → List ConsumptionKey → ℕ
count_namespace namespace [] = 0
count_namespace namespace (k ∷ ks) =
    (if str_eq k.0 namespace then 1 else 0) + count_namespace namespace ks

unfoldable pub generation : List ConsumptionKey → String → ℕ
generation consumed proposal_id = count_namespace (text_append "reset-round:" proposal_id) consumed
