-- ===== src/Storage/Quotas.antt =====
-- storage/memory.py: the clients' configurations and quotas. A quota below 0 refuses as 0 does.
pub mod Spending
use avtomatika.Prelude.{ℕ, ◌-◌, String, Bool, true, false, Option, ltb, if◌then◌else◌}
use avtomatika.Dict
use avtomatika.Dict.{get_or}
use avtomatika.Value.{Job}
use avtomatika.Storage.{Memory}

unfoldable pub save_client_config : String → Job → Memory → Memory
save_client_config token config m = record m {
  client_configs = Dict.put token config m.client_configs;
}

unfoldable pub get_client_config : String → Memory → Option Job
get_client_config token m = Dict.get token m.client_configs

unfoldable pub initialize_client_quota : String → ℕ → Memory → Memory
initialize_client_quota token quota m = record m { quotas = Dict.put token quota m.quotas }

unfoldable pub check_and_decrement_quota : String → Memory → Bool × Memory
check_and_decrement_quota token m =
    let left = get_or token 0 m.quotas in
    if ltb 0 left
    then (true, record m { quotas = Dict.put token (left - 1) m.quotas })
    else (false, m)
