-- ===== src/Manager/Configs.antt =====
-- The configurations of the client and the server.
use ether_recorder_suite.Prelude.{
  ℕ, zero, suc, ◌^◌, ◌≤◌, ◌<◌, Option, none, some, List, [], ◌∷◌, length, take, arith, codes,
}
use ether_recorder_suite.Config.{ConfigEntry, get_config_string, get_config_int}
use ether_recorder_suite.Config.Values.{get_config_uint16_lt}
use ether_recorder_suite.FileReader.{to_int}
use ether_recorder_suite.FileReader.Settings.{to_uint32_lt}
use ether_recorder_suite.Manager.{ClientConfig, client_manager_init_config, network}

-- The numbers fit their types, and the host its buffer of 256 bytes.
pub record ClientFits (c : ClientConfig) : Type 0 where
  pub server_host : length c.server_host < 256
  pub server_port : c.server_port < 2 ^ 16
  pub backoff_initial_ms : c.backoff_initial_ms < 2 ^ 32
  pub backoff_max_ms : c.backoff_max_ms < 2 ^ 32
  pub retry_limit : c.retry_limit < 2 ^ 32

length-take_le : (n : ℕ) (xs : List ℕ) → length (take n xs) ≤ n
length-take_le zero xs = omega arith
length-take_le (suc n) [] = omega arith
length-take_le (suc n) (x ∷ xs) = omega (arith, length-take_le n xs)

host_lt :
    (host : Option (List ℕ)) (before : List ℕ)
    → length (elim host as (λ o. List ℕ) [ none ↦ take 255 before | some h ↦ take 255 h ]) < 256
host_lt none before = omega (arith, length-take_le 255 before)
host_lt (some h) before = omega (arith, length-take_le 255 h)

-- Whatever the file and the configuration before hold, the configuration that the client manager
-- makes fits: its port 16 bits, its waits and its limit 32, and its host the buffer with a byte to
-- spare.
pub client_manager_init_config-ClientFits :
    (entries : List ConfigEntry) (config : ClientConfig)
    → ClientFits (client_manager_init_config entries config)
unfolding client_manager_init_config
client_manager_init_config-ClientFits entries config = record {
  server_host =
      host_lt (get_config_string entries network (codes "client.server_hostname"))
        config.server_host;
  server_port =
      get_config_uint16_lt entries network (codes "client.server_port") 4200 (omega arith);
  backoff_initial_ms =
      to_uint32_lt
        (get_config_int entries network (codes "client.backoff_initial_ms") (to_int 1000));
  backoff_max_ms =
      to_uint32_lt (get_config_int entries network (codes "client.backoff_max_ms") (to_int 30000));
  retry_limit =
      to_uint32_lt (get_config_int entries network (codes "client.retry_limit") (to_int 0));
}
