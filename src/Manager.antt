-- ===== src/Manager.antt =====
-- EtherRecorder/src/client_manager.c and server_manager.c: their configurations, and the loops that
-- try to connect and to bind, over what the platform answers in each round.
pub mod Backoff
pub mod Configs
pub mod Binding
use ether_recorder_suite.Prelude.{
  ℕ, ◌+◌, ◌*◌, ◌-◌, ◌%◌, ◌^◌, Bool, true, false, not, ◌&&◌, Option, none, some, List, [], ◌∷◌, ltb,
  leb, ◌==◌, if◌then◌else◌, codes, take,
}
use ether_recorder_suite.Text.{same_nocase}
use ether_recorder_suite.Platform.Codes.{PlatformErrorCode, platform_error_success}
use ether_recorder_suite.Config.{
  ConfigEntry, ℤ, get_config_string, get_config_int, get_config_uint16, get_config_bool,
}
use ether_recorder_suite.FileReader.{to_uint32, to_int}

abbrev pub platform_error_socket_create : PlatformErrorCode
platform_error_socket_create = 100

abbrev pub platform_error_socket_connect : PlatformErrorCode
platform_error_socket_connect = 102

abbrev pub platform_error_not_initialized : PlatformErrorCode
platform_error_not_initialized = 8

-- `ClientConfig`; its sizes of messages and its timeout are constants.
pub record ClientConfig : Type 0 where
  pub server_host : List ℕ
  pub server_port : ℕ
  pub is_tcp : Bool
  pub max_message_size : ℕ
  pub timeout_ms : ℕ
  pub backoff_initial_ms : ℕ
  pub backoff_max_ms : ℕ
  pub retry_limit : ℕ
  pub enable_relay : Bool

abbrev pub network : List ℕ
network = codes "network"

-- Whether the protocol of the configuration, TCP by default, is not UDP.
unfoldable pub protocol_is_tcp : List ConfigEntry → Bool
protocol_is_tcp entries = elim (get_config_string entries network (codes "server.protocol")) [
  | none ↦ true
  | some protocol ↦ not (same_nocase protocol (codes "UDP"))
]

-- `client_manager_init_config` of a configuration that is not null.
unfoldable pub client_manager_init_config : List ConfigEntry → ClientConfig → ClientConfig
client_manager_init_config entries config = record {
  server_host = elim (get_config_string entries network (codes "client.server_hostname")) [
    | none ↦ take 255 config.server_host
    | some host ↦ take 255 host
  ];
  server_port = get_config_uint16 entries network (codes "client.server_port") 4200;
  is_tcp = protocol_is_tcp entries;
  max_message_size = 1024;
  timeout_ms = 1000;
  backoff_initial_ms =
      to_uint32 (get_config_int entries network (codes "client.backoff_initial_ms") (to_int 1000));
  backoff_max_ms =
      to_uint32 (get_config_int entries network (codes "client.backoff_max_ms") (to_int 30000));
  retry_limit = to_uint32 (get_config_int entries network (codes "client.retry_limit") (to_int 0));
  enable_relay = get_config_bool entries network (codes "client.enable_relay") false;
}

-- The next wait, with numbers of 32 bits.
unfoldable pub next_backoff : ℕ → ℕ → ℕ
next_backoff max_ms backoff_ms =
    let doubled = (backoff_ms * 2) % 2 ^ 32 in if ltb doubled max_ms then doubled else max_ms

-- A round of `attempt_connection`: what creating a socket and connecting it give.
pub record Attempt : Type 0 where
  pub shutdown : Bool
  pub create : PlatformErrorCode
  pub connect : PlatformErrorCode

-- The loop of `attempt_connection`, with the limit, the greatest wait, the next wait and the count:
-- the code and the waits. `none` where the rounds end first.
unfoldable pub attempt_loop : ℕ → ℕ → ℕ → ℕ → List Attempt → Option (PlatformErrorCode × List ℕ)
attempt_loop retry_limit max_ms backoff_ms retry_count [] = none
attempt_loop retry_limit max_ms backoff_ms retry_count (a ∷ later) =
    let count = (retry_count + 1) % 2 ^ 32 in
    let rest = attempt_loop retry_limit max_ms (next_backoff max_ms backoff_ms) count later in
    if a.shutdown
    then some (platform_error_not_initialized, [])
    else if not (a.create == platform_error_success)
    then some (platform_error_socket_create, [])
    else if a.connect == platform_error_success
    then some (platform_error_success, [])
    else if ltb 0 retry_limit && leb retry_limit count
    then some (platform_error_socket_connect, backoff_ms ∷ [])
    else elim rest [ none ↦ none | some (code, waits) ↦ some (code, backoff_ms ∷ waits) ]

unfoldable pub attempt_connection :
    ClientConfig → List Attempt → Option (PlatformErrorCode × List ℕ)
attempt_connection config attempts =
    attempt_loop config.retry_limit config.backoff_max_ms config.backoff_initial_ms 0 attempts

-- `ServerConfig`, its two fields of type `int` as integers.
pub record ServerConfig : Type 0 where
  pub port : ℕ
  pub is_tcp : Bool
  pub backoff_max_seconds : ℤ
  pub retry_limit : ℕ
  pub thread_wait_timeout_ms : ℤ
  pub enable_relay : Bool

-- `server_manager_init_config` of a configuration that is not null.
unfoldable pub server_manager_init_config : List ConfigEntry → ServerConfig → ServerConfig
server_manager_init_config entries config = record {
  port = get_config_uint16 entries network (codes "server.server_port") config.port;
  is_tcp = protocol_is_tcp entries;
  backoff_max_seconds =
      get_config_int entries network (codes "server.backoff_max_seconds")
        config.backoff_max_seconds;
  retry_limit =
      to_uint32
        (get_config_int entries network (codes "server.retry_limit") (to_int config.retry_limit));
  thread_wait_timeout_ms =
      get_config_int entries network (codes "server.thread_wait_timeout_ms")
        config.thread_wait_timeout_ms;
  enable_relay = get_config_bool entries network (codes "server.enable_relay") false;
}

-- A round of the loop of `serverListenerThread` that binds: what binding gives. Whether a new
-- socket can be created after a failure makes no difference to the loop.
pub record BindTurn : Type 0 where
  pub shutdown : Bool
  pub bind : PlatformErrorCode

-- How the loop ends: the socket is bound, the thread returns, or it is shut down.
pub data Bound : Type 0 where
  bound gave_up shut_down : Bound

-- The greatest wait, in milliseconds of 32 bits.
unfoldable pub bind_max_ms : ServerConfig → ℕ
bind_max_ms config = (to_uint32 config.backoff_max_seconds * 1000) % 2 ^ 32

-- The loop with its waits; `none` where the rounds end first.
unfoldable pub bind_loop : ℕ → ℕ → ℕ → ℕ → List BindTurn → Option (Bound × List ℕ)
bind_loop retry_limit max_ms backoff_ms retry_count [] = none
bind_loop retry_limit max_ms backoff_ms retry_count (t ∷ later) =
    let count = (retry_count + 1) % 2 ^ 32 in
    let rest = bind_loop retry_limit max_ms (next_backoff max_ms backoff_ms) count later in
    if t.shutdown
    then some (shut_down, [])
    else if t.bind == platform_error_success
    then some (bound, [])
    else if ltb 0 retry_limit && leb retry_limit count
    then some (gave_up, backoff_ms ∷ [])
    else elim rest [ none ↦ none | some (end, waits) ↦ some (end, backoff_ms ∷ waits) ]

unfoldable pub bind_listener : ServerConfig → List BindTurn → Option (Bound × List ℕ)
bind_listener config turns = bind_loop config.retry_limit (bind_max_ms config) 1000 0 turns
