-- ===== src/Tests/Managers.antt =====
-- The client at small inputs.
use ether_recorder_suite.Prelude.{◌≡◌, refl, true, false, some, List, [], ◌∷◌, arith, codes, map}
use ether_recorder_suite.Config.{pos}
use ether_recorder_suite.FileReader.{to_uint32}
use ether_recorder_suite.Manager.Binding.{as_attempt, as_bound, bind_listener-attempt_connection}
use ether_recorder_suite.Manager.{
  ServerConfig, BindTurn, bind_listener, bind_max_ms, ClientConfig, Attempt, attempt_connection,
  platform_error_socket_connect,
}
use ether_recorder_suite.Manager.Backoff.{Tries, connects, fails, waits, attempt_connection-Tries}

abbrev config : ClientConfig
config = record {
  server_host = codes "localhost";
  server_port = 4200;
  is_tcp = true;
  max_message_size = 1024;
  timeout_ms = 1000;
  backoff_initial_ms = 1000;
  backoff_max_ms = 30000;
  retry_limit = 2;
  enable_relay = false;
}

abbrev refused : Attempt
refused = record { shutdown = false; create = 0; connect = 102 }

abbrev accepted : Attempt
accepted = record { shutdown = false; create = 0; connect = 0 }

abbrev rounds : List Attempt
rounds = refused ∷ refused ∷ refused ∷ accepted ∷ []

rounds-Tries : Tries 3 rounds
rounds-Tries = fails refused refl refl refl (
    fails refused refl refl refl
      (fails refused refl refl refl (connects accepted [] refl refl refl)))

-- The third attempt is not made.
attempt_connection-Tries_example :
    attempt_connection config rounds ≡ some (platform_error_socket_connect, waits 1000 30000 0 2)
attempt_connection-Tries_example =
    attempt_connection-Tries config 3 rounds (omega arith) (omega arith) (omega arith) rounds-Tries

abbrev server : ServerConfig
server = record {
  port = 4199;
  is_tcp = true;
  backoff_max_seconds = pos 30;
  retry_limit = 2;
  thread_wait_timeout_ms = pos 5000;
  enable_relay = false;
}

abbrev turns : List BindTurn
turns = record { shutdown = false; bind = 103 } ∷ record { shutdown = false; bind = 0 } ∷ []

bind_listener-attempt_connection_example :
    bind_listener server turns ≡ as_bound (attempt_connection config (map as_attempt turns))
bind_listener-attempt_connection_example =
    bind_listener-attempt_connection server config turns refl refl
      (unfold bind_max_ms to_uint32 in refl)
