-- ===== src/Interface/Configuration.antt =====
-- server/src/config.rs: the configuration and how it is loaded. The `config` crate is an argument.
use authust.Prelude.{ℕ, String, Bool, true, Option, none, List, [], map}
use authust.Prelude.Res.{Res, ◌>>=◌}
use authust.PolicyEngine.Network.{IpAddr, Ipv6Addr, v6}

pub record SocketAddr : Type 0 where
  pub ip : IpAddr
  pub port : ℕ

pub record AuthustConfiguration : Type 0 where
  pub allowed_hosts : List String

pub record ListenConfiguration : Type 0 where
  pub http : SocketAddr
  pub https : Option SocketAddr
  pub metrics : SocketAddr

pub record PostgresConfiguration : Type 0 where
  pub host : String
  pub port : ℕ
  pub database : String
  pub user : String
  pub password : String

pub record InternalAuthustConfiguration : Type 0 where
  pub listen : ListenConfiguration
  pub postgres : PostgresConfiguration
  pub secret : String
  pub jaeger_endpoint : Option String

-- `Ipv6Addr::UNSPECIFIED`.
abbrev all_addresses : Ipv6Addr
all_addresses = record { s0 = 0; s1 = 0; s2 = 0; s3 = 0; s4 = 0; s5 = 0; s6 = 0; s7 = 0 }

-- `ListenConfiguration::default`.
unfoldable pub default_listen : ListenConfiguration
default_listen = record {
  http = record { ip = v6 all_addresses; port = 8080 };
  https = none;
  metrics = record { ip = v6 all_addresses; port = 3000 };
}

-- `leak_string` and `leak_vec`: the texts stay as they are, for the rest of the program.
unfoldable pub leak_string : String → String
leak_string s = s

unfoldable pub leak_vec : List String → List String
unfolding leak_string
leak_vec texts = map leak_string texts

-- `From<InternalAuthustConfiguration>`.
unfoldable pub from_internal : InternalAuthustConfiguration → AuthustConfiguration
unfolding leak_vec
from_internal _value = record { allowed_hosts = leak_vec [] }

-- `config::Environment`: how variables are read.
pub record Environment : Type 0 where
  pub prefix : String
  pub ignore_empty : Bool
  pub separator : String
  pub prefix_separator : String

pub data Value : Type 0 where
  text : String → Value
  int : ℕ → Value

-- `Config::builder` and its methods, `Config::try_deserialize`, and `SocketAddr::to_string`.
pub record ConfigCrate (Builder Config ConfigError : Type 0) : Type 0 where
  pub builder : Builder
  pub add_source : Environment → Builder → Builder
  pub set_default : String → Value → Builder → Res ConfigError Builder
  pub build : Builder → Res ConfigError Config
  pub try_deserialize : Config → Res ConfigError InternalAuthustConfiguration
  pub addr_text : SocketAddr → String

-- `AUTHUST_LISTEN__HTTP` is the variable of the key "listen.http".
abbrev pub environment : Environment
environment = record {
  prefix = "AUTHUST";
  ignore_empty = true;
  separator = "__";
  prefix_separator = "_";
}

module _ {Builder Config ConfigError : Type 0}
    (config : ConfigCrate Builder Config ConfigError) where
  -- `InternalAuthustConfiguration::load`.
  unfoldable pub load : Res ConfigError InternalAuthustConfiguration
  unfolding default_listen
  load = do
    with_http ←
        config.set_default "listen.http" (text (config.addr_text default_listen.http))
          (config.add_source environment config.builder)
    with_metrics ←
        config.set_default "listen.metrics" (text (config.addr_text default_listen.metrics))
          with_http
    with_port ← config.set_default "postgres.port" (int 5432) with_metrics
    loaded ← config.build with_port
    config.try_deserialize loaded
