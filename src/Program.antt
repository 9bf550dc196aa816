-- ===== src/Program.antt =====
-- The program (cmd/zigbeemq/main.go): its settings from the environment and the command line, and what
-- it starts from them. Reading flags and serving HTTP are the standard library's.
pub mod Laws
use zigbeemq.Prelude.{if◌then◌else◌, Str, codes, str_eq, ℕ, ◌&&◌, not, Option, none, some, []}
use zigbeemq.Errors.{Error}
use zigbeemq.Zigbee.{Goznp}
use zigbeemq.Radio.{Radio, Link}
use zigbeemq.Hub.{CacheFile, Hub, new_hub}
use zigbeemq.Hub.Start.{open_hub}
use zigbeemq.Mq.Run.{Config, new_config}

-- `os.Getenv`: an unset variable reads as "".
abbrev pub Environment : Type 0
Environment = Str → Str

-- `env`.
pub env : Environment → Str → Str → Str
env getenv key default = let v = getenv key in if str_eq v [] then default else v

-- The flags that stand on the command line.
pub record Flags : Type 0 where
  pub port_flag : Option Str
  pub listen_flag : Option Str
  pub data_flag : Option Str
  pub mqtt_flag : Option Str
  pub mqtt_base_flag : Option Str

pub record Settings : Type 0 where
  pub port : Str
  pub listen : Str
  pub data_dir : Str
  pub mqtt_broker : Str
  pub mqtt_base : Str

-- The value of a flag, after `flag.Parse`.
abbrev pub flag_or : Option Str → Str → Str
flag_or none default = default
flag_or (some s) default = s

pub settings : Environment → Flags → Settings
unfolding env
settings getenv flags = record {
  port = flag_or flags.port_flag (env getenv (codes "GOZNP_PORT") (codes "/dev/ttyUSB0"));
  listen = flag_or flags.listen_flag (env getenv (codes "ZIGBEEMQ_LISTEN") (codes ":8080"));
  data_dir = flag_or flags.data_flag (env getenv (codes "ZIGBEEMQ_DATA") (codes "./data"));
  mqtt_broker =
      flag_or flags.mqtt_flag (env getenv (codes "ZIGBEEMQ_MQTT") (codes "tcp://bb:1883"));
  mqtt_base =
      flag_or flags.mqtt_base_flag (env getenv (codes "ZIGBEEMQ_MQTT_BASE") (codes "zigbee2mqtt"));
}

-- The bridge that `main` makes, if it makes one.
pub bridge_of : Settings → Option Config
bridge_of s =
    if not (str_eq s.mqtt_broker []) && not (str_eq s.mqtt_broker (codes "-"))
    then some (new_config (record { broker = s.mqtt_broker; base = s.mqtt_base; client_id = [] }))
    else none

-- What `main` comes to: it exits with a status, or it runs the bridge beside the server at an address.
pub data Started : Type 0 where
  exits : ℕ → Started
  serves : Str → Option Config → Started

-- `main`, up to the wait for the end; `file` is the content of the cache file, `refused` the error of
-- the adapter's own `Open`.
unfoldable start :
    {World : Type 0}
    → Goznp
    → Radio World
    → Link World
    → Environment
    → Flags
    → Option CacheFile
    → Option Error
    → World
    → Hub × World × Started
unfolding settings bridge_of
start z r link getenv flags file refused w =
    let s = settings getenv flags in
    let (h, w', error) = open_hub z r link refused (new_hub s.data_dir file) w in
    elim error [ some e ↦ (h, w', exits 1) | none ↦ (h, w', serves s.listen (bridge_of s)) ]
