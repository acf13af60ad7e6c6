-- ===== src/Config/CliCfg.antt =====
-- The configuration of the client and its defaults: src/teavpn2/client/common.h and
-- src/teavpn2/client/entry.c.
use teavpn.Common.{ℕ, Bool, false, Option, some, List, replicate}
use teavpn.Packet.{strncpy2}
use teavpn.User.{IfInfo}
use teavpn.Config.{bytes, SockType, sock_udp}

pub record CliCfgSys : Type 0 where
  pub cfg_file : Option (List ℕ)
  pub data_dir : List ℕ
  pub thread_num : ℕ
  pub verbose_level : ℕ

pub record CliCfgSock : Type 0 where
  pub use_encryption : Bool
  pub type : SockType
  pub server_addr : List ℕ
  pub server_port : ℕ
  pub event_loop : List ℕ

pub record CliCfgIface : Type 0 where
  pub override_default : Bool
  pub dev : List ℕ
  pub iff : IfInfo

pub record CliCfgAuth : Type 0 where
  pub username : List ℕ
  pub password : List ℕ

pub record CliCfg : Type 0 where
  pub sys : CliCfgSys
  pub sock : CliCfgSock
  pub iface : CliCfgIface
  pub auth : CliCfgAuth

abbrev pub d_cli_cfg_file : List ℕ
d_cli_cfg_file = bytes "/etc/teavpn2/client.ini"

-- `set_default_config` on a structure of zeros
abbrev pub set_default_config : CliCfg
set_default_config = record {
  sys = record {
    cfg_file = some d_cli_cfg_file;
    data_dir = replicate 128 0;
    thread_num = 2;
    verbose_level = 0;
  };
  sock = record {
    use_encryption = false;
    type = sock_udp;
    server_addr = replicate 64 0;
    server_port = 44444;
    event_loop = replicate 64 0;
  };
  iface = record {
    override_default = false;
    dev = strncpy2 (bytes "tcli0") 16;
    iff = record {
      dev = strncpy2 (bytes "tcli0") 16;
      ipv4_pub = replicate 16 0;
      ipv4 = replicate 16 0;
      ipv4_netmask = replicate 16 0;
      ipv4_dgateway = replicate 16 0;
      ipv4_mtu = 0;
    };
  };
  auth = record { username = replicate 256 0; password = replicate 256 0 };
}

-- Changes of a part of the configuration.
abbrev pub with_sys : CliCfg → (CliCfgSys → CliCfgSys) → CliCfg
with_sys cfg f = record cfg { sys = f cfg.sys }

abbrev pub with_sock : CliCfg → (CliCfgSock → CliCfgSock) → CliCfg
with_sock cfg f = record cfg { sock = f cfg.sock }

abbrev pub with_iface : CliCfg → (CliCfgIface → CliCfgIface) → CliCfg
with_iface cfg f = record cfg { iface = f cfg.iface }

abbrev pub with_auth : CliCfg → (CliCfgAuth → CliCfgAuth) → CliCfg
with_auth cfg f = record cfg { auth = f cfg.auth }
