-- ===== src/Config/SrvCfg.antt =====
-- The configuration of the server and its defaults: src/teavpn2/server/common.h and
-- src/teavpn2/server/entry.c.
use teavpn.Common.{ℕ, Bool, false, Option, some, List, replicate}
use teavpn.Packet.{strncpy2}
use teavpn.User.{IfInfo}
use teavpn.Config.{bytes, ℤ, pos, SockType, sock_udp}

pub record SrvCfgSys : Type 0 where
  pub cfg_file : Option (List ℕ)
  pub data_dir : List ℕ
  pub thread_num : ℕ
  pub verbose_level : ℕ

pub record SrvCfgSock : Type 0 where
  pub use_encryption : Bool
  pub backlog : ℤ
  pub type : SockType
  pub bind_addr : List ℕ
  pub bind_port : ℕ
  pub max_conn : ℕ
  pub event_loop : List ℕ
  pub ssl_cert : List ℕ
  pub ssl_priv_key : List ℕ

pub record SrvCfgIface : Type 0 where
  pub dev : List ℕ
  pub mtu : ℕ
  pub iff : IfInfo

pub record SrvCfg : Type 0 where
  pub sys : SrvCfgSys
  pub sock : SrvCfgSock
  pub iface : SrvCfgIface

abbrev pub d_srv_cfg_file : List ℕ
d_srv_cfg_file = bytes "/etc/teavpn2/server.ini"

-- `set_default_config` on a structure of zeros
abbrev pub set_default_config : SrvCfg
set_default_config = record {
  sys = record {
    cfg_file = some d_srv_cfg_file;
    data_dir = replicate 128 0;
    thread_num = 2;
    verbose_level = 0;
  };
  sock = record {
    use_encryption = false;
    backlog = pos 10;
    type = sock_udp;
    bind_addr = strncpy2 (bytes "0.0.0.0") 64;
    bind_port = 44444;
    max_conn = 32;
    event_loop = replicate 64 0;
    ssl_cert = replicate 256 0;
    ssl_priv_key = replicate 256 0;
  };
  iface = record {
    dev = strncpy2 (bytes "tsrv0") 16;
    mtu = 0;
    iff = record {
      dev = strncpy2 (bytes "tsrv0") 16;
      ipv4_pub = replicate 16 0;
      ipv4 = strncpy2 (bytes "10.5.5.1") 16;
      ipv4_netmask = strncpy2 (bytes "255.255.255.0") 16;
      ipv4_dgateway = replicate 16 0;
      ipv4_mtu = 1450;
    };
  };
}

-- Changes of a part of the configuration.
abbrev pub with_sys : SrvCfg → (SrvCfgSys → SrvCfgSys) → SrvCfg
with_sys cfg f = record cfg { sys = f cfg.sys }

abbrev pub with_sock : SrvCfg → (SrvCfgSock → SrvCfgSock) → SrvCfg
with_sock cfg f = record cfg { sock = f cfg.sock }

abbrev pub with_iface : SrvCfg → (SrvCfgIface → SrvCfgIface) → SrvCfg
with_iface cfg f = record cfg { iface = f cfg.iface }

abbrev pub with_iff : SrvCfg → (IfInfo → IfInfo) → SrvCfg
with_iff cfg f = with_iface cfg (λ i. record i { iff = f i.iff })

-- Both copies of the device's name, and of the MTU.
abbrev pub with_device : SrvCfg → List ℕ → SrvCfg
with_device cfg name =
    with_iface cfg
      (λ i. let iff = i.iff in record i { dev = name; iff = record iff { dev = name } })

abbrev pub with_mtu : SrvCfg → ℕ → SrvCfg
with_mtu cfg n =
    with_iface cfg (λ i. let iff = i.iff in record i { mtu = n; iff = record iff { ipv4_mtu = n } })
