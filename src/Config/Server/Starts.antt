-- ===== src/Config/Server/Starts.antt =====
-- When the server starts, and with which configuration.
use teavpn.Common.{ℕ, ◌≡◌, arith, true, List, Ret}
use teavpn.Config.{Libc, Opt, Outcome, done, sock_udp, Opened, parse_cfg_file, goes_on, runs}
use teavpn.Config.Server.{parse_argv, server_cfg_parser, start_server, configure, run_server}
use teavpn.Config.SrvCfg.{SrvCfg, d_srv_cfg_file, set_default_config}

module _ (libc : Libc) (fopen : List ℕ → Opened) (os : List Opt) where
  -- The configuration after the options, and what reading the file makes of it.
  abbrev pub chosen : Outcome × SrvCfg
  chosen = parse_argv libc os set_default_config

  abbrev pub from_file : Ret × SrvCfg
  from_file = parse_cfg_file (server_cfg_parser libc) fopen chosen.1.sys.cfg_file chosen.1

  pub record Starts (cfg : SrvCfg) : Type 0 where
    pub options : chosen.0 ≡ done
    pub file : goes_on from_file.0 from_file.1.sys.cfg_file d_srv_cfg_file ≡ true
    pub result : from_file.1 ≡ cfg
    pub udp : cfg.sock.type ≡ sock_udp

  pub run_server-Starts : (cfg : SrvCfg) → run_server libc fopen os ≡ runs cfg → Starts cfg
  unfolding run_server configure start_server
  run_server-Starts cfg h = ground arith

  pub Starts-run_server : (cfg : SrvCfg) → Starts cfg → run_server libc fopen os ≡ runs cfg
  unfolding run_server configure start_server
  Starts-run_server cfg s = ground arith
