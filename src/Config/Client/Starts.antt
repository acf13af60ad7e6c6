-- ===== src/Config/Client/Starts.antt =====
-- When the client starts, and with which configuration.
use teavpn.Common.{ℕ, ◌≡◌, arith, true, false, List, Ret, get_or, ◌==◌}
use teavpn.Config.{Libc, Opt, Outcome, done, sock_udp, Opened, parse_cfg_file, goes_on, runs}
use teavpn.Config.Client.{parse_argv, client_cfg_parser, start_client, configure, run_client}
use teavpn.Config.CliCfg.{CliCfg, d_cli_cfg_file, set_default_config}

module _ (libc : Libc) (fopen : List ℕ → Opened) (os : List Opt) where
  -- The configuration after the options, and what reading the file makes of it.
  abbrev pub chosen : Outcome × CliCfg
  chosen = parse_argv libc os set_default_config

  abbrev pub from_file : Ret × CliCfg
  from_file = parse_cfg_file (client_cfg_parser libc) fopen chosen.1.sys.cfg_file chosen.1

  pub record Starts (cfg : CliCfg) : Type 0 where
    pub options : chosen.0 ≡ done
    pub file : goes_on from_file.0 from_file.1.sys.cfg_file d_cli_cfg_file ≡ true
    pub result : from_file.1 ≡ cfg
    pub user : (get_or cfg.auth.username 0 0 == 0) ≡ false
    pub password : (get_or cfg.auth.password 0 0 == 0) ≡ false
    pub udp : cfg.sock.type ≡ sock_udp

  pub run_client-Starts : (cfg : CliCfg) → run_client libc fopen os ≡ runs cfg → Starts cfg
  unfolding run_client configure start_client
  run_client-Starts cfg h = ground arith

  pub Starts-run_client : (cfg : CliCfg) → Starts cfg → run_client libc fopen os ≡ runs cfg
  unfolding run_client configure start_client
  Starts-run_client cfg s = ground arith
