-- ===== src/Config/Client.antt =====
-- The configuration of the client: src/teavpn2/client/entry.c. The
-- level that set_notice_level() gets is always the one that `verbose_level` keeps.
pub mod Starts
pub mod Keys
pub mod Origin
pub mod Verdict
use teavpn.Common.{
  ℕ, ◌%◌, ◌^◌, Bool, true, false, Option, none, some, List, replicate, ◌||◌, ◌==◌, if◌then◌else◌,
  get_or, einval,
}
use teavpn.Packet.{strncpy2}
use teavpn.User.{Entry, IfInfo, is_text}
use teavpn.Config.{
  bytes, Libc, Opt, Outcome, done, failed, exit_zero, crash, with_arg, store, is_set, not_positive,
  verbosity, esocktnosupport, cast, parse_options, SockType, sock_udp, sock_tcp, parse_sock_type,
  Opened, parse_cfg_file, goes_on, status, Run, returns, exits_zero, crashes, runs,
}
use teavpn.Config.CliCfg.{
  CliCfgSys, CliCfgSock, CliCfgIface, CliCfgAuth, CliCfg, d_cli_cfg_file, set_default_config,
  with_sys, with_sock, with_iface, with_auth,
}

-- The last part of `run_client`: a user and a password there must be, and TCP is not supported.
unfoldable pub start_client : CliCfg → Run CliCfg
start_client cfg =
    if get_or cfg.auth.username 0 0 == 0
    then returns einval
    else if get_or cfg.auth.password 0 0 == 0
    then returns einval
    else elim cfg.sock.type [ sock_udp ↦ runs cfg | sock_tcp ↦ returns esocktnosupport ]

module _ (libc : Libc) where
  -- `-t` and `-s`, the cases that may refuse their argument.
  unfoldable pub thread_option : CliCfg → List ℕ → Outcome × CliCfg
  thread_option cfg v =
      let tmp = libc.atoi v in
      if not_positive tmp
      then (failed einval, cfg)
      else (done, with_sys cfg (λ s. record s { thread_num = cast 8 tmp }))

  unfoldable pub sock_option : CliCfg → List ℕ → Outcome × CliCfg
  sock_option cfg v = elim (parse_sock_type libc 5 v) as (λ x. Outcome × CliCfg) [
    | none ↦ (failed einval, cfg)
    | some t ↦ (done, with_sock cfg (λ s. record s { type = t }))
  ]

  -- The switch of `parse_argv`
  unfoldable pub parse_option : CliCfg → Opt → Outcome × CliCfg
  parse_option cfg o =
      let c = o.opt in
      if c == b'h' || c == b'V'
      then (exit_zero, cfg)
      else if c == b'v'
      then (done, with_sys cfg (λ s. record s { verbose_level = verbosity libc o }))
      else if c == b'c'
      then (done, with_sys cfg (λ s. record s { cfg_file = o.optarg }))
      else if c == b'd'
      then store o cfg (λ v. with_sys cfg (λ s. record s { data_dir = strncpy2 v 128 }))
      else if c == b't'
      then with_arg o cfg (thread_option cfg)
      else if c == b's'
      then with_arg o cfg (sock_option cfg)
      else if c == b'H'
      then store o cfg (λ v. with_sock cfg (λ s. record s { server_addr = strncpy2 v 64 }))
      else if c == b'P'
      then store o cfg (λ v. with_sock cfg (λ s. record s { server_port = cast 16 (libc.atoi v) }))
      else if c == b'E'
      then store o cfg
          (λ v. with_sock cfg (λ s. record s { use_encryption = is_set (libc.atoi v) }))
      else if c == b'D'
      then store o cfg (λ v. with_iface cfg (λ i. record i { dev = strncpy2 v 16 }))
      else if c == b'u'
      then store o cfg (λ v. with_auth cfg (λ a. record a { username = strncpy2 v 256 }))
      else if c == b'p'
      then store o cfg (λ v. with_auth cfg (λ a. record a { password = strncpy2 v 256 }))
      else (failed einval, cfg)

  abbrev pub parse_argv : List Opt → CliCfg → Outcome × CliCfg
  parse_argv = parse_options parse_option

  unfoldable pub cfg_parse_section_sys : CliCfg → List ℕ → List ℕ → Bool × CliCfg
  cfg_parse_section_sys cfg name val =
      if is_text name (bytes "thread")
      then (true, with_sys cfg (λ s. record s { thread_num = libc.strtoul val % 2 ^ 8 }))
      else if is_text name (bytes "verbose_level")
      then (true, with_sys cfg (λ s. record s { verbose_level = libc.strtoul val % 2 ^ 8 }))
      else if is_text name (bytes "data_dir")
      then (true, with_sys cfg (λ s. record s { data_dir = strncpy2 val 128 }))
      else (false, cfg)

  unfoldable pub set_sock_type : CliCfg → List ℕ → Bool × CliCfg
  set_sock_type cfg val = elim (parse_sock_type libc 8 val) as (λ x. Bool × CliCfg) [
    | none ↦ (false, cfg)
    | some t ↦ (true, with_sock cfg (λ s. record s { type = t }))
  ]

  unfoldable pub cfg_parse_section_socket : CliCfg → List ℕ → List ℕ → Bool × CliCfg
  cfg_parse_section_socket cfg name val =
      if is_text name (bytes "use_encryption")
      then (true, with_sock cfg (λ s. record s { use_encryption = is_set (libc.atoi val) }))
      else if is_text name (bytes "event_loop")
      then (true, with_sock cfg (λ s. record s { event_loop = strncpy2 val 64 }))
      else if is_text name (bytes "sock_type")
      then set_sock_type cfg val
      else if is_text name (bytes "server_addr")
      then (true, with_sock cfg (λ s. record s { server_addr = strncpy2 val 64 }))
      else if is_text name (bytes "server_port")
      then (true, with_sock cfg (λ s. record s { server_port = libc.strtoul val % 2 ^ 16 }))
      else (false, cfg)

  unfoldable pub cfg_parse_section_iface : CliCfg → List ℕ → List ℕ → Bool × CliCfg
  cfg_parse_section_iface cfg name val =
      if is_text name (bytes "dev")
      then (true, with_iface cfg (λ i. record i { dev = strncpy2 val 16 }))
      else if is_text name (bytes "override_default")
      then (true, with_iface cfg (λ i. record i { override_default = is_set (libc.atoi val) }))
      else (false, cfg)

  unfoldable pub cfg_parse_section_auth : CliCfg → List ℕ → List ℕ → Bool × CliCfg
  cfg_parse_section_auth cfg name val =
      if is_text name (bytes "username")
      then (true, with_auth cfg (λ a. record a { username = strncpy2 val 256 }))
      else if is_text name (bytes "password")
      then (true, with_auth cfg (λ a. record a { password = strncpy2 val 256 }))
      else (false, cfg)

  unfoldable pub client_cfg_parser : CliCfg → Entry → Bool × CliCfg
  client_cfg_parser cfg e =
      if is_text e.section (bytes "sys")
      then cfg_parse_section_sys cfg e.name e.val
      else if is_text e.section (bytes "socket")
      then cfg_parse_section_socket cfg e.name e.val
      else if is_text e.section (bytes "iface")
      then cfg_parse_section_iface cfg e.name e.val
      else if is_text e.section (bytes "auth")
      then cfg_parse_section_auth cfg e.name e.val
      else (false, cfg)

  -- The part of `run_client` after `parse_argv` returned 0.
  unfoldable pub configure : (List ℕ → Opened) → CliCfg → Run CliCfg
  configure fopen cfg =
      let (r, cfg') = parse_cfg_file client_cfg_parser fopen cfg.sys.cfg_file cfg in
      if goes_on r cfg'.sys.cfg_file d_cli_cfg_file then start_client cfg' else returns (status r)

  -- `run_client`, on what getopt_long() returns for the command line
  unfoldable pub run_client : (List ℕ → Opened) → List Opt → Run CliCfg
  run_client fopen os =
      let (r, cfg) = parse_argv os set_default_config in
      elim r [
        | done ↦ configure fopen cfg
        | failed e ↦ returns e
        | exit_zero ↦ exits_zero
        | crash ↦ crashes
      ]
