-- ===== src/Config/Server.antt =====
-- The configuration of the server: src/teavpn2/server/entry.c. The
-- level that set_notice_level() gets is always the one that `verbose_level` keeps.
pub mod Texts
pub mod Starts
pub mod Keys
pub mod Origin
pub mod Verdict
use teavpn.Common.{
  ℕ, zero, suc, ◌%◌, ◌^◌, Bool, true, false, Option, none, some, List, ◌∷◌, [], replicate, ◌||◌,
  ◌==◌, if◌then◌else◌, einval,
}
use teavpn.Packet.{strncpy2}
use teavpn.User.{Entry, IfInfo, is_text}
use teavpn.Config.{
  bytes, ℤ, crash, store, verbosity, is_set, not_positive, esocktnosupport, pos, negsuc, cast, Libc,
  Opt, Outcome, done, failed, exit_zero, with_arg, parse_options, SockType, sock_udp, sock_tcp,
  parse_sock_type, Opened, parse_cfg_file, goes_on, status, Run, returns, exits_zero, crashes, runs,
}
use teavpn.Config.SrvCfg.{
  SrvCfgSys, SrvCfgSock, SrvCfgIface, SrvCfg, d_srv_cfg_file, set_default_config, with_sys,
  with_sock, with_iface, with_iff, with_device, with_mtu,
}

-- The last part of `run_server`: TCP is not supported.
unfoldable pub start_server : SrvCfg → Run SrvCfg
start_server cfg = elim cfg.sock.type [ sock_udp ↦ runs cfg | sock_tcp ↦ returns esocktnosupport ]

module _ (libc : Libc) where
  -- `-t`, `-m` and `-s`, the cases that may refuse their argument.
  unfoldable pub thread_option : SrvCfg → List ℕ → Outcome × SrvCfg
  thread_option cfg v =
      let tmp = libc.atoi v in
      if not_positive tmp
      then (failed einval, cfg)
      else (done, with_sys cfg (λ s. record s { thread_num = cast 8 tmp }))

  unfoldable pub mtu_option : SrvCfg → List ℕ → Outcome × SrvCfg
  mtu_option cfg v =
      let tmp = libc.atoi v in
      if not_positive tmp
      then (failed einval, cfg)
      else (done, with_iface cfg (λ i. record i { mtu = cast 16 tmp }))

  unfoldable pub sock_option : SrvCfg → List ℕ → Outcome × SrvCfg
  sock_option cfg v = elim (parse_sock_type libc 5 v) as (λ x. Outcome × SrvCfg) [
    | none ↦ (failed einval, cfg)
    | some t ↦ (done, with_sock cfg (λ s. record s { type = t }))
  ]

  -- The switch of `parse_argv`. It has no case for other characters.
  unfoldable pub parse_option : SrvCfg → Opt → Outcome × SrvCfg
  parse_option cfg o =
      let c = o.opt in
      if c == b'h' || c == b'V'
      then (exit_zero, cfg)
      else if c == b'v'
      then (done, with_sys cfg (λ s. record s { verbose_level = verbosity libc o }))
      else if c == b'c'
      then (done, with_sys cfg (λ s. record s { cfg_file = o.optarg }))
      else if c == b'd'
      then store o cfg (λ v. with_sys cfg (λ s. record s { data_dir = strncpy2 v 128 }))
      else if c == b't'
      then with_arg o cfg (thread_option cfg)
      else if c == b'D'
      then store o cfg (λ v. with_iface cfg (λ i. record i { dev = strncpy2 v 16 }))
      else if c == b'm'
      then with_arg o cfg (mtu_option cfg)
      else if c == b'4'
      then store o cfg (λ v. with_iff cfg (λ i. record i { ipv4 = strncpy2 v 16 }))
      else if c == b'N'
      then store o cfg (λ v. with_iff cfg (λ i. record i { ipv4_netmask = strncpy2 v 16 }))
      else if c == b's'
      then with_arg o cfg (sock_option cfg)
      else if c == b'H'
      then store o cfg (λ v. with_sock cfg (λ s. record s { bind_addr = strncpy2 v 64 }))
      else if c == b'P'
      then store o cfg (λ v. with_sock cfg (λ s. record s { bind_port = cast 16 (libc.atoi v) }))
      else if c == b'E'
      then store o cfg
          (λ v. with_sock cfg (λ s. record s { use_encryption = is_set (libc.atoi v) }))
      else (done, cfg)

  abbrev pub parse_argv : List Opt → SrvCfg → Outcome × SrvCfg
  parse_argv = parse_options parse_option

  unfoldable pub cfg_parse_section_sys : SrvCfg → List ℕ → List ℕ → Bool × SrvCfg
  cfg_parse_section_sys cfg name val =
      if is_text name (bytes "thread")
      then (true, with_sys cfg (λ s. record s { thread_num = libc.strtoul val % 2 ^ 8 }))
      else if is_text name (bytes "verbose_level")
      then (true, with_sys cfg (λ s. record s { verbose_level = libc.strtoul val % 2 ^ 8 }))
      else if is_text name (bytes "data_dir")
      then (true, with_sys cfg (λ s. record s { data_dir = strncpy2 val 128 }))
      else (false, cfg)

  unfoldable pub set_sock_type : SrvCfg → List ℕ → Bool × SrvCfg
  set_sock_type cfg val = elim (parse_sock_type libc 8 val) as (λ x. Bool × SrvCfg) [
    | none ↦ (false, cfg)
    | some t ↦ (true, with_sock cfg (λ s. record s { type = t }))
  ]

  unfoldable pub cfg_parse_section_socket : SrvCfg → List ℕ → List ℕ → Bool × SrvCfg
  cfg_parse_section_socket cfg name val =
      if is_text name (bytes "use_encryption")
      then (true, with_sock cfg (λ s. record s { use_encryption = is_set (libc.atoi val) }))
      else if is_text name (bytes "event_loop")
      then (true, with_sock cfg (λ s. record s { event_loop = strncpy2 val 64 }))
      else if is_text name (bytes "sock_type")
      then set_sock_type cfg val
      else if is_text name (bytes "bind_addr")
      then (true, with_sock cfg (λ s. record s { bind_addr = strncpy2 val 64 }))
      else if is_text name (bytes "bind_port")
      then (true, with_sock cfg (λ s. record s { bind_port = libc.strtoul val % 2 ^ 16 }))
      else if is_text name (bytes "backlog")
      then (true, with_sock cfg (λ s. record s { backlog = libc.atoi val }))
      else if is_text name (bytes "max_conn")
      then (true, with_sock cfg (λ s. record s { max_conn = libc.strtoul val % 2 ^ 16 }))
      else if is_text name (bytes "ssl_cert")
      then (true, with_sock cfg (λ s. record s { ssl_cert = strncpy2 val 256 }))
      else if is_text name (bytes "ssl_priv_key")
      then (true, with_sock cfg (λ s. record s { ssl_priv_key = strncpy2 val 256 }))
      else (false, cfg)

  -- That the last byte of a field is set to NUL once more is left out.
  unfoldable pub cfg_parse_section_iface : SrvCfg → List ℕ → List ℕ → Bool × SrvCfg
  cfg_parse_section_iface cfg name val =
      if is_text name (bytes "dev")
      then (true, with_device cfg (strncpy2 val 16))
      else if is_text name (bytes "mtu")
      then (true, with_mtu cfg (libc.strtoul val % 2 ^ 16))
      else if is_text name (bytes "ipv4")
      then (true, with_iff cfg (λ i. record i { ipv4 = strncpy2 val 16 }))
      else if is_text name (bytes "ipv4_netmask")
      then (true, with_iff cfg (λ i. record i { ipv4_netmask = strncpy2 val 16 }))
      else (false, cfg)

  unfoldable pub server_cfg_parser : SrvCfg → Entry → Bool × SrvCfg
  server_cfg_parser cfg e =
      if is_text e.section (bytes "sys")
      then cfg_parse_section_sys cfg e.name e.val
      else if is_text e.section (bytes "socket")
      then cfg_parse_section_socket cfg e.name e.val
      else if is_text e.section (bytes "iface")
      then cfg_parse_section_iface cfg e.name e.val
      else (false, cfg)

  -- The part of `run_server` after `parse_argv` returned 0.
  unfoldable pub configure : (List ℕ → Opened) → SrvCfg → Run SrvCfg
  configure fopen cfg =
      let (r, cfg') = parse_cfg_file server_cfg_parser fopen cfg.sys.cfg_file cfg in
      if goes_on r cfg'.sys.cfg_file d_srv_cfg_file then start_server cfg' else returns (status r)

  -- `run_server`, on what getopt_long() returns for the command line
  unfoldable pub run_server : (List ℕ → Opened) → List Opt → Run SrvCfg
  run_server fopen os =
      let (r, cfg) = parse_argv os set_default_config in
      elim r [
        | done ↦ configure fopen cfg
        | failed e ↦ returns e
        | exit_zero ↦ exits_zero
        | crash ↦ crashes
      ]
