-- ===== src/Config/Server/Texts.antt =====
-- The configuration that the server starts with: sizes of its texts and widths of its numbers.
use teavpn.Common.{
  ℕ, ◌^◌, ◌<◌, arith, Bool, Option, none, some, List, if_intro, if◌then◌else◌, ◌||◌, ◌==◌,
}
use teavpn.Packet.{cstr, strncpy, strncpy2}
use teavpn.User.{is_text, Entry, IfInfo}
use teavpn.Config.{bytes, Libc, Opt, Outcome, with_arg, verbosity}
use teavpn.Config.Fields.{IsField, IsInt, strncpy2-IsField, cast-lt}
use teavpn.Config.Server.{
  thread_option, mtu_option, sock_option, parse_option, cfg_parse_section_sys, set_sock_type,
  cfg_parse_section_socket, cfg_parse_section_iface, server_cfg_parser,
}
use teavpn.Config.SrvCfg.{SrvCfgSys, SrvCfgSock, SrvCfg, set_default_config}

pub record SysFits (s : SrvCfgSys) : Type 0 where
  pub data_dir : IsField 128 s.data_dir
  pub thread_num : s.thread_num < 2 ^ 8
  pub verbose_level : s.verbose_level < 2 ^ 8

pub record SockFits (s : SrvCfgSock) : Type 0 where
  pub backlog : IsInt s.backlog
  pub bind_addr : IsField 64 s.bind_addr
  pub bind_port : s.bind_port < 2 ^ 16
  pub max_conn : s.max_conn < 2 ^ 16
  pub event_loop : IsField 64 s.event_loop
  pub ssl_cert : IsField 256 s.ssl_cert
  pub ssl_priv_key : IsField 256 s.ssl_priv_key

pub record IffFits (i : IfInfo) : Type 0 where
  pub dev : IsField 16 i.dev
  pub ipv4_pub : IsField 16 i.ipv4_pub
  pub ipv4 : IsField 16 i.ipv4
  pub ipv4_netmask : IsField 16 i.ipv4_netmask
  pub ipv4_dgateway : IsField 16 i.ipv4_dgateway
  pub ipv4_mtu : i.ipv4_mtu < 2 ^ 16

pub record Fits (cfg : SrvCfg) : Type 0 where
  pub sys : SysFits cfg.sys
  pub sock : SockFits cfg.sock
  pub dev : IsField 16 cfg.iface.dev
  pub mtu : cfg.iface.mtu < 2 ^ 16
  pub iff : IffFits cfg.iface.iff

-- A field filled by strncpy2().
field : (v : List ℕ) (n : ℕ) → 0 < n → IsField n (strncpy2 v n)
field = strncpy2-IsField

arg_keeps :
    (o : Opt) (cfg : SrvCfg) (f : List ℕ → Outcome × SrvCfg)
    → Fits cfg
    → ((v : List ℕ) → Fits (f v).1)
    → Fits (with_arg o cfg f).1
arg_keeps o cfg f p h = go o.optarg
  where
    go : (x : Option (List ℕ)) → Fits (with_arg (record o { optarg = x }) cfg f).1
    go none = p
    go (some v) = h v

either :
    {A : Type 0} (b : Bool) (x y : A × SrvCfg) → Fits x.1 → Fits y.1 → Fits (if b then x else y).1
either {A} b x y = if_intro (λ (x : A × SrvCfg). Fits x.1) b

module _ (libc : Libc) (atoi-IsInt : (v : List ℕ) → IsInt (libc.atoi v)) where
  thread_keeps : (cfg : SrvCfg) (v : List ℕ) → Fits cfg → Fits (thread_option libc cfg v).1
  unfolding thread_option
  thread_keeps cfg v p = ground (arith, cast-lt 8 (libc.atoi v))

  mtu_keeps : (cfg : SrvCfg) (v : List ℕ) → Fits cfg → Fits (mtu_option libc cfg v).1
  unfolding mtu_option
  mtu_keeps cfg v p = ground (arith, cast-lt 16 (libc.atoi v))

  sock_keeps : (cfg : SrvCfg) (v : List ℕ) → Fits cfg → Fits (sock_option libc cfg v).1
  unfolding sock_option
  sock_keeps cfg v p = ground arith

  verbosity-lt : (o : Opt) → verbosity libc o < 2 ^ 8
  verbosity-lt o = go o.optarg
    where
      go : (x : Option (List ℕ)) → verbosity libc (record o { optarg = x }) < 2 ^ 8
      go none = omega arith
      go (some v) = cast-lt 8 (libc.atoi v)

  pub option_keeps : (cfg : SrvCfg) (o : Opt) → Fits cfg → Fits (parse_option libc cfg o).1
  unfolding parse_option
  option_keeps cfg o p =
      let c = o.opt in
      either (c == b'h' || c == b'V') _ _ p (
        either (c == b'v') _ _ (ground (arith, verbosity-lt o)) (
          either (c == b'c') _ _ (ground arith) (
            either (c == b'd') _ _ (arg_keeps o cfg _ p (λ v. ground (arith, field v 128))) (
              either (c == b't') _ _ (arg_keeps o cfg _ p (λ v. thread_keeps cfg v p)) (
                either (c == b'D') _ _ (arg_keeps o cfg _ p (λ v. ground (arith, field v 16))) (
                  either (c == b'm') _ _ (arg_keeps o cfg _ p (λ v. mtu_keeps cfg v p)) (
                    either (c == b'4') _ _ (arg_keeps o cfg _ p (λ v. ground (arith, field v 16))) (
                      either (c == b'N') _ _ (arg_keeps o cfg _ p (λ v. ground (arith, field v 16)))
                        (either (c == b's') _ _ (arg_keeps o cfg _ p (λ v. sock_keeps cfg v p)) (
                          either (c == b'H') _ _
                            (arg_keeps o cfg _ p (λ v. ground (arith, field v 64)))
                            (either (c == b'P') _ _
                              (arg_keeps o cfg _ p (λ v. ground (arith, cast-lt 16 (libc.atoi v))))
                              (either (c == b'E') _ _ (arg_keeps o cfg _ p (λ v. ground arith))
                                p))))))))))))

  sys_keeps :
      (cfg : SrvCfg) (name val : List ℕ)
      → Fits cfg
      → Fits (cfg_parse_section_sys libc cfg name val).1
  unfolding cfg_parse_section_sys
  sys_keeps cfg name val p = ground (arith, field val 128)

  type_keeps : (cfg : SrvCfg) (val : List ℕ) → Fits cfg → Fits (set_sock_type libc cfg val).1
  unfolding set_sock_type
  type_keeps cfg val p = ground arith

  socket_keeps :
      (cfg : SrvCfg) (name val : List ℕ)
      → Fits cfg
      → Fits (cfg_parse_section_socket libc cfg name val).1
  unfolding cfg_parse_section_socket
  socket_keeps cfg name val p = either (is_text name (bytes "use_encryption")) _ _ (ground arith) (
      either (is_text name (bytes "event_loop")) _ _ (ground (arith, field val 64)) (
        either (is_text name (bytes "sock_type")) _ _ (type_keeps cfg val p) (
          either (is_text name (bytes "bind_addr")) _ _ (ground (arith, field val 64)) (
            either (is_text name (bytes "bind_port")) _ _ (ground arith) (
              either (is_text name (bytes "backlog")) _ _ (ground (arith, atoi-IsInt val)) (
                either (is_text name (bytes "max_conn")) _ _ (ground arith) (
                  either (is_text name (bytes "ssl_cert")) _ _ (ground (arith, field val 256)) (
                    either (is_text name (bytes "ssl_priv_key")) _ _ (ground (arith, field val 256))
                      p))))))))

  iface_keeps :
      (cfg : SrvCfg) (name val : List ℕ)
      → Fits cfg
      → Fits (cfg_parse_section_iface libc cfg name val).1
  unfolding cfg_parse_section_iface
  iface_keeps cfg name val p = ground (arith, field val 16)

  pub line_keeps : (cfg : SrvCfg) (e : Entry) → Fits cfg → Fits (server_cfg_parser libc cfg e).1
  unfolding server_cfg_parser
  line_keeps cfg e p = ground (
    arith,
    sys_keeps cfg e.name e.val,
    socket_keeps cfg e.name e.val,
    iface_keeps cfg e.name e.val,
  )

pub set_default_config-Fits : Fits set_default_config
unfolding strncpy2 strncpy cstr
set_default_config-Fits = record {
  sys = ground arith;
  sock = ground arith;
  dev = ground arith;
  mtu = ground arith;
  iff = ground arith;
}
