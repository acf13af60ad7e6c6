-- ===== src/Config/Server/Keys.antt =====
-- The lines that the server's configuration file may have.
use teavpn.Common.{
  ℕ, ◌≡◌, refl, arith, Bool, true, not, ◌&&◌, ◌||◌, List, [], ◌∷◌, ◌==◌, if◌then◌else◌,
}
use teavpn.User.{Entry, same_text, is_text}
use teavpn.User.Parser.{distinct}
use teavpn.Config.{bytes, not_positive, Opt, Libc}
use teavpn.Config.Loops.{one_of, is_some, is_done}
use teavpn.Config.Values.{text_of}
use teavpn.Config.SockTypes.{named_type, parse_sock_type_lem}
use teavpn.Config.Server.{
  thread_option, mtu_option, sock_option, parse_option, cfg_parse_section_sys, set_sock_type,
  cfg_parse_section_socket, cfg_parse_section_iface, server_cfg_parser,
}
use teavpn.Config.SrvCfg.{SrvCfg}

-- The names of a section that take any value.
abbrev sys_names : List (List ℕ)
sys_names = bytes "thread" ∷ bytes "verbose_level" ∷ bytes "data_dir" ∷ []

abbrev socket_names : List (List ℕ)
socket_names =
    bytes "use_encryption"
    ∷ bytes "event_loop"
    ∷ bytes "bind_addr"
    ∷ bytes "bind_port"
    ∷ bytes "backlog"
    ∷ bytes "max_conn"
    ∷ bytes "ssl_cert"
    ∷ bytes "ssl_priv_key"
    ∷ []

abbrev iface_names : List (List ℕ)
iface_names = bytes "dev" ∷ bytes "mtu" ∷ bytes "ipv4" ∷ bytes "ipv4_netmask" ∷ []

-- A line that is in order: a known name in its section, and for the type of socket, a value that
-- names one.
abbrev pub known_line : Libc → Entry → Bool
known_line libc e =
    (is_text e.section (bytes "sys") && one_of sys_names e.name)
    || (is_text e.section (bytes "socket")
        && (one_of socket_names e.name
            || (is_text e.name (bytes "sock_type") && is_some (named_type libc e.val))))
    || (is_text e.section (bytes "iface") && one_of iface_names e.name)

module _ (libc : Libc) where
  sys-one_of :
      (cfg : SrvCfg) (name val : List ℕ)
      → (cfg_parse_section_sys libc cfg name val).0 ≡ one_of sys_names name
  unfolding cfg_parse_section_sys one_of
  sys-one_of cfg name val = ground arith

  iface-one_of :
      (cfg : SrvCfg) (name val : List ℕ)
      → (cfg_parse_section_iface libc cfg name val).0 ≡ one_of iface_names name
  unfolding cfg_parse_section_iface one_of
  iface-one_of cfg name val = ground arith

  sock_type-named :
      (cfg : SrvCfg) (val : List ℕ) → (set_sock_type libc cfg val).0 ≡ is_some (named_type libc val)
  unfolding set_sock_type
  sock_type-named cfg val = ground (arith, parse_sock_type_lem libc 3 val)

  socket-one_of :
      (cfg : SrvCfg) (name val : List ℕ)
      → (cfg_parse_section_socket libc cfg name val).0 ≡ (
          one_of socket_names name
          || (is_text name (bytes "sock_type") && is_some (named_type libc val)))
  unfolding cfg_parse_section_socket one_of same_text
  socket-one_of cfg name val = ground (
    arith,
    sock_type-named cfg val,
    distinct name (bytes "sock_type") (bytes "bind_addr") refl,
    distinct name (bytes "sock_type") (bytes "bind_port") refl,
    distinct name (bytes "sock_type") (bytes "backlog") refl,
    distinct name (bytes "sock_type") (bytes "max_conn") refl,
    distinct name (bytes "sock_type") (bytes "ssl_cert") refl,
    distinct name (bytes "sock_type") (bytes "ssl_priv_key") refl,
  )

  pub server_cfg_parser-known :
      (cfg : SrvCfg) (e : Entry) → (server_cfg_parser libc cfg e).0 ≡ known_line libc e
  unfolding server_cfg_parser same_text
  server_cfg_parser-known cfg e = ground (
    arith,
    sys-one_of cfg e.name e.val,
    socket-one_of cfg e.name e.val,
    iface-one_of cfg e.name e.val,
    distinct e.section (bytes "sys") (bytes "socket") refl,
    distinct e.section (bytes "sys") (bytes "iface") refl,
    distinct e.section (bytes "socket") (bytes "iface") refl,
  )

  -- Whether an option that has an argument takes it.
  abbrev takes : ℕ → List ℕ → Bool
  takes c v =
      if c == b't' || c == b'm'
      then not (not_positive (libc.atoi v))
      else if c == b's'
      then is_some (named_type libc v)
      else true

  -- Whether an option reads its argument.
  abbrev reads : ℕ → Bool
  reads c =
      c == b'd'
      || c == b't'
      || c == b'D'
      || c == b'm'
      || c == b'4'
      || c == b'N'
      || c == b's'
      || c == b'H'
      || c == b'P'
      || c == b'E'

  -- An option after which the program goes on: no request for help or for the version, and an
  -- argument that is there if it is read, and that the option takes.
  abbrev pub good_option : Opt → Bool
  good_option o =
      not (o.opt == b'h' || o.opt == b'V')
      && (if is_some o.optarg then takes o.opt (text_of o) else not (reads o.opt))

  sock_option-named :
      (cfg : SrvCfg) (v : List ℕ) → is_done (sock_option libc cfg v).0 ≡ is_some (named_type libc v)
  unfolding sock_option
  sock_option-named cfg v = ground (arith, parse_sock_type_lem libc 0 v)

  pub parse_option-good :
      (cfg : SrvCfg) (o : Opt) → is_done (parse_option libc cfg o).0 ≡ good_option o
  unfolding parse_option thread_option mtu_option
  parse_option-good cfg o = ground (arith, sock_option-named cfg (text_of o))
