-- ===== src/Config/Client/Keys.antt =====
-- The options that the client takes, and the lines that its configuration file may have.
use teavpn.Common.{
  ℕ, ◌≡◌, refl, arith, Bool, true, not, ◌&&◌, ◌||◌, List, [], ◌∷◌, ◌==◌, if◌then◌else◌,
}
use teavpn.User.{Entry, same_text, is_text}
use teavpn.User.Parser.{distinct}
use teavpn.Config.{bytes, not_positive, Opt, Libc}
use teavpn.Config.Loops.{one_of, is_some, is_done}
use teavpn.Config.Values.{text_of}
use teavpn.Config.SockTypes.{named_type, parse_sock_type_lem}
use teavpn.Config.Client.{
  thread_option, sock_option, parse_option, cfg_parse_section_sys, set_sock_type,
  cfg_parse_section_socket, cfg_parse_section_iface, cfg_parse_section_auth, client_cfg_parser,
}
use teavpn.Config.CliCfg.{CliCfg}

-- The names of a section that take any value.
abbrev sys_names : List (List ℕ)
sys_names = bytes "thread" ∷ bytes "verbose_level" ∷ bytes "data_dir" ∷ []

abbrev socket_names : List (List ℕ)
socket_names =
    bytes "use_encryption" ∷ bytes "event_loop" ∷ bytes "server_addr" ∷ bytes "server_port" ∷ []

abbrev iface_names : List (List ℕ)
iface_names = bytes "dev" ∷ bytes "override_default" ∷ []

abbrev auth_names : List (List ℕ)
auth_names = bytes "username" ∷ bytes "password" ∷ []

-- A line that is in order: a known name in its section, and for the type of socket, a value that
-- names one.
abbrev pub known_line : Libc → Entry → Bool
known_line libc e =
    (is_text e.section (bytes "sys") && one_of sys_names e.name)
    || (is_text e.section (bytes "socket")
        && (one_of socket_names e.name
            || (is_text e.name (bytes "sock_type") && is_some (named_type libc e.val))))
    || (is_text e.section (bytes "iface") && one_of iface_names e.name)
    || (is_text e.section (bytes "auth") && one_of auth_names e.name)

module _ (libc : Libc) where
  sys-one_of :
      (cfg : CliCfg) (name val : List ℕ)
      → (cfg_parse_section_sys libc cfg name val).0 ≡ one_of sys_names name
  unfolding cfg_parse_section_sys one_of
  sys-one_of cfg name val = ground arith

  iface-one_of :
      (cfg : CliCfg) (name val : List ℕ)
      → (cfg_parse_section_iface libc cfg name val).0 ≡ one_of iface_names name
  unfolding cfg_parse_section_iface one_of
  iface-one_of cfg name val = ground arith

  auth-one_of :
      (cfg : CliCfg) (name val : List ℕ)
      → (cfg_parse_section_auth libc cfg name val).0 ≡ one_of auth_names name
  unfolding cfg_parse_section_auth one_of
  auth-one_of cfg name val = ground arith

  sock_type-named :
      (cfg : CliCfg) (val : List ℕ) → (set_sock_type libc cfg val).0 ≡ is_some (named_type libc val)
  unfolding set_sock_type
  sock_type-named cfg val = ground (arith, parse_sock_type_lem libc 3 val)

  socket-one_of :
      (cfg : CliCfg) (name val : List ℕ)
      → (cfg_parse_section_socket libc cfg name val).0 ≡ (
          one_of socket_names name
          || (is_text name (bytes "sock_type") && is_some (named_type libc val)))
  unfolding cfg_parse_section_socket one_of same_text
  socket-one_of cfg name val = ground (
    arith,
    sock_type-named cfg val,
    distinct name (bytes "sock_type") (bytes "server_addr") refl,
    distinct name (bytes "sock_type") (bytes "server_port") refl,
  )

  pub client_cfg_parser-known :
      (cfg : CliCfg) (e : Entry) → (client_cfg_parser libc cfg e).0 ≡ known_line libc e
  unfolding client_cfg_parser same_text
  client_cfg_parser-known cfg e = ground (
    arith,
    sys-one_of cfg e.name e.val,
    socket-one_of cfg e.name e.val,
    iface-one_of cfg e.name e.val,
    auth-one_of cfg e.name e.val,
    distinct e.section (bytes "sys") (bytes "socket") refl,
    distinct e.section (bytes "sys") (bytes "iface") refl,
    distinct e.section (bytes "sys") (bytes "auth") refl,
    distinct e.section (bytes "socket") (bytes "iface") refl,
    distinct e.section (bytes "socket") (bytes "auth") refl,
    distinct e.section (bytes "iface") (bytes "auth") refl,
  )

  -- Whether an option that has an argument takes it.
  abbrev takes : ℕ → List ℕ → Bool
  takes c v =
      if c == b't'
      then not (not_positive (libc.atoi v))
      else if c == b's'
      then is_some (named_type libc v)
      else true

  -- Whether an option reads its argument.
  abbrev reads : ℕ → Bool
  reads c =
      c == b'd'
      || c == b't'
      || c == b's'
      || c == b'H'
      || c == b'P'
      || c == b'E'
      || c == b'D'
      || c == b'u'
      || c == b'p'

  -- An option after which the program goes on: one that it has, which asks neither for help nor for
  -- the version, and an argument that is there if it is read, and that the option takes.
  abbrev pub good_option : Opt → Bool
  good_option o =
      o.opt == b'v' || o.opt == b'c' || (reads o.opt && is_some o.optarg && takes o.opt (text_of o))

  sock_option-named :
      (cfg : CliCfg) (v : List ℕ) → is_done (sock_option libc cfg v).0 ≡ is_some (named_type libc v)
  unfolding sock_option
  sock_option-named cfg v = ground (arith, parse_sock_type_lem libc 0 v)

  pub parse_option-good :
      (cfg : CliCfg) (o : Opt) → is_done (parse_option libc cfg o).0 ≡ good_option o
  unfolding parse_option thread_option
  parse_option-good cfg o = ground (arith, sock_option-named cfg (text_of o))
