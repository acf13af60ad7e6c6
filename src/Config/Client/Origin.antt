-- ===== src/Config/Client/Origin.antt =====
-- Where the user, the password and the type of socket of the client's configuration come from.
use teavpn.Common.{ℕ, ◌≡◌, refl, arith, Option, none, some, List, ◌==◌, if◌then◌else◌, take}
use teavpn.Packet.{cstr}
use teavpn.Packet.Strings.{cstr-strncpy2}
use teavpn.User.{Entry, same_text, is_text}
use teavpn.User.Parser.{distinct, sets}
use teavpn.Config.{bytes, Libc, Opt, done, SockType}
use teavpn.Config.Loops.{last, or_else}
use teavpn.Config.Values.{text_of, of_option, of_line}
use teavpn.Config.SockTypes.{named_type, parse_sock_type_lem}
use teavpn.Config.Client.{
  thread_option, sock_option, parse_option, cfg_parse_section_sys, set_sock_type,
  cfg_parse_section_socket, cfg_parse_section_iface, cfg_parse_section_auth, client_cfg_parser,
}
use teavpn.Config.CliCfg.{CliCfg, d_cli_cfg_file}

-- The path of the file: of the last `-c`, or else the default.
abbrev pub path_of : List Opt → Option (List ℕ)
path_of os =
    last (λ (o : Opt). if o.opt == b'c' then some o.optarg else none) os (some d_cli_cfg_file)

-- The text that a field of 256 bytes keeps.
abbrev pub kept : List ℕ → List ℕ
kept v = take 255 (cstr v)

abbrev pub user_opt : Opt → Option (List ℕ)
user_opt = of_option b'u' kept

abbrev pub user_line : Entry → Option (List ℕ)
user_line = of_line (bytes "auth") (bytes "username") kept

abbrev pub password_opt : Opt → Option (List ℕ)
password_opt = of_option b'p' kept

abbrev pub password_line : Entry → Option (List ℕ)
password_line = of_line (bytes "auth") (bytes "password") kept

module _ (libc : Libc) where
  -- The type that `-s` and `sock_type` name.
  abbrev pub type_opt : Opt → Option SockType
  type_opt o = if o.opt == b's' then named_type libc (text_of o) else none

  abbrev pub type_line : Entry → Option SockType
  type_line e = if sets (bytes "socket") (bytes "sock_type") e then named_type libc e.val else none

  module _ (cfg : CliCfg) (o : Opt) where
    pub path_step :
        (parse_option libc cfg o).0 ≡ done
        → (parse_option libc cfg o).1.sys.cfg_file
          ≡ or_else (if o.opt == b'c' then some o.optarg else none) cfg.sys.cfg_file
    unfolding parse_option thread_option sock_option
    path_step h = ground arith

    pub type_step :
        (parse_option libc cfg o).0 ≡ done
        → (parse_option libc cfg o).1.sock.type ≡ or_else (type_opt o) cfg.sock.type
    unfolding parse_option thread_option sock_option
    type_step h = ground (arith, parse_sock_type_lem libc 0 (text_of o))

    pub user_step :
        (parse_option libc cfg o).0 ≡ done
        → cstr (parse_option libc cfg o).1.auth.username
          ≡ or_else (user_opt o) (cstr cfg.auth.username)
    unfolding parse_option thread_option sock_option
    user_step h = ground (arith, cstr-strncpy2 (text_of o) 255)

    pub password_step :
        (parse_option libc cfg o).0 ≡ done
        → cstr (parse_option libc cfg o).1.auth.password
          ≡ or_else (password_opt o) (cstr cfg.auth.password)
    unfolding parse_option thread_option sock_option
    password_step h = ground (arith, cstr-strncpy2 (text_of o) 255)

  module _ (cfg : CliCfg) (name val : List ℕ) where
    sys_rest :
        ((cfg_parse_section_sys libc cfg name val).1.sys.cfg_file ≡ cfg.sys.cfg_file)
        × ((cfg_parse_section_sys libc cfg name val).1.sock ≡ cfg.sock)
        × ((cfg_parse_section_sys libc cfg name val).1.auth ≡ cfg.auth)
    unfolding cfg_parse_section_sys
    sys_rest = ground arith

    socket_rest :
        ((cfg_parse_section_socket libc cfg name val).1.sys ≡ cfg.sys)
        × ((cfg_parse_section_socket libc cfg name val).1.auth ≡ cfg.auth)
    unfolding cfg_parse_section_socket set_sock_type
    socket_rest = ground arith

    socket_type : (cfg_parse_section_socket libc cfg name val).1.sock.type ≡ (
        if is_text name (bytes "sock_type")
        then or_else (named_type libc val) cfg.sock.type
        else cfg.sock.type)
    unfolding cfg_parse_section_socket set_sock_type same_text
    socket_type = ground (
      arith,
      parse_sock_type_lem libc 3 val,
      distinct name (bytes "sock_type") (bytes "use_encryption") refl,
      distinct name (bytes "sock_type") (bytes "event_loop") refl,
    )

    iface_rest :
        ((cfg_parse_section_iface libc cfg name val).1.sys ≡ cfg.sys)
        × ((cfg_parse_section_iface libc cfg name val).1.sock ≡ cfg.sock)
        × ((cfg_parse_section_iface libc cfg name val).1.auth ≡ cfg.auth)
    unfolding cfg_parse_section_iface
    iface_rest = ground arith

    auth_rest :
        ((cfg_parse_section_auth libc cfg name val).1.sys ≡ cfg.sys)
        × ((cfg_parse_section_auth libc cfg name val).1.sock ≡ cfg.sock)
    unfolding cfg_parse_section_auth
    auth_rest = ground arith

    auth_user :
        cstr (cfg_parse_section_auth libc cfg name val).1.auth.username
        ≡ (if is_text name (bytes "username") then kept val else cstr cfg.auth.username)
    unfolding cfg_parse_section_auth
    auth_user = ground (arith, cstr-strncpy2 val 255)

    auth_password :
        cstr (cfg_parse_section_auth libc cfg name val).1.auth.password
        ≡ (if is_text name (bytes "password") then kept val else cstr cfg.auth.password)
    unfolding cfg_parse_section_auth same_text
    auth_password =
        ground
          (arith, cstr-strncpy2 val 255, distinct name (bytes "password") (bytes "username") refl)

  module _ (cfg : CliCfg) (e : Entry) where
    pub path_line_step : (client_cfg_parser libc cfg e).1.sys.cfg_file ≡ cfg.sys.cfg_file
    unfolding client_cfg_parser
    path_line_step = ground (
      arith,
      sys_rest cfg e.name e.val,
      socket_rest cfg e.name e.val,
      iface_rest cfg e.name e.val,
      auth_rest cfg e.name e.val,
    )

    pub type_line_step :
        (client_cfg_parser libc cfg e).1.sock.type ≡ or_else (type_line e) cfg.sock.type
    unfolding client_cfg_parser same_text
    type_line_step = ground (
      arith,
      sys_rest cfg e.name e.val,
      socket_type cfg e.name e.val,
      iface_rest cfg e.name e.val,
      auth_rest cfg e.name e.val,
      distinct e.section (bytes "socket") (bytes "sys") refl,
    )

    -- A line of another section leaves the user and the password alone.
    auth_line_step : (client_cfg_parser libc cfg e).1.auth ≡ (
        if is_text e.section (bytes "auth")
        then (cfg_parse_section_auth libc cfg e.name e.val).1.auth
        else cfg.auth)
    unfolding client_cfg_parser same_text
    auth_line_step = ground (
      arith,
      sys_rest cfg e.name e.val,
      socket_rest cfg e.name e.val,
      iface_rest cfg e.name e.val,
      distinct e.section (bytes "auth") (bytes "sys") refl,
      distinct e.section (bytes "auth") (bytes "socket") refl,
      distinct e.section (bytes "auth") (bytes "iface") refl,
    )

    pub user_line_step :
        cstr (client_cfg_parser libc cfg e).1.auth.username
        ≡ or_else (user_line e) (cstr cfg.auth.username)
    user_line_step = ground (arith, auth_line_step, auth_user cfg e.name e.val)

    pub password_line_step :
        cstr (client_cfg_parser libc cfg e).1.auth.password
        ≡ or_else (password_line e) (cstr cfg.auth.password)
    password_line_step = ground (arith, auth_line_step, auth_password cfg e.name e.val)
