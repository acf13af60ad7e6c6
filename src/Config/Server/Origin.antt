-- ===== src/Config/Server/Origin.antt =====
-- Where a value of the server's configuration comes from: the file, else the command line, else the
-- defaults.
use teavpn.Common.{
  ℕ, ◌%◌, ◌^◌, ◌≡◌, refl, ◌∙◌, arith, Option, none, some, List, ◌==◌, if◌then◌else◌,
}
use teavpn.User.{Entry, same_text, is_text}
use teavpn.User.Parser.{distinct, sets}
use teavpn.Config.{bytes, cast, Libc, Opt, done, SockType, sock_udp, Opened}
use teavpn.Config.Loops.{
  last, or_else, entries_at, parse_options-last, parse_cfg_file-last, parse_options-keeps,
  parse_cfg_file-keeps,
}
use teavpn.Config.Values.{text_of, of_option, of_line}
use teavpn.Config.SockTypes.{named_type, parse_sock_type_lem}
use teavpn.Config.Server.{
  thread_option, mtu_option, sock_option, parse_option, cfg_parse_section_sys, set_sock_type,
  cfg_parse_section_socket, cfg_parse_section_iface, server_cfg_parser,
}
use teavpn.Config.SrvCfg.{SrvCfg, d_srv_cfg_file, set_default_config}
use teavpn.Config.Server.Starts.{chosen, from_file}

-- The path of the file: of the last `-c`, or else the default.
abbrev pub path_of : List Opt → Option (List ℕ)
path_of os =
    last (λ (o : Opt). if o.opt == b'c' then some o.optarg else none) os (some d_srv_cfg_file)

module _ (libc : Libc) where
  abbrev pub thread_opt : Opt → Option ℕ
  thread_opt = of_option b't' (λ v. cast 8 (libc.atoi v))

  abbrev pub thread_line : Entry → Option ℕ
  thread_line = of_line (bytes "sys") (bytes "thread") (λ v. libc.strtoul v % 2 ^ 8)

  -- The type that `-s` and `sock_type` name.
  abbrev pub type_opt : Opt → Option SockType
  type_opt o = if o.opt == b's' then named_type libc (text_of o) else none

  abbrev pub type_line : Entry → Option SockType
  type_line e = if sets (bytes "socket") (bytes "sock_type") e then named_type libc e.val else none

  abbrev pub mtu_line : Entry → Option ℕ
  mtu_line = of_line (bytes "iface") (bytes "mtu") (λ v. libc.strtoul v % 2 ^ 16)

  path_step :
      (cfg : SrvCfg) (o : Opt)
      → (parse_option libc cfg o).0 ≡ done
      → (parse_option libc cfg o).1.sys.cfg_file
        ≡ or_else (if o.opt == b'c' then some o.optarg else none) cfg.sys.cfg_file
  unfolding parse_option thread_option mtu_option sock_option
  path_step cfg o h = ground arith

  thread_step :
      (cfg : SrvCfg) (o : Opt)
      → (parse_option libc cfg o).0 ≡ done
      → (parse_option libc cfg o).1.sys.thread_num ≡ or_else (thread_opt o) cfg.sys.thread_num
  unfolding parse_option thread_option mtu_option sock_option
  thread_step cfg o h = ground arith

  type_step :
      (cfg : SrvCfg) (o : Opt)
      → (parse_option libc cfg o).0 ≡ done
      → (parse_option libc cfg o).1.sock.type ≡ or_else (type_opt o) cfg.sock.type
  unfolding parse_option thread_option mtu_option sock_option
  type_step cfg o h = ground (arith, parse_sock_type_lem libc 0 (text_of o))

  mtu_step :
      (cfg : SrvCfg) (o : Opt)
      → (parse_option libc cfg o).1.iface.iff.ipv4_mtu ≡ cfg.iface.iff.ipv4_mtu
  unfolding parse_option thread_option mtu_option sock_option
  mtu_step cfg o = ground arith

  module _ (cfg : SrvCfg) (name val : List ℕ) where
    sys_sys :
        (cfg_parse_section_sys libc cfg name val).1.sys.thread_num
        ≡ (if is_text name (bytes "thread") then libc.strtoul val % 2 ^ 8 else cfg.sys.thread_num)
    unfolding cfg_parse_section_sys
    sys_sys = ground arith

    sys_path : (cfg_parse_section_sys libc cfg name val).1.sys.cfg_file ≡ cfg.sys.cfg_file
    unfolding cfg_parse_section_sys
    sys_path = ground arith

    sys_rest :
        ((cfg_parse_section_sys libc cfg name val).1.iface ≡ cfg.iface)
        × ((cfg_parse_section_sys libc cfg name val).1.sock ≡ cfg.sock)
    unfolding cfg_parse_section_sys
    sys_rest = ground arith

    socket_rest :
        ((cfg_parse_section_socket libc cfg name val).1.sys ≡ cfg.sys)
        × ((cfg_parse_section_socket libc cfg name val).1.iface ≡ cfg.iface)
    unfolding cfg_parse_section_socket set_sock_type
    socket_rest = ground arith

    socket_type : (cfg_parse_section_socket libc cfg name val).1.sock.type ≡ (
        if is_text name (bytes "sock_type")
        then or_else (named_type libc val) cfg.sock.type
        else cfg.sock.type)
    unfolding cfg_parse_section_socket set_sock_type same_text
    socket_type = ground (
      arith,
      parse_sock_type_lem libc 3 val,
      distinct name (bytes "sock_type") (bytes "use_encryption") refl,
      distinct name (bytes "sock_type") (bytes "event_loop") refl,
    )

    iface_rest :
        ((cfg_parse_section_iface libc cfg name val).1.sys ≡ cfg.sys)
        × ((cfg_parse_section_iface libc cfg name val).1.sock ≡ cfg.sock)
    unfolding cfg_parse_section_iface
    iface_rest = ground arith

    iface_mtu :
        (cfg_parse_section_iface libc cfg name val).1.iface.iff.ipv4_mtu
        ≡ (if is_text name (bytes "mtu") then libc.strtoul val % 2 ^ 16 else cfg.iface.iff.ipv4_mtu)
    unfolding cfg_parse_section_iface same_text
    iface_mtu = ground (arith, distinct name (bytes "mtu") (bytes "dev") refl)

  module _ (cfg : SrvCfg) (e : Entry) where
    path_line_step : (server_cfg_parser libc cfg e).1.sys.cfg_file ≡ cfg.sys.cfg_file
    unfolding server_cfg_parser
    path_line_step = ground (
      arith,
      sys_path cfg e.name e.val,
      socket_rest cfg e.name e.val,
      iface_rest cfg e.name e.val,
    )

    thread_line_step :
        (server_cfg_parser libc cfg e).1.sys.thread_num ≡ or_else (thread_line e) cfg.sys.thread_num
    unfolding server_cfg_parser
    thread_line_step =
        ground (
          arith,
          sys_sys cfg e.name e.val,
          socket_rest cfg e.name e.val,
          iface_rest cfg e.name e.val,
        )

    type_line_step :
        (server_cfg_parser libc cfg e).1.sock.type ≡ or_else (type_line e) cfg.sock.type
    unfolding server_cfg_parser same_text
    type_line_step = ground (
      arith,
      sys_rest cfg e.name e.val,
      socket_type cfg e.name e.val,
      iface_rest cfg e.name e.val,
      distinct e.section (bytes "socket") (bytes "sys") refl,
    )

    mtu_line_step :
        (server_cfg_parser libc cfg e).1.iface.iff.ipv4_mtu
        ≡ or_else (mtu_line e) cfg.iface.iff.ipv4_mtu
    unfolding server_cfg_parser same_text
    mtu_line_step = ground (
      arith,
      sys_rest cfg e.name e.val,
      socket_rest cfg e.name e.val,
      iface_mtu cfg e.name e.val,
      distinct e.section (bytes "iface") (bytes "sys") refl,
      distinct e.section (bytes "iface") (bytes "socket") refl,
    )

  module _ (fopen : List ℕ → Opened) (os : List Opt)
      (options : (chosen libc fopen os).0 ≡ done) where
    abbrev lines : List Entry
    lines = entries_at fopen (path_of os)

    pub path-chosen : (chosen libc fopen os).1.sys.cfg_file ≡ path_of os
    path-chosen =
        parse_options-last (λ (c : SrvCfg). c.sys.cfg_file) (parse_option libc) _ path_step os
          set_default_config options

    -- A value after the file is read, from its value after the options.
    from_lines :
        {V : Type 0} (see : SrvCfg → V) (f : Entry → Option V) (v : V)
        → ((cfg : SrvCfg) (e : Entry)
            → see (server_cfg_parser libc cfg e).1 ≡ or_else (f e) (see cfg))
        → see (chosen libc fopen os).1 ≡ v
        → see (from_file libc fopen os).1 ≡ last f lines v
    from_lines see f v step h =
        parse_cfg_file-last see (server_cfg_parser libc) f step fopen
          (chosen libc fopen os).1.sys.cfg_file (chosen libc fopen os).1
        ∙ cc (path-chosen, h)

    pub path-from_file : (from_file libc fopen os).1.sys.cfg_file ≡ path_of os
    path-from_file =
        parse_cfg_file-keeps (λ (c : SrvCfg). c.sys.cfg_file ≡ path_of os) (server_cfg_parser libc)
          (λ c e h. path_line_step c e ∙ h) fopen (chosen libc fopen os).1.sys.cfg_file
          (chosen libc fopen os).1 path-chosen

    pub thread-from_file :
        (from_file libc fopen os).1.sys.thread_num ≡ last thread_line lines (last thread_opt os 2)
    thread-from_file =
        from_lines (λ c. c.sys.thread_num) thread_line _ thread_line_step
          (parse_options-last (λ (c : SrvCfg). c.sys.thread_num) (parse_option libc) _ thread_step
            os set_default_config options)

    pub type-from_file :
        (from_file libc fopen os).1.sock.type ≡ last type_line lines (last type_opt os sock_udp)
    type-from_file =
        from_lines (λ c. c.sock.type) type_line _ type_line_step
          (parse_options-last (λ (c : SrvCfg). c.sock.type) (parse_option libc) _ type_step os
            set_default_config options)

    pub mtu-from_file : (from_file libc fopen os).1.iface.iff.ipv4_mtu ≡ last mtu_line lines 1450
    mtu-from_file =
        from_lines (λ c. c.iface.iff.ipv4_mtu) mtu_line 1450 mtu_line_step
          (parse_options-keeps (λ (c : SrvCfg). c.iface.iff.ipv4_mtu ≡ 1450) (parse_option libc)
            (λ c o h. mtu_step c o ∙ h) os set_default_config refl)
