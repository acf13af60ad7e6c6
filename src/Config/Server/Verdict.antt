-- ===== src/Config/Server/Verdict.antt =====
-- What the command line and the configuration file make of the server.
use teavpn.Common.{ℕ, ◌≡◌, refl, sym, ◌∙◌, ap, subst, true, ◌↔◌, List}
use teavpn.User.{Entry}
use teavpn.Config.{Libc, Opt, done, sock_udp, Opened, parse_cfg_file, goes_on, runs}
use teavpn.Config.Loops.{
  all, last, is_done, is_done-eq, entries_at, parse_options-all, parse_options-keeps,
  parse_cfg_file-keeps,
}
use teavpn.Config.Fields.{IsInt}
use teavpn.Config.Files.{good_file, goes_on-good_file}
use teavpn.Config.Server.{server_cfg_parser, parse_option, run_server}
use teavpn.Config.SrvCfg.{SrvCfg, d_srv_cfg_file, set_default_config}
use teavpn.Config.Server.Keys.{known_line, good_option, server_cfg_parser-known, parse_option-good}
use teavpn.Config.Server.Origin.{
  path_of, thread_opt, thread_line, type_opt, type_line, mtu_line, path-chosen, path-from_file,
  thread-from_file, type-from_file, mtu-from_file,
}
use teavpn.Config.Server.Starts.{chosen, from_file, Starts, run_server-Starts, Starts-run_server}
use teavpn.Config.Server.Texts.{Fits, option_keeps, line_keeps, set_default_config-Fits}

module _ (libc : Libc) (fopen : List ℕ → Opened) (os : List Opt) where
  abbrev lines : List Entry
  lines = entries_at fopen (path_of os)

  options_good : is_done (chosen libc fopen os).0 ≡ all (good_option libc) os
  options_good =
      parse_options-all (parse_option libc) (good_option libc) (parse_option-good libc) os
        set_default_config

  -- The server starts exactly if no option asks for help or the version or has an argument that is
  -- missing or refused, the file that the options name can be read with every line known (or is the
  -- default one, and missing), and the last type of socket that is named is UDP or there is none.
  pub run_server_iff : ((cfg : SrvCfg) × (run_server libc fopen os ≡ runs cfg)) ↔ (
      (all (good_option libc) os ≡ true)
      × (good_file d_srv_cfg_file (known_line libc) fopen (path_of os) ≡ true)
      × (last (type_line libc) lines (last (type_opt libc) os sock_udp) ≡ sock_udp))
  run_server_iff = (
    λ (cfg, h). forth cfg (run_server-Starts libc fopen os cfg h),
    λ (good, file, type).
        ((from_file libc fopen os).1, Starts-run_server libc fopen os _ (back good file type)),
  )
    where
      read :
          (chosen libc fopen os).0 ≡ done
          → goes_on
              (from_file libc fopen os).0
              (from_file libc fopen os).1.sys.cfg_file
              d_srv_cfg_file
            ≡ good_file d_srv_cfg_file (known_line libc) fopen (path_of os)
      read h =
          ap (λ p. goes_on (from_file libc fopen os).0 p d_srv_cfg_file)
            (path-from_file libc fopen os h)
          ∙ (ap
                (λ p.
                  goes_on
                    (parse_cfg_file (server_cfg_parser libc) fopen p (chosen libc fopen os).1).0
                    (path_of os) d_srv_cfg_file)
                (path-chosen libc fopen os h)
              ∙ goes_on-good_file d_srv_cfg_file (server_cfg_parser libc) (known_line libc)
                  (server_cfg_parser-known libc) fopen (path_of os) (chosen libc fopen os).1)

      forth :
          (cfg : SrvCfg)
          → Starts libc fopen os cfg
          → ((all (good_option libc) os ≡ true)
              × (good_file d_srv_cfg_file (known_line libc) fopen (path_of os) ≡ true)
              × (last (type_line libc) lines (last (type_opt libc) os sock_udp) ≡ sock_udp))
      forth cfg s = (
        sym options_good ∙ ap is_done s.options,
        sym (read s.options) ∙ s.file,
        sym (type-from_file libc fopen os s.options)
            ∙ (ap (λ (c : SrvCfg). c.sock.type) s.result ∙ s.udp),
      )

      back :
          all (good_option libc) os ≡ true
          → good_file d_srv_cfg_file (known_line libc) fopen (path_of os) ≡ true
          → last (type_line libc) lines (last (type_opt libc) os sock_udp) ≡ sock_udp
          → Starts libc fopen os (from_file libc fopen os).1
      back good file type =
          let options = is_done-eq _ (options_good ∙ good) in
          record {
            options = options;
            file = read options ∙ file;
            result = refl;
            udp = type-from_file libc fopen os options ∙ type;
          }

  -- Whatever the command line and the file, if atoi() always returns an `int` of 32 bits, the
  -- configuration that the server starts with has every text field of its right size, with a NUL as its
  -- last byte, every unsigned number within its 8 or 16 bits, and the `backlog` within an `int`.
  pub run_server-Fits :
      ((v : List ℕ) → IsInt (libc.atoi v))
      → (cfg : SrvCfg) → run_server libc fopen os ≡ runs cfg
      → Fits cfg
  run_server-Fits ints cfg h = subst Fits (run_server-Starts libc fopen os cfg h).result (
      parse_cfg_file-keeps Fits (server_cfg_parser libc) (line_keeps libc ints) fopen _ _ (
        parse_options-keeps Fits (parse_option libc) (option_keeps libc ints) os set_default_config
          set_default_config-Fits))

  -- The number of threads that the server starts with is the last one of the file, cut to 8 bits; if
  -- the file has none, the last `-t`, cut to 8 bits; if there is none, 2. The file is the one of the
  -- last `-c`, or else the default one.
  pub thread_num-run_server :
      (cfg : SrvCfg)
      → run_server libc fopen os ≡ runs cfg
      → cfg.sys.thread_num ≡ last (thread_line libc) lines (last (thread_opt libc) os 2)
  thread_num-run_server cfg h =
      let s = run_server-Starts libc fopen os cfg h in
      sym (ap (λ (c : SrvCfg). c.sys.thread_num) s.result)
      ∙ thread-from_file libc fopen os s.options

  -- The MTU that the interface gets is the last one of the file, cut to 16 bits, or else 1450,
  -- whatever the options on the command line.
  ipv4_mtu-run_server :
      (cfg : SrvCfg)
      → run_server libc fopen os ≡ runs cfg
      → cfg.iface.iff.ipv4_mtu ≡ last (mtu_line libc) lines 1450
  ipv4_mtu-run_server cfg h =
      let s = run_server-Starts libc fopen os cfg h in
      sym (ap (λ (c : SrvCfg). c.iface.iff.ipv4_mtu) s.result)
      ∙ mtu-from_file libc fopen os s.options
