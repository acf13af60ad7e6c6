-- ===== src/Config/Client/Verdict.antt =====
-- What the command line and the configuration file make of the client.
use teavpn.Common.{
  ℕ, ◌≡◌, refl, sym, ◌∙◌, ap, arith, Bool, true, false, ◌↔◌, Option, List, [], ◌∷◌, ◌==◌, get_or,
}
use teavpn.Packet.{cstr}
use teavpn.User.{Entry}
use teavpn.Config.{Libc, Opt, done, SockType, sock_udp, Opened, parse_cfg_file, goes_on, runs}
use teavpn.Config.Files.{good_file, goes_on-good_file}
use teavpn.Config.Loops.{
  all, last, or_else, is_done, is_done-eq, entries_at, parse_options-all, parse_options-last,
  parse_cfg_file-last, parse_cfg_file-keeps,
}
use teavpn.Config.Client.{client_cfg_parser, parse_option, run_client}
use teavpn.Config.CliCfg.{CliCfg, d_cli_cfg_file, set_default_config}
use teavpn.Config.Client.Keys.{known_line, good_option, client_cfg_parser-known, parse_option-good}
use teavpn.Config.Client.Origin.{
  path_of, user_opt, user_line, password_opt, password_line, type_opt, type_line, path_step,
  type_step, user_step, password_step, path_line_step, type_line_step, user_line_step,
  password_line_step,
}
use teavpn.Config.Client.Starts.{chosen, from_file, Starts, run_client-Starts, Starts-run_client}

-- `!*u`
abbrev is_empty : List ℕ → Bool
is_empty [] = true
is_empty (c ∷ u) = false

is_empty-cstr : (u : List ℕ) → (get_or u 0 0 == 0) ≡ is_empty (cstr u)
unfolding cstr
is_empty-cstr [] = refl
is_empty-cstr (c ∷ u) = ground arith

module _ (libc : Libc) (fopen : List ℕ → Opened) (os : List Opt) where
  abbrev lines : List Entry
  lines = entries_at fopen (path_of os)

  -- The user and the password of the file, else of the command line, else none.
  abbrev pub user : List ℕ
  user = last user_line lines (last user_opt os [])

  abbrev pub password : List ℕ
  password = last password_line lines (last password_opt os [])

  -- The type of socket of the file, else of the command line, else UDP.
  abbrev pub type : SockType
  type = last (type_line libc) lines (last (type_opt libc) os sock_udp)

  options_good : is_done (chosen libc fopen os).0 ≡ all (good_option libc) os
  options_good =
      parse_options-all (parse_option libc) (good_option libc) (parse_option-good libc) os
        set_default_config

  module _ (options : (chosen libc fopen os).0 ≡ done) where
    path-chosen : (chosen libc fopen os).1.sys.cfg_file ≡ path_of os
    path-chosen =
        parse_options-last (λ (c : CliCfg). c.sys.cfg_file) (parse_option libc) _ (path_step libc)
          os set_default_config options

    path-from_file : (from_file libc fopen os).1.sys.cfg_file ≡ path_of os
    path-from_file =
        parse_cfg_file-keeps (λ (c : CliCfg). c.sys.cfg_file ≡ path_of os) (client_cfg_parser libc)
          (λ c e h. path_line_step libc c e ∙ h) fopen (chosen libc fopen os).1.sys.cfg_file
          (chosen libc fopen os).1 path-chosen

    -- A value after the file is read: of the file, else of the options, else the default.
    observed :
        {V : Type 0} (see : CliCfg → V) (f : Entry → Option V) (g : Opt → Option V)
        → ((cfg : CliCfg) (o : Opt)
            → (parse_option libc cfg o).0 ≡ done
            → see (parse_option libc cfg o).1 ≡ or_else (g o) (see cfg))
        → ((cfg : CliCfg) (e : Entry)
            → see (client_cfg_parser libc cfg e).1 ≡ or_else (f e) (see cfg))
        → see (from_file libc fopen os).1 ≡ last f lines (last g os (see set_default_config))
    observed see f g option line =
        parse_cfg_file-last see (client_cfg_parser libc) f line fopen
          (chosen libc fopen os).1.sys.cfg_file (chosen libc fopen os).1
        ∙ cc (
          path-chosen,
          parse_options-last see (parse_option libc) g option os set_default_config options,
        )

    file_good :
        goes_on (from_file libc fopen os).0 (from_file libc fopen os).1.sys.cfg_file d_cli_cfg_file
        ≡ good_file d_cli_cfg_file (known_line libc) fopen (path_of os)
    file_good =
        ap (λ p. goes_on (from_file libc fopen os).0 p d_cli_cfg_file) path-from_file
        ∙ (ap
              (λ p.
                goes_on (parse_cfg_file (client_cfg_parser libc) fopen p (chosen libc fopen os).1).0
                  (path_of os) d_cli_cfg_file)
              path-chosen
            ∙ goes_on-good_file d_cli_cfg_file (client_cfg_parser libc) (known_line libc)
                (client_cfg_parser-known libc) fopen (path_of os) (chosen libc fopen os).1)

    type-from_file : (from_file libc fopen os).1.sock.type ≡ type
    type-from_file = observed (λ c. c.sock.type) _ _ (type_step libc) (type_line_step libc)

    user-from_file : cstr (from_file libc fopen os).1.auth.username ≡ user
    unfolding cstr
    user-from_file = observed (λ c. cstr c.auth.username) _ _ (user_step libc) (user_line_step libc)

    password-from_file : cstr (from_file libc fopen os).1.auth.password ≡ password
    unfolding cstr
    password-from_file =
        observed (λ c. cstr c.auth.password) _ _ (password_step libc) (password_line_step libc)

  -- What the options and the file must be for the client to start.
  pub record Startable : Type 0 where
    pub options : all (good_option libc) os ≡ true
    pub file : good_file d_cli_cfg_file (known_line libc) fopen (path_of os) ≡ true
    pub named : is_empty user ≡ false
    pub secret : is_empty password ≡ false
    pub udp : type ≡ sock_udp

  Startable-Starts : Startable → Starts libc fopen os (from_file libc fopen os).1
  Startable-Starts s =
      let options = is_done-eq _ (options_good ∙ s.options) in
      record {
        options = options;
        file = file_good options ∙ s.file;
        result = refl;
        user = is_empty-cstr _ ∙ (ap is_empty (user-from_file options) ∙ s.named);
        password = is_empty-cstr _ ∙ (ap is_empty (password-from_file options) ∙ s.secret);
        udp = type-from_file options ∙ s.udp;
      }

  Starts-Startable : (cfg : CliCfg) → Starts libc fopen os cfg → Startable
  Starts-Startable cfg s = record {
    options = sym options_good ∙ ap is_done s.options;
    file = sym (file_good s.options) ∙ s.file;
    named =
        sym (ap is_empty (user-from_file s.options))
        ∙ (ap (λ (c : CliCfg). is_empty (cstr c.auth.username)) s.result
            ∙ (sym (is_empty-cstr cfg.auth.username) ∙ s.user));
    secret =
        sym (ap is_empty (password-from_file s.options))
        ∙ (ap (λ (c : CliCfg). is_empty (cstr c.auth.password)) s.result
            ∙ (sym (is_empty-cstr cfg.auth.password) ∙ s.password));
    udp = sym (type-from_file s.options) ∙ (ap (λ (c : CliCfg). c.sock.type) s.result ∙ s.udp);
  }

  -- The client starts exactly if every option is one that it has, asks neither for help nor for the
  -- version and has an argument that is there and that it takes, the file that the options name can
  -- be read with every line known (or is the default one, and missing), there is a user and a
  -- password, neither of them empty, and the last type of socket that is named is UDP or there is
  -- none.
  pub run_client_iff : ((cfg : CliCfg) × (run_client libc fopen os ≡ runs cfg)) ↔ Startable
  run_client_iff = (
    λ (cfg, h). Starts-Startable cfg (run_client-Starts libc fopen os cfg h),
    λ s. (_, Starts-run_client libc fopen os _ (Startable-Starts s)),
  )

  -- The user and the password that the client starts with are the last ones of the file; where the
  -- file has none, those of the last `-u` and `-p`. Each is cut off at 255 bytes.
  pub auth-run_client :
      (cfg : CliCfg)
      → run_client libc fopen os ≡ runs cfg
      → (cstr cfg.auth.username ≡ user) × (cstr cfg.auth.password ≡ password)
  auth-run_client cfg h =
      let s = run_client-Starts libc fopen os cfg h in
      (
        sym (ap (λ (c : CliCfg). cstr c.auth.username) s.result) ∙ user-from_file s.options,
        sym (ap (λ (c : CliCfg). cstr c.auth.password) s.result) ∙ password-from_file s.options,
      )
