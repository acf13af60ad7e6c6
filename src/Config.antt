-- ===== src/Config.antt =====
-- What the two entry points share (src/teavpn2/server/entry.c and src/teavpn2/client/entry.c): the
-- loop over the options of the command line, the reading of the configuration file, the socket type.
-- getopt_long(), fopen(), the ini parser and the functions of `Libc` are parameters.
pub mod SrvCfg
pub mod Server
pub mod CliCfg
pub mod Client
pub mod Loops
pub mod Files
pub mod Values
pub mod SockTypes
pub mod Fields
use Prim.Native.Char.{code}
use Prim.Native.String.{String}
use teavpn.Common.{
  ℕ, zero, suc, ◌-◌, ◌%◌, ◌^◌, Bool, true, false, ◌&&◌, Option, none, some, List, [], ◌∷◌, map,
  ◌==◌, if◌then◌else◌, Ret, ret, fail, einval, enoent,
}
use teavpn.Packet.{cstr, strncpy2}
use teavpn.User.{Entry, IniFile, is_text}

-- The bytes of a literal, which is always ASCII.
abbrev pub bytes : String → List ℕ
bytes String.[] = []
bytes (String.◌∷◌ c s) = code c ∷ bytes s

pub data ℤ : Type 0 where
  pos : ℕ → ℤ
  negsuc : ℕ → ℤ

-- The cast of an `int` to an unsigned integer of `w` bits.
abbrev pub cast : ℕ → ℤ → ℕ
cast w (pos n) = n % 2 ^ w
cast w (negsuc n) = 2 ^ w - 1 - n % 2 ^ w

-- The functions of the C library on texts and characters.
pub record Libc : Type 0 where
  pub atoi : List ℕ → ℤ
  pub strtoul : List ℕ → ℕ
  pub tolower : ℕ → ℕ

-- A result of getopt_long(): the option's character, and `optarg`, `none` for NULL.
pub record Opt : Type 0 where
  pub opt : ℕ
  pub optarg : Option (List ℕ)

-- How the switch on an option ends, and `parse_argv`: go on or return 0, return a negated errno, call
-- exit(0), or read through a null pointer.
pub data Outcome : Type 0 where
  done : Outcome
  failed : ℕ → Outcome
  exit_zero : Outcome
  crash : Outcome

-- A use of `optarg` that reads through the pointer.
abbrev pub with_arg : {A : Type 0} → Opt → A → (List ℕ → Outcome × A) → Outcome × A
with_arg {A} o cfg use_arg = elim o.optarg as (λ x. Outcome × A) [
  | none ↦ (crash, cfg)
  | some v ↦ use_arg v
]

-- A case that stores something made of the argument.
abbrev pub store : {A : Type 0} → Opt → A → (List ℕ → A) → Outcome × A
store o cfg change = with_arg o cfg (λ v. (done, change v))

-- `atoi(v) ? true : false`
abbrev pub is_set : ℤ → Bool
is_set (pos zero) = false
is_set (pos (suc n)) = true
is_set (negsuc n) = true

-- `tmp <= 0`
abbrev pub not_positive : ℤ → Bool
not_positive (pos zero) = true
not_positive (pos (suc n)) = false
not_positive (negsuc n) = true

-- The level of `-v`.
abbrev pub verbosity : Libc → Opt → ℕ
verbosity libc o = elim o.optarg [ none ↦ 6 | some v ↦ cast 8 (libc.atoi v) ]

abbrev pub esocktnosupport : ℕ
esocktnosupport = 94

-- What the loop makes of an option's end, where `rest` is what it makes of the options after it.
abbrev pub go_on : {A : Type 0} → Outcome × A → Outcome × A → Outcome × A
go_on (done, cfg) rest = rest
go_on (failed e, cfg) rest = (failed e, cfg)
go_on (exit_zero, cfg) rest = (exit_zero, cfg)
go_on (crash, cfg) rest = (crash, cfg)

-- The loop of `parse_argv` over what getopt_long() returns before -1.
unfoldable pub parse_options : {A : Type 0} → (A → Opt → Outcome × A) → List Opt → A → Outcome × A
parse_options step [] cfg = (done, cfg)
parse_options step (o ∷ os) cfg = let r = step cfg o in go_on r (parse_options step os r.1)

-- sock_type_t
pub data SockType : Type 0 where
  sock_udp sock_tcp : SockType

-- The text in `tmp`, a buffer of `n` bytes, in lower case.
abbrev pub lowered : Libc → ℕ → List ℕ → List ℕ
lowered libc n v = map libc.tolower (cstr (strncpy2 v n))

-- The choice by strcmp() on `tmp`; `none` is the error.
unfoldable pub parse_sock_type : Libc → ℕ → List ℕ → Option SockType
parse_sock_type libc n v =
    let tmp = lowered libc n v in
    if is_text tmp (bytes "tcp")
    then some sock_tcp
    else if is_text tmp (bytes "udp")
    then some sock_udp
    else none

-- ini_parse_file() hands over each line in turn, also after the handler has refused one, and keeps in
-- mind whether all were taken.
unfoldable pub parse_entries : {A : Type 0} → (A → Entry → Bool × A) → List Entry → A → Bool × A
parse_entries handler [] cfg = (true, cfg)
parse_entries handler (e ∷ es) cfg =
    let (ok, cfg') = handler cfg e in
    let (oks, cfg'') = parse_entries handler es cfg' in (ok && oks, cfg'')

-- What fopen() gives: errno, or a file with what the ini parser makes of it.
pub data Opened : Type 0 where
  no_file : ℕ → Opened
  opened : IniFile → Opened

-- The part of `parse_cfg_file` after fopen(). `parsed` says that the ini parser itself finds no
-- fault.
unfoldable pub parse_opened : {A : Type 0} → (A → Entry → Bool × A) → Opened → A → Ret × A
parse_opened handler (no_file e) cfg = (fail e, cfg)
parse_opened handler (opened f) cfg =
    let (ok, cfg') = parse_entries handler f.entries cfg in
    (if f.parsed && ok then ret 0 else fail einval, cfg')

-- `parse_cfg_file`; the path is `none` for NULL.
abbrev pub parse_cfg_file :
    {A : Type 0} → (A → Entry → Bool × A) → (List ℕ → Opened) → Option (List ℕ) → A → Ret × A
parse_cfg_file {A} handler fopen cfg_file cfg = elim cfg_file as (λ x. Ret × A) [
  | none ↦ (ret 0, cfg)
  | some path ↦ parse_opened handler (fopen path) cfg
]

abbrev pub is_path : Option (List ℕ) → List ℕ → Bool
is_path cfg_file path = elim cfg_file [ none ↦ false | some p ↦ is_text p path ]

-- Whether the program goes on after `parse_cfg_file`: a missing file at the default path is no error.
unfoldable pub goes_on : Ret → Option (List ℕ) → List ℕ → Bool
goes_on (ret zero) cfg_file default = true
goes_on (ret (suc n)) cfg_file default = false
goes_on (fail e) cfg_file default = e == enoent && is_path cfg_file default

-- The exit status of a result that is not 0.
abbrev pub status : Ret → ℕ
status (ret n) = n
status (fail e) = e

-- How the entry point ends, up to its call of the VPN proper with a configuration.
pub data Run (A : Type 0) : Type 0 where
  returns : ℕ → Run A
  exits_zero : Run A
  crashes : Run A
  runs : A → Run A
