-- ===== src/User.antt =====
-- The user files: src/teavpn2/auth.c. The file system, the ini parser of the inih library and
-- strtoul() are parameters.
pub mod Parser
pub mod Laws
use teavpn.Common.{
  ℕ, ◌%◌, ◌^◌, Bool, true, false, not, ◌&&◌, ◌||◌, Option, none, some, List, [], ◌∷◌, ◌++◌, ◌==◌,
  leb, if◌then◌else◌, take, replicate, Ret, ret, fail, einval, eacces,
}
use teavpn.Packet.{cstr, strncpy2}

-- `validate_username_char`
abbrev pub validate_username_char : ℕ → Bool
validate_username_char c =
    (leb b'0' c && leb c b'9')
    || (leb b'A' c && leb c b'Z')
    || (leb b'a' c && leb c b'z')
    || (c == b'_')
    || (c == b'-')

-- The loop of `validate_username` over the bytes before the NUL.
unfoldable pub all_valid : List ℕ → Bool
all_valid [] = true
all_valid (c ∷ u) = if validate_username_char c then all_valid u else false

abbrev pub validate_username : List ℕ → Bool
validate_username u = all_valid (cstr u)

-- `!strcmp(a, b)` on the bytes before the NUL
unfoldable pub same_text : List ℕ → List ℕ → Bool
same_text [] [] = true
same_text [] (c ∷ b) = false
same_text (c ∷ a) [] = false
same_text (c ∷ a) (d ∷ b) = if c == d then same_text a b else false

-- `struct if_info` of a build without IPv6, the texts as fields of 16 bytes
pub record IfInfo : Type 0 where
  pub dev : List ℕ
  pub ipv4_pub : List ℕ
  pub ipv4 : List ℕ
  pub ipv4_netmask : List ℕ
  pub ipv4_dgateway : List ℕ
  pub ipv4_mtu : ℕ

-- `struct user_parse_ctx` without the pointers that do not change
pub record UserParseCtx : Type 0 where
  pub fuser : List ℕ
  pub fpass : List ℕ
  pub iff : IfInfo

-- What the ini parser hands over for a line, each a C string.
pub record Entry : Type 0 where
  pub section : List ℕ
  pub name : List ℕ
  pub val : List ℕ

-- What ini_parse_file() does with a file: the lines it hands over, and whether it returns 0.
pub record IniFile : Type 0 where
  pub entries : List Entry
  pub parsed : Bool

abbrev pub is_text : List ℕ → List ℕ → Bool
is_text s t = same_text (cstr s) t

abbrev pub auth_text : List ℕ
auth_text = b'a' ∷ b'u' ∷ b't' ∷ b'h' ∷ []

abbrev pub iface_text : List ℕ
iface_text = b'i' ∷ b'f' ∷ b'a' ∷ b'c' ∷ b'e' ∷ []

abbrev pub username_text : List ℕ
username_text = b'u' ∷ b's' ∷ b'e' ∷ b'r' ∷ b'n' ∷ b'a' ∷ b'm' ∷ b'e' ∷ []

abbrev pub password_text : List ℕ
password_text = b'p' ∷ b'a' ∷ b's' ∷ b's' ∷ b'w' ∷ b'o' ∷ b'r' ∷ b'd' ∷ []

abbrev pub mtu_text : List ℕ
mtu_text = b'm' ∷ b't' ∷ b'u' ∷ []

abbrev pub ipv4_text : List ℕ
ipv4_text = b'i' ∷ b'p' ∷ b'v' ∷ b'4' ∷ []

abbrev pub netmask_text : List ℕ
netmask_text =
    b'i' ∷ b'p' ∷ b'v' ∷ b'4' ∷ b'_' ∷ b'n' ∷ b'e' ∷ b't' ∷ b'm' ∷ b'a' ∷ b's' ∷ b'k' ∷ []

abbrev pub dgateway_text : List ℕ
dgateway_text =
    b'i' ∷ b'p' ∷ b'v' ∷ b'4' ∷ b'_' ∷ b'd' ∷ b'g' ∷ b'a' ∷ b't' ∷ b'e' ∷ b'w' ∷ b'a' ∷ b'y' ∷ []

-- `userfile_parse_auth`; that it wipes the parser's copy of the value is left out.
unfoldable pub userfile_parse_auth : UserParseCtx → Entry → UserParseCtx
userfile_parse_auth ctx e =
    if is_text e.name username_text
    then record ctx { fuser = strncpy2 e.val 256 }
    else if is_text e.name password_text
    then record ctx { fpass = strncpy2 e.val 256 }
    else ctx

-- `userfile_parse_iface`; the MTU is cut to 16 bits.
unfoldable pub userfile_parse_iface : (List ℕ → ℕ) → UserParseCtx → Entry → UserParseCtx
userfile_parse_iface strtoul ctx e =
    let iff = ctx.iff in
    if is_text e.name mtu_text
    then record ctx { iff = record iff { ipv4_mtu = strtoul e.val % 2 ^ 16 } }
    else if is_text e.name ipv4_text
    then record ctx { iff = record iff { ipv4 = strncpy2 e.val 16 } }
    else if is_text e.name netmask_text
    then record ctx { iff = record iff { ipv4_netmask = strncpy2 e.val 16 } }
    else if is_text e.name dgateway_text
    then record ctx { iff = record iff { ipv4_dgateway = strncpy2 e.val 16 } }
    else ctx

unfoldable pub userfile_parser : (List ℕ → ℕ) → UserParseCtx → Entry → UserParseCtx
userfile_parser strtoul ctx e =
    if is_text e.section auth_text
    then userfile_parse_auth ctx e
    else if is_text e.section iface_text
    then userfile_parse_iface strtoul ctx e
    else ctx

-- ini_parse_file() calls the parser once for each line, in order.
unfoldable pub parse_all : (List ℕ → ℕ) → UserParseCtx → List Entry → UserParseCtx
parse_all strtoul ctx [] = ctx
parse_all strtoul ctx (e ∷ es) = parse_all strtoul (userfile_parser strtoul ctx e) es

-- `memset(&ctx, 0, sizeof(ctx))`
abbrev pub zeroed_ctx : UserParseCtx
zeroed_ctx = record {
  fuser = replicate 256 0;
  fpass = replicate 256 0;
  iff = record {
    dev = replicate 16 0;
    ipv4_pub = replicate 16 0;
    ipv4 = replicate 16 0;
    ipv4_netmask = replicate 16 0;
    ipv4_dgateway = replicate 16 0;
    ipv4_mtu = 0;
  };
}

-- `_teavpn2_auth`: the result and `*iff`. A name in the file that differs is only reported.
unfoldable pub check_user_file : (List ℕ → ℕ) → IniFile → List ℕ → IfInfo → Ret × IfInfo
check_user_file strtoul file password iff =
    let ctx = parse_all strtoul zeroed_ctx file.entries in
    if not file.parsed
    then (fail einval, iff)
    else if not (same_text (cstr password) (cstr ctx.fpass))
    then (fail eacces, iff)
    else (ret 0, ctx.iff)

-- `"%s/users/%s.ini"`, cut to the 511 bytes that the buffer holds
abbrev pub user_path : List ℕ → List ℕ → List ℕ
user_path data_dir username = take 511 (
    cstr data_dir
    ++ (b'/' ∷ b'u' ∷ b's' ∷ b'e' ∷ b'r' ∷ b's' ∷ b'/' ∷ [])
    ++ cstr username
    ++ (b'.' ∷ b'i' ∷ b'n' ∷ b'i' ∷ []))

-- `teavpn2_auth`: the result and `*iff`; `fopen path` is `none` if the file cannot be opened.
unfoldable pub teavpn2_auth :
    (List ℕ → ℕ) → (List ℕ → Option IniFile) → List ℕ → List ℕ → List ℕ → IfInfo → Bool × IfInfo
teavpn2_auth strtoul fopen data_dir username password iff =
    if not (validate_username username)
    then (false, iff)
    else elim (fopen (user_path data_dir username)) [
      | none ↦ (false, iff)
      | some file ↦
          (let (r, iff') = check_user_file strtoul file password iff in
            elim r [ ret _ ↦ (true, iff') | fail _ ↦ (false, iff') ])
    ]
